-- ===== src/Herdr/LineReader.antt =====
-- muxrd/src/multiplexer/herdr/subscribe.rs, `LineReader`: lines out of a buffered reader. What
-- `fill_buf` gives is a list of chunks, behind which the stream has ended. The check that bytes are
-- UTF-8 is `decode`.
pub mod Chunks
use muxr_core.Base.{
  ℕ, ◌*◌, Option, none, some, Bool, true, false, String, List, [], ◌∷◌, ◌++◌, ◌==◌, ltb, length,
  if◌then◌else◌,
}
use muxr_core.Routing.Names.{Bytes, is_empty}

abbrev pub max_event_line_bytes : ℕ
max_event_line_bytes = 1024 * 1024

abbrev pub newline : ℕ
newline = 10

-- One `fill_buf`: bytes, of which there are none only at the end, or an error.
pub data Fill : Type 0 where
  chunk : Bytes → Fill
  broken : Fill

pub data Read : Type 0 where
  line : String → Read
  eof : Read
  failed : Read

pub record LineReader : Type 0 where
  pub inner : List Fill
  pub pending : Bytes
  pub max_line : ℕ

abbrev pub new : List Fill → LineReader
new inner = record { inner = inner; pending = []; max_line = max_event_line_bytes }

unfoldable pub before_after : ℕ → Option (Bytes × Bytes) → Option (Bytes × Bytes)
before_after b none = none
before_after b (some (before, after)) = some (b ∷ before, after)

-- The bytes before the first newline and those after it.
unfoldable pub split_line : Bytes → Option (Bytes × Bytes)
unfolding before_after
split_line [] = none
split_line (b ∷ bs) =
    let rest = split_line bs in if b == newline then some ([], bs) else before_after b rest

unfoldable pub take_utf8 : (Bytes → Option String) → Bytes → Read
take_utf8 decode pending = elim (decode pending) [ none ↦ failed | some s ↦ line s ]

-- What is left of a chunk stays in the buffer.
abbrev pub consume : Bytes → List Fill → List Fill
consume [] inner = inner
consume (b ∷ bs) inner = chunk (b ∷ bs) ∷ inner

-- The stream has ended: a last line without its newline is given once.
unfoldable pub at_end : (Bytes → Option String) → List Fill → LineReader → Read × LineReader
unfolding take_utf8
at_end decode inner r =
    if is_empty r.pending
    then (eof, record r { inner = inner })
    else (take_utf8 decode r.pending, record r { inner = inner; pending = [] })

-- One pass of the loop on a chunk: a result, or the bytes that are pending for the next pass.
unfoldable pub on_chunk :
    (Bytes → Option String)
    → Bytes
    → List Fill
    → LineReader
    → Read × LineReader
    → Option (Bytes × Bytes)
    → Read × LineReader
unfolding take_utf8
on_chunk decode c inner r next (some (before, after)) =
    (take_utf8 decode (r.pending ++ before), record r { inner = consume after inner; pending = [] })
on_chunk decode c inner r next none =
    if ltb r.max_line (length (r.pending ++ c))
    then (failed, record r { inner = inner; pending = [] })
    else next

-- The loop, along what the stream gives.
unfoldable pub read_from : (Bytes → Option String) → List Fill → LineReader → Read × LineReader
unfolding at_end split_line on_chunk
read_from decode [] r = at_end decode [] r
read_from decode (broken ∷ inner) r = (failed, record r { inner = inner })
read_from decode (chunk [] ∷ inner) r = at_end decode inner r
read_from decode (chunk (b ∷ bs) ∷ inner) r =
    let next = read_from decode inner (record r { pending = r.pending ++ (b ∷ bs) }) in
    on_chunk decode (b ∷ bs) inner r next (split_line (b ∷ bs))

unfoldable pub next_line : (Bytes → Option String) → LineReader → Read × LineReader
unfolding read_from
next_line decode r = read_from decode r.inner r
