-- ===== src/Herdr/LineReader/Chunks.antt =====
-- A reader's lines do not depend on how the stream is cut into chunks.
use mathlib.Core.List.{append_assoc, append-nil}
use muxr_core.Base.{
  ℕ, ◌≤◌, ◌≡◌, refl, sym, ap, ◌∙◌, none, some, Option, false, inl, inr, Option-cases, subst, String,
  List, [], ◌∷◌, ◌++◌, length, length-append, if◌then◌else◌, arith,
}
use muxr_core.Routing.Names.{Bytes, is_empty}
use muxr_core.Herdr.LineReader.{
  Fill, chunk, broken, Read, eof, LineReader, before_after, split_line, take_utf8, consume, at_end,
  on_chunk, read_from, next_line,
}

-- Chunks that are bytes, at least one each.
abbrev pub Whole : List Fill → Type 0
Whole [] = Unit
Whole (broken ∷ cs) = ⊥
Whole (chunk [] ∷ cs) = ⊥
Whole (chunk (b ∷ bs) ∷ cs) = Whole cs

unfoldable pub bytes_of : List Fill → Bytes
bytes_of [] = []
bytes_of (broken ∷ cs) = bytes_of cs
bytes_of (chunk bs ∷ cs) = bs ++ bytes_of cs

-- The first line of the bytes, or all of them when they have no newline.
unfoldable pub first_line : Bytes → Bytes
unfolding split_line
first_line bs = elim (split_line bs) [ none ↦ bs | some (before, after) ↦ before ]

unfoldable pub rest_of : Bytes → Bytes
unfolding split_line
rest_of bs = elim (split_line bs) [ none ↦ [] | some (before, after) ↦ after ]

-- What a reader of all the bytes at once gives.
unfoldable pub first_read : (Bytes → Option String) → Bytes → Read
unfolding take_utf8 first_line
first_read decode bs = if is_empty bs then eof else take_utf8 decode (first_line bs)

abbrev behind : Bytes → Option (Bytes × Bytes) → Option (Bytes × Bytes)
behind xs none = none
behind xs (some (before, after)) = some (xs ++ before, after)

split_line-append :
    (xs ys : Bytes) → split_line xs ≡ none → split_line (xs ++ ys) ≡ behind xs (split_line ys)
unfolding split_line before_after
split_line-append [] ys h = ground arith
split_line-append (x ∷ xs) ys h = ground (arith, split_line-append xs ys)

split_line-found :
    (xs ys before after : Bytes)
    → split_line xs ≡ some (before, after)
    → split_line (xs ++ ys) ≡ some (before, after ++ ys)
unfolding split_line before_after
split_line-found [] ys before after h = ground arith
split_line-found (x ∷ xs) ys before after h = elim (Option-cases (split_line xs)) [
  | inl e ↦ ground arith
  | inr ((b, a), e) ↦ ground (arith, split_line-found xs ys b a e)
]

bytes_of-consume :
    (bs : Bytes) (inner : List Fill) → bytes_of (consume bs inner) ≡ bs ++ bytes_of inner
unfolding bytes_of
bytes_of-consume [] inner = refl
bytes_of-consume (b ∷ bs) inner = refl

is_empty-append : (xs ys : Bytes) (b : ℕ) → is_empty (xs ++ (b ∷ ys)) ≡ false
is_empty-append [] ys b = refl
is_empty-append (x ∷ xs) ys b = refl

first_line-none : (bs : Bytes) → split_line bs ≡ none → first_line bs ≡ bs
unfolding first_line
first_line-none bs h = rw (h, first_line) refl

length-first_line :
    (xs ys : Bytes) → split_line xs ≡ none → length xs ≤ length (first_line (xs ++ ys))
unfolding first_line
length-first_line xs ys h = elim (Option-cases (split_line ys)) [
  | inl e ↦ ground (arith, split_line-append xs ys h, length-append xs ys)
  | inr ((b, a), e) ↦ ground (arith, split_line-append xs ys h, length-append xs b)
]

-- The first line of the bytes is read, and the bytes behind it are left.
abbrev pub ReadsFirst : (Bytes → Option String) → Bytes → Read × LineReader → Type 0
ReadsFirst decode bs (res, r) =
    (res ≡ first_read decode bs) × (bytes_of r.inner ≡ rest_of bs) × (r.pending ≡ [])

module _ (decode : Bytes → Option String) where
  at_end-ReadsFirst :
      (r : LineReader)
      → split_line r.pending ≡ none
      → ReadsFirst decode r.pending (at_end decode [] r)
  unfolding at_end first_read rest_of bytes_of
  at_end-ReadsFirst r h = ground (arith, first_line-none r.pending h)

  on_chunk-found :
      (b : ℕ) (bs before after : Bytes) (inner : List Fill) (r : LineReader)
      (next : Read × LineReader)
      → split_line r.pending ≡ none
      → split_line (b ∷ bs) ≡ some (before, after)
      → ReadsFirst decode
          (r.pending ++ ((b ∷ bs) ++ bytes_of inner))
          (on_chunk decode (b ∷ bs) inner r next (some (before, after)))
  unfolding on_chunk first_read first_line rest_of
  on_chunk-found b bs before after inner r next h e =
      let found : split_line (r.pending ++ ((b ∷ bs) ++ bytes_of inner))
          ≡ some (r.pending ++ before, after ++ bytes_of inner) =
        split_line-append r.pending ((b ∷ bs) ++ bytes_of inner) h
        ∙ ap (behind r.pending) (split_line-found (b ∷ bs) (bytes_of inner) before after e) in
      ground (
        arith,
        found,
        is_empty-append r.pending (bs ++ bytes_of inner) b,
        bytes_of-consume after inner,
      )

  on_chunk-none :
      (b : ℕ) (bs : Bytes) (inner : List Fill) (r : LineReader)
      → split_line r.pending ≡ none
      → split_line (b ∷ bs) ≡ none
      → length (first_line (r.pending ++ ((b ∷ bs) ++ bytes_of inner))) ≤ r.max_line
      → (let pending = r.pending ++ (b ∷ bs) in
          split_line pending ≡ none
          → length (first_line (pending ++ bytes_of inner)) ≤ r.max_line
          → ReadsFirst decode
              (pending ++ bytes_of inner)
              (read_from decode inner (record r { pending = pending })))
      → ReadsFirst decode (r.pending ++ ((b ∷ bs) ++ bytes_of inner)) (
          on_chunk decode
            (b ∷ bs)
            inner
            r
            (read_from decode inner (record r { pending = r.pending ++ (b ∷ bs) }))
            none)
  unfolding on_chunk
  on_chunk-none b bs inner r h e fits next =
      let apart : split_line (r.pending ++ (b ∷ bs)) ≡ none =
        split_line-append r.pending (b ∷ bs) h ∙ ap (behind r.pending) e in
      let joined : (r.pending ++ (b ∷ bs)) ++ bytes_of inner
          ≡ r.pending ++ ((b ∷ bs) ++ bytes_of inner) =
        append_assoc r.pending (b ∷ bs) (bytes_of inner) in
      let short : length (first_line ((r.pending ++ (b ∷ bs)) ++ bytes_of inner)) ≤ r.max_line =
        subst (λ (t : Bytes). length (first_line t) ≤ r.max_line) (sym joined) fits in
      let read : ReadsFirst decode (r.pending ++ ((b ∷ bs) ++ bytes_of inner))
          (read_from decode inner (record r { pending = r.pending ++ (b ∷ bs) })) =
        subst
          (λ (t : Bytes).
            ReadsFirst decode t
              (read_from decode inner (record r { pending = r.pending ++ (b ∷ bs) })))
          joined (next apart short) in
      ground (arith, length-first_line (r.pending ++ (b ∷ bs)) (bytes_of inner) apart, short, read)

  -- One call along any whole chunks, while the first line fits the cap.
  pub read_from-ReadsFirst :
      (inner : List Fill) (r : LineReader)
      → Whole inner
      → split_line r.pending ≡ none
      → length (first_line (r.pending ++ bytes_of inner)) ≤ r.max_line
      → ReadsFirst decode (r.pending ++ bytes_of inner) (read_from decode inner r)
  unfolding read_from bytes_of
  read_from-ReadsFirst [] r w h fits =
      subst (λ (bs : Bytes). ReadsFirst decode bs (at_end decode [] r)) (sym (append-nil r.pending))
        (at_end-ReadsFirst r h)
  read_from-ReadsFirst (broken ∷ inner) r w h fits = elim w [ ]
  read_from-ReadsFirst (chunk [] ∷ inner) r w h fits = elim w [ ]
  read_from-ReadsFirst (chunk (b ∷ bs) ∷ inner) r w h fits =
      elim (Option-cases (split_line (b ∷ bs))) [
        | inl e ↦
            rw (e, bytes_of)
              (on_chunk-none b bs inner r h e fits (λ n m.
                read_from-ReadsFirst inner (record r { pending = r.pending ++ (b ∷ bs) }) w n m))
        | inr ((before, after), e) ↦
            rw (e, bytes_of)
              (on_chunk-found b bs before after inner r
                (read_from decode inner (record r { pending = r.pending ++ (b ∷ bs) })) h e)
      ]

  -- A reader on which the line fits the cap gives the first line of the bytes that are still to
  -- come, however these are cut into chunks, and leaves the bytes behind it.
  pub next_line-ReadsFirst :
      (r : LineReader)
      → Whole r.inner
      → split_line r.pending ≡ none
      → length (first_line (r.pending ++ bytes_of r.inner)) ≤ r.max_line
      → ReadsFirst decode (r.pending ++ bytes_of r.inner) (next_line decode r)
  unfolding next_line
  next_line-ReadsFirst r w h fits = read_from-ReadsFirst r.inner r w h fits
