-- ===== src/Tests/Resumes.antt =====
-- muxrd/src/multiplexer/herdr/relay.rs: an attach with hints.
use muxr_core.Base.{
  ◌≡◌, refl, none, some, true, [], ◌∷◌, String, ite, string_discrete, ℕ_discrete, lookup, insert,
  is_some,
}
use muxr_core.Herdr.PaneRegistry
use muxr_core.Herdr.TabRegistry
use muxr_core.Herdr.Kernel.Lines.{herdr_idle}
use muxr_core.Herdr.Kernel.Resync.{PaneInfo}
use muxr_core.Herdr.Resume.{Registries, Listing, resolve_attach_target_with}
use muxr_core.Herdr.Resume.Lands.{Landed, resolve_attach_target-Landed}

abbrev pane : String → String → PaneInfo
pane id terminal = record {
  pane_id = id;
  terminal_id = terminal;
  tab_id = "t1";
  title = none;
  agent = none;
  display_agent = none;
  focused = true;
  agent_status = herdr_idle;
}

abbrev list_panes : Listing
list_panes workspace =
    ite (string_discrete workspace "home") (some (pane "p1" "one" ∷ pane "p2" "two" ∷ [])) none

abbrev registries : Registries
registries = record { panes = PaneRegistry.new; tabs = TabRegistry.new }

resolve-stale :
    (resolve_attach_target_with list_panes "home"
      (some "p1")
      (some "t1")
      (some "away")
      registries).1
    ≡ some (record { workspace_id = "home"; tab_id = 1; pane_id = 1; terminal_id = "one" })
unfolding resolve_attach_target_with PaneRegistry.assign_or_get TabRegistry.assign_or_get
    string_discrete ℕ_discrete lookup insert
resolve-stale = refl

resolve_attach_target-Landed_example :
    let r =
      resolve_attach_target_with list_panes "home" (some "p1") none (some "away") registries in
    (is_some r.1 ≡ true) × Landed list_panes r
unfolding string_discrete
resolve_attach_target-Landed_example =
    resolve_attach_target-Landed list_panes "home" (some "p1") none (some "away") registries
      (pane "p1" "one") (pane "p2" "two" ∷ []) refl
