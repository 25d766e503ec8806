-- ===== src/Herdr/Kernel/Coverage.antt =====
-- From the enumeration to the pump, in muxrd/src/multiplexer/herdr/subscribe.rs: no pane that the
-- lifecycle connection announced is left without a status subscription.
use muxr_core.Base.{
  ◌≡◌, refl, ap, ◌∙◌, String, List, [], Bool, not, ◌&&◌, ◌||◌, contains, string_key,
}
use muxr_core.Herdr.Kernel.Lines.{Json}
use muxr_core.Herdr.Kernel.Backoff.{Tuning}
use muxr_core.Herdr.Kernel.Bootstrap.{
  bootstrap_pane_set, created_in, gone_in, contains-bootstrap_pane_set,
}
use muxr_core.Herdr.Kernel.Resync.{Control}
use muxr_core.Herdr.Kernel.Pump.{Conn, Session, Tick, pumping, pump}
use muxr_core.Herdr.Kernel.Pump.Covered.{told, pump-subscribed}
use muxr_core.Herdr.Kernel.Connect.{
  Bring, bring_waiting, bring_shutdown, bring_failed, bring_lifecycle_lost, ready, Opening,
  EnumTick, enumerated, Building, enumerate, commit, subscribe_panes, open_subscription,
  connect_status,
}

commit-subscribed :
    (control : Control) (ids : List String) (r : Bring) (b : Building) (c : Conn)
    → (commit control ids r b).1 ≡ ready c
    → (commit control ids r b).0.subscribed ≡ ids
unfolding commit
commit-subscribed control ids (ready d) b c h = refl
commit-subscribed control ids bring_waiting b c h = cc
commit-subscribed control ids bring_shutdown b c h = cc
commit-subscribed control ids bring_failed b c h = cc
commit-subscribed control ids bring_lifecycle_lost b c h = cc

module _ (json : Json) (ticks : List EnumTick) (o : Opening) (control : Control)
    (b : Building) where
  connect_status-subscribed :
      (ids lines : List String) (c : Conn)
      → (enumerate ticks [] b.lifecycle).0 ≡ enumerated ids lines
      → (connect_status json ticks o control b).1 ≡ ready c
      → (connect_status json ticks o control b).0.subscribed ≡ bootstrap_pane_set json ids lines
  unfolding connect_status subscribe_panes
  connect_status-subscribed ids lines c e =
      rw (e, connect_status, subscribe_panes)
        (λ h.
          commit-subscribed control (bootstrap_pane_set json ids lines) (open_subscription json o)
            (record b { lifecycle = (enumerate ticks [] b.lifecycle).1 }) c h)

  -- After the status connection is built, and while the pump goes on, a pane is subscribed exactly
  -- if the lifecycle lines since then say so, starting from the panes that the enumeration has or a
  -- line buffered meanwhile announces, less those that a buffered line reports gone.
  pub connect_status-pump :
      (tuning : Tuning) (ids lines : List String) (c : Conn) (ts : List Tick) (s : Session)
      (id : String)
      → (enumerate ticks [] b.lifecycle).0 ≡ enumerated ids lines
      → (connect_status json ticks o control b).1 ≡ ready c
      → s.subscribed ≡ (connect_status json ticks o control b).0.subscribed
      → (pump json tuning ts s).1 ≡ pumping
      → contains id (pump json tuning ts s).0.subscribed
        ≡ told json id
            ((contains id ids || created_in json id lines) && not (gone_in json id lines))
            ts
  connect_status-pump tuning ids lines c ts s id e h k p =
      pump-subscribed json tuning id ts s p
      ∙ ap (λ (t : Bool). told json id t ts)
          (ap (contains id) (k ∙ connect_status-subscribed ids lines c e h)
            ∙ contains-bootstrap_pane_set json ids lines id)
