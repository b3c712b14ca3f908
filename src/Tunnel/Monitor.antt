-- ===== src/Tunnel/Monitor.antt =====
-- client/aimless/gtkui.py, the monitoring of the SSH tunnel by AimlessApp.
--
-- The timers that GLib holds for the methods stand in the state; an event is the firing of a timer.
pub mod Timers
pub mod Recovery
use aimless.Prelude.{
  ◌≡◌, ℕ, zero, suc, ◌+◌, Bool, true, false, not, ◌&&◌, ◌||◌, Option, none, some, List, [], ◌∷◌,
  ◌++◌, Text, ◌==◌, if◌then◌else◌,
}
use aimless.Tunnel.{
  World, TunnelSupervisor, Restart, is_running, restart, probe, next_backoff, reset_backoff,
}

-- What the methods read and change of AimlessApp. `probing` tells whether the periodic timer of
-- `probe_tunnel` is set, `confirms` counts the pending timers of `_confirm_tunnel`, `timers` holds the
-- delays of those of `_do_tunnel_restart`, and `rewatches` counts the calls of `rewatch`.
pub record App : Type 0 where
  pub tunnel : TunnelSupervisor
  pub world : World
  pub external : Bool
  pub quitting : Bool
  pub awaiting_connect : Bool
  pub tunnel_restarting : Bool
  pub tunnel_fail : ℕ
  pub daemon_down_logged : Bool
  pub probing : Bool
  pub confirms : ℕ
  pub timers : List ℕ
  pub rewatches : ℕ

-- `_schedule_tunnel_restart`
unfoldable pub schedule_tunnel_restart : App → App
unfolding next_backoff
schedule_tunnel_restart a =
    if a.tunnel_restarting || a.quitting
    then a
    else (let (t, delay) = next_backoff a.tunnel in
        record a { tunnel = t; tunnel_restarting = true; timers = a.timers ++ delay ∷ [] })

-- `_confirm_tunnel`
unfoldable pub confirm_tunnel : App → App
unfolding schedule_tunnel_restart
confirm_tunnel a =
    if a.quitting || a.tunnel_restarting
    then a
    else if is_running a.tunnel a.world
    then record a { tunnel_fail = 0 }
    else schedule_tunnel_restart (record a { tunnel_fail = 0 })

-- The round trip of `probe_tunnel`, with the error if it fails
unfoldable pub probe_daemon : Option Text → App → App
unfolding probe
probe_daemon error a =
    let (t, ok) = probe error a.tunnel in
    record a { tunnel = t; tunnel_fail = 0; daemon_down_logged = not ok }

-- `probe_tunnel`; the result False, on which GLib removes the timer, is in `probing`.
unfoldable pub probe_tunnel : Option Text → App → App
unfolding schedule_tunnel_restart probe_daemon
probe_tunnel error a =
    if a.quitting || not a.external || a.awaiting_connect
    then record a { probing = false }
    else if a.tunnel_restarting
    then a
    else if is_running a.tunnel a.world
    then probe_daemon error a
    else if a.tunnel_fail == 0
    then record a { tunnel_fail = 1; confirms = a.confirms + 1 }
    else schedule_tunnel_restart (record a { tunnel_fail = 0 })

-- `_do_tunnel_restart`
unfoldable pub do_tunnel_restart : List Text → Restart → App → App
unfolding schedule_tunnel_restart
do_tunnel_restart ssh_opts r a =
    if a.quitting
    then record a { tunnel_restarting = false }
    else (let ((t, w), ok) = restart ssh_opts r (a.tunnel, a.world) in
        let a1 = record a { tunnel = t; world = w; tunnel_restarting = false } in
        if ok
        then record a1 { tunnel = reset_backoff t; rewatches = a.rewatches + 1 }
        else schedule_tunnel_restart a1)

-- `poll` with an external daemon
unfoldable pub poll : App → App
unfolding schedule_tunnel_restart
poll a =
    if a.quitting || not a.external || a.awaiting_connect
    then a
    else if not a.tunnel_restarting && not (is_running a.tunnel a.world)
    then schedule_tunnel_restart a
    else a

-- The events: the periodic timers, the timers that the methods set, the end of the connecting
-- phase, the call of `quit`, and what else happens in the system.
pub data Event (ssh_opts : List Text) : App → App → Type 0 where
  probes :
      {a : App} (error : Option Text) → a.probing ≡ true → Event ssh_opts a (probe_tunnel error a)
  confirms_down :
      {a : App} (n : ℕ)
      → a.confirms ≡ suc n
      → Event ssh_opts a (confirm_tunnel (record a { confirms = n }))
  restarts :
      {a : App} (r : Restart) (delay : ℕ) (later : List ℕ)
      → a.timers ≡ delay ∷ later
      → Event ssh_opts a (do_tunnel_restart ssh_opts r (record a { timers = later }))
  polls : {a : App} → Event ssh_opts a (poll a)
  connects :
      {a : App} (t : TunnelSupervisor)
      → Event ssh_opts a (record a { tunnel = t; awaiting_connect = false })
  quits : {a : App} → Event ssh_opts a (record a { quitting = true })
  changes : {a : App} (w : World) → Event ssh_opts a (record a { world = w })

-- The states that a sequence of events leads to
pub data Reach (ssh_opts : List Text) (first : App) : App → Type 0 where
  start : Reach ssh_opts first first
  after : {a b : App} → Reach ssh_opts first a → Event ssh_opts a b → Reach ssh_opts first b
