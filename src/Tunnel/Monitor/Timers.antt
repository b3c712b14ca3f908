-- ===== src/Tunnel/Monitor/Timers.antt =====
-- The timers of the tunnel's monitoring in client/aimless/gtkui.py.
use aimless.Prelude.{
  ℕ, leb, length, all, ◌≤◌, ◌≡◌, refl, Bool, true, false, Option, List, [], ◌∷◌, Text, arith, ◌&&◌,
}
use aimless.Tunnel.Monitor.{
  App, schedule_tunnel_restart, confirm_tunnel, probe_tunnel, do_tunnel_restart, poll, Event, Reach,
  start, after, probes, confirms_down, restarts, polls, connects, quits, changes,
}

-- A delay of the backoff
abbrev pub IsDelay : ℕ → Type 0
IsDelay d = (2 ≤ d) × (d ≤ 30)

-- One timer of `_do_tunnel_restart` is pending while a restart is, and none otherwise.
abbrev pub is_delay : ℕ → Bool
is_delay d = leb 2 d && leb d 30

abbrev pub one_if : Bool → ℕ
one_if true = 1
one_if false = 0

abbrev pub IsConsistent : App → Type 0
IsConsistent a = (length a.timers ≡ one_if a.tunnel_restarting) × (all is_delay a.timers ≡ true)

pub length_one : (xs : List ℕ) → length xs ≡ 1 → (x : ℕ) × (xs ≡ x ∷ [])
length_one (x ∷ []) h = (x, refl)
length_one [] h = absurd (omega (arith, h))
length_one (x ∷ y ∷ ys) h = absurd (omega (arith, h))

pub length_zero : (xs : List ℕ) → length xs ≡ 0 → xs ≡ []
length_zero [] h = refl
length_zero (x ∷ xs) h = absurd (omega (arith, h))

Event-probing :
    {ssh_opts : List Text} {a b : App} → Event ssh_opts a b → a.probing ≡ false → b.probing ≡ false
unfolding confirm_tunnel schedule_tunnel_restart do_tunnel_restart poll
Event-probing (probes error p) h = absurd (ground (arith, p, h))
Event-probing (confirms_down n p) h = ground (arith, h)
Event-probing (restarts r delay later p) h = ground (arith, h)
Event-probing polls h = ground (arith, h)
Event-probing (connects t) h = h
Event-probing quits h = h
Event-probing (changes w) h = h

-- Once the timer of the probe has fired while the application still waits for its first connection,
-- that timer is set in no later state, so that the tunnel is never probed again.
pub Reach-probing :
    (ssh_opts : List Text) (first : App) (error : Option Text) (a : App)
    → first.awaiting_connect ≡ true
    → Reach ssh_opts (probe_tunnel error first) a
    → a.probing ≡ false
unfolding probe_tunnel
Reach-probing ssh_opts first error a waits start = ground (arith, waits)
Reach-probing ssh_opts first error a waits (after {a = b} reach event) =
    Event-probing event (Reach-probing ssh_opts first error b waits reach)
