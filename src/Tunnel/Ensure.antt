-- ===== src/Tunnel/Ensure.antt =====
-- What `ensure` and `restart` of client/aimless/tunnel.py report.
use aimless.Prelude.{
  ◌+◌, ◌≡◌, refl, Bool, true, false, not, ◌&&◌, ◌||◌, some, List, [], ◌∷◌, Text, arith, any,
  text_eq, text_eq_iff, text_key, nat_key, Bool-cases, inl, inr,
}
use aimless.Prelude.Table
use aimless.Tunnel.{
  World, TunnelSupervisor, Restart, Sight, is_running, restart, pid_alive, spawn, stop, kill_if,
  to_stop, wait_for_socket,
}

pub same_child :
    (sights : List Sight) (t : TunnelSupervisor)
    → ((wait_for_socket sights t).0.child ≡ t.child)
      × ((wait_for_socket sights t).0.local_socket ≡ t.local_socket)
      × ((wait_for_socket sights t).0.restarts ≡ t.restarts)
unfolding wait_for_socket
same_child [] t = (refl, refl, refl)
same_child (s ∷ sights) t = ground (arith, same_child sights t)

alive :
    (ssh_opts : List Text) (r : Restart) (t : TunnelSupervisor) (w : World)
    → pid_alive (restart ssh_opts r (t, w)).0.1 r.pid ≡ true
unfolding restart spawn pid_alive Table.find
alive ssh_opts r t w = ground arith

any-delete :
    (k : Text) (xs : List Text) → any (text_eq k) (Table.delete (λ (s : Text). s) k xs) ≡ false
unfolding any Table.delete
any-delete k [] = refl
any-delete k (x ∷ xs) = ground (arith, any-delete k xs, text_eq_iff x k, text_eq_iff k x)

-- A restart reports whether the tunnel is up.
pub restart-is_running :
    (ssh_opts : List Text) (r : Restart) (t : TunnelSupervisor) (w : World)
    → is_running (restart ssh_opts r (t, w)).0.0 (restart ssh_opts r (t, w)).0.1
      ≡ (restart ssh_opts r (t, w)).1
unfolding restart is_running spawn stop any
restart-is_running ssh_opts r t w =
    let t2 = record t { child = some r.pid; restarts = t.restarts + 1 } in
    let (c, l, _) = same_child r.sights t2 in
    let here : text_eq t.local_socket t.local_socket ≡ true =
      (text_eq_iff t.local_socket t.local_socket).1 refl in
    let gone = any-delete t.local_socket (kill_if r.ends (to_stop t w) w).sockets in
    elim (Bool-cases (wait_for_socket r.sights t2).1) [
      | inl up ↦ rw c (rw l (rw up (rw here (ground (arith, alive ssh_opts r t w)))))
      | inr down ↦ rw c (rw l (rw down (ground (arith, alive ssh_opts r t w, gone))))
    ]

-- The socket is seen before the child has ended.
abbrev pub appears : List Sight → Bool
appears [] = false
appears (s ∷ sights) = not s.ended && (s.present || appears sights)

wait_for_socket-appears :
    (sights : List Sight) (t : TunnelSupervisor) → (wait_for_socket sights t).1 ≡ appears sights
unfolding wait_for_socket
wait_for_socket-appears [] t = refl
wait_for_socket-appears (s ∷ sights) t = ground (arith, wait_for_socket-appears sights t)

pub restart-appears :
    (ssh_opts : List Text) (r : Restart) (t : TunnelSupervisor) (w : World)
    → (restart ssh_opts r (t, w)).1 ≡ appears r.sights
unfolding restart
restart-appears ssh_opts r t w = wait_for_socket-appears r.sights _
