-- ===== src/Tunnel/Stop.antt =====
-- Which processes `stop` and `restart` of client/aimless/tunnel.py signal.
use aimless.Prelude.{ℕ, ◌≡◌, true, false, ◌⊎◌, Text, nat_key}
use aimless.Prelude.Table
use aimless.Tunnel.{World, is_our_ssh, pid_alive}

-- A process that runs `ssh` with the local socket in its command line, or no live process at all.
abbrev pub IsOwn : World → Text → ℕ → Type 0
IsOwn w local_socket pid = (is_our_ssh w pid local_socket ≡ true) ⊎ (pid_alive w pid ≡ false)
