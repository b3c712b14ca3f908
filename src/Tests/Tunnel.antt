-- ===== src/Tests/Tunnel.antt =====
-- The theorems about the SSH tunnel at a concrete remote, process and sequence of events.
use aimless.Prelude.{◌≡◌, refl, true, false, none, some, [], ◌∷◌, codes, nat_key}
use aimless.Prelude.Table
use aimless.Tunnel.{World, TunnelSupervisor, new_supervisor, Remote, Restart, cmdline}
use aimless.Tunnel.Stop
use aimless.Tunnel.Ensure
use aimless.Tunnel.Monitor.{App, probe_tunnel, start}
use aimless.Tunnel.Monitor.Timers
use aimless.Tunnel.Monitor.Recovery

abbrev remote : Remote
remote = record {
  host = codes "me@host";
  socket = codes "/srv/api.sock";
  local_socket = codes "/run/remote.sock";
}

unfoldable supervisor : TunnelSupervisor
unfolding new_supervisor
supervisor = new_supervisor remote

-- A process with the id of the file that is no tunnel.
abbrev stale : World
stale = record {
  procs = (record { pid = 7; zombie = false; cmdline = codes "/usr/bin/vim" ∷ [] }) ∷ [];
  sockets = codes "/run/remote.sock" ∷ [];
  pid_file = some 7;
  signals = [];
}

abbrev success : Restart
success = record {
  ends = true;
  writes = true;
  pid = 9;
  sights =
      (record { ended = false; present = false }) ∷ (record { ended = false; present = true }) ∷ [];
}

-- A supervisor with a child, which runs and does not end on SIGTERM.
unfoldable with_child : TunnelSupervisor
unfolding supervisor
with_child = record supervisor { child = some 5 }

abbrev tunnelled : World
tunnelled = record stale {
  procs =
      (record {
        pid = 5;
        zombie = false;
        cmdline = codes "ssh" ∷ codes "/run/remote.sock:/srv/api.sock" ∷ [];
      })
      ∷ stale.procs;
}

abbrev stubborn : Restart
stubborn = record success { ends = false }

-- No process and no socket.
abbrev down : World
down = record { procs = []; sockets = []; pid_file = none; signals = [] }

unfoldable app : App
unfolding supervisor
app = record {
  tunnel = supervisor;
  world = down;
  external = true;
  quitting = false;
  awaiting_connect = false;
  tunnel_restarting = false;
  tunnel_fail = 0;
  daemon_down_logged = false;
  probing = true;
  confirms = 0;
  timers = [];
  rewatches = 0;
}

-- The application while it waits for its first connection.
unfoldable waiting : App
unfolding app
waiting = record app { awaiting_connect = true }

Reach-probing_example : (probe_tunnel none waiting).probing ≡ false
unfolding waiting
Reach-probing_example = Timers.Reach-probing [] waiting none (probe_tunnel none waiting) refl start
