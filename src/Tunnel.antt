-- ===== src/Tunnel.antt =====
-- client/aimless/tunnel.py: the supervisor of the SSH tunnel to a remote daemon.
--
-- What the methods read and change of the operating system is the record `World`: the processes, the
-- socket files, the file with the process id, and the signals that were sent, the newest last. Times
-- and log lines are left out; what a wait or a poll sees stands in the arguments. The files that are
-- removed can be removed, and a child is its process id: as long as the supervisor holds a child, no
-- other process is given that id, which `is_running` would not see.
pub mod Stop
pub mod Ensure
pub mod Monitor
use aimless.Prelude.{
  ℕ, suc, ◌+◌, Bool, true, false, not, ◌&&◌, ◌||◌, Option, none, some, List, [], ◌∷◌, ◌++◌, Text,
  text_eq, text_key, codes, any, get_elem?, ltb, nat_key, if◌then◌else◌, ◌==◌, min,
}
use aimless.Prelude.Table

pub record Remote : Type 0 where
  pub host : Text
  pub socket : Text
  pub local_socket : Text

-- A process of the user, by `/proc/<pid>`: the state, and the command line at the zero bytes.
pub record Proc : Type 0 where
  pub pid : ℕ
  pub zombie : Bool
  pub cmdline : List Text

pub data Signal : Type 0 where
  sigterm sigkill : Signal

pub record World : Type 0 where
  pub procs : List Proc
  pub sockets : List Text
  pub pid_file : Option ℕ
  pub signals : List (Signal × ℕ)

pub record TunnelSupervisor : Type 0 where
  pub host : Text
  pub remote_socket : Text
  pub local_socket : Text
  pub child : Option ℕ
  pub restarts : ℕ
  pub last_error : Text
  pub backoff_index : ℕ

-- `TunnelSupervisor.__init__`
unfoldable pub new_supervisor : Remote → TunnelSupervisor
new_supervisor remote = record {
  host = remote.host;
  remote_socket = remote.socket;
  local_socket = remote.local_socket;
  child = none;
  restarts = 0;
  last_error = [];
  backoff_index = 0;
}

-- The values of the "remote" block of the preferences, `none` where a value is missing.
pub record RemotePrefs : Type 0 where
  pub host : Option Text
  pub socket : Option Text
  pub local_socket : Option Text

-- `value or default`
abbrev pub or_else : Option Text → Text → Text
or_else none default = default
or_else (some []) default = default
or_else (some (c ∷ cs)) default = c ∷ cs

-- `remote_config`, with the block of the file if that is a dictionary, and `default_local_socket()`
unfoldable pub remote_config : Option RemotePrefs → Text → Option Remote
remote_config none default = none
remote_config (some p) default =
    let host = or_else p.host [] in
    let socket = or_else p.socket [] in
    if text_eq host [] || text_eq socket []
    then none
    else some
        (record { host = host; socket = socket; local_socket = or_else p.local_socket default })

-- `client_socket`, of the environment variable, the remote block and the socket of the local daemon
unfoldable pub client_socket : Option Text → Option Remote → Text → Text
client_socket env remote local =
    or_else env (elim remote [ none ↦ local | some r ↦ r.local_socket ])

-- `_pid_alive`, with `_pid_zombie`
unfoldable pub pid_alive : World → ℕ → Bool
pid_alive w pid = elim (Table.find Proc.pid pid w.procs) [ none ↦ false | some p ↦ not p.zombie ]

-- `_cmdline`
unfoldable pub cmdline : World → ℕ → List Text
cmdline w pid = elim (Table.find Proc.pid pid w.procs) [ none ↦ [] | some p ↦ p.cmdline ]

-- `os.path.basename`: the text behind the last slash, `base` so far
unfoldable pub basename_from : Text → Text → Text
basename_from base [] = base
basename_from base (c ∷ cs) = basename_from (if c == b'/' then [] else base ++ c ∷ []) cs

unfoldable pub is_prefix : Text → Text → Bool
is_prefix [] text = true
is_prefix (p ∷ ps) [] = false
is_prefix (p ∷ ps) (c ∷ cs) = p == c && is_prefix ps cs

-- `sub in text`
unfoldable pub is_infix : Text → Text → Bool
unfolding is_prefix
is_infix sub [] = is_prefix sub []
is_infix sub (c ∷ cs) = is_prefix sub (c ∷ cs) || is_infix sub cs

-- `_is_our_ssh`
unfoldable pub is_our_ssh : World → ℕ → Text → Bool
unfolding cmdline basename_from is_infix
is_our_ssh w pid local_socket_path = elim (cmdline w pid) [
  | [] ↦ false
  | program ∷ args ↦
      text_eq (basename_from [] program) (codes "ssh")
      && any (is_infix local_socket_path) (program ∷ args)
]

-- `os.path.exists(self.local_socket)`
abbrev pub socket_exists : TunnelSupervisor → World → Bool
socket_exists t w = any (text_eq t.local_socket) w.sockets

abbrev pub file_alive : Option ℕ → World → Bool
file_alive none w = false
file_alive (some pid) w = not (pid == 0) && pid_alive w pid

-- `is_running`
unfoldable pub is_running : TunnelSupervisor → World → Bool
unfolding pid_alive
is_running t w = elim t.child [
  | none ↦ file_alive w.pid_file w && socket_exists t w
  | some pid ↦
      if pid_alive w pid then socket_exists t w else file_alive w.pid_file w && socket_exists t w
]

-- `ssh_argv`
unfoldable pub ssh_argv : List Text → TunnelSupervisor → List Text
ssh_argv ssh_opts t =
    codes "ssh"
    ∷ codes "-N"
    ∷ (ssh_opts ++ codes "-L" ∷ (t.local_socket ++ b':' ∷ t.remote_socket) ∷ t.host ∷ [])

-- `spawn`: `Popen` with the process id that the system gives, and `_write_pid`, which swallows the
-- exception where the file cannot be opened.
unfoldable pub spawn : List Text → Bool → ℕ → TunnelSupervisor × World → TunnelSupervisor × World
unfolding ssh_argv
spawn ssh_opts writes pid (t, w) = (
  record t { child = some pid },
  record w {
    procs = (record { pid = pid; zombie = false; cmdline = ssh_argv ssh_opts t }) ∷ w.procs;
    pid_file = if writes then some pid else w.pid_file;
  },
)

-- `os.kill(pid, SIGTERM)` and `_reap`: SIGKILL follows where the process does not end in time.
unfoldable pub kill : Bool → ℕ → World → World
kill ends pid w = record w {
  procs = Table.delete Proc.pid pid w.procs;
  signals = w.signals ++ (sigterm, pid) ∷ (if ends then [] else (sigkill, pid) ∷ []);
}

-- The process that `stop` signals: the child, or the one of the file if it is the tunnel.
unfoldable pub to_stop : TunnelSupervisor → World → Option ℕ
unfolding is_our_ssh
to_stop t w = elim t.child [
  | some pid ↦ some pid
  | none ↦ elim w.pid_file [
    | none ↦ none
    | some pid ↦ if not (pid == 0) && is_our_ssh w pid t.local_socket then some pid else none
  ]
]

-- `stop`: the signals, to the process that `to_stop` names
abbrev pub kill_if : Bool → Option ℕ → World → World
unfolding kill
kill_if ends none w = w
kill_if ends (some pid) w = kill ends pid w

-- `stop`, with whether the process ends by itself on SIGTERM
unfoldable pub stop : Bool → TunnelSupervisor × World → TunnelSupervisor × World
unfolding to_stop kill
stop ends (t, w) =
    let w1 = kill_if ends (to_stop t w) w in
    (
      record t { child = none },
      record w1 {
        pid_file = none;
        sockets = Table.delete (λ (s : Text). s) t.local_socket w1.sockets;
      },
    )

-- What one round of `wait_for_socket` sees: whether the child has ended, and whether the socket is
-- there.
pub record Sight : Type 0 where
  pub ended : Bool
  pub present : Bool

-- `wait_for_socket`: the rounds until the deadline
unfoldable pub wait_for_socket : List Sight → TunnelSupervisor → TunnelSupervisor × Bool
wait_for_socket [] t = (record t { last_error = codes "tunnel socket did not appear" }, false)
wait_for_socket (s ∷ sights) t =
    if s.ended
    then (record t { last_error = codes "ssh exited immediately" }, false)
    else if s.present
    then (t, true)
    else wait_for_socket sights t

-- What the system does during a restart: whether the old process ends on SIGTERM, whether the file of
-- the process id can be written, the id of the new process, and what the waiting for its socket sees.
pub record Restart : Type 0 where
  pub ends : Bool
  pub writes : Bool
  pub pid : ℕ
  pub sights : List Sight

-- `restart`: a socket that was seen is there afterwards.
unfoldable pub restart :
    List Text → Restart → TunnelSupervisor × World → (TunnelSupervisor × World) × Bool
unfolding stop spawn
restart ssh_opts r (t, w) =
    let (t1, w1) = stop r.ends (t, w) in
    let (t2, w2) = spawn ssh_opts r.writes r.pid (record t1 { restarts = t1.restarts + 1 }, w1) in
    let (t3, up) = wait_for_socket r.sights t2 in
    (
      (
        record t3 { backoff_index = if up then 0 else t3.backoff_index },
        record w2 { sockets = if up then t.local_socket ∷ w2.sockets else w2.sockets },
      ),
      up,
    )

-- `ensure`
unfoldable pub ensure :
    List Text → Restart → TunnelSupervisor × World → (TunnelSupervisor × World) × Bool
ensure ssh_opts r (t, w) = if is_running t w then ((t, w), true) else restart ssh_opts r (t, w)

-- `probe`, with the error if the round trip fails
unfoldable pub probe : Option Text → TunnelSupervisor → TunnelSupervisor × Bool
probe none t = (record t { backoff_index = 0 }, true)
probe (some e) t = (record t { last_error = e }, false)

-- `BACKOFF`
abbrev pub backoff : List ℕ
backoff = 2 ∷ 4 ∷ 8 ∷ 15 ∷ 30 ∷ []

-- `next_backoff`
unfoldable pub next_backoff : TunnelSupervisor → TunnelSupervisor × ℕ
next_backoff t = (
  record t { backoff_index = t.backoff_index + 1 },
  elim (get_elem? backoff (min t.backoff_index 4)) [ none ↦ 0 | some delay ↦ delay ],
)

-- `reset_backoff`
unfoldable pub reset_backoff : TunnelSupervisor → TunnelSupervisor
reset_backoff t = record t { backoff_index = 0 }
