-- ===== src/Paths.antt =====
-- client/aimless/paths.py: the paths of the files, from the environment.
pub mod Below
use aimless.Prelude.{
  ℕ, Bool, true, false, Option, none, some, List, [], ◌∷◌, ◌++◌, Text, codes, ◌==◌, if◌then◌else◌,
  map,
}

-- The environment variables AIMLESS_HOME, AIMLESS_SOCK and XDG_CONFIG_HOME, and
-- `os.path.expanduser`.
pub record Environment : Type 0 where
  pub aimless_home : Option Text
  pub aimless_sock : Option Text
  pub xdg_config_home : Option Text
  pub expanduser : Text → Text

-- `os.environ.get(name) or default`
abbrev pub env_or : Option Text → Text → Text
env_or none default = default
env_or (some []) default = default
env_or (some (c ∷ cs)) default = c ∷ cs

-- Whether a path is empty or ends with a slash.
unfoldable pub is_open : Text → Bool
is_open [] = true
is_open (c ∷ []) = c == b'/'
is_open (c ∷ d ∷ cs) = is_open (d ∷ cs)

-- `os.path.join`
unfoldable pub join_path : Text → Text → Text
unfolding is_open
join_path a [] = if is_open a then a else a ++ b'/' ∷ []
join_path a (c ∷ cs) =
    if c == b'/' then c ∷ cs else if is_open a then a ++ c ∷ cs else a ++ b'/' ∷ c ∷ cs

module _ (env : Environment) where
  unfoldable pub root : Text
  root = env_or env.aimless_home (env.expanduser (codes "~/.local/share/aimless"))

  unfoldable pub client_dir : Text
  unfolding join_path root
  client_dir = join_path root (codes "client")

  unfoldable pub daemon_dir : Text
  unfolding join_path root
  daemon_dir = join_path root (codes "daemon")

  unfoldable pub logs_dir : Text
  unfolding join_path root
  logs_dir = join_path root (codes "logs")

  unfoldable pub run_dir : Text
  unfolding join_path root
  run_dir = join_path root (codes "run")

  unfoldable pub identity_path : Text
  unfolding client_dir
  identity_path = join_path client_dir (codes "identity.json")

  unfoldable pub contacts_path : Text
  unfolding client_dir
  contacts_path = join_path client_dir (codes "contacts.json")

  unfoldable pub cache_path : Text
  unfolding client_dir
  cache_path = join_path client_dir (codes "state.db")

  unfoldable pub prefs_path : Text
  unfolding client_dir
  prefs_path = join_path client_dir (codes "prefs.json")

  unfoldable pub attachments_dir : Text
  unfolding client_dir
  attachments_dir = join_path client_dir (codes "attachments")

  unfoldable pub sock_path : Text
  unfolding daemon_dir
  sock_path = env_or env.aimless_sock (join_path daemon_dir (codes "api.sock"))

  unfoldable pub app_log_path : Text
  unfolding logs_dir
  app_log_path = join_path logs_dir (codes "app.log")

  unfoldable pub daemon_log_path : Text
  unfolding logs_dir
  daemon_log_path = join_path logs_dir (codes "daemon.log")

  unfoldable pub tunnel_log_path : Text
  unfolding logs_dir
  tunnel_log_path = join_path logs_dir (codes "tunnel.log")

  unfoldable pub app_pid_path : Text
  unfolding run_dir
  app_pid_path = join_path run_dir (codes "app.pid")

  unfoldable pub daemon_pid_path : Text
  unfolding run_dir
  daemon_pid_path = join_path run_dir (codes "aimlessd.pid")

  unfoldable pub tunnel_pid_path : Text
  unfolding run_dir
  tunnel_pid_path = join_path run_dir (codes "tunnel.pid")

  unfoldable pub config_home : Text
  config_home = env_or env.xdg_config_home (env.expanduser (codes "~/.config"))

  unfoldable pub autostart_path : Text
  unfolding config_home
  autostart_path =
      join_path (join_path config_home (codes "autostart")) (codes "aimless-tray.desktop")

  -- The directories that `ensure_dirs` makes, in order
  unfoldable pub ensure_dirs : List Text
  unfolding client_dir daemon_dir logs_dir run_dir
  ensure_dirs = root ∷ client_dir ∷ daemon_dir ∷ logs_dir ∷ run_dir ∷ []

  unfoldable pub all_paths : List (Text × Text)
  unfolding ensure_dirs identity_path contacts_path cache_path prefs_path attachments_dir sock_path
      app_log_path daemon_log_path autostart_path
  all_paths =
      (codes "root", root)
      ∷ (codes "client", client_dir)
      ∷ (codes "daemon", daemon_dir)
      ∷ (codes "logs", logs_dir)
      ∷ (codes "run", run_dir)
      ∷ (codes "identity", identity_path)
      ∷ (codes "contacts", contacts_path)
      ∷ (codes "history", cache_path)
      ∷ (codes "prefs", prefs_path)
      ∷ (codes "attachments", attachments_dir)
      ∷ (codes "socket", sock_path)
      ∷ (codes "app_log", app_log_path)
      ∷ (codes "daemon_log", daemon_log_path)
      ∷ (codes "autostart", autostart_path)
      ∷ []
