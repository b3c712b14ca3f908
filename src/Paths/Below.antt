-- ===== src/Paths/Below.antt =====
-- Where the paths of client/aimless/paths.py lie.
use Prim.Native.String.{String}
use aimless.Prelude.{
  ◌≡◌, refl, ap, sym, ◌∙◌, Bool, true, false, not, ◌||◌, [], ◌∷◌, ◌++◌, Text, text_eq, codes, ◌==◌,
  ℕ, All, append-nil, append_assoc, Bool-cases, inl, inr, arith, select,
}
use aimless.Paths

-- A path that continues another one.
abbrev pub IsBelow : Text → Text → Type 0
IsBelow dir path = (rest : Text) × (path ≡ dir ++ rest)

join_path-IsBelow :
    (dir a : Text) (c : ℕ) (cs : Text)
    → (c == b'/') ≡ false
    → IsBelow dir a
    → IsBelow dir (Paths.join_path a (c ∷ cs))
unfolding Paths.join_path
join_path-IsBelow dir a c cs relative (rest, e) = elim (Bool-cases (Paths.is_open a)) [
  | inl o ↦
      rw (relative, Paths.join_path)
        (rw o (rest ++ c ∷ cs, ap (λ t. t ++ c ∷ cs) e ∙ append_assoc dir rest (c ∷ cs)))
  | inr o ↦
      rw (relative, Paths.join_path)
        (rw o (
          rest ++ b'/' ∷ c ∷ cs,
          ap (λ t. t ++ b'/' ∷ c ∷ cs) e ∙ append_assoc dir rest (b'/' ∷ c ∷ cs),
        ))
]

-- A name without a slash in front.
abbrev relative : Text → Bool
relative [] = true
relative (c ∷ cs) = not (c == b'/')

in_dir :
    (dir a : Text) (name : String)
    → relative (codes name) ≡ true
    → IsBelow dir a
    → IsBelow dir (Paths.join_path a (codes name))
unfolding Paths.join_path
in_dir dir a name r h = named (codes name) r
  where
    named : (n : Text) → relative n ≡ true → IsBelow dir (Paths.join_path a n)
    named [] p = elim (Bool-cases (Paths.is_open a)) [
      | inl o ↦ rw (o, Paths.join_path) h
      | inr o ↦
          rw (o, Paths.join_path)
            (h.0 ++ b'/' ∷ [], ap (λ t. t ++ b'/' ∷ []) h.1 ∙ append_assoc dir h.0 (b'/' ∷ []))
    ]
    named (c ∷ cs) p = join_path-IsBelow dir a c cs (ground (arith, p)) h

-- The two paths that other programs fix.
abbrev pub is_outside : Text × Text → Bool
is_outside p = text_eq p.0 (codes "socket") || text_eq p.0 (codes "autostart")

-- Every directory that is made and every path that `aimless paths` prints lies below the root, but
-- the socket and the autostart entry; and so do the pid files and the log of the tunnel.
pub all_paths-IsBelow :
    (env : Paths.Environment)
    → All (IsBelow (Paths.root env)) (Paths.ensure_dirs env)
      × All
          (λ p. IsBelow (Paths.root env) p.1)
          (select (λ p. not (is_outside p)) (Paths.all_paths env))
      × All (IsBelow (Paths.root env)) (
          Paths.tunnel_log_path env
          ∷ Paths.app_pid_path env
          ∷ Paths.daemon_pid_path env
          ∷ Paths.tunnel_pid_path env
          ∷ [])
unfolding Paths.ensure_dirs Paths.all_paths select text_eq Paths.client_dir Paths.daemon_dir
    Paths.logs_dir Paths.run_dir Paths.identity_path Paths.contacts_path Paths.cache_path
    Paths.prefs_path Paths.attachments_dir Paths.app_log_path Paths.daemon_log_path
    Paths.tunnel_log_path Paths.app_pid_path Paths.daemon_pid_path Paths.tunnel_pid_path
all_paths-IsBelow env =
    let top = Paths.root env in
    let here : IsBelow top top = ([], sym (append-nil top)) in
    let client : IsBelow top (Paths.client_dir env) = in_dir top top "client" refl here in
    let daemon : IsBelow top (Paths.daemon_dir env) = in_dir top top "daemon" refl here in
    let logs : IsBelow top (Paths.logs_dir env) = in_dir top top "logs" refl here in
    let run : IsBelow top (Paths.run_dir env) = in_dir top top "run" refl here in
    (
      (here, (client, (daemon, (logs, (run, tt))))),
      (
        here,
        (
          client,
          (
            daemon,
            (
              logs,
              (
                run,
                (
                  in_dir top (Paths.client_dir env) "identity.json" refl client,
                  (
                    in_dir top (Paths.client_dir env) "contacts.json" refl client,
                    (
                      in_dir top (Paths.client_dir env) "state.db" refl client,
                      (
                        in_dir top (Paths.client_dir env) "prefs.json" refl client,
                        (
                          in_dir top (Paths.client_dir env) "attachments" refl client,
                          (
                            in_dir top (Paths.logs_dir env) "app.log" refl logs,
                            (in_dir top (Paths.logs_dir env) "daemon.log" refl logs, tt),
                          ),
                        ),
                      ),
                    ),
                  ),
                ),
              ),
            ),
          ),
        ),
      ),
      (
        in_dir top (Paths.logs_dir env) "tunnel.log" refl logs,
        (
          in_dir top (Paths.run_dir env) "app.pid" refl run,
          (
            in_dir top (Paths.run_dir env) "aimlessd.pid" refl run,
            (in_dir top (Paths.run_dir env) "tunnel.pid" refl run, tt),
          ),
        ),
      ),
    )
