-- ===== src/Cli.antt =====
-- client/aimless/cli.py: the commands that write to the store or to the daemon. What they print is
-- left out.
--
-- `connect_daemon` gives the state of the daemon, or ends the program. The commands on the contacts
-- file alone are in Contacts.
pub mod Sent
use aimless.Prelude.{
  ℕ, Bool, true, false, not, ◌&&◌, ◌||◌, Option, none, some, List, [], ◌∷◌, Text, text_eq, codes,
  if◌then◌else◌,
}
use aimless.Store.Rows.{Bytes, Store, Nonces, Box}
use aimless.Store.Conversations.{unmute}
use aimless.Store.Messages.{clear_blocked_screen, add_sent}
use aimless.Sync
use aimless.Sync.{Entry, on_event}
use aimless.Contacts.{Book, BookEntry, resolve_buddy, buddies}
use aimless.Protocol.Crypto.{Value, str, num, nested, Fields, get, Crypto}
use aimless.Daemon.Client.{Daemon, send, set_status, unblock}
use aimless.Tunnel.{
  World, TunnelSupervisor, Remote, Restart, new_supervisor, is_running, probe, ensure,
}

-- How a command ends: it returns, exits with the status 1, or raises an exception.
pub data Ended : Type 0 where
  done exits raises : Ended

-- `resp.get("seq", 0)`, of a natural number
abbrev pub seq_number : {J : Type 0} → Option (Value J) → ℕ
seq_number (some (num n)) = n
seq_number (some (str t)) = 0
seq_number (some (nested j)) = 0
seq_number none = 0

-- `ensure_tunnel`, with the error of the probe if it fails: whether the program goes on
unfoldable pub ensure_tunnel :
    List Text → Option Text → Restart → Option Remote → World → World × Bool
unfolding new_supervisor is_running probe ensure
ensure_tunnel ssh_opts error r remote w = elim remote [
  | none ↦ (w, true)
  | some at ↦
      let t = new_supervisor at in
      if is_running t w && (probe error t).1
      then (w, true)
      else (let ((t1, w1), up) = ensure ssh_opts r (t, w) in (w1, up))
]

module _ {Key J N S : Type 0} (crypto : Crypto Key N) (daemon : Daemon S N) (box : Box J) where
  -- `client.send` of `cmd_send` and what follows, for a buddy with a key and a node
  unfoldable pub send_and_store :
      Bytes → Nonces → Key → Text → Text → Text → Text → ℕ → S → Store → (S × Store) × Ended
  unfolding send add_sent
  send_and_store seed fresh identity screen_name pubkey node text ts s store =
      let (s1, resp) = send crypto daemon seed identity screen_name pubkey node text ts s in
      (
        (
          s1,
          elim resp [
            | none ↦ store
            | some fields ↦
                (add_sent box fresh node ((node, seq_number (get (codes "seq") fields)) ∷ []) ts
                  (some text) none none store).0
          ],
        ),
        elim resp [ none ↦ raises | some _ ↦ done ],
      )

  -- `cmd_send`, with the daemon if it is reached; an entry without a key or a node is a KeyError.
  unfoldable pub cmd_send :
      Bytes → Nonces → Key → Text → Book → Bool → Text → Text → ℕ → S → Store → (S × Store) × Ended
  unfolding resolve_buddy send_and_store
  cmd_send seed fresh identity screen_name book connects petname text ts s store =
      elim (resolve_buddy petname book) [
        | none ↦ ((s, store), exits)
        | some buddy ↦ if not connects then ((s, store), exits) else elim buddy.pubkey [
          | none ↦ ((s, store), raises)
          | some pubkey ↦ elim buddy.node [
            | none ↦ ((s, store), raises)
            | some node ↦ send_and_store seed fresh identity screen_name pubkey node text ts s store
          ]
        ]
      ]

  -- `cmd_unblock`; an error of the daemon is only printed.
  unfoldable pub cmd_unblock : Bool → Text → S → Store → S × Store
  unfolding unmute clear_blocked_screen unblock
  cmd_unblock connects node s store = (
    if connects then (daemon (unblock node) s).0 else s,
    clear_blocked_screen node (unmute node store),
  )

  -- The loop of `cmd_away` over the buddies, and whether each had a key and a node; an error of the
  -- daemon is only printed.
  unfoldable pub announce : Bytes → Key → Text → Value N → ℕ → Book → S → S × Bool
  unfolding set_status
  announce seed identity screen_name away ts [] s = (s, true)
  announce seed identity screen_name away ts ((_, info) ∷ book) s = elim info.pubkey [
    | none ↦ (s, false)
    | some pubkey ↦ elim info.node [
      | none ↦ (s, false)
      | some node ↦
          announce seed identity screen_name away ts book
            (set_status crypto daemon seed identity screen_name pubkey node away ts s).0
    ]
  ]

  -- `cmd_away`
  unfoldable pub cmd_away : Bytes → Key → Text → Bool → Value N → ℕ → Book → S → S × Ended
  unfolding buddies announce
  cmd_away seed identity screen_name connects away ts book s =
      if not connects then (s, exits) else elim (buddies book) [
        | [] ↦ (s, exits)
        | b ∷ bs ↦
            let (s1, complete) = announce seed identity screen_name away ts (b ∷ bs) s in
            (s1, if complete then done else raises)
      ]

-- An event of the daemon, by its operation and its sender.
pub record Event (P : Type 0) : Type 0 where
  pub op : Text
  pub from : Option Text
  pub message : Entry P

abbrev pub is_from : Option Text → Text → Bool
is_from none node = false
is_from (some sender) node = text_eq sender node

-- `_handle_event`, and whether it prints the last message; `none` where an exception goes through.
unfoldable pub handle_event :
    {J P M : Type 0} → Sync.Setting J P M → Nonces → Text → Event P → Store → Store × Option Bool
unfolding on_event
handle_event setting fresh buddy_node ev store =
    if not (text_eq ev.op (codes "recv")) || not (is_from ev.from buddy_node)
    then (store, some false)
    else (let (later, result) = on_event setting fresh ev.from ev.message store in
        (
          later,
          elim result [ none ↦ none | some (conv, new) ↦ some (new && is_from conv buddy_node) ],
        ))
