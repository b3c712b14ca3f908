-- ===== src/Daemon/Client.antt =====
-- The class `Client` of client/aimless/daemon.py, over any daemon that answers requests.
--
-- A call that raises is `none`; what the daemon did before stays done. The `timeout` of a call is
-- left to the daemon.
pub mod Room
use mathlib.Core.Option
use aimless.Prelude.{
  map, ℕ, Bool, true, false, Option, none, some, List, [], ◌∷◌, ◌++◌, Text, text_eq, text_key,
  codes, if◌then◌else◌,
}
use aimless.Prelude.Table
use aimless.Store.Rows.{Bytes}
use aimless.Sync.{Outcome, opened, refused, raised, entry_key}
use aimless.Protocol.Hex.{to_hex, from_hex}
use aimless.Protocol.Crypto.{Value, str, num, nested, Fields, get, put, Crypto}
use aimless.Protocol.Envelope.{◌>>=◌, or_refuse, seal_message, seal_status, seal_file_chunk}
use aimless.Protocol.Files.{chunk_header}

-- `daemon.request(op, …)` with its fields.
pub record Call (J : Type 0) : Type 0 where
  pub op : Text
  pub fields : Fields J

-- The daemon with the connection to it: the state after a call, and the reply unless it raised.
abbrev pub Daemon : Type 0 → Type 0 → Type 0
Daemon S J = Call J → S → S × Option (Fields J)

-- A member of a room; the screen name may be missing.
pub record Member : Type 0 where
  pub node : Text
  pub pubkey : Text
  pub screen : Option Text

abbrev pub outcome : {A : Type 0} → Outcome A → Option A
outcome (opened a) = some a
outcome refused = none
outcome raised = none

-- `resp.get("seq", 0)`
abbrev pub seq_of : {J : Type 0} → Fields J → Value J
seq_of resp = elim (get (codes "seq") resp) [ none ↦ num 0 | some v ↦ v ]

-- To go on with the value of a call that has returned.
abbrev pub with_reply : {S A B : Type 0} → (A → S → S × Option B) → S × Option A → S × Option B
with_reply f (s, none) = (s, none)
with_reply f (s, some a) = f a s

abbrev pub with_value : {S A B : Type 0} → (A → S → S × Option B) → Option A → S → S × Option B
with_value f none s = (s, none)
with_value f (some a) s = f a s

abbrev pub with_key :
    {S B : Type 0}
    → (Text → S → S × Option B)
    → (Option Text × S) × Option Text
    → (Option Text × S) × Option B
with_key f ((cached, s), none) = ((cached, s), none)
with_key f ((cached, s), some key) = let (s', b) = f key s in ((cached, s'), b)

abbrev pub text_of : {J : Type 0} → Option (Value J) → Option Text
text_of (some (str t)) = some t
text_of _ = none

abbrev pub keep_key : {S J : Type 0} → S × Option (Fields J) → (Option Text × S) × Option Text
keep_key (s, none) = ((none, s), none)
keep_key (s, some resp) = let key = text_of (get (codes "key") resp) in ((key, s), key)

module _ {J : Type 0} where
  -- `whoami`, `add_contact`, `block`, `unblock`, `blocklist`, `history`, `presence`, and the calls
  -- on attachments
  unfoldable pub whoami : Call J
  whoami = record { op = codes "whoami"; fields = [] }

  unfoldable pub add_contact : Text → Call J
  add_contact node = record { op = codes "watch"; fields = (codes "to", str node) ∷ [] }

  unfoldable pub block : Text → Call J
  block node = record { op = codes "block"; fields = (codes "to", str node) ∷ [] }

  unfoldable pub unblock : Text → Call J
  unblock node = record { op = codes "unblock"; fields = (codes "to", str node) ∷ [] }

  unfoldable pub send_call : Text → Text → Call J
  send_call node payload = record {
    op = codes "send";
    fields = (codes "to", str node) ∷ (codes "payload", str payload) ∷ [];
  }

  unfoldable pub send_file : Text → Text → Call J
  send_file node payload = record {
    op = codes "sendfile";
    fields = (codes "to", str node) ∷ (codes "payload", str payload) ∷ [];
  }

  unfoldable pub history : Text → ℕ → Call J
  history node after_seq = record {
    op = codes "history";
    fields = (codes "from", str node) ∷ (codes "seq", num after_seq) ∷ [];
  }

  unfoldable pub ack_attachment : Text → Text → Call J
  ack_attachment node tid = record {
    op = codes "ackfile";
    fields = (codes "from", str node) ∷ (codes "tid", str tid) ∷ [];
  }

  -- The loop of `send_room` and `send_file_room`: one copy for every member but the client itself.
  -- `seal` makes the call for a member, or raises.
  unfoldable pub fan_out :
      {S : Type 0}
      → Daemon S J
      → (Member → Option (Call J))
      → Text
      → List Member
      → List (Text × Value J)
      → S
      → S × Option (List (Text × Value J))
  fan_out daemon seal my_node [] seqs s = (s, some seqs)
  fan_out daemon seal my_node (m ∷ members) seqs s =
      let rest = fan_out daemon seal my_node members in
      if text_eq m.node my_node
      then rest seqs s
      else with_value
          (λ call u.
            with_reply
              (λ resp t.
                rest (Table.upsert entry_key (m.node, seq_of resp) (λ e. (e.0, seq_of resp)) seqs)
                  t)
              (daemon call u))
          (seal m) s

-- The members as `seal_message` is given them: dictionaries with "node", "pubkey" and "screen".
abbrev pub triplet : Member → Text × Text × Text
triplet m = (m.node, m.pubkey, elim m.screen [ none ↦ [] | some name ↦ name ])

module _ {Key J S : Type 0} (crypto : Crypto Key J) (daemon : Daemon S J) where
  -- `node_key`, with the key that was asked for before; `none` also where the reply has no key that
  -- is a text
  unfoldable pub node_key : Option Text → S → (Option Text × S) × Option Text
  unfolding whoami
  node_key (some key) s = ((some key, s), some key)
  node_key none s = keep_key (daemon whoami s)

  -- `send_room`; `members_json` makes the list of the dictionaries, `seed` gives each sealing what
  -- it draws
  unfoldable pub send_room :
      (Member → Bytes)
      → (List (Text × Text × Text) → J)
      → Key
      → Text
      → List Member
      → Text
      → Text
      → ℕ
      → Option Text
      → S
      → (Option Text × S) × Option (List (Text × Value J))
  unfolding node_key fan_out send_call
  send_room seed members_json identity screen_name members conv text ts cached s =
      let triplets = members_json (map triplet members) in
      with_key
        (λ my_node.
          fan_out daemon
            (λ m. Option.map (send_call m.node) (
              outcome (
                seal_message crypto (seed m) identity m.pubkey text ts (some screen_name)
                  (some conv) (some triplets))))
            my_node members [])
        (node_key cached s)

  -- `send_file_room`
  unfoldable pub send_file_room :
      (Member → Bytes)
      → Key
      → List Member
      → Text
      → Fields J
      → Option Text
      → S
      → (Option Text × S) × Option (List (Text × Value J))
  unfolding node_key fan_out send_file
  send_file_room seed identity members conv chunk cached s =
      let body = put (codes "conv") (str conv) chunk in
      with_key
        (λ my_node u.
          with_value
            (λ header.
              fan_out daemon
                (λ m.
                  Option.map (λ sealed. send_file m.node (crypto.b64encode (header ++ sealed)))
                    (outcome (seal_file_chunk crypto (seed m) identity m.pubkey body)))
                my_node members [])
            (outcome (chunk_header body)) u)
        (node_key cached s)

  -- `send` and `set_status`
  unfoldable pub send : Bytes → Key → Text → Text → Text → Text → ℕ → S → S × Option (Fields J)
  unfolding send_call
  send seed identity screen_name buddy_client_hex buddy_node_hex text ts s =
      with_value (λ payload. daemon (send_call buddy_node_hex payload))
        (outcome
          (seal_message crypto seed identity buddy_client_hex text ts (some screen_name) none none))
        s

  unfoldable pub set_status :
      Bytes → Key → Text → Text → Text → Value J → ℕ → S → S × Option (Fields J)
  set_status seed identity screen_name buddy_client_hex buddy_node_hex away ts s =
      with_value
        (λ payload. daemon (record {
          op = codes "setstatus";
          fields = (codes "to", str buddy_node_hex) ∷ (codes "payload", str payload) ∷ [];
        }))
        (outcome (seal_status crypto seed identity buddy_client_hex screen_name away ts)) s
