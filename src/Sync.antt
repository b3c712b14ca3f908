-- ===== src/Sync.antt =====
-- client/aimless/service.py: the class `Sync`, which routes the stream of a peer into the store.
--
-- The daemon and `protocol.open_message` are parameters here. To open a payload gives a message, or
-- raises an exception that the handlers of this file catch (`ValueError`, `KeyError`), or raises
-- another one, which goes through to the caller; what was stored before stays stored.
pub mod Route
pub mod Replay
pub mod Watermark
use aimless.Prelude.{
  ℕ, suc, ◌+◌, Bool, true, false, Option, none, some, List, [], ◌∷◌, map, Text, text_key, ltb,
  if◌then◌else◌,
}
use aimless.Prelude.Table
use aimless.Store.Rows.{Bytes, Store, Nonces, Box}
use aimless.Store.Conversations.{cursor, set_cursor, ensure_room}
use aimless.Store.Messages.{ingest}

pub data Outcome (A : Type 0) : Type 0 where
  opened : A → Outcome A
  refused : Outcome A
  raised : Outcome A

-- The dictionary that `open_message` returns. A message with no `members`, or with an empty list of
-- them, has `[]`.
pub record Opened (M : Type 0) : Type 0 where
  pub conv : Option Text
  pub members : List M
  pub ts : ℕ
  pub text : Option Text

-- One entry of `resp["msgs"]`; `seq` is 0 where it is missing.
pub record Entry (P : Type 0) : Type 0 where
  pub seq : ℕ
  pub payload : Option P

-- What the class takes from elsewhere: the store's box, `protocol.open_message` at the client's
-- identity, `m["node"]` of a member, and the JSON object with the given members.
pub record Setting (J P M : Type 0) : Type 0 where
  pub box : Box J
  pub open_message : P → Outcome (Opened M)
  pub node : M → Option Text
  pub object : List (Text × M) → J

abbrev pub entry_key {ℓ} : {M : Type ℓ} → Text × M → Text
entry_key e = e.0

-- `{m["node"]: m for m in members}`; `none` where a member has no node
unfoldable pub by_node :
    {M : Type 0} → (M → Option Text) → List M → List (Text × M) → Option (List (Text × M))
by_node node [] dict = some dict
by_node node (m ∷ ms) dict = elim (node m) [
  | none ↦ none
  | some n ↦ by_node node ms (Table.upsert entry_key (n, m) (λ e. (e.0, m)) dict)
]

-- `opened.get("conv") or peer`
abbrev pub conv_of : Option Text → Text → Text
conv_of none peer = peer
conv_of (some []) peer = peer
conv_of (some (c ∷ cs)) peer = c ∷ cs

-- What `fetch` brings: the reply of the daemon for each peer, at the cursor of the peer.
abbrev pub History : Type 0 → Type 0
History P = Text → ℕ → List (Entry P)

unfoldable pub fetch : {P : Type 0} → History P → List Text → Store → List (Text × List (Entry P))
fetch history peers s = map (λ p. (p, history p (cursor s p))) peers

module _ {J P M : Type 0} (setting : Setting J P M) where
  open setting use {box, open_message, node, object}

  -- `ensure_room` where the message names members; `none` where that raises
  unfoldable pub ensure_members : Bytes → Text → List M → Store → Option Store
  unfolding by_node
  ensure_members nonce conv [] s = some s
  ensure_members nonce conv (m ∷ ms) s = elim (by_node node (m ∷ ms) []) [
    | none ↦ none
    | some dict ↦ some (ensure_room box nonce conv (object dict) s)
  ]

  -- `_route`
  unfoldable pub route : Nonces → Text → ℕ → Opened M → Store → Store × Option (Text × Bool)
  route fresh peer seq o s =
      let conv = conv_of o.conv peer in
      elim (ensure_members (fresh 3) conv o.members s) [
        | none ↦ (s, none)
        | some s1 ↦
            let (s2, new) = ingest box fresh conv peer seq o.ts o.text none s1 in
            (s2, some (conv, new))
      ]

  abbrev pub open_payload : Option P → Outcome (Opened M)
  open_payload none = refused
  open_payload (some p) = open_message p

  -- The loop of `apply`, with `max_seen` and `added`; `none` where an exception goes through.
  unfoldable pub apply_from :
      (ℕ → Nonces) → Text → List (Entry P) → ℕ → ℕ → Store → Store × Option (ℕ × ℕ)
  apply_from fresh peer [] max_seen added s = (s, some (max_seen, added))
  apply_from fresh peer (m ∷ ms) max_seen added s =
      let seen = if ltb max_seen m.seq then m.seq else max_seen in
      elim (open_payload m.payload) [
        | refused ↦ apply_from (λ i. fresh (suc i)) peer ms seen added s
        | raised ↦ (s, none)
        | opened o ↦
            let (s', result) = route (fresh 0) peer m.seq o s in
            elim result [
              | none ↦ (s', none)
              | some (conv, new) ↦
                  apply_from (λ i. fresh (suc i)) peer ms seen (if new then added + 1 else added) s'
            ]
      ]

  -- `apply`: the new state, and the number of new messages
  unfoldable pub apply : (ℕ → Nonces) → Text → List (Entry P) → Store → Store × Option ℕ
  apply fresh peer msgs s =
      let after = cursor s peer in
      let (s', result) = apply_from fresh peer msgs after 0 s in
      elim result [
        | none ↦ (s', none)
        | some (max_seen, added) ↦
            (if ltb after max_seen then set_cursor peer max_seen s' else s', some added)
      ]

  -- `sync_peer`
  unfoldable pub sync_peer : (ℕ → Nonces) → History P → Text → Store → Store × Option ℕ
  sync_peer fresh history peer s = apply fresh peer (history peer (cursor s peer)) s

  -- The sum of `sync_peers`, over replies that were all fetched before.
  unfoldable pub apply_all :
      (ℕ → ℕ → Nonces) → List (Text × List (Entry P)) → ℕ → Store → Store × Option ℕ
  apply_all fresh [] total s = (s, some total)
  apply_all fresh ((p, msgs) ∷ rest) total s =
      let (s', result) = apply (fresh 0) p msgs s in
      elim result [
        | none ↦ (s', none)
        | some added ↦ apply_all (λ i. fresh (suc i)) rest (total + added) s'
      ]

  -- `sync_peers`
  unfoldable pub sync_peers : (ℕ → ℕ → Nonces) → History P → List Text → Store → Store × Option ℕ
  sync_peers fresh history peers s = apply_all fresh (fetch history peers s) 0 s

  -- `ingest_opened`
  unfoldable pub ingest_opened : Nonces → Text → ℕ → Opened M → Store → Store × Option (Text × Bool)
  ingest_opened fresh peer seq o s =
      let (s', result) = route fresh peer seq o s in
      elim result [
        | none ↦ (s', none)
        | some r ↦ (if ltb (cursor s' peer) seq then set_cursor peer seq s' else s', some r)
      ]

  -- `on_event`: the conversation, if there is one, and whether the message is new
  unfoldable pub on_event :
      Nonces → Option Text → Entry P → Store → Store × Option (Option Text × Bool)
  on_event fresh none event s = (s, some (none, false))
  on_event fresh (some []) event s = (s, some (none, false))
  on_event fresh (some (c ∷ cs)) event s = elim (open_payload event.payload) [
    | refused ↦ (s, some (none, false))
    | raised ↦ (s, none)
    | opened o ↦
        let (s', result) = ingest_opened fresh (c ∷ cs) event.seq o s in
        elim result [ none ↦ (s', none) | some (conv, new) ↦ (s', some (some conv, new)) ]
  ]
