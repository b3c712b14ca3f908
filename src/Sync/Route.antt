-- ===== src/Sync/Route.antt =====
-- What `_route` of client/aimless/service.py changes: the conversations and one message.
use aimless.Prelude.{
  ℕ, ◌≡◌, refl, sym, ap, ◌∙◌, Bool, true, false, not, Option, none, some, List, [], ◌∷◌, Text,
  text_key, arith, Option-cases, inl, inr, All,
}
use aimless.Prelude.Table
use aimless.Prelude.Table.Laws.{has-insert_or_ignore}
use aimless.Store.Rows.{Bytes, Message, Store, Nonces, Box}
use aimless.Store.Conversations.{cursor, ensure_conv, ensure_room}
use aimless.Store.Messages.{in_id, ingest}
use aimless.Store.Ingest.{offered, messages-ingest, new-ingest}
use aimless.Sync.{Setting, Opened, conv_of, ensure_members, route, by_node}

cursor-ingest :
    {J : Type 0} (box : Box J) (fresh : Nonces) (conv sender : Text) (seq ts : ℕ)
    (text : Option Text) (att : Option J) (s : Store) (q : Text)
    → cursor (ingest box fresh conv sender seq ts text att s).0 q ≡ cursor s q
unfolding cursor ingest ensure_conv
cursor-ingest box fresh conv sender seq ts text att s q = ground arith

abbrev new_of : Option (Text × Bool) → Bool
new_of none = false
new_of (some (c, new)) = new

module _ {J P M : Type 0} (setting : Setting J P M) where
  open setting use {box, node}

  -- To make the room changes the conversations alone.
  ensure_members_lem :
      (nonce : Bytes) (conv : Text) (ms : List M) (s s' : Store)
      → ensure_members setting nonce conv ms s ≡ some s'
      → (s'.messages ≡ s.messages) × ((q : Text) → cursor s' q ≡ cursor s q)
  unfolding ensure_members ensure_room cursor
  ensure_members_lem nonce conv [] s s' e = (ground arith, λ q. ground arith)
  ensure_members_lem nonce conv (m ∷ ms) s s' e = (ground arith, λ q. ground arith)

  by_node_named :
      (ms : List M) (dict : List (Text × M))
      → All (λ m. (n : Text) × (node m ≡ some n)) ms
      → (d : List (Text × M)) × (by_node node ms dict ≡ some d)
  unfolding by_node
  by_node_named [] dict h = (dict, refl)
  by_node_named (m ∷ ms) dict ((n, e), h) = rw (by_node, e) (by_node_named ms _ h)

  ensure_members_named :
      (nonce : Bytes) (conv : Text) (ms : List M) (s : Store)
      → All (λ m. (n : Text) × (node m ≡ some n)) ms
      → (s' : Store) × (ensure_members setting nonce conv ms s ≡ some s')
  unfolding ensure_members
  ensure_members_named nonce conv [] s h = (s, refl)
  ensure_members_named nonce conv (m ∷ ms) s h =
      let (d, e) = by_node_named (m ∷ ms) [] h in rw (ensure_members, e) (_, refl)

  module _ (fresh : Nonces) (peer : Text) (seq : ℕ) (o : Opened M) (s : Store) where
    abbrev conv : Text
    conv = conv_of o.conv peer

    abbrev pub routed_row : Message
    routed_row = offered box (conv_of o.conv peer) peer seq fresh o.ts o.text none

    -- `_route` moves no cursor.
    pub cursor-route : (q : Text) → cursor (route setting fresh peer seq o s).0 q ≡ cursor s q
    unfolding route
    cursor-route q = elim (Option-cases (ensure_members setting (fresh 3) conv o.members s)) [
      | inl e ↦ rw (route, e)
      | inr (s1, e) ↦
          rw (route, e)
            (cursor-ingest box fresh conv peer seq o.ts o.text none s1 q
              ∙ (ensure_members_lem (fresh 3) conv o.members s s1 e).1 q)
    ]

    -- A route that does not raise offers one row to the table of messages, and reports whether its
    -- id was new.
    pub messages-route :
        (c : Text) (new : Bool)
        → (route setting fresh peer seq o s).1 ≡ some (c, new)
        → ((route setting fresh peer seq o s).0.messages
            ≡ Table.insert_or_ignore Message.id routed_row s.messages)
          × (new ≡ not (Table.has Message.id (in_id peer seq) s.messages))
    unfolding route
    messages-route c new = elim (Option-cases (ensure_members setting (fresh 3) conv o.members s)) [
      | inl e ↦ rw (route, e) (λ h. cc)
      | inr (s1, e) ↦
          let same = (ensure_members_lem (fresh 3) conv o.members s s1 e).0 in
          rw (route, e)
            (λ h. (
              messages-ingest box conv peer seq fresh o.ts o.text none s1
                  ∙ ap (Table.insert_or_ignore Message.id routed_row) same,
              ap (λ (r : Option (Text × Bool)). new_of r) (sym h)
                  ∙ new-ingest box conv peer seq fresh o.ts o.text none s1
                  ∙ ap (λ t. not (Table.has Message.id (in_id peer seq) t)) same,
            ))
    ]

    -- A message whose members all have a node is routed.
    pub route_named :
        All (λ m. (n : Text) × (node m ≡ some n)) o.members
        → (c : Text) × (new : Bool) × ((route setting fresh peer seq o s).1 ≡ some (c, new))
    unfolding route
    route_named h =
        let (s1, e) = ensure_members_named (fresh 3) conv o.members s h in
        rw (route, e) (conv, _, refl)

    -- A route keeps every id that is stored.
    pub has-route :
        (k : Text)
        → Table.has Message.id k s.messages ≡ true
        → Table.has Message.id k (route setting fresh peer seq o s).0.messages ≡ true
    unfolding route
    has-route k h = elim (Option-cases (ensure_members setting (fresh 3) conv o.members s)) [
      | inl e ↦ rw (route, e) h
      | inr (s1, e) ↦
          let same = (ensure_members_lem (fresh 3) conv o.members s s1 e).0 in
          rw (route, e)
            (rw (messages-ingest, same)
              (ground (arith, has-insert_or_ignore Message.id k routed_row s.messages)))
    ]
