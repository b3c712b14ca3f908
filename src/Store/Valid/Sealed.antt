-- ===== src/Store/Valid/Sealed.antt =====
-- The validity of the tables under the methods of client/aimless/store.py that seal a blob.
use aimless.Prelude.{
  ℕ, ◌≡◌, refl, Bool, true, false, Option, some, List, [], ◌∷◌, Text, text_key, chunk_key, text_eq,
  text_eq_iff, arith,
}
use aimless.Prelude.Table
use aimless.Prelude.Table.{Distinct}
use aimless.Prelude.Table.Laws.{
  insert_or_ignore-Distinct, upsert-Distinct, update-Distinct, has-insert_or_ignore,
}
use aimless.Store.Rows.{Bytes, Conversation, Message, BlockedScreen, PendingRow, Store, Nonces, Box}
use aimless.Store.Conversations.{ensure_conv, ensure_room, mute_conversation}
use aimless.Store.Messages.{ingest, add_sent, set_blocked_screen, add_pending, pending_pop, in_id}
use aimless.Store.Ingest.{offered}
use aimless.Store.Valid.{IsKeyed, IsValid}
use aimless.Store.Valid.Keyed.{append-IsKeyed, select-IsKeyed}
use aimless.Store.Valid.Parts.{
  IsListed-insert, insert-Grows, update-Grows, upsert-Grows, IsValid-if, add_deliveries-Distinct,
  keep_conversations, keep_messages, keep_deliveries, keep_others,
}

module _ {J : Type 0} (box : Box J) {s : Store} (v : IsValid s) where
  ensure_conv-IsValid :
      (n : Bytes) (conv : Text) (dm : Bool) → IsValid (ensure_conv box n conv dm s)
  unfolding ensure_conv
  ensure_conv-IsValid n conv dm =
      keep_conversations v _
        (insert_or_ignore-Distinct Conversation.id _ s.conversations v.conversations)
        (insert-Grows _ s.conversations)

  ensure_conv-listed :
      (n : Bytes) (conv : Text) (dm : Bool)
      → Table.has Conversation.id conv (ensure_conv box n conv dm s).conversations ≡ true
  unfolding ensure_conv
  ensure_conv-listed n conv dm = ground (
    arith,
    has-insert_or_ignore Conversation.id conv
        (record {
          id = conv;
          dm = dm;
          members = some (box.seal_json n box.empty_object);
          muted = false;
          hidden = false;
        })
        s.conversations,
    text_eq_iff conv conv,
  )

  pub ensure_room-IsValid : (n : Bytes) (conv : Text) (m : J) → IsValid (ensure_room box n conv m s)
  unfolding ensure_room
  ensure_room-IsValid n conv m =
      keep_conversations v _
        (upsert-Distinct Conversation.id _ _ s.conversations (λ c. refl) v.conversations)
        (upsert-Grows _ _ s.conversations (λ c. refl))

  pub set_blocked_screen-IsValid :
      (n : Bytes) (node : Text) (screen : Option Text)
      → IsValid (set_blocked_screen box n node screen s)
  unfolding set_blocked_screen
  set_blocked_screen-IsValid n node screen =
      keep_others v s.watermark s.read_marks _ s.muted_nodes v.watermark v.read_marks
        (upsert-Distinct BlockedScreen.node _ _ s.blocked_screens (λ b. refl) v.blocked_screens)
        v.muted_nodes

  keep_pending : (rows : List PendingRow) → IsKeyed rows → IsValid (record s { pending = rows })
  keep_pending rows k = record {
    conversations = v.conversations;
    messages = v.messages;
    watermark = v.watermark;
    read_marks = v.read_marks;
    pending = k;
    blocked_screens = v.blocked_screens;
    muted_nodes = v.muted_nodes;
    deliveries = v.deliveries;
    listed = v.listed;
  }

  pub add_pending-IsValid : (n : Bytes) (req : J) → IsValid (add_pending box n req s)
  unfolding add_pending
  add_pending-IsValid n req =
      let row : PendingRow = record { node = box.get_node req; payload = box.seal_json n req } in
      keep_pending _ (ground (arith, append-IsKeyed row s.pending, v.pending))

  pub popped-IsValid : (rows : List PendingRow) → s.pending ≡ rows → IsValid (pending_pop box s).0
  unfolding pending_pop
  popped-IsValid [] e = rw (e, pending_pop) v
  popped-IsValid (row ∷ rows) e =
      rw (e, pending_pop) (keep_pending _ (select-IsKeyed _ s.pending v.pending))

module _ {J : Type 0} (box : Box J) {s : Store} (v : IsValid s) where
  pub mute_conversation-IsValid :
      (n : Bytes) (conv : Text) → IsValid (mute_conversation box n conv s)
  unfolding mute_conversation
  mute_conversation-IsValid n conv =
      let w = ensure_conv-IsValid box v n conv true in
      keep_conversations w _ (update-Distinct Conversation.id _ (λ c. refl) conv _ w.conversations)
        (update-Grows _ conv _ (λ c. refl))

  module _ (conv : Text) (fresh : Nonces) (ts : ℕ) (text : Option Text) (att : Option J) where
    pub ingest-IsValid :
        (sender : Text) (seq : ℕ) → IsValid (ingest box fresh conv sender seq ts text att s).0
    unfolding ingest
    ingest-IsValid sender seq =
        let dm = text_eq conv sender in
        let w = ensure_conv-IsValid box v (fresh 0) conv dm in
        let row = offered box conv sender seq fresh ts text att in
        let t = ensure_conv box (fresh 0) conv dm s in
        let u =
          keep_messages w (Table.insert_or_ignore Message.id row t.messages)
            (insert_or_ignore-Distinct Message.id row t.messages w.messages)
            (IsListed-insert t.conversations row t.messages
              (ensure_conv-listed box v (fresh 0) conv dm) w.listed) in
        IsValid-if (Table.has Message.id (in_id sender seq) t.messages) u (
          keep_conversations u _
            (update-Distinct Conversation.id _ (λ c. refl) conv _ w.conversations)
            (update-Grows _ conv _ (λ c. refl)))

  pub add_sent-IsValid :
      (fresh : Nonces) (conv : Text) (seqs : List (Text × ℕ)) (ts : ℕ) (text : Option Text)
      (att : Option J) (keys : Option (List (Text × ℕ)))
      → IsValid (add_sent box fresh conv seqs ts text att keys s).0
  unfolding add_sent
  add_sent-IsValid fresh conv seqs ts text att keys =
      let w = ensure_conv-IsValid box v (fresh 0) conv true in
      let t = ensure_conv box (fresh 0) conv true s in
      keep_deliveries
        (keep_messages w _ (insert_or_ignore-Distinct Message.id _ t.messages w.messages) (
          IsListed-insert t.conversations _ t.messages
            (ensure_conv-listed box v (fresh 0) conv true) w.listed))
        _ (add_deliveries-Distinct _ _ t.deliveries w.deliveries)
