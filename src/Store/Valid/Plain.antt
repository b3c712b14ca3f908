-- ===== src/Store/Valid/Plain.antt =====
-- The validity of the tables under the methods of client/aimless/store.py that seal nothing.
use aimless.Prelude.{ℕ, refl, Option, none, some, Text, text_key, chunk_key}
use aimless.Prelude.Table.Laws.{
  insert_or_ignore-Distinct, upsert-Distinct, update-Distinct, delete-Distinct, select-Distinct,
}
use aimless.Store.Rows.{
  Conversation, Message, Watermark, ReadMark, BlockedScreen, Delivery, chunk, Store,
}
use aimless.Store.Conversations.{
  set_cursor, clear_history, unmute_conversation, mute, unmute, itself,
}
use aimless.Store.Messages.{mark_read, clear_blocked_screen}
use aimless.Store.Deliveries.{acknowledge}
use aimless.Store.Valid.{IsValid}
use aimless.Store.Valid.Parts.{
  IsListed-select, update-Grows, IsValid-if, keep_conversations, keep_deliveries, keep_others,
}

module _ {s : Store} (v : IsValid s) where
  pub set_cursor-IsValid : (p : Text) (n : ℕ) → IsValid (set_cursor p n s)
  unfolding set_cursor
  set_cursor-IsValid p n =
      keep_others v _ s.read_marks s.blocked_screens s.muted_nodes
        (upsert-Distinct Watermark.peer _ _ s.watermark (λ w. refl) v.watermark) v.read_marks
        v.blocked_screens v.muted_nodes

  pub mark_read-IsValid : (conv : Text) → IsValid (mark_read conv s)
  unfolding mark_read
  mark_read-IsValid conv =
      keep_others v s.watermark _ s.blocked_screens s.muted_nodes v.watermark
        (upsert-Distinct ReadMark.conv _ _ s.read_marks (λ r. refl) v.read_marks) v.blocked_screens
        v.muted_nodes

  pub mute-IsValid : (node : Text) → IsValid (mute node s)
  unfolding mute
  mute-IsValid node =
      keep_others v s.watermark s.read_marks s.blocked_screens _ v.watermark v.read_marks
        v.blocked_screens (insert_or_ignore-Distinct itself node s.muted_nodes v.muted_nodes)

  pub unmute-IsValid : (node : Text) → IsValid (unmute node s)
  unfolding unmute
  unmute-IsValid node =
      keep_others v s.watermark s.read_marks s.blocked_screens _ v.watermark v.read_marks
        v.blocked_screens (delete-Distinct itself node s.muted_nodes v.muted_nodes)

  pub clear_blocked_screen-IsValid : (node : Text) → IsValid (clear_blocked_screen node s)
  unfolding clear_blocked_screen
  clear_blocked_screen-IsValid node =
      keep_others v s.watermark s.read_marks _ s.muted_nodes v.watermark v.read_marks
        (delete-Distinct BlockedScreen.node node s.blocked_screens v.blocked_screens) v.muted_nodes

  pub unmute_conversation-IsValid : (conv : Text) → IsValid (unmute_conversation conv s)
  unfolding unmute_conversation
  unmute_conversation-IsValid conv =
      keep_conversations v _
        (update-Distinct Conversation.id _ (λ c. refl) conv s.conversations v.conversations)
        (update-Grows _ conv s.conversations (λ c. refl))

  pub clear_history-IsValid : (conv : Text) → IsValid (clear_history conv s)
  unfolding clear_history
  clear_history-IsValid conv = record {
    conversations = v.conversations;
    messages = select-Distinct Message.id _ s.messages v.messages;
    watermark = v.watermark;
    read_marks = delete-Distinct ReadMark.conv conv s.read_marks v.read_marks;
    pending = v.pending;
    blocked_screens = v.blocked_screens;
    muted_nodes = v.muted_nodes;
    deliveries = v.deliveries;
    listed = IsListed-select s.conversations _ s.messages v.listed;
  }

  pub acknowledge-IsValid :
      (o : Option Delivery) (node : Text) (seq : ℕ) → IsValid (acknowledge o node seq s).0
  unfolding acknowledge
  acknowledge-IsValid none node seq = v
  acknowledge-IsValid (some row) node seq = IsValid-if row.acked v (
      keep_deliveries v _
        (update-Distinct chunk _ (λ d. refl) (node, seq) s.deliveries v.deliveries))
