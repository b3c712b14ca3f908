-- ===== src/Store/Valid.antt =====
-- The methods of client/aimless/store.py that write, as steps of one state, and what holds in each
-- state that they reach from the empty database.
mod Parts
mod Plain
mod Keyed
mod Sealed
pub mod Steps
use aimless.Prelude.{
  ℕ, ◌≡◌, refl, Bool, true, false, not, ◌||◌, Option, none, some, List, [], ◌∷◌, ◌++◌, Text,
  text_key, chunk_key, text_eq, text_eq_iff, ltb, max, select, if◌then◌else◌, arith, All,
}
use aimless.Prelude.Table
use aimless.Prelude.Table.{Distinct}
use aimless.Store.Rows.{
  Bytes, Conversation, Message, Watermark, ReadMark, PendingRow, BlockedScreen, Delivery, chunk,
  Store, empty_store, Nonces, Box,
}
use aimless.Store.Conversations
use aimless.Store.Conversations.{ensure_conv, advance_cursors, itself}
use aimless.Store.Messages
use aimless.Store.Messages.{add_deliveries, exists_pending}
use aimless.Store.Deliveries

-- The conversation of a message has a row of its own.
abbrev pub IsListed : List Conversation → Message → Type 0
IsListed cs m = Table.has Conversation.id m.conv cs ≡ true

-- No two requests that wait name the same node. A NULL key is the same as no other.
abbrev pub IsKeyed : List PendingRow → Type 0
IsKeyed [] = Unit
IsKeyed (row ∷ rows) = (exists_pending row.node rows ≡ false) × IsKeyed rows

-- Each table has its primary keys once, and each message is in a conversation that is listed.
pub record IsValid (s : Store) : Type 0 where
  pub conversations : Distinct Conversation.id s.conversations
  pub messages : Distinct Message.id s.messages
  pub watermark : Distinct Watermark.peer s.watermark
  pub read_marks : Distinct ReadMark.conv s.read_marks
  pub pending : IsKeyed s.pending
  pub blocked_screens : Distinct BlockedScreen.node s.blocked_screens
  pub muted_nodes : Distinct itself s.muted_nodes
  pub deliveries : Distinct chunk s.deliveries
  pub listed : All (IsListed s.conversations) s.messages

-- One call of a method that writes.
pub data Step {J : Type 0} (box : Box J) : Store → Store → Type 0 where
  set_cursor :
      {s : Store} (peer : Text) (seq : ℕ) → Step box s (Conversations.set_cursor peer seq s)
  ensure_room :
      {s : Store} (n : Bytes) (conv : Text) (members : J)
      → Step box s (Conversations.ensure_room box n conv members s)
  delete_room :
      {s : Store} (conv : Text) (points : List (Text × ℕ))
      → Step box s (Conversations.delete_room conv points s)
  clear_history : {s : Store} (conv : Text) → Step box s (Conversations.clear_history conv s)
  ingest :
      {s : Store} (fresh : Nonces) (conv sender : Text) (seq ts : ℕ) (text : Option Text)
      (att : Option J)
      → Step box s (Messages.ingest box fresh conv sender seq ts text att s).0
  add_sent :
      {s : Store} (fresh : Nonces) (conv : Text) (seqs : List (Text × ℕ)) (ts : ℕ)
      (text : Option Text) (att : Option J) (keys : Option (List (Text × ℕ)))
      → Step box s (Messages.add_sent box fresh conv seqs ts text att keys s).0
  mark_delivered :
      {s : Store} (node : Text) (seq : ℕ) → Step box s (Deliveries.mark_delivered node seq s).0
  mark_read : {s : Store} (conv : Text) → Step box s (Messages.mark_read conv s)
  mute_conversation :
      {s : Store} (n : Bytes) (conv : Text)
      → Step box s (Conversations.mute_conversation box n conv s)
  unmute_conversation :
      {s : Store} (conv : Text) → Step box s (Conversations.unmute_conversation conv s)
  mute : {s : Store} (node : Text) → Step box s (Conversations.mute node s)
  unmute : {s : Store} (node : Text) → Step box s (Conversations.unmute node s)
  set_blocked_screen :
      {s : Store} (n : Bytes) (node : Text) (screen : Option Text)
      → Step box s (Messages.set_blocked_screen box n node screen s)
  clear_blocked_screen :
      {s : Store} (node : Text) → Step box s (Messages.clear_blocked_screen node s)
  add_pending : {s : Store} (n : Bytes) (req : J) → Step box s (Messages.add_pending box n req s)
  pending_pop : {s : Store} → Step box s (Messages.pending_pop box s).0

pub data Reach {J : Type 0} (box : Box J) : Store → Type 0 where
  start : Reach box empty_store
  next : {s t : Store} → Reach box s → Step box s t → Reach box t
