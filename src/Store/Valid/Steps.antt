-- ===== src/Store/Valid/Steps.antt =====
-- The validity of the tables under any sequence of calls of the methods of client/aimless/store.py.
use aimless.Prelude.{ℕ, refl, List, [], ◌∷◌, Text, text_key, chunk_key, ltb}
use aimless.Prelude.Table.Laws.{update-Distinct}
use aimless.Store.Rows.{Conversation, Store, Box}
use aimless.Store.Conversations.{clear_history, advance_cursors, delete_room}
use aimless.Store.Deliveries.{mark_delivered}
use aimless.Store.Valid.{IsValid, Step, Reach, start, next}
use aimless.Store.Valid.Parts.{update-Grows, IsValid-if, keep_conversations}
use aimless.Store.Valid.Plain.{
  set_cursor-IsValid, mark_read-IsValid, mute-IsValid, unmute-IsValid, clear_blocked_screen-IsValid,
  unmute_conversation-IsValid, clear_history-IsValid, acknowledge-IsValid,
}
use aimless.Store.Valid.Sealed.{
  ensure_room-IsValid, set_blocked_screen-IsValid, add_pending-IsValid, popped-IsValid,
  mute_conversation-IsValid, ingest-IsValid, add_sent-IsValid,
}

advance_cursors-IsValid :
    (points : List (Text × ℕ)) (s : Store) → IsValid s → IsValid (advance_cursors points s)
unfolding advance_cursors
advance_cursors-IsValid [] s v = v
advance_cursors-IsValid ((p, n) ∷ rest) s v =
    advance_cursors-IsValid rest _ (IsValid-if (ltb 0 n) (set_cursor-IsValid v p n) v)

delete_room-IsValid :
    (conv : Text) (points : List (Text × ℕ)) (s : Store)
    → IsValid s
    → IsValid (delete_room conv points s)
unfolding delete_room
delete_room-IsValid conv points s v =
    let w = clear_history-IsValid v conv in
    advance_cursors-IsValid points _ (
      unfold clear_history in
      keep_conversations w _ (update-Distinct Conversation.id _ (λ c. refl) conv _ v.conversations)
        (update-Grows _ conv _ (λ c. refl)))

module _ {J : Type 0} (box : Box J) where
  -- Each method keeps what is valid.
  Step-IsValid : {s t : Store} → Step box s t → IsValid s → IsValid t
  Step-IsValid (Step.set_cursor p n) v = set_cursor-IsValid v p n
  Step-IsValid (Step.ensure_room n conv m) v = ensure_room-IsValid box v n conv m
  Step-IsValid (Step.delete_room conv points) v = delete_room-IsValid conv points _ v
  Step-IsValid (Step.clear_history conv) v = clear_history-IsValid v conv
  Step-IsValid (Step.ingest fresh conv sender seq ts text att) v =
      ingest-IsValid box v conv fresh ts text att sender seq
  Step-IsValid (Step.add_sent fresh conv seqs ts text att keys) v =
      add_sent-IsValid box v fresh conv seqs ts text att keys
  Step-IsValid (Step.mark_delivered node seq) v =
      unfold mark_delivered in acknowledge-IsValid v _ node seq
  Step-IsValid (Step.mark_read conv) v = mark_read-IsValid v conv
  Step-IsValid (Step.mute_conversation n conv) v = mute_conversation-IsValid box v n conv
  Step-IsValid (Step.unmute_conversation conv) v = unmute_conversation-IsValid v conv
  Step-IsValid (Step.mute node) v = mute-IsValid v node
  Step-IsValid (Step.unmute node) v = unmute-IsValid v node
  Step-IsValid (Step.set_blocked_screen n node screen) v =
      set_blocked_screen-IsValid box v n node screen
  Step-IsValid (Step.clear_blocked_screen node) v = clear_blocked_screen-IsValid v node
  Step-IsValid (Step.add_pending n req) v = add_pending-IsValid box v n req
  Step-IsValid Step.pending_pop v = popped-IsValid box v _ refl

  -- In every state that the methods reach from the empty database, in whatever order they are
  -- called and with whatever arguments, each table has its primary keys once, the pending requests
  -- with a node included, and each message is in a conversation that is listed.
  pub Reach-IsValid : {s : Store} → Reach box s → IsValid s
  Reach-IsValid start = record {
    conversations = tt;
    messages = tt;
    watermark = tt;
    read_marks = tt;
    pending = tt;
    blocked_screens = tt;
    muted_nodes = tt;
    deliveries = tt;
    listed = tt;
  }
  Reach-IsValid (next r st) = Step-IsValid st (Reach-IsValid r)
