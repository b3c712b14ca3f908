-- ===== src/Store/Reading.antt =====
-- What is read and what is cleared: `mark_read`, `clear_history` and `delete_room` of
-- client/aimless/store.py.
use aimless.Prelude.{
  ℕ, ◌≤◌, ◌≡◌, refl, not, List, [], ◌∷◌, Text, text_key, text_eq, text_eq_iff, max, select, count,
  if◌then◌else◌, arith,
}
use aimless.Prelude.Sort.{sort_by}
use aimless.Prelude.Table.Laws.{find-upsert, has-eq-found, find-delete}
use aimless.Store.Rows.{Message, ReadMark, Store}
use aimless.Store.Conversations.{clear_history}
use aimless.Store.Messages.{mark_read, max_of, unread, is_unread, read_upto}
use aimless.Store.Deliveries.{message_rows}

none_unread :
    (conv : Text) (upto : ℕ) (ms : List Message)
    → max_of (λ m. text_eq m.conv conv) Message.ts ms ≤ upto
    → count (is_unread conv upto) ms ≡ 0
unfolding max_of count
none_unread conv upto [] h = refl
none_unread conv upto (m ∷ ms) h = ground (arith, none_unread conv upto ms)

module _ (conv : Text) (s : Store) where
  abbrev latest : ℕ
  latest = max_of (λ m. text_eq m.conv conv) Message.ts s.messages

  read_upto-mark_read :
      (q : Text)
      → read_upto (mark_read conv s) q
        ≡ (if text_eq conv q then max (read_upto s conv) latest else read_upto s q)
  unfolding mark_read
  read_upto-mark_read q = ground (
    arith,
    find-upsert ReadMark.conv q (record { conv = conv; upto_ts = latest })
        (λ r. record r { upto_ts = max r.upto_ts latest }) s.read_marks (λ r. refl),
    has-eq-found ReadMark.conv q s.read_marks,
    text_eq_iff conv q,
  )

  messages-mark_read : (mark_read conv s).messages ≡ s.messages
  unfolding mark_read
  messages-mark_read = refl

  -- After `mark_read` nothing of the conversation is unread, and the other counts are what they
  -- were.
  pub unread-mark_read :
      (q : Text) → unread (mark_read conv s) q ≡ (if text_eq conv q then 0 else unread s q)
  unfolding unread
  unread-mark_read q =
      rw (messages-mark_read, read_upto-mark_read q)
        (ground
          (arith, text_eq_iff conv q, none_unread conv (max (read_upto s conv) latest) s.messages))

select_other :
    (conv q : Text) (ms : List Message)
    → select (λ m. text_eq m.conv q) (select (λ m. not (text_eq m.conv conv)) ms)
      ≡ (if text_eq conv q then [] else select (λ m. text_eq m.conv q) ms)
unfolding select
select_other conv q [] = ground arith
select_other conv q (m ∷ ms) = ground (
  arith,
  select_other conv q ms,
  text_eq_iff m.conv q,
  text_eq_iff m.conv conv,
  text_eq_iff conv q,
)

unread_other :
    (conv q : Text) (u : ℕ) (ms : List Message)
    → count (is_unread q u) (select (λ m. not (text_eq m.conv conv)) ms)
      ≡ (if text_eq conv q then 0 else count (is_unread q u) ms)
unfolding select count
unread_other conv q u [] = ground arith
unread_other conv q u (m ∷ ms) = ground (
  arith,
  unread_other conv q u ms,
  text_eq_iff m.conv q,
  text_eq_iff m.conv conv,
  text_eq_iff conv q,
)

module _ (conv q : Text) (s : Store) where
  -- `clear_history` empties the conversation and sets its unread count to 0; the messages and the
  -- unread counts of the others stay.
  pub clear_history_lem :
      (message_rows (clear_history conv s) q ≡ (if text_eq conv q then [] else message_rows s q))
      × (unread (clear_history conv s) q ≡ (if text_eq conv q then 0 else unread s q))
  unfolding clear_history message_rows unread sort_by
  clear_history_lem = (
    ground (arith, select_other conv q s.messages),
    ground (
      arith,
      find-delete ReadMark.conv conv q s.read_marks,
      unread_other conv q (read_upto s q) s.messages,
      unread_other conv q 0 s.messages,
    ),
  )
