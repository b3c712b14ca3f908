-- ===== src/Store/Messages.antt =====
-- The messages, the unread counts, the blocked screens and the pending requests of
-- client/aimless/store.py.
use aimless.Prelude.{
  ℕ, ◌+◌, Bool, true, false, not, ◌&&◌, ◌||◌, Option, none, some, List, [], ◌∷◌, ◌++◌, map, Text,
  text_key, chunk_key, text_eq, codes, ltb, max, select, count, if◌then◌else◌,
}
use aimless.Prelude.Table
use aimless.Prelude.Decimal.{decimal}
use aimless.Prelude.Sort.{text_le, sort_by}
use aimless.Store.Rows.{
  Bytes, Conversation, inbound, outbound, Message, ReadMark, PendingRow, BlockedScreen, Delivery,
  chunk, Store, Nonces, Box,
}
use aimless.Store.Conversations.{ensure_conv}

-- f"in:{sender}:{seq}"
unfoldable pub in_id : Text → ℕ → Text
in_id sender seq = codes "in:" ++ (sender ++ (b':' ∷ decimal seq))

-- `",".join(…)`
unfoldable pub join : ℕ → List Text → Text
join sep [] = []
join sep (s ∷ []) = s
join sep (s ∷ t ∷ rest) = s ++ sep ∷ join sep (t ∷ rest)

abbrev pub item_le : Text × ℕ → Text × ℕ → Bool
item_le (n, s) (m, t) = if text_eq n m then not (ltb t s) else text_le n m

-- `out_id`
unfoldable pub out_id : List (Text × ℕ) → Text
unfolding join
out_id seqs =
    codes "out:" ++ join b',' (map (λ e. e.0 ++ b'=' ∷ decimal e.1) (sort_by item_le seqs))

-- The chunks whose acks are tracked: `delivery_keys` without the seqs 0, or all of `seqs`.
unfoldable pub tracked_keys : List (Text × ℕ) → Option (List (Text × ℕ)) → List (Text × ℕ)
tracked_keys seqs none = seqs
tracked_keys seqs (some keys) = select (λ k. ltb 0 k.1) keys

-- The loop of `add_sent` over the keys.
unfoldable pub add_deliveries : Text → List (Text × ℕ) → List Delivery → List Delivery
add_deliveries mid [] t = t
add_deliveries mid ((node, seq) ∷ keys) t = add_deliveries mid keys (
    Table.insert_or_ignore chunk (record { node = node; seq = seq; msg_id = mid; acked = false }) t)

module _ {J : Type 0} (box : Box J) where
  -- `_enc` of a text that may be None, and of an attachment if there is one
  abbrev pub seal_text? : Bytes → Option Text → Option Bytes
  seal_text? nonce none = none
  seal_text? nonce (some t) = some (box.seal_text nonce t)

  abbrev pub seal_attachment : Bytes → Option J → Option Bytes
  seal_attachment nonce none = none
  seal_attachment nonce (some j) = if box.truthy j then some (box.seal_json nonce j) else none

  -- `ingest`, with the new state and whether a row was inserted
  unfoldable pub ingest :
      Nonces → Text → Text → ℕ → ℕ → Option Text → Option J → Store → Store × Bool
  unfolding ensure_conv
  ingest fresh conv sender seq ts text attachment s =
      let mid = in_id sender seq in
      let s1 = ensure_conv box (fresh 0) conv (text_eq conv sender) s in
      let old = Table.has Message.id mid s1.messages in
      let s2 = record s1 {
        messages =
            Table.insert_or_ignore Message.id
              (record {
                id = mid;
                conv = conv;
                sender = sender;
                dir = inbound;
                ts = ts;
                seq = seq;
                seqs = (sender, seq) ∷ [];
                text = seal_text? (fresh 1) text;
                attachment = seal_attachment (fresh 2) attachment;
              })
              s1.messages;
      } in
      (
        if old then s2 else record s2 {
          conversations =
              Table.update Conversation.id conv (λ c. record c { hidden = false }) s2.conversations;
        },
        not old,
      )

  -- `add_sent`; the order of the keys is the one in which Python goes through the set
  unfoldable pub add_sent :
      Nonces
      → Text
      → List (Text × ℕ)
      → ℕ
      → Option Text
      → Option J
      → Option (List (Text × ℕ))
      → Store
      → Store × Bool
  unfolding ensure_conv tracked_keys
  add_sent fresh conv seqs ts text attachment delivery_keys s =
      let mid = out_id seqs in
      let s1 = ensure_conv box (fresh 0) conv true s in
      let old = Table.has Message.id mid s1.messages in
      (
        record s1 {
          messages =
              Table.insert_or_ignore Message.id
                (record {
                  id = mid;
                  conv = conv;
                  sender = codes "self";
                  dir = outbound;
                  ts = ts;
                  seq = 0;
                  seqs = seqs;
                  text = seal_text? (fresh 1) text;
                  attachment = seal_attachment (fresh 2) attachment;
                })
                s1.messages;
          deliveries = add_deliveries mid (tracked_keys seqs delivery_keys) s1.deliveries;
        },
        not old,
      )

-- MAX(…) of a column over the rows that pass a test, and 0 where there is none
unfoldable pub max_of : (Message → Bool) → (Message → ℕ) → List Message → ℕ
max_of p f [] = 0
max_of p f (m ∷ ms) = if p m then max (f m) (max_of p f ms) else max_of p f ms

abbrev pub is_inbound : Message → Bool
is_inbound m = elim m.dir [ inbound ↦ true | outbound ↦ false ]

-- `recv_last`
unfoldable pub recv_last : Store → Text → Text → ℕ
unfolding max_of
recv_last s conv node =
    max_of (λ m. text_eq m.conv conv && (is_inbound m && text_eq m.sender node)) Message.seq
      s.messages

-- `mark_read`
unfoldable pub mark_read : Text → Store → Store
unfolding max_of
mark_read conv s =
    let upto = max_of (λ m. text_eq m.conv conv) Message.ts s.messages in
    record s {
      read_marks =
          Table.upsert ReadMark.conv (record { conv = conv; upto_ts = upto })
            (λ r. record r { upto_ts = max r.upto_ts upto }) s.read_marks;
    }

abbrev pub read_upto : Store → Text → ℕ
read_upto s conv = elim (Table.find ReadMark.conv conv s.read_marks) [
  | none ↦ 0
  | some r ↦ r.upto_ts
]

abbrev pub is_unread : Text → ℕ → Message → Bool
is_unread conv upto m = text_eq m.conv conv && (is_inbound m && ltb upto m.ts)

-- `unread`
unfoldable pub unread : Store → Text → ℕ
unread s conv = count (is_unread conv (read_upto s conv)) s.messages

unfoldable pub sum : List ℕ → ℕ
sum [] = 0
sum (n ∷ ns) = n + sum ns

-- `total_unread`
unfoldable pub total_unread : Store → ℕ
unfolding unread sum
total_unread s = sum (map (λ c. unread s c.id) s.conversations)

abbrev pub same_node : Option Text → PendingRow → Bool
same_node none row = false
same_node (some node) row = elim row.node [ none ↦ false | some n ↦ text_eq n node ]

unfoldable pub exists_pending : Option Text → List PendingRow → Bool
exists_pending key [] = false
exists_pending key (row ∷ rows) = same_node key row || exists_pending key rows

module _ {J : Type 0} (box : Box J) where
  -- `set_blocked_screen`
  unfoldable pub set_blocked_screen : Bytes → Text → Option Text → Store → Store
  set_blocked_screen nonce node screen s =
      let sealed = seal_text? box nonce screen in
      record s {
        blocked_screens =
            Table.upsert BlockedScreen.node (record { node = node; screen = sealed })
              (λ b. record b { screen = sealed }) s.blocked_screens;
      }

  -- `blocked_screen`
  unfoldable pub blocked_screen : Store → Text → Option Text
  blocked_screen s node = elim (Table.find BlockedScreen.node node s.blocked_screens) [
    | none ↦ none
    | some b ↦ elim b.screen [ none ↦ none | some blob ↦ box.open_text blob ]
  ]

  -- `add_pending`; a NULL key conflicts with nothing
  unfoldable pub add_pending : Bytes → J → Store → Store
  add_pending nonce req s =
      let node = box.get_node req in
      record s {
        pending =
            if exists_pending node s.pending
            then s.pending
            else s.pending ++ record { node = node; payload = box.seal_json nonce req } ∷ [];
      }

  unfoldable pub open_all : List PendingRow → Option (List J)
  open_all [] = some []
  open_all (row ∷ rows) = elim (box.open_json row.payload) [
    | none ↦ none
    | some j ↦ elim (open_all rows) [ none ↦ none | some js ↦ some (j ∷ js) ]
  ]

  -- `pending`, in the order of the row ids
  unfoldable pub pending : Store → Option (List J)
  unfolding open_all
  pending s = open_all s.pending

  -- `pending_pop`; WHERE node=NULL deletes nothing
  unfoldable pub pending_pop : Store → Store × Option J
  pending_pop s = elim s.pending [
    | [] ↦ (s, none)
    | row ∷ rows ↦ (
      record s { pending = select (λ r. not (same_node row.node r)) s.pending },
      box.open_json row.payload,
    )
  ]

-- `clear_blocked_screen`
unfoldable pub clear_blocked_screen : Text → Store → Store
clear_blocked_screen node s = record s {
  blocked_screens = Table.delete BlockedScreen.node node s.blocked_screens;
}
