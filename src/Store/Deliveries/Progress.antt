-- ===== src/Store/Deliveries/Progress.antt =====
-- The acks, the progress and the delivered messages of client/aimless/store.py.
use aimless.Prelude.{
  ℕ, ◌+◌, ◌≤◌, ◌≡◌, ◌≢◌, ◌↔◌, refl, true, false, not, ◌&&◌, none, some, List, [], ◌∷◌, map, Text,
  text_key, chunk_key, chunk_eq_iff, text_eq, select, count, length, if◌then◌else◌, arith,
}
use aimless.Prelude.Table
use aimless.Prelude.Table.{Distinct}
use aimless.Store.Rows.{Delivery, chunk, Store}
use aimless.Store.Deliveries.{
  rows_of, is_acked, delivery_progress, is_delivered, undelivered, mark_delivered,
}

acked_le : (ds : List Delivery) → count is_acked ds ≤ length ds
unfolding count
acked_le [] = omega arith
acked_le (d ∷ ds) = ground (arith, acked_le ds)

all_acked :
    (mid : Text) (ds : List Delivery)
    → (count is_acked (rows_of mid ds) ≡ length (rows_of mid ds))
      ↔ (map chunk (select (λ d. text_eq d.msg_id mid && not d.acked) ds) ≡ [])
unfolding select count
all_acked mid [] = (λ _. refl, λ _. refl)
all_acked mid (d ∷ ds) = ground (arith, all_acked mid ds, acked_le (rows_of mid ds))

-- A message counts as delivered exactly if it has tracked chunks and no chunk is undelivered, and
-- as not tracked exactly if it has no tracked chunk.
pub is_delivered_iff :
    (s : Store) (mid : Text)
    → ((is_delivered s mid ≡ some true)
        ↔ (((delivery_progress s mid).0 ≢ 0) × (undelivered s mid ≡ [])))
      × ((is_delivered s mid ≡ none) ↔ ((delivery_progress s mid).0 ≡ 0))
unfolding is_delivered undelivered delivery_progress
is_delivered_iff s mid = ground (arith, all_acked mid s.deliveries)

abbrev set_acked : Delivery → Delivery
set_acked d = record d { acked = true }

length-acked :
    (mid : Text) (k : Text × ℕ) (ds : List Delivery)
    → length (rows_of mid (Table.update chunk k set_acked ds)) ≡ length (rows_of mid ds)
unfolding Table.update select
length-acked mid k [] = refl
length-acked mid k (d ∷ ds) = ground (arith, length-acked mid k ds)

absent_acked :
    (mid : Text) (k : Text × ℕ) (ds : List Delivery)
    → Table.has chunk k ds ≡ false
    → Table.update chunk k set_acked ds ≡ ds
unfolding Table.update Table.has
absent_acked mid k [] h = refl
absent_acked mid k (d ∷ ds) h = ground (arith, absent_acked mid k ds)

count-acked :
    (mid : Text) (k : Text × ℕ) (ds : List Delivery) (r : Delivery)
    → Distinct chunk ds
    → Table.find chunk k ds ≡ some r
    → r.acked ≡ false
    → count is_acked (rows_of mid (Table.update chunk k set_acked ds))
      ≡ count is_acked (rows_of mid ds) + (if text_eq r.msg_id mid then 1 else 0)
unfolding Table.update Table.find select count
count-acked mid k [] r d f a = cc
count-acked mid k (x ∷ ds) r d f a =
    ground (arith, count-acked mid k ds r d.1, absent_acked mid k ds, chunk_eq_iff (chunk x) k)

-- The ack of a chunk returns the message that the chunk belongs to, if there is one, and adds one
-- to the acked chunks of that message if the chunk was not acked before. All else stays: the
-- totals, and the progress of every other message.
pub progress-mark_delivered :
    (s : Store) (node : Text) (seq : ℕ) (mid : Text) (r : Delivery)
    → Distinct chunk s.deliveries
    → Table.find chunk (node, seq) s.deliveries ≡ some r
    → ((mark_delivered node seq s).1 ≡ some r.msg_id)
      × ((delivery_progress (mark_delivered node seq s).0 mid).0 ≡ (delivery_progress s mid).0)
      × ((delivery_progress (mark_delivered node seq s).0 mid).1
          ≡ (delivery_progress s mid).1 + (if text_eq r.msg_id mid && not r.acked then 1 else 0))
unfolding mark_delivered delivery_progress
progress-mark_delivered s node seq mid r d f = ground (
  arith,
  length-acked mid (node, seq) s.deliveries,
  count-acked mid (node, seq) s.deliveries r d f,
)
