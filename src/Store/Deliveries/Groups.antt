-- ===== src/Store/Deliveries/Groups.antt =====
-- GROUP BY over rows, by one column and by two.
use aimless.Prelude.{
  ◌≡◌, refl, Bool, true, false, List, [], ◌∷◌, map, Text, text_eq, text_eq_iff, select, any, arith,
}
use aimless.Store.Rows.{Delivery}
use aimless.Store.Deliveries.{rows_of, groups, recipient, recipient_eq}

abbrev of_message : Text → Text × Text → Bool
of_message mid g = text_eq g.0 mid

any-recipient :
    (d : Delivery) (mid : Text) (ds : List Delivery)
    → text_eq d.msg_id mid ≡ true
    → any (recipient_eq (recipient d)) (map recipient ds)
      ≡ any (text_eq d.node) (map Delivery.node (rows_of mid ds))
unfolding any recipient_eq select
any-recipient d mid [] h = refl
any-recipient d mid (x ∷ ds) h = ground (
  arith,
  any-recipient d mid ds,
  text_eq_iff d.msg_id mid,
  text_eq_iff d.msg_id x.msg_id,
  text_eq_iff x.msg_id mid,
)

-- The groups of a message among the groups by message and node are its groups by node.
pub groups-recipient :
    (mid : Text) (ds : List Delivery)
    → select (of_message mid) (groups recipient_eq (map recipient ds))
      ≡ map (λ n. (mid, n)) (groups text_eq (map Delivery.node (rows_of mid ds)))
unfolding groups select
groups-recipient mid [] = refl
groups-recipient mid (d ∷ ds) =
    ground (arith, groups-recipient mid ds, any-recipient d mid ds, text_eq_iff d.msg_id mid)

-- Rows of one message, taken from those of several messages.
pub rows_of-any :
    (mid : Text) (mids : List Text) (ds : List Delivery)
    → any (text_eq mid) mids ≡ true
    → rows_of mid (select (λ d. any (text_eq d.msg_id) mids) ds) ≡ rows_of mid ds
unfolding select
rows_of-any mid mids [] h = refl
rows_of-any mid mids (d ∷ ds) h = ground (arith, rows_of-any mid mids ds, text_eq_iff d.msg_id mid)

pub rows_of-none :
    (mid : Text) (mids : List Text) (ds : List Delivery)
    → any (text_eq mid) mids ≡ false
    → rows_of mid (select (λ d. any (text_eq d.msg_id) mids) ds) ≡ []
unfolding select
rows_of-none mid mids [] h = refl
rows_of-none mid mids (d ∷ ds) h =
    ground (arith, rows_of-none mid mids ds, text_eq_iff d.msg_id mid)

-- The rows of a group by message and node.
pub select-recipient :
    (mid node : Text) (ds : List Delivery)
    → select (λ d. recipient_eq (recipient d) (mid, node)) ds
      ≡ select (λ d. text_eq d.node node) (rows_of mid ds)
unfolding select recipient_eq
select-recipient mid node [] = refl
select-recipient mid node (d ∷ ds) = ground (arith, select-recipient mid node ds)
