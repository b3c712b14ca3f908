-- ===== src/Store/Pending.antt =====
-- The queue of contact requests of client/aimless/store.py.
use aimless.Prelude.{
  ◌≡◌, refl, ap, false, not, ◌||◌, Option, none, some, List, [], ◌∷◌, ◌++◌, Text, text_eq_iff,
  select, if◌then◌else◌, arith,
}
use aimless.Store.Rows.{Bytes, PendingRow, Store, Box}
use aimless.Store.Messages.{same_node, exists_pending, add_pending, open_all, pending, pending_pop}

-- Every waiting request names a node, and no two of them name one.
abbrev pub IsQueue : List PendingRow → Type 0
IsQueue [] = Unit
IsQueue (row ∷ rows) =
    ((n : Text) × (row.node ≡ some n)) × (exists_pending row.node rows ≡ false) × IsQueue rows

pub exists_pending-append :
    (key : Option Text) (rows : List PendingRow) (row : PendingRow)
    → exists_pending key (rows ++ row ∷ []) ≡ (exists_pending key rows || same_node key row)
unfolding exists_pending
exists_pending-append key [] row = ground arith
exists_pending-append key (r ∷ rows) row = ground (arith, exists_pending-append key rows row)

append-IsQueue :
    (n : Text) (p : Bytes) (rows : List PendingRow)
    → exists_pending (some n) rows ≡ false
    → IsQueue rows
    → IsQueue (rows ++ record { node = some n; payload = p } ∷ [])
unfolding exists_pending
append-IsQueue n p [] h q = ((n, refl), refl, tt)
append-IsQueue n p (r ∷ rows) h q = (
  q.0,
  ground (
    arith,
    exists_pending-append r.node rows (record { node = some n; payload = p }),
    text_eq_iff q.0.0 n,
    text_eq_iff n q.0.0,
  ),
  append-IsQueue n p rows (ground arith) q.2,
)

keep_all :
    (n : Text) (rows : List PendingRow)
    → exists_pending (some n) rows ≡ false
    → select (λ r. not (same_node (some n) r)) rows ≡ rows
unfolding exists_pending select
keep_all n [] h = refl
keep_all n (r ∷ rows) h = ground (arith, keep_all n rows)

keep_null : (rows : List PendingRow) → select (λ r. not (same_node none r)) rows ≡ rows
unfolding select
keep_null [] = refl
keep_null (r ∷ rows) = ap (◌∷◌ r) (keep_null rows)

abbrev pub waiting : Option Text → Bytes → PendingRow
waiting node p = record { node = node; payload = p }

module _ {J : Type 0} (box : Box J) where
  abbrev pub snoc : Option (List J) → J → Option (List J)
  snoc none j = none
  snoc (some js) j = some (js ++ j ∷ [])

  open_all-append :
      (rows : List PendingRow) (key : Option Text) (nonce : Bytes) (j : J)
      → open_all box (rows ++ record { node = key; payload = box.seal_json nonce j } ∷ [])
        ≡ snoc (open_all box rows) j
  unfolding open_all
  open_all-append [] key nonce j = rw (box.open-seal_json nonce j)
  open_all-append (row ∷ rows) key nonce j = ground (arith, open_all-append rows key nonce j)

  -- A request of a node that waits already changes nothing; any other joins the end of the queue,
  -- as it was given. The queue keeps its form.
  pub add_pending_lem :
      (nonce : Bytes) (req : J) (n : Text) (s : Store)
      → box.get_node req ≡ some n
      → IsQueue s.pending
      → IsQueue (add_pending box nonce req s).pending
        × (pending box (add_pending box nonce req s) ≡ (
            if exists_pending (some n) s.pending then pending box s else snoc (pending box s) req))
  unfolding add_pending pending
  add_pending_lem nonce req n s e q = rw e (
      (
        ground (arith, append-IsQueue n (box.seal_json nonce req) s.pending),
        ground (arith, open_all-append s.pending (some n) nonce req),
      ))

  -- `pending_pop` hands out the oldest request, and leaves the others in their order and the rest
  -- of the state as it is.
  pub pending_pop_lem :
      (s : Store) (n : Text) (p : Bytes) (rows : List PendingRow)
      → IsQueue (waiting (some n) p ∷ rows)
      → pending_pop box (record s { pending = waiting (some n) p ∷ rows })
        ≡ (record s { pending = rows }, box.open_json p)
  unfolding pending_pop select
  pending_pop_lem s n p rows q = rw ((text_eq_iff n n).1 refl) (rw (keep_all n rows q.1))

  -- A request whose node is NULL is never removed: `pending_pop` hands it out and leaves the state
  -- as it is.
  pub pending_pop_null :
      (s : Store) (p : Bytes) (rows : List PendingRow)
      → pending_pop box (record s { pending = waiting none p ∷ rows })
        ≡ (record s { pending = waiting none p ∷ rows }, box.open_json p)
  unfolding pending_pop select
  pending_pop_null s p rows = rw (keep_null rows)
