-- ===== src/Store/Valid/Keyed.antt =====
-- The primary key of the table `pending` of client/aimless/store.py, which may be NULL.
use aimless.Prelude.{
  ◌≡◌, refl, Bool, false, Option, List, [], ◌∷◌, ◌++◌, Text, text_eq_iff, select, arith, inl, inr,
  Option-cases,
}
use aimless.Store.Rows.{PendingRow}
use aimless.Store.Messages.{same_node, exists_pending}
use aimless.Store.Pending.{exists_pending-append}
use aimless.Store.Valid.{IsKeyed}

same_node_symm : (a b : PendingRow) → same_node a.node b ≡ false → same_node b.node a ≡ false
same_node_symm a b h = elim (Option-cases a.node) [
  | inl p ↦ elim (Option-cases b.node) [
    | inl q ↦ ground (arith, p, q)
    | inr (n, q) ↦ ground (arith, p, q)
  ]
  | inr (m, p) ↦ elim (Option-cases b.node) [
    | inl q ↦ ground (arith, p, q)
    | inr (n, q) ↦ ground (arith, p, q, h, text_eq_iff m n, text_eq_iff n m)
  ]
]

pub append-IsKeyed :
    (row : PendingRow) (rows : List PendingRow)
    → exists_pending row.node rows ≡ false
    → IsKeyed rows
    → IsKeyed (rows ++ row ∷ [])
unfolding exists_pending
append-IsKeyed row [] h k = (refl, tt)
append-IsKeyed row (r ∷ rows) h k = (
  ground (arith, exists_pending-append r.node rows row, same_node_symm row r, h, k.0),
  append-IsKeyed row rows (ground (arith, h)) k.1,
)

exists_pending-select :
    (p : PendingRow → Bool) (key : Option Text) (rows : List PendingRow)
    → exists_pending key rows ≡ false
    → exists_pending key (select p rows) ≡ false
unfolding exists_pending select
exists_pending-select p key [] h = refl
exists_pending-select p key (r ∷ rows) h = ground (arith, exists_pending-select p key rows, h)

pub select-IsKeyed :
    (p : PendingRow → Bool) (rows : List PendingRow) → IsKeyed rows → IsKeyed (select p rows)
unfolding select
select-IsKeyed p [] k = tt
select-IsKeyed p (r ∷ rows) k =
    ground (arith, exists_pending-select p r.node rows k.0, select-IsKeyed p rows k.1)
