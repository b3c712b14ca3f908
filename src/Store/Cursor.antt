-- ===== src/Store/Cursor.antt =====
-- The watermarks of client/aimless/store.py: `cursor`, `set_cursor` and `delete_room`.
use aimless.Prelude.{
  ℕ, ◌≤◌, ◌≡◌, List, [], ◌∷◌, Text, text_key, text_eq, text_eq_iff, max, if◌then◌else◌, arith, refl,
}
use aimless.Prelude.Table.Laws.{find-upsert, has-eq-found}
use aimless.Store.Rows.{Watermark, Store}
use aimless.Store.Conversations.{cursor, set_cursor, advance_cursors, delete_room}

module _ (s : Store) where
  -- After `set_cursor` the cursor of the peer is the larger of its old value and the new one, and
  -- the cursor of every other peer is what it was.
  pub cursor-set_cursor :
      (p q : Text) (n : ℕ)
      → cursor (set_cursor p n s) q ≡ (if text_eq p q then max (cursor s p) n else cursor s q)
  unfolding cursor set_cursor
  cursor-set_cursor p q n = ground (
    arith,
    find-upsert Watermark.peer q (record { peer = p; seq = n })
        (λ row. record row { seq = max row.seq n }) s.watermark (λ row. refl),
    has-eq-found Watermark.peer q s.watermark,
    text_eq_iff p q,
  )

  pub cursor-set_cursor_le : (p q : Text) (n : ℕ) → cursor s q ≤ cursor (set_cursor p n s) q
  cursor-set_cursor_le p q n = ground (arith, cursor-set_cursor p q n, text_eq_iff p q)

-- The largest of the points that a list names for a peer.
unfoldable pub latest_for : Text → List (Text × ℕ) → ℕ
latest_for q [] = 0
latest_for q ((p, n) ∷ rest) = if text_eq p q then max n (latest_for q rest) else latest_for q rest

pub cursor-advance_cursors :
    (points : List (Text × ℕ)) (s : Store) (q : Text)
    → cursor (advance_cursors points s) q ≡ max (cursor s q) (latest_for q points)
unfolding advance_cursors latest_for
cursor-advance_cursors [] s q = ground arith
cursor-advance_cursors ((p, n) ∷ rest) s q = ground (
  arith,
  cursor-advance_cursors rest (set_cursor p n s) q,
  cursor-advance_cursors rest s q,
  cursor-set_cursor s p q n,
  text_eq_iff p q,
)

-- `delete_room` takes the cursor of each peer to the largest of its points, and no cursor back.
pub cursor-delete_room :
    (conv : Text) (points : List (Text × ℕ)) (s : Store) (q : Text)
    → cursor (delete_room conv points s) q ≡ max (cursor s q) (latest_for q points)
unfolding delete_room cursor
cursor-delete_room conv points s q = cursor-advance_cursors points _ q
