-- ===== src/Protocol/RoomId.antt =====
-- `room_id` of client/aimless/protocol.py.
use mathlib.Core.List.{Permᴰ}
use aimless.Prelude.{◌≡◌, refl, ap, ◌∙◌, true, List, [], ◌∷◌, Text, arith}
use aimless.Prelude.Sort.{text_le, text_le_total, insert_by, sort_by}
use aimless.Store.Rows.{Bytes}
use aimless.Store.Messages.{join}

-- `room_id`; `encode` is `str.encode("utf-8")`, `sha256` its hash in hexadecimal digits.
unfoldable pub room_id : (Text → Bytes) → (Bytes → Text) → List Text → Text
room_id encode sha256 member_nodes = sha256 (encode (join b'|' (sort_by text_le member_nodes)))

text_le_antisymm : (s t : Text) → text_le s t ≡ true → text_le t s ≡ true → s ≡ t
unfolding text_le
text_le_antisymm [] [] h k = refl
text_le_antisymm [] (b ∷ t) h k = ground arith
text_le_antisymm (a ∷ s) [] h k = ground arith
text_le_antisymm (a ∷ s) (b ∷ t) h k = ground (arith, text_le_antisymm s t)

text_le_trans : (s t u : Text) → text_le s t ≡ true → text_le t u ≡ true → text_le s u ≡ true
unfolding text_le
text_le_trans [] t u h k = refl
text_le_trans (a ∷ s) [] u h k = ground arith
text_le_trans (a ∷ s) (b ∷ t) [] h k = ground arith
text_le_trans (a ∷ s) (b ∷ t) (c ∷ u) h k = ground (arith, text_le_trans s t u)

insert_comm :
    (x y : Text) (l : List Text)
    → insert_by text_le x (insert_by text_le y l) ≡ insert_by text_le y (insert_by text_le x l)
unfolding insert_by
insert_comm x y [] = ground (arith, text_le_total x y, text_le_antisymm x y)
insert_comm x y (z ∷ l) = ground (
  arith,
  text_le_total x y,
  text_le_total x z,
  text_le_total y z,
  text_le_antisymm x y,
  text_le_trans x y z,
  text_le_trans y x z,
  insert_comm x y l,
)

sort_by-perm : {xs ys : List Text} → Permᴰ xs ys → sort_by text_le xs ≡ sort_by text_le ys
unfolding sort_by
sort_by-perm Permᴰ.nil = refl
sort_by-perm (Permᴰ.cons e p) = λ i. insert_by text_le (e i) (sort_by-perm p i)
sort_by-perm (Permᴰ.swap {l = l} e f) = insert_comm _ _ (sort_by text_le l) ∙ λ i.
    insert_by text_le (f i) (insert_by text_le (e i) (sort_by text_le l))
sort_by-perm (Permᴰ.trans p q) = sort_by-perm p ∙ sort_by-perm q

-- Two lists of the same members, in whatever order, give the same room id.
pub room_id-perm :
    (encode : Text → Bytes) (sha256 : Bytes → Text) {xs ys : List Text}
    → Permᴰ xs ys
    → room_id encode sha256 xs ≡ room_id encode sha256 ys
unfolding room_id
room_id-perm encode sha256 p = ap (λ l. sha256 (encode (join b'|' l))) (sort_by-perm p)
