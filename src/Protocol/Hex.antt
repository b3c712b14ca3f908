-- ===== src/Protocol/Hex.antt =====
-- `bytes.hex()` and `bytes.fromhex`, as client/aimless/protocol.py uses them.
use aimless.Prelude.{
  ℕ, ◌+◌, ◌-◌, ◌*◌, ◌/◌, ◌%◌, ◌<◌, ◌≡◌, refl, ap, ◌∙◌, Bool, true, false, ◌&&◌, ◌||◌, Option, none,
  some, List, [], ◌∷◌, Text, ◌==◌, ltb, leb, All, if◌then◌else◌, arith,
}
use aimless.Base58.Bits.{passes, test_of_passes}

unfoldable pub hex_char : ℕ → ℕ
hex_char d = if ltb d 10 then b'0' + d else b'a' + (d - 10)

unfoldable pub hex_value : ℕ → Option ℕ
hex_value c =
    if leb b'0' c && leb c b'9'
    then some (c - b'0')
    else if leb b'a' c && leb c b'f'
    then some (c - b'a' + 10)
    else if leb b'A' c && leb c b'F'
    then some (c - b'A' + 10)
    else none

-- `data.hex()`
unfoldable pub to_hex : List ℕ → Text
to_hex [] = []
to_hex (b ∷ bs) = hex_char (b / 16) ∷ hex_char (b % 16) ∷ to_hex bs

-- The characters that `fromhex` skips between two bytes.
abbrev pub is_hex_space : ℕ → Bool
is_hex_space c = c == 32 || (leb 9 c && leb c 13)

unfoldable pub hex_pair : ℕ → ℕ → Option (List ℕ) → Option (List ℕ)
hex_pair c d rest = elim (hex_value c) [
  | none ↦ none
  | some h ↦ elim (hex_value d) [
    | none ↦ none
    | some l ↦ elim rest [ none ↦ none | some bs ↦ some ((16 * h + l) ∷ bs) ]
  ]
]

-- `bytes.fromhex(text)`; `none` is its `ValueError`.
unfoldable pub from_hex : Text → Option (List ℕ)
from_hex [] = some []
from_hex (c ∷ []) = if is_hex_space c then some [] else none
from_hex (c ∷ d ∷ text) =
    let later = from_hex (d ∷ text) in
    let paired = hex_pair c d (from_hex text) in if is_hex_space c then later else paired

digit_table :
    passes
      (λ d.
        (elim (hex_value (hex_char d)) [ none ↦ false | some v ↦ v == d ])
        && (if is_hex_space (hex_char d) then false else true))
      16
    ≡ true
unfolding passes hex_value hex_char
digit_table = refl

hex_value-hex_char : (d : ℕ) → d < 16 → hex_value (hex_char d) ≡ some d
hex_value-hex_char d h = let e = test_of_passes _ 16 digit_table d h in ground arith

hex_char_visible : (d : ℕ) → d < 16 → is_hex_space (hex_char d) ≡ false
hex_char_visible d h = let e = test_of_passes _ 16 digit_table d h in ground arith

hex_pair-hex_char :
    (b : ℕ) (bs : List ℕ)
    → b < 256
    → hex_pair (hex_char (b / 16)) (hex_char (b % 16)) (some bs) ≡ some (b ∷ bs)
unfolding hex_pair
hex_pair-hex_char b bs h =
    let e : 16 * (b / 16) + b % 16 ≡ b = omega arith in
    rw (hex_value-hex_char (b / 16) (omega arith), hex_pair)
      (rw (hex_value-hex_char (b % 16) (omega arith), hex_pair) (rw e))

from_hex_pair :
    (c d : ℕ) (text : Text)
    → is_hex_space c ≡ false
    → from_hex (c ∷ d ∷ text) ≡ hex_pair c d (from_hex text)
unfolding from_hex
from_hex_pair c d text h = rw h

-- Bytes come back from their hexadecimal form.
pub from_hex-to_hex : (bs : List ℕ) → All (λ b. b < 256) bs → from_hex (to_hex bs) ≡ some bs
unfolding to_hex
from_hex-to_hex [] h = unfold from_hex in refl
from_hex-to_hex (b ∷ bs) h =
    from_hex_pair _ _ (to_hex bs) (hex_char_visible (b / 16) (omega arith))
    ∙ ap (hex_pair (hex_char (b / 16)) (hex_char (b % 16))) (from_hex-to_hex bs h.1)
    ∙ hex_pair-hex_char b bs h.0
