-- ===== src/Base58/Length.antt =====
-- The length of the base58 text of a key, as client/aimless/protocol.py uses it.
use mathlib.Core.List.{reverse, reverse-append}
use native.Mathlib.Nat.{pow-suc}
use aimless.Prelude.{
  ℕ, zero, suc, ◌+◌, ◌*◌, ◌/◌, ◌^◌, ◌≤◌, ◌<◌, ◌≡◌, refl, ap, ◌∙◌, List, [], ◌∷◌, map, ◌==◌, leb,
  replicate, length, length-append, length-replicate, arith, Bool-cases, inl, inr, leb→le, true,
}
use aimless.Prelude.Digits.{digits, digits_from}
use aimless.Base58.{alphabet, char_at, from_bytes, leading, b58encode}
use aimless.Base58.Bits.{passes, test_of_passes}
use aimless.Base58.RoundTrip.{IsBytes, stripped, stripped_lem, from_bytes-stripped}
use mathlib.Core.Path.{subst}

length-map : (f : ℕ → ℕ) (xs : List ℕ) → length (map f xs) ≡ length xs
length-map f [] = refl
length-map f (x ∷ xs) = ap suc (length-map f xs)

length-reverse : (xs : List ℕ) → length (reverse xs) ≡ length xs
length-reverse [] = refl
length-reverse (x ∷ xs) =
    rw (reverse-append (x ∷ []) xs)
      (omega (arith, length-append (reverse xs) (x ∷ []), length-reverse xs))

-- A number below 58 ^ k has at most k digits.
length-digits_from : (f k n : ℕ) → n < 58 ^ k → length (digits_from f 58 n) ≤ k
unfolding digits_from
length-digits_from zero k n h = omega arith
length-digits_from (suc f) zero n h = let e : n ≡ 0 = omega arith in rw e (omega arith)
length-digits_from (suc f) (suc k) n h = elim (Bool-cases (n == 0)) [
  | inl z ↦ rw z (omega arith)
  | inr p ↦
      let e : 58 ^ suc k ≡ 58 * 58 ^ k = grind (arith, pow-suc) in
      let small : n / 58 < 58 ^ k = omega arith in
      rw p (omega (arith, length-digits_from f k (n / 58) small))
]

-- The number of a byte string, by its length.
from_bytes-lt :
    (k acc : ℕ) (bs : List ℕ)
    → IsBytes bs
    → acc < 256 ^ k
    → from_bytes acc bs < 256 ^ (k + length bs)
unfolding from_bytes
from_bytes-lt k acc [] h p = grind arith
from_bytes-lt k acc (b ∷ bs) h p =
    let e : 256 ^ suc k ≡ 256 * 256 ^ k = grind (arith, pow-suc) in
    let next = from_bytes-lt (suc k) (acc * 256 + b) bs h.1 (omega arith) in
    let same : suc k + length bs ≡ k + suc (length bs) = omega arith in
    subst (λ j. from_bytes (acc * 256 + b) bs < 256 ^ j) same next

from_bytes-lt_length : (bs : List ℕ) → IsBytes bs → from_bytes 0 bs < 256 ^ length bs
from_bytes-lt_length bs h =
    let same : 0 + length bs ≡ length bs = omega arith in
    subst (λ j. from_bytes 0 bs < 256 ^ j) same (from_bytes-lt 0 0 bs h (omega arith))

IsBytes-stripped : (bs : List ℕ) → IsBytes bs → IsBytes (stripped bs)
unfolding stripped
IsBytes-stripped [] h = tt
IsBytes-stripped (b ∷ bs) h = ground (arith, IsBytes-stripped bs h.1)

length-stripped : (bs : List ℕ) → leading 0 bs + length (stripped bs) ≡ length bs
length-stripped bs =
    let e = ap length (stripped_lem bs) in
    omega (
      arith,
      e,
      length-append (replicate (leading 0 bs) 0) (stripped bs),
      length-replicate (leading 0 bs) (zero),
    )

small_powers : passes (λ m. leb (256 ^ m) (58 ^ 17)) 13 ≡ true
unfolding passes
small_powers = refl

-- The base58 text of 32 bytes has at most 63 characters, so that it is never as long as the
-- hexadecimal text of 32 bytes.
pub length-b58encode_32 :
    (bytes : List ℕ) → IsBytes bytes → length bytes ≡ 32 → length (b58encode bytes) ≤ 63
unfolding b58encode digits
length-b58encode_32 bytes h len =
    let n = from_bytes 0 bytes in
    let z = leading 0 bytes in
    let ds = digits_from (suc n) 58 n in
    let parts = length-append (replicate z b'1') (reverse (map (λ r. char_at r alphabet) ds)) in
    let total : length (b58encode bytes) ≡ z + length ds =
      parts
      ∙ ap (λ a. a + length (reverse (map (λ r. char_at r alphabet) ds))) (length-replicate z b'1')
      ∙ ap (λ a. z + a)
          (length-reverse (map (λ r. char_at r alphabet) ds)
            ∙ length-map (λ r. char_at r alphabet) ds) in
    let whole = length-stripped bytes in
    elim (Bool-cases (leb z 19)) [
      | inl few ↦
          let bound : n < 256 ^ 32 = subst (λ j. n < 256 ^ j) len (from_bytes-lt_length bytes h) in
          let size : length ds ≤ 44 = length-digits_from (suc n) 44 n (omega arith) in ground arith
      | inr many ↦
          let m = length (stripped bytes) in
          let bound : from_bytes 0 (stripped bytes) < 256 ^ m =
            from_bytes-lt_length (stripped bytes) (IsBytes-stripped bytes h) in
          let short : m < 13 = ground arith in
          let power = leb→le _ _ (test_of_passes _ 13 small_powers m short) in
          let small : n < 58 ^ 17 = omega (arith, from_bytes-stripped bytes) in
          let size : length ds ≤ 17 = length-digits_from (suc n) 17 n small in ground arith
    ]
