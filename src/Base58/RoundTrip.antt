-- ===== src/Base58/RoundTrip.antt =====
-- `b58encode` and `b58decode` of client/aimless/base58.py, one after the other.
use mathlib.Core.List.{reverse, reverse-reverse, reverse-append}
use aimless.Prelude.{
  ℕ, zero, suc, ◌+◌, ◌*◌, ◌/◌, ◌<◌, ◌≡◌, ◌≢◌, refl, sym, ap, ◌∙◌, true, false, ◌&&◌, none, some,
  List, [], ◌∷◌, ◌++◌, map, Text, ◌==◌, All, replicate, if◌then◌else◌, arith, Bool-cases,
  Option-cases, inl, inr,
}
use aimless.Prelude.Digits.{
  digits, value, value-digits, digits-value, IsCanonical, digits-IsCanonical,
}
use aimless.Prelude.Decimal.{All-reverse}
use aimless.Base58.{
  alphabet, char_at, index_of, from_bytes, leading, b58encode, bit_length, to_bytes, decode_digits,
  b58decode,
}
use aimless.Base58.Bits.{passes, test_of_passes, low_bytes-digits}

abbrev pub IsBytes : List ℕ → Type 0
IsBytes = All (λ b. b < 256)

-- The bytes after the leading zeros.
unfoldable pub stripped : List ℕ → List ℕ
stripped [] = []
stripped (b ∷ bs) = if b == 0 then stripped bs else b ∷ bs

pub stripped_lem : (bs : List ℕ) → bs ≡ replicate (leading 0 bs) 0 ++ stripped bs
unfolding leading stripped
stripped_lem [] = refl
stripped_lem (b ∷ bs) = ground (arith, stripped_lem bs)

pub from_bytes-stripped : (bs : List ℕ) → from_bytes 0 bs ≡ from_bytes 0 (stripped bs)
unfolding from_bytes stripped
from_bytes-stripped [] = refl
from_bytes-stripped (b ∷ bs) = elim (Bool-cases (b == 0)) [
  | inl z ↦ rw z (let e : 0 * 256 + b ≡ 0 = ground arith in rw e (from_bytes-stripped bs))
  | inr p ↦ rw p
]

from_bytes-snoc :
    (acc : ℕ) (bs : List ℕ) (b : ℕ) → from_bytes acc (bs ++ b ∷ []) ≡ from_bytes acc bs * 256 + b
unfolding from_bytes
from_bytes-snoc acc [] b = refl
from_bytes-snoc acc (x ∷ bs) b = from_bytes-snoc (acc * 256 + x) bs b

from_bytes-reverse : (ds : List ℕ) → from_bytes 0 (reverse ds) ≡ value 256 ds
unfolding value from_bytes
from_bytes-reverse [] = refl
from_bytes-reverse (d ∷ ds) =
    rw (reverse-append (d ∷ []) ds)
      (omega (arith, from_bytes-snoc 0 (reverse ds) d, from_bytes-reverse ds))

-- A list of digits that ends in a digit other than 0.
snoc-IsCanonical :
    (b : ℕ) (ds : List ℕ) (d : ℕ)
    → All (λ x. x < b) ds
    → 0 < d
    → d < b
    → IsCanonical b (ds ++ d ∷ [])
snoc-IsCanonical b [] d h p q = (q, p)
snoc-IsCanonical b (x ∷ []) d h p q = (h.0, (q, p))
snoc-IsCanonical b (x ∷ y ∷ ds) d h p q = (h.0, snoc-IsCanonical b (y ∷ ds) d h.1 p q)

reverse-stripped-IsCanonical : (bs : List ℕ) → IsBytes bs → IsCanonical 256 (reverse (stripped bs))
unfolding stripped
reverse-stripped-IsCanonical [] h = tt
reverse-stripped-IsCanonical (b ∷ bs) h = elim (Bool-cases (b == 0)) [
  | inl z ↦ rw z (reverse-stripped-IsCanonical bs h.1)
  | inr p ↦ rw p (
      rw (reverse-append (b ∷ []) bs)
        (snoc-IsCanonical 256 (reverse bs) b (All-reverse _ bs h.1) (ground arith) h.0))
]

-- The bytes after the leading zeros are the digits of the number, the most significant first.
digits-from_bytes :
    (bs : List ℕ) → IsBytes bs → reverse (digits 256 (from_bytes 0 bs)) ≡ stripped bs
digits-from_bytes bs h =
    let number : from_bytes 0 bs ≡ value 256 (reverse (stripped bs)) =
      from_bytes-stripped bs
      ∙ ap (from_bytes 0) (sym (reverse-reverse (stripped bs)))
      ∙ from_bytes-reverse (reverse (stripped bs)) in
    ap (λ n. reverse (digits 256 n)) number
    ∙ ap reverse
        (digits-value 256 (reverse (stripped bs)) (omega arith) (reverse-stripped-IsCanonical bs h))
    ∙ reverse-reverse (stripped bs)

abbrev char : ℕ → ℕ
char d = char_at d alphabet

index_table :
    passes
      (λ d.
        (elim (index_of (char d)) [ none ↦ false | some i ↦ i == d ])
        && (if d == 0 then true else if char d == b'1' then false else true))
      58
    ≡ true
unfolding passes index_of char_at
index_table = refl

index_of-char : (d : ℕ) → d < 58 → index_of (char d) ≡ some d
index_of-char d h = let e = test_of_passes _ 58 index_table d h in ground arith

char-ne-one : (d : ℕ) → 0 < d → d < 58 → char d ≢ b'1'
char-ne-one d p h = let e = test_of_passes _ 58 index_table d h in ground arith

decode-append :
    (n : ℕ) (s t : Text) {m : ℕ}
    → decode_digits n s ≡ some m
    → decode_digits n (s ++ t) ≡ decode_digits m t
unfolding decode_digits
decode-append n [] t e = ground arith
decode-append n (c ∷ s) t e = elim (Option-cases (index_of c)) [
  | inl f ↦ absurd (ground arith)
  | inr (d, f) ↦ rw (decode_digits, f) (decode-append (n * 58 + d) s t (rw (f, decode_digits) at e))
]

decode_ones : (z : ℕ) → decode_digits 0 (replicate z b'1') ≡ some 0
unfolding decode_digits index_of
decode_ones zero = refl
decode_ones (suc z) = decode_ones z

decode_reverse :
    (ds : List ℕ)
    → All (λ d. d < 58) ds
    → decode_digits 0 (reverse (map char ds)) ≡ some (value 58 ds)
unfolding decode_digits value
decode_reverse [] h = refl
decode_reverse (d ∷ ds) h = rw (reverse-append (char d ∷ []) (map char ds)) (
    rw (decode-append 0 (reverse (map char ds)) (char d ∷ []) (decode_reverse ds h.1))
      (rw (decode_digits, index_of-char d h.0) (ground arith)))

canonical-All : (b : ℕ) (ds : List ℕ) → IsCanonical b ds → All (λ d. d < b) ds
canonical-All b [] c = tt
canonical-All b (d ∷ []) c = (c.0, tt)
canonical-All b (d ∷ e ∷ ds) c = (c.0, canonical-All b (e ∷ ds) c.1)

-- The text of the digits does not begin with a 1.
NoOne : Text → Type 0
NoOne [] = Unit
NoOne (c ∷ cs) = c ≢ b'1'

NoOne-append : (s t : Text) → s ≢ [] → NoOne s → NoOne (s ++ t)
unfolding NoOne
NoOne-append [] t h n = absurd (h refl)
NoOne-append (c ∷ s) t h n = n

append-ne-nil : (s t : Text) → s ≢ [] → s ++ t ≢ []
append-ne-nil [] t h = absurd (h refl)
append-ne-nil (c ∷ s) t h = ground arith

digits-NoOne :
    (ds : List ℕ)
    → IsCanonical 58 ds
    → NoOne (reverse (map char ds)) × (ds ≢ [] → reverse (map char ds) ≢ [])
unfolding NoOne
digits-NoOne [] c = (tt, λ h. absurd (h refl))
digits-NoOne (d ∷ []) c = (char-ne-one d c.1 c.0, λ _. ground arith)
digits-NoOne (d ∷ e ∷ ds) c =
    let (n, filled) = digits-NoOne (e ∷ ds) c.1 in
    let full = filled (ground arith) in
    rw (reverse-append (char d ∷ []) (map char (e ∷ ds))) (
      NoOne-append (reverse (map char (e ∷ ds))) (char d ∷ []) full n,
      λ _. append-ne-nil (reverse (map char (e ∷ ds))) (char d ∷ []) full,
    )

leading-append : (z : ℕ) (t : Text) → NoOne t → leading b'1' (replicate z b'1' ++ t) ≡ z
unfolding leading NoOne
leading-append zero [] n = refl
leading-append zero (c ∷ t) n = ground arith
leading-append (suc z) t n = ap suc (leading-append z t n)

body :
    (n : ℕ) → (if n == 0 then [] else to_bytes ((bit_length n + 7) / 8) n) ≡ reverse (digits 256 n)
unfolding to_bytes
body n = elim (Bool-cases (n == 0)) [
  | inl z ↦ let e : n ≡ 0 = ground arith in rw (z, e) (unfold digits in refl)
  | inr p ↦ rw (p, low_bytes-digits)
]

-- Every byte string comes back from its encoding, with its leading zeros.
pub b58decode-b58encode :
    (bytes : List ℕ) → IsBytes bytes → b58decode (b58encode bytes) ≡ some bytes
unfolding b58encode b58decode
b58decode-b58encode bytes h =
    let n = from_bytes 0 bytes in
    let ds = digits 58 n in
    let c = digits-IsCanonical 58 n (omega arith) in
    let z = leading 0 bytes in
    let number : decode_digits 0 (replicate z b'1' ++ reverse (map char ds)) ≡ some n =
      decode-append 0 (replicate z b'1') (reverse (map char ds)) (decode_ones z)
      ∙ decode_reverse ds (canonical-All 58 ds c)
      ∙ ap some (value-digits 58 n (omega arith)) in
    rw (b58decode, number)
      (rw
        (
          leading-append z (reverse (map char ds)) (digits-NoOne ds c).0,
          body n,
          digits-from_bytes bytes h,
        )
        (ap some (sym (stripped_lem bytes))))
