-- ===== src/Base58/Bits.antt =====
-- `(n.bit_length() + 7) // 8` of client/aimless/base58.py, and the digits of `n` to the base 256.
use aimless.Prelude.{
  ℕ, zero, suc, ◌+◌, ◌/◌, ◌%◌, ◌≤◌, ◌<◌, ◌≡◌, refl, ap, Bool, true, ◌&&◌, ◌∷◌, ◌==◌, leb, length,
  if◌then◌else◌, arith, Bool-cases, inl, inr,
}
use aimless.Prelude.Digits.{digits, digits_from}
use aimless.Base58.{bits_from, bit_length, low_bytes}

bits_fuel : (f g n : ℕ) → n ≤ f → n ≤ g → bits_from f n ≡ bits_from g n
unfolding bits_from
bits_fuel zero zero n h k = refl
bits_fuel zero (suc g) n h k = ground arith
bits_fuel (suc f) zero n h k = ground arith
bits_fuel (suc f) (suc g) n h k = elim (Bool-cases (n == 0)) [
  | inl z ↦ rw z
  | inr p ↦ rw p (ap suc (bits_fuel f g (n / 2) (ground arith) (ground arith)))
]

bit_length_half : (n : ℕ) → 0 < n → bit_length n ≡ suc (bit_length (n / 2))
unfolding bit_length bits_from
bit_length_half zero h = absurd (omega arith)
bit_length_half (suc n) h =
    ground (arith, bits_fuel n (suc n / 2) (suc n / 2) (omega arith) (omega arith))

bit_length_zero : bit_length 0 ≡ 0
unfolding bit_length bits_from
bit_length_zero = refl

bit_length_step : (n : ℕ) → 128 ≤ n → bit_length n ≡ 8 + bit_length (n / 256)
bit_length_step n h =
    let e : n / 2 / 2 / 2 / 2 / 2 / 2 / 2 / 2 ≡ n / 256 = omega arith in
    omega (
      arith,
      ap bit_length e,
      bit_length_half n (omega arith),
      bit_length_half (n / 2) (omega arith),
      bit_length_half (n / 2 / 2) (omega arith),
      bit_length_half (n / 2 / 2 / 2) (omega arith),
      bit_length_half (n / 2 / 2 / 2 / 2) (omega arith),
      bit_length_half (n / 2 / 2 / 2 / 2 / 2) (omega arith),
      bit_length_half (n / 2 / 2 / 2 / 2 / 2 / 2) (omega arith),
      bit_length_half (n / 2 / 2 / 2 / 2 / 2 / 2 / 2) (omega arith),
    )

-- A test that passes for each number less than a bound, by evaluation.
unfoldable pub passes : (ℕ → Bool) → ℕ → Bool
passes test zero = true
passes test (suc bound) = passes test bound && test bound

pub test_of_passes :
    (test : ℕ → Bool) (bound : ℕ) → passes test bound ≡ true → (i : ℕ) → i < bound → test i ≡ true
unfolding passes
test_of_passes test zero all i less = elim less [ ]
test_of_passes test (suc bound) all i less = elim (Bool-cases (i == bound)) [
  | inl last ↦ ground arith
  | inr other ↦ test_of_passes test bound (ground arith) i (ground arith)
]

small_table :
    passes (λ n. (if n == 0 then true else leb 1 (bit_length n)) && leb (bit_length n) 8) 256 ≡ true
unfolding passes bit_length bits_from
small_table = refl

bit_length_small : (n : ℕ) → 0 < n → n < 256 → (1 ≤ bit_length n) × (bit_length n ≤ 8)
bit_length_small n h k = let e = test_of_passes _ 256 small_table n k in ground arith

byte_count_from : (f n : ℕ) → n < f → (bit_length n + 7) / 8 ≡ length (digits_from f 256 n)
unfolding digits_from
byte_count_from zero n h = elim h [ ]
byte_count_from (suc f) n h = elim (Bool-cases (n == 0)) [
  | inl z ↦ rw z (ground (arith, bit_length_zero))
  | inr p ↦ rw p (
      let ih = byte_count_from f (n / 256) in
      elim (Bool-cases (leb 256 n)) [
        | inl big ↦ omega (arith, bit_length_step n (ground arith), ih (ground arith))
        | inr small ↦
            let e : n / 256 ≡ 0 = ground arith in
            let pos : 0 < n = ground arith in
            let less : n < 256 = ground arith in
            let b = bit_length_small n pos less in
            let none : length (digits_from f 256 (n / 256)) ≡ 0 = rw e (no_digits f) in omega arith
      ])
]
  where
    no_digits : (f : ℕ) → length (digits_from f 256 0) ≡ 0
    no_digits zero = refl
    no_digits (suc f) = refl

low_bytes_from : (f n : ℕ) → low_bytes (length (digits_from f 256 n)) n ≡ digits_from f 256 n
unfolding digits_from low_bytes
low_bytes_from zero n = refl
low_bytes_from (suc f) n = elim (Bool-cases (n == 0)) [
  | inl z ↦ rw z
  | inr p ↦ rw p (ap (◌∷◌ (n % 256)) (low_bytes_from f (n / 256)))
]

-- The bytes that `to_bytes` writes are the digits to the base 256.
pub low_bytes-digits : (n : ℕ) → low_bytes ((bit_length n + 7) / 8) n ≡ digits 256 n
unfolding digits
low_bytes-digits n = rw (byte_count_from (suc n) n (omega arith)) (low_bytes_from (suc n) n)
