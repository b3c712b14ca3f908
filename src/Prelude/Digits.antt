-- ===== src/Prelude/Digits.antt =====
-- Numbers as lists of digits, as the loops `while n: n, r = divmod(n, b)` of the program build them.
use aimless.Prelude.{
  ℕ, zero, suc, ◌+◌, ◌*◌, ◌/◌, ◌%◌, ◌≤◌, ◌<◌, ◌≡◌, List, [], ◌∷◌, ◌==◌, if◌then◌else◌, arith,
  Bool-cases, inl, inr, ap, refl,
}

-- The digits of `n` to the base `b`, the least significant first: none for 0. The fuel `suc n` is
-- enough, since `n / b` is less than `n`.
unfoldable pub digits_from : ℕ → ℕ → ℕ → List ℕ
digits_from zero b n = []
digits_from (suc f) b n = let rest = digits_from f b (n / b) in if n == 0 then [] else n % b ∷ rest

unfoldable pub digits : ℕ → ℕ → List ℕ
unfolding digits_from
digits b n = digits_from (suc n) b n

-- The number that the digits stand for.
unfoldable pub value : ℕ → List ℕ → ℕ
value b [] = 0
value b (d ∷ ds) = d + b * value b ds

-- Digits of the base, the last of them not 0.
abbrev pub IsCanonical : ℕ → List ℕ → Type 0
IsCanonical b [] = Unit
IsCanonical b (d ∷ []) = (d < b) × (0 < d)
IsCanonical b (d ∷ e ∷ ds) = (d < b) × IsCanonical b (e ∷ ds)

div-add-mul : (b d v : ℕ) → d < b → (d + b * v) / b ≡ v
div-add-mul b d v h = grind arith

mod-add-mul : (b d v : ℕ) → d < b → (d + b * v) % b ≡ d
mod-add-mul b d v h = grind arith

div-lt : (b n : ℕ) → 2 ≤ b → 0 < n → n / b < n
div-lt b n h k = grind arith

div-zero_lt : (b n : ℕ) → 2 ≤ b → 0 < n / b → 0 < n
div-zero_lt b n h k = grind arith

-- With more fuel than `n` the digits stand for `n`.
value-digits_from : (f b n : ℕ) → 2 ≤ b → n < f → value b (digits_from f b n) ≡ n
unfolding digits_from value
value-digits_from zero b n two h = elim h [ ]
value-digits_from (suc f) b n two h = elim (Bool-cases (n == 0)) [
  | inl z ↦ rw z (ground arith)
  | inr p ↦ rw p (
      let pos : 0 < n = ground arith in
      omega (
        arith,
        ap (λ (t : ℕ). b * t)
            (value-digits_from f b (n / b) two (omega (arith, div-lt b n two pos))),
      ))
]

pub value-digits : (b n : ℕ) → 2 ≤ b → value b (digits b n) ≡ n
unfolding digits
value-digits b n two = value-digits_from (suc n) b n two (omega arith)

value_pos : (b d : ℕ) (ds : List ℕ) → 2 ≤ b → IsCanonical b (d ∷ ds) → 0 < value b (d ∷ ds)
unfolding value
value_pos b d [] two c = omega arith
value_pos b d (e ∷ ds) two c =
    let v : 0 < value b (e ∷ ds) = value_pos b e ds two c.1 in grind arith

IsCanonical-tail : (b d : ℕ) (ds : List ℕ) → IsCanonical b (d ∷ ds) → (d < b) × IsCanonical b ds
IsCanonical-tail b d [] c = (c.0, tt)
IsCanonical-tail b d (e ∷ ds) c = c

digits_from-value :
    (f b : ℕ) (ds : List ℕ)
    → 2 ≤ b
    → IsCanonical b ds
    → value b ds < f
    → digits_from f b (value b ds) ≡ ds
unfolding digits_from value
digits_from-value zero b ds two c h = elim h [ ]
digits_from-value (suc f) b [] two c h = refl
digits_from-value (suc f) b (d ∷ ds) two c h =
    let (small, tail) = IsCanonical-tail b d ds c in
    let v = value b ds in
    let pos : 0 < d + b * v = value_pos b d ds two c in
    let less : v < d + b * v =
      omega (arith, div-lt b (d + b * v) two pos, div-add-mul b d v small) in
    ground (
      arith,
      pos,
      div-add-mul b d v small,
      mod-add-mul b d v small,
      digits_from-value f b ds two tail (omega (arith, less)),
    )

-- A canonical list of digits is what its value is printed as.
pub digits-value : (b : ℕ) (ds : List ℕ) → 2 ≤ b → IsCanonical b ds → digits b (value b ds) ≡ ds
unfolding digits
digits-value b ds two c = digits_from-value (suc (value b ds)) b ds two c (omega arith)

cons-IsCanonical :
    (b n : ℕ) (ds : List ℕ)
    → 2 ≤ b
    → 0 < n
    → IsCanonical b ds
    → value b ds ≡ n / b
    → IsCanonical b (n % b ∷ ds)
unfolding value
cons-IsCanonical b n [] two pos c e = (omega arith, grind arith)
cons-IsCanonical b n (d ∷ ds) two pos c e = (omega arith, c)

digits_from-IsCanonical : (f b n : ℕ) → 2 ≤ b → n < f → IsCanonical b (digits_from f b n)
unfolding digits_from
digits_from-IsCanonical zero b n two h = elim h [ ]
digits_from-IsCanonical (suc f) b n two h = elim (Bool-cases (n == 0)) [
  | inl z ↦ rw z tt
  | inr p ↦ rw p (
      let pos : 0 < n = ground arith in
      let less : n / b < f = omega (arith, div-lt b n two pos) in
      let ih = digits_from-IsCanonical f b (n / b) two less in
      cons-IsCanonical b n (digits_from f b (n / b)) two pos ih
        (value-digits_from f b (n / b) two less))
]

pub digits-IsCanonical : (b n : ℕ) → 2 ≤ b → IsCanonical b (digits b n)
unfolding digits
digits-IsCanonical b n two = digits_from-IsCanonical (suc n) b n two (omega arith)
