-- ===== src/Prelude/Decimal.antt =====
-- `str(n)` of a number.
use mathlib.Core.List.{reverse, reverse-reverse, reverse-append}
use aimless.Prelude.Lists.{All-append}
use aimless.Prelude.{
  ℕ, ◌+◌, ◌-◌, ◌≤◌, ◌<◌, ◌≡◌, refl, sym, ap, ◌∙◌, List, [], ◌∷◌, map, Text, ◌==◌, if◌then◌else◌,
  arith, Bool-cases, inl, inr, All,
}
use aimless.Prelude.Digits.{digits, value, value-digits, IsCanonical, digits-IsCanonical}

abbrev pub to_char : ℕ → ℕ
to_char d = 48 + d

unfoldable pub decimal : ℕ → Text
decimal n = if n == 0 then 48 ∷ [] else reverse (map to_char (digits 10 n))

-- What a printed number reads as.
of_chars : Text → ℕ
of_chars s = value 10 (map (λ c. c - 48) (reverse s))

map-to_char : (ds : List ℕ) → map (λ c. c - 48) (map to_char ds) ≡ ds
map-to_char [] = refl
map-to_char (d ∷ ds) = ground (arith, map-to_char ds)

of_chars-decimal : (n : ℕ) → of_chars (decimal n) ≡ n
unfolding of_chars decimal value
of_chars-decimal n = elim (Bool-cases (n == 0)) [
  | inl z ↦ rw z (ground arith)
  | inr p ↦ rw (p, reverse-reverse, map-to_char) (value-digits 10 n (omega arith))
]

-- No two numbers are printed alike.
pub decimal-injective : (n m : ℕ) → decimal n ≡ decimal m → n ≡ m
decimal-injective n m h = sym (of_chars-decimal n) ∙ ap of_chars h ∙ of_chars-decimal m

abbrev pub IsDigit : ℕ → Type 0
IsDigit c = (48 ≤ c) × (c < 58)

pub All-reverse : (P : ℕ → Type 0) (xs : List ℕ) → All P xs → All P (reverse xs)
All-reverse P [] h = tt
All-reverse P (x ∷ xs) h =
    rw (reverse-append (x ∷ []) xs)
      (All-append P (reverse xs) (x ∷ []) (All-reverse P xs h.1) (h.0, tt))

digits-IsDigit : (ds : List ℕ) → IsCanonical 10 ds → All IsDigit (map to_char ds)
digits-IsDigit [] c = tt
digits-IsDigit (d ∷ []) c = omega arith
digits-IsDigit (d ∷ e ∷ ds) c = (omega arith, digits-IsDigit (e ∷ ds) c.1)

pub decimal-IsDigit : (n : ℕ) → All IsDigit (decimal n)
unfolding decimal
decimal-IsDigit n = elim (Bool-cases (n == 0)) [
  | inl z ↦ rw z (omega arith)
  | inr p ↦ rw p (
      All-reverse IsDigit (map to_char (digits 10 n))
        (digits-IsDigit (digits 10 n) (digits-IsCanonical 10 n (omega arith))))
]
