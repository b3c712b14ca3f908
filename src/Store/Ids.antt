-- ===== src/Store/Ids.antt =====
-- The ids of the received messages, `in:<sender>:<seq>` of client/aimless/store.py.
use aimless.Prelude.{ℕ, ◌≡◌, ◌≢◌, sym, ap, ◌∙◌, [], ◌∷◌, ◌++◌, append_assoc, Text, All, drop, arith}
use mathlib.Core.List.{reverse, reverse-reverse, reverse-append}
use aimless.Prelude.Decimal.{decimal, decimal-injective, decimal-IsDigit, IsDigit, All-reverse}
use aimless.Store.Messages.{in_id}

-- A split at the first occurrence of a separator is unique.
split_unique :
    (c : ℕ) (d e r t : Text)
    → All (λ x. x ≢ c) d
    → All (λ x. x ≢ c) e
    → d ++ c ∷ r ≡ e ++ c ∷ t
    → (d ≡ e) × (r ≡ t)
split_unique c [] [] r t p q h = ground arith
split_unique c [] (y ∷ e) r t p q h = absurd (ground arith)
split_unique c (x ∷ d) [] r t p q h = absurd (ground arith)
split_unique c (x ∷ d) (y ∷ e) r t p q h = ground (arith, split_unique c d e r t)

no_colon : (s : Text) → All IsDigit s → All (λ x. x ≢ b':') s
no_colon [] h = tt
no_colon (x ∷ s) h = (omega arith, no_colon s h.1)

reverse-id :
    (s : Text) (n : ℕ) → reverse (s ++ b':' ∷ decimal n) ≡ reverse (decimal n) ++ b':' ∷ reverse s
reverse-id s n =
    rw (reverse-append s (b':' ∷ decimal n), reverse-append (b':' ∷ []) (decimal n))
      (append_assoc (reverse (decimal n)) (b':' ∷ []) (reverse s))

-- Two messages have one id only if they have one sender and one sequence number.
pub in_id-injective : (s t : Text) (n m : ℕ) → in_id s n ≡ in_id t m → (s ≡ t) × (n ≡ m)
unfolding in_id
in_id-injective s t n m h =
    let reversed : reverse (decimal n) ++ b':' ∷ reverse s
        ≡ reverse (decimal m) ++ b':' ∷ reverse t =
      sym (reverse-id s n) ∙ ap (λ u. reverse (drop 3 u)) h ∙ reverse-id t m in
    let parts =
      split_unique b':' (reverse (decimal n)) (reverse (decimal m)) (reverse s) (reverse t)
        (no_colon _ (All-reverse IsDigit (decimal n) (decimal-IsDigit n)))
        (no_colon _ (All-reverse IsDigit (decimal m) (decimal-IsDigit m))) reversed in
    (
      sym (reverse-reverse s) ∙ ap reverse parts.1 ∙ reverse-reverse t,
      decimal-injective n m
          (sym (reverse-reverse (decimal n)) ∙ ap reverse parts.0 ∙ reverse-reverse (decimal m)),
    )
