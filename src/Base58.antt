-- ===== src/Base58.antt =====
-- client/aimless/base58.py. Bytes are numbers below 256, and a text is a list of code points.
pub mod Bits
pub mod RoundTrip
pub mod Length
use mathlib.Core.List.{reverse}
use aimless.Prelude.{
  ℕ, zero, suc, ◌+◌, ◌-◌, ◌*◌, ◌/◌, ◌%◌, Option, none, some, List, [], ◌∷◌, ◌++◌, map, Text, codes,
  ◌==◌, replicate, if◌then◌else◌,
}
use aimless.Prelude.Digits.{digits}

-- `_ALPHABET`
abbrev pub alphabet : Text
alphabet = codes "123456789ABCDEFGHJKLMNPQRSTUVWXYZabcdefghijkmnopqrstuvwxyz"

-- `_ALPHABET[r]`
unfoldable pub char_at : ℕ → Text → ℕ
char_at i [] = 0
char_at zero (c ∷ cs) = c
char_at (suc i) (c ∷ cs) = char_at i cs

-- `_INDEX[c]`: the position of `c` in the alphabet
unfoldable pub index_from : ℕ → ℕ → Text → Option ℕ
index_from i ch [] = none
index_from i ch (c ∷ cs) = if c == ch then some i else index_from (suc i) ch cs

unfoldable pub index_of : ℕ → Option ℕ
unfolding index_from
index_of ch = index_from 0 ch alphabet

-- `int.from_bytes(data, "big")`
unfoldable pub from_bytes : ℕ → List ℕ → ℕ
from_bytes acc [] = acc
from_bytes acc (b ∷ bs) = from_bytes (acc * 256 + b) bs

-- The loop that counts the leading elements equal to `z`.
unfoldable pub leading : ℕ → List ℕ → ℕ
leading z [] = 0
leading z (b ∷ bs) = if b == z then suc (leading z bs) else 0

-- `b58encode`
unfoldable pub b58encode : List ℕ → Text
b58encode bytes =
    replicate (leading 0 bytes) b'1'
    ++ reverse (map (λ r. char_at r alphabet) (digits 58 (from_bytes 0 bytes)))

-- `n.bit_length()`, on fuel: `n` halvings are enough
unfoldable pub bits_from : ℕ → ℕ → ℕ
bits_from zero n = 0
bits_from (suc f) n = let rest = bits_from f (n / 2) in if n == 0 then 0 else suc rest

unfoldable pub bit_length : ℕ → ℕ
unfolding bits_from
bit_length n = bits_from n n

-- `n.to_bytes(k, "big")`, the least significant byte first
unfoldable pub low_bytes : ℕ → ℕ → List ℕ
low_bytes zero n = []
low_bytes (suc k) n = n % 256 ∷ low_bytes k (n / 256)

unfoldable pub to_bytes : ℕ → ℕ → List ℕ
unfolding low_bytes
to_bytes k n = reverse (low_bytes k n)

-- The loop of `b58decode`; `none` is the `ValueError` for a character outside the alphabet.
unfoldable pub decode_digits : ℕ → Text → Option ℕ
decode_digits n [] = some n
decode_digits n (ch ∷ text) = elim (index_of ch) [
  | none ↦ none
  | some d ↦ decode_digits (n * 58 + d) text
]

-- `b58decode`
unfoldable pub b58decode : Text → Option (List ℕ)
unfolding to_bytes
b58decode text = elim (decode_digits 0 text) [
  | none ↦ none
  | some n ↦
      let body : List ℕ = if n == 0 then [] else to_bytes ((bit_length n + 7) / 8) n in
      some (replicate (leading b'1' text) 0 ++ body)
]
