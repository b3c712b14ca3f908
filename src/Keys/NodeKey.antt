-- ===== src/Keys/NodeKey.antt =====
-- `parse_node_key` of client/aimless/keys.py, on what `write_node_key` writes.
use aimless.Prelude.{
  ℕ, ◌*◌, ◌/◌, ◌%◌, ◌<◌, ◌≡◌, ◌≢◌, refl, true, false, not, ◌&&◌, [], ◌∷◌, ◌++◌, Text, ◌==◌, all,
  length, arith, All,
}
use aimless.Base58.Bits.{passes, test_of_passes}
use aimless.Store.Rows.{Bytes}
use aimless.Protocol.Hex.{to_hex, hex_char, from_hex-to_hex}
use aimless.Protocol.Invite.{is_space}
use aimless.Keys.{remove_space, is_lower_hex, strip_0x, parse_node_key, seed}

-- The text that `write_node_key` writes.
abbrev pub node_key_text : Bytes → Text
node_key_text key = to_hex key ++ 10 ∷ []

char_table :
    passes
      (λ d. is_lower_hex (hex_char d) && (not (is_space (hex_char d)) && not (hex_char d == b'x')))
      16
    ≡ true
unfolding passes hex_char is_space
char_table = refl

abbrev IsPlain : ℕ → Type 0
IsPlain c = (is_lower_hex c ≡ true) × (is_space c ≡ false) × (c ≢ b'x')

hex_char-IsPlain : (d : ℕ) → d < 16 → IsPlain (hex_char d)
hex_char-IsPlain d h = let e = test_of_passes _ 16 char_table d h in ground arith

to_hex-IsPlain : (key : Bytes) → All (λ b. b < 256) key → All IsPlain (to_hex key)
unfolding to_hex
to_hex-IsPlain [] v = tt
to_hex-IsPlain (b ∷ key) v = (
  hex_char-IsPlain (b / 16) (omega arith),
  (hex_char-IsPlain (b % 16) (omega arith), to_hex-IsPlain key v.1),
)

length-to_hex : (key : Bytes) → length (to_hex key) ≡ 2 * length key
unfolding to_hex
length-to_hex [] = refl
length-to_hex (b ∷ key) = omega (arith, length-to_hex key)

remove_space-append : (text : Text) → All IsPlain text → remove_space (text ++ 10 ∷ []) ≡ text
unfolding remove_space
remove_space-append [] v = unfold is_space in refl
remove_space-append (c ∷ text) v = ground (arith, remove_space-append text v.1)

all-IsPlain : (text : Text) → All IsPlain text → all is_lower_hex text ≡ true
unfolding all
all-IsPlain [] v = refl
all-IsPlain (c ∷ text) v = ground (arith, all-IsPlain text v.1)

strip_0x-IsPlain : (text : Text) → All IsPlain text → strip_0x text ≡ text
strip_0x-IsPlain [] v = refl
strip_0x-IsPlain (a ∷ []) v = refl
strip_0x-IsPlain (a ∷ b ∷ text) v = ground arith

-- The seed that `write_node_key` writes into a file is what `parse_node_key` reads from it; `lower`
-- leaves lower-case hexadecimal digits as they are.
pub parse_node_key-node_key_text :
    (lower : Text → Text)
    → ((t : Text) → all is_lower_hex t ≡ true → lower t ≡ t)
    → (key : Bytes) → All (λ b. b < 256) key
    → length key ≡ 32
    → parse_node_key lower (node_key_text key) ≡ seed key
unfolding parse_node_key
parse_node_key-node_key_text lower same key v len =
    let plain = to_hex-IsPlain key v in
    rw (remove_space-append (to_hex key) plain) (
      rw (same (to_hex key) (all-IsPlain (to_hex key) plain)) (
        rw (strip_0x-IsPlain (to_hex key) plain) (
          rw (all-IsPlain (to_hex key) plain)
            (rw (length-to_hex key) (rw (from_hex-to_hex key v) (ground (arith, len)))))))
