-- ===== src/Protocol/Invite.antt =====
-- `make_invite`, `_decode_key_field` and `parse_invite` of client/aimless/protocol.py.
pub mod RoundTrip
use aimless.Prelude.{
  ℕ, zero, suc, ◌+◌, ◌≡◌, refl, ap, Bool, true, false, not, ◌&&◌, ◌||◌, Option, none, some, List,
  [], ◌∷◌, ◌++◌, Text, codes, ◌==◌, ltb, leb, all, drop, length, if◌then◌else◌,
}
use mathlib.Core.List.{reverse}
use aimless.Base58.{b58encode, b58decode}
use aimless.Protocol.Hex.{to_hex, from_hex, hex_value}

-- The `ValueError`s of `parse_invite`.
pub data InviteError : Type 0 where
  bad_prefix bad_fields bad_key bad_length no_screen : InviteError

pub data Result (A : Type 0) : Type 0 where
  ok : A → Result A
  err : InviteError → Result A

infixl 5 ◌>>=◌
abbrev pub ◌>>=◌ : {A B : Type 0} → Result A → (A → Result B) → Result B
ok a >>= f = f a
err e >>= f = err e

-- `INVITE_PREFIX`
abbrev pub invite_prefix : Text
invite_prefix = codes "aimless1:"

-- `make_invite`, of the identity's public key; `none` where `fromhex` raises
unfoldable pub make_invite : List ℕ → Text → Text → Option Text
make_invite client node_hex screen = elim (from_hex node_hex) [
  | none ↦ none
  | some node ↦
      some (invite_prefix ++ (b58encode client ++ b':' ∷ (b58encode node ++ b':' ∷ screen)))
]

abbrev pub is_hex : ℕ → Bool
is_hex c = elim (hex_value c) [ none ↦ false | some _ ↦ true ]

abbrev pub of_length_32 : List ℕ → InviteError → Result (List ℕ)
of_length_32 key e = if length key == 32 then ok key else err e

-- `_decode_key_field`
unfoldable pub decode_key_field : Text → Result (List ℕ)
decode_key_field field =
    if length field == 64 && all is_hex field
    then elim (from_hex field) [ none ↦ err bad_key | some key ↦ of_length_32 key bad_length ]
    else elim (b58decode field) [ none ↦ err bad_key | some key ↦ of_length_32 key bad_length ]

-- `str.isspace` of one character, which `strip` goes by
unfoldable pub is_space : ℕ → Bool
is_space c =
    (leb 9 c && leb c 13)
    || ((leb 28 c && leb c 32)
        || (c == 0x85
            || (c == 0xa0
                || (c == 0x1680
                    || ((leb 0x2000 c && leb c 0x200a)
                        || (c == 0x2028
                            || (c == 0x2029 || (c == 0x202f || (c == 0x205f || c == 0x3000)))))))))

unfoldable pub lstrip : Text → Text
lstrip [] = []
lstrip (c ∷ cs) = if is_space c then lstrip cs else c ∷ cs

-- `text.strip()`
unfoldable pub strip : Text → Text
strip text = reverse (lstrip (reverse (lstrip text)))

-- `text.startswith(prefix)`, with the rest
unfoldable pub after_prefix : Text → Text → Option Text
after_prefix [] text = some text
after_prefix (p ∷ ps) [] = none
after_prefix (p ∷ ps) (c ∷ cs) = if p == c then after_prefix ps cs else none

-- `text.split(":")`, the field that is being read in front
unfoldable pub split_colon : Text → Text × List Text
split_colon [] = ([], [])
split_colon (c ∷ cs) =
    let (field, fields) = split_colon cs in
    if c == b':' then ([], field ∷ fields) else (c ∷ field, fields)

abbrev pub three_fields : Text × List Text → Result (Text × Text × Text)
three_fields (a, b ∷ c ∷ []) = ok (a, b, c)
three_fields _ = err bad_fields

-- The part of `parse_invite` after the test on the number of fields.
abbrev pub read_fields : Text × Text × Text → Result (Text × Text × Text)
read_fields (client_field, node_field, screen) = do
  client ← decode_key_field client_field
  node ← decode_key_field node_field
  if length screen == 0 then err no_screen else ok (to_hex client, to_hex node, screen)

-- The part of `parse_invite` after `strip`, of what follows the prefix.
abbrev pub read_rest : Option Text → Result (Text × Text × Text)
read_rest none = err bad_prefix
read_rest (some rest) = three_fields (split_colon rest) >>= read_fields

-- `parse_invite`
unfoldable pub parse_invite : Text → Result (Text × Text × Text)
parse_invite invite = read_rest (after_prefix invite_prefix (strip invite))
