-- ===== src/Protocol/Invite/RoundTrip.antt =====
-- `make_invite` and `parse_invite` of client/aimless/protocol.py, one after the other.
use mathlib.Core.List.{reverse, reverse-reverse, reverse-append}
use mathlib.Core.Path.{subst}
use mathlib.Core.Option
use aimless.Prelude.{
  All-append, ℕ, zero, suc, ◌<◌, ◌≡◌, ◌≢◌, refl, ap, ◌∙◌, true, false, none, some, List, [], ◌∷◌,
  ◌++◌, append_assoc, Text, codes, ◌==◌, All, length, if◌then◌else◌, arith, replicate, map,
}
use aimless.Prelude.Decimal.{All-reverse}
use aimless.Prelude.Digits.{digits, digits-IsCanonical, IsCanonical}
use aimless.Base58.Bits.{passes, test_of_passes}
use aimless.Base58.{alphabet, char_at, leading, from_bytes, b58encode}
use aimless.Base58.RoundTrip.{IsBytes, b58decode-b58encode}
use aimless.Base58.Length.{length-b58encode_32}
use aimless.Protocol.Hex.{to_hex, from_hex-to_hex}
use aimless.Protocol.Invite.{
  ok, err, bad_fields, invite_prefix, make_invite, decode_key_field, is_space, lstrip, strip,
  after_prefix, split_colon, three_fields, read_fields, read_rest, ◌>>=◌, parse_invite,
}

-- A key of 32 bytes is read back from its base58 field.
decode_key_field-b58encode :
    (key : List ℕ) → IsBytes key → length key ≡ 32 → decode_key_field (b58encode key) ≡ ok key
unfolding decode_key_field
decode_key_field-b58encode key h len =
    ground (arith, length-b58encode_32 key h len, b58decode-b58encode key h)

abbrev NoColon : Text → Type 0
NoColon = All (λ c. c ≢ b':')

split_colon-append :
    (field rest : Text)
    → NoColon field
    → split_colon (field ++ b':' ∷ rest) ≡ (field, (split_colon rest).0 ∷ (split_colon rest).1)
unfolding split_colon
split_colon-append [] rest h = refl
split_colon-append (c ∷ field) rest h = ground (arith, split_colon-append field rest h.1)

split_colon_last : (field : Text) → NoColon field → split_colon field ≡ (field, [])
unfolding split_colon
split_colon_last [] h = refl
split_colon_last (c ∷ field) h = ground (arith, split_colon_last field h.1)

after_prefix-append : (p text : Text) → after_prefix p (p ++ text) ≡ some text
unfolding after_prefix
after_prefix-append [] text = refl
after_prefix-append (c ∷ p) text = ground (arith, after_prefix-append p text)

no_colon_table : passes (λ r. if char_at r alphabet == b':' then false else true) 58 ≡ true
unfolding passes char_at
no_colon_table = refl

char_at-NoColon : (r : ℕ) → r < 58 → char_at r alphabet ≢ b':'
char_at-NoColon r h = let e = test_of_passes _ 58 no_colon_table r h in ground arith

digits-NoColon : (ds : List ℕ) → IsCanonical 58 ds → NoColon (map (λ r. char_at r alphabet) ds)
digits-NoColon [] c = tt
digits-NoColon (d ∷ []) c = (char_at-NoColon d c.0, tt)
digits-NoColon (d ∷ e ∷ ds) c = (char_at-NoColon d c.0, digits-NoColon (e ∷ ds) c.1)

ones-NoColon : (z : ℕ) → NoColon (replicate z b'1')
ones-NoColon zero = tt
ones-NoColon (suc z) = (omega arith, ones-NoColon z)

b58encode-NoColon : (key : List ℕ) → NoColon (b58encode key)
unfolding b58encode
b58encode-NoColon key =
    All-append (λ c. c ≢ b':') (replicate (leading 0 key) b'1') _ (ones-NoColon (leading 0 key))
      (All-reverse (λ c. c ≢ b':') _
        (digits-NoColon (digits 58 (from_bytes 0 key))
          (digits-IsCanonical 58 (from_bytes 0 key) (omega arith))))

turned :
    (first last : ℕ) (text : Text)
    → reverse (last ∷ reverse (first ∷ text)) ≡ first ∷ (text ++ last ∷ [])
turned first last text =
    reverse-append (last ∷ []) (reverse (first ∷ text))
    ∙ ap (λ t. t ++ last ∷ []) (reverse-reverse (first ∷ text))

-- A text that neither begins nor ends with white space is what `strip` leaves.
strip_visible :
    (first last : ℕ) (text : Text)
    → is_space first ≡ false
    → is_space last ≡ false
    → strip (first ∷ (text ++ last ∷ [])) ≡ first ∷ (text ++ last ∷ [])
unfolding strip lstrip
strip_visible first last text f l =
    rw f (rw (reverse-append (first ∷ text) (last ∷ [])) (rw l (turned first last text)))

module _ (client node : List ℕ) (name : Text) (last : ℕ) where
  abbrev screen : Text
  screen = name ++ last ∷ []

  abbrev pub invite_text : Text → Text
  invite_text s = invite_prefix ++ (b58encode client ++ b':' ∷ (b58encode node ++ b':' ∷ s))

  make_invite_text :
      (s : Text) → IsBytes node → make_invite client (to_hex node) s ≡ some (invite_text s)
  unfolding make_invite
  make_invite_text s h =
      ap
        (λ o. elim o [
          | none ↦ none
          | some n ↦ some (invite_prefix ++ (b58encode client ++ b':' ∷ (b58encode n ++ b':' ∷ s)))
        ])
        (from_hex-to_hex node h)

  abbrev body : Text
  body = codes "imless1:" ++ (b58encode client ++ b':' ∷ (b58encode node ++ b':' ∷ name))

  body_lem : b'a' ∷ (body ++ last ∷ []) ≡ invite_text screen
  body_lem =
      ap (λ t. invite_prefix ++ t)
        (append_assoc (b58encode client) (b':' ∷ (b58encode node ++ b':' ∷ name)) (last ∷ [])
          ∙ ap (λ t. b58encode client ++ b':' ∷ t)
              (append_assoc (b58encode node) (b':' ∷ name) (last ∷ [])))

  strip-invite_text : is_space last ≡ false → strip (invite_text screen) ≡ invite_text screen
  unfolding is_space
  strip-invite_text l = subst (λ t. strip t ≡ t) body_lem (strip_visible b'a' last body refl l)

  fields_invite :
      (s : Text)
      → split_colon (b58encode client ++ b':' ∷ (b58encode node ++ b':' ∷ s))
        ≡ (b58encode client, b58encode node ∷ (split_colon s).0 ∷ (split_colon s).1)
  fields_invite s =
      split_colon-append (b58encode client) (b58encode node ++ b':' ∷ s) (b58encode-NoColon client)
      ∙ ap (λ p. (b58encode client, p.0 ∷ p.1))
          (split_colon-append (b58encode node) s (b58encode-NoColon node))

  parse_fields :
      (s : Text) (first : Text) (more : List Text)
      → strip (invite_text s) ≡ invite_text s
      → split_colon s ≡ (first, more)
      → parse_invite (invite_text s)
        ≡ three_fields (b58encode client, b58encode node ∷ first ∷ more) >>= read_fields
  unfolding parse_invite
  parse_fields s first more v e =
      ap (λ t. read_rest (after_prefix invite_prefix t)) v
      ∙ ap read_rest (after_prefix-append invite_prefix _)
      ∙ ap (λ p. three_fields p >>= read_fields)
          (fields_invite s ∙ ap (λ p. (b58encode client, b58encode node ∷ p.0 ∷ p.1)) e)

length-last : (name : Text) (last : ℕ) → length (name ++ last ∷ []) == 0 ≡ false
length-last [] last = refl
length-last (c ∷ name) last = ground arith

read_fields_lem :
    (client node : List ℕ) (s : Text)
    → decode_key_field (b58encode client) ≡ ok client
    → decode_key_field (b58encode node) ≡ ok node
    → length s == 0 ≡ false
    → read_fields (b58encode client, b58encode node, s) ≡ ok (to_hex client, to_hex node, s)
read_fields_lem client node s c n l = rw c (rw n (rw l refl))

-- The invite of an identity and a node whose keys have 32 bytes is parsed into the two keys in hex
-- and the screen name, if the screen name has no colon and its last character is not white space.
pub parse_invite-make_invite :
    (client node : List ℕ) (name : Text) (last : ℕ)
    → IsBytes client
    → length client ≡ 32
    → IsBytes node
    → length node ≡ 32
    → NoColon (name ++ last ∷ [])
    → is_space last ≡ false
    → Option.map parse_invite (make_invite client (to_hex node) (name ++ last ∷ []))
      ≡ some (ok (to_hex client, to_hex node, name ++ last ∷ []))
parse_invite-make_invite client node name last hc lc hn ln nc v =
    ap (Option.map parse_invite) (make_invite_text client node name last (name ++ last ∷ []) hn)
    ∙ ap some (
        parse_fields client node name last (name ++ last ∷ []) _ []
          (strip-invite_text client node name last v) (split_colon_last (name ++ last ∷ []) nc)
        ∙ read_fields_lem client node (name ++ last ∷ []) (decode_key_field-b58encode client hc lc)
            (decode_key_field-b58encode node hn ln) (length-last name last))

-- If the screen name has a colon before its last character, and that character is not white space,
-- `make_invite` still makes an invite, and `parse_invite` refuses it for its number of fields.
pub parse_invite_colon :
    (client node : List ℕ) (before after : Text) (last : ℕ)
    → IsBytes node
    → NoColon before
    → is_space last ≡ false
    → Option.map parse_invite
        (make_invite client (to_hex node) ((before ++ b':' ∷ after) ++ last ∷ []))
      ≡ some (err bad_fields)
parse_invite_colon client node before after last hn nc v =
    let name = before ++ b':' ∷ after in
    let s = name ++ last ∷ [] in
    ap (Option.map parse_invite) (make_invite_text client node name last s hn)
    ∙ ap some (
        parse_fields client node name last s _ _ (strip-invite_text client node name last v) (
          ap split_colon (append_assoc before (b':' ∷ after) (last ∷ []))
          ∙ split_colon-append before (after ++ last ∷ []) nc))
