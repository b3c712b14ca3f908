-- ===== src/Protocol/Crypto.antt =====
-- What client/aimless/protocol.py takes from pynacl, `json` and `base64`.
use aimless.Prelude.{
  ℕ, ◌<◌, ◌≡◌, refl, Bool, true, Option, none, some, List, [], ◌∷◌, Text, text_eq, text_eq_iff, All,
  arith, if◌then◌else◌,
}
use mathlib.Core.Option
use aimless.Store.Rows.{Bytes}

-- A value of a JSON object: a text, a natural number, or any other one (a list, an object, `null`).
pub data Value (J : Type 0) : Type 0 where
  str : Text → Value J
  num : ℕ → Value J
  nested : J → Value J

-- A dictionary, its keys in the order in which they were set.
abbrev pub Fields : Type 0 → Type 0
Fields J = List (Text × Value J)

-- What `json.loads` returns: a dictionary, or something else.
pub data Document (J : Type 0) : Type 0 where
  dict : Fields J → Document J
  other : J → Document J

-- `fields.get(key)`
unfoldable pub get : {J : Type 0} → Text → Fields J → Option (Value J)
get key [] = none
get key ((k, v) ∷ fields) = if text_eq k key then some v else get key fields

-- `fields[key] = value`
unfoldable pub put : {J : Type 0} → Text → Value J → Fields J → Fields J
put key value [] = (key, value) ∷ []
put key value ((k, v) ∷ fields) =
    if text_eq k key then (k, value) ∷ fields else (k, v) ∷ put key value fields

pub get-put :
    {J : Type 0} (k key : Text) (value : Value J) (f : Fields J)
    → get key (put k value f) ≡ (if text_eq k key then some value else get key f)
unfolding get put
get-put k key value [] = refl
get-put k key value ((j, v) ∷ f) =
    ground (arith, text_eq_iff k key, text_eq_iff j k, text_eq_iff j key, get-put k key value f)

-- A value as `sort_keys=True` leaves it: the keys of nested objects in order.
abbrev pub tidy_value : {J : Type 0} → (J → J) → Value J → Value J
tidy_value tidy (str t) = str t
tidy_value tidy (num n) = num n
tidy_value tidy (nested j) = nested (tidy j)

-- `Key` is the type of `nacl.signing.SigningKey`, `J` that of the nested JSON values.
pub record Crypto (Key J : Type 0) : Type 0 where
  -- `bytes(identity.verify_key)`, and `identity.sign(m).signature`
  pub verify_key : Key → Bytes
  pub sign : Key → Bytes → Bytes
  -- whether `VerifyKey(key)` accepts the bytes, and whether `verify` accepts message and signature
  pub is_verify_key : Bytes → Bool
  pub verify : Bytes → Bytes → Bytes → Bool
  -- `crypto_sign_ed25519_pk_to_curve25519`, `SealedBox.encrypt` with the ephemeral key that it
  -- draws, and `SealedBox.decrypt`
  pub curve_key : Bytes → Option Bytes
  pub seal : Bytes → Bytes → Bytes → Bytes
  pub unseal : Key → Bytes → Option Bytes
  -- `b64encode(b).decode()`, `b64decode`, `str.encode("utf-8")`
  pub b64encode : Bytes → Text
  pub b64decode : Text → Option Bytes
  pub encode : Text → Option Bytes
  -- `json.dumps`, with `sort_keys=True`, and `json.loads` of a text and of bytes
  pub dumps : Fields J → Text
  pub dumps_sorted : Fields J → Text
  pub loads : Text → Option (Document J)
  pub loads_bytes : Bytes → Option (Document J)
  pub tidy : J → J
  pub verify_key_bytes : (k : Key) → All (λ b. b < 256) (verify_key k)
  pub is_verify_key_lem : (k : Key) → is_verify_key (verify_key k) ≡ true
  pub verify-sign : (k : Key) (m : Bytes) → verify (verify_key k) m (sign k m) ≡ true
  pub unseal-seal :
      (k : Key) (seed c m : Bytes)
      → curve_key (verify_key k) ≡ some c
      → unseal k (seal seed c m) ≡ some m
  pub b64decode-b64encode : (b : Bytes) → b64decode (b64encode b) ≡ some b
  -- `json.dumps` writes ASCII only, so that each byte is a code point.
  pub encode-dumps : (f : Fields J) → encode (dumps f) ≡ some (dumps f)
  pub encode-dumps_sorted : (f : Fields J) → encode (dumps_sorted f) ≡ some (dumps_sorted f)
  pub loads_bytes-dumps : (f : Fields J) → loads_bytes (dumps f) ≡ some (dict f)
  pub loads-dumps_sorted :
      (f : Fields J)
      → (g : Fields J) × (loads (dumps_sorted f) ≡ some (dict g))
        × ((key : Text) → get key g ≡ Option.map (tidy_value tidy) (get key f))
