-- ===== src/Protocol/Envelope.antt =====
-- The sealed envelopes of client/aimless/protocol.py: messages, statuses and file chunks.
--
-- To seal or open gives a value, or raises a `ValueError` or `KeyError` (`refused`), or another
-- exception (`raised`), as client/aimless/service.py tells them apart.
pub mod Open
pub mod Signed
use aimless.Prelude.{
  ℕ, Bool, true, false, Option, none, some, List, [], ◌∷◌, ◌++◌, Text, text_eq, codes,
  if◌then◌else◌,
}
use aimless.Store.Rows.{Bytes}
use aimless.Sync.{Outcome, opened, refused, raised}
use aimless.Protocol.Hex.{to_hex, from_hex}
use aimless.Protocol.Crypto.{
  Value, str, num, nested, Fields, Document, dict, other, get, put, Crypto,
}

infixl 5 ◌>>=◌
abbrev pub ◌>>=◌ : {A B : Type 0} → Outcome A → (A → Outcome B) → Outcome B
opened a >>= f = f a
refused >>= f = refused
raised >>= f = raised

-- `none` is a `ValueError` here.
abbrev pub or_refuse : {A : Type 0} → Option A → Outcome A
or_refuse none = refused
or_refuse (some a) = opened a

-- `none` is another exception here.
abbrev pub or_raise : {A : Type 0} → Option A → Outcome A
or_raise none = raised
or_raise (some a) = opened a

-- `except ValueError: return False`
abbrev pub or_false : {A : Type 0} → Option A → (A → Outcome Bool) → Outcome Bool
or_false none f = opened false
or_false (some a) f = f a

-- A text, as `bytes.fromhex`, `b64decode`, `json.loads` and `str.encode` want one.
abbrev pub want_text : {J : Type 0} → Value J → Outcome Text
want_text (str t) = opened t
want_text (num n) = raised
want_text (nested j) = raised

abbrev pub want_dict : {J : Type 0} → Document J → Outcome (Fields J)
want_dict (dict f) = opened f
want_dict (other j) = raised

-- `MAGIC`
abbrev pub magic : Bytes
magic = codes "aimless" ++ 1 ∷ []

abbrev pub is_kind : {J : Type 0} → Text → Option (Value J) → Bool
is_kind kind (some (str t)) = text_eq t kind
is_kind kind _ = false

-- The keys "from", "body" and "sig" of a message of the right kind.
abbrev pub envelope_fields :
    {J : Type 0}
    → Bool
    → Option (Value J)
    → Option (Value J)
    → Option (Value J)
    → Outcome (Value J × Value J × Value J)
envelope_fields true (some f) (some b) (some s) = opened (f, b, s)
envelope_fields _ _ _ _ = refused

-- What `open_message` returns; the optional fields are none where the body does not have them.
pub record Message (J : Type 0) : Type 0 where
  pub from : Text
  pub text : Value J
  pub ts : Value J
  pub screen : Option (Value J)
  pub conv : Option (Value J)
  pub members : Option (Value J)

pub record Status (J : Type 0) : Type 0 where
  pub from : Text
  pub screen : Value J
  pub away : Value J
  pub ts : Value J

-- `if screen:`, `if conv is not None:`, `if members is not None:`
abbrev pub screen_field : {J : Type 0} → Option Text → Fields J
screen_field none = []
screen_field (some []) = []
screen_field (some (c ∷ cs)) = (codes "screen", str (c ∷ cs)) ∷ []

abbrev pub conv_field : {J : Type 0} → Option Text → Fields J
conv_field none = []
conv_field (some conv) = (codes "conv", str conv) ∷ []

abbrev pub members_field : {J : Type 0} → Option J → Fields J
members_field none = []
members_field (some members) = (codes "members", nested members) ∷ []

abbrev pub message_body : {J : Type 0} → Text → ℕ → Option Text → Option Text → Option J → Fields J
message_body text ts screen conv members =
    (codes "text", str text)
    ∷ (codes "ts", num ts)
    ∷ (screen_field screen ++ (conv_field conv ++ members_field members))

module _ {Key J : Type 0} (crypto : Crypto Key J) where
  open crypto use {
    verify_key, sign, is_verify_key, verify, curve_key, seal, unseal, b64encode, b64decode, encode,
    dumps, dumps_sorted, loads, loads_bytes,
  }

  -- `_sign`
  unfoldable pub sign_body : Key → Bytes → Text
  sign_body identity body = b64encode (sign identity (magic ++ body))

  -- `_verify`; `raised` where a value that is no text ends it by a `TypeError`
  unfoldable pub verify_body : Value J → Bytes → Value J → Outcome Bool
  verify_body from body sig = do
    from_hex_text ← want_text from
    or_false (from_hex from_hex_text) (λ key.
        if is_verify_key key
        then (want_text sig >>= λ sig_b64.
            or_false (b64decode sig_b64)
              (λ signature. opened (verify key (magic ++ body) signature)))
        else opened false)

  -- The sealing that `seal_message`, `seal_status` and `seal_file_chunk` share, from the body on.
  unfoldable pub seal_envelope : Bytes → Text → Key → Text → Text → Outcome Bytes
  unfolding sign_body
  seal_envelope seed kind identity buddy_pubkey_hex body = do
    body_bytes ← or_refuse (encode body)
    inner ← or_refuse (
        encode (
          dumps (
            (codes "v", num 1)
            ∷ (codes "kind", str kind)
            ∷ (codes "from", str (to_hex (verify_key identity)))
            ∷ (codes "body", str body)
            ∷ (codes "sig", str (sign_body identity body_bytes))
            ∷ [])))
    buddy_key ← or_refuse (from_hex buddy_pubkey_hex)
    curve_pk ← or_raise (curve_key buddy_key)
    opened (seal seed curve_pk inner)

  -- The checks on "from", "body" and "sig".
  unfoldable pub check_envelope : Value J → Value J → Value J → Outcome (Text × Document J)
  unfolding verify_body
  check_envelope from body sig = do
    body_text ← want_text body
    body_obj ← or_refuse (loads body_text)
    body_bytes ← or_refuse (encode body_text)
    valid ← verify_body from body_bytes sig
    sender ← want_text from
    if valid then opened (sender, body_obj) else refused

  -- The opening that `open_message`, `open_status` and `open_file_chunk` share: the sender and the
  -- body, whose signature was checked.
  unfoldable pub open_envelope : Text → Key → Bytes → Outcome (Text × Document J)
  unfolding check_envelope
  open_envelope kind identity sealed = do
    inner ← or_raise (unseal identity sealed)
    document ← or_refuse (loads_bytes inner)
    msg ← want_dict document
    fields ←
        envelope_fields (is_kind kind (get (codes "kind") msg)) (get (codes "from") msg)
          (get (codes "body") msg) (get (codes "sig") msg)
    check_envelope fields.0 fields.1 fields.2

  -- `seal_message`
  unfoldable pub seal_message :
      Bytes → Key → Text → Text → ℕ → Option Text → Option Text → Option J → Outcome Text
  seal_message seed identity buddy_pubkey_hex text ts screen conv members =
      seal_envelope seed (codes "msg") identity buddy_pubkey_hex
        (dumps_sorted (message_body text ts screen conv members))
      >>= λ sealed. opened (b64encode sealed)

  -- `open_message`
  unfoldable pub open_message : Key → Text → Outcome (Message J)
  open_message identity payload_b64 = do
    sealed ← or_refuse (b64decode payload_b64)
    out ← open_envelope (codes "msg") identity sealed
    body_obj ← want_dict out.1
    text ← or_refuse (get (codes "text") body_obj)
    ts ← or_refuse (get (codes "ts") body_obj)
    opened (record {
      from = out.0;
      text = text;
      ts = ts;
      screen = get (codes "screen") body_obj;
      conv = get (codes "conv") body_obj;
      members = get (codes "members") body_obj;
    })

  -- `seal_status`
  unfoldable pub seal_status : Bytes → Key → Text → Text → Value J → ℕ → Outcome Text
  seal_status seed identity buddy_pubkey_hex screen away ts =
      seal_envelope seed (codes "status") identity buddy_pubkey_hex (
        dumps_sorted
          ((codes "screen", str screen) ∷ (codes "away", away) ∷ (codes "ts", num ts) ∷ []))
      >>= λ sealed. opened (b64encode sealed)

  -- `open_status`
  unfoldable pub open_status : Key → Text → Outcome (Status J)
  open_status identity payload_b64 = do
    sealed ← or_refuse (b64decode payload_b64)
    out ← open_envelope (codes "status") identity sealed
    body_obj ← want_dict out.1
    screen ← or_refuse (get (codes "screen") body_obj)
    away ← or_refuse (get (codes "away") body_obj)
    ts ← or_refuse (get (codes "ts") body_obj)
    opened (record { from = out.0; screen = screen; away = away; ts = ts })

  -- `seal_file_chunk`, of the dictionary of the chunk
  unfoldable pub seal_file_chunk : Bytes → Key → Text → Fields J → Outcome Bytes
  seal_file_chunk seed identity buddy_pubkey_hex chunk =
      seal_envelope seed (codes "file") identity buddy_pubkey_hex (dumps_sorted chunk)

  -- `open_file_chunk`
  unfoldable pub open_file_chunk : Key → Bytes → Outcome (Fields J)
  open_file_chunk identity sealed = do
    out ← open_envelope (codes "file") identity sealed
    chunk ← want_dict out.1
    opened (put (codes "from") (str out.0) chunk)
