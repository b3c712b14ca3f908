-- ===== src/Protocol/Envelope/Signed.antt =====
-- What `open_message` of client/aimless/protocol.py has checked when it returns a message.
use mathlib.Core.Path.{subst}
use aimless.Prelude.{
  ◌≡◌, refl, ap, ◌∙◌, Bool, true, false, Option, none, some, ◌++◌, Text, codes, if◌then◌else◌,
}
use aimless.Store.Rows.{Bytes}
use aimless.Sync.{Outcome, opened, refused, raised}
use aimless.Protocol.Hex.{from_hex}
use aimless.Protocol.Crypto.{Value, str, num, nested, Fields, Document, dict, other, get, Crypto}
use aimless.Protocol.Envelope.{
  ◌>>=◌, or_refuse, or_raise, or_false, want_text, want_dict, envelope_fields, is_kind, magic,
  Message, verify_body, check_envelope, open_envelope, open_message,
}

bind_opened :
    {A B : Type 0} (m : Outcome A) (f : A → Outcome B) {b : B}
    → (m >>= f) ≡ opened b
    → (a : A) × (m ≡ opened a) × (f a ≡ opened b)
bind_opened (opened a) f h = (a, refl, h)
bind_opened refused f h = cc
bind_opened raised f h = cc

or_refuse_opened : {A : Type 0} (o : Option A) {a : A} → or_refuse o ≡ opened a → o ≡ some a
or_refuse_opened none h = cc
or_refuse_opened (some a) h = cc

want_text_opened : {J : Type 0} (v : Value J) {t : Text} → want_text v ≡ opened t → v ≡ str t
want_text_opened (str t) h = cc
want_text_opened (num n) h = cc
want_text_opened (nested j) h = cc

want_dict_opened :
    {J : Type 0} (d : Document J) {f : Fields J} → want_dict d ≡ opened f → d ≡ dict f
want_dict_opened (dict f) h = cc
want_dict_opened (other j) h = cc

if_opened :
    {A : Type 0} (b : Bool) {x y : A}
    → (if b then opened x else refused) ≡ opened y
    → (b ≡ true) × (opened x ≡ opened y)
if_opened true h = (refl, h)
if_opened false h = cc

if_true :
    (b : Bool) {x : Outcome Bool}
    → (if b then x else opened false) ≡ opened true
    → (b ≡ true) × (x ≡ opened true)
if_true true h = (refl, h)
if_true false h = cc

or_false-true :
    {A : Type 0} (o : Option A) (f : A → Outcome Bool)
    → or_false o f ≡ opened true
    → (a : A) × (f a ≡ opened true)
or_false-true none f h = cc
or_false-true (some a) f h = (a, h)

opened_inj : {A : Type 0} {a b : A} → opened a ≡ opened b → a ≡ b
opened_inj h = cc

module _ {Key J : Type 0} (crypto : Crypto Key J) where
  open crypto use {is_verify_key, verify, unseal, b64decode, encode, loads, loads_bytes}

  -- The key of the sender, the signed bytes and the signature behind an accepted signature.
  abbrev pub IsSigned : Text → Bytes → Type 0
  IsSigned from body =
      (key : Bytes) × (signature : Bytes) × (from_hex from ≡ some key)
      × (verify key (magic ++ body) signature ≡ true)

  verified_key :
      (from : Text) (body : Bytes) (sig : Value J) (key : Option Bytes)
      → from_hex from ≡ key
      → or_false key (λ k.
        if is_verify_key k
        then (want_text sig >>= λ s.
            or_false (b64decode s) (λ signature. opened (verify k (magic ++ body) signature)))
        else opened false)
        ≡ opened true
      → IsSigned from body
  verified_key from body sig none e h = cc
  verified_key from body sig (some key) e h =
      let (_, h1) = if_true (is_verify_key key) h in
      let (s, _, h2) = bind_opened (want_text sig) _ h1 in
      let (signature, h3) = or_false-true (b64decode s) _ h2 in (key, signature, e, opened_inj h3)

  verify_body-IsSigned :
      (from : Text) (body : Bytes) (sig : Value J)
      → verify_body crypto (str from) body sig ≡ opened true
      → IsSigned from body
  unfolding verify_body
  verify_body-IsSigned from body sig h = verified_key from body sig (from_hex from) refl h

  -- A body that was read and a signature that was checked.
  abbrev pub IsAuthentic : Text → Document J → Type 0
  IsAuthentic from d =
      (b : Text) × (body : Bytes) × (loads b ≡ some d) × (encode b ≡ some body) × IsSigned from body

  check_envelope-IsAuthentic :
      (from body sig : Value J) {sender : Text} {d : Document J}
      → check_envelope crypto from body sig ≡ opened (sender, d)
      → IsAuthentic sender d
  unfolding check_envelope
  check_envelope-IsAuthentic from body sig h =
      let (b, _, h1) = bind_opened (want_text body) _ h in
      let (doc, e1, h2) = bind_opened (or_refuse (loads b)) _ h1 in
      let (bytes, e2, h3) = bind_opened (or_refuse (encode b)) _ h2 in
      let (valid, e3, h4) = bind_opened (verify_body crypto from bytes sig) _ h3 in
      let (f, e4, h5) = bind_opened (want_text from) _ h4 in
      let (v, same) = if_opened valid h5 in
      let e5 : verify_body crypto (str f) bytes sig ≡ opened true =
        subst (λ x. verify_body crypto x bytes sig ≡ opened true) (want_text_opened from e4)
          (e3 ∙ ap opened v) in
      subst (λ p. IsAuthentic p.0 p.1) (opened_inj same)
        (
          b,
          bytes,
          or_refuse_opened (loads b) e1,
          or_refuse_opened (encode b) e2,
          verify_body-IsSigned f bytes sig e5,
        )

  open_envelope-IsAuthentic :
      (kind : Text) (identity : Key) (sealed : Bytes) {from : Text} {d : Document J}
      → open_envelope crypto kind identity sealed ≡ opened (from, d)
      → IsAuthentic from d
  unfolding open_envelope
  open_envelope-IsAuthentic kind identity sealed h =
      let (inner, _, h1) = bind_opened (or_raise (unseal identity sealed)) _ h in
      let (document, _, h2) = bind_opened (or_refuse (loads_bytes inner)) _ h1 in
      let (msg, _, h3) = bind_opened (want_dict document) _ h2 in
      let (fields, _, h4) =
        bind_opened
          (envelope_fields (is_kind kind (get (codes "kind") msg)) (get (codes "from") msg)
            (get (codes "body") msg) (get (codes "sig") msg))
          _ h3 in
      check_envelope-IsAuthentic fields.0 fields.1 fields.2 h4

  -- A message that `open_message` returns was signed: its text, time, screen name, conversation and
  -- members are fields of a body, and some signature of that body is valid under the key that the
  -- message names as its sender.
  pub open_message-IsAuthentic :
      (identity : Key) (payload : Text) {m : Message J}
      → open_message crypto identity payload ≡ opened m
      → (f : Fields J) × IsAuthentic m.from (dict f)
        × (get (codes "text") f ≡ some m.text)
        × (get (codes "ts") f ≡ some m.ts)
        × (get (codes "screen") f ≡ m.screen)
        × (get (codes "conv") f ≡ m.conv)
        × (get (codes "members") f ≡ m.members)
  unfolding open_message
  open_message-IsAuthentic identity payload {m} h =
      let (sealed, _, h1) = bind_opened (or_refuse (b64decode payload)) _ h in
      let (out, e1, h2) = bind_opened (open_envelope crypto (codes "msg") identity sealed) _ h1 in
      let (f, e2, h3) = bind_opened (want_dict out.1) _ h2 in
      let (text, e3, h4) = bind_opened (or_refuse (get (codes "text") f)) _ h3 in
      let (ts, e4, h5) = bind_opened (or_refuse (get (codes "ts") f)) _ h4 in
      let same = opened_inj h5 in
      let signed : IsAuthentic out.0 (dict f) =
        subst (IsAuthentic out.0) (want_dict_opened out.1 e2)
          (open_envelope-IsAuthentic (codes "msg") identity sealed e1) in
      (
        f,
        subst (λ (n : Message J). IsAuthentic n.from (dict f)) same signed,
        or_refuse_opened (get (codes "text") f) e3 ∙ ap (λ (n : Message J). some n.text) same,
        or_refuse_opened (get (codes "ts") f) e4 ∙ ap (λ (n : Message J). some n.ts) same,
        ap (λ (n : Message J). n.screen) same,
        ap (λ (n : Message J). n.conv) same,
        ap (λ (n : Message J). n.members) same,
      )
