-- ===== src/Protocol/Envelope/Open.antt =====
-- Sealing and opening in client/aimless/protocol.py, one after the other, and what a message that
-- opens is signed with.
use mathlib.Core.Option
use aimless.Prelude.{
  ℕ, ◌≡◌, refl, ap, ◌∙◌, true, false, Option, none, some, [], ◌∷◌, ◌++◌, Text, text_eq, codes,
}
use aimless.Store.Rows.{Bytes}
use aimless.Sync.{opened, refused}
use aimless.Protocol.Hex.{to_hex, from_hex-to_hex}
use aimless.Protocol.Crypto.{Value, str, num, nested, Fields, dict, get, tidy_value, Crypto}
use aimless.Protocol.Envelope.{
  ◌>>=◌, magic, message_body, verify_body, sign_body, seal_envelope, open_envelope, seal_message,
  open_message, seal_status, open_status,
}

-- A screen name that is sent: `None` and the empty one are not.
abbrev pub not_empty : Option Text → Option Text
not_empty none = none
not_empty (some []) = none
not_empty (some (c ∷ cs)) = some (c ∷ cs)

module _ {J : Type 0} (text : Text) (ts : ℕ) where
  abbrev Carries : Option Text → Option Text → Option J → Type 0
  Carries screen conv members =
      let body = message_body text ts screen conv members in
      (get (codes "screen") body ≡ Option.map str (not_empty screen))
      × (get (codes "conv") body ≡ Option.map str conv)
      × (get (codes "members") body ≡ Option.map nested members)

  message_body-Carries :
      (screen conv : Option Text) (members : Option J) → Carries screen conv members
  unfolding get text_eq
  message_body-Carries none none none = (refl, refl, refl)
  message_body-Carries none none (some m) = (refl, refl, refl)
  message_body-Carries none (some c) none = (refl, refl, refl)
  message_body-Carries none (some c) (some m) = (refl, refl, refl)
  message_body-Carries (some []) none none = (refl, refl, refl)
  message_body-Carries (some []) none (some m) = (refl, refl, refl)
  message_body-Carries (some []) (some c) none = (refl, refl, refl)
  message_body-Carries (some []) (some c) (some m) = (refl, refl, refl)
  message_body-Carries (some (s ∷ ss)) none none = (refl, refl, refl)
  message_body-Carries (some (s ∷ ss)) none (some m) = (refl, refl, refl)
  message_body-Carries (some (s ∷ ss)) (some c) none = (refl, refl, refl)
  message_body-Carries (some (s ∷ ss)) (some c) (some m) = (refl, refl, refl)

module _ {Key J : Type 0} (crypto : Crypto Key J) where
  open crypto use {
    verify_key, sign, is_verify_key, verify, curve_key, seal, unseal, b64encode, b64decode, encode,
    dumps, dumps_sorted, loads, loads_bytes, tidy,
  }

  verify_body-sign_body :
      (alice : Key) (body : Bytes)
      → verify_body crypto
          (str (to_hex (verify_key alice)))
          body
          (str (sign_body crypto alice body))
        ≡ opened true
  unfolding verify_body sign_body
  verify_body-sign_body alice body =
      rw (from_hex-to_hex (verify_key alice) (crypto.verify_key_bytes alice)) (
        rw (crypto.is_verify_key_lem alice) (
          rw (crypto.b64decode-b64encode (sign alice (magic ++ body)))
            (rw (crypto.verify-sign alice (magic ++ body)))))

  tidy-str : (o : Option Text) → Option.map (tidy_value tidy) (Option.map str o) ≡ Option.map str o
  tidy-str none = refl
  tidy-str (some t) = refl

  tidy-nested :
      (o : Option J)
      → Option.map (tidy_value tidy) (Option.map nested o) ≡ Option.map (λ m. nested (tidy m)) o
  tidy-nested none = refl
  tidy-nested (some m) = refl

  abbrev pub inner : Text → Key → Text → Fields J
  inner kind alice body =
      (codes "v", num 1)
      ∷ (codes "kind", str kind)
      ∷ (codes "from", str (to_hex (verify_key alice)))
      ∷ (codes "body", str body)
      ∷ (codes "sig", str (sign_body crypto alice body))
      ∷ []

  module _ (bob : Key) {c : Bytes} (curve : curve_key (verify_key bob) ≡ some c) where
    abbrev pub sealed : Bytes → Text → Key → Fields J → Bytes
    sealed seed kind alice f = seal seed c (dumps (inner kind alice (dumps_sorted f)))

    pub seal_envelope_lem :
        (seed : Bytes) (kind : Text) (alice : Key) (f : Fields J)
        → seal_envelope crypto seed kind alice (to_hex (verify_key bob)) (dumps_sorted f)
          ≡ opened (sealed seed kind alice f)
    unfolding seal_envelope
    seal_envelope_lem seed kind alice f = rw (crypto.encode-dumps_sorted f) (
        rw (crypto.encode-dumps (inner kind alice (dumps_sorted f)))
          (rw (from_hex-to_hex (verify_key bob) (crypto.verify_key_bytes bob)) (rw curve)))

    pub open_envelope_lem :
        (seed : Bytes) (kind : Text) (alice : Key) (f : Fields J) {g : Fields J}
        → loads (dumps_sorted f) ≡ some (dict g)
        → text_eq kind kind ≡ true
        → open_envelope crypto kind bob (sealed seed kind alice f)
          ≡ opened (to_hex (verify_key alice), dict g)
    unfolding open_envelope get text_eq
    open_envelope_lem seed kind alice f e k =
        rw (crypto.unseal-seal bob seed c (dumps (inner kind alice (dumps_sorted f))) curve) (
          rw (crypto.loads_bytes-dumps (inner kind alice (dumps_sorted f))) (
            rw k (
              rw e (
                rw (crypto.encode-dumps_sorted f)
                  (rw (verify_body-sign_body alice (dumps_sorted f)))))))

    -- Of another kind.
    open_envelope_kind :
        (seed : Bytes) (kind other_kind : Text) (alice : Key) (f : Fields J)
        → text_eq kind other_kind ≡ false
        → open_envelope crypto other_kind bob (sealed seed kind alice f) ≡ refused
    unfolding open_envelope get text_eq
    open_envelope_kind seed kind other_kind alice f k =
        rw (crypto.unseal-seal bob seed c (dumps (inner kind alice (dumps_sorted f))) curve)
          (rw (crypto.loads_bytes-dumps (inner kind alice (dumps_sorted f))) (rw k))

    seal_message_lem :
        (seed : Bytes) (alice : Key) (text : Text) (ts : ℕ) (screen conv : Option Text)
        (members : Option J)
        → seal_message crypto seed alice (to_hex (verify_key bob)) text ts screen conv members
          ≡ opened (
              b64encode
                (sealed seed (codes "msg") alice (message_body text ts screen conv members)))
    unfolding seal_message
    seal_message_lem seed alice text ts screen conv members =
        rw (seal_envelope_lem seed (codes "msg") alice (message_body text ts screen conv members))

    open_message_lem :
        (seed : Bytes) (alice : Key) (f : Fields J) {g : Fields J} {text ts : Value J}
        {screen conv members : Option (Value J)}
        → loads (dumps_sorted f) ≡ some (dict g)
        → get (codes "text") g ≡ some text
        → get (codes "ts") g ≡ some ts
        → get (codes "screen") g ≡ screen
        → get (codes "conv") g ≡ conv
        → get (codes "members") g ≡ members
        → open_message crypto bob (b64encode (sealed seed (codes "msg") alice f))
          ≡ opened (record {
            from = to_hex (verify_key alice);
            text = text;
            ts = ts;
            screen = screen;
            conv = conv;
            members = members;
          })
    unfolding open_message
    open_message_lem seed alice f e t n s c m =
        rw (crypto.b64decode-b64encode (sealed seed (codes "msg") alice f)) (
          rw (open_envelope_lem seed (codes "msg") alice f e (unfold text_eq in refl))
            (rw t (rw n (rw s (rw c (rw m))))))

    -- A message that Alice seals for Bob, whose key can be turned into a curve key, is sealed
    -- without an exception, and Bob opens it as hers, with the text, the time, the screen name unless
    -- that is empty, the conversation and the members that she gave.
    pub open_message-seal_message :
        (seed : Bytes) (alice : Key) (text : Text) (ts : ℕ) (screen conv : Option Text)
        (members : Option J)
        → (payload : Text) × (seal_message crypto seed alice
              (to_hex (verify_key bob))
              text
              ts
              screen
              conv
              members
            ≡ opened payload)
          × (open_message crypto bob payload
              ≡ opened (record {
                from = to_hex (verify_key alice);
                text = str text;
                ts = num ts;
                screen = Option.map str (not_empty screen);
                conv = Option.map str conv;
                members = Option.map (λ m. nested (tidy m)) members;
              }))
    unfolding get text_eq
    open_message-seal_message seed alice text ts screen conv members =
        let f = message_body text ts screen conv members in
        let (g, e, look) = crypto.loads-dumps_sorted f in
        let has = message_body-Carries text ts screen conv members in
        (
          b64encode (sealed seed (codes "msg") alice f),
          seal_message_lem seed alice text ts screen conv members,
          open_message_lem seed alice f e (look (codes "text")) (look (codes "ts"))
              (look (codes "screen")
                ∙ ap (Option.map (tidy_value tidy)) has.0
                ∙ tidy-str (not_empty screen))
              (look (codes "conv") ∙ ap (Option.map (tidy_value tidy)) has.1 ∙ tidy-str conv)
              (look (codes "members")
                ∙ ap (Option.map (tidy_value tidy)) has.2
                ∙ tidy-nested members),
        )

    -- A status and a message are never taken for one another: each is refused by the other's opening.
    pub kinds_apart :
        (seed : Bytes) (alice : Key) (text screen : Text) (ts : ℕ) (name conv : Option Text)
        (members : Option J) (away : Value J)
        → ((seal_message crypto seed alice (to_hex (verify_key bob)) text ts name conv members
              >>= open_status crypto bob)
            ≡ refused)
          × ((seal_status crypto seed alice (to_hex (verify_key bob)) screen away ts
                >>= open_message crypto bob)
              ≡ refused)
    unfolding seal_message seal_status open_status open_message
    kinds_apart seed alice text screen ts name conv members away = (
      rw (seal_envelope_lem seed (codes "msg") alice _) (
          rw (crypto.b64decode-b64encode _) (
            rw (
              open_envelope_kind seed (codes "msg") (codes "status") alice _
                (unfold text_eq in refl)))),
      rw (seal_envelope_lem seed (codes "status") alice _) (
          rw (crypto.b64decode-b64encode _) (
            rw (
              open_envelope_kind seed (codes "status") (codes "msg") alice _
                (unfold text_eq in refl)))),
    )
