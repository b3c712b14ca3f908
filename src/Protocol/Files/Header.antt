-- ===== src/Protocol/Files/Header.antt =====
-- `build_file_payload` and `parse_file_payload` of client/aimless/protocol.py, one after the other.
use mathlib.Core.Option
use mathlib.Core.Path.{subst}
use aimless.Prelude.{
  ℕ, ◌+◌, ◌*◌, ◌/◌, ◌%◌, ◌<◌, ◌≡◌, refl, ap, ◌∙◌, Option, some, [], ◌∷◌, ◌++◌, append_assoc, Text,
  codes, length, length-append, take, drop, take-append_left, drop-append_left, if◌then◌else◌,
  arith, All, text_eq,
}
use aimless.Store.Rows.{Bytes}
use aimless.Sync.{opened}
use aimless.Protocol.Hex.{to_hex, from_hex-to_hex}
use aimless.Protocol.Crypto.{str, Fields, get, get-put, tidy_value, put, Crypto}
use aimless.Protocol.Envelope.{seal_file_chunk, open_file_chunk}
use aimless.Protocol.Envelope.Open.{sealed, seal_envelope_lem, open_envelope_lem}
use aimless.Protocol.Files.{
  file_header, parse_raw, make_chunk, chunk_header, build_file_payload, parse_file_payload,
}

header_bytes : ℕ → ℕ → Bytes
header_bytes index total = index % 256 ∷ index / 256 ∷ total % 256 ∷ total / 256 ∷ []

file_header_lem :
    (tid : Bytes) (index total : ℕ)
    → length tid ≡ 16
    → index < total
    → total < 65536
    → file_header tid index total ≡ opened (tid ++ header_bytes index total)
unfolding file_header header_bytes
file_header_lem tid index total t i n = ground (arith, t)

parse_raw_lem :
    (tid : Bytes) (index total : ℕ) (body : Bytes)
    → length tid ≡ 16
    → index < total
    → total < 65536
    → parse_raw ((tid ++ header_bytes index total) ++ body)
      ≡ opened (record { tid = tid; index = index; total = total; sealed = body })
unfolding parse_raw header_bytes
parse_raw_lem tid index total body t i n =
    let header = header_bytes index total in
    let assoc = append_assoc tid header body in
    let first : take 16 ((tid ++ header) ++ body) ≡ tid = rw assoc (
      subst (λ k. take k (tid ++ (header ++ body)) ≡ tid) t
        (take-append_left tid (header ++ body))) in
    let middle : drop 16 ((tid ++ header) ++ body) ≡ header ++ body = rw assoc (
      subst (λ k. drop k (tid ++ (header ++ body)) ≡ header ++ body) t
        (drop-append_left tid (header ++ body))) in
    let twenty : length (tid ++ header) ≡ 20 = omega (arith, length-append tid header) in
    let last : drop 20 ((tid ++ header) ++ body) ≡ body =
      subst (λ k. drop k ((tid ++ header) ++ body) ≡ body) twenty
        (drop-append_left (tid ++ header) body) in
    let long : length ((tid ++ header) ++ body) ≡ 20 + length body =
      omega (arith, length-append (tid ++ header) body) in
    let low : index % 256 + 256 * (index / 256) ≡ index = omega arith in
    let high : total % 256 + 256 * (total / 256) ≡ total = omega arith in
    rw first (rw last (rw middle (rw low (rw high (ground (arith, long))))))

chunk_header_lem :
    (J : Type 0) (tid : Bytes) (index total : ℕ) (filename mime_hint sha256 : Text) (size : ℕ)
    (b64_bytes : Text) (conv : Option Text)
    → All (λ b. b < 256) tid
    → length tid ≡ 16
    → index < total
    → total < 65536
    → chunk_header {J = J}
        (make_chunk (to_hex tid) index total filename mime_hint sha256 size b64_bytes conv)
      ≡ opened (tid ++ header_bytes index total)
unfolding chunk_header make_chunk get text_eq
chunk_header_lem J tid index total filename mime_hint sha256 size b64_bytes conv bytes t i n =
    rw (from_hex-to_hex tid bytes) (file_header_lem tid index total t i n)

module _ {Key J : Type 0} (crypto : Crypto Key J) (bob : Key) {c : Bytes}
    (curve : crypto.curve_key (crypto.verify_key bob) ≡ some c) where
  -- The payload of a chunk that Alice makes for Bob is parsed into the transfer id, the index and
  -- the total of the chunk, and what is sealed opens to a chunk with Alice as its sender and, under
  -- every other key, what `make_chunk` put there.
  pub parse_file_payload-build_file_payload :
      (seed : Bytes) (alice : Key) (tid : Bytes) (index total : ℕ)
      (filename mime_hint sha256 : Text) (size : ℕ) (b64_bytes : Text) (conv : Option Text)
      → All (λ b. b < 256) tid
      → length tid ≡ 16
      → index < total
      → total < 65536
      → let chunk : Fields J =
          make_chunk (to_hex tid) index total filename mime_hint sha256 size b64_bytes conv in
        (payload : Text) × (sealed : Bytes) × (opened_chunk : Fields J) × (build_file_payload crypto
            seed alice
            (to_hex (crypto.verify_key bob))
            chunk
          ≡ opened payload)
        × (parse_file_payload crypto payload
            ≡ opened (record { tid = tid; index = index; total = total; sealed = sealed }))
        × (open_file_chunk crypto bob sealed ≡ opened opened_chunk)
        × ((key : Text)
            → get key opened_chunk ≡ (
                if text_eq (codes "from") key
                then some (str (to_hex (crypto.verify_key alice)))
                else Option.map (tidy_value crypto.tidy) (get key chunk)))
  unfolding build_file_payload parse_file_payload open_file_chunk seal_file_chunk
  parse_file_payload-build_file_payload seed alice tid index total filename mime_hint sha256 size
        b64_bytes conv bytes t i n =
      let chunk : Fields J =
        make_chunk (to_hex tid) index total filename mime_hint sha256 size b64_bytes conv in
      let (g, e, look) = crypto.loads-dumps_sorted chunk in
      let body = sealed crypto bob curve seed (codes "file") alice chunk in
      let raw = (tid ++ header_bytes index total) ++ body in
      let sender = str (to_hex (crypto.verify_key alice)) in
      (
        crypto.b64encode raw,
        body,
        put (codes "from") sender g,
        rw (seal_envelope_lem crypto bob curve seed (codes "file") alice chunk) (
            rw (
              chunk_header_lem J tid index total filename mime_hint sha256 size b64_bytes conv bytes
                t i n)),
        rw (crypto.b64decode-b64encode raw) (parse_raw_lem tid index total body t i n),
        rw (
            open_envelope_lem crypto bob curve seed (codes "file") alice chunk e
              (unfold text_eq in refl)),
        λ key.
            get-put (codes "from") key sender g
            ∙ ap (λ o. if text_eq (codes "from") key then some sender else o) (look key),
      )
