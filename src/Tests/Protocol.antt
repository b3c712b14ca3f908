-- ===== src/Tests/Protocol.antt =====
-- The theorems on client/aimless/protocol.py and client/aimless/keys.py at concrete messages, files
-- and keys.
use mathlib.Core.Option
use mathlib.Core.List.{Permᴰ}
use aimless.Protocol.RoomId
use aimless.Protocol.RoomId.{room_id}
use aimless.Prelude.{
  ℕ, zero, suc, ◌≡◌, refl, ◌%◌, some, none, List, [], ◌∷◌, Text, text_eq, codes, length, replicate,
  if◌then◌else◌, arith,
}
use aimless.Sync.{Outcome, opened}
use aimless.Protocol.Hex.{to_hex}
use aimless.Protocol.Crypto.{str, num, nested, Fields, dict, get, tidy_value}
use aimless.Protocol.Envelope.{Message, seal_message, open_message, open_file_chunk}
use aimless.Protocol.Envelope.Open
use aimless.Protocol.Envelope.Signed
use aimless.Protocol.Envelope.Signed.{IsAuthentic}
use aimless.Protocol.Files.{
  make_chunk, build_file_payload, parse_file_payload, reassemble_file, chunk_at, pieces,
}
use aimless.Protocol.Files.Pieces
use aimless.Protocol.Files.Header
use aimless.Keys.{yggdrasil_address, fill}
use aimless.Keys.Address
use aimless.Keys.Address.{leading_ones, inverted_bits, behind_zero, pack}
use aimless.Tests.Codec.{plain_crypto}

abbrev bob : Text
bob = to_hex (plain_crypto.verify_key 2)

abbrev sealed_hello : Outcome Text
sealed_hello =
    seal_message plain_crypto [] 1 bob (codes "hi") 100 (some (codes "al")) (some (codes "c3"))
      (some (codes "m"))

abbrev hello : Message Text
hello = record {
  from = to_hex (plain_crypto.verify_key 1);
  text = str (codes "hi");
  ts = num 100;
  screen = some (str (codes "al"));
  conv = some (str (codes "c3"));
  members = some (nested (codes "m"));
}

open_message-seal_message_example :
    (payload : Text) × (sealed_hello ≡ opened payload)
    × (open_message plain_crypto 2 payload ≡ opened hello)
open_message-seal_message_example =
    Open.open_message-seal_message plain_crypto 2 refl [] 1 (codes "hi") 100 (some (codes "al"))
      (some (codes "c3")) (some (codes "m"))

open_message-IsAuthentic_example :
    (f : Fields Text) × IsAuthentic plain_crypto hello.from (dict f)
    × (get (codes "text") f ≡ some hello.text)
    × (get (codes "ts") f ≡ some hello.ts)
    × (get (codes "screen") f ≡ hello.screen)
    × (get (codes "conv") f ≡ hello.conv)
    × (get (codes "members") f ≡ hello.members)
open_message-IsAuthentic_example =
    Signed.open_message-IsAuthentic plain_crypto 2 open_message-seal_message_example.0
      open_message-seal_message_example.2

-- Five bytes in pieces of two, which come in another order.
abbrev five : List ℕ
five = 1 ∷ 2 ∷ 3 ∷ 4 ∷ 5 ∷ []

abbrev shuffled : List (ℕ × List ℕ)
shuffled = (2, 5 ∷ []) ∷ (0, 1 ∷ 2 ∷ []) ∷ (1, 3 ∷ 4 ∷ []) ∷ []

shuffled-Holds : Pieces.Holds shuffled 0 (pieces 2 five)
unfolding pieces chunk_at
shuffled-Holds zero b e = e
shuffled-Holds (suc zero) b e = e
shuffled-Holds (suc (suc zero)) b e = e
shuffled-Holds (suc (suc (suc k))) b e = cc

reassemble_file-pieces_example : reassemble_file shuffled (length (pieces 2 five)) ≡ some five
reassemble_file-pieces_example =
    Pieces.reassemble_file-pieces 2 five shuffled (omega arith) (unfold pieces in refl)
      shuffled-Holds

abbrev tid : List ℕ
tid = replicate 16 9

abbrev chunk : Fields Text
chunk =
    make_chunk (to_hex tid) 3 640 (codes "a.png") (codes "image") (codes "00") 9 (codes "AA==") none

parse_file_payload-build_file_payload_example :
    (payload : Text) × (sealed : List ℕ) × (opened_chunk : Fields Text) × (build_file_payload
        plain_crypto [] 1 bob chunk
      ≡ opened payload)
    × (parse_file_payload plain_crypto payload
        ≡ opened (record { tid = tid; index = 3; total = 640; sealed = sealed }))
    × (open_file_chunk plain_crypto 2 sealed ≡ opened opened_chunk)
    × ((key : Text)
        → get key opened_chunk ≡ (
            if text_eq (codes "from") key
            then some (str (to_hex (plain_crypto.verify_key 1)))
            else Option.map (tidy_value (λ j. j)) (get key chunk)))
parse_file_payload-build_file_payload_example =
    Header.parse_file_payload-build_file_payload plain_crypto 2 refl [] 1 tid 3 640 (codes "a.png")
      (codes "image") (codes "00") 9 (codes "AA==") none (omega arith) refl (omega arith)
      (omega arith)

abbrev key : List ℕ
key = 0 ∷ 15 ∷ replicate 30 200

yggdrasil_address_example :
    yggdrasil_address key
    ≡ some (
        2
        ∷ leading_ones (inverted_bits key) % 256
        ∷ fill 14 (pack (behind_zero (inverted_bits key))))
yggdrasil_address_example = Address.yggdrasil_address_lem key (omega arith) refl

room_id-perm_example :
    room_id (λ t. t) (λ b. b) (codes "b2" ∷ codes "a1" ∷ [])
    ≡ room_id (λ t. t) (λ b. b) (codes "a1" ∷ codes "b2" ∷ [])
room_id-perm_example = RoomId.room_id-perm (λ t. t) (λ b. b) (Permᴰ.swap refl refl)
