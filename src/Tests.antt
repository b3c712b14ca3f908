-- ===== src/Tests.antt =====
-- Concrete states and replies, and the main theorems on Store, Sync, Base58 and invites at them.
mod Codec
mod Protocol
mod Daemon
mod Tunnel
mod Gtk
mod Contacts
use aimless.Prelude.{
  ℕ, ◌+◌, ◌≡◌, ◌≢◌, ◌↔◌, refl, true, false, not, ◌&&◌, none, some, List, [], ◌∷◌, ◌++◌, Text,
  text_key, chunk_key, text_eq, chunk_eq, select, codes, ltb, max, replicate, if◌then◌else◌, arith,
  any, length, ◌==◌,
}
use aimless.Prelude.Table
use aimless.Prelude.Table.{Distinct}
use aimless.Prelude.Digits.{digits}
use aimless.Store.Rows.{Delivery, chunk, Store, empty_store, Nonces, Box}
use aimless.Store.Conversations.{cursor, set_cursor, clear_history, delete_room}
use aimless.Store.Messages.{
  ingest, add_sent, add_deliveries, out_id, unread, read_upto, mark_read, exists_pending,
  add_pending, pending, pending_pop,
}
use aimless.Store.Deliveries.{
  message_rows, is_delivered, delivery_progress, undelivered, mark_delivered, delivery_members,
  delivery_summary, summary_key, is_nonempty, rows_of,
}
use aimless.Store.Deliveries.Progress
use aimless.Store.Deliveries.Summary
use aimless.Store.Cursor
use aimless.Store.Cursor.{latest_for}
use aimless.Store.Ids
use aimless.Store.Ingest
use aimless.Store.Reading
use aimless.Store.Pending
use aimless.Store.Pending.{IsQueue, waiting, snoc}
use aimless.Store.Valid.{IsValid, Step, start, next}
use aimless.Store.Valid.Steps
use aimless.Sync.{Setting, Opened, Entry, Outcome, opened, refused, raised, apply}
use aimless.Sync.Watermark
use aimless.Sync.Watermark.{top_seq, IsCalm}
use aimless.Sync.Replay
use aimless.Base58.{b58encode, b58decode}
use aimless.Base58.RoundTrip
use aimless.Base58.RoundTrip.{IsBytes}
use aimless.Protocol.Hex.{to_hex}
use aimless.Protocol.Invite
use aimless.Protocol.Invite.{make_invite, parse_invite, Result, ok, err, bad_fields, is_space}
use mathlib.Core.Option

-- A box that seals nothing: the blob is the text.
abbrev plain_box : Box Text
plain_box = record {
  seal_text = λ n t. t;
  open_text = λ b. some b;
  open-seal_text = λ n t. refl;
  seal_json = λ n j. j;
  open_json = λ b. some b;
  open-seal_json = λ n j. refl;
  empty_object = [];
  truthy = λ j. true;
  get_node = λ j. some j;
}

abbrev alice : Text
alice = codes "a1"

abbrev bob : Text
bob = codes "b2"

abbrev room : Text
room = codes "c3"

abbrev no_nonces : Nonces
no_nonces i = []

-- Alice's message number 7, and the chunks 1 and 2 of a file to Bob.
abbrev one_message : Store
one_message = (ingest plain_box no_nonces alice alice 7 100 (some (codes "hi")) none empty_store).0

abbrev two_chunks : Store
two_chunks =
    (add_sent plain_box no_nonces bob ((bob, 2) ∷ []) 200 none none
      (some ((bob, 1) ∷ (bob, 2) ∷ (bob, 0) ∷ [])) empty_store).0

abbrev sent_id : Text
sent_id = out_id ((bob, 2) ∷ [])

abbrev points : List (Text × ℕ)
points = (alice, 7) ∷ (bob, 0) ∷ (alice, 3) ∷ []

ingest_idempotent_example :
    ingest plain_box no_nonces alice alice 7 999 none none one_message ≡ (one_message, false)
ingest_idempotent_example =
    Ingest.ingest_idempotent plain_box alice alice 7 no_nonces no_nonces 100 999 (some (codes "hi"))
      none none none empty_store

unread-ingest_example :
    unread one_message alice
    ≡ unread empty_store alice
      + (if (ingest plain_box no_nonces alice alice 7 100 (some (codes "hi")) none empty_store).1
            && (text_eq alice alice && ltb (read_upto empty_store alice) 100)
          then 1
          else 0)
unread-ingest_example =
    Ingest.unread-ingest plain_box alice alice 7 no_nonces 100 (some (codes "hi")) none empty_store
      alice

Reach-IsValid_example : IsValid two_chunks
Reach-IsValid_example = Steps.Reach-IsValid plain_box (
    next start (
      Step.add_sent no_nonces bob ((bob, 2) ∷ []) 200 none none
        (some ((bob, 1) ∷ (bob, 2) ∷ (bob, 0) ∷ []))))

is_delivered_iff_example :
    ((is_delivered two_chunks sent_id ≡ some true)
      ↔ (((delivery_progress two_chunks sent_id).0 ≢ 0) × (undelivered two_chunks sent_id ≡ [])))
    × ((is_delivered two_chunks sent_id ≡ none) ↔ ((delivery_progress two_chunks sent_id).0 ≡ 0))
is_delivered_iff_example = Progress.is_delivered_iff two_chunks sent_id

abbrev second_chunk : Delivery
second_chunk = record { node = bob; seq = 2; msg_id = sent_id; acked = false }

second_chunk_found : Table.find chunk (bob, 2) two_chunks.deliveries ≡ some second_chunk
unfolding add_sent add_deliveries Table.insert_or_ignore Table.find out_id digits select chunk_eq
    text_eq
second_chunk_found = refl

progress-mark_delivered_example :
    ((mark_delivered bob 2 two_chunks).1 ≡ some second_chunk.msg_id)
    × ((delivery_progress (mark_delivered bob 2 two_chunks).0 sent_id).0
        ≡ (delivery_progress two_chunks sent_id).0)
    × ((delivery_progress (mark_delivered bob 2 two_chunks).0 sent_id).1
        ≡ (delivery_progress two_chunks sent_id).1
          + (if text_eq second_chunk.msg_id sent_id && not second_chunk.acked then 1 else 0))
progress-mark_delivered_example =
    Progress.progress-mark_delivered two_chunks bob 2 sent_id second_chunk
      Reach-IsValid_example.deliveries second_chunk_found

delivery_summary_example :
    Table.find summary_key sent_id (delivery_summary two_chunks (sent_id ∷ [])) ≡ (
      if is_nonempty sent_id
        && (any (text_eq sent_id) (sent_id ∷ [])
            && not (length (rows_of sent_id two_chunks.deliveries) == 0))
      then some (sent_id, delivery_members two_chunks sent_id)
      else none)
delivery_summary_example = Summary.delivery_summary_lem two_chunks (sent_id ∷ []) sent_id

pending_pop_null_example :
    pending_pop plain_box (record empty_store { pending = waiting none bob ∷ [] })
    ≡ (record empty_store { pending = waiting none bob ∷ [] }, some bob)
pending_pop_null_example = Pending.pending_pop_null plain_box empty_store bob []

-- A payload is its own outcome, and a member is its node.
abbrev setting : Setting Text (Outcome (Opened Text)) Text
setting = record { box = plain_box; open_message = λ p. p; node = λ m. some m; object = λ d. [] }

abbrev hello : Opened Text
hello = record { conv = some room; members = alice ∷ bob ∷ []; ts = 100; text = some (codes "hi") }

abbrev reply : List (Entry (Outcome (Opened Text)))
reply =
    record { seq = 3; payload = some (opened hello) }
    ∷ record { seq = 4; payload = none }
    ∷ record { seq = 9; payload = some refused }
    ∷ []

reply-IsCalm : IsCalm setting reply
reply-IsCalm = (((alice, refl), ((bob, refl), tt)), (tt, (tt, tt)))

cursor-apply_example :
    ((n : ℕ) × ((apply setting (λ i. no_nonces) alice reply empty_store).1 ≡ some n))
    × (cursor (apply setting (λ i. no_nonces) alice reply empty_store).0 alice ≡ (
        if text_eq alice alice
        then max (cursor empty_store alice) (top_seq reply)
        else cursor empty_store alice))
cursor-apply_example =
    Watermark.cursor-apply setting alice (λ i. no_nonces) reply empty_store alice reply-IsCalm

abbrev poison : Entry (Outcome (Opened Text))
poison = record { seq = 12; payload = some raised }

apply_raised_example :
    ((apply setting (λ i. no_nonces) alice (reply ++ poison ∷ []) empty_store).1 ≡ none)
    × ((q : Text)
        → cursor (apply setting (λ i. no_nonces) alice (reply ++ poison ∷ []) empty_store).0 q
          ≡ cursor empty_store q)
apply_raised_example =
    Watermark.apply_raised setting alice (λ i. no_nonces) reply poison [] empty_store reply-IsCalm
      refl

abbrev applied : Store
applied = (apply setting (λ i. no_nonces) alice reply empty_store).0

apply_again_example :
    ((apply setting (λ i. no_nonces) alice reply applied).1 ≡ some 0)
    × ((apply setting (λ i. no_nonces) alice reply applied).0.messages ≡ applied.messages)
    × ((q : Text)
        → cursor (apply setting (λ i. no_nonces) alice reply applied).0 q ≡ cursor applied q)
apply_again_example =
    Replay.apply_again setting alice (λ i. no_nonces) (λ i. no_nonces) reply empty_store
      reply-IsCalm

b58decode-b58encode_example : b58decode (b58encode (0 ∷ 0 ∷ 255 ∷ [])) ≡ some (0 ∷ 0 ∷ 255 ∷ [])
b58decode-b58encode_example = RoundTrip.b58decode-b58encode (0 ∷ 0 ∷ 255 ∷ []) (omega arith)

abbrev client_key : List ℕ
client_key = replicate 31 0 ++ 7 ∷ []

abbrev node_key : List ℕ
node_key = replicate 31 0 ++ 255 ∷ []

parse_invite-make_invite_example :
    Option.map parse_invite (make_invite client_key (to_hex node_key) (codes "alice"))
    ≡ some (ok (to_hex client_key, to_hex node_key, codes "alice"))
parse_invite-make_invite_example =
    Invite.RoundTrip.parse_invite-make_invite client_key node_key (codes "alic") b'e' (omega arith)
      refl (omega arith) refl (omega arith) (unfold is_space in refl)

parse_invite_colon_example :
    Option.map parse_invite (make_invite client_key (to_hex node_key) (codes "al:ice"))
    ≡ some (err bad_fields)
parse_invite_colon_example =
    Invite.RoundTrip.parse_invite_colon client_key node_key (codes "al") (codes "ic") b'e'
      (omega arith) (omega arith) (unfold is_space in refl)
