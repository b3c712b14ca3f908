-- ===== src/Tests/Gtk.antt =====
-- The theorems about client/aimless/gtkui.py at a concrete view, message and file.
use aimless.Prelude.{
  ℕ, refl, any, ◌≡◌, ◌≤◌, true, false, not, ◌&&◌, none, some, List, [], ◌∷◌, Text, chunk_eq, select,
  codes, length, all, ◌==◌, replicate, text_key, text_eq, ◌||◌, if◌then◌else◌, ltb, arith,
}
use aimless.Store.Rows.{empty_store}
use aimless.Sync.{opened, refused, raised}
use aimless.Protocol.Hex.{to_hex}
use aimless.Protocol.Files.{make_chunk, build_file_payload}
use aimless.Contacts.{BookEntry}
use aimless.Gtk.{Thread, View, Letter, Request, Gui}
use mathlib.Core.Option
use aimless.Prelude.Table
use aimless.Store.Conversations.{is_muted, is_conversation_muted}
use aimless.Store.Messages.{add_sent}
use aimless.Gtk.Requests.{accept_request, block_request}
use aimless.Gtk.Requests.Answers
use aimless.Gtk.Requests.Answers.{IsAccepted, IsRefused}
use aimless.Gtk.Actions.{block_node, Sending, Outgoing, send_done}
use aimless.Gtk.Actions.Blocked
use aimless.Gtk.Actions.Preview
use aimless.Gtk.Deliveries.{Tracker, note_acked}
use aimless.Gtk.Deliveries.Early
use aimless.Gtk.Deliveries.Early.{AwaitsOnly, sent_keys, note_all}
use aimless.Gtk.Attachments.{is_allowed, sanitize_filename}
use aimless.Gtk.Attachments.Names
use aimless.Gtk.Attachments.Names.{begins_well}
use aimless.Gtk.Sidebar.{is_contact}
use aimless.Gtk.Transfers.{Arrival}
use aimless.Gtk.Transfers.Files
use aimless.Gtk.Incoming.{incoming_letter, incoming_muted}
use aimless.Gtk.Incoming.Quiet
use aimless.Tests.{plain_box, alice}
use aimless.Tests.Codec.{plain_crypto}

abbrev hello : Letter
hello = record {
  from = codes "aa";
  screen = some (codes "al");
  conv = none;
  members = [];
  ts = 100;
  text = codes "hi";
}

-- Every message opens to the same one, and the hash of a file is its contents.
abbrev gui : Gui ℕ Text Text
gui = record {
  crypto = plain_crypto;
  identity = 2;
  box = plain_box;
  open_message = λ p. opened hello;
  attachment = λ path filename mime_hint size. path;
  roster = λ ms. [];
  request = λ node seq letter. node;
  read_request = λ j. record {
    node = alice;
    pubkey = some (codes "aa");
    screen = none;
    conv = none;
    members = [];
    seq = 7;
    ts = 100;
    text = codes "hi";
  };
  members_of = λ j. [];
  sha256 = λ b. b;
  attachments_dir = codes "/home/me/attachments";
  self_node = codes "b2";
}

abbrev buddy : BookEntry
buddy = record { pubkey = some (codes "aa"); node = some alice; screen = some (codes "al") }

abbrev view : View Text
view = record {
  store = empty_store;
  contacts = (codes "al", buddy) ∷ [];
  threads = [];
  selected = none;
  file_bufs = [];
  files = [];
  bubbles = [];
  acks = [];
  block_calls = [];
  surfaced = 0;
  active = false;
  messages_page = true;
  prefs = record { notifications = true; notification_sound = codes "single" };
  alerts = record { last_sound = 0; notices = []; commands = [] };
}

abbrev arrival : Arrival
arrival = record { node = alice; seq = 7; ts = 100; fresh = λ i. []; env = none; now = 5000 }

-- A file of one chunk.
abbrev payload : Text
payload =
    elim (build_file_payload plain_crypto [] 1 (to_hex (plain_crypto.verify_key 2)) (
      make_chunk (to_hex (replicate 16 1)) 0 1 (codes "a.txt") (codes "application") (codes "hello")
        5 (codes "hello") none)) [ opened t ↦ t | refused ↦ [] | raised ↦ [] ]

sanitize_filename-IsSafe_example :
    let clean = sanitize_filename (codes "../../.bashrc") in
    (all (λ c. is_allowed c && not (c == b'/')) clean ≡ true)
    × (begins_well clean ≡ true)
    × (length clean ≤ 64)
sanitize_filename-IsSafe_example = Names.sanitize_filename-IsSafe (codes "../../.bashrc")

abbrev own : BookEntry
own = record { pubkey = some (codes "bb"); node = none; screen = some (codes "me") }

abbrev room_thread : Thread
room_thread = record {
  conv = codes "c3";
  is_room = true;
  petname = none;
  contact = none;
  members = [];
  screen = codes "room";
  preview = [];
  unread = 0;
}

-- The view with an open room, and the user's own entry in the contacts.
abbrev in_room : View Text
in_room = record view {
  contacts = (codes "_self", own) ∷ view.contacts;
  threads = room_thread ∷ [];
  selected = some (codes "c3");
}

abbrev stranger : Request
stranger = gui.read_request []

answers_example :
    IsAccepted gui (λ i. []) stranger in_room (accept_request gui (λ i. []) stranger in_room)
    × IsRefused gui stranger in_room (block_request gui (λ i. []) stranger in_room)
unfolding Table.has text_eq
answers_example = Answers.answers_lem gui (λ i. []) stranger in_room refl

block_node_silent_example :
    let w = block_node gui [] alice (codes "al") view in
    (is_contact w.contacts alice ≡ false)
    × (is_muted w.store alice ≡ true)
    × (Table.has Thread.conv alice w.threads ≡ false)
    × (incoming_letter gui arrival hello w ≡ (
        if is_conversation_muted view.store alice
        then incoming_muted gui arrival alice hello w
        else w))
block_node_silent_example =
    Blocked.block_node_silent gui [] alice (codes "al") view arrival hello refl refl

abbrev out : Outgoing gui
out = record { conv = alice; text = codes "hi"; ts = 200 }

abbrev sending : Sending gui
sending = record { view = in_room; composer = []; send_in_flight = true }

send_done_other_example :
    let (later, result) = send_done gui (λ i. []) out ((alice, 4) ∷ []) sending in
    (result ≡ some tt)
    × (later.send_in_flight ≡ false)
    × (later.view.store
        ≡ (add_sent plain_box
            (λ i. [])
            alice
            ((alice, 4) ∷ [])
            200
            (some (codes "hi"))
            none
            none
            empty_store).0)
    × (Table.find Thread.conv (codes "c3") later.view.threads
        ≡ Option.map {A = Thread}
            (λ t. record t { preview = codes "hi" })
            (Table.find Thread.conv (codes "c3") in_room.threads))
    × (Table.find Thread.conv alice later.view.threads
        ≡ Table.find Thread.conv alice in_room.threads)
unfolding text_eq
send_done_other_example =
    Preview.send_done_other gui (λ i. []) out ((alice, 4) ∷ []) sending (codes "c3") refl refl

abbrev no_rows : Tracker
no_rows = record {
  store = empty_store;
  acked_seen = [];
  pending_files = [];
  recs = [];
  bubble_status = [];
}

-- A file of two chunks to Alice, the first of which is acked before it is registered.
abbrev two_keys : List (Text × ℕ)
two_keys = (alice, 5) ∷ (alice, 6) ∷ []

early_acks_example :
    let known = λ (k : Text × ℕ). any (chunk_eq k) [] || any (chunk_eq k) ((alice, 5) ∷ []) in
    let u = note_all ((alice, 5) ∷ []) no_rows in
    AwaitsOnly (codes "a.txt") two_keys u (select (λ k. not (known k)) (sent_keys two_keys))
    × AwaitsOnly (codes "a.txt") two_keys (note_acked alice 6 u).0 (
        if known (alice, 6) || ltb (length u.acked_seen) 4096
        then select (λ k. not (known k || chunk_eq k (alice, 6))) (sent_keys two_keys)
        else sent_keys two_keys)
early_acks_example =
    Early.early_acks (codes "a.txt") two_keys ((alice, 5) ∷ []) (alice, 6) no_rows (omega arith)
