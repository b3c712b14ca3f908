-- ===== src/Gtk.antt =====
-- client/aimless/gtkui.py: the state of its views, and what it takes from the other modules.
--
-- A widget is what it shows: a label is its text, and the list of bubbles grows at its end. The
-- dictionary `threads` is the list of its values, with `conv` for the key.
pub mod Alerts
pub mod Attachments
pub mod Transfers
pub mod Incoming
pub mod Requests
pub mod Actions
pub mod Deliveries
pub mod Sidebar
use aimless.Prelude.{ℕ, Bool, Option, List, Text}
use aimless.Store.Rows.{Bytes, Store, Box}
use aimless.Sync.{Outcome}
use aimless.Contacts.{Book, BookEntry}
use aimless.Protocol.Crypto.{Crypto, Fields}
use aimless.Gtk.Alerts.{Prefs, AlertState}

-- A member of a room.
pub record RoomMember : Type 0 where
  pub node : Text
  pub pubkey : Text
  pub screen : Text

pub record Thread : Type 0 where
  pub conv : Text
  pub is_room : Bool
  pub petname : Option Text
  pub contact : Option BookEntry
  pub members : List RoomMember
  pub screen : Text
  pub preview : Text
  pub unread : ℕ

pub record Bubble : Type 0 where
  pub text : Text
  pub ts : ℕ
  pub sender : Option Text
  pub path : Option Text

-- A buffer of `_file_bufs`: `row` is the label of its status row, if it has one.
pub record Buffer (N : Type 0) : Type 0 where
  pub key : Text × Text
  pub total : ℕ
  pub meta : Fields N
  pub chunks : List (ℕ × Bytes)
  pub row : Option Text
  pub failed : Bool

-- The messages view with what it changes of the session and of the system. `selected` is the key of
-- the selected thread, `files` what was written, `acks` the calls of `ack_attachment`,
-- `block_calls` the calls of `daemon_block_set`, and `surfaced`
-- counts the calls of `surface_pending_requests`.
pub record View (N : Type 0) : Type 0 where
  pub store : Store
  pub contacts : Book
  pub threads : List Thread
  pub selected : Option Text
  pub file_bufs : List (Buffer N)
  pub files : List (Text × Bytes)
  pub bubbles : List Bubble
  pub acks : List (Text × Text)
  pub block_calls : List (Text × Bool)
  pub surfaced : ℕ
  pub active : Bool
  pub messages_page : Bool
  pub prefs : Prefs
  pub alerts : AlertState

-- What `open_message` returns of a message: a missing `members` is the empty list.
pub record Letter : Type 0 where
  pub from : Text
  pub screen : Option Text
  pub conv : Option Text
  pub members : List RoomMember
  pub ts : ℕ
  pub text : Text

-- A pending request, as `add_pending` keeps it.
pub record Request : Type 0 where
  pub node : Text
  pub pubkey : Option Text
  pub screen : Option Text
  pub conv : Option Text
  pub members : List RoomMember
  pub seq : ℕ
  pub ts : ℕ
  pub text : Text

-- What the views take from elsewhere: pynacl and the client's identity, the store's box,
-- `protocol.open_message` at the identity, the JSON objects of an attachment (path, filename,
-- mime_hint, size), of the members of a room and of a pending request, what such an object holds, `hashlib.sha256(…).hexdigest()`, and `attachments_dir()`.
pub record Gui (Key N J : Type 0) : Type 0 where
  pub crypto : Crypto Key N
  pub identity : Key
  pub box : Box J
  pub open_message : Text → Outcome Letter
  pub attachment : Text → Text → Text → ℕ → J
  pub roster : List RoomMember → J
  pub request : Text → ℕ → Letter → J
  pub read_request : J → Request
  pub members_of : J → List RoomMember
  pub sha256 : Bytes → Text
  pub attachments_dir : Text
  pub self_node : Text
