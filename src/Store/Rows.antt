-- ===== src/Store/Rows.antt =====
-- The schema of client/aimless/store.py, and what the store takes from pynacl and `json`.
use aimless.Prelude.{ℕ, ◌≡◌, Bool, Option, some, List, [], Text}

abbrev pub Bytes : Type 0
Bytes = List ℕ

pub record Conversation : Type 0 where
  pub id : Text
  pub dm : Bool
  pub members : Option Bytes
  pub muted : Bool
  pub hidden : Bool

pub data Dir : Type 0 where
  inbound outbound : Dir

pub record Message : Type 0 where
  pub id : Text
  pub conv : Text
  pub sender : Text
  pub dir : Dir
  pub ts : ℕ
  pub seq : ℕ
  pub seqs : List (Text × ℕ)
  pub text : Option Bytes
  pub attachment : Option Bytes

pub record Watermark : Type 0 where
  pub peer : Text
  pub seq : ℕ

pub record ReadMark : Type 0 where
  pub conv : Text
  pub upto_ts : ℕ

-- The key of `pending` is a TEXT PRIMARY KEY, which SQLite lets be NULL.
pub record PendingRow : Type 0 where
  pub node : Option Text
  pub payload : Bytes

pub record BlockedScreen : Type 0 where
  pub node : Text
  pub screen : Option Bytes

pub record Delivery : Type 0 where
  pub node : Text
  pub seq : ℕ
  pub msg_id : Text
  pub acked : Bool

-- PRIMARY KEY (node, seq)
abbrev pub chunk : Delivery → Text × ℕ
chunk d = (d.node, d.seq)

pub record Store : Type 0 where
  pub conversations : List Conversation
  pub messages : List Message
  pub watermark : List Watermark
  pub read_marks : List ReadMark
  pub pending : List PendingRow
  pub blocked_screens : List BlockedScreen
  pub muted_nodes : List Text
  pub deliveries : List Delivery

abbrev pub empty_store : Store
empty_store = record {
  conversations = [];
  messages = [];
  watermark = [];
  read_marks = [];
  pending = [];
  blocked_screens = [];
  muted_nodes = [];
  deliveries = [];
}

-- The nonces that `SecretBox.encrypt` draws within one call, in order.
abbrev pub Nonces : Type 0
Nonces = ℕ → Bytes

-- `SecretBox` with `str.encode` and `json`: texts and JSON values are sealed into blobs, and what
-- was sealed opens to what it was. `J` is the type of the JSON values that `json.dumps` accepts.
pub record Box (J : Type 0) : Type 0 where
  pub seal_text : Bytes → Text → Bytes
  pub open_text : Bytes → Option Text
  pub open-seal_text : (n : Bytes) (t : Text) → open_text (seal_text n t) ≡ some t
  pub seal_json : Bytes → J → Bytes
  pub open_json : Bytes → Option J
  pub open-seal_json : (n : Bytes) (j : J) → open_json (seal_json n j) ≡ some j
  -- `{}`, the test `if value`, and `value.get("node")`
  pub empty_object : J
  pub truthy : J → Bool
  pub get_node : J → Option Text
