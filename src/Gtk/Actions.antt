-- ===== src/Gtk/Actions.antt =====
-- client/aimless/gtkui.py: what the user does with a conversation, up to widgets and log lines.
--
-- A handler that asks the daemon in another thread is two functions: the request, made of the view
-- when the handler starts, and what is done with the answer, on the view of that moment.
pub mod Blocked
pub mod Preview
use aimless.Prelude.{
  ℕ, Bool, true, false, not, ◌&&◌, ◌||◌, Option, none, some, List, [], ◌∷◌, ◌++◌, map, Text,
  text_eq, text_key, ltb, select, if◌then◌else◌,
}
use aimless.Prelude.Table
use aimless.Prelude.Sort.{text_le, sort_by}
use aimless.Store.Rows.{Bytes, Store, Nonces}
use aimless.Store.Conversations.{
  set_cursor, delete_room, advance_cursors, clear_history, is_conversation_muted, mute_conversation,
  unmute_conversation, mute, ensure_room,
}
use aimless.Store.Messages.{add_sent, set_blocked_screen}
use aimless.Protocol.Invite.{strip}
use aimless.Contacts.{Book, BookEntry, petname, self_name, is_some_text}
use aimless.Gtk.{Thread, RoomMember, Bubble, View, Gui}
use aimless.Gtk.Transfers.{is_selected}
use aimless.Gtk.Sidebar.{sync_sidebar, or_text}
use aimless.Gtk.Requests.{daemon_block_set}

-- The selected thread
unfoldable pub selected_thread : {N : Type 0} → View N → Option Thread
selected_thread v = elim v.selected [
  | none ↦ none
  | some conv ↦ Table.find Thread.conv conv v.threads
]

-- `self.threads.pop(conv, None)`, with the selection if it is that thread
unfoldable pub drop_thread : {N : Type 0} → Text → View N → View N
drop_thread conv v = record v {
  threads = Table.delete Thread.conv conv v.threads;
  selected = if is_selected v conv then none else v.selected;
}

-- The nodes of the members other than the user, sorted
abbrev pub other_nodes : Text → Thread → List Text
other_nodes self_node thread =
    sort_by text_le (
      map RoomMember.node
        (select (λ m. not (text_eq (RoomMember.node m) self_node)) thread.members))

-- The conversation and the nodes whose streams `on_delete_room` asks for; `none` where it returns
unfoldable pub delete_room_request : {N : Type 0} → Text → Bool → View N → Option (Text × List Text)
unfolding selected_thread
delete_room_request self_node confirmed v = elim (selected_thread v) [
  | none ↦ none
  | some thread ↦
      if thread.is_room && confirmed then some (thread.conv, other_nodes self_node thread) else none
]

-- `done` of `on_delete_room`
unfoldable pub delete_room_done : {N : Type 0} → Text → List (Text × ℕ) → View N → View N
unfolding delete_room drop_thread
delete_room_done conv latests v =
    drop_thread conv (record v { store = delete_room conv latests v.store })

-- The conversation and the nodes of `on_clear_history`
unfoldable pub clear_history_request :
    {N : Type 0} → Text → Bool → View N → Option (Text × List Text)
unfolding selected_thread
clear_history_request self_node confirmed v = elim (selected_thread v) [
  | none ↦ none
  | some thread ↦
      if confirmed
      then some
          (thread.conv, if thread.is_room then other_nodes self_node thread else thread.conv ∷ [])
      else none
]

-- `done` of `on_clear_history`
unfoldable pub clear_history_done : {N : Type 0} → Text → List (Text × ℕ) → View N → View N
unfolding clear_history advance_cursors
clear_history_done conv latests v = record v {
  store = advance_cursors latests (clear_history conv v.store);
  threads = Table.update Thread.conv conv (λ t. record t { preview = [] }) v.threads;
  bubbles = if is_selected v conv then [] else v.bubbles;
}

-- The contacts without those at a node, of `on_block`
unfoldable pub without_node : Text → Book → Book
without_node node book =
    select
      (λ e. not (not (text_eq (petname e) self_name) && is_some_text (BookEntry.node e.1) node))
      book

-- The loop of `create_room` over the chosen buddies, with the members so far. A buddy without a node
-- or a key, which the program never writes, counts as one with an empty text.
unfoldable pub room_members_of : List RoomMember → List (Text × BookEntry) → List RoomMember
room_members_of members [] = members
room_members_of members ((_, info) ∷ chosen) =
    let member : RoomMember = record {
      node = or_text info.node [];
      pubkey = or_text info.pubkey [];
      screen = or_text info.screen [];
    } in
    room_members_of (Table.upsert RoomMember.node member (λ _. member) members) chosen

module _ {Key N J : Type 0} (setting : Gui Key N J) where
  open setting use {box, roster, self_node}

  -- `on_toggle_mute`
  unfoldable pub on_toggle_mute : Bytes → View N → View N
  unfolding selected_thread
  on_toggle_mute nonce v = elim (selected_thread v) [
    | none ↦ v
    | some thread ↦ record v {
      store =
          if is_conversation_muted v.store thread.conv
          then unmute_conversation thread.conv v.store
          else mute_conversation box nonce thread.conv v.store;
    }
  ]

  -- `on_block` of a conversation with one node, after the confirmation
  unfoldable pub block_node : Bytes → Text → Text → View N → View N
  unfolding mute set_blocked_screen without_node drop_thread
  block_node nonce node screen v = daemon_block_set node true (
      drop_thread node (record v {
        store = set_blocked_screen box nonce node (some screen) (mute node v.store);
        contacts = without_node node v.contacts;
      }))

  -- `on_block`
  unfoldable pub on_block : Bytes → Bool → View N → View N
  unfolding selected_thread block_node
  on_block nonce confirmed v = elim (selected_thread v) [
    | none ↦ v
    | some thread ↦
        if thread.is_room || not confirmed then v else block_node nonce thread.conv thread.screen v
  ]

  -- `create_room`, up to the selection of its row; `room_id` makes the id of the members
  unfoldable pub create_room :
      (List Text → Text) → Bytes → RoomMember → List (Text × BookEntry) → View N → View N
  unfolding room_members_of sync_sidebar
  create_room room_id nonce me chosen v =
      let members = room_members_of (me ∷ []) chosen in
      let conv = room_id (sort_by text_le (map RoomMember.node members)) in
      sync_sidebar setting
        (record v { store = ensure_room box nonce conv (roster members) v.store })

  -- The composer with `_send_in_flight`.
  pub record Sending : Type 0 where
    pub view : View N
    pub composer : Text
    pub send_in_flight : Bool

  -- What `send_message` hands to its worker: the conversation, the text and the time.
  pub record Outgoing : Type 0 where
    pub conv : Text
    pub text : Text
    pub ts : ℕ

  -- `send_message`, up to its worker, which is `send_room` or `send` of the client
  unfoldable pub send_message : ℕ → Sending → Sending × Option Outgoing
  unfolding selected_thread strip
  send_message ts s = elim (selected_thread s.view) [
    | none ↦ (s, none)
    | some thread ↦
        let text = strip s.composer in
        if text_eq text [] || s.send_in_flight then (s, none) else (
          record s { composer = []; send_in_flight = true },
          some (record { conv = thread.conv; text = text; ts = ts }),
        )
  ]

  -- `_append_outgoing`, with the file that goes along, if any
  unfoldable pub append_outgoing :
      Nonces
      → Text
      → List (Text × ℕ)
      → ℕ
      → Text
      → Option (Text × J)
      → Option (List (Text × ℕ))
      → View N
      → View N
  unfolding add_sent
  append_outgoing fresh conv seqs ts text attachment delivery_keys v = record v {
    store =
        (add_sent box fresh conv seqs ts (some text)
          (elim attachment [ none ↦ none | some a ↦ some a.1 ]) delivery_keys v.store).0;
    bubbles =
        v.bubbles
        ++ (record {
          text = text;
          ts = ts;
          sender = none;
          path = elim attachment [ none ↦ none | some a ↦ some a.0 ];
        })
          ∷ [];
  }

  -- `done` of `send_message`, with the sequence numbers; `none` is the TypeError where no thread is
  -- selected, which comes after the message is stored.
  unfoldable pub send_done :
      Nonces → Outgoing → List (Text × ℕ) → Sending → Sending × Option (Unit {0})
  unfolding append_outgoing
  send_done fresh out seqs s =
      let v = append_outgoing fresh out.conv seqs out.ts out.text none none s.view in
      elim v.selected [
        | none ↦ (record s { view = v; send_in_flight = false }, none)
        | some conv ↦ (
          record s {
            view = record v {
              threads =
                  Table.update Thread.conv conv (λ t. record t { preview = out.text }) v.threads;
            };
            send_in_flight = false;
          },
          some tt,
        )
      ]

  -- `fail` of `send_message`
  unfoldable pub send_fail : Text → Sending → Sending
  send_fail note s = record s {
    view = record s.view {
      bubbles = s.view.bubbles ++ (record { text = note; ts = 0; sender = none; path = none }) ∷ [];
    };
    send_in_flight = false;
  }
