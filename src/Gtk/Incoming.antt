-- ===== src/Gtk/Incoming.antt =====
-- client/aimless/gtkui.py: the messages that arrive while the application runs.
pub mod Quiet
use aimless.Prelude.{
  ℕ, Bool, true, false, not, ◌&&◌, ◌||◌, Option, none, some, List, [], ◌∷◌, ◌++◌, Text, text_key,
  take, if◌then◌else◌, ◌+◌,
}
use aimless.Prelude.Table
use aimless.Store.Conversations.{is_conversation_muted, is_muted, ensure_room}
use aimless.Store.Messages.{ingest, add_pending}
use aimless.Sync.{Outcome, opened, refused, raised, conv_of}
use aimless.Gtk.{RoomMember, Thread, Bubble, View, Letter, Gui}
use aimless.Gtk.Alerts.{alert}
use aimless.Gtk.Sidebar.{is_contact, or_text, name_or, sync_sidebar}
use aimless.Gtk.Transfers.{Arrival, sender_label, is_selected, alert_state, show_in_thread}

-- The members by node: a later entry of a node takes the place of an earlier one.
unfoldable pub members_by_node : List RoomMember → List RoomMember → List RoomMember
members_by_node [] dict = dict
members_by_node (m ∷ ms) dict = members_by_node ms (Table.upsert RoomMember.node m (λ _. m) dict)

module _ {Key N J : Type 0} (setting : Gui Key N J) where
  open setting use {box, open_message, roster, request}

  -- The announcement of a room in `incoming`
  unfoldable pub note_room : Arrival → Text → Letter → View N → View N
  unfolding members_by_node
  note_room e conv letter v = record v {
    store = elim letter.conv [
      | none ↦ v.store
      | some [] ↦ v.store
      | some (_ ∷ _) ↦ elim letter.members [
        | [] ↦ v.store
        | m ∷ ms ↦ ensure_room box (e.fresh 3) conv (roster (members_by_node (m ∷ ms) [])) v.store
      ]
    ];
  }

  -- `add_recv`
  abbrev pub add_recv : Arrival → Text → Letter → View N → View N
  add_recv e conv letter v = record v {
    store = (ingest box e.fresh conv e.node e.seq letter.ts (some letter.text) none v.store).0;
  }

  abbrev pub bubble_of : Arrival → Text → Letter → View N → Bubble
  bubble_of e conv letter v = record {
    text = letter.text;
    ts = letter.ts;
    sender = sender_label (Table.find Thread.conv conv v.threads) e.node;
    path = none;
  }

  -- `incoming` in a muted conversation
  unfoldable pub incoming_muted : Arrival → Text → Letter → View N → View N
  unfolding ingest sender_label
  incoming_muted e conv letter v =
      let v1 = add_recv e conv letter v in
      record v1 {
        bubbles =
            if is_selected v conv && Table.has Thread.conv conv v.threads
            then v.bubbles ++ bubble_of e conv letter v ∷ []
            else v.bubbles;
      }

  -- `incoming` from a node that is no contact
  unfoldable pub incoming_stranger : Arrival → Text → Letter → View N → View N
  unfolding add_pending
  incoming_stranger e conv letter v = if is_muted v.store e.node then v else record v {
    store = add_pending box (e.fresh 4) (request e.node e.seq letter) v.store;
    surfaced = v.surfaced + 1;
  }

  -- The rest of `incoming`, for a conversation that has a thread
  unfoldable pub incoming_thread : Arrival → Text → Letter → View N → View N
  unfolding ingest show_in_thread sender_label alert_state alert
  incoming_thread e conv letter v =
      let v1 = add_recv e conv letter v in
      let v2 = show_in_thread conv letter.text (bubble_of e conv letter v1) v1 in
      record v2 {
        alerts =
            alert (alert_state v2 conv e.node) e.env e.now v2.prefs
              (name_or (or_text letter.screen []) (take 8 e.node)) letter.text v2.alerts;
      }

  -- `self.threads.get(conv)`, after another `sync_sidebar` if there is no such thread
  unfoldable pub want_thread : Text → View N → View N
  unfolding sync_sidebar
  want_thread conv v = if Table.has Thread.conv conv v.threads then v else sync_sidebar setting v

  -- `incoming` from a contact
  unfoldable pub incoming_contact : Arrival → Text → Letter → View N → View N
  unfolding want_thread incoming_thread
  incoming_contact e conv letter v =
      let v1 = want_thread conv v in
      if Table.has Thread.conv conv v1.threads then incoming_thread e conv letter v1 else v1

  -- `incoming` with an opened message, after the announcement of a room
  abbrev pub incoming_in : Arrival → Text → Letter → View N → View N
  incoming_in e conv letter v =
      if is_conversation_muted v.store conv
      then incoming_muted e conv letter v
      else if is_contact v.contacts e.node
      then incoming_contact e conv letter v
      else incoming_stranger e conv letter v

  -- `incoming` with an opened message
  unfoldable pub incoming_letter : Arrival → Letter → View N → View N
  unfolding note_room
  incoming_letter e letter v =
      let conv = conv_of letter.conv e.node in incoming_in e conv letter (note_room e conv letter v)

  -- `incoming` of a message; an exception other than a ValueError or a KeyError leaves the view as it
  -- was, and `drain_events` logs it.
  unfoldable pub incoming : Arrival → Text → View N → View N
  unfolding incoming_letter
  incoming e payload v = elim (open_message payload) [
    | opened letter ↦ incoming_letter e letter v
    | refused ↦ v
    | raised ↦ v
  ]
