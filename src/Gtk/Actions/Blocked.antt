-- ===== src/Gtk/Actions/Blocked.antt =====
-- What reaches the user of client/aimless/gtkui.py from a blocked node.
use aimless.Prelude.{
  ◌≡◌, refl, ap, ◌∙◌, true, false, none, [], ◌∷◌, Text, text_eq, text_eq_iff, text_key, any, select,
  arith, if◌then◌else◌,
}
use aimless.Prelude.Table
use aimless.Prelude.Table.Laws
use aimless.Store.Rows.{Bytes}
use aimless.Store.Conversations.{itself, mute, is_muted, is_conversation_muted}
use aimless.Store.Messages.{set_blocked_screen}
use aimless.Contacts.{Book, buddies}
use aimless.Sync.{conv_of}
use aimless.Gtk.{Thread, View, Letter, Gui}
use aimless.Gtk.Transfers.{Arrival}
use aimless.Gtk.Sidebar.{is_contact}
use aimless.Gtk.Incoming.{
  note_room, incoming_stranger, incoming_muted, incoming_in, incoming_letter,
}
use aimless.Gtk.Actions.{without_node, drop_thread, block_node}

no_contact : (node : Text) (book : Book) → is_contact (without_node node book) node ≡ false
unfolding is_contact without_node buddies select any
no_contact node [] = refl
no_contact node (e ∷ book) = ground (arith, no_contact node book)

module _ {Key N J : Type 0} (setting : Gui Key N J) where
  note_room-direct :
      (e : Arrival) (conv : Text) (letter : Letter) (v : View N)
      → letter.conv ≡ none
      → note_room setting e conv letter v ≡ v
  unfolding note_room
  note_room-direct e conv letter v direct = rw (direct, note_room) refl

  stranger_silent :
      (e : Arrival) (conv : Text) (letter : Letter) (w : View N)
      → is_muted w.store e.node ≡ true
      → incoming_stranger setting e conv letter w ≡ w
  unfolding incoming_stranger
  stranger_silent e conv letter w silent = rw silent refl

  muted_stranger :
      (e : Arrival) (letter : Letter) (w : View N)
      → letter.conv ≡ none
      → is_contact w.contacts e.node ≡ false
      → is_muted w.store e.node ≡ true
      → incoming_letter setting e letter w ≡ (
          if is_conversation_muted w.store e.node
          then incoming_muted setting e e.node letter w
          else w)
  unfolding incoming_letter
  muted_stranger e letter w direct stranger silent =
      let conv = conv_of letter.conv e.node in
      ap (incoming_in setting e conv letter) (note_room-direct e conv letter w direct)
      ∙ ap (λ o. incoming_in setting e (conv_of o e.node) letter w) direct
      ∙ (rw stranger (
          ap
            (λ u.
              if is_conversation_muted w.store e.node
              then incoming_muted setting e e.node letter w
              else u)
            (stranger_silent e e.node letter w silent)))

  -- A node that the user has blocked is no contact, is muted and has no thread; and each message of
  -- theirs that is for no room leaves the whole view as it is, unless the conversation with the node is
  -- muted: then the message is taken in like any other of a muted conversation, in spite of the block.
  pub block_node_silent :
      (nonce : Bytes) (node screen : Text) (v : View N) (e : Arrival) (letter : Letter)
      → e.node ≡ node
      → letter.conv ≡ none
      → let w = block_node setting nonce node screen v in
        (is_contact w.contacts node ≡ false)
        × (is_muted w.store node ≡ true)
        × (Table.has Thread.conv node w.threads ≡ false)
        × (incoming_letter setting e letter w ≡ (
            if is_conversation_muted v.store node
            then incoming_muted setting e node letter w
            else w))
  unfolding block_node drop_thread set_blocked_screen mute is_muted is_conversation_muted
  block_node_silent nonce node screen v e letter from direct =
      let w = block_node setting nonce node screen v in
      let c : is_contact w.contacts node ≡ false = no_contact node v.contacts in
      let same : text_eq node node ≡ true = (text_eq_iff node node).1 refl in
      let m : is_muted w.store node ≡ true =
        Laws.has-insert_or_ignore itself node node v.store.muted_nodes ∙ ground (arith, same) in
      (
        c,
        m,
        Laws.has-delete Thread.conv node node v.threads ∙ (rw same refl),
        muted_stranger e letter w direct (ap (is_contact w.contacts) from ∙ c)
              (ap (is_muted w.store) from ∙ m)
            ∙ ap
                (λ n.
                  if is_conversation_muted v.store n
                  then incoming_muted setting e n letter w
                  else w)
                from,
      )
