-- ===== src/Gtk/Requests.antt =====
-- client/aimless/gtkui.py: the requests of strangers, up to the redrawing of an open conversation.
pub mod Answers
use aimless.Prelude.{
  ℕ, Bool, true, false, Option, none, some, List, [], ◌∷◌, ◌++◌, Text, take, if◌then◌else◌,
}
use aimless.Store.Rows.{Store, Nonces}
use aimless.Store.Conversations.{mute, unmute, ensure_room}
use aimless.Store.Messages.{ingest, pending_pop, set_blocked_screen}
use aimless.Sync.{conv_of}
use aimless.Contacts.{add_contact_from_roster, screen_or}
use aimless.Gtk.{View, Request, Gui}
use aimless.Gtk.Sidebar.{sync_sidebar}
use aimless.Gtk.Incoming.{members_by_node}

-- The answers of the dialog; closing it counts as a denial.
pub data Choice : Type 0 where
  accept block deny : Choice

-- `daemon_block_set`
abbrev pub daemon_block_set : {N : Type 0} → Text → Bool → View N → View N
daemon_block_set node blocked v = record v { block_calls = v.block_calls ++ (node, blocked) ∷ [] }

module _ {Key N J : Type 0} (setting : Gui Key N J) where
  open setting use {box, roster, read_request}

  -- The room of a request, where it names members
  unfoldable pub request_room : Nonces → Request → Store → Store
  unfolding ensure_room members_by_node
  request_room fresh req s = elim req.conv [
    | none ↦ s
    | some [] ↦ s
    | some (c ∷ cs) ↦ elim req.members [
      | [] ↦ s
      | m ∷ ms ↦ ensure_room box (fresh 3) (c ∷ cs) (roster (members_by_node (m ∷ ms) [])) s
    ]
  ]

  -- `surface_pending_requests` after Accept, up to `sync_sidebar`
  abbrev pub welcome : Nonces → Request → View N → View N
  unfolding add_contact_from_roster unmute request_room ingest
  welcome fresh req v =
      let (contacts, petname) = add_contact_from_roster req.node req.pubkey req.screen v.contacts in
      let store = request_room fresh req (unmute req.node v.store) in
      let conv = conv_of req.conv req.node in
      daemon_block_set req.node false (record v {
        contacts = contacts;
        store = (ingest box fresh conv req.node req.seq req.ts (some req.text) none store).0;
      })

  -- `surface_pending_requests` after Accept
  unfoldable pub accept_request : Nonces → Request → View N → View N
  unfolding add_contact_from_roster unmute request_room ingest sync_sidebar
  accept_request fresh req v = sync_sidebar setting (welcome fresh req v)

  -- and after Block
  unfoldable pub block_request : Nonces → Request → View N → View N
  unfolding mute set_blocked_screen
  block_request fresh req v = daemon_block_set req.node true (record v {
    store =
        set_blocked_screen box (fresh 3) req.node (some (screen_or req.screen req.node))
          (mute req.node v.store);
  })

  -- `surface_pending_requests` with the answer to the next request, and whether it will be called
  -- again; while a dialog is open it does nothing, and where a request does not open it raises.
  unfoldable pub surface_pending_requests : Bool → Choice → Nonces → View N → View N × Bool
  unfolding pending_pop accept_request block_request
  surface_pending_requests request_open choice fresh v =
      let (store, next) = pending_pop box v.store in
      let popped = record v { store = store } in
      if request_open then (v, false) else elim next [
        | none ↦ (popped, false)
        | some j ↦ (
          elim choice [
            | accept ↦ accept_request fresh (read_request j) popped
            | block ↦ block_request fresh (read_request j) popped
            | deny ↦ popped
          ],
          true,
        )
      ]
