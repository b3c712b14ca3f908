-- ===== src/Gtk/Requests/Answers.antt =====
-- What the answers to a request of client/aimless/gtkui.py lead to.
use aimless.Prelude.{
  Bool-cases, select-append, ℕ, ◌≡◌, refl, ap, ◌∙◌, Bool, true, false, not, ◌||◌, Option, none,
  some, [], ◌∷◌, ◌++◌, Text, text_eq, text_eq_iff, any, select, arith, if◌then◌else◌, inl, inr,
  text_key,
}
use aimless.Prelude.Table
use aimless.Prelude.Table.Laws
use aimless.Store.Rows.{Conversation, Message, Store, Nonces}
use aimless.Store.Conversations.{itself, mute, unmute, is_muted, ensure_room, ensure_conv}
use aimless.Store.Ingest.{offered, messages-ingest, conv-ingest}
use aimless.Store.Messages.{ingest, set_blocked_screen}
use aimless.Sync.{conv_of}
use aimless.Contacts.{
  Book, BookEntry, petname, self_name, put_entry, free_petname, screen_or, add_contact_from_roster,
  buddies, is_some_text,
}
use aimless.Contacts.Petname.{free_petname-IsFree}
use aimless.Gtk.{Thread, View, Request, Gui}
use aimless.Gtk.Sidebar.{is_contact, sync_sidebar, drop_threads}
use aimless.Gtk.Sidebar.Shown.{contact-shown}
use aimless.Gtk.Requests.{request_room, welcome, accept_request, block_request}

mute-is_muted :
    (node other : Text) (s : Store)
    → is_muted (mute node s) other ≡ (is_muted s other || text_eq node other)
unfolding mute is_muted
mute-is_muted node other s = Laws.has-insert_or_ignore itself other node s.muted_nodes

unmute-is_muted :
    (node other : Text) (s : Store)
    → is_muted (unmute node s) other ≡ (if text_eq node other then false else is_muted s other)
unfolding unmute is_muted
unmute-is_muted node other s = Laws.has-delete itself node other s.muted_nodes

any-last :
    (p : Text × BookEntry → Bool) (xs : Book) (e : Text × BookEntry)
    → p e ≡ true
    → any p (xs ++ e ∷ []) ≡ true
unfolding any
any-last p [] e h = ground (arith, h)
any-last p (x ∷ xs) e h = ground (arith, any-last p xs e h)

-- A name that is free is not the user's own.
apart :
    (name : Text) (book : Book)
    → Table.has petname self_name book ≡ true
    → Table.has petname name book ≡ false
    → text_eq name self_name ≡ false
apart name book own free = elim (Bool-cases (text_eq name self_name)) [
  | inr n ↦ n
  | inl e ↦
      let same = (text_eq_iff name self_name).0 e in
      let h : Table.has petname name book ≡ true = ap (λ n. Table.has petname n book) same ∙ own in
      absurd (ground (arith, h, free))
]

new-contact :
    (name : Text) (entry : BookEntry) (node : Text) (book : Book)
    → Table.has petname name book ≡ false
    → text_eq name self_name ≡ false
    → is_some_text entry.node node ≡ true
    → is_contact (put_entry name entry book) node ≡ true
unfolding is_contact put_entry Table.upsert buddies
new-contact name entry node book free other h = rw free (
    rw
      (select-append (λ (e : Text × BookEntry). not (text_eq (petname e) self_name)) book
        ((name, entry) ∷ []))
      (unfold select in
        rw other (
          any-last (λ c. is_some_text (BookEntry.node c.1) node)
            (select (λ e. not (text_eq (petname e) self_name)) book) (name, entry) h)))

module _ {Key N J : Type 0} (setting : Gui Key N J) where
  request_room-muted :
      (fresh : Nonces) (req : Request) (s : Store)
      → (request_room setting fresh req s).muted_nodes ≡ s.muted_nodes
  unfolding request_room ensure_room
  request_room-muted fresh req s = ground arith

  ingest-muted :
      (fresh : Nonces) (conv sender : Text) (seq ts : ℕ) (text : Option Text) (s : Store)
      → (ingest setting.box fresh conv sender seq ts text none s).0.muted_nodes ≡ s.muted_nodes
  unfolding ingest ensure_conv
  ingest-muted fresh conv sender seq ts text s = ground arith

  accept-muted :
      (fresh : Nonces) (req : Request) (v : View N) (other : Text)
      → is_muted (accept_request setting fresh req v).store other
        ≡ (if text_eq req.node other then false else is_muted v.store other)
  unfolding accept_request sync_sidebar drop_threads is_muted
  accept-muted fresh req v other =
      let s = unmute req.node v.store in
      ap (Table.has itself other) (
        ingest-muted fresh (conv_of req.conv req.node) req.node req.seq req.ts (some req.text)
          (request_room setting fresh req s)
        ∙ request_room-muted fresh req s)
      ∙ unmute-is_muted req.node other v.store

  accept-contact :
      (fresh : Nonces) (req : Request) (v : View N)
      → Table.has petname self_name v.contacts ≡ true
      → is_contact (accept_request setting fresh req v).contacts req.node ≡ true
  unfolding accept_request sync_sidebar drop_threads is_contact add_contact_from_roster
  accept-contact fresh req v own =
      let base = screen_or req.screen req.node in
      let name = free_petname v.contacts base in
      let entry : BookEntry = record {
        pubkey = req.pubkey;
        node = some req.node;
        screen = some base;
      } in
      let free = free_petname-IsFree v.contacts base in
      new-contact name entry req.node v.contacts free (apart name v.contacts own free)
        ((text_eq_iff req.node req.node).1 refl)

  request_room-messages :
      (fresh : Nonces) (req : Request) (s : Store)
      → (request_room setting fresh req s).messages ≡ s.messages
  unfolding request_room ensure_room
  request_room-messages fresh req s = ground arith

  -- The row of the message that was withheld while its sender was a stranger.
  abbrev pub withheld : Nonces → Request → Message
  withheld fresh req =
      offered setting.box (conv_of req.conv req.node) req.node req.seq fresh req.ts (some req.text)
        none

  accept-messages :
      (fresh : Nonces) (req : Request) (v : View N)
      → (accept_request setting fresh req v).store.messages
        ≡ Table.insert_or_ignore Message.id (withheld fresh req) v.store.messages
  unfolding accept_request sync_sidebar drop_threads
  accept-messages fresh req v =
      let s = unmute req.node v.store in
      messages-ingest setting.box (conv_of req.conv req.node) req.node req.seq fresh req.ts
        (some req.text) none (request_room setting fresh req s)
      ∙ ap (Table.insert_or_ignore Message.id (withheld fresh req))
          (request_room-messages fresh req s ∙ (unfold unmute in refl))

  accept-listed :
      (fresh : Nonces) (req : Request) (v : View N)
      → Table.has Conversation.id
          (conv_of req.conv req.node)
          (accept_request setting fresh req v).store.conversations
        ≡ true
  unfolding accept_request sync_sidebar drop_threads
  accept-listed fresh req v =
      conv-ingest setting.box (conv_of req.conv req.node) req.node req.seq fresh req.ts
        (some req.text) none (request_room setting fresh req (unmute req.node v.store))

  accept-shown :
      (fresh : Nonces) (req : Request) (v : View N)
      → is_contact (accept_request setting fresh req v).contacts req.node ≡ true
      → Table.has Thread.conv req.node (accept_request setting fresh req v).threads ≡ true
  unfolding accept_request
  accept-shown fresh req v known =
      contact-shown setting (welcome setting fresh req v) req.node
        (unfold sync_sidebar drop_threads in known)

  -- What Accept makes of a view: the sender is a contact with a thread, and not muted; every other
  -- node is muted as before; the message that was withheld is stored in its conversation, unless it
  -- was stored already; and the daemon is told once.
  pub record IsAccepted (fresh : Nonces) (req : Request) (before after : View N) : Type 0 where
    pub contact : is_contact after.contacts req.node ≡ true
    pub shown : Table.has Thread.conv req.node after.threads ≡ true
    pub muted :
        (other : Text)
        → is_muted after.store other
          ≡ (if text_eq req.node other then false else is_muted before.store other)
    pub messages :
        after.store.messages
        ≡ Table.insert_or_ignore Message.id (withheld fresh req) before.store.messages
    pub listed :
        Table.has Conversation.id (conv_of req.conv req.node) after.store.conversations ≡ true
    pub told : after.block_calls ≡ before.block_calls ++ (req.node, false) ∷ []

  -- What Block makes of a view: the sender is muted; all other mutes, the contacts, the threads and
  -- the messages are as before; and the daemon is told once.
  pub record IsRefused (req : Request) (before after : View N) : Type 0 where
    pub muted :
        (other : Text)
        → is_muted after.store other ≡ (is_muted before.store other || text_eq req.node other)
    pub contacts : after.contacts ≡ before.contacts
    pub threads : after.threads ≡ before.threads
    pub messages : after.store.messages ≡ before.store.messages
    pub told : after.block_calls ≡ before.block_calls ++ (req.node, true) ∷ []

  -- Where the contacts hold the user's own entry: after Accept the sender of the request is a contact
  -- with a thread and not muted, no other node's mute changes, and the message that was withheld is
  -- stored, in a conversation that is listed, unless its id was stored before; after Block the sender
  -- is muted, no other node's mute changes, and the contacts, the threads and the messages are as
  -- before. Each tells the daemon once.
  pub answers_lem :
      (fresh : Nonces) (req : Request) (v : View N)
      → Table.has petname self_name v.contacts ≡ true
      → IsAccepted fresh req v (accept_request setting fresh req v)
        × IsRefused req v (block_request setting fresh req v)
  unfolding block_request set_blocked_screen mute is_muted
  answers_lem fresh req v own =
      let known = accept-contact fresh req v own in
      (
        record {
          contact = known;
          shown = accept-shown fresh req v known;
          muted = accept-muted fresh req v;
          messages = accept-messages fresh req v;
          listed = accept-listed fresh req v;
          told = unfold accept_request sync_sidebar drop_threads in refl;
        },
        record {
          muted = λ other. mute-is_muted req.node other v.store;
          contacts = refl;
          threads = refl;
          messages = refl;
          told = refl;
        },
      )
