-- ===== src/Contacts.antt =====
-- The contacts file of client/aimless/protocol.py, and what client/aimless/cli.py and
-- client/aimless/gtkui.py do with it.
--
-- The file is a dictionary from petnames to entries; the entry "_self" is the user's own. A missing
-- file is the empty dictionary, and what is saved is what the next load returns.
pub mod Petname
pub mod Unique
use aimless.Prelude.{
  ℕ, zero, suc, ◌+◌, Bool, true, false, not, ◌&&◌, ◌||◌, Option, none, some, List, [], ◌∷◌, ◌++◌,
  Text, text_eq, text_key, codes, length, take, select, if◌then◌else◌,
}
use aimless.Prelude.Table
use aimless.Prelude.Decimal.{decimal}
use aimless.Protocol.Invite.{Result, ok, err, parse_invite, strip}

pub record BookEntry : Type 0 where
  pub pubkey : Option Text
  pub node : Option Text
  pub screen : Option Text

abbrev pub Book : Type 0
Book = List (Text × BookEntry)

abbrev pub petname : Text × BookEntry → Text
petname e = e.0

abbrev pub self_name : Text
self_name = codes "_self"

-- `contacts[name] = entry`
unfoldable pub put_entry : Text → BookEntry → Book → Book
put_entry name entry book = Table.upsert petname (name, entry) (λ e. (e.0, entry)) book

-- `f"{base} {i}"`
abbrev pub numbered : Text → ℕ → Text
numbered base i = base ++ b' ' ∷ decimal i

-- The loop of `_free_petname`, at most `rounds` times
unfoldable pub free_from : ℕ → Book → Text → Text → ℕ → Text
free_from zero contacts base name i = name
free_from (suc rounds) contacts base name i =
    let rest = free_from rounds contacts base (numbered base i) (i + 1) in
    if Table.has petname name contacts then rest else name

-- `_free_petname`
unfoldable pub free_petname : Book → Text → Text
unfolding free_from
free_petname contacts base = free_from (length contacts + 1) contacts base base 2

-- `screen or node[:8]`
abbrev pub screen_or : Option Text → Text → Text
screen_or none node = take 8 node
screen_or (some []) node = take 8 node
screen_or (some (c ∷ cs)) node = c ∷ cs

-- `_add_contact_from_roster`, with its result
unfoldable pub add_contact_from_roster : Text → Option Text → Option Text → Book → Book × Text
unfolding free_petname put_entry
add_contact_from_roster node pubkey screen contacts =
    let name = free_petname contacts (screen_or screen node) in
    (
      put_entry name
          (record { pubkey = pubkey; node = some node; screen = some (screen_or screen node) })
          contacts,
      name,
    )

abbrev pub is_some_text : Option Text → Text → Bool
is_some_text none t = false
is_some_text (some s) t = text_eq s t

-- Whether an entry that is not the user's own has the key.
abbrev pub has_key : Text → Text × BookEntry → Bool
has_key client e = not (text_eq e.0 self_name) && is_some_text (BookEntry.pubkey e.1) client

-- The first entry with the key, of the loops of `cmd_add` and `on_add`
unfoldable pub known_as : Text → Book → Option (Text × BookEntry)
known_as client [] = none
known_as client (e ∷ book) = if has_key client e then some e else known_as client book

pub data Added : Type 0 where
  bad_invite own_invite updated already_known added : Added

-- What follows in `cmd_add` and `on_add` the test for one's own invite, with the saved dictionary.
unfoldable pub add_invite : Text → Text → Text → Text → Book → Book × Added
unfolding known_as put_entry
add_invite client node screen name contacts = elim (known_as client contacts) [
  | some (k, c) ↦
      if is_some_text c.node node
      then (contacts, already_known)
      else (Table.update petname k (λ e. (e.0, record e.1 { node = some node })) contacts, updated)
  | none ↦ (
    put_entry name (record { pubkey = some client; node = some node; screen = some screen })
        contacts,
    added,
  )
]

-- `contacts.get("_self", {}).get("pubkey")`
unfoldable pub self_pubkey : Book → Option Text
self_pubkey contacts = elim (Table.find petname self_name contacts) [
  | none ↦ none
  | some e ↦ e.1.pubkey
]

-- `contacts.setdefault("_self", {})["pubkey"] = self_pk`
unfoldable pub set_self_pubkey : Text → Book → Book
set_self_pubkey self_pk contacts =
    Table.upsert petname (self_name, record { pubkey = some self_pk; node = none; screen = none })
      (λ e. (e.0, record e.1 { pubkey = some self_pk })) contacts

-- `args.petname or screen`
abbrev pub name_or_screen : Option Text → Text → Text
name_or_screen none screen = screen
name_or_screen (some []) screen = screen
name_or_screen (some (c ∷ cs)) screen = c ∷ cs

-- The key that `cmd_add` compares with, and the dictionary that it saves with it: `identity` is the
-- key of the identity file, if there is one that the passphrase opens.
abbrev pub own_from : Option Text → Option Text → Book → Option Text × Book
own_from (some (c ∷ cs)) identity contacts = (some (c ∷ cs), contacts)
own_from (some []) none contacts = (none, contacts)
own_from (some []) (some key) contacts = (some key, set_self_pubkey key contacts)
own_from none none contacts = (none, contacts)
own_from none (some key) contacts = (some key, set_self_pubkey key contacts)

unfoldable pub own_pubkey : Option Text → Book → Option Text × Book
unfolding self_pubkey set_self_pubkey
own_pubkey identity contacts = own_from (self_pubkey contacts) identity contacts

-- `cmd_add`
unfoldable pub cmd_add : Text → Option Text → Option Text → Book → Book × Added
unfolding own_pubkey add_invite
cmd_add invite name identity contacts = elim (parse_invite invite) [
  | err _ ↦ (contacts, bad_invite)
  | ok (client, node, screen) ↦
      let (self_pk, book) = own_pubkey identity contacts in
      if is_some_text self_pk client
      then (book, own_invite)
      else add_invite client node screen (name_or_screen name screen) book
]

-- `on_add` of the contacts view, up to its calls of the daemon
unfoldable pub on_add : Text → Text → Text → Book → Book × Added
unfolding add_invite
on_add self_pk invite name contacts = elim (parse_invite (strip invite)) [
  | err _ ↦ (contacts, bad_invite)
  | ok (client, node, screen) ↦
      if text_eq client self_pk
      then (contacts, own_invite)
      else add_invite client node screen (name_or_screen (some (strip name)) screen) contacts
]

-- `cmd_remove`; `none` is the exit for an unknown contact.
unfoldable pub cmd_remove : Text → Book → Option Book
cmd_remove name contacts =
    if Table.has petname name contacts then some (Table.delete petname name contacts) else none

-- `on_remove` after the confirmation
unfoldable pub on_remove : Text → Book → Book
on_remove name contacts = Table.delete petname name contacts

-- `resolve_buddy`
unfoldable pub resolve_buddy : Text → Book → Option BookEntry
resolve_buddy name contacts = elim (Table.find petname name contacts) [
  | none ↦ none
  | some e ↦ some e.1
]

-- `session.contacts()`: every entry but the user's own
unfoldable pub buddies : Book → Book
buddies contacts = select (λ e. not (text_eq (petname e) self_name)) contacts

-- `create_identity`, what it saves in the contacts file
unfoldable pub put_self : Text → Text → Book → Book
unfolding put_entry
put_self screen pubkey contacts =
    put_entry self_name
      (record {
        pubkey = some pubkey;
        node = none;
        screen = some (name_or_screen (some screen) (codes "anonymous"));
      })
      contacts
