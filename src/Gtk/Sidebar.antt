-- ===== src/Gtk/Sidebar.antt =====
-- The threads of the sidebar of client/aimless/gtkui.py.
pub mod Shown
use aimless.Prelude.{
  Bool, true, false, not, ◌||◌, Option, none, some, List, [], ◌∷◌, ◌++◌, map, Text, text_eq,
  text_key, codes, any, ltb, ◌-◌, length, take, select, if◌then◌else◌, foldl,
}
use aimless.Prelude.Table
use aimless.Prelude.Decimal.{decimal}
use aimless.Prelude.Sort.{text_le, sort_by}
use aimless.Store.Rows.{Store}
use aimless.Store.Conversations.{members, rooms}
use aimless.Contacts.{Book, BookEntry, is_some_text, buddies}
use aimless.Gtk.{RoomMember, Thread, View, Gui}

-- `{info["node"] for info in contacts.values()}` of the buddies, as a test. An entry without a node,
-- which the program writes for the user only, is passed over.
unfoldable pub is_contact : Book → Text → Bool
unfolding buddies
is_contact contacts node = any (λ c. is_some_text (BookEntry.node c.1) node) (buddies contacts)

abbrev pub petname_le : Text × BookEntry → Text × BookEntry → Bool
petname_le c d = text_le c.0 d.0

abbrev pub or_text : Option Text → Text → Text
or_text none default = default
or_text (some t) default = t

abbrev pub name_or : Text → Text → Text
name_or [] default = default
name_or (c ∷ cs) default = c ∷ cs

-- `", ".join(…)`
unfoldable pub join_names : List Text → Text
join_names [] = []
join_names (s ∷ []) = s
join_names (s ∷ t ∷ rest) = s ++ codes ", " ++ join_names (t ∷ rest)

-- The title of a room
unfoldable pub room_title : Text → List RoomMember → Text
unfolding join_names
room_title self_node ms =
    let others = select (λ m. not (text_eq (RoomMember.node m) self_node)) ms in
    let screens =
      sort_by text_le
        (map (λ m. name_or (RoomMember.screen m) (take 8 (RoomMember.node m))) others) in
    join_names (take 3 screens)
    ++ (if ltb 3 (length screens) then codes " +" ++ decimal (length screens - 3) else [])

-- The first loop of `sync_sidebar`: the threads of nodes that are no contacts go, and with them the
-- selection.
unfoldable pub drop_threads : {N : Type 0} → View N → View N
unfolding is_contact
drop_threads v =
    let keep : Thread → Bool = λ t. t.is_room || is_contact v.contacts t.conv in
    let threads = select keep v.threads in
    record v {
      threads = threads;
      selected = elim v.selected [
        | none ↦ none
        | some conv ↦ if Table.has Thread.conv conv threads then some conv else none
      ];
    }

-- The second loop: the thread of a contact
unfoldable pub sync_contact : List Thread → Text × BookEntry → List Thread
sync_contact threads (petname, info) =
    let screen = or_text info.screen petname in
    elim info.node [
      | none ↦ threads
      | some node ↦
          Table.upsert Thread.conv
            (record {
              conv = node;
              is_room = false;
              petname = some petname;
              contact = some info;
              members = [];
              screen = screen;
              preview = [];
              unread = 0;
            })
            (λ t. record t { petname = some petname; contact = some info; screen = screen }) threads
    ]

-- The third loop: the thread of a room
unfoldable pub sync_room : Text → List Thread → Text × List RoomMember → List Thread
unfolding room_title
sync_room self_node threads (conv, ms) =
    let title = room_title self_node ms in
    Table.upsert Thread.conv
      (record {
        conv = conv;
        is_room = true;
        petname = none;
        contact = none;
        members = ms;
        screen = title;
        preview = [];
        unread = 0;
      })
      (λ t. record t { members = ms; screen = title }) threads

module _ {Key N J : Type 0} (setting : Gui Key N J) where
  open setting use {box, members_of, self_node}

  -- The rooms of the store with their members; a roster that does not open counts as empty.
  unfoldable pub room_members : Store → Text → Text × List RoomMember
  room_members store conv =
      (conv, elim (members box store conv) [ none ↦ [] | some j ↦ members_of j ])

  -- `sync_sidebar`
  unfoldable pub sync_sidebar : View N → View N
  unfolding buddies drop_threads sync_contact sync_room room_members
  sync_sidebar v =
      let v1 = drop_threads v in
      let with_contacts = foldl sync_contact v1.threads (sort_by petname_le (buddies v.contacts)) in
      record v1 {
        threads =
            foldl (sync_room self_node) with_contacts (map (room_members v.store) (rooms v.store));
      }
