-- ===== src/Gtk/Sidebar/Shown.antt =====
-- Which conversations have a thread in the sidebar of client/aimless/gtkui.py.
use aimless.Prelude.{
  ◌≡◌, refl, ◌∙◌, ap, true, ◌||◌, List, [], ◌∷◌, map, foldl, Text, text_key, text_eq, text_eq_iff,
  any, inl, inr, Option-cases, arith,
}
use aimless.Prelude.Table
use aimless.Prelude.Table.Laws.{has-update, has-append}
use aimless.Prelude.Sort.{sort_by, any-sort_by}
use aimless.Store.Conversations.{rooms}
use aimless.Contacts.{BookEntry, buddies, is_some_text}
use aimless.Gtk.{RoomMember, Thread, View, Gui}
use aimless.Gtk.Sidebar.{
  is_contact, petname_le, drop_threads, sync_contact, sync_room, room_members, sync_sidebar,
}

has-upsert :
    (r : Thread) (f : Thread → Thread) (k : Text) (t : List Thread)
    → ((x : Thread) → (f x).conv ≡ x.conv)
    → Table.has Thread.conv k (Table.upsert Thread.conv r f t)
      ≡ (Table.has Thread.conv k t || text_eq r.conv k)
unfolding Table.upsert
has-upsert r f k t keeps = ground (
  arith,
  has-update Thread.conv f keeps r.conv k t,
  has-append Thread.conv k r t,
  text_eq_iff r.conv k,
)

has-sync_contact :
    (threads : List Thread) (c : Text × BookEntry) (node : Text)
    → Table.has Thread.conv node (sync_contact threads c)
      ≡ (Table.has Thread.conv node threads || is_some_text (BookEntry.node c.1) node)
unfolding sync_contact
has-sync_contact threads (name, info) node = elim (Option-cases info.node) [
  | inl e ↦ rw (e, sync_contact) (ground arith)
  | inr (n, e) ↦ rw (e, sync_contact) (has-upsert _ _ node threads (λ x. refl))
]

has-contacts :
    (cs : List (Text × BookEntry)) (threads : List Thread) (node : Text)
    → Table.has Thread.conv node (foldl sync_contact threads cs)
      ≡ (Table.has Thread.conv node threads || any (λ c. is_some_text (BookEntry.node c.1) node) cs)
unfolding any
has-contacts [] threads node = ground arith
has-contacts (c ∷ cs) threads node =
    ground (arith, has-contacts cs (sync_contact threads c) node, has-sync_contact threads c node)

has-rooms :
    (self_node : Text) (rs : List (Text × List RoomMember)) (threads : List Thread) (conv : Text)
    → Table.has Thread.conv conv threads ≡ true
    → Table.has Thread.conv conv (foldl (sync_room self_node) threads rs) ≡ true
unfolding sync_room
has-rooms self_node [] threads conv h = h
has-rooms self_node ((room, ms) ∷ rs) threads conv h =
    has-rooms self_node rs (sync_room self_node threads (room, ms)) conv
      (has-upsert _ _ conv threads (λ x. refl) ∙ ap (λ b. b || text_eq room conv) h)

module _ {Key N J : Type 0} (setting : Gui Key N J) where
  -- Each contact has a thread.
  pub contact-shown :
      (v : View N) (node : Text)
      → is_contact v.contacts node ≡ true
      → Table.has Thread.conv node (sync_sidebar setting v).threads ≡ true
  unfolding sync_sidebar drop_threads is_contact
  contact-shown v node known =
      has-rooms setting.self_node (map (room_members setting v.store) (rooms v.store))
        (foldl sync_contact (drop_threads v).threads (sort_by petname_le (buddies v.contacts))) node
        (has-contacts (sort_by petname_le (buddies v.contacts)) (drop_threads v).threads node
          ∙ ground (
            arith,
            any-sort_by petname_le
                (λ (c : Text × BookEntry). is_some_text (BookEntry.node c.1) node)
                (buddies v.contacts),
            known,
          ))
