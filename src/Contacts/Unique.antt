-- ===== src/Contacts/Unique.antt =====
-- Adding an invite, of client/aimless/cli.py and client/aimless/gtkui.py, and the keys of the contacts.
use aimless.Prelude.{
  sym, count-append, ℕ, suc, ◌+◌, ◌≤◌, ◌≡◌, refl, ap, ◌∙◌, Bool, true, false, Option, none, some,
  [], ◌∷◌, Text, text_eq, text_eq_iff, text_key, count, length, arith, Bool-cases, Option-cases,
  inl, inr, ◌⊎◌, map,
}
use aimless.Prelude.Table
use aimless.Prelude.Table.{Distinct}
use aimless.Prelude.Table.Laws
use aimless.Protocol.Invite.{Result, ok, err, parse_invite, InviteError}
use aimless.Contacts.{
  Book, BookEntry, petname, put_entry, self_name, has_key, is_some_text, known_as, added,
  add_invite, self_pubkey, set_self_pubkey, own_pubkey, own_from, name_or_screen, cmd_add,
  resolve_buddy,
}
use aimless.Contacts.Petname.{resolve_buddy-put_entry}

-- No key belongs to two contacts.
abbrev pub IsUnique : Book → Type 0
IsUnique book = (client : Text) → count (has_key client) book ≤ 1

known_as-none :
    (client : Text) (book : Book) → known_as client book ≡ none → count (has_key client) book ≡ 0
unfolding known_as count
known_as-none client [] h = refl
known_as-none client (e ∷ book) h = ground (arith, h, known_as-none client book)

-- An update that leaves the keys alone.
count-update :
    (client name : Text) (f : Text × BookEntry → Text × BookEntry) (book : Book)
    → ((e : Text × BookEntry) → petname e ≡ name → has_key client (f e) ≡ has_key client e)
    → count (has_key client) (Table.update petname name f book) ≡ count (has_key client) book
unfolding count Table.update
count-update client name f [] same = refl
count-update client name f (e ∷ book) same = elim (Bool-cases (text_eq (petname e) name)) [
  | inl t ↦
      let named : petname e ≡ name = (text_eq_iff (petname e) name).0 t in
      rw t (ground (arith, same e named, count-update client name f book same))
  | inr n ↦ rw n (ground (arith, count-update client name f book same))
]

update_absent :
    (name : Text) (f : Text × BookEntry → Text × BookEntry) (book : Book)
    → Table.has petname name book ≡ false
    → Table.update petname name f book ≡ book
unfolding Table.update Table.has
update_absent name f [] h = refl
update_absent name f (e ∷ book) h = ground (arith, h, update_absent name f book)

abbrev one_if : Bool → ℕ
one_if true = 1
one_if false = 0

module _ (client name : Text) (entry : BookEntry) where
  count-put-update :
      (book : Book)
      → Distinct petname book
      → count (has_key client) (Table.update petname name (λ e. (e.0, entry)) book)
        ≤ count (has_key client) book + one_if (has_key client (name, entry))
  unfolding count Table.update
  count-put-update [] d = omega arith
  count-put-update (e ∷ book) d = elim (Bool-cases (text_eq (petname e) name)) [
    | inl t ↦
        let named : petname e ≡ name = (text_eq_iff (petname e) name).0 t in
        let absent : Table.has petname name book ≡ false =
          ap (λ n. Table.has petname n book) (sym named) ∙ d.0 in
        rw t (rw (update_absent name (λ e. (e.0, entry)) book absent) (rw named (ground arith)))
    | inr n ↦ rw n (ground (arith, count-put-update book d.1))
  ]

  count-put_entry :
      (book : Book)
      → Distinct petname book
      → count (has_key client) (put_entry name entry book)
        ≤ count (has_key client) book + one_if (has_key client (name, entry))
  unfolding put_entry Table.upsert count
  count-put_entry book d =
      ground
        (arith, count-put-update book d, count-append (has_key client) book ((name, entry) ∷ []))

-- A dictionary, in which no key belongs to two contacts.
abbrev pub IsBook : Book → Type 0
IsBook book = Distinct petname book × IsUnique book

has_key_same :
    (client client' : Text) (name : Text) (at screen : Option Text)
    → has_key client' (name, record { pubkey = some client; node = at; screen = screen }) ≡ true
    → client ≡ client'
has_key_same client client' name at screen h = ground (arith, h, text_eq_iff client client')

self-IsBook : (key : Text) (book : Book) → IsBook book → IsBook (set_self_pubkey key book)
unfolding set_self_pubkey Table.upsert text_eq
self-IsBook key book (d, u) = (
  Laws.upsert-Distinct petname _ _ book (λ e. refl) d,
  λ client.
      let row : Text × BookEntry =
        (self_name, record { pubkey = some key; node = none; screen = none }) in
      let f : Text × BookEntry → Text × BookEntry = λ e. (e.0, record e.1 { pubkey = some key }) in
      let kept = count-update client self_name f book (λ e named. rw named refl) in
      let more = count-append (has_key client) book (row ∷ []) in
      elim (Bool-cases (Table.has petname self_name book)) [
        | inl t ↦ rw t (omega (arith, kept, u client))
        | inr n ↦ rw n (unfold count in omega (arith, more, u client))
      ],
)

own_from-IsBook :
    (known identity : Option Text) (book : Book)
    → IsBook book
    → IsBook (own_from known identity book).1
own_from-IsBook (some (c ∷ cs)) identity book h = h
own_from-IsBook (some []) none book h = h
own_from-IsBook (some []) (some key) book h = self-IsBook key book h
own_from-IsBook none none book h = h
own_from-IsBook none (some key) book h = self-IsBook key book h

add-IsBook :
    (client node screen name : Text) (book : Book)
    → IsBook book
    → IsBook (add_invite client node screen name book).0
unfolding add_invite put_entry
add-IsBook client node screen name book (d, u) = elim (Option-cases (known_as client book)) [
  | inl n ↦
      let entry : BookEntry = record {
        pubkey = some client;
        node = some node;
        screen = some screen;
      } in
      rw (n, add_invite)
        (
          Laws.upsert-Distinct petname (name, entry) _ book (λ e. refl) d,
          λ client'. elim (Bool-cases (has_key client' (name, entry))) [
            | inl same ↦
                let here = has_key_same client client' name (some node) (some screen) same in
                omega (
                  arith,
                  known_as-none client' book (ap (λ c. known_as c book) (sym here) ∙ n),
                  ap one_if same,
                  count-put_entry client' name entry book d,
                )
            | inr other ↦
                omega (arith, ap one_if other, u client', count-put_entry client' name entry book d)
          ],
        )
  | inr ((k, c), s) ↦ elim (Bool-cases (is_some_text c.node node)) [
    | inl same ↦ rw (s, add_invite) (rw same (d, u))
    | inr other ↦
        let f : Text × BookEntry → Text × BookEntry = λ e. (e.0, record e.1 { node = some node }) in
        rw (s, add_invite)
          (rw other (
            Laws.update-Distinct petname f (λ e. refl) k book d,
            λ client'. omega (arith, u client', count-update client' k f book (λ e named. refl)),
          ))
  ]
]

Result-cases :
    {A : Type 0} (r : Result A) → ((e : InviteError) × (r ≡ err e)) ⊎ ((a : A) × (r ≡ ok a))
Result-cases (err e) = inl (e, refl)
Result-cases (ok a) = inr (a, refl)

length-update :
    (name : Text) (f : Text × BookEntry → Text × BookEntry) (book : Book)
    → length (Table.update petname name f book) ≡ length book
unfolding Table.update
length-update name f [] = refl
length-update name f (e ∷ book) = ap suc (length-update name f book)

length-put_entry :
    (name : Text) (entry : BookEntry) (book : Book)
    → Table.has petname name book ≡ true
    → length (put_entry name entry book) ≡ length book
unfolding put_entry Table.upsert
length-put_entry name entry book h = rw h (length-update name (λ e. (e.0, entry)) book)

-- `aimless add` keeps the contacts file a dictionary in which no key belongs to two contacts,
-- whatever the invite, the petname and the identity file.
pub cmd_add-IsBook :
    (invite : Text) (name identity : Option Text) (book : Book)
    → IsBook book
    → IsBook (cmd_add invite name identity book).0
unfolding cmd_add own_pubkey
cmd_add-IsBook invite name identity book h = elim (Result-cases (parse_invite invite)) [
  | inl (e, p) ↦ rw (p, cmd_add) h
  | inr ((client, node, screen), p) ↦
      let (self_pk, book1) = own_pubkey identity book in
      let h1 = own_from-IsBook (self_pubkey book) identity book h in
      elim (Bool-cases (is_some_text self_pk client)) [
        | inl own ↦ rw (p, cmd_add) (rw own h1)
        | inr other ↦
            rw (p, cmd_add)
              (rw other (add-IsBook client node screen (name_or_screen name screen) book1 h1))
      ]
]

petnames-update :
    (name : Text) (entry : BookEntry) (book : Book)
    → map petname (Table.update petname name (λ e. (e.0, entry)) book) ≡ map petname book
unfolding Table.update
petnames-update name entry [] = refl
petnames-update name entry (e ∷ book) = ground (arith, petnames-update name entry book)

petnames-put_entry :
    (name : Text) (entry : BookEntry) (book : Book)
    → Table.has petname name book ≡ true
    → map petname (put_entry name entry book) ≡ map petname book
unfolding put_entry Table.upsert
petnames-put_entry name entry book taken = rw taken (petnames-update name entry book)

-- Where an invite of a new key comes in under a petname that is taken, `aimless add` and the contacts
-- view put it in the place of the entry that was there, the user's own included: the petnames of the
-- dictionary and their order are as before, so that one contact is lost, and the outcome is that of an
-- addition.
pub add_invite_taken :
    (client node screen name : Text) (book : Book)
    → known_as client book ≡ none
    → Table.has petname name book ≡ true
    → let (later, outcome) = add_invite client node screen name book in
      (outcome ≡ added)
      × (length later ≡ length book)
      × (map petname later ≡ map petname book)
      × (resolve_buddy name later
          ≡ some (record { pubkey = some client; node = some node; screen = some screen }))
unfolding add_invite
add_invite_taken client node screen name book new taken =
    let entry : BookEntry = record {
      pubkey = some client;
      node = some node;
      screen = some screen;
    } in
    let same : text_eq name name ≡ true = (text_eq_iff name name).1 refl in
    rw (new, add_invite)
      (
        refl,
        length-put_entry name entry book taken,
        petnames-put_entry name entry book taken,
        resolve_buddy-put_entry name name entry book ∙ (rw same refl),
      )
