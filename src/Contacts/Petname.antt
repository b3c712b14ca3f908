-- ===== src/Contacts/Petname.antt =====
-- The search for a free petname of client/aimless/gtkui.py ends.
use aimless.Prelude.{
  Option, some, ℕ, zero, suc, ◌+◌, ◌≤◌, ◌<◌, ◌≡◌, ◌≢◌, refl, sym, ap, ◌∙◌, true, false, [], ◌∷◌,
  ◌++◌, Text, text_eq, text_eq_iff, text_key, length, length-append, arith, Bool-cases, inl, inr,
  if◌then◌else◌, ◌⊎◌,
}
use aimless.Prelude.Table
use aimless.Prelude.Table.Laws
use aimless.Prelude.Decimal.{decimal, decimal-injective}
use aimless.Contacts.{
  Book, BookEntry, petname, numbered, free_from, free_petname, put_entry, resolve_buddy, screen_or,
  add_contact_from_roster,
}

append-cancel : (a b c : Text) → a ++ b ≡ a ++ c → b ≡ c
append-cancel [] b c h = h
append-cancel (x ∷ a) b c h = append-cancel a b c (ground (arith, h))

numbered-injective : (base : Text) (i j : ℕ) → numbered base i ≡ numbered base j → i ≡ j
numbered-injective base i j h =
    let tail : b' ' ∷ decimal i ≡ b' ' ∷ decimal j =
      append-cancel base (b' ' ∷ decimal i) (b' ' ∷ decimal j) h in
    decimal-injective i j (ground (arith, tail))

numbered-ne : (base : Text) (i : ℕ) → numbered base i ≢ base
numbered-ne base i h = absurd (omega (arith, ap length h, length-append base (b' ' ∷ decimal i)))

text_eq-ne : (s t : Text) → s ≢ t → text_eq s t ≡ false
text_eq-ne s t ne = elim (Bool-cases (text_eq s t)) [
  | inl e ↦ absurd (ne ((text_eq_iff s t).0 e))
  | inr n ↦ n
]

length-delete_le : (k : Text) (t : Book) → length (Table.delete petname k t) ≤ length t
unfolding Table.delete
length-delete_le k [] = omega arith
length-delete_le k (r ∷ t) = ground (arith, length-delete_le k t)

length-delete_lt :
    (k : Text) (t : Book)
    → Table.has petname k t ≡ true
    → length (Table.delete petname k t) < length t
unfolding Table.delete Table.has
length-delete_lt k [] h = absurd (ground (arith, h))
length-delete_lt k (r ∷ t) h = ground (arith, h, length-delete_le k t, length-delete_lt k t)

has_other :
    (name other : Text) (t : Book)
    → name ≢ other
    → Table.has petname other (Table.delete petname name t) ≡ Table.has petname other t
has_other name other t ne =
    Laws.has-delete petname name other t
    ∙ (let apart : text_eq name other ≡ false = text_eq-ne name other ne in rw apart refl)

-- The loop against a part `t` of the dictionary that has all the names still to come.
free_from-IsFree :
    (rounds : ℕ) (contacts t : Book) (base name : Text) (i : ℕ)
    → length t < rounds
    → ((j : ℕ) → i ≤ j → name ≢ numbered base j)
    → Table.has petname name contacts ≡ Table.has petname name t
    → ((j : ℕ)
        → i ≤ j
        → Table.has petname (numbered base j) contacts ≡ Table.has petname (numbered base j) t)
    → Table.has petname (free_from rounds contacts base name i) contacts ≡ false
unfolding free_from
free_from-IsFree zero contacts t base name i short new same rest = absurd (omega arith)
free_from-IsFree (suc rounds) contacts t base name i short new same rest =
    elim (Bool-cases (Table.has petname name contacts)) [
      | inr free ↦ rw (free, free_from) free
      | inl taken ↦
          rw (taken, free_from)
            (free_from-IsFree rounds contacts (Table.delete petname name t) base (numbered base i)
              (i + 1) (omega (arith, length-delete_lt name t (sym same ∙ taken)))
              (λ j le h. absurd (omega (arith, numbered-injective base i j h)))
              (rest i (omega arith)
                ∙ sym (has_other name (numbered base i) t (new i (omega arith))))
              (λ j le.
                rest j (omega arith)
                ∙ sym (has_other name (numbered base j) t (new j (omega arith)))))
    ]

-- What an entry that is written does to every lookup.
pub resolve_buddy-put_entry :
    (name other : Text) (entry : BookEntry) (book : Book)
    → resolve_buddy other (put_entry name entry book)
      ≡ (if text_eq name other then some entry else resolve_buddy other book)
unfolding resolve_buddy put_entry
resolve_buddy-put_entry name other entry book = ground (
  arith,
  Laws.find-upsert petname other (name, entry) (λ (e : Text × BookEntry). (e.0, entry)) book
      (λ e. refl),
  Laws.has-eq-found petname other book,
)

-- The rounds of the loop are enough: the petname that is found is not in use.
pub free_petname-IsFree :
    (contacts : Book) (base : Text)
    → Table.has petname (free_petname contacts base) contacts ≡ false
unfolding free_petname
free_petname-IsFree contacts base =
    free_from-IsFree (length contacts + 1) contacts contacts base base 2 (omega arith)
      (λ j le h. numbered-ne base j (sym h)) refl (λ j le. refl)

free_from_free :
    (rounds : ℕ) (contacts : Book) (base name : Text) (i : ℕ)
    → 0 < rounds
    → Table.has petname name contacts ≡ false
    → free_from rounds contacts base name i ≡ name
unfolding free_from
free_from_free zero contacts base name i p free = absurd (omega (arith, p))
free_from_free (suc rounds) contacts base name i p free = rw free refl

first_name :
    (contacts : Book) (base : Text)
    → (Table.has petname base contacts ≡ true) ⊎ (free_petname contacts base ≡ base)
unfolding free_petname
first_name contacts base = elim (Bool-cases (Table.has petname base contacts)) [
  | inl taken ↦ inl taken
  | inr free ↦ inr (free_from_free (length contacts + 1) contacts base base 2 (omega arith) free)
]

-- The search for a petname ends within one round more than there are contacts, and takes the name
-- itself if it is free: a contact that is added from a room or a request has a petname that no
-- other one has, and every other petname leads to the same entry as before.
pub add_contact_from_roster_lem :
    (node : Text) (pubkey screen : Option Text) (contacts : Book)
    → let (book, name) = add_contact_from_roster node pubkey screen contacts in
      (Table.has petname name contacts ≡ false)
      × ((Table.has petname (screen_or screen node) contacts ≡ true)
          ⊎ (name ≡ screen_or screen node))
      × (resolve_buddy name book
          ≡ some
              (record { pubkey = pubkey; node = some node; screen = some (screen_or screen node) }))
      × ((other : Text)
          → (other ≡ name) ⊎ (resolve_buddy other book ≡ resolve_buddy other contacts))
unfolding add_contact_from_roster
add_contact_from_roster_lem node pubkey screen contacts =
    let base = screen_or screen node in
    let name = free_petname contacts base in
    let entry : BookEntry = record { pubkey = pubkey; node = some node; screen = some base } in
    (
      free_petname-IsFree contacts base,
      first_name contacts base,
      resolve_buddy-put_entry name name entry contacts
          ∙ (let same : text_eq name name ≡ true = (text_eq_iff name name).1 refl in rw same refl),
      λ other. elim (Bool-cases (text_eq name other)) [
        | inl e ↦ inl (sym ((text_eq_iff name other).0 e))
        | inr n ↦ inr (resolve_buddy-put_entry name other entry contacts ∙ (rw n refl))
      ],
    )
