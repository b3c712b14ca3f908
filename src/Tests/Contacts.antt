-- ===== src/Tests/Contacts.antt =====
-- The theorems about the contacts, the backup and the log files at concrete books and files.
use aimless.Prelude.{
  ℕ, ◌≡◌, ◌⊎◌, refl, Bool, true, false, none, some, List, [], ◌∷◌, ◌++◌, Text, codes, length,
  replicate, count, text_eq, text_key, All, arith, map,
}
use aimless.Prelude.Table
use aimless.Store.Rows.{Bytes}
use aimless.Sync.{opened}
use aimless.Protocol.Hex.{to_hex, hex_char}
use aimless.Contacts.{
  Book, BookEntry, petname, screen_or, add_contact_from_roster, resolve_buddy, add_invite, added,
  cmd_add, known_as,
}
use aimless.Contacts.Petname
use aimless.Contacts.Unique
use aimless.Contacts.Unique.{IsBook}
use aimless.Protocol.Invite.{make_invite, strip, lstrip, is_space}
use aimless.Protocol.Crypto.{nested}
use aimless.Identity.{Vault, Disk, load_identity, save_bundle, backup_payload, restore_bundle}
use aimless.Identity.Backup
use aimless.Logging.{LogFiles, Attempt, log_all, max_log_bytes}
use aimless.Logging.Bounds
use aimless.Logging.Bounds.{IsSmall, IsShort}
use aimless.Tests.{alice, bob}
use aimless.Tests.Codec.{plain_crypto}

abbrev own : BookEntry
own = record { pubkey = some (codes "bb"); node = none; screen = some (codes "me") }

abbrev al : BookEntry
al = record { pubkey = some (codes "aa"); node = some alice; screen = some (codes "al") }

abbrev book : Book
book = (codes "_self", own) ∷ (codes "al", al) ∷ []

-- A second node with the screen name "al".
add_contact_from_roster_example :
    let (later, name) = add_contact_from_roster bob (some (codes "cc")) (some (codes "al")) book in
    (Table.has petname name book ≡ false)
    × ((Table.has petname (screen_or (some (codes "al")) bob) book ≡ true)
        ⊎ (name ≡ screen_or (some (codes "al")) bob))
    × (resolve_buddy name later
        ≡ some (record {
          pubkey = some (codes "cc");
          node = some bob;
          screen = some (screen_or (some (codes "al")) bob);
        }))
    × ((other : Text) → (other ≡ name) ⊎ (resolve_buddy other later ≡ resolve_buddy other book))
add_contact_from_roster_example =
    Petname.add_contact_from_roster_lem bob (some (codes "cc")) (some (codes "al")) book

book-IsBook : IsBook book
unfolding Table.has text_eq count
book-IsBook = ((refl, (refl, tt)), λ client. ground arith)

-- An invite from the screen name "al".
abbrev invite : Text
invite =
    elim (make_invite (replicate 31 0 ++ 7 ∷ []) (to_hex (replicate 31 0 ++ 9 ∷ [])) (codes "al")) [
      | none ↦ []
      | some t ↦ t
    ]

cmd_add-IsBook_example : IsBook (cmd_add invite (some (codes "al 2")) none book).0
cmd_add-IsBook_example = Unique.cmd_add-IsBook invite (some (codes "al 2")) none book book-IsBook

new_key : known_as (codes "cc") book ≡ none
unfolding known_as text_eq
new_key = refl

-- An invite with the screen name "_self".
add_invite_taken_example :
    let (later, outcome) = add_invite (codes "cc") bob (codes "_self") (codes "_self") book in
    (outcome ≡ added)
    × (length later ≡ length book)
    × (map petname later ≡ map petname book)
    × (resolve_buddy (codes "_self") later
        ≡ some
            (record { pubkey = some (codes "cc"); node = some bob; screen = some (codes "_self") }))
unfolding Table.has text_eq
add_invite_taken_example =
    Unique.add_invite_taken (codes "cc") bob (codes "_self") (codes "_self") book new_key refl

-- A seed is 31 zeros after a number, and nothing is encrypted.
abbrev seed : ℕ → Bytes
seed n = n ∷ replicate 31 0

abbrev first : Bytes → ℕ
first [] = 0
first (n ∷ ns) = n

abbrev is_full : Text → Bool
is_full [] = false
is_full (c ∷ cs) = true

abbrev vault : Vault ℕ Text
vault = record {
  crypto = plain_crypto;
  seed_bytes = seed;
  signing_key = first;
  kdf_key = λ passphrase salt. passphrase ++ salt;
  encrypt = λ key nonce m. m;
  decrypt = λ key ct. some ct;
  null = [];
  truthy = is_full;
  signing_key-seed_bytes = λ k. refl;
  length-seed_bytes = λ k. refl;
  decrypt-encrypt = λ key nonce m. refl;
  truthy_null = refl;
}

abbrev node_file : Text
node_file = to_hex (1 ∷ 171 ∷ []) ++ 10 ∷ []

node_file-strip : strip node_file ≡ to_hex (1 ∷ 171 ∷ [])
unfolding strip to_hex lstrip is_space hex_char
node_file-strip = refl

abbrev fresh_disk : Disk Text
fresh_disk = record { identity = none; node_key = none; contacts = none }

restore_bundle-save_bundle_example :
    let fields = backup_payload vault 5 (some node_file) (codes "me") (codes "bb") (codes "al") in
    let file = save_bundle vault (1 ∷ []) (2 ∷ []) (codes "pw") fields in
    let (later, result) =
      restore_bundle vault (3 ∷ []) (4 ∷ []) file (codes "pw") (codes "new") fresh_disk in
    (result ≡ opened fields)
    × ((written : Bytes) × (later.identity ≡ some written)
        × (load_identity vault written (codes "new") ≡ opened 5))
    × (later.node_key ≡ some (to_hex (1 ∷ 171 ∷ []) ++ 10 ∷ []))
    × (later.contacts ≡ some (nested (codes "al")))
restore_bundle-save_bundle_example =
    Backup.restore_bundle-save_bundle vault (1 ∷ []) (2 ∷ []) (3 ∷ []) (4 ∷ []) 5 node_file
      (codes "me") (codes "bb") 1 (171 ∷ []) (codes "al") (codes "pw") (codes "new") fresh_disk
      (omega arith) (omega arith) node_file-strip refl

abbrev attempts : List Attempt
attempts =
    record { renames = true; opens = true; stamp = codes "12:00"; line = codes "one" }
    ∷ record { renames = true; opens = false; stamp = codes "12:01"; line = codes "two" }
    ∷ []

abbrev no_files : LogFiles
no_files = record { file = none; rotated = none }

attempts-IsShort : All (IsShort (λ t. t) 80) attempts
attempts-IsShort = ((omega arith, refl), ((omega arith, refl), tt))

log_all-IsSmall_example :
    IsSmall max_log_bytes 80 (log_all (λ t. t) max_log_bytes attempts no_files)
log_all-IsSmall_example =
    Bounds.log_all-IsSmall (λ t. t) max_log_bytes 80 attempts no_files attempts-IsShort
      (omega arith, omega arith)
