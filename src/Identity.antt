-- ===== src/Identity.antt =====
-- client/aimless/crypto.py and client/aimless/keys.py: the identity file and the backup bundles, with
-- their use in client/aimless/gtkui.py.
--
-- To load gives a value, or raises a `ValueError` or `KeyError` (`refused`), or another exception
-- (`raised`). A file is what was last written to its path; `indent` of `json.dumps` is left out.
pub mod Files
pub mod Backup
use aimless.Prelude.{
  ℕ, ◌^◌, ◌≡◌, Bool, true, false, not, Option, none, some, List, [], ◌∷◌, ◌++◌, Text, codes, ◌==◌,
  length, if◌then◌else◌,
}
use aimless.Store.Rows.{Bytes}
use aimless.Sync.{Outcome, opened, refused, raised}
use aimless.Protocol.Hex.{to_hex, from_hex}
use aimless.Protocol.Invite.{strip}
use aimless.Protocol.Crypto.{Crypto, Value, str, num, nested, Fields, get}
use aimless.Protocol.Envelope.{◌>>=◌, or_refuse, want_text, want_dict}

-- What the two modules take from pynacl and hashlib beside `Crypto`: `bytes(identity)`,
-- `SigningKey(seed)`, `scrypt` of the encoded passphrase and a salt, and `SecretBox(key)` with its
-- nonce; and of `json` the value `null` and the test whether a value counts as true.
pub record Vault (Key J : Type 0) : Type 0 where
  pub crypto : Crypto Key J
  pub seed_bytes : Key → Bytes
  pub signing_key : Bytes → Key
  pub kdf_key : Text → Bytes → Bytes
  pub encrypt : Bytes → Bytes → Bytes → Bytes
  pub decrypt : Bytes → Bytes → Option Bytes
  pub null : J
  pub truthy : J → Bool
  pub signing_key-seed_bytes : (k : Key) → signing_key (seed_bytes k) ≡ k
  pub length-seed_bytes : (k : Key) → length (seed_bytes k) ≡ 32
  pub decrypt-encrypt : (key nonce m : Bytes) → decrypt key (encrypt key nonce m) ≡ some m
  pub truthy_null : truthy null ≡ false

-- `KDF_N`, `KDF_R`, `KDF_P` and `BUNDLE_VERSION`
abbrev pub kdf_n : ℕ
kdf_n = 2 ^ 15

abbrev pub kdf_r : ℕ
kdf_r = 8

abbrev pub kdf_p : ℕ
kdf_p = 1

abbrev pub bundle_version : ℕ
bundle_version = 1

-- The files below the data directory: the identity file, `node.key`, and the JSON value in the
-- contacts file.
pub record Disk (J : Type 0) : Type 0 where
  pub identity : Option Bytes
  pub node_key : Option Text
  pub contacts : Option (Value J)

-- Whether a number is the given one; `true` and 1.0, which Python takes for 1, are left out.
abbrev pub is_value : {J : Type 0} → Option (Value J) → ℕ → Bool
is_value (some (num m)) n = m == n
is_value (some (str t)) n = false
is_value (some (nested j)) n = false
is_value none n = false

module _ {Key J : Type 0} (vault : Vault Key J) where
  open vault use {crypto, seed_bytes, signing_key, kdf_key, encrypt, decrypt, null, truthy}
  open crypto use {b64encode, b64decode, dumps, loads_bytes}

  -- The dictionary of `save_identity`
  abbrev pub identity_fields : Bytes → Bytes → Fields J
  identity_fields salt ct =
      (codes "v", num 1)
      ∷ (codes "kdf", str (codes "scrypt"))
      ∷ (codes "n", num kdf_n)
      ∷ (codes "r", num kdf_r)
      ∷ (codes "p", num kdf_p)
      ∷ (codes "salt", str (b64encode salt))
      ∷ (codes "ct", str (b64encode ct))
      ∷ []

  -- The bytes that `save_identity` writes, with the salt and the nonce that it draws
  unfoldable pub save_identity : Bytes → Bytes → Key → Text → Bytes
  save_identity salt nonce identity passphrase =
      dumps (identity_fields salt (encrypt (kdf_key passphrase salt) nonce (seed_bytes identity)))

  -- `b64decode(data[key])`
  unfoldable pub bytes_at : Text → Fields J → Outcome Bytes
  bytes_at key fields = do
    value ← or_refuse (get key fields)
    text ← want_text value
    or_refuse (b64decode text)

  -- The salt and the ciphertext of a file, opened with the passphrase
  unfoldable pub open_secret : Text → Fields J → Outcome Bytes
  unfolding bytes_at
  open_secret passphrase fields = do
    salt ← bytes_at (codes "salt") fields
    ct ← bytes_at (codes "ct") fields
    or_refuse (decrypt (kdf_key passphrase salt) ct)

  abbrev pub want_seed : Bytes → Outcome Key
  want_seed seed = if length seed == 32 then opened (signing_key seed) else refused

  -- `load_identity`
  unfoldable pub load_identity : Bytes → Text → Outcome Key
  unfolding open_secret
  load_identity file passphrase = do
    document ← or_refuse (loads_bytes file)
    fields ← want_dict document
    seed ← open_secret passphrase fields
    want_seed seed

  -- The dictionary of `save_bundle`
  abbrev pub bundle_fields : Bytes → Bytes → Fields J
  bundle_fields salt ct =
      (codes "v", num bundle_version)
      ∷ (codes "kdf", str (codes "scrypt"))
      ∷ (codes "salt", str (b64encode salt))
      ∷ (codes "ct", str (b64encode ct))
      ∷ []

  -- The bytes that `save_bundle` writes
  unfoldable pub save_bundle : Bytes → Bytes → Text → Fields J → Bytes
  save_bundle salt nonce passphrase fields =
      dumps (bundle_fields salt (encrypt (kdf_key passphrase salt) nonce (dumps fields)))

  abbrev pub want_version : Fields J → Outcome (Fields J)
  want_version blob =
      if is_value (get (codes "v") blob) bundle_version then opened blob else refused

  -- `load_bundle`
  unfoldable pub load_bundle : Bytes → Text → Outcome (Fields J)
  unfolding open_secret
  load_bundle file passphrase = do
    document ← or_refuse (loads_bytes file)
    blob ← want_dict document
    blob ← want_version blob
    plain ← open_secret passphrase blob
    inner ← or_refuse (loads_bytes plain)
    want_dict inner

  -- `_backup_payload`, with the text of `node.key` if it can be read
  unfoldable pub backup_payload : Key → Option Text → Text → Text → J → Fields J
  backup_payload identity node_key screen pubkey contacts =
      (codes "identitySeed", str (to_hex (seed_bytes identity)))
      ∷ (codes "nodeSeed", elim node_key [ none ↦ nested null | some text ↦ str (strip text) ])
      ∷ (codes "screen", str screen)
      ∷ (codes "pubkey", str pubkey)
      ∷ (codes "contacts", nested contacts)
      ∷ []

  -- `bytes.fromhex(data.get("identitySeed", ""))` of 32 bytes
  unfoldable pub identity_seed : Fields J → Outcome Bytes
  identity_seed fields = do
    text ← elim (get (codes "identitySeed") fields) [ none ↦ opened [] | some v ↦ want_text v ]
    seed ← or_refuse (from_hex text)
    if length seed == 32 then opened seed else refused

  -- `if data.get("nodeSeed"): write_node_key(…, bytes.fromhex(data["nodeSeed"]))`
  unfoldable pub restore_node_key : Fields J → Disk J → Disk J × Outcome Unit
  restore_node_key fields disk = elim (get (codes "nodeSeed") fields) [
    | none ↦ (disk, opened tt)
    | some (num n) ↦ (disk, if n == 0 then opened tt else raised)
    | some (nested j) ↦ (disk, if truthy j then raised else opened tt)
    | some (str []) ↦ (disk, opened tt)
    | some (str (c ∷ cs)) ↦ elim (from_hex (c ∷ cs)) [
      | none ↦ (disk, refused)
      | some seed ↦ (record disk { node_key = some (to_hex seed ++ 10 ∷ []) }, opened tt)
    ]
  ]

  -- `if data.get("contacts"): save_contacts(…)`
  unfoldable pub restore_contacts : Fields J → Disk J → Disk J
  restore_contacts fields disk = record disk {
    contacts = elim (get (codes "contacts") fields) [
      | none ↦ disk.contacts
      | some (str []) ↦ disk.contacts
      | some (str (c ∷ cs)) ↦ some (str (c ∷ cs))
      | some (num n) ↦ if n == 0 then disk.contacts else some (num n)
      | some (nested j) ↦ if truthy j then some (nested j) else disk.contacts
    ];
  }

  abbrev pub then_contacts : Fields J → Disk J × Outcome Unit → Disk J × Outcome (Fields J)
  then_contacts fields (disk, opened _) = (restore_contacts fields disk, opened fields)
  then_contacts fields (disk, refused) = (disk, refused)
  then_contacts fields (disk, raised) = (disk, raised)

  -- The writes of `restore_bundle`, for the seed of the bundle
  unfoldable pub write_restored :
      Bytes → Bytes → Text → Fields J → Bytes → Disk J → Disk J × Outcome (Fields J)
  unfolding save_identity restore_node_key restore_contacts
  write_restored salt nonce app_passphrase fields seed disk =
      let disk1 = record disk {
        identity = some (save_identity salt nonce (signing_key seed) app_passphrase);
      } in
      then_contacts fields (restore_node_key fields disk1)

  -- `restore_bundle`, with the salt and the nonce of the identity file
  unfoldable pub restore_bundle :
      Bytes → Bytes → Bytes → Text → Text → Disk J → Disk J × Outcome (Fields J)
  unfolding load_bundle identity_seed write_restored
  restore_bundle salt nonce file bundle_passphrase app_passphrase disk =
      elim (load_bundle file bundle_passphrase) [
        | refused ↦ (disk, refused)
        | raised ↦ (disk, raised)
        | opened fields ↦ elim (identity_seed fields) [
          | refused ↦ (disk, refused)
          | raised ↦ (disk, raised)
          | opened seed ↦ write_restored salt nonce app_passphrase fields seed disk
        ]
      ]
