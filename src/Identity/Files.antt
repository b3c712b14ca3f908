-- ===== src/Identity/Files.antt =====
-- The identity file and the backup bundle read back, of client/aimless/crypto.py and
-- client/aimless/keys.py.
use aimless.Prelude.{length, ◌≡◌, refl, ap, some, Text, codes, text_eq, ◌==◌, true}
use aimless.Store.Rows.{Bytes}
use aimless.Sync.{opened}
use aimless.Protocol.Crypto.{str, Fields, get}
use aimless.Identity.{
  Vault, save_identity, load_identity, bytes_at, open_secret, want_seed, save_bundle, load_bundle,
  identity_fields, bundle_fields,
}

module _ {Key J : Type 0} (vault : Vault Key J) where
  open vault use {crypto, seed_bytes, signing_key, kdf_key, encrypt, decrypt}
  open crypto use {b64encode, b64decode, loads_bytes}

  pub bytes_at_lem :
      (key : Text) (fields : Fields J) (b : Bytes)
      → get key fields ≡ some (str (b64encode b))
      → bytes_at vault key fields ≡ opened b
  unfolding bytes_at
  bytes_at_lem key fields b h = rw (h, bytes_at) (rw (crypto.b64decode-b64encode b) refl)

  pub open_secret_lem :
      (passphrase : Text) (fields : Fields J) (salt nonce secret : Bytes)
      → get (codes "salt") fields ≡ some (str (b64encode salt))
      → get (codes "ct") fields
        ≡ some (str (b64encode (encrypt (kdf_key passphrase salt) nonce secret)))
      → open_secret vault passphrase fields ≡ opened secret
  unfolding open_secret
  open_secret_lem passphrase fields salt nonce secret s c =
      rw (bytes_at_lem (codes "salt") fields salt s, open_secret)
        (rw (bytes_at_lem (codes "ct") fields (encrypt (kdf_key passphrase salt) nonce secret) c)
          (rw (vault.decrypt-encrypt (kdf_key passphrase salt) nonce secret) refl))

  want_seed-seed_bytes : (k : Key) → want_seed vault (seed_bytes k) ≡ opened k
  want_seed-seed_bytes k =
      let full : (length (seed_bytes k) == 32) ≡ true =
        ap (λ n. n == 32) (vault.length-seed_bytes k) in
      rw full (ap opened (vault.signing_key-seed_bytes k))

  -- With the passphrase of the file, `load_identity` returns the identity that `save_identity` wrote.
  pub load_identity-save_identity :
      (salt nonce : Bytes) (identity : Key) (passphrase : Text)
      → load_identity vault (save_identity vault salt nonce identity passphrase) passphrase
        ≡ opened identity
  unfolding load_identity save_identity get text_eq
  load_identity-save_identity salt nonce identity passphrase =
      let ct = encrypt (kdf_key passphrase salt) nonce (seed_bytes identity) in
      let fields = identity_fields vault salt ct in
      rw (crypto.loads_bytes-dumps fields, load_identity, save_identity)
        (rw (open_secret_lem passphrase fields salt nonce (seed_bytes identity) refl refl)
          (want_seed-seed_bytes identity))

  -- With the passphrase of the bundle, `load_bundle` returns the dictionary that `save_bundle` wrote.
  pub load_bundle-save_bundle :
      (salt nonce : Bytes) (passphrase : Text) (fields : Fields J)
      → load_bundle vault (save_bundle vault salt nonce passphrase fields) passphrase
        ≡ opened fields
  unfolding load_bundle save_bundle get text_eq
  load_bundle-save_bundle salt nonce passphrase fields =
      let ct = encrypt (kdf_key passphrase salt) nonce (crypto.dumps fields) in
      let blob = bundle_fields vault salt ct in
      rw (crypto.loads_bytes-dumps blob, load_bundle, save_bundle)
        (rw (open_secret_lem passphrase blob salt nonce (crypto.dumps fields) refl refl)
          (rw (crypto.loads_bytes-dumps fields) refl))
