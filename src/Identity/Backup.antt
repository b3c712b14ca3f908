-- ===== src/Identity/Backup.antt =====
-- A backup that is restored, of client/aimless/gtkui.py.
use aimless.Prelude.{
  codes, ◌≡◌, ◌<◌, ℕ, refl, ap, ◌∙◌, some, Option, [], ◌∷◌, ◌++◌, Text, All, true, text_eq, length,
  ◌==◌,
}
use aimless.Store.Rows.{Bytes}
use aimless.Sync.{opened}
use aimless.Protocol.Hex.{to_hex, from_hex-to_hex}
use aimless.Protocol.Invite.{strip}
use aimless.Protocol.Crypto.{get, str, nested, Fields}
use aimless.Identity.{
  Vault, Disk, save_identity, load_identity, save_bundle, backup_payload, identity_seed,
  restore_node_key, restore_contacts, write_restored, restore_bundle,
}
use aimless.Identity.Files.{load_identity-save_identity, load_bundle-save_bundle}

module _ {Key J : Type 0} (vault : Vault Key J) where
  identity_seed-backup_payload :
      (identity : Key) (node_key : Option Text) (screen pubkey : Text) (contacts : J)
      → All (λ b. b < 256) (vault.seed_bytes identity)
      → identity_seed vault (backup_payload vault identity node_key screen pubkey contacts)
        ≡ opened (vault.seed_bytes identity)
  unfolding backup_payload get text_eq identity_seed
  identity_seed-backup_payload identity node_key screen pubkey contacts v =
      let full : (length (vault.seed_bytes identity) == 32) ≡ true =
        ap (λ n. n == 32) (vault.length-seed_bytes identity) in
      rw (from_hex-to_hex (vault.seed_bytes identity) v, identity_seed) (rw full refl)

  restore_node_key_lem :
      (fields : Fields J) (b : ℕ) (bs : Bytes) (disk : Disk J)
      → All (λ c. c < 256) (b ∷ bs)
      → get (codes "nodeSeed") fields ≡ some (str (to_hex (b ∷ bs)))
      → restore_node_key vault fields disk
        ≡ (record disk { node_key = some (to_hex (b ∷ bs) ++ 10 ∷ []) }, opened tt)
  unfolding restore_node_key to_hex
  restore_node_key_lem fields b bs disk w h =
      rw (h, restore_node_key) (rw (from_hex-to_hex (b ∷ bs) w, to_hex) refl)

  -- A bundle that was exported with contacts that are not empty, and with a `node.key` that is some
  -- bytes in hex up to white space, is restored, on any disk and under any new passphrase, to an
  -- identity file that opens with that passphrase to the exported identity, to the exported contacts,
  -- and to the `node.key` of the exported seed.
  pub restore_bundle-save_bundle :
      (salt nonce salt' nonce' : Bytes) (identity : Key) (node_file screen pubkey : Text) (b : ℕ)
      (bs : Bytes) (contacts : J) (bundle_passphrase app_passphrase : Text) (disk : Disk J)
      → All (λ c. c < 256) (vault.seed_bytes identity)
      → All (λ c. c < 256) (b ∷ bs)
      → strip node_file ≡ to_hex (b ∷ bs)
      → vault.truthy contacts ≡ true
      → let fields = backup_payload vault identity (some node_file) screen pubkey contacts in
        let file = save_bundle vault salt nonce bundle_passphrase fields in
        let (later, result) =
          restore_bundle vault salt' nonce' file bundle_passphrase app_passphrase disk in
        (result ≡ opened fields)
        × ((written : Bytes) × (later.identity ≡ some written)
            × (load_identity vault written app_passphrase ≡ opened identity))
        × (later.node_key ≡ some (to_hex (b ∷ bs) ++ 10 ∷ []))
        × (later.contacts ≡ some (nested contacts))
  unfolding backup_payload get text_eq write_restored restore_contacts restore_bundle
  restore_bundle-save_bundle salt nonce salt' nonce' identity node_file screen pubkey b bs contacts
        bundle_passphrase app_passphrase disk v w stripped full =
      let fields = backup_payload vault identity (some node_file) screen pubkey contacts in
      let written =
        save_identity vault salt' nonce' (vault.signing_key (vault.seed_bytes identity))
          app_passphrase in
      let disk1 : Disk J = record disk { identity = some written } in
      rw (load_bundle-save_bundle vault salt nonce bundle_passphrase fields, restore_bundle)
        (rw (identity_seed-backup_payload identity (some node_file) screen pubkey contacts v) (
          rw (restore_node_key_lem fields b bs disk1 w (ap (λ t. some (str t)) stripped)) (
            rw full (
              refl,
              (
                written,
                refl,
                ap
                      (λ k.
                        load_identity vault (save_identity vault salt' nonce' k app_passphrase)
                          app_passphrase)
                      (vault.signing_key-seed_bytes identity)
                    ∙ load_identity-save_identity vault salt' nonce' identity app_passphrase,
              ),
              refl,
              refl,
            ))))
