-- ===== src/Cli/Sent.antt =====
-- When client/aimless/cli.py stores a message that it sends.
use aimless.Prelude.{ℕ, ◌≡◌, refl, none, some, [], ◌∷◌, Text, codes, inl, inr, ◌⊎◌, Option-cases}
use aimless.Store.Rows.{Bytes, Store, Nonces, Box}
use aimless.Store.Messages.{add_sent}
use aimless.Protocol.Crypto.{Crypto, Fields, get}
use aimless.Daemon.Client.{Daemon, send}
use aimless.Cli.{done, raises, seq_number, send_and_store}

module _ {Key J N S : Type 0} (crypto : Crypto Key N) (daemon : Daemon S N) (box : Box J) where
  -- The message is stored exactly if the daemon took it: where the request fails, the command raises and
  -- the store is as before; else it returns, and the store has the text under the sequence number of
  -- the reply, or 0.
  send_and_store_lem :
      (seed : Bytes) (fresh : Nonces) (identity : Key) (screen_name pubkey node text : Text)
      (ts : ℕ) (s : S) (store : Store)
      → let ((s1, later), ended) =
          send_and_store crypto daemon box seed fresh identity screen_name pubkey node text ts s
            store in
        ((ended ≡ raises) × (later ≡ store))
        ⊎ ((ended ≡ done)
            × ((fields : Fields N) × ((send crypto daemon seed identity screen_name pubkey node text
                    ts s).1
                  ≡ some fields)
                × (later
                    ≡ (add_sent box fresh node
                        ((node, seq_number (get (codes "seq") fields)) ∷ [])
                        ts
                        (some text)
                        none
                        none
                        store).0)))
  unfolding send_and_store
  send_and_store_lem seed fresh identity screen_name pubkey node text ts s store =
      elim (Option-cases (send crypto daemon seed identity screen_name pubkey node text ts s).1) [
        | inl n ↦ rw (n, send_and_store) (inl (refl, refl))
        | inr (fields, r) ↦ rw (r, send_and_store) (inr (refl, (fields, refl, refl)))
      ]
