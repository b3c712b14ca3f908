-- ===== src/Gtk/Deliveries.antt =====
-- client/aimless/gtkui.py: the delivery of the files that were sent.
--
-- The records that `_pending_files` shares between its keys stand in `recs`, under the numbers in
-- which they were made.
pub mod Early
use aimless.Prelude.{
  ℕ, Bool, true, false, not, ◌&&◌, none, some, List, [], ◌∷◌, ◌++◌, map, Text, text_eq, text_key,
  chunk_key, chunk_eq, nat_key, codes, any, ltb, ◌==◌, ◌-◌, length, select, if◌then◌else◌,
}
use aimless.Prelude.Table
use aimless.Prelude.Decimal.{decimal}
use aimless.Store.Rows.{Store}
use aimless.Store.Deliveries.{groups, mark_delivered, delivery_members}

-- A record of `register_file_delivery`: the text of its row, the file and the acks that are missing.
pub record Tracked : Type 0 where
  pub id : ℕ
  pub text : Text
  pub filename : Text
  pub keys : List (Text × ℕ)
  pub members_total : ℕ

pub record Tracker : Type 0 where
  pub store : Store
  pub acked_seen : List (Text × ℕ)
  pub pending_files : List ((Text × ℕ) × ℕ)
  pub recs : List Tracked
  pub bubble_status : List (Text × Text)

-- `len({n for n, _ in keys})`
unfoldable pub nodes_of : List (Text × ℕ) → ℕ
unfolding groups
nodes_of keys = length (groups text_eq (map (λ (k : Text × ℕ). k.0) keys))

-- `_set_delivery_text`
unfoldable pub set_delivery_text : Tracked → Tracked
unfolding nodes_of
set_delivery_text rec =
    let total = rec.members_total in
    let left = nodes_of rec.keys in
    let text : Text =
      if total == 0
      then codes "Sent " ++ rec.filename
      else if left == 0
      then codes "Delivered " ++ rec.filename ++ codes " ✓"
      else if total == 1
      then codes "Sending " ++ rec.filename ++ codes "…"
      else codes "Sending "
        ++ rec.filename
        ++ codes " - "
        ++ decimal (total - left)
        ++ b'/' ∷ decimal total
        ++ codes " delivered" in
    record rec { text = text }

abbrev pub pending_key : (Text × ℕ) × ℕ → Text × ℕ
pending_key e = e.0

-- `for k in pending: self._pending_files[k] = rec`
unfoldable pub track : ℕ → List (Text × ℕ) → List ((Text × ℕ) × ℕ) → List ((Text × ℕ) × ℕ)
track id [] files = files
track id (k ∷ keys) files = track id keys (Table.upsert pending_key (k, id) (λ _. (k, id)) files)

-- `register_file_delivery`
unfoldable pub register_file_delivery : Text → List (Text × ℕ) → Tracker → Tracker
unfolding nodes_of track set_delivery_text groups
register_file_delivery filename keys t =
    let acked = λ (k : Text × ℕ). any (chunk_eq k) t.acked_seen in
    let sent = groups chunk_eq (select (λ k. not (k.1 == 0)) keys) in
    let pending = select (λ k. not (acked k)) sent in
    let id = length t.recs in
    let rec : Tracked = record {
      id = id;
      text = [];
      filename = filename;
      keys = pending;
      members_total = nodes_of sent;
    } in
    record t {
      pending_files = track id pending t.pending_files;
      recs = t.recs ++ set_delivery_text rec ∷ [];
    }

-- `self._acked_seen.add(key)`, and `clear` above 4096 keys
unfoldable pub see : Text × ℕ → List (Text × ℕ) → List (Text × ℕ)
see key seen =
    let more = if any (chunk_eq key) seen then seen else seen ++ key ∷ [] in
    if ltb 4096 (length more) then [] else more

-- The label under a message after an ack
unfoldable pub set_bubble_status : Store → Text → List (Text × Text) → List (Text × Text)
unfolding delivery_members
set_bubble_status s mid labels =
    let (total, done) = delivery_members s mid in
    Table.update (λ (l : Text × Text). l.0) mid
      (λ l.
        if not (total == 0) && not (ltb done total)
        then (mid, codes "✓ delivered")
        else if not (total == 0)
        then (mid, codes "• " ++ decimal done ++ b'/' ∷ decimal total ++ codes " delivered")
        else l)
      labels

-- `note_acked`, with its result
unfoldable pub note_acked : Text → ℕ → Tracker → Tracker × Bool
unfolding see set_delivery_text set_bubble_status mark_delivered
note_acked node seq t =
    let key : Text × ℕ = (node, seq) in
    let (store, mid) = mark_delivered node seq t.store in
    let found = Table.find pending_key key t.pending_files in
    (
      record t {
        store = store;
        acked_seen = see key t.acked_seen;
        pending_files = Table.delete pending_key key t.pending_files;
        recs = elim found [
          | none ↦ t.recs
          | some (_, id) ↦
              Table.update Tracked.id id
                (λ r.
                  set_delivery_text (record r { keys = select (λ k. not (chunk_eq key k)) r.keys }))
                t.recs
        ];
        bubble_status = elim mid [
          | none ↦ t.bubble_status
          | some m ↦ set_bubble_status store m t.bubble_status
        ];
      },
      elim found [ none ↦ false | some _ ↦ true ],
    )
