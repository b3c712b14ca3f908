-- ===== src/Gtk/Transfers.antt =====
-- client/aimless/gtkui.py: the reassembly of the files that arrive.
--
-- A field of a chunk that is no text where a text belongs counts as missing.
pub mod Files
use aimless.Prelude.{
  ℕ, Bool, true, false, not, ◌&&◌, ◌||◌, Option, none, some, List, [], ◌∷◌, ◌++◌, Text, text_eq,
  text_key, pair_key, nat_key, codes, ◌==◌, length, if◌then◌else◌, max, take, ltb, suc, ◌+◌,
}
use aimless.Prelude.Table
use aimless.Prelude.Decimal.{decimal}
use aimless.Store.Rows.{Bytes, Nonces}
use aimless.Store.Messages.{ingest}
use aimless.Store.Conversations.{is_conversation_muted, is_muted}
use aimless.Sync.{Outcome, opened, refused, raised}
use aimless.Protocol.Crypto.{Crypto, Value, str, num, nested, Fields, get}
use aimless.Protocol.Hex.{to_hex}
use aimless.Protocol.Envelope.{◌>>=◌, open_file_chunk}
use aimless.Protocol.Files.{Payload, parse_file_payload, reassemble_file}
use aimless.Contacts.{is_some_text}
use aimless.Gtk.{Thread, RoomMember, Bubble, Buffer, View, Gui}
use aimless.Gtk.Alerts.{alert}
use aimless.Gtk.Attachments.{attachment_path}

-- `fields.get(key) or default`
abbrev pub or_default : {N : Type 0} → Option (Value N) → Text → Text
or_default (some (str (c ∷ cs))) default = c ∷ cs
or_default (some (str [])) default = default
or_default (some (num n)) default = default
or_default (some (nested j)) default = default
or_default none default = default

abbrev pub is_text : {N : Type 0} → Option (Value N) → Text → Bool
is_text (some (str t)) text = text_eq t text
is_text (some (num n)) text = false
is_text (some (nested j)) text = false
is_text none text = false

abbrev pub is_number : {N : Type 0} → Option (Value N) → ℕ → Bool
is_number (some (num m)) n = m == n
is_number (some (str t)) n = false
is_number (some (nested j)) n = false
is_number none n = false

abbrev pub chunk_index : ℕ × Bytes → ℕ
chunk_index c = c.0

-- Whether the routing header of a chunk is what its sealed body says.
unfoldable pub header_matches : {N : Type 0} → Payload → Fields N → Bool
header_matches parsed chunk =
    is_text (get (codes "transfer_id") chunk) (to_hex parsed.tid)
    && is_number (get (codes "index") chunk) parsed.index
    && is_number (get (codes "total") chunk) parsed.total

-- `_sender_label` of a message from another node
unfoldable pub sender_label : Option Thread → Text → Option Text
sender_label found node =
    if text_eq node [] || text_eq node (codes "self") then none else elim found [
      | none ↦ some (take 8 node)
      | some thread ↦ elim (Table.find RoomMember.node node thread.members) [
        | some m ↦ elim m.screen [ [] ↦ some (take 8 node) | c ∷ cs ↦ some (c ∷ cs) ]
        | none ↦ elim thread.contact [
          | none ↦ some (take 8 node)
          | some contact ↦
              some (if is_some_text contact.node node then thread.screen else take 8 node)
        ]
      ]
    ]

abbrev pub is_selected : {N : Type 0} → View N → Text → Bool
is_selected v conv = elim v.selected [ none ↦ false | some s ↦ text_eq s conv ]

-- `_alert_state`
unfoldable pub alert_state : {N : Type 0} → View N → Text → Text → Bool × Bool × Bool
alert_state v conv node = (
  v.active && v.messages_page && is_selected v conv,
  is_conversation_muted v.store conv,
  is_muted v.store node,
)

-- What a stored message does to the open conversation and to the sidebar: its bubble is appended if
-- its thread is the selected one, and it counts as unread otherwise.
unfoldable pub show_in_thread : {N : Type 0} → Text → Text → Bubble → View N → View N
show_in_thread conv preview bubble v = record v {
  threads =
      Table.update Thread.conv conv
        (λ t. record t {
          preview = preview;
          unread = if is_selected v conv then t.unread else t.unread + 1;
        })
        v.threads;
  bubbles =
      if Table.has Thread.conv conv v.threads && is_selected v conv
      then v.bubbles ++ bubble ∷ []
      else v.bubbles;
}

-- What comes with an event: its sender, its sequence number and time, the nonces that the store
-- draws, the environment variable AIMLESS_SOUND and the clock.
pub record Arrival : Type 0 where
  pub node : Text
  pub seq : ℕ
  pub ts : ℕ
  pub fresh : Nonces
  pub env : Option Text
  pub now : ℕ

module _ {Key N J : Type 0} (setting : Gui Key N J) where
  open setting use {crypto, identity, box, attachment, sha256, attachments_dir}

  -- The opening of a chunk in `_incoming_file` and `_process_fetched_transfer`
  unfoldable pub read_chunk : Text → Outcome (Payload × Fields N)
  read_chunk payload = parse_file_payload crypto payload >>= λ parsed.
      open_file_chunk crypto identity parsed.sealed >>= λ chunk. opened (parsed, chunk)

  -- `base64.b64decode(chunk["data"])`; `none` is an exception.
  abbrev pub chunk_data : Option (Value N) → Option Bytes
  chunk_data (some (str t)) = crypto.b64decode t
  chunk_data (some (num n)) = none
  chunk_data (some (nested j)) = none
  chunk_data none = none

  -- The file of a buffer, if it is complete and its hash is the one that the chunk states
  unfoldable pub rebuild : Buffer N → Option Bytes
  rebuild buf = elim (reassemble_file buf.chunks buf.total) [
    | none ↦ none
    | some rebuilt ↦
        if text_eq (sha256 rebuilt) (or_default (get (codes "sha256") buf.meta) [])
        then some rebuilt
        else none
  ]

  -- `_finalize_attachment` with the rebuilt file
  unfoldable pub store_file : Arrival → Text → Bool → Fields N → Bytes → View N → View N
  unfolding attachment_path sender_label show_in_thread alert_state alert ingest
  store_file e conv notify meta rebuilt v =
      let filename = or_default (get (codes "filename") meta) (codes "file") in
      let tid = or_default (get (codes "transfer_id") meta) [] in
      let path = attachment_path attachments_dir conv tid filename in
      let about =
        attachment path filename (or_default (get (codes "mime_hint") meta) []) (length rebuilt) in
      let v1 = record v {
        files = v.files ++ (path, rebuilt) ∷ [];
        store = (ingest box e.fresh conv e.node e.seq e.ts (some filename) (some about) v.store).0;
      } in
      let label = sender_label (Table.find Thread.conv conv v1.threads) e.node in
      let bubble : Bubble = record {
        text = filename;
        ts = e.ts;
        sender = label;
        path = some path;
      } in
      let v2 = show_in_thread conv filename bubble v1 in
      let v3 = record v2 { acks = v2.acks ++ (e.node, tid) ∷ [] } in
      record v3 {
        alerts =
            if notify
            then alert (alert_state v3 conv e.node) e.env e.now v3.prefs
                (elim label [ none ↦ take 8 e.node | some l ↦ l ]) (codes "file: " ++ filename)
                v3.alerts
            else v3.alerts;
      }

  -- `_finalize_attachment`, with its result
  unfoldable pub finalize_attachment : Arrival → Text → Bool → Buffer N → View N → View N × Bool
  unfolding rebuild store_file
  finalize_attachment e conv notify buf v = elim (rebuild buf) [
    | none ↦ (v, false)
    | some rebuilt ↦ (store_file e conv notify buf.meta rebuilt v, true)
  ]

  abbrev pub receiving : Fields N → ℕ → ℕ → Text
  receiving chunk have total =
      codes "Receiving "
      ++ or_default (get (codes "filename") chunk) (codes "file")
      ++ codes " - "
      ++ decimal have
      ++ b'/' ∷ decimal total

  -- The buffer of `_incoming_file` for a chunk, as it was or new
  unfoldable pub buffer_for : View N → Text × Text → ℕ → Fields N → Buffer N
  buffer_for v key total chunk = elim (Table.find Buffer.key key v.file_bufs) [
    | some buf ↦ buf
    | none ↦ record {
      key = key;
      total = total;
      meta = chunk;
      chunks = [];
      row = if is_selected v key.0 then some (receiving chunk 1 total) else none;
      failed = false;
    }
  ]

  -- `buf["chunks"][index] = piece`, and the label of the row
  unfoldable pub add_chunk : ℕ → ℕ → Bytes → Fields N → Buffer N → Buffer N
  add_chunk index total piece chunk buf =
      let chunks = Table.upsert chunk_index (index, piece) (λ c. (c.0, piece)) buf.chunks in
      record buf {
        chunks = chunks;
        row = elim buf.row [ none ↦ none | some _ ↦ some (receiving chunk (length chunks) total) ];
      }

  abbrev pub put_buffer : Buffer N → View N → View N
  put_buffer buf v = record v { file_bufs = Table.upsert Buffer.key buf (λ _. buf) v.file_bufs }

  -- `_incoming_file` for a chunk whose header is right; one whose data do not decode raises after its
  -- buffer was made.
  unfoldable pub take_chunk : Arrival → Payload → Fields N → View N → View N
  unfolding buffer_for add_chunk finalize_attachment
  take_chunk e parsed chunk v =
      let conv = or_default (get (codes "conv") chunk) e.node in
      let key : Text × Text = (conv, to_hex parsed.tid) in
      let buf = buffer_for v key parsed.total chunk in
      let v1 = put_buffer buf v in
      if buf.failed then v1 else elim (chunk_data (get (codes "data") chunk)) [
        | none ↦ v1
        | some piece ↦
            let buf1 = add_chunk parsed.index parsed.total piece chunk buf in
            let v2 = (finalize_attachment e conv true buf1 v1).0 in
            if length buf1.chunks == buf1.total
            then record v2 { file_bufs = Table.delete Buffer.key key v2.file_bufs }
            else put_buffer buf1 v
      ]

  -- `_incoming_file`
  unfoldable pub incoming_file : Arrival → Text → View N → View N
  unfolding read_chunk header_matches take_chunk
  incoming_file e payload v = elim (read_chunk payload) [
    | opened (parsed, chunk) ↦
        if header_matches parsed chunk then take_chunk e parsed chunk v else v
    | refused ↦ v
    | raised ↦ v
  ]

  -- An entry of a transfer that is fetched from the daemon.
  pub record Fetched : Type 0 where
    pub payload : Text
    pub seq : ℕ
    pub ts : ℕ

  -- The buffer of `_process_fetched_transfer` with the largest `seq` and `ts` so far
  abbrev pub Sweep : Type 0
  Sweep = Buffer N × ℕ × ℕ

  -- The loop body of `_process_fetched_transfer`; `none` where the data of a chunk do not decode,
  -- an exception that ends the sweep.
  unfoldable pub sweep_entry : Fetched → Sweep → Option Sweep
  unfolding read_chunk header_matches
  sweep_entry entry (buf, seq, ts) = elim (read_chunk entry.payload) [
    | opened (parsed, chunk) ↦
        if header_matches parsed chunk
        then elim (chunk_data (get (codes "data") chunk)) [
          | none ↦ none
          | some piece ↦ some (
            record buf {
              total = parsed.total;
              meta = chunk;
              chunks =
                  Table.upsert chunk_index (parsed.index, piece) (λ c. (c.0, piece)) buf.chunks;
            },
            max seq entry.seq,
            max ts entry.ts,
          )
        ]
        else some (buf, seq, ts)
    | refused ↦ some (buf, seq, ts)
    | raised ↦ some (buf, seq, ts)
  ]

  unfoldable pub sweep_entries : List Fetched → Sweep → Option Sweep
  unfolding sweep_entry
  sweep_entries [] sweep = some sweep
  sweep_entries (entry ∷ entries) sweep = elim (sweep_entry entry sweep) [
    | none ↦ none
    | some next ↦ sweep_entries entries next
  ]

  -- `_process_fetched_transfer`; `none` is the exception.
  unfoldable pub process_fetched_transfer : Arrival → List Fetched → View N → Option (View N)
  unfolding sweep_entries finalize_attachment
  process_fetched_transfer e chunks v =
      let empty : Buffer N = record {
        key = ([], []);
        total = 0;
        meta = [];
        chunks = [];
        row = none;
        failed = false;
      } in
      elim (sweep_entries chunks (empty, 0, 0)) [
        | none ↦ none
        | some (buf, seq, ts) ↦ elim buf.chunks [
          | [] ↦ some v
          | _ ∷ _ ↦
              some
                (finalize_attachment (record e { seq = seq; ts = ts })
                  (or_default (get (codes "conv") buf.meta) e.node) false buf v).0
        ]
      ]
