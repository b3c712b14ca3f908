-- ===== src/Gtk/Transfers/Files.antt =====
-- What client/aimless/gtkui.py writes to disk when a chunk of a file arrives.
use aimless.Prelude.{
  ℕ, ◌≡◌, refl, Bool, true, Option, none, some, List, [], ◌∷◌, ◌++◌, Text, codes, inl, inr, ◌⊎◌,
  pair_key, nat_key, false,
}
use aimless.Prelude.Table
use aimless.Store.Rows.{Bytes}
use aimless.Sync.{Outcome, opened, refused, raised}
use aimless.Protocol.Crypto.{Fields, get}
use aimless.Protocol.Files.{Payload, reassemble_file}
use aimless.Protocol.Hex.{to_hex}
use aimless.Gtk.{View, Buffer, Gui}
use aimless.Gtk.Attachments.{attachment_path}
use aimless.Gtk.Transfers.{
  Arrival, or_default, add_chunk, read_chunk, header_matches, chunk_data, buffer_for, chunk_index,
}

pub Outcome-cases :
    {A : Type 0} (o : Outcome A) → ((a : A) × (o ≡ opened a)) ⊎ ((o ≡ refused) ⊎ (o ≡ raised))
Outcome-cases (opened a) = inl (a, refl)
Outcome-cases refused = inr (inl refl)
Outcome-cases raised = inr (inr refl)

-- What `_incoming_file` has of a transfer before a chunk comes: the buffer in `_file_bufs`, or what it
-- makes a new one of.
module _ {N : Type 0} where
  abbrev pub chunks_of : Option (Buffer N) → List (ℕ × Bytes)
  chunks_of none = []
  chunks_of (some buf) = buf.chunks

  abbrev pub total_of : Option (Buffer N) → ℕ → ℕ
  total_of none total = total
  total_of (some buf) total = buf.total

  abbrev pub failed_of : Option (Buffer N) → Bool
  failed_of none = false
  failed_of (some buf) = buf.failed

  abbrev pub meta_of : Option (Buffer N) → Fields N → Fields N
  meta_of none chunk = chunk
  meta_of (some buf) chunk = buf.meta

-- The name of a chunk's file, and the conversation and the transfer id under which it is buffered.
abbrev pub name_of : {N : Type 0} → Fields N → Text
name_of meta = or_default (get (codes "filename") meta) (codes "file")

abbrev pub conv_of_chunk : {N : Type 0} → Arrival → Fields N → Text
conv_of_chunk e chunk = or_default (get (codes "conv") chunk) e.node

abbrev pub buffered : {N : Type 0} → Arrival → View N → Payload × Fields N → Option (Buffer N)
buffered e v (parsed, chunk) =
    Table.find Buffer.key (conv_of_chunk e chunk, to_hex parsed.tid) v.file_bufs

module _ {Key N J : Type 0} (setting : Gui Key N J) where
  -- The header of a chunk is right, its transfer has not failed, and with the chunks that came before
  -- it for the same conversation and transfer it makes up the file, whose hash is the one that the
  -- first of them states.
  abbrev pub Makes : Arrival → View N → Payload × Fields N → Bytes → Bytes → Type 0
  Makes e v (parsed, chunk) piece file =
      (header_matches parsed chunk ≡ true)
      × (failed_of (buffered e v (parsed, chunk)) ≡ false)
      × (chunk_data setting (get (codes "data") chunk) ≡ some piece)
      × (reassemble_file
            (Table.upsert chunk_index (parsed.index, piece) (λ c. (c.0, piece))
              (chunks_of (buffered e v (parsed, chunk))))
            (total_of (buffered e v (parsed, chunk)) parsed.total)
          ≡ some file)
      × (setting.sha256 file
          ≡ or_default (get (codes "sha256") (meta_of (buffered e v (parsed, chunk)) chunk)) [])

  -- The payload opens to a chunk that completes a file.
  pub record Completes (e : Arrival) (payload : Text) (v : View N) : Type 0 where
    pub parsed : Payload
    pub chunk : Fields N
    pub piece : Bytes
    pub file : Bytes
    pub read : read_chunk setting payload ≡ opened (parsed, chunk)
    pub makes : Makes e v (parsed, chunk) piece file

  abbrev file_path : Text → Fields N → Text
  file_path conv meta =
      attachment_path setting.attachments_dir conv (or_default (get (codes "transfer_id") meta) [])
        (name_of meta)

  -- The path of that file: it is made of the conversation, and of the transfer id and the filename in
  -- the first chunk.
  abbrev pub path_of : (e : Arrival) (payload : Text) (v : View N) → Completes e payload v → Text
  path_of e payload v c =
      let first = meta_of (buffered e v (c.parsed, c.chunk)) c.chunk in
      attachment_path setting.attachments_dir (conv_of_chunk e c.chunk)
        (or_default (get (codes "transfer_id") first) []) (name_of first)

  -- What may become of the files: nothing, where the chunk completes no file; or the file that it
  -- completes joins them.
  abbrev pub IsStored : Arrival → Text → View N → List (Text × Bytes) → Type 0
  IsStored e payload v later =
      ((¬ (Completes e payload v)) × (later ≡ v.files))
      ⊎ ((c : Completes e payload v) × (later ≡ v.files ++ (path_of e payload v c, c.file) ∷ []))

  -- The file of a buffer, complete and with the hash of its first chunk.
  abbrev IsWhole : Buffer N → Bytes → Type 0
  IsWhole buf file =
      (reassemble_file buf.chunks buf.total ≡ some file)
      × (setting.sha256 file ≡ or_default (get (codes "sha256") buf.meta) [])

  -- A chunk that has been read.
  module _ (e : Arrival) (payload : Text) (parsed : Payload) (chunk : Fields N) (v : View N)
      (read : read_chunk setting payload ≡ opened (parsed, chunk)) where
    abbrev key_of : Text × Text
    key_of = (conv_of_chunk e chunk, to_hex parsed.tid)

    abbrev old_buffer : Buffer N
    old_buffer = buffer_for setting v key_of parsed.total chunk

    abbrev new_buffer : Bytes → Buffer N
    new_buffer piece = add_chunk setting parsed.index parsed.total piece chunk old_buffer
