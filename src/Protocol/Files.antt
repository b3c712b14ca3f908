-- ===== src/Protocol/Files.antt =====
-- The file chunks of client/aimless/protocol.py: the routing header, the chunk and the reassembly.
-- The sizes and indices are natural numbers, as the sender of client/aimless/gtkui.py makes them.
pub mod Pieces
pub mod Header
use aimless.Prelude.{
  ℕ, zero, suc, ◌+◌, ◌*◌, ◌/◌, ◌%◌, Bool, true, false, not, ◌&&◌, ◌||◌, Option, none, some, List,
  [], ◌∷◌, ◌++◌, Text, codes, ◌==◌, ltb, length, take, drop, if◌then◌else◌,
}
use aimless.Store.Rows.{Bytes}
use aimless.Sync.{Outcome, opened, refused, raised}
use aimless.Protocol.Hex.{from_hex}
use aimless.Protocol.Crypto.{Value, str, num, nested, Fields, get, Crypto}
use aimless.Protocol.Envelope.{◌>>=◌, or_refuse, want_text, seal_file_chunk}

-- `FILE_CHUNK_SIZE` and `MAX_SEND_BYTES`
abbrev pub file_chunk_size : ℕ
file_chunk_size = 32 * 1024

abbrev pub max_send_bytes : ℕ
max_send_bytes = 20 * 1024 * 1024

-- `struct.pack("<H", n)`; `raised` is its `struct.error`.
abbrev pub pack_u16 : ℕ → Outcome Bytes
pack_u16 n = if ltb n 65536 then opened (n % 256 ∷ n / 256 ∷ []) else raised

-- `file_header`
unfoldable pub file_header : Bytes → ℕ → ℕ → Outcome Bytes
file_header tid_bytes index total =
    if not (length tid_bytes == 16)
    then refused
    else if not (ltb index total)
    then refused
    else (do low ← pack_u16 index; high ← pack_u16 total; opened (tid_bytes ++ (low ++ high)))

pub record Payload : Type 0 where
  pub tid : Bytes
  pub index : ℕ
  pub total : ℕ
  pub sealed : Bytes

-- `struct.unpack("<HH", …)` of four bytes
abbrev pub unpack_u16s : Bytes → ℕ × ℕ
unpack_u16s (a ∷ b ∷ c ∷ d ∷ []) = (a + 256 * b, c + 256 * d)
unpack_u16s _ = (0, 0)

-- `parse_file_payload` after `b64decode`
unfoldable pub parse_raw : Bytes → Outcome Payload
parse_raw raw =
    let tid = take 16 raw in
    let (index, total) = unpack_u16s (take 4 (drop 16 raw)) in
    if ltb (length raw) 20
    then refused
    else if (total == 0) || not (ltb index total)
    then refused
    else opened (record { tid = tid; index = index; total = total; sealed = drop 20 raw })

-- `make_chunk`, its `data` in base64
unfoldable pub make_chunk :
    {J : Type 0} → Text → ℕ → ℕ → Text → Text → Text → ℕ → Text → Option Text → Fields J
make_chunk tid index total filename mime_hint sha256 size b64_bytes conv =
    (codes "transfer_id", str tid)
    ∷ (codes "index", num index)
    ∷ (codes "total", num total)
    ∷ (codes "filename", str filename)
    ∷ (codes "mime_hint", str mime_hint)
    ∷ (codes "sha256", str sha256)
    ∷ (codes "size", num size)
    ∷ (codes "data", str b64_bytes)
    ∷ (elim conv [ none ↦ [] | some [] ↦ [] | some (c ∷ cs) ↦ (codes "conv", str (c ∷ cs)) ∷ [] ])

-- A number, as the comparison in `file_header` wants one.
abbrev pub want_num : {J : Type 0} → Value J → Outcome ℕ
want_num (num n) = opened n
want_num (str t) = raised
want_num (nested j) = raised

-- The header that `build_file_payload` takes from the fields of the chunk.
unfoldable pub chunk_header : {J : Type 0} → Fields J → Outcome Bytes
unfolding file_header
chunk_header chunk = do
  transfer_id ← or_refuse (get (codes "transfer_id") chunk)
  tid ← want_text transfer_id
  tid_bytes ← or_refuse (from_hex tid)
  index_value ← or_refuse (get (codes "index") chunk)
  total_value ← or_refuse (get (codes "total") chunk)
  index ← want_num index_value
  total ← want_num total_value
  file_header tid_bytes index total

module _ {Key J : Type 0} (crypto : Crypto Key J) where
  open crypto use {b64encode, b64decode}

  -- `build_file_payload`
  unfoldable pub build_file_payload : Bytes → Key → Text → Fields J → Outcome Text
  build_file_payload seed identity recipient_pubkey_hex chunk = do
    sealed ← seal_file_chunk crypto seed identity recipient_pubkey_hex chunk
    header ← chunk_header chunk
    opened (b64encode (header ++ sealed))

  -- `parse_file_payload`
  unfoldable pub parse_file_payload : Text → Outcome Payload
  unfolding parse_raw
  parse_file_payload payload_b64 = or_refuse (b64decode payload_b64) >>= parse_raw

-- `chunks[i]`, of a dictionary from indices to bytes
unfoldable pub chunk_at : ℕ → List (ℕ × Bytes) → Option Bytes
chunk_at i [] = none
chunk_at i ((j, b) ∷ chunks) = if j == i then some b else chunk_at i chunks

-- `b"".join(chunks[i] for i in range(i, i + n))`; `none` where an index is missing
unfoldable pub join_chunks : List (ℕ × Bytes) → ℕ → ℕ → Option Bytes
unfolding chunk_at
join_chunks chunks i zero = some []
join_chunks chunks i (suc n) =
    let rest = join_chunks chunks (i + 1) n in
    elim (chunk_at i chunks) [
      | none ↦ none
      | some b ↦ elim rest [ none ↦ none | some bs ↦ some (b ++ bs) ]
    ]

-- `reassemble_file`; `none` is `None`.
unfoldable pub reassemble_file : List (ℕ × Bytes) → ℕ → Option Bytes
unfolding join_chunks
reassemble_file chunks total =
    if not (length chunks == total) then none else join_chunks chunks 0 total

-- `validate_send_size`, whether it lets the size pass
unfoldable pub validate_send_size : ℕ → Bool
validate_send_size size = not (ltb max_send_bytes size)

-- `[data[i:i + size] for i in range(0, len(data), size)]` of client/aimless/gtkui.py: the slices
-- from `data[i:]` on. As many rounds as there are bytes are enough.
unfoldable pub pieces_from : ℕ → ℕ → Bytes → List Bytes
pieces_from zero size bytes = []
pieces_from (suc rounds) size [] = []
pieces_from (suc rounds) size (b ∷ bs) =
    take size (b ∷ bs) ∷ pieces_from rounds size (drop size (b ∷ bs))

unfoldable pub pieces : ℕ → Bytes → List Bytes
unfolding pieces_from
pieces size bytes = pieces_from (length bytes) size bytes
