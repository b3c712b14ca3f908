-- ===== src/Protocol/Files/Pieces.antt =====
-- Cutting a file into pieces and `reassemble_file` of client/aimless/protocol.py.
use aimless.Prelude.{
  ℕ, zero, suc, ◌+◌, ◌-◌, ◌*◌, ◌/◌, ◌%◌, ◌≤◌, ◌<◌, ◌≡◌, refl, ap, ◌∙◌, true, some, List, [], ◌∷◌,
  ◌++◌, length, take, drop, get_elem?, append-take-drop, length-drop, arith,
}
use aimless.Store.Rows.{Bytes}
use aimless.Sync.{opened}
use aimless.Protocol.Files.{
  file_chunk_size, max_send_bytes, file_header, chunk_at, join_chunks, reassemble_file,
  validate_send_size, pieces_from, pieces,
}

-- `b"".join(…)`
unfoldable pub join : List Bytes → Bytes
join [] = []
join (b ∷ bs) = b ++ join bs

join-pieces_from :
    (rounds size : ℕ) (bytes : Bytes)
    → 0 < size
    → length bytes ≤ rounds
    → join (pieces_from rounds size bytes) ≡ bytes
unfolding join pieces_from
join-pieces_from zero size [] pos h = refl
join-pieces_from zero size (b ∷ bs) pos h = absurd (omega arith)
join-pieces_from (suc rounds) size [] pos h = refl
join-pieces_from (suc rounds) size (b ∷ bs) pos h =
    ap (λ t. take size (b ∷ bs) ++ t)
      (join-pieces_from rounds size (drop size (b ∷ bs)) pos
        (omega (arith, length-drop size (b ∷ bs))))
    ∙ append-take-drop size (b ∷ bs)

-- A dictionary that has each of the parts under its index.
abbrev pub Holds : List (ℕ × Bytes) → ℕ → List Bytes → Type 0
Holds chunks i parts =
    (k : ℕ) (b : Bytes) → get_elem? parts k ≡ some b → chunk_at (i + k) chunks ≡ some b

Holds-tail :
    (chunks : List (ℕ × Bytes)) (i : ℕ) (p : Bytes) (parts : List Bytes)
    → Holds chunks i (p ∷ parts)
    → Holds chunks (i + 1) parts
Holds-tail chunks i p parts h k b e =
    let shift : i + 1 + k ≡ i + suc k = omega arith in rw shift (h (suc k) b e)

join_chunks_lem :
    (chunks : List (ℕ × Bytes)) (i : ℕ) (parts : List Bytes)
    → Holds chunks i parts
    → join_chunks chunks i (length parts) ≡ some (join parts)
unfolding join_chunks join
join_chunks_lem chunks i [] h = refl
join_chunks_lem chunks i (p ∷ parts) h =
    let first : chunk_at i chunks ≡ some p =
      (let e : i + 0 ≡ i = omega arith in rw e at (h 0 p refl)) in
    ground (arith, first, join_chunks_lem chunks (i + 1) parts (Holds-tail chunks i p parts h))

-- A receiver that has as many chunks as the file has pieces, in whatever order they came, and each
-- piece under its index, puts together the file.
pub reassemble_file-pieces :
    (size : ℕ) (bytes : Bytes) (chunks : List (ℕ × Bytes))
    → 0 < size
    → length chunks ≡ length (pieces size bytes)
    → Holds chunks 0 (pieces size bytes)
    → reassemble_file chunks (length (pieces size bytes)) ≡ some bytes
unfolding reassemble_file pieces
reassemble_file-pieces size bytes chunks pos n h = ground (
  arith,
  n,
  join_chunks_lem chunks 0 (pieces_from (length bytes) size bytes) h,
  join-pieces_from (length bytes) size bytes pos (omega arith),
)

length-pieces_from :
    (rounds size : ℕ) (bytes : Bytes)
    → 0 < size
    → length (pieces_from rounds size bytes) * size ≤ length bytes + (size - 1)
unfolding pieces_from
length-pieces_from zero size bytes pos = omega arith
length-pieces_from (suc rounds) size [] pos = omega arith
length-pieces_from (suc rounds) size (b ∷ bs) pos =
    grind
      (arith, length-pieces_from rounds size (drop size (b ∷ bs)) pos, length-drop size (b ∷ bs))

-- Of a file that `validate_send_size` lets pass there are at most 640 pieces, and the header of each
-- piece is written without an exception, for every transfer id of 16 bytes.
pub file_header-pieces :
    (tid bytes : Bytes) (i : ℕ)
    → length tid ≡ 16
    → validate_send_size (length bytes) ≡ true
    → i < length (pieces file_chunk_size bytes)
    → (length (pieces file_chunk_size bytes) ≤ 640)
      × ((header : Bytes) × (file_header tid i (length (pieces file_chunk_size bytes))
            ≡ opened header))
unfolding validate_send_size file_header pieces
file_header-pieces tid bytes i t v h =
    let n = length (pieces_from (length bytes) file_chunk_size bytes) in
    let few : n ≤ 640 =
      (let size : length bytes ≤ max_send_bytes = ground arith in
        omega (arith, length-pieces_from (length bytes) file_chunk_size bytes (omega arith))) in
    (few, (tid ++ (i % 256 ∷ i / 256 ∷ n % 256 ∷ n / 256 ∷ []), ground (arith, t, few)))
