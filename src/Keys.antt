-- ===== src/Keys.antt =====
-- client/aimless/keys.py: the Yggdrasil address of a key, and the parsing of a node key.
--
-- The address is the list of its 16 bytes; `ipaddress` prints it.
pub mod Address
pub mod NodeKey
use Prim.Native.Nat.{bit_and, bit_xor}
use aimless.Prelude.{
  ℕ, zero, suc, ◌+◌, ◌-◌, ◌*◌, ◌/◌, ◌%◌, ◌^◌, Bool, true, false, not, ◌&&◌, ◌||◌, Option, none,
  some, List, [], ◌∷◌, ◌++◌, map, Text, ◌==◌, ltb, leb, all, length, take, drop, replicate,
  if◌then◌else◌,
}
use aimless.Store.Rows.{Bytes}
use aimless.Protocol.Hex.{from_hex}
use aimless.Protocol.Invite.{is_space}

-- `b ^ 0xFF`, and the bit `(b & (0x80 >> k)) >> (7 - k)`
unfoldable pub invert : ℕ → ℕ
invert b = bit_xor b 255

unfoldable pub bit_at : ℕ → ℕ → ℕ
bit_at b k = bit_and b (128 / 2 ^ k) / 2 ^ (7 - k)

-- The variables of the loop.
pub record Scan : Type 0 where
  pub temp : Bytes
  pub done : Bool
  pub ones : ℕ
  pub bits : ℕ
  pub nbits : ℕ

-- One round of the loop, for one bit.
unfoldable pub scan_bit : Scan → ℕ → Scan
scan_bit s bit =
    if not s.done && not (bit == 0)
    then record s { ones = (s.ones + 1) % 256 }
    else if not s.done && bit == 0
    then record s { done = true }
    else (let bits = (s.bits * 2 + bit) % 256 in
        let nbits = s.nbits + 1 in
        if nbits == 8
        then record s { temp = s.temp ++ bits ∷ []; bits = bits; nbits = 0 }
        else record s { bits = bits; nbits = nbits })

abbrev pub eight : List ℕ
eight = 0 ∷ 1 ∷ 2 ∷ 3 ∷ 4 ∷ 5 ∷ 6 ∷ 7 ∷ []

-- The bits `bit` for `idx in range(8 * len(buf))`, in order.
unfoldable pub bits_of : Bytes → List ℕ
bits_of [] = []
bits_of (b ∷ buf) = map (λ k. bit_at b k) eight ++ bits_of buf

unfoldable pub scan_bits : Scan → List ℕ → Scan
scan_bits s [] = s
scan_bits s (bit ∷ bits) = scan_bits (scan_bit s bit) bits

abbrev pub start : Scan
start = record { temp = []; done = false; ones = 0; bits = 0; nbits = 0 }

-- The bytes 2 to 15 of `addr`: those of `temp`, and 0 where there are none.
unfoldable pub fill : ℕ → Bytes → Bytes
fill zero temp = []
fill (suc n) [] = 0 ∷ fill n []
fill (suc n) (b ∷ temp) = b ∷ fill n temp

-- `yggdrasil_address`, before the address is printed; `none` is its `ValueError`.
unfoldable pub yggdrasil_address : Bytes → Option Bytes
yggdrasil_address pubkey =
    if not (length pubkey == 32)
    then none
    else (let s = scan_bits start (bits_of (map invert pubkey)) in
        some (2 ∷ s.ones ∷ fill 14 s.temp))

-- `re.sub(r"\s+", "", text)`
unfoldable pub remove_space : Text → Text
remove_space [] = []
remove_space (c ∷ cs) = if is_space c then remove_space cs else c ∷ remove_space cs

-- `re.fullmatch(r"[0-9a-f]+", raw)` of one character
abbrev pub is_lower_hex : ℕ → Bool
is_lower_hex c = (leb b'0' c && leb c b'9') || (leb b'a' c && leb c b'f')

-- The exceptions of `parse_node_key`, all `ValueError`s.
pub data KeyError : Type 0 where
  not_hex bad_hex bad_length : KeyError

pub data Parsed : Type 0 where
  seed : Bytes → Parsed
  refused : KeyError → Parsed

abbrev pub strip_0x : Text → Text
strip_0x (a ∷ b ∷ rest) = if a == b'0' && b == b'x' then rest else a ∷ b ∷ rest
strip_0x text = text

abbrev pub seed_of : Option Bytes → Parsed
seed_of none = refused bad_hex
seed_of (some key) =
    if length key == 64
    then seed (take 32 key)
    else if length key == 32
    then seed key
    else refused bad_length

module _ (lower : Text → Text) where
  -- `parse_node_key`, up to the public key of the seed; `lower` is `str.lower`.
  unfoldable pub parse_node_key : Text → Parsed
  unfolding remove_space
  parse_node_key text =
      let raw = strip_0x (lower (remove_space text)) in
      if (length raw == 0) || not (all is_lower_hex raw)
      then refused not_hex
      else seed_of (from_hex raw)
