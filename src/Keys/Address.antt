-- ===== src/Keys/Address.antt =====
-- `yggdrasil_address` of client/aimless/keys.py and the derivation that its comment describes.
use aimless.Prelude.{
  ℕ, zero, suc, ◌+◌, ◌-◌, ◌*◌, ◌/◌, ◌%◌, ◌^◌, ◌<◌, ◌≡◌, refl, ap, sym, ◌∙◌, Bool, true, ◌&&◌, some,
  List, [], ◌∷◌, ◌++◌, append_assoc, append-nil, map, ◌==◌, length, if◌then◌else◌, arith, All,
}
use aimless.Store.Rows.{Bytes}
use aimless.Base58.Bits.{passes, test_of_passes}
use aimless.Keys.{
  bit_at, eight, Scan, scan_bit, scan_bits, start, bits_of, invert, fill, yggdrasil_address,
}

abbrev IsBit : ℕ → Type 0
IsBit b = b < 2

-- How many 1s lead, and what stands behind the first 0.
unfoldable pub leading_ones : List ℕ → ℕ
leading_ones [] = 0
leading_ones (b ∷ bs) = if b == 0 then 0 else suc (leading_ones bs)

unfoldable pub behind_zero : List ℕ → List ℕ
behind_zero [] = []
behind_zero (b ∷ bs) = if b == 0 then bs else behind_zero bs

-- Eight bits to a byte, the highest first; bits that fill no byte are dropped.
unfoldable pub pack : List ℕ → Bytes
pack (a ∷ b ∷ c ∷ d ∷ e ∷ f ∷ g ∷ h ∷ bits) =
    (128 * a + 64 * b + 32 * c + 16 * d + 8 * e + 4 * f + 2 * g + h) ∷ pack bits
pack _ = []

-- The loop behind the first 0: one byte is packed in eight rounds.
abbrev packing : Bytes → ℕ → ℕ → Scan
packing temp ones bits = record { temp = temp; done = true; ones = ones; bits = bits; nbits = 0 }

eight_rounds :
    (temp : Bytes) (ones bits a b c d e f g h : ℕ)
    → All IsBit (a ∷ b ∷ c ∷ d ∷ e ∷ f ∷ g ∷ h ∷ [])
    → scan_bits (packing temp ones bits) (a ∷ b ∷ c ∷ d ∷ e ∷ f ∷ g ∷ h ∷ [])
      ≡ packing
          (temp ++ (128 * a + 64 * b + 32 * c + 16 * d + 8 * e + 4 * f + 2 * g + h) ∷ [])
          ones
          (128 * a + 64 * b + 32 * c + 16 * d + 8 * e + 4 * f + 2 * g + h)
unfolding scan_bits scan_bit
eight_rounds temp ones bits a b c d e f g h v =
    let byte : ((((((((bits * 2 + a) % 256 * 2 + b) % 256 * 2 + c) % 256 * 2 + d) % 256 * 2 + e)
                      % 256
                      * 2
                    + f)
                  % 256
                  * 2
                + g)
              % 256
              * 2
            + h)
          % 256
        ≡ 128 * a + 64 * b + 32 * c + 16 * d + 8 * e + 4 * f + 2 * g + h =
      omega arith in
    rw byte refl

scan_bits-append :
    (s : Scan) (xs ys : List ℕ) → scan_bits s (xs ++ ys) ≡ scan_bits (scan_bits s xs) ys
unfolding scan_bits
scan_bits-append s [] ys = refl
scan_bits-append s (x ∷ xs) ys = scan_bits-append (scan_bit s x) xs ys

-- The loop has found these bytes, and this many 1s in front.
abbrev Found : Scan → Bytes → ℕ → Type 0
Found s temp ones = (s.temp ≡ temp) × (s.ones ≡ ones)

scan_behind :
    (temp : Bytes) (ones bits : ℕ) (bs : List ℕ)
    → All IsBit bs
    → Found (scan_bits (packing temp ones bits) bs) (temp ++ pack bs) ones
unfolding pack
scan_behind temp ones bits (a ∷ b ∷ c ∷ d ∷ e ∷ f ∷ g ∷ h ∷ bs) v =
    let first = a ∷ b ∷ c ∷ d ∷ e ∷ f ∷ g ∷ h ∷ [] in
    let small : All IsBit first = omega arith in
    let byte = 128 * a + 64 * b + 32 * c + 16 * d + 8 * e + 4 * f + 2 * g + h in
    let rest = scan_behind (temp ++ byte ∷ []) ones byte bs v.1.1.1.1.1.1.1.1 in
    rw (scan_bits-append (packing temp ones bits) first bs) (
      rw (eight_rounds temp ones bits a b c d e f g h small)
        (rest.0 ∙ append_assoc temp (byte ∷ []) (pack bs), rest.1))
scan_behind temp ones bits [] v = unfold scan_bits in (sym (append-nil temp), refl)
scan_behind temp ones bits (a ∷ []) v = unfold scan_bits scan_bit in (sym (append-nil temp), refl)
scan_behind temp ones bits (a ∷ b ∷ []) v =
    unfold scan_bits scan_bit in (sym (append-nil temp), refl)
scan_behind temp ones bits (a ∷ b ∷ c ∷ []) v =
    unfold scan_bits scan_bit in (sym (append-nil temp), refl)
scan_behind temp ones bits (a ∷ b ∷ c ∷ d ∷ []) v =
    unfold scan_bits scan_bit in (sym (append-nil temp), refl)
scan_behind temp ones bits (a ∷ b ∷ c ∷ d ∷ e ∷ []) v =
    unfold scan_bits scan_bit in (sym (append-nil temp), refl)
scan_behind temp ones bits (a ∷ b ∷ c ∷ d ∷ e ∷ f ∷ []) v =
    unfold scan_bits scan_bit in (sym (append-nil temp), refl)
scan_behind temp ones bits (a ∷ b ∷ c ∷ d ∷ e ∷ f ∷ g ∷ []) v =
    unfold scan_bits scan_bit in (sym (append-nil temp), refl)

scan_leading :
    (n : ℕ) (bs : List ℕ)
    → All IsBit bs
    → Found
        (scan_bits (record start { ones = n % 256 }) bs)
        (pack (behind_zero bs))
        ((n + leading_ones bs) % 256)
unfolding leading_ones behind_zero
scan_leading n [] v = unfold scan_bits pack in (refl, omega arith)
scan_leading n (zero ∷ bs) v =
    unfold scan_bits scan_bit in
    (let f = scan_behind [] (n % 256) 0 bs v.1 in (f.0, f.1 ∙ omega arith))
scan_leading n (suc b ∷ bs) v =
    let one : suc b ≡ 1 = omega arith in
    let next : (n % 256 + 1) % 256 ≡ (n + 1) % 256 = omega arith in
    let f = scan_leading (n + 1) bs v.1 in
    let step : scan_bits (record start { ones = n % 256 }) (1 ∷ bs)
        ≡ scan_bits (record start { ones = (n + 1) % 256 }) bs =
      unfold scan_bits scan_bit in ap (λ o. scan_bits (record start { ones = o }) bs) next in
    rw one (rw step (f.0, f.1 ∙ omega arith))

-- The bits of the inverted key, the highest of each byte first.
unfoldable pub inverted_bits : Bytes → List ℕ
inverted_bits [] = []
inverted_bits (b ∷ key) = map (λ k. 1 - b / 2 ^ (7 - k) % 2) eight ++ inverted_bits key

abbrev same_bits : ℕ → ℕ → Bool
same_bits b k = bit_at (invert b) k == 1 - b / 2 ^ (7 - k) % 2

bit_table :
    passes
      (λ b.
        same_bits b 0
        && (same_bits b 1
            && (same_bits b 2
                && (same_bits b 3
                    && (same_bits b 4 && (same_bits b 5 && (same_bits b 6 && same_bits b 7)))))))
      256
    ≡ true
unfolding passes invert bit_at
bit_table = refl

bits_of-invert :
    (key : Bytes) → All (λ b. b < 256) key → bits_of (map invert key) ≡ inverted_bits key
unfolding bits_of inverted_bits
bits_of-invert [] v = refl
bits_of-invert (b ∷ key) v =
    let e = test_of_passes _ 256 bit_table b v.0 in ground (arith, bits_of-invert key v.1)

inverted_bits-IsBit : (key : Bytes) → All IsBit (inverted_bits key)
unfolding inverted_bits
inverted_bits-IsBit [] = tt
inverted_bits-IsBit (b ∷ key) = (
  omega arith,
  (
    omega arith,
    (
      omega arith,
      (
        omega arith,
        (omega arith, (omega arith, (omega arith, (omega arith, inverted_bits-IsBit key)))),
      ),
    ),
  ),
)

pack-IsByte : (bits : List ℕ) → All IsBit bits → All (λ b. b < 256) (pack bits)
unfolding pack
pack-IsByte (a ∷ b ∷ c ∷ d ∷ e ∷ f ∷ g ∷ h ∷ bits) v =
    (omega arith, pack-IsByte bits v.1.1.1.1.1.1.1.1)
pack-IsByte [] v = tt
pack-IsByte (a ∷ []) v = tt
pack-IsByte (a ∷ b ∷ []) v = tt
pack-IsByte (a ∷ b ∷ c ∷ []) v = tt
pack-IsByte (a ∷ b ∷ c ∷ d ∷ []) v = tt
pack-IsByte (a ∷ b ∷ c ∷ d ∷ e ∷ []) v = tt
pack-IsByte (a ∷ b ∷ c ∷ d ∷ e ∷ f ∷ []) v = tt
pack-IsByte (a ∷ b ∷ c ∷ d ∷ e ∷ f ∷ g ∷ []) v = tt

fill-IsByte :
    (n : ℕ) (temp : Bytes)
    → All (λ b. b < 256) temp
    → All (λ b. b < 256) (fill n temp) × (length (fill n temp) ≡ n)
unfolding fill
fill-IsByte zero temp v = (tt, refl)
fill-IsByte (suc n) [] v = let f = fill-IsByte n [] tt in ((omega arith, f.0), ap suc f.1)
fill-IsByte (suc n) (b ∷ temp) v = let f = fill-IsByte n temp v.1 in ((v.0, f.0), ap suc f.1)

-- The address of a key of 32 bytes is 2, the number of 1s in front of the bits of the inverted key
-- (modulo 256), and the first 14 bytes that the bits behind the first 0 fill, with zeros where there
-- are none.
pub yggdrasil_address_lem :
    (key : Bytes)
    → All (λ b. b < 256) key
    → length key ≡ 32
    → yggdrasil_address key
      ≡ some (
          2
          ∷ leading_ones (inverted_bits key) % 256
          ∷ fill 14 (pack (behind_zero (inverted_bits key))))
unfolding yggdrasil_address
yggdrasil_address_lem key v len =
    let f = scan_leading 0 (inverted_bits key) (inverted_bits-IsBit key) in
    let none_before : 0 + leading_ones (inverted_bits key) ≡ leading_ones (inverted_bits key) =
      omega arith in
    rw len (
      rw (bits_of-invert key v) (
        ap some (ap (λ t. 2 ∷ t) (λ i. (f.1 ∙ ap (λ t. t % 256) none_before) i ∷ fill 14 (f.0 i)))))

behind_zero-IsBit : (bits : List ℕ) → All IsBit bits → All IsBit (behind_zero bits)
unfolding behind_zero
behind_zero-IsBit [] v = tt
behind_zero-IsBit (b ∷ bits) v = ground (arith, behind_zero-IsBit bits v.1)

-- Every key of 32 bytes has an address, of 16 bytes, that begins with 2.
pub yggdrasil_address_bounds :
    (key : Bytes)
    → All (λ b. b < 256) key
    → length key ≡ 32
    → (address : Bytes) × (yggdrasil_address key ≡ some (2 ∷ address))
      × (length address ≡ 15)
      × All (λ b. b < 256) address
yggdrasil_address_bounds key v len =
    let bits = behind_zero (inverted_bits key) in
    let f =
      fill-IsByte 14 (pack bits)
        (pack-IsByte bits (behind_zero-IsBit _ (inverted_bits-IsBit key))) in
    (_, yggdrasil_address_lem key v len, ap suc f.1, (omega arith, f.0))
