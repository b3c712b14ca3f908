-- ===== src/Logging/Bounds.antt =====
-- How large the files of client/aimless/logging.py become.
use aimless.Prelude.{
  ℕ, ◌+◌, ◌≤◌, ◌≡◌, Bool, true, List, [], ◌∷◌, Text, length, length-append, All, arith,
  Option-cases, Bool-cases, inl, inr,
}
use aimless.Store.Rows.{Bytes}
use aimless.Logging.{LogFiles, rotate, entry, content, Attempt, log, log_all}

-- Both files are at most the bound and one entry long.
abbrev pub IsSmall : ℕ → ℕ → LogFiles → Type 0
IsSmall max_bytes one l =
    (length (content l.file) ≤ max_bytes + one) × (length (content l.rotated) ≤ max_bytes + one)

-- An entry is short enough, and a file that is too long can be renamed.
abbrev pub IsShort : (Text → Bytes) → ℕ → Attempt → Type 0
IsShort encode one a = (length (encode (entry a.stamp a.line)) ≤ one) × (a.renames ≡ true)

rotate-IsSmall :
    (max_bytes one : ℕ) (renames : Bool) (l : LogFiles)
    → renames ≡ true
    → IsSmall max_bytes one l
    → let r = rotate max_bytes renames l in
      (length (content r.file) ≤ max_bytes) × (length (content r.rotated) ≤ max_bytes + one)
unfolding rotate
rotate-IsSmall max_bytes one renames l able (f, o) = elim (Option-cases l.file) [
  | inl n ↦ (ground (arith, n), ground (arith, n, o))
  | inr (bytes, s) ↦ (ground (arith, s, f, able), ground (arith, s, f, o, able))
]

log-IsSmall :
    (encode : Text → Bytes) (max_bytes one : ℕ) (a : Attempt) (l : LogFiles)
    → IsShort encode one a
    → IsSmall max_bytes one l
    → IsSmall max_bytes one (log encode max_bytes a l)
unfolding log
log-IsSmall encode max_bytes one a l (short, renames) h =
    let r = rotate max_bytes a.renames l in
    let (f, o) = rotate-IsSmall max_bytes one a.renames l renames h in
    let text = encode (entry a.stamp a.line) in
    elim (Bool-cases a.opens) [
      | inl yes_opens ↦
          rw (yes_opens, log) (omega (arith, length-append (content r.file) text, f, short), o)
      | inr no_opens ↦ rw (no_opens, log) (omega (arith, f), o)
    ]

-- Whatever is logged, as long as the rotation can rename the file and no entry is longer than `one`,
-- neither the file nor the rotated one ever has more than the bound and one entry.
pub log_all-IsSmall :
    (encode : Text → Bytes) (max_bytes one : ℕ) (attempts : List Attempt) (l : LogFiles)
    → All (IsShort encode one) attempts
    → IsSmall max_bytes one l
    → IsSmall max_bytes one (log_all encode max_bytes attempts l)
unfolding log_all
log_all-IsSmall encode max_bytes one [] l s h = h
log_all-IsSmall encode max_bytes one (a ∷ rest) l s h =
    log_all-IsSmall encode max_bytes one rest (log encode max_bytes a l) s.1
      (log-IsSmall encode max_bytes one a l s.0 h)
