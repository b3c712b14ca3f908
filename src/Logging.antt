-- ===== src/Logging.antt =====
-- client/aimless/logging.py: the log files and their rotation.
pub mod Bounds
use aimless.Prelude.{
  ℕ, ◌^◌, Bool, true, false, Option, none, some, List, [], ◌∷◌, ◌++◌, Text, codes, ltb, length,
  if◌then◌else◌,
}
use aimless.Store.Rows.{Bytes}

-- The file at a path, and the one at `<path>.1`.
pub record LogFiles : Type 0 where
  pub file : Option Bytes
  pub rotated : Option Bytes

-- `MAX_LOG_BYTES`
abbrev pub max_log_bytes : ℕ
max_log_bytes = 2 ^ 20

-- `_rotate`; `renames` tells whether `os.replace` succeeds.
unfoldable pub rotate : ℕ → Bool → LogFiles → LogFiles
rotate max_bytes renames l = elim l.file [
  | none ↦ l
  | some bytes ↦
      if ltb max_bytes (length bytes)
      then if renames then record { file = none; rotated = some bytes } else l
      else l
]

-- `"[%s] %s\n" % (stamp, line)`
abbrev pub entry : Text → Text → Text
entry stamp line = b'[' ∷ (stamp ++ codes "] " ++ line ++ 10 ∷ [])

abbrev pub content : Option Bytes → Bytes
content none = []
content (some bytes) = bytes

-- What a call of `log` meets: whether the file can be renamed and opened, and the time.
pub record Attempt : Type 0 where
  pub renames : Bool
  pub opens : Bool
  pub stamp : Text
  pub line : Text

-- `log(line)` of `log_fn`; `encode` gives the bytes of a text.
unfoldable pub log : (Text → Bytes) → ℕ → Attempt → LogFiles → LogFiles
unfolding rotate
log encode max_bytes a l =
    let r = rotate max_bytes a.renames l in
    if a.opens
    then record r { file = some (content r.file ++ encode (entry a.stamp a.line)) }
    else r

-- The calls of one log function, in order
unfoldable pub log_all : (Text → Bytes) → ℕ → List Attempt → LogFiles → LogFiles
unfolding log
log_all encode max_bytes [] l = l
log_all encode max_bytes (a ∷ rest) l = log_all encode max_bytes rest (log encode max_bytes a l)
