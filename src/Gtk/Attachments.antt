-- ===== src/Gtk/Attachments.antt =====
-- Where client/aimless/gtkui.py stores an attachment.
pub mod Names
use aimless.Prelude.{
  ℕ, Bool, true, false, not, ◌&&◌, ◌||◌, List, [], ◌∷◌, ◌++◌, Text, codes, ◌==◌, leb, any, take,
  select, if◌then◌else◌,
}

-- `[A-Za-z0-9 ._-]`
unfoldable pub is_allowed : ℕ → Bool
is_allowed c =
    (leb b'A' c && leb c b'Z')
    || (leb b'a' c && leb c b'z')
    || (leb b'0' c && leb c b'9')
    || c == b' '
    || c == b'.'
    || c == b'_'
    || c == b'-'

abbrev pub is_trimmed : ℕ → Bool
is_trimmed c = c == b' ' || c == b'.'

-- `text.lstrip(" .")`
unfoldable pub strip_left : Text → Text
strip_left [] = []
strip_left (c ∷ cs) = let rest = strip_left cs in if is_trimmed c then rest else c ∷ cs

-- `text.rstrip(" .")`
unfoldable pub strip_right : Text → Text
strip_right [] = []
strip_right (c ∷ cs) = elim (strip_right cs) [
  | [] ↦ if is_trimmed c then [] else c ∷ []
  | d ∷ ds ↦ c ∷ d ∷ ds
]

abbrev pub or_file : Text → Text
or_file [] = codes "file"
or_file (c ∷ cs) = c ∷ cs

-- `sanitize_filename`
unfoldable pub sanitize_filename : Text → Text
unfolding strip_left strip_right is_allowed
sanitize_filename name = take 64 (or_file (strip_right (strip_left (select is_allowed name))))

-- `os.path.join` of a directory without a slash at its end
unfoldable pub path_join : Text → Text → Text
path_join a [] = a ++ b'/' ∷ []
path_join a (c ∷ cs) = if c == b'/' then c ∷ cs else a ++ b'/' ∷ c ∷ cs

-- The path of `_store_attachment`
unfoldable pub attachment_path : Text → Text → Text → Text → Text
unfolding sanitize_filename path_join
attachment_path attachments_dir conv tid filename =
    path_join (path_join attachments_dir conv) (tid ++ b'-' ∷ sanitize_filename filename)
