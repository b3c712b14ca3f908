-- ===== src/Gtk/Attachments/Names.antt =====
-- The names and directories of the attachments of client/aimless/gtkui.py.
use aimless.Prelude.{
  ap, ◌⊎◌, inl, inr, Bool-cases, ℕ, zero, suc, ◌≤◌, ◌≡◌, refl, Bool, true, false, not, ◌&&◌, [],
  ◌∷◌, ◌++◌, Text, ◌==◌, all, take, select, length, arith,
}
use aimless.Gtk.Attachments.{
  is_allowed, is_trimmed, strip_left, strip_right, or_file, sanitize_filename, path_join,
  attachment_path,
}

all-select : (s : Text) → all is_allowed (select is_allowed s) ≡ true
unfolding all select
all-select [] = refl
all-select (c ∷ cs) = ground (arith, all-select cs)

all-take : (n : ℕ) (s : Text) → all is_allowed s ≡ true → all is_allowed (take n s) ≡ true
unfolding all
all-take zero s h = refl
all-take (suc n) [] h = refl
all-take (suc n) (c ∷ cs) h = ground (arith, h, all-take n cs (ground (arith, h)))

all-strip_left : (s : Text) → all is_allowed s ≡ true → all is_allowed (strip_left s) ≡ true
unfolding all strip_left
all-strip_left [] h = refl
all-strip_left (c ∷ cs) h = ground (arith, h, all-strip_left cs (ground (arith, h)))

all-strip_right : (s : Text) → all is_allowed s ≡ true → all is_allowed (strip_right s) ≡ true
unfolding all strip_right
all-strip_right [] h = refl
all-strip_right (c ∷ cs) h = ground (arith, h, all-strip_right cs (ground (arith, h)))

all-or_file : (s : Text) → all is_allowed s ≡ true → all is_allowed (or_file s) ≡ true
unfolding all is_allowed
all-or_file [] h = refl
all-or_file (c ∷ cs) h = h

all-no_slash :
    (s : Text) → all is_allowed s ≡ true → all (λ c. is_allowed c && not (c == b'/')) s ≡ true
unfolding all is_allowed
all-no_slash [] h = refl
all-no_slash (c ∷ cs) h = ground (arith, h, all-no_slash cs (ground (arith, h)))

length-take_le : (n : ℕ) (s : Text) → length (take n s) ≤ n
length-take_le zero s = omega arith
length-take_le (suc n) [] = omega arith
length-take_le (suc n) (c ∷ cs) = omega (arith, length-take_le n cs)

-- Whether a text begins with a dot, a space, or not at all.
abbrev pub begins_well : Text → Bool
begins_well [] = false
begins_well (c ∷ cs) = not (is_trimmed c)

begins-strip_left : (s : Text) → (strip_left s ≡ []) ⊎ (begins_well (strip_left s) ≡ true)
unfolding strip_left
begins-strip_left [] = inl refl
begins-strip_left (c ∷ cs) = elim (Bool-cases (is_trimmed c)) [
  | inl t ↦ rw (t, strip_left) (begins-strip_left cs)
  | inr k ↦ inr (ground (arith, k))
]

begins-strip_right : (s : Text) → begins_well s ≡ true → begins_well (strip_right s) ≡ true
unfolding strip_right
begins-strip_right [] h = h
begins-strip_right (c ∷ cs) h = ground (arith, h)

begins-file : (s : Text) → begins_well s ≡ true → begins_well (or_file s) ≡ true
begins-file [] h = refl
begins-file (c ∷ cs) h = h

begins-or_file :
    (s : Text) → (s ≡ []) ⊎ (begins_well s ≡ true) → begins_well (or_file (strip_right s)) ≡ true
unfolding strip_right
begins-or_file [] h = refl
begins-or_file (c ∷ cs) (inl e) = absurd (omega (arith, ap length e))
begins-or_file (c ∷ cs) (inr h) = begins-file (strip_right (c ∷ cs)) (begins-strip_right (c ∷ cs) h)

begins-take : (n : ℕ) (s : Text) → begins_well s ≡ true → begins_well (take (suc n) s) ≡ true
begins-take n [] h = h
begins-take n (c ∷ cs) h = h

-- A sanitized filename has 1 to 64 characters, each of them allowed and hence no slash, and begins
-- neither with a dot nor with a space.
pub sanitize_filename-IsSafe :
    (name : Text)
    → let clean = sanitize_filename name in
      (all (λ c. is_allowed c && not (c == b'/')) clean ≡ true)
      × (begins_well clean ≡ true)
      × (length clean ≤ 64)
unfolding sanitize_filename
sanitize_filename-IsSafe name =
    let s = select is_allowed name in
    let h = all-strip_right (strip_left s) (all-strip_left s (all-select name)) in
    (
      all-no_slash _ (all-take 64 _ (all-or_file _ h)),
      begins-take 63 (or_file (strip_right (strip_left s)))
          (begins-or_file (strip_left s) (begins-strip_left s)),
      length-take_le 64 _,
    )

-- A chunk chooses the directory of its file: where the conversation that it names begins with a
-- slash, the file is written below that path, wherever the attachments belong.
pub attachment_path-absolute :
    (attachments_dir conv tid filename : Text) (c : ℕ)
    → (c == b'/') ≡ false
    → attachment_path attachments_dir (b'/' ∷ conv) (c ∷ tid) filename
      ≡ b'/' ∷ (conv ++ b'/' ∷ c ∷ (tid ++ b'-' ∷ sanitize_filename filename))
unfolding attachment_path path_join
attachment_path-absolute attachments_dir conv tid filename c h = rw h refl
