-- ===== src/Gtk/Incoming/Quiet.antt =====
-- Which messages of client/aimless/gtkui.py notify or play a sound.
use aimless.Prelude.{text_key, ◌≡◌, Bool, false}
use aimless.Prelude.Table

-- The conversation is not in view, and neither it nor the sender is muted.
abbrev pub IsLoud : Bool × Bool × Bool → Type 0
IsLoud (visible, muted, blocked) = (visible ≡ false) × (muted ≡ false) × (blocked ≡ false)
