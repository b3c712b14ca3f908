-- ===== src/Gtk/Alerts.antt =====
-- The notifications and sounds of client/aimless/gtkui.py. Times are in milliseconds.
use aimless.Prelude.{
  ℕ, zero, suc, ◌-◌, Bool, false, not, ◌&&◌, ◌||◌, Option, none, some, List, [], ◌∷◌, ◌++◌, Text,
  text_eq, codes, any, ltb, if◌then◌else◌, take,
}

-- The preferences that the alerts read, with their values in DEFAULT_PREFS where they are missing.
pub record Prefs : Type 0 where
  pub notifications : Bool
  pub notification_sound : Text

-- `_LAST_SOUND`, the notifications and the shell commands that were started.
pub record AlertState : Type 0 where
  pub last_sound : ℕ
  pub notices : List (Text × Text)
  pub commands : List Text

-- `should_notify`
unfoldable pub should_notify : Bool → Bool → Bool → Prefs → Bool
should_notify window_visible muted blocked prefs =
    if not prefs.notifications
    then false
    else if muted || blocked
    then false
    else not window_visible

-- `SOUND_OPTIONS`
abbrev pub sound_options : List Text
sound_options = codes "off" ∷ codes "single" ∷ codes "double" ∷ codes "triple" ∷ codes "long" ∷ []

-- `_BEEP`
abbrev pub beep : Text → Text
beep dur = codes "timeout " ++ dur ++ codes "s speaker-test -t sine -f 800 -l 1"

-- `"; ".join(parts)`, for the parts that the loop of `sound_command` collects in `n` rounds after the
-- first
abbrev pub more_beeps : ℕ → Text
more_beeps zero = []
more_beeps (suc n) = codes "; sleep 0.12; " ++ beep (codes "0.2") ++ more_beeps n

abbrev pub beeps : ℕ → Text
beeps zero = []
beeps (suc n) = beep (codes "0.2") ++ more_beeps n

-- `sound_command`
unfoldable pub sound_command : Text → Text
sound_command kind =
    if not (any (text_eq kind) sound_options) || text_eq kind (codes "off")
    then []
    else if text_eq kind (codes "long")
    then beep (codes "0.5")
    else if text_eq kind (codes "single")
    then beeps 1
    else if text_eq kind (codes "double")
    then beeps 2
    else if text_eq kind (codes "triple")
    then beeps 3
    else beeps 0

-- `sound_enabled`, with the environment variable AIMLESS_SOUND
unfoldable pub sound_enabled : Option Text → Prefs → Text
sound_enabled env prefs =
    let kind = prefs.notification_sound in
    let chosen = if any (text_eq kind) sound_options then kind else codes "single" in
    elim env [
      | none ↦ chosen
      | some value ↦ if any (text_eq value) sound_options then value else chosen
    ]

-- `should_play_sound`
unfoldable pub should_play_sound : Bool → Bool → Bool → Option Text → Prefs → Bool
should_play_sound window_visible muted blocked env prefs =
    if muted || (blocked || window_visible)
    then false
    else not (text_eq (sound_enabled env prefs) (codes "off"))

-- `SOUND_MIN_GAP`
abbrev pub sound_min_gap : ℕ
sound_min_gap = 2000

-- `play_notification_sound`
unfoldable pub play_notification_sound : Text → Bool → ℕ → AlertState → AlertState
play_notification_sound kind force now a =
    if not (any (text_eq kind) sound_options) || text_eq kind (codes "off")
    then a
    else if not force && ltb (now - a.last_sound) sound_min_gap
    then a
    else record a { last_sound = now; commands = a.commands ++ sound_command kind ∷ [] }

-- `notify_new_message`
unfoldable pub notify_new_message : Text → Text → AlertState → AlertState
notify_new_message sender text a = record a { notices = a.notices ++ (sender, take 200 text) ∷ [] }

-- The alerts at the end of `incoming` and of `_finalize_attachment`
unfoldable pub alert :
    Bool × Bool × Bool → Option Text → ℕ → Prefs → Text → Text → AlertState → AlertState
unfolding should_notify should_play_sound sound_enabled play_notification_sound notify_new_message
alert (visible, muted, blocked) env now prefs sender text a =
    let a1 =
      if should_notify visible muted blocked prefs then notify_new_message sender text a else a in
    if should_play_sound visible muted blocked env prefs
    then play_notification_sound (sound_enabled env prefs) false now a1
    else a1
