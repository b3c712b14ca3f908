-- ===== src/Gtk/Actions/Preview.antt =====
-- Which preview client/aimless/gtkui.py changes when a message has been sent.
use mathlib.Core.Option
use aimless.Prelude.{
  ℕ, ◌≡◌, refl, false, true, none, some, List, Text, text_eq, text_eq_iff, text_key, ◌∙◌,
}
use aimless.Prelude.Table
use aimless.Prelude.Table.Laws
use aimless.Store.Rows.{Nonces}
use aimless.Store.Messages.{add_sent}
use aimless.Gtk.{Thread, Gui}
use aimless.Gtk.Actions.{Sending, Outgoing, append_outgoing, send_done}

module _ {Key N J : Type 0} (setting : Gui Key N J) where
  -- Where the user has selected another conversation while a message was being sent, the message is
  -- stored in the conversation that it was sent to, but its text becomes the preview of the selected
  -- one, and the preview of the conversation that it was sent to stays as it was.
  pub send_done_other :
      (fresh : Nonces) (out : Outgoing setting) (seqs : List (Text × ℕ)) (s : Sending setting)
      (other : Text)
      → s.view.selected ≡ some other
      → text_eq other out.conv ≡ false
      → let (later, result) = send_done setting fresh out seqs s in
        (result ≡ some tt)
        × (later.send_in_flight ≡ false)
        × (later.view.store
            ≡ (add_sent setting.box fresh out.conv seqs out.ts
                (some out.text)
                none
                none
                s.view.store).0)
        × (Table.find Thread.conv other later.view.threads
            ≡ Option.map {A = Thread}
                (λ t. record t { preview = out.text })
                (Table.find Thread.conv other s.view.threads))
        × (Table.find Thread.conv out.conv later.view.threads
            ≡ Table.find Thread.conv out.conv s.view.threads)
  unfolding send_done append_outgoing
  send_done_other fresh out seqs s other sel apart =
      let f : Thread → Thread = λ t. record t { preview = out.text } in
      let same : text_eq other other ≡ true = (text_eq_iff other other).1 refl in
      rw (sel, send_done)
        (
          refl,
          refl,
          refl,
          Laws.find-update Thread.conv f (λ t. refl) other other s.view.threads ∙ (rw same refl),
          Laws.find-update Thread.conv f (λ t. refl) other out.conv s.view.threads
              ∙ (rw apart refl),
        )
