-- ===== src/Daemon/Request/Multiplex.antt =====
-- How a request on the multiplex path of client/aimless/daemon.py ends.
use mathlib.Core.Option
use mathlib.Core.Path.{subst}
use aimless.Prelude.{
  All-append, ◌≡◌, refl, ap, sym, ◌∙◌, Bool, true, false, not, ◌&&◌, ◌||◌, some, List, [], ◌∷◌,
  Text, text_eq_iff, text_key, codes, select, All, if◌then◌else◌, arith, inl, inr, Bool-cases,
  Option-cases, ◌==◌,
}
use aimless.Prelude.Table
use aimless.Prelude.Table.Laws.{find-update, find-upsert, has-eq-found, has-delete, beq_refl}
use aimless.Daemon.Session.{Msg, has_op, Mailbox, Session, Action, read_rounds, new_id}
use aimless.Daemon.Session.Routing.{is_for, lines_of, add_mail, read_rounds-IsRouted}
use aimless.Daemon.Request.{
  Reply, reply, unreachable_daemon, timed_out, error_reply, Turn, Progress, Status, attempt,
  take_mail, take_from, request_multiplex, conclude,
}
use aimless.Daemon.Request.Legacy.{Concludes, request_loop-Concludes}

module _ {P : Type 0} (rid : Text) where
  abbrev IsOwn : Msg P → Type 0
  IsOwn m = m.id ≡ some rid

  -- The mailbox of the request is open and holds messages with its id only.
  abbrev IsOpen : Session P → Type 0
  IsOpen s = (b : Mailbox P) × (Table.find Mailbox.rid rid s.pending ≡ some b) × All IsOwn b.queue

  -- The answer was sent with the id of the request.
  abbrev pub IsOwnAnswer : Reply P → Type 0
  IsOwnAnswer (reply m) = (m.id ≡ some rid) × (has_op (codes "error") m ≡ false)
  IsOwnAnswer (error_reply e) =
      (m : Msg P) × (m.id ≡ some rid) × (has_op (codes "error") m ≡ true) × (m.error ≡ e)
  IsOwnAnswer unreachable_daemon = Unit
  IsOwnAnswer timed_out = Unit

  select-IsOwn : (ms : List (Msg P)) → All IsOwn (select (is_for rid) ms)
  unfolding select
  select-IsOwn [] = tt
  select-IsOwn (m ∷ ms) = elim (Bool-cases (is_for rid m)) [
    | inl e ↦ rw e (elim (Option-cases m.id) [
      | inl n ↦ ground (arith, n)
      | inr (r, f) ↦ (f ∙ ap some ((text_eq_iff r rid).0 (ground (arith, f))), select-IsOwn ms)
    ])
    | inr e ↦ rw e (select-IsOwn ms)
  ]

  read_rounds-IsOpen :
      (actions : List (Action P)) (s : Session P) → IsOpen s → IsOpen (read_rounds actions s)
  read_rounds-IsOpen actions s (b, e, own) =
      let found = (read_rounds-IsRouted actions s).2 rid in
      let mail = select (is_for rid) (lines_of actions) in
      (
        add_mail mail b,
        found ∙ ap (Option.map (add_mail mail)) e,
        All-append IsOwn b.queue mail own (select-IsOwn (lines_of actions)),
      )

  if_keep :
      (b : Bool) (x y : Session P × Progress × Status)
      → IsOpen x.0
      → IsOpen y.0
      → IsOpen (if b then x else y).0
  if_keep true x y hx hy = hx
  if_keep false x y hx hy = hy

  if_IsOpen : (b : Bool) (s t : Session P) → IsOpen s → IsOpen t → IsOpen (if b then s else t)
  if_IsOpen true s t hs ht = hs
  if_IsOpen false s t hs ht = ht

  attempt-IsOpen : (t : Turn P) (p : Progress) (s : Session P) → IsOpen s → IsOpen (attempt t p s).0
  unfolding attempt
  attempt-IsOpen t p s o =
      let s1 = read_rounds t.reader s in
      let o1 = read_rounds-IsOpen t.reader s o in
      let down = not s1.connected || s1.want_reconnect in
      let s2 = if down then read_rounds t.wait s1 else s1 in
      let o2 = if_IsOpen down _ _ (read_rounds-IsOpen t.wait s1 o1) o1 in
      let s3 = record s2 { want_reconnect = true } in
      let o4 = read_rounds-IsOpen t.retry s3 o2 in
      let s4 = read_rounds t.retry s3 in
      if_keep (down && s2.generation == p.sent_gen) _ _ o2 (
        if_keep (not down && p.sent) _ _ o2 (
          if_keep (t.accepts && s2.connected) _ _ o2
            (if_keep (s4.generation == p.sent_gen) _ _ o4 o4)))

  conclude-IsOwnAnswer : (m : Msg P) → IsOwn m → Concludes IsOwnAnswer (some (conclude m))
  conclude-IsOwnAnswer m own = elim (Bool-cases (has_op (codes "error") m)) [
    | inl e ↦ rw e (m, own, e, refl)
    | inr e ↦ rw e (own, e)
  ]

  take_from-IsOpen :
      (s : Session P) (queue : List (Msg P)) (b : Mailbox P)
      → Table.find Mailbox.rid rid s.pending ≡ some b
      → b.queue ≡ queue
      → All IsOwn queue
      → IsOpen (take_from rid s (some (record b { queue = queue }))).0
        × Concludes IsOwnAnswer (take_from rid s (some (record b { queue = queue }))).1
  take_from-IsOpen s [] b e q own = ((b, e, subst (All IsOwn) (sym q) tt), tt)
  take_from-IsOpen s (m ∷ queue) b e q own = (
    (
      record b { queue = queue },
      find-update Mailbox.rid (λ c. record c { queue = queue }) (λ c. refl) rid rid s.pending
          ∙ ground (arith, beq_refl rid, e),
      own.1,
    ),
    conclude-IsOwnAnswer m own.0,
  )

  take_mail-IsOpen :
      (s : Session P)
      → IsOpen s
      → IsOpen (take_mail rid s).0 × Concludes IsOwnAnswer (take_mail rid s).1
  unfolding take_mail
  take_mail-IsOpen s (b, e, own) = rw e (take_from-IsOpen s b.queue b e refl own)

  fresh-IsOpen :
      (s : Session P) (boxes : List (Mailbox P))
      → IsOpen (record s {
        pending =
            Table.upsert Mailbox.rid
              (record { rid = rid; queue = [] })
              (λ b. record b { queue = [] })
              boxes;
      })
  fresh-IsOpen s boxes =
      let empty : Mailbox P = record { rid = rid; queue = [] } in
      let found =
        find-upsert Mailbox.rid rid empty (λ b. record b { queue = [] }) boxes (λ b. refl) in
      let old = has-eq-found Mailbox.rid rid boxes in
      elim (Option-cases (Table.find Mailbox.rid rid boxes)) [
        | inl e ↦ (empty, found ∙ ground (arith, beq_refl rid, old, e), tt)
        | inr (b, e) ↦ (record b { queue = [] }, found ∙ ground (arith, beq_refl rid, old, e), tt)
      ]

-- On the multiplex path a request returns or raises only what came with its own id, an error exactly
-- for an error reply, whatever the reader meets and whatever other requests wait for; and however it
-- ends, its mailbox is closed.
pub request_multiplex_answer :
    {P : Type 0} (turns : List (Turn P)) (s : Session P)
    → Concludes (IsOwnAnswer (new_id s).1) (request_multiplex turns s).1
      × (Table.has Mailbox.rid (new_id s).1 (request_multiplex turns s).0.pending ≡ false)
unfolding request_multiplex
request_multiplex_answer turns s =
    let (s1, rid) = new_id s in
    let answer =
      request_loop-Concludes (take_mail rid) (IsOwnAnswer rid) (IsOpen rid) (take_mail-IsOpen rid)
        (attempt-IsOpen rid) turns _ _ (fresh-IsOpen rid s1 s1.pending) in
    (answer.1, has-delete Mailbox.rid rid rid _ ∙ ground (arith, beq_refl rid))
