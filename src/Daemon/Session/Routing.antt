-- ===== src/Daemon/Session/Routing.antt =====
-- Where the reader thread of client/aimless/daemon.py puts what it reads.
use aimless.Prelude.{
  ℕ, ◌≡◌, refl, ap, sym, ◌∙◌, Bool, true, false, not, ◌&&◌, ◌||◌, Option, none, some, List, [], ◌∷◌,
  ◌++◌, append-nil, append_assoc, Text, text_eq, text_eq_iff, text_key, select, select-append,
  Option-cases, ◌+◌, if◌then◌else◌, arith, inl, inr,
}
use aimless.Prelude.Table
use aimless.Prelude.Table.Laws.{find-update, has-update, find_of_has}
use mathlib.Core.Option
use aimless.Daemon.Session.{
  Msg, is_event, Mailbox, Session, Action, line, garbage, eof, reconnected, unreachable, put_mail,
  deliver, read_round, read_rounds,
}

module _ {P : Type 0} where
  abbrev pub add_mail : List (Msg P) → Mailbox P → Mailbox P
  add_mail ms b = record b { queue = b.queue ++ ms }

  -- The messages that are read, in order.
  unfoldable pub lines_of : List (Action P) → List (Msg P)
  lines_of [] = []
  lines_of (line m ∷ actions) = m ∷ lines_of actions
  lines_of (garbage ∷ actions) = lines_of actions
  lines_of (eof ∷ actions) = lines_of actions
  lines_of (reconnected ∷ actions) = lines_of actions
  lines_of (unreachable ∷ actions) = lines_of actions

  abbrev pub is_for : Text → Msg P → Bool
  is_for rid m = not (is_event m) && (elim m.id [ none ↦ false | some r ↦ text_eq r rid ])

  -- A message that is no event and that no mailbox waits for.
  abbrev pub is_unclaimed : List (Mailbox P) → Msg P → Bool
  is_unclaimed boxes m =
      not (is_event m) && (elim m.id [ none ↦ true | some r ↦ not (Table.has Mailbox.rid r boxes) ])

  -- The queues of `t` are those of `s` with the messages in their places.
  abbrev pub IsRouted : List (Msg P) → Session P → Session P → Type 0
  IsRouted ms s t =
      (t.events ≡ s.events ++ select is_event ms)
      × (t.raw ≡ s.raw ++ select (is_unclaimed s.pending) ms)
      × ((rid : Text)
          → Table.find Mailbox.rid rid t.pending
            ≡ Option.map (add_mail (select (is_for rid) ms)) (Table.find Mailbox.rid rid s.pending))
      × ((rid : Text) → Table.has Mailbox.rid rid t.pending ≡ Table.has Mailbox.rid rid s.pending)

  add_mail_nothing : (o : Option (Mailbox P)) → o ≡ Option.map (add_mail []) o
  add_mail_nothing none = refl
  add_mail_nothing (some b) = ap (λ q. some (record b { queue = q })) (sym (append-nil b.queue))

  unread-IsRouted : (s : Session P) → IsRouted [] s s
  unfolding select
  unread-IsRouted s =
      (sym (append-nil s.events), sym (append-nil s.raw), λ rid. add_mail_nothing _, λ rid. refl)

  events-deliver :
      (m : Msg P) (s : Session P) → (deliver m s).events ≡ s.events ++ select is_event (m ∷ [])
  unfolding deliver select
  events-deliver m s = ground (arith, append-nil s.events)

  raw-deliver :
      (m : Msg P) (s : Session P)
      → (deliver m s).raw ≡ s.raw ++ select (is_unclaimed s.pending) (m ∷ [])
  unfolding deliver select
  raw-deliver m s = ground (arith, append-nil s.raw)

  has-deliver :
      (m : Msg P) (s : Session P) (rid : Text)
      → Table.has Mailbox.rid rid (deliver m s).pending ≡ Table.has Mailbox.rid rid s.pending
  unfolding deliver put_mail
  has-deliver m s rid = elim (Option-cases m.id) [
    | inl e ↦ ground (arith, e)
    | inr (r, e) ↦
        ground (arith, e, has-update Mailbox.rid (add_mail (m ∷ [])) (λ b. refl) r rid s.pending)
  ]

  find-deliver :
      (m : Msg P) (s : Session P) (rid : Text)
      → Table.find Mailbox.rid rid (deliver m s).pending
        ≡ Option.map
            (add_mail (select (is_for rid) (m ∷ [])))
            (Table.find Mailbox.rid rid s.pending)
  unfolding deliver put_mail select
  find-deliver m s rid =
      let old = Table.find Mailbox.rid rid s.pending in
      elim (Option-cases m.id) [
        | inl e ↦ ground (arith, e, add_mail_nothing old)
        | inr (r, e) ↦ ground (
          arith,
          e,
          add_mail_nothing old,
          text_eq_iff r rid,
          find-update Mailbox.rid (add_mail (m ∷ [])) (λ b. refl) r rid s.pending,
          find_of_has Mailbox.rid r s.pending,
        )
      ]

  deliver-IsRouted : (m : Msg P) (s : Session P) → IsRouted (m ∷ []) s (deliver m s)
  deliver-IsRouted m s =
      (events-deliver m s, raw-deliver m s, λ rid. find-deliver m s rid, λ rid. has-deliver m s rid)

  add_mail-add_mail :
      (ms ns : List (Msg P)) (o : Option (Mailbox P))
      → Option.map (add_mail ns) (Option.map (add_mail ms) o) ≡ Option.map (add_mail (ms ++ ns)) o
  add_mail-add_mail ms ns none = refl
  add_mail-add_mail ms ns (some b) =
      ap (λ q. some (record b { queue = q })) (append_assoc b.queue ms ns)

  select-is_unclaimed :
      (a b : List (Mailbox P)) (ms : List (Msg P))
      → ((rid : Text) → Table.has Mailbox.rid rid b ≡ Table.has Mailbox.rid rid a)
      → select (is_unclaimed b) ms ≡ select (is_unclaimed a) ms
  unfolding select
  select-is_unclaimed a b [] h = refl
  select-is_unclaimed a b (m ∷ ms) h = elim (Option-cases m.id) [
    | inl e ↦ ground (arith, e, select-is_unclaimed a b ms h)
    | inr (r, e) ↦ ground (arith, e, h r, select-is_unclaimed a b ms h)
  ]

  IsRouted-trans :
      (ms ns : List (Msg P)) (s t u : Session P)
      → IsRouted ms s t
      → IsRouted ns t u
      → IsRouted (ms ++ ns) s u
  IsRouted-trans ms ns s t u (e, r, f, h) (e', r', f', h') = (
    e'
        ∙ ap (λ q. q ++ select is_event ns) e
        ∙ append_assoc s.events (select is_event ms) (select is_event ns)
        ∙ ap (λ q. s.events ++ q) (sym (select-append is_event ms ns)),
    r'
        ∙ ap (λ q. q ++ select (is_unclaimed t.pending) ns) r
        ∙ ap (λ q. (s.raw ++ select (is_unclaimed s.pending) ms) ++ q)
            (select-is_unclaimed s.pending t.pending ns h)
        ∙ append_assoc s.raw (select (is_unclaimed s.pending) ms)
            (select (is_unclaimed s.pending) ns)
        ∙ ap (λ q. s.raw ++ q) (sym (select-append (is_unclaimed s.pending) ms ns)),
    λ rid.
        f' rid
        ∙ ap (Option.map (add_mail (select (is_for rid) ns))) (f rid)
        ∙ add_mail-add_mail (select (is_for rid) ms) (select (is_for rid) ns)
            (Table.find Mailbox.rid rid s.pending)
        ∙ ap (λ q. Option.map (add_mail q) (Table.find Mailbox.rid rid s.pending))
            (sym (select-append (is_for rid) ms ns)),
    λ rid. h' rid ∙ h rid,
  )

  quiet-IsRouted :
      (s : Session P) (connected want : Bool) (generation : ℕ)
      → IsRouted [] s
          (record s { connected = connected; want_reconnect = want; generation = generation })
  quiet-IsRouted s connected want generation = unread-IsRouted s

  read_round-IsRouted :
      (a : Action P) (s : Session P) → IsRouted (lines_of (a ∷ [])) s (read_round a s)
  unfolding read_round lines_of
  read_round-IsRouted (line m) s = deliver-IsRouted m s
  read_round-IsRouted garbage s = unread-IsRouted s
  read_round-IsRouted eof s = quiet-IsRouted s s.connected true s.generation
  read_round-IsRouted reconnected s =
      elim (s.want_reconnect || not s.connected)
        as (λ b. IsRouted [] s (
          if b
          then record s { connected = true; want_reconnect = false; generation = s.generation + 1 }
          else s)) [
            | true ↦ quiet-IsRouted s true false (s.generation + 1)
            | false ↦ unread-IsRouted s
          ]
  read_round-IsRouted unreachable s =
      elim (s.want_reconnect || not s.connected)
        as (λ b. IsRouted [] s (if b then record s { connected = false } else s)) [
          | true ↦ quiet-IsRouted s false s.want_reconnect s.generation
          | false ↦ unread-IsRouted s
        ]

  lines_of-cons :
      (a : Action P) (actions : List (Action P))
      → lines_of (a ∷ actions) ≡ lines_of (a ∷ []) ++ lines_of actions
  unfolding lines_of
  lines_of-cons (line m) actions = refl
  lines_of-cons garbage actions = refl
  lines_of-cons eof actions = refl
  lines_of-cons reconnected actions = refl
  lines_of-cons unreachable actions = refl

  -- Whatever the reader meets, also across lost connections, each message that it reads goes to one
  -- place and keeps its order there: an event to the events, a reply to the mailbox of the request
  -- that it names, and any other message to the shared queue.
  pub read_rounds-IsRouted :
      (actions : List (Action P)) (s : Session P)
      → IsRouted (lines_of actions) s (read_rounds actions s)
  unfolding read_rounds
  read_rounds-IsRouted [] s = unfold lines_of in unread-IsRouted s
  read_rounds-IsRouted (a ∷ actions) s = rw (lines_of-cons a actions) (
      IsRouted-trans (lines_of (a ∷ [])) (lines_of actions) s (read_round a s)
        (read_rounds actions (read_round a s)) (read_round-IsRouted a s)
        (read_rounds-IsRouted actions (read_round a s)))
