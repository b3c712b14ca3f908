-- ===== src/Daemon/Request.antt =====
-- `request` of `DaemonClient` of client/aimless/daemon.py, on both of its paths.
--
-- The loop takes one turn after another: what the reader thread does meanwhile, whether the socket
-- takes the request, and whether the deadline has passed stand in the turns. When they are used up
-- the request still waits. One request runs at a time; the mailboxes of others may be open.
pub mod Legacy
pub mod Multiplex
use aimless.Prelude.{
  ℕ, ◌+◌, Bool, true, false, not, ◌&&◌, ◌||◌, Option, none, some, List, [], ◌∷◌, ◌++◌, Text,
  text_eq, text_key, codes, ◌==◌, if◌then◌else◌,
}
use aimless.Prelude.Table
use aimless.Daemon.Session.{Msg, has_op, is_event, Mailbox, Session, Action, read_rounds, new_id}

-- How a request ends: with a reply, or with the `DaemonError` of a daemon that is unreachable, of the
-- deadline, or of an error reply.
pub data Reply (P : Type 0) : Type 0 where
  reply : Msg P → Reply P
  unreachable_daemon timed_out : Reply P
  error_reply : Option Text → Reply P

pub record Turn (P : Type 0) : Type 0 where
  -- what the reader does before the turn, during the first wait for a new generation, and during
  -- the one after a send that failed
  pub reader : List (Action P)
  pub wait : List (Action P)
  pub retry : List (Action P)
  -- whether a connected socket takes the request, and whether no time remains
  pub accepts : Bool
  pub late : Bool

-- `sent` and `sent_gen`
pub record Progress : Type 0 where
  pub sent : Bool
  pub sent_gen : ℕ

pub data Status : Type 0 where
  gave_up again ready : Status

-- `RESPONSE_MAP.get(op, op)`
unfoldable pub response_for : Text → Text
response_for op =
    if text_eq op (codes "send") || text_eq op (codes "sendfile")
    then codes "queued"
    else if text_eq op (codes "watch")
    then codes "watching"
    else if text_eq op (codes "setstatus")
    then codes "statusset"
    else op

-- `bool(msg.get("id"))`
abbrev pub has_id : Option Text → Bool
has_id none = false
has_id (some []) = false
has_id (some (c ∷ cs)) = true

module _ {P : Type 0} where
  -- The part of the loops up to the deadline: to wait for a connection, and to send.
  unfoldable pub attempt : Turn P → Progress → Session P → Session P × Progress × Status
  attempt t p s =
      let s1 = read_rounds t.reader s in
      let down = not s1.connected || s1.want_reconnect in
      let s2 = if down then read_rounds t.wait s1 else s1 in
      if down && s2.generation == p.sent_gen
      then (s2, p, gave_up)
      else if not down && p.sent
      then (s2, p, ready)
      else if t.accepts && s2.connected
      then (s2, record { sent = true; sent_gen = s2.generation }, ready)
      else (let s4 = read_rounds t.retry (record s2 { want_reconnect = true }) in
          if s4.generation == p.sent_gen
          then (s4, p, gave_up)
          else (s4, record p { sent = false }, again))

  -- `continue` where nothing was found, and the end of the request otherwise.
  abbrev pub after_look :
      (Session P → Session P × Option (Reply P))
      → Session P × Option (Reply P)
      → Session P × Option (Reply P)
  after_look rest (s, none) = rest s
  after_look rest (s, some r) = (s, some r)

  -- The part of the loops behind the send, with the next rounds: the deadline, and one look.
  abbrev pub after_attempt :
      (Session P → Session P × Option (Reply P))
      → (Progress → Session P → Session P × Option (Reply P))
      → Bool
      → Session P × Progress × Status
      → Session P × Option (Reply P)
  after_attempt look rest late (s, p, gave_up) = (s, some unreachable_daemon)
  after_attempt look rest late (s, p, again) = rest p s
  after_attempt look rest true (s, p, ready) = (s, some timed_out)
  after_attempt look rest false (s, p, ready) = after_look (rest p) (look s)

  -- The loop, by the step that looks for an answer.
  unfoldable pub request_loop :
      (Session P → Session P × Option (Reply P))
      → List (Turn P)
      → Progress
      → Session P
      → Session P × Option (Reply P)
  request_loop look [] p s = (s, none)
  request_loop look (t ∷ turns) p s =
      after_attempt look (request_loop look turns) t.late (attempt t p s)

  -- `raise DaemonError(msg.get("error", …))` or `return msg`
  abbrev pub conclude : Msg P → Reply P
  conclude m = if has_op (codes "error") m then error_reply m.error else reply m

  -- A message from the shared queue, behind which `raw` waits.
  unfoldable pub take_message :
      Text → Msg P → List (Msg P) → Session P → Session P × Option (Reply P)
  take_message expected m raw s =
      if is_event m
      then (record s { raw = raw; events = s.events ++ m ∷ [] }, none)
      else if not (has_op expected m)
      then (record s { raw = raw; stash = s.stash ++ m ∷ [] }, none)
      else (record s { raw = raw; multiplex = s.multiplex || has_id m.id }, some (conclude m))

  -- The end of the loop of `_request_legacy`: one message of the shared queue, if there is one.
  unfoldable pub take_raw : Text → Session P → Session P × Option (Reply P)
  unfolding take_message
  take_raw expected s = elim s.raw as (λ _. Session P × Option (Reply P)) [
    | [] ↦ (s, none)
    | m ∷ raw ↦ take_message expected m raw s
  ]

  -- `_request_legacy`
  unfoldable pub request_legacy : Text → List (Turn P) → Session P → Session P × Option (Reply P)
  unfolding request_loop
  request_legacy op turns s =
      let (s1, rid) = new_id s in
      request_loop (take_raw (response_for op)) turns
        (record { sent = false; sent_gen = s1.generation }) s1

  -- `_pending[rid]` without the message that was taken from it
  abbrev pub keep_mail : Text → List (Msg P) → Session P → Session P
  keep_mail rid queue s = record s {
    pending = Table.update Mailbox.rid rid (λ c. record c { queue = queue }) s.pending;
  }

  -- The end of the loop of `_request_multiplex`: one message of the mailbox, if there is one.
  abbrev pub take_from : Text → Session P → Option (Mailbox P) → Session P × Option (Reply P)
  take_from rid s none = (s, none)
  take_from rid s (some b) = elim b.queue as (λ _. Session P × Option (Reply P)) [
    | [] ↦ (s, none)
    | m ∷ queue ↦ (keep_mail rid queue s, some (conclude m))
  ]

  unfoldable pub take_mail : Text → Session P → Session P × Option (Reply P)
  take_mail rid s = take_from rid s (Table.find Mailbox.rid rid s.pending)

  -- `_request_multiplex`
  unfoldable pub request_multiplex : List (Turn P) → Session P → Session P × Option (Reply P)
  unfolding request_loop
  request_multiplex turns s =
      let (s1, rid) = new_id s in
      let s2 = record s1 {
        pending =
            Table.upsert Mailbox.rid (record { rid = rid; queue = [] })
              (λ b. record b { queue = [] }) s1.pending;
      } in
      let (s3, answer) =
        request_loop (take_mail rid) turns (record { sent = false; sent_gen = s2.generation }) s2 in
      (record s3 { pending = Table.delete Mailbox.rid rid s3.pending }, answer)

  -- `request`
  unfoldable pub request : Text → List (Turn P) → Session P → Session P × Option (Reply P)
  request op turns s = if s.multiplex then request_multiplex turns s else request_legacy op turns s
