-- ===== src/Daemon/Session.antt =====
-- The state of `DaemonClient` of client/aimless/daemon.py, and its reader thread.
--
-- A queue is the list of its messages, the oldest first. What the other threads of the client see
-- of the reader is a sequence of its actions.
pub mod Routing
use aimless.Prelude.{
  ℕ, ◌+◌, Bool, true, false, not, ◌&&◌, ◌||◌, Option, none, some, List, [], ◌∷◌, ◌++◌, Text,
  text_eq, text_key, codes, ◌==◌, if◌then◌else◌,
}
use aimless.Prelude.Table
use aimless.Prelude.Decimal.{decimal}

-- A JSON object from the daemon: `msg.get("op")`, `msg.get("id")`, `msg.get("error")`, and the rest.
pub record Msg (P : Type 0) : Type 0 where
  pub op : Option Text
  pub id : Option Text
  pub error : Option Text
  pub fields : P

abbrev pub has_op : {P : Type 0} → Text → Msg P → Bool
has_op op m = elim m.op [ none ↦ false | some o ↦ text_eq o op ]

-- `msg.get("op") in EVENT_OPS`
abbrev pub is_event : {P : Type 0} → Msg P → Bool
is_event m = has_op (codes "recv") m || has_op (codes "acked") m

-- A mailbox of `_pending`: the id of the request and what came for it.
pub record Mailbox (P : Type 0) : Type 0 where
  pub rid : Text
  pub queue : List (Msg P)

pub record Session (P : Type 0) : Type 0 where
  pub events : List (Msg P)
  pub raw : List (Msg P)
  pub stash : List (Msg P)
  pub id_counter : ℕ
  pub pending : List (Mailbox P)
  pub multiplex : Bool
  pub want_reconnect : Bool
  -- whether `_sock` is a socket
  pub connected : Bool
  pub generation : ℕ

-- `__init__`, once `_connect` has succeeded
abbrev pub new_session : {P : Type 0} → Session P
new_session = record {
  events = [];
  raw = [];
  stash = [];
  id_counter = 0;
  pending = [];
  multiplex = false;
  want_reconnect = false;
  connected = true;
  generation = 1;
}

-- What one round of the reader meets: a line that is an object, a line that is no JSON, the end of
-- the stream, a reconnection that succeeds, or one that fails.
pub data Action (P : Type 0) : Type 0 where
  line : Msg P → Action P
  garbage eof reconnected unreachable : Action P

module _ {P : Type 0} where
  -- `mb.put(msg)` for the mailbox of the id
  unfoldable pub put_mail : Text → Msg P → List (Mailbox P) → List (Mailbox P)
  put_mail rid m = Table.update Mailbox.rid rid (λ b. record b { queue = b.queue ++ m ∷ [] })

  -- The end of `_read_loop`: where a message goes.
  unfoldable pub deliver : Msg P → Session P → Session P
  unfolding put_mail
  deliver m s = if is_event m then record s { events = s.events ++ m ∷ [] } else elim m.id [
    | none ↦ record s { raw = s.raw ++ m ∷ [] }
    | some rid ↦
        if Table.has Mailbox.rid rid s.pending
        then record s { pending = put_mail rid m s.pending }
        else record s { raw = s.raw ++ m ∷ [] }
  ]

  -- One round of `_read_loop`: it reconnects where it is asked to or has no socket, with
  -- `_close_socket`, `_connect` and the new generation, and reads a line otherwise. A reader that
  -- waits for a line when another thread asks for a reconnection still reads that line.
  unfoldable pub read_round : Action P → Session P → Session P
  unfolding deliver
  read_round reconnected s =
      if s.want_reconnect || not s.connected
      then record s { connected = true; want_reconnect = false; generation = s.generation + 1 }
      else s
  read_round unreachable s =
      if s.want_reconnect || not s.connected then record s { connected = false } else s
  read_round (line m) s = deliver m s
  read_round garbage s = s
  read_round eof s = record s { want_reconnect = true }

  unfoldable pub read_rounds : List (Action P) → Session P → Session P
  unfolding read_round
  read_rounds [] s = s
  read_rounds (a ∷ actions) s = read_rounds actions (read_round a s)

  -- `_new_id`
  unfoldable pub new_id : Session P → Session P × Text
  new_id s = let n = s.id_counter + 1 in (record s { id_counter = n }, b'r' ∷ decimal n)

  -- `next_event`, with no wait: the oldest event
  unfoldable pub next_event : Session P → Session P × Option (Msg P)
  next_event s = elim s.events [
    | [] ↦ (s, none)
    | m ∷ events ↦ (record s { events = events }, some m)
  ]
