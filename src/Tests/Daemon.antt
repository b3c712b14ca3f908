-- ===== src/Tests/Daemon.antt =====
-- The theorems on client/aimless/daemon.py at a concrete session and a concrete daemon.
use aimless.Prelude.{
  ℕ, ◌≡◌, refl, true, false, some, none, not, List, [], ◌∷◌, ◌++◌, Text, text_eq, text_key, codes,
  select, map, length, ◌+◌,
}
use aimless.Prelude.Table
use aimless.Sync.{opened, entry_key}
use aimless.Protocol.Hex.{to_hex}
use aimless.Protocol.Crypto.{Value, num, get}
use aimless.Protocol.Envelope.{seal_message}
use aimless.Protocol.Envelope.Open
use aimless.Daemon.Session.{
  Msg, Session, new_session, Mailbox, Action, line, eof, reconnected, read_rounds, new_id,
}
use aimless.Daemon.Session.Routing
use aimless.Daemon.Session.Routing.{lines_of, IsRouted}
use aimless.Daemon.Request.{Turn, response_for, request_legacy, request_multiplex}
use aimless.Daemon.Request.Legacy
use aimless.Daemon.Request.Legacy.{Concludes, IsAnswer}
use aimless.Daemon.Request.Multiplex
use aimless.Daemon.Request.Multiplex.{IsOwnAnswer}
use aimless.Daemon.Client.{Call, Daemon, Member, send_call, send_room}
use aimless.Daemon.Client.Room
use aimless.Daemon.Client.Room.{last_number}
use mathlib.Core.Option
use aimless.Tests.Codec.{plain_crypto}

abbrev event : Msg Text
event = record { op = some (codes "recv"); id = none; error = none; fields = [] }

abbrev queued : Msg Text
queued = record { op = some (codes "queued"); id = some (codes "r1"); error = none; fields = [] }

abbrev refusal : Msg Text
refusal = record {
  op = some (codes "error");
  id = none;
  error = some (codes "no peer");
  fields = [];
}

abbrev waiting : Session Text
waiting = record new_session { pending = (record { rid = codes "r1"; queue = [] }) ∷ [] }

abbrev actions : List (Action Text)
actions = line event ∷ eof ∷ reconnected ∷ line queued ∷ line refusal ∷ []

read_rounds-IsRouted_example : IsRouted (lines_of actions) waiting (read_rounds actions waiting)
read_rounds-IsRouted_example = Routing.read_rounds-IsRouted actions waiting

abbrev turns : List (Turn Text)
turns =
    record { reader = []; wait = []; retry = []; accepts = true; late = false }
    ∷ record { reader = actions; wait = []; retry = []; accepts = true; late = false }
    ∷ []

request_legacy-IsAnswer_example :
    Concludes
      (IsAnswer (response_for (codes "send")))
      (request_legacy (codes "send") turns new_session).1
request_legacy-IsAnswer_example =
    Legacy.request_legacy-IsAnswer (codes "send") turns new_session (λ e. cc e)

request_multiplex_answer_example :
    Concludes (IsOwnAnswer (new_id waiting).1) (request_multiplex turns waiting).1
    × (Table.has Mailbox.rid (new_id waiting).1 (request_multiplex turns waiting).0.pending ≡ false)
request_multiplex_answer_example = Multiplex.request_multiplex_answer turns waiting

-- A daemon that keeps the calls, and numbers them from 7 on.
abbrev number : Call Text → List (Call Text × ℕ) → ℕ
number c s = 7 + length s

abbrev recorder : Daemon (List (Call Text × ℕ)) Text
recorder c s = (s ++ (c, number c s) ∷ [], some ((codes "seq", num (number c s)) ∷ []))

abbrev member : ℕ → Member
member k = record { node = k ∷ []; pubkey = to_hex (plain_crypto.verify_key k); screen = none }

abbrev room : List Member
room = member 1 ∷ member 2 ∷ member 3 ∷ []

abbrev names : List (Text × Text × Text) → Text
names l = []

abbrev payload : Member → Text
payload m = elim m.node [
  | [] ↦ []
  | k ∷ _ ↦
      (Open.open_message-seal_message plain_crypto k refl [] 2 (codes "hi") 100 (some (codes "al"))
        (some (codes "c3")) (some [])).0
]

sealed_for :
    (k : ℕ)
    → seal_message plain_crypto [] 2
        (member k).pubkey
        (codes "hi")
        100
        (some (codes "al"))
        (some (codes "c3"))
        (some [])
      ≡ opened (payload (member k))
sealed_for k =
    (Open.open_message-seal_message plain_crypto k refl [] 2 (codes "hi") 100 (some (codes "al"))
      (some (codes "c3")) (some [])).1

send_room_example :
    let (after, returned) =
      send_room plain_crypto recorder
        (λ m. [])
        names
        2
        (codes "al")
        room
        (codes "c3")
        (codes "hi")
        100
        (some (2 ∷ []))
        [] in
    (sent : List (Member × ℕ)) × (result : List (Text × Value Text)) × (map
        (λ (p : Member × ℕ). p.0)
        sent
      ≡ select (λ m. not (text_eq m.node (2 ∷ []))) room)
    × (returned ≡ some result)
    × (after.1
        ≡ [] ++ map (λ (p : Member × ℕ). (send_call (Member.node p.0) (payload p.0), p.1)) sent)
    × ((node : Text)
        → Table.find entry_key node result
          ≡ Option.map (λ n. (node, num n)) (last_number node sent))
unfolding get text_eq
send_room_example =
    Room.send_room_lem plain_crypto recorder (λ s. s) (λ c s. (codes "seq", num (number c s)) ∷ [])
      number (λ c s. refl) (λ c s. refl) (λ c s. refl) (λ m. []) names 2 (codes "al") room
      (codes "c3") (codes "hi") 100 (2 ∷ []) [] payload
      (sealed_for 1, (sealed_for 2, (sealed_for 3, tt)))
