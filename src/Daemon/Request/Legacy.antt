-- ===== src/Daemon/Request/Legacy.antt =====
-- How a request on the legacy path of client/aimless/daemon.py ends.
use aimless.Prelude.{
  ◌≡◌, ◌≢◌, Bool, true, false, Option, none, some, List, [], ◌∷◌, Text, text_eq_iff, codes, arith,
  inl, inr, Bool-cases, Option-cases,
}
use aimless.Daemon.Session.{Msg, has_op, is_event, Session, new_id}
use aimless.Daemon.Request.{
  Reply, reply, unreachable_daemon, timed_out, error_reply, Turn, Progress, Status, gave_up, again,
  ready, response_for, attempt, request_loop, take_message, take_raw, request_legacy, after_look,
  after_attempt,
}

-- What holds of each answer that is found holds of the answer of the loop.
abbrev pub Concludes : {P : Type 0} → (Reply P → Type 0) → Option (Reply P) → Type 0
Concludes Q none = Unit
Concludes Q (some (reply m)) = Q (reply m)
Concludes Q (some (error_reply e)) = Q (error_reply e)
Concludes Q (some unreachable_daemon) = Unit
Concludes Q (some timed_out) = Unit

module _ {P : Type 0} (look : Session P → Session P × Option (Reply P)) (Q : Reply P → Type 0)
    (I : Session P → Type 0)
    (found : (s : Session P) → I s → I (look s).0 × Concludes Q (look s).1) where
  after_look-Concludes :
      (rest : Session P → Session P × Option (Reply P))
      → ((s : Session P) → I s → I (rest s).0 × Concludes Q (rest s).1)
      → (r : Session P × Option (Reply P)) → I r.0
      → Concludes Q r.1
      → I (after_look rest r).0 × Concludes Q (after_look rest r).1
  after_look-Concludes rest keep (s, none) i c = keep s i
  after_look-Concludes rest keep (s, some r) i c = (i, c)

  after_attempt-Concludes :
      (rest : Progress → Session P → Session P × Option (Reply P))
      → ((p : Progress) (s : Session P) → I s → I (rest p s).0 × Concludes Q (rest p s).1)
      → (late : Bool) (a : Session P × Progress × Status) → I a.0
      → I (after_attempt look rest late a).0 × Concludes Q (after_attempt look rest late a).1
  after_attempt-Concludes rest keep late (s, p, gave_up) i = (i, tt)
  after_attempt-Concludes rest keep late (s, p, again) i = keep p s i
  after_attempt-Concludes rest keep true (s, p, ready) i = (i, tt)
  after_attempt-Concludes rest keep false (s, p, ready) i =
      let f = found s i in after_look-Concludes (rest p) (keep p) (look s) f.0 f.1

  -- An invariant that sending and looking keep, and what looking finds under it.
  pub request_loop-Concludes :
      ((t : Turn P) (p : Progress) (s : Session P) → I s → I (attempt t p s).0)
      → (turns : List (Turn P)) (p : Progress) (s : Session P) → I s
      → I (request_loop look turns p s).0 × Concludes Q (request_loop look turns p s).1
  unfolding request_loop
  request_loop-Concludes step [] p s i = (i, tt)
  request_loop-Concludes step (t ∷ turns) p s i =
      after_attempt-Concludes (request_loop look turns)
        (λ q u j. request_loop-Concludes step turns q u j) t.late (attempt t p s) (step t p s i)

-- The reply has the operation that answers the request, and is no event.
abbrev pub IsAnswer : {P : Type 0} → Text → Reply P → Type 0
IsAnswer expected (reply m) = has_op expected m ≡ true
IsAnswer expected (error_reply e) = ⊥
IsAnswer expected unreachable_daemon = Unit
IsAnswer expected timed_out = Unit

module _ {P : Type 0} (expected : Text) (plain : expected ≢ codes "error") where
  has_op_apart : (m : Msg P) → has_op expected m ≡ true → has_op (codes "error") m ≡ false
  has_op_apart m h = elim (Option-cases m.op) [
    | inl e ↦ ground (arith, e)
    | inr (o, e) ↦ ground (arith, e, text_eq_iff o expected, text_eq_iff o (codes "error"))
  ]

  take_message-IsAnswer :
      (m : Msg P) (raw : List (Msg P)) (s : Session P)
      → Concludes (IsAnswer expected) (take_message expected m raw s).1
  unfolding take_message
  take_message-IsAnswer m raw s = elim (Bool-cases (is_event m)) [
    | inl e ↦ rw e tt
    | inr n ↦ rw n (elim (Bool-cases (has_op expected m)) [
      | inl a ↦ rw a (rw (has_op_apart m a) a)
      | inr b ↦ rw b tt
    ])
  ]

  take_raw-IsAnswer : (s : Session P) → Concludes (IsAnswer expected) (take_raw expected s).1
  unfolding take_raw
  take_raw-IsAnswer s =
      elim s.raw
        as (λ queue.
          Concludes (IsAnswer expected)
            (elim queue as (λ _. Session P × Option (Reply P)) [
              | [] ↦ (s, none)
              | m ∷ raw ↦ take_message expected m raw s
            ]).1) [ [] ↦ tt | m ∷ raw ↦ take_message-IsAnswer m raw s ]

response_for_apart : (op : Text) → op ≢ codes "error" → response_for op ≢ codes "error"
unfolding response_for
response_for_apart op h = ground arith

-- On the legacy path a request never raises what the daemon answers with an error: whatever the
-- reader meets, it ends, if at all, with a reply of the expected operation, or as if the daemon were
-- unreachable or had not answered in time.
pub request_legacy-IsAnswer :
    {P : Type 0} (op : Text) (turns : List (Turn P)) (s : Session P)
    → op ≢ codes "error"
    → Concludes (IsAnswer (response_for op)) (request_legacy op turns s).1
unfolding request_legacy
request_legacy-IsAnswer op turns s plain =
    let (s1, rid) = new_id s in
    (request_loop-Concludes (take_raw (response_for op)) (IsAnswer (response_for op))
      (λ _. Unit {0})
      (λ u _. (tt, take_raw-IsAnswer (response_for op) (response_for_apart op plain) u))
      (λ t p u _. tt) turns (record { sent = false; sent_gen = s1.generation }) s1 tt).1
