-- ===== src/Sync/Replay.antt =====
-- `apply` of client/aimless/service.py, twice on one reply.
use aimless.Prelude.{
  ℕ, suc, ◌≡◌, refl, sym, ap, ◌∙◌, Bool, true, false, not, some, List, [], ◌∷◌, Text, text_key,
  text_eq_iff, max, arith, inl, inr, All,
}
use mathlib.Core.Path.{subst}
use aimless.Prelude.Table
use aimless.Prelude.Table.Laws.{has-insert_or_ignore, insert_or_ignore_present}
use aimless.Store.Rows.{Message, Store, Nonces}
use aimless.Store.Conversations.{cursor, set_cursor}
use aimless.Store.Messages.{in_id}
use aimless.Sync.{
  Setting, Opened, Entry, Outcome, opened, refused, raised, open_payload, route, apply_from, apply,
}
use aimless.Sync.Route.{messages-route, has-route, route_named, routed_row}
use aimless.Sync.Watermark.{
  Outcome-cases, IsCalm, opened_round, refused_round, cursor-apply, apply_from_calm,
}

module _ {J P M : Type 0} (setting : Setting J P M) (peer : Text) where
  -- The messages of a reply that open are stored.
  abbrev IsStored : Store → ℕ → Outcome (Opened M) → Type 0
  IsStored s seq (opened o) = Table.has Message.id (in_id peer seq) s.messages ≡ true
  IsStored s seq refused = Unit
  IsStored s seq raised = Unit

  abbrev AllStored : Store → List (Entry P) → Type 0
  AllStored s = All (λ m. IsStored s m.seq (open_payload setting m.payload))

  has-apply_from :
      (fresh : ℕ → Nonces) (msgs : List (Entry P)) (seen added : ℕ) (s : Store) (k : Text)
      → IsCalm setting msgs
      → Table.has Message.id k s.messages ≡ true
      → Table.has Message.id k (apply_from setting fresh peer msgs seen added s).0.messages ≡ true
  has-apply_from fresh [] seen added s k calm h = unfold apply_from in h
  has-apply_from fresh (m ∷ ms) seen added s k calm h =
      elim (Outcome-cases (open_payload setting m.payload)) [
        | inl (o, e) ↦
            let (c, new, f) = route_named setting (fresh 0) peer m.seq o s (rw e at calm.0) in
            rw (opened_round setting peer fresh m ms seen added s o c new e f) (
              has-apply_from (λ i. fresh (suc i)) ms _ _ _ k calm.1
                (has-route setting (fresh 0) peer m.seq o s k h))
        | inr r ↦ elim r [
          | inl e ↦
              rw (refused_round setting peer fresh m ms seen added s e)
                (has-apply_from (λ i. fresh (suc i)) ms _ _ s k calm.1 h)
          | inr e ↦ absurd (rw e at calm.0)
        ]
      ]

  -- A route of a message that is stored changes no message and reports nothing new.
  route_stored :
      (fresh : Nonces) (seq : ℕ) (o : Opened M) (s : Store) (c : Text) (new : Bool)
      → (route setting fresh peer seq o s).1 ≡ some (c, new)
      → Table.has Message.id (in_id peer seq) s.messages ≡ true
      → ((route setting fresh peer seq o s).0.messages ≡ s.messages) × (new ≡ false)
  route_stored fresh seq o s c new f h =
      let (kept, fact) = messages-route setting fresh peer seq o s c new f in
      (
        kept
            ∙ insert_or_ignore_present Message.id (routed_row setting fresh peer seq o s) s.messages
                h,
        fact ∙ ap not h,
      )

  stored-apply_from :
      (fresh : ℕ → Nonces) (msgs : List (Entry P)) (seen added : ℕ) (s : Store)
      → IsCalm setting msgs
      → AllStored (apply_from setting fresh peer msgs seen added s).0 msgs
  stored-apply_from fresh [] seen added s calm = tt
  stored-apply_from fresh (m ∷ ms) seen added s calm =
      elim (Outcome-cases (open_payload setting m.payload)) [
        | inl (o, e) ↦
            let (c, new, f) = route_named setting (fresh 0) peer m.seq o s (rw e at calm.0) in
            let t = (route setting (fresh 0) peer m.seq o s).0 in
            let row = routed_row setting (fresh 0) peer m.seq o s in
            let kept = (messages-route setting (fresh 0) peer m.seq o s c new f).0 in
            let here : Table.has Message.id (in_id peer m.seq) t.messages ≡ true = rw kept (
              ground (
                arith,
                has-insert_or_ignore Message.id (in_id peer m.seq) row s.messages,
                text_eq_iff (in_id peer m.seq) (in_id peer m.seq),
              )) in
            subst (λ r. AllStored r.0 (m ∷ ms))
              (sym (opened_round setting peer fresh m ms seen added s o c new e f))
              (
                rw e (has-apply_from (λ i. fresh (suc i)) ms _ _ t (in_id peer m.seq) calm.1 here),
                stored-apply_from (λ i. fresh (suc i)) ms _ _ t calm.1,
              )
        | inr r ↦ elim r [
          | inl e ↦
              subst (λ r. AllStored r.0 (m ∷ ms))
                (sym (refused_round setting peer fresh m ms seen added s e))
                (rw e tt, stored-apply_from (λ i. fresh (suc i)) ms _ _ s calm.1)
          | inr e ↦ absurd (rw e at calm.0)
        ]
      ]

  stored_messages :
      (s t : Store) (msgs : List (Entry P))
      → t.messages ≡ s.messages
      → AllStored s msgs
      → AllStored t msgs
  stored_messages s t [] e h = tt
  stored_messages s t (m ∷ ms) e (here, rest) =
      (one (open_payload setting m.payload) here, stored_messages s t ms e rest)
    where
      one : (r : Outcome (Opened M)) → IsStored s m.seq r → IsStored t m.seq r
      one (opened o) h = rw e h
      one refused h = tt
      one raised h = tt

  apply_from_stored :
      (fresh : ℕ → Nonces) (msgs : List (Entry P)) (seen added : ℕ) (s : Store)
      → IsCalm setting msgs
      → AllStored s msgs
      → ((apply_from setting fresh peer msgs seen added s).0.messages ≡ s.messages)
        × ((seen' : ℕ) × ((apply_from setting fresh peer msgs seen added s).1
              ≡ some (seen', added)))
  apply_from_stored fresh [] seen added s calm h = unfold apply_from in (refl, (seen, refl))
  apply_from_stored fresh (m ∷ ms) seen added s calm h =
      elim (Outcome-cases (open_payload setting m.payload)) [
        | inl (o, e) ↦
            let (c, new, f) = route_named setting (fresh 0) peer m.seq o s (rw e at calm.0) in
            let t = (route setting (fresh 0) peer m.seq o s).0 in
            let (same, old) = route_stored (fresh 0) m.seq o s c new f (rw e at h.0) in
            let (kept, result) =
              apply_from_stored (λ i. fresh (suc i)) ms (max seen m.seq) added t calm.1
                (stored_messages s t ms same h.1) in
            rw (opened_round setting peer fresh m ms seen added s o c new e f)
              (rw old (kept ∙ same, result))
        | inr r ↦ elim r [
          | inl e ↦
              rw (refused_round setting peer fresh m ms seen added s e)
                (apply_from_stored (λ i. fresh (suc i)) ms _ _ s calm.1 h.1)
          | inr e ↦ absurd (rw e at calm.0)
        ]
      ]

  messages-set_cursor : (n : ℕ) (s : Store) → (set_cursor peer n s).messages ≡ s.messages
  messages-set_cursor n s = unfold set_cursor in refl

  messages-apply :
      (fresh : ℕ → Nonces) (msgs : List (Entry P)) (s : Store) {r : ℕ × ℕ}
      → (apply_from setting fresh peer msgs (cursor s peer) 0 s).1 ≡ some r
      → ((apply setting fresh peer msgs s).0.messages
          ≡ (apply_from setting fresh peer msgs (cursor s peer) 0 s).0.messages)
        × ((apply setting fresh peer msgs s).1 ≡ some r.1)
  unfolding apply set_cursor
  messages-apply fresh msgs s {r} e = rw (apply, e) (ground arith, refl)

  -- When a reply whose entries are calm was applied, to apply it again (after a double fetch, or a
  -- restart of the scan) reports 0 new messages, leaves the messages as they are and moves no
  -- cursor.
  pub apply_again :
      (fresh fresh' : ℕ → Nonces) (msgs : List (Entry P)) (s : Store)
      → IsCalm setting msgs
      → ((apply setting fresh' peer msgs (apply setting fresh peer msgs s).0).1 ≡ some 0)
        × ((apply setting fresh' peer msgs (apply setting fresh peer msgs s).0).0.messages
            ≡ (apply setting fresh peer msgs s).0.messages)
        × ((q : Text)
            → cursor (apply setting fresh' peer msgs (apply setting fresh peer msgs s).0).0 q
              ≡ cursor (apply setting fresh peer msgs s).0 q)
  apply_again fresh fresh' msgs s calm =
      let t = (apply setting fresh peer msgs s).0 in
      let (n, g) = apply_from_calm setting peer fresh msgs (cursor s peer) 0 s calm in
      let (first, _) = messages-apply fresh msgs s g in
      let stored =
        stored_messages (apply_from setting fresh peer msgs (cursor s peer) 0 s).0 t msgs first
          (stored-apply_from fresh msgs (cursor s peer) 0 s calm) in
      let (kept, rest) = apply_from_stored fresh' msgs (cursor t peer) 0 t calm stored in
      let (seen', e) = rest in
      let (second, result) = messages-apply fresh' msgs t e in
      (
        result,
        second ∙ kept,
        λ q. ground (
          arith,
          (cursor-apply setting peer fresh msgs s q calm).1,
          (cursor-apply setting peer fresh msgs s peer calm).1,
          (cursor-apply setting peer fresh' msgs t q calm).1,
          text_eq_iff peer q,
          text_eq_iff peer peer,
        ),
      )
