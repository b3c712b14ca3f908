-- ===== src/Sync/Watermark.antt =====
-- The cursor of a peer after `apply` of client/aimless/service.py.
use aimless.Prelude.{
  ℕ, suc, ◌+◌, ◌≡◌, ◌⊎◌, refl, ◌∙◌, Bool, none, some, List, [], ◌∷◌, ◌++◌, Text, text_key, text_eq,
  text_eq_iff, ltb, max, if◌then◌else◌, arith, Option-cases, inl, inr, All,
}
use aimless.Store.Rows.{Store, Nonces}
use aimless.Store.Conversations.{cursor}
use aimless.Store.Cursor.{cursor-set_cursor}
use aimless.Sync.{
  Setting, Opened, Entry, Outcome, opened, refused, raised, open_payload, route, apply_from, apply,
}
use aimless.Sync.Route.{cursor-route, route_named}

-- The largest sequence number of a reply.
unfoldable pub top_seq : {P : Type 0} → List (Entry P) → ℕ
top_seq [] = 0
top_seq (m ∷ ms) = max m.seq (top_seq ms)

pub Outcome-cases :
    {A : Type 0} (r : Outcome A) → ((a : A) × (r ≡ opened a)) ⊎ ((r ≡ refused) ⊎ (r ≡ raised))
Outcome-cases (opened a) = inl (a, refl)
Outcome-cases refused = inr (inl refl)
Outcome-cases raised = inr (inr refl)

max_of_test : (a b : ℕ) → (if ltb a b then b else a) ≡ max a b
max_of_test a b = ground arith

max_top :
    {P : Type 0} (seen : ℕ) (m : Entry P) (ms : List (Entry P))
    → max (max seen m.seq) (top_seq ms) ≡ max seen (top_seq (m ∷ ms))
unfolding top_seq
max_top seen m ms = omega arith

module _ {J P M : Type 0} (setting : Setting J P M) where
  open setting use {node}

  -- An entry that raises nothing: it is refused, or its members all have a node.
  abbrev pub OpensCalmly : Outcome (Opened M) → Type 0
  OpensCalmly refused = Unit
  OpensCalmly raised = ⊥
  OpensCalmly (opened o) = All (λ m. (n : Text) × (node m ≡ some n)) o.members

  abbrev pub IsCalm : List (Entry P) → Type 0
  IsCalm = All (λ m. OpensCalmly (open_payload setting m.payload))

  module _ (peer : Text) where
    -- One round of the loop, by the outcome of the payload.
    pub opened_round :
        (fresh : ℕ → Nonces) (m : Entry P) (ms : List (Entry P)) (seen added : ℕ) (s : Store)
        (o : Opened M) (c : Text) (new : Bool)
        → open_payload setting m.payload ≡ opened o
        → (route setting (fresh 0) peer m.seq o s).1 ≡ some (c, new)
        → apply_from setting fresh peer (m ∷ ms) seen added s
          ≡ apply_from setting
              (λ i. fresh (suc i))
              peer
              ms
              (max seen m.seq)
              (if new then added + 1 else added)
              (route setting (fresh 0) peer m.seq o s).0
    unfolding apply_from
    opened_round fresh m ms seen added s o c new e f =
        rw (apply_from, e) (rw (apply_from, f) (rw (max_of_test seen m.seq) refl))

    pub refused_round :
        (fresh : ℕ → Nonces) (m : Entry P) (ms : List (Entry P)) (seen added : ℕ) (s : Store)
        → open_payload setting m.payload ≡ refused
        → apply_from setting fresh peer (m ∷ ms) seen added s
          ≡ apply_from setting (λ i. fresh (suc i)) peer ms (max seen m.seq) added s
    unfolding apply_from
    refused_round fresh m ms seen added s e = rw (apply_from, e) (rw (max_of_test seen m.seq) refl)

    raised_round :
        (fresh : ℕ → Nonces) (m : Entry P) (ms : List (Entry P)) (seen added : ℕ) (s : Store)
        → open_payload setting m.payload ≡ raised
        → apply_from setting fresh peer (m ∷ ms) seen added s ≡ (s, none)
    unfolding apply_from
    raised_round fresh m ms seen added s e = rw (apply_from, e)

    failed_round :
        (fresh : ℕ → Nonces) (m : Entry P) (ms : List (Entry P)) (seen added : ℕ) (s : Store)
        (o : Opened M)
        → open_payload setting m.payload ≡ opened o
        → (route setting (fresh 0) peer m.seq o s).1 ≡ none
        → apply_from setting fresh peer (m ∷ ms) seen added s
          ≡ ((route setting (fresh 0) peer m.seq o s).0, none)
    unfolding apply_from
    failed_round fresh m ms seen added s o e f = rw (apply_from, e) (rw (apply_from, f) refl)

    -- The loop moves no cursor, whether it ends or raises.
    pub cursor-apply_from :
        (fresh : ℕ → Nonces) (msgs : List (Entry P)) (seen added : ℕ) (s : Store) (q : Text)
        → cursor (apply_from setting fresh peer msgs seen added s).0 q ≡ cursor s q
    cursor-apply_from fresh [] seen added s q = unfold apply_from in refl
    cursor-apply_from fresh (m ∷ ms) seen added s q =
        elim (Outcome-cases (open_payload setting m.payload)) [
          | inl (o, e) ↦ elim (Option-cases (route setting (fresh 0) peer m.seq o s).1) [
            | inl f ↦
                rw (failed_round fresh m ms seen added s o e f)
                  (cursor-route setting (fresh 0) peer m.seq o s q)
            | inr ((c, new), f) ↦ rw (opened_round fresh m ms seen added s o c new e f) (
                cursor-apply_from (λ i. fresh (suc i)) ms _ _ _ q
                ∙ cursor-route setting (fresh 0) peer m.seq o s q)
          ]
          | inr r ↦ elim r [
            | inl e ↦
                rw (refused_round fresh m ms seen added s e)
                  (cursor-apply_from (λ i. fresh (suc i)) ms _ _ s q)
            | inr e ↦ rw (raised_round fresh m ms seen added s e)
          ]
        ]

    -- On calm entries the loop ends, having seen the largest sequence number.
    pub apply_from_calm :
        (fresh : ℕ → Nonces) (msgs : List (Entry P)) (seen added : ℕ) (s : Store)
        → IsCalm msgs
        → (n : ℕ) × ((apply_from setting fresh peer msgs seen added s).1
            ≡ some (max seen (top_seq msgs), n))
    apply_from_calm fresh [] seen added s h = (added, unfold apply_from top_seq in ground arith)
    apply_from_calm fresh (m ∷ ms) seen added s h =
        elim (Outcome-cases (open_payload setting m.payload)) [
          | inl (o, e) ↦
              let (c, new, f) = route_named setting (fresh 0) peer m.seq o s (rw e at h.0) in
              let (n, g) =
                apply_from_calm (λ i. fresh (suc i)) ms (max seen m.seq)
                  (if new then added + 1 else added) (route setting (fresh 0) peer m.seq o s).0
                  h.1 in
              (
                n,
                rw (opened_round fresh m ms seen added s o c new e f)
                    (rw (g, max_top seen m ms) refl),
              )
          | inr r ↦ elim r [
            | inl e ↦
                let (n, g) = apply_from_calm (λ i. fresh (suc i)) ms (max seen m.seq) added s h.1 in
                (n, rw (refused_round fresh m ms seen added s e) (rw (g, max_top seen m ms) refl))
            | inr e ↦ absurd (rw e at h.0)
          ]
        ]

    loop_raised :
        (fresh : ℕ → Nonces) (before : List (Entry P)) (m : Entry P) (rest : List (Entry P))
        (seen added : ℕ) (s : Store)
        → IsCalm before
        → open_payload setting m.payload ≡ raised
        → (apply_from setting fresh peer (before ++ m ∷ rest) seen added s).1 ≡ none
    loop_raised fresh [] m rest seen added s calm e = rw (raised_round fresh m rest seen added s e)
    loop_raised fresh (b ∷ bs) m rest seen added s calm e =
        elim (Outcome-cases (open_payload setting b.payload)) [
          | inl (o, f) ↦
              let (c, new, g) = route_named setting (fresh 0) peer b.seq o s (rw f at calm.0) in
              rw (opened_round fresh b (bs ++ m ∷ rest) seen added s o c new f g)
                (loop_raised (λ i. fresh (suc i)) bs m rest _ _ _ calm.1 e)
          | inr r ↦ elim r [
            | inl f ↦
                rw (refused_round fresh b (bs ++ m ∷ rest) seen added s f)
                  (loop_raised (λ i. fresh (suc i)) bs m rest _ _ s calm.1 e)
            | inr f ↦ absurd (rw f at calm.0)
          ]
        ]

    -- An `apply` through which an exception goes moves no cursor, however many messages it stored.
    cursor-apply-none :
        (fresh : ℕ → Nonces) (msgs : List (Entry P)) (s : Store) (q : Text)
        → (apply setting fresh peer msgs s).1 ≡ none
        → cursor (apply setting fresh peer msgs s).0 q ≡ cursor s q
    unfolding apply
    cursor-apply-none fresh msgs s q =
        let after = cursor s peer in
        elim (Option-cases (apply_from setting fresh peer msgs after 0 s).1) [
          | inl e ↦ λ _. rw (apply, e) (cursor-apply_from fresh msgs after 0 s q)
          | inr (r, e) ↦ rw (apply, e) (λ h. cc)
        ]

    -- On calm entries `apply` returns, moves the cursor of its peer to the largest sequence number
    -- of the reply if that is larger, whatever could be routed, and moves no other cursor.
    pub cursor-apply :
        (fresh : ℕ → Nonces) (msgs : List (Entry P)) (s : Store) (q : Text)
        → IsCalm msgs
        → ((n : ℕ) × ((apply setting fresh peer msgs s).1 ≡ some n))
          × (cursor (apply setting fresh peer msgs s).0 q
              ≡ (if text_eq peer q then max (cursor s peer) (top_seq msgs) else cursor s q))
    unfolding apply
    cursor-apply fresh msgs s q calm =
        let after = cursor s peer in
        let loop = apply_from setting fresh peer msgs after 0 s in
        let (n, g) = apply_from_calm fresh msgs after 0 s calm in
        (
          (n, rw (apply, g)),
          rw (apply, g)
              (ground (
                arith,
                cursor-apply_from fresh msgs after 0 s q,
                cursor-apply_from fresh msgs after 0 s peer,
                cursor-set_cursor loop.0 peer q (max after (top_seq msgs)),
                text_eq_iff peer q,
              )),
        )

    -- A payload that raises what `apply` does not catch stops it, whatever comes before and after:
    -- `apply` does not return, and no cursor moves, so that the next `apply` of the stream meets
    -- the payload again.
    pub apply_raised :
        (fresh : ℕ → Nonces) (before : List (Entry P)) (m : Entry P) (rest : List (Entry P))
        (s : Store)
        → IsCalm before
        → open_payload setting m.payload ≡ raised
        → ((apply setting fresh peer (before ++ m ∷ rest) s).1 ≡ none)
          × ((q : Text) → cursor (apply setting fresh peer (before ++ m ∷ rest) s).0 q ≡ cursor s q)
    unfolding apply
    apply_raised fresh before m rest s calm e =
        let stuck = loop_raised fresh before m rest (cursor s peer) 0 s calm e in
        (
          rw (apply, stuck),
          λ q. cursor-apply-none fresh (before ++ m ∷ rest) s q (rw (apply, stuck)),
        )
