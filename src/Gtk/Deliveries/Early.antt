-- ===== src/Gtk/Deliveries/Early.antt =====
-- Acks that reach client/aimless/gtkui.py before their file is registered.
use aimless.Prelude.{
  ℕ, ◌+◌, ◌≤◌, ◌≡◌, refl, ap, ◌∙◌, Bool, true, false, not, ◌||◌, List, [], ◌∷◌, ◌++◌, Text,
  chunk_eq, chunk_eq_iff, any, ltb, ◌==◌, length, length-append, select, foldl, arith, inl, inr,
  Bool-cases, fun_ext, if◌then◌else◌,
}
use aimless.Store.Deliveries.{groups}
use aimless.Gtk.Deliveries.{
  Tracker, Tracked, see, set_delivery_text, register_file_delivery, note_acked,
}

any-snoc :
    (k key : Text × ℕ) (seen : List (Text × ℕ))
    → any (chunk_eq k) (seen ++ key ∷ []) ≡ (any (chunk_eq k) seen || chunk_eq k key)
unfolding any
any-snoc k key [] = ground arith
any-snoc k key (x ∷ seen) = ground (arith, any-snoc k key seen)

-- Whether an ack is kept: it was seen before, or there is room for it.
abbrev pub is_kept : Text × ℕ → List (Text × ℕ) → Bool
is_kept key seen = any (chunk_eq key) seen || ltb (length seen) 4096

any_seen :
    (k key : Text × ℕ) (seen : List (Text × ℕ))
    → any (chunk_eq key) seen ≡ true
    → (any (chunk_eq k) seen || chunk_eq k key) ≡ any (chunk_eq k) seen
any_seen k key seen old = elim (Bool-cases (chunk_eq k key)) [
  | inl e ↦
      let same = ap (λ x. any (chunk_eq x) seen) ((chunk_eq_iff k key).0 e) ∙ old in
      ground (arith, e, same)
  | inr e ↦ ground (arith, e)
]

-- The set of the acks after one more of them.
see_lem :
    (key : Text × ℕ) (seen : List (Text × ℕ))
    → length seen ≤ 4096
    → (length (see key seen) ≤ length seen + 1)
      × ((k : Text × ℕ)
          → any (chunk_eq k) (see key seen)
            ≡ (if is_kept key seen then any (chunk_eq k) seen || chunk_eq k key else false))
unfolding see
see_lem key seen small = elim (Bool-cases (any (chunk_eq key) seen)) [
  | inl old ↦
      let fits : ltb 4096 (length seen) ≡ false = ground (arith, small) in
      rw (old, see) (rw fits (ground arith, λ k. ground (arith, any_seen k key seen old)))
  | inr new ↦ elim (Bool-cases (ltb (length seen) 4096)) [
    | inl room ↦
        let size = length-append seen (key ∷ []) in
        let fits : ltb 4096 (length (seen ++ key ∷ [])) ≡ false = ground (arith, size, room) in
        rw (new, see) (rw fits (rw room (ground (arith, size), λ k. any-snoc k key seen)))
    | inr full ↦
        let size = length-append seen (key ∷ []) in
        let over : ltb 4096 (length (seen ++ key ∷ [])) ≡ true = ground (arith, size, full) in
        rw (new, see) (rw over (rw full (ground arith, λ k. unfold any in refl)))
  ]
]

-- `note_acked` for one ack after another.
abbrev pub note_all : List (Text × ℕ) → Tracker → Tracker
note_all acks t = foldl (λ u k. (note_acked k.0 k.1 u).0) t acks

note_all-seen :
    (acks : List (Text × ℕ)) (t : Tracker)
    → length t.acked_seen + length acks ≤ 4096
    → (length (note_all acks t).acked_seen ≤ length t.acked_seen + length acks)
      × ((k : Text × ℕ)
          → any (chunk_eq k) (note_all acks t).acked_seen
            ≡ (any (chunk_eq k) t.acked_seen || any (chunk_eq k) acks))
unfolding note_acked any
note_all-seen [] t small = (omega arith, λ k. ground arith)
note_all-seen (a ∷ acks) t small =
    let (size, seen) = see_lem a t.acked_seen (omega arith) in
    let (rest_size, rest) = note_all-seen acks (note_acked a.0 a.1 t).0 (omega (arith, size)) in
    (omega (arith, size, rest_size), λ k. ground (arith, rest k, seen k, small))

-- The chunks of a file that were sent, each of them once.
abbrev pub sent_keys : List (Text × ℕ) → List (Text × ℕ)
sent_keys keys = groups chunk_eq (select (λ k. not (k.1 == 0)) keys)

-- `register_file_delivery` makes a row that waits for exactly these chunks.
abbrev pub AwaitsOnly : Text → List (Text × ℕ) → Tracker → List (Text × ℕ) → Type 0
AwaitsOnly filename keys t missing =
    (r : Tracked) × ((register_file_delivery filename keys t).recs ≡ t.recs ++ r ∷ [])
    × (r.keys ≡ missing)

register-awaits :
    (filename : Text) (keys : List (Text × ℕ)) (t : Tracker) (known : Text × ℕ → Bool)
    → ((k : Text × ℕ) → any (chunk_eq k) t.acked_seen ≡ known k)
    → AwaitsOnly filename keys t (select (λ k. not (known k)) (sent_keys keys))
unfolding register_file_delivery set_delivery_text
register-awaits filename keys t known h =
    (_, refl, ap (λ (f : Text × ℕ → Bool). select f (sent_keys keys)) (fun_ext (λ k. ap not (h k))))

select_all : (keys : List (Text × ℕ)) → select (λ k. not false) keys ≡ keys
unfolding select
select_all [] = refl
select_all (k ∷ keys) = ap (◌∷◌ k) (select_all keys)

-- Where acks come before their file is registered and the set of the acks that were seen does not pass
-- 4096 with them, the row of the file waits for exactly the chunks that were not acked yet. With one
-- ack more it does too, if that ack was seen before or the set still has fewer than 4096 members; else
-- the row waits for every chunk that was sent, also for those that were acked.
pub early_acks :
    (filename : Text) (keys acks : List (Text × ℕ)) (last : Text × ℕ) (t : Tracker)
    → length t.acked_seen + length acks ≤ 4096
    → let known = λ (k : Text × ℕ). any (chunk_eq k) t.acked_seen || any (chunk_eq k) acks in
      let u = note_all acks t in
      AwaitsOnly filename keys u (select (λ k. not (known k)) (sent_keys keys))
      × AwaitsOnly filename keys (note_acked last.0 last.1 u).0 (
          if known last || ltb (length u.acked_seen) 4096
          then select (λ k. not (known k || chunk_eq k last)) (sent_keys keys)
          else sent_keys keys)
unfolding note_acked
early_acks filename keys acks last t small =
    let u = note_all acks t in
    let known = λ (k : Text × ℕ). any (chunk_eq k) t.acked_seen || any (chunk_eq k) acks in
    let (size, seen) = note_all-seen acks t small in
    let (_, more) = see_lem last u.acked_seen (omega (arith, size, small)) in
    let later = (note_acked last.0 last.1 u).0 in
    (
      register-awaits filename keys u known seen,
      elim (Bool-cases (known last || ltb (length u.acked_seen) 4096)) [
        | inl kept ↦ rw kept (
            register-awaits filename keys later (λ k. known k || chunk_eq k last)
              (λ k. ground (arith, more k, seen k, seen last, kept)))
        | inr lost ↦
            let (r, made, missing) =
              register-awaits filename keys later (λ k. false)
                (λ k. ground (arith, more k, seen last, lost)) in
            rw lost (r, made, missing ∙ select_all (sent_keys keys))
      ],
    )
