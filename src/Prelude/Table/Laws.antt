-- ===== src/Prelude/Table/Laws.antt =====
-- What the statements of `Table` do to a lookup and to the uniqueness of keys.
use mathlib.Core.Path.{◌≡◌, refl}
use mathlib.Core.Bool.{Bool, true, false, ◌||◌}
use mathlib.Core.Option
use mathlib.Core.Option.{Option, none, some}
use mathlib.Core.List.{List, [], ◌∷◌, ◌++◌}
use native.Mathlib.Omega.{arith}
use aimless.Prelude.Tests.{Eq, if◌then◌else◌}
use aimless.Prelude.Lists.{select}
use aimless.Prelude.Table
use aimless.Prelude.Table.{Distinct}

pub beq_refl {κ} : {K : Type κ} ⦃e : Eq K⦄ (k : K) → e.beq k k ≡ true
beq_refl ⦃e⦄ k = (e.beq_iff k k).1 refl

module _ {ℓ κ} {R : Type ℓ} {K : Type κ} ⦃e : Eq K⦄ (key : R → K) where
  abbrev pub found : Option R → Bool
  found none = false
  found (some _) = true

  pub has-eq-found : (k : K) (t : List R) → Table.has key k t ≡ found (Table.find key k t)
  unfolding Table.has Table.find
  has-eq-found k [] = refl
  has-eq-found k (r ∷ t) = ground (arith, has-eq-found k t)

  pub find_of_has : (k : K) (t : List R) → Table.has key k t ≡ false → Table.find key k t ≡ none
  unfolding Table.has Table.find
  find_of_has k [] h = refl
  find_of_has k (r ∷ t) h = ground (arith, find_of_has k t)

  pub find-append :
      (k : K) (r : R) (t : List R)
      → Table.find key k (t ++ r ∷ []) ≡ (
          if Table.has key k t
          then Table.find key k t
          else if e.beq (key r) k
          then some r
          else none)
  unfolding Table.has Table.find
  find-append k r [] = refl
  find-append k r (x ∷ t) = ground (arith, find-append k r t)

  pub has-append :
      (k : K) (r : R) (t : List R)
      → Table.has key k (t ++ r ∷ []) ≡ (Table.has key k t || e.beq (key r) k)
  unfolding Table.has
  has-append k r [] = ground arith
  has-append k r (x ∷ t) = ground (arith, has-append k r t)

  pub find-insert_or_ignore :
      (k : K) (r : R) (t : List R)
      → Table.find key k (Table.insert_or_ignore key r t) ≡ (
          if Table.has key k t
          then Table.find key k t
          else if e.beq (key r) k
          then some r
          else none)
  unfolding Table.insert_or_ignore
  find-insert_or_ignore k r t =
      ground (arith, find-append k r t, find_of_has k t, find_of_has (key r) t, e.beq_iff (key r) k)

  pub has-insert_or_ignore :
      (k : K) (r : R) (t : List R)
      → Table.has key k (Table.insert_or_ignore key r t) ≡ (Table.has key k t || e.beq (key r) k)
  unfolding Table.insert_or_ignore
  has-insert_or_ignore k r t = ground (arith, has-append k r t, e.beq_iff (key r) k)

  pub insert_or_ignore_present :
      (r : R) (t : List R) → Table.has key (key r) t ≡ true → Table.insert_or_ignore key r t ≡ t
  unfolding Table.insert_or_ignore
  insert_or_ignore_present r t h = rw h

  -- Updates that leave the key alone.
  module _ (f : R → R) (keeps : (r : R) → key (f r) ≡ key r) where
    pub find-update :
        (j k : K) (t : List R)
        → Table.find key k (Table.update key j f t)
          ≡ (if e.beq j k then Option.map f (Table.find key k t) else Table.find key k t)
    unfolding Table.find Table.update
    find-update j k [] = ground arith
    find-update j k (r ∷ t) =
        ground (
          arith,
          find-update j k t,
          keeps r,
          e.beq_iff (key r) j,
          e.beq_iff (key r) k,
          e.beq_iff j k,
        )

    pub has-update :
        (j k : K) (t : List R) → Table.has key k (Table.update key j f t) ≡ Table.has key k t
    unfolding Table.has Table.update
    has-update j k [] = refl
    has-update j k (r ∷ t) = ground (arith, has-update j k t, keeps r)

    pub update-Distinct :
        (j : K) (t : List R) → Distinct key t → Distinct key (Table.update key j f t)
    unfolding Table.update
    update-Distinct j [] d = tt
    update-Distinct j (r ∷ t) d =
        (ground (arith, has-update j (key r) t, keeps r, d.0), update-Distinct j t d.1)

  pub append-Distinct :
      (r : R) (t : List R)
      → Table.has key (key r) t ≡ false
      → Distinct key t
      → Distinct key (t ++ r ∷ [])
  unfolding Table.has
  append-Distinct r [] h d = (refl, tt)
  append-Distinct r (x ∷ t) h d = (
    ground (arith, has-append (key x) r t, e.beq_iff (key r) (key x), e.beq_iff (key x) (key r)),
    append-Distinct r t (ground arith) d.1,
  )

  pub insert_or_ignore-Distinct :
      (r : R) (t : List R) → Distinct key t → Distinct key (Table.insert_or_ignore key r t)
  unfolding Table.insert_or_ignore
  insert_or_ignore-Distinct r t d = ground (arith, append-Distinct r t)

  pub upsert-Distinct :
      (r : R) (f : R → R) (t : List R)
      → ((x : R) → key (f x) ≡ key x)
      → Distinct key t
      → Distinct key (Table.upsert key r f t)
  unfolding Table.upsert
  upsert-Distinct r f t keeps d =
      ground (arith, append-Distinct r t, update-Distinct f keeps (key r) t d)

  pub find-upsert :
      (k : K) (r : R) (f : R → R) (t : List R)
      → ((x : R) → key (f x) ≡ key x)
      → Table.find key k (Table.upsert key r f t) ≡ (
          if e.beq (key r) k
          then (if Table.has key k t then Option.map f (Table.find key k t) else some r)
          else Table.find key k t)
  unfolding Table.upsert
  find-upsert k r f t keeps = ground (
    arith,
    find-append k r t,
    find_of_has k t,
    find-update f keeps (key r) k t,
    e.beq_iff (key r) k,
  )

  pub has-delete :
      (j k : K) (t : List R)
      → Table.has key k (Table.delete key j t) ≡ (if e.beq j k then false else Table.has key k t)
  unfolding Table.has Table.delete
  has-delete j k [] = ground arith
  has-delete j k (r ∷ t) =
      ground (arith, has-delete j k t, e.beq_iff (key r) j, e.beq_iff (key r) k, e.beq_iff j k)

  pub find-delete :
      (j k : K) (t : List R)
      → Table.find key k (Table.delete key j t) ≡ (if e.beq j k then none else Table.find key k t)
  unfolding Table.find Table.delete
  find-delete j k [] = ground arith
  find-delete j k (r ∷ t) =
      ground (arith, find-delete j k t, e.beq_iff (key r) j, e.beq_iff (key r) k, e.beq_iff j k)

  pub delete-Distinct : (j : K) (t : List R) → Distinct key t → Distinct key (Table.delete key j t)
  unfolding Table.delete
  delete-Distinct j [] d = tt
  delete-Distinct j (r ∷ t) d = ground (arith, delete-Distinct j t d.1, has-delete j (key r) t, d.0)

  module _ (p : R → Bool) where
    pub has-select :
        (k : K) (t : List R) → Table.has key k t ≡ false → Table.has key k (select p t) ≡ false
    unfolding Table.has select
    has-select k [] h = refl
    has-select k (r ∷ t) h = ground (arith, has-select k t)

    pub select-Distinct : (t : List R) → Distinct key t → Distinct key (select p t)
    unfolding select
    select-Distinct [] d = tt
    select-Distinct (r ∷ t) d = ground (arith, has-select (key r) t d.0, select-Distinct t d.1)
