-- ===== src/Prelude/Table.antt =====
-- A table with a primary key: its rows in the order of their insertion, and the SQL statements
-- that the program issues on such a table.
pub mod Laws
use Prim.Native.Nat.{ℕ, suc, ◌+◌}
use mathlib.Core.Path.{◌≡◌, refl, ap}
use mathlib.Core.Bool.{Bool, true, false, ◌||◌}
use mathlib.Core.Option
use mathlib.Core.Option.{Option, none, some}
use mathlib.Core.List.{List, [], ◌∷◌, ◌++◌}
use native.Mathlib.Omega.{arith}
use aimless.Prelude.Tests.{Eq, if◌then◌else◌}

module _ {ℓ κ} {R : Type ℓ} {K : Type κ} ⦃e : Eq K⦄ (key : R → K) where
  -- SELECT … WHERE key=k, `fetchone`
  unfoldable pub find : K → List R → Option R
  find k [] = none
  find k (r ∷ t) = if e.beq (key r) k then some r else find k t

  unfoldable pub has : K → List R → Bool
  has k [] = false
  has k (r ∷ t) = e.beq (key r) k || has k t

  -- INSERT OR IGNORE
  unfoldable pub insert_or_ignore : R → List R → List R
  unfolding has
  insert_or_ignore r t = if has (key r) t then t else t ++ r ∷ []

  -- UPDATE … WHERE key=k
  unfoldable pub update : K → (R → R) → List R → List R
  update k f [] = []
  update k f (r ∷ t) = (if e.beq (key r) k then f r else r) ∷ update k f t

  -- INSERT … ON CONFLICT(key) DO UPDATE
  unfoldable pub upsert : R → (R → R) → List R → List R
  unfolding has update
  upsert r f t = if has (key r) t then update (key r) f t else t ++ r ∷ []

  -- DELETE … WHERE key=k
  unfoldable pub delete : K → List R → List R
  delete k [] = []
  delete k (r ∷ t) = if e.beq (key r) k then delete k t else r ∷ delete k t

  -- No two rows have one key.
  abbrev pub Distinct : List R → Type 0
  Distinct [] = Unit
  Distinct (r ∷ t) = (has (key r) t ≡ false) × Distinct t
