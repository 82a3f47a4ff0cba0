-- ===== src/Common/Maps.antt =====
-- Keyed tables as association lists: Rust's `HashMap`, a table with a primary key, Redis' keys.
-- The program never observes their order, except where it sorts.
use mathlib.Core.Path.{◌≡◌}
use mathlib.Core.Logic.{◌≢◌}
use mathlib.Core.Option.{Option, none, some}
use mathlib.Core.List.{List, [], ◌∷◌}
use native.Mathlib.Omega.{arith}
use likes_service.Common.Tests.{if◌then◌else◌}
use likes_service.Common.Keys.{Eq}

abbrev pub Map {ℓ κ} : Type ℓ → Type κ → Type (ℓ ⊔ κ)
Map K V = List (K × V)

module _ {ℓ κ} {K : Type ℓ} {V : Type κ} ⦃e : Eq K⦄ where
  -- m.get(k)
  unfoldable pub get : Map K V → K → Option V
  get [] k = none
  get ((j, v) ∷ m) k = if e.eqb j k then some v else get m k

  -- m.remove(k)
  unfoldable pub remove : Map K V → K → Map K V
  remove [] k = []
  remove ((j, v) ∷ m) k = let rest = remove m k in if e.eqb j k then rest else (j, v) ∷ rest

  -- m.insert(k, v)
  unfoldable pub insert : Map K V → K → V → Map K V
  unfolding remove
  insert m k v = (k, v) ∷ remove m k

  pub get-remove :
      (m : Map K V) (k j : K) → get (remove m k) j ≡ (if e.eqb k j then none else get m j)
  unfolding get remove
  get-remove [] k j = ground arith
  get-remove ((i, v) ∷ m) k j =
      ground (arith, get-remove m k j, e.eqb_iff i k, e.eqb_iff i j, e.eqb_iff k j)

  pub get-insert :
      (m : Map K V) (k : K) (v : V) (j : K)
      → get (insert m k v) j ≡ (if e.eqb k j then some v else get m j)
  unfolding get insert
  get-insert m k v j = ground (arith, get-remove m k j)

  -- A key with no row is none of the keys.
  pub get-cons_none :
      (j : K) (v : V) (m : Map K V) (k : K) → get ((j, v) ∷ m) k ≡ none → (j ≢ k) × (get m k ≡ none)
  unfolding get
  get-cons_none j v m k h = (λ same. ground (arith, e.eqb_iff j k), ground arith)

  pub get-insert_self : (m : Map K V) (k : K) (v : V) → get (insert m k v) k ≡ some v
  get-insert_self m k v = ground (arith, get-insert m k v k, e.eqb_iff k k)

  pub get-remove_self : (m : Map K V) (k : K) → get (remove m k) k ≡ none
  get-remove_self m k = ground (arith, get-remove m k k, e.eqb_iff k k)
