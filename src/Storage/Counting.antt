-- ===== src/Storage/Counting.antt =====
-- Counting the rows of a table, and the counters that the statements keep.
use likes_service.Common.{
  ℕ, suc, ◌+◌, ◌-◌, ◌≡◌, ◌≢◌, refl, Bool, [], ◌∷◌, none, some, arith, length, select, if◌then◌else◌,
  Eq, Option-cases, inl, inr,
}
use likes_service.Common.Maps.{Map, get, insert, remove, get-insert, get-insert_self, get-remove}
use likes_service.Storage.{add_one, take_one, count_at}

module _ {K V : Type 0} ⦃e : Eq K⦄ where
  -- No key has two rows: the table's primary key.
  abbrev pub IsKeyed : Map K V → Type 0
  IsKeyed [] = Unit {0}
  IsKeyed ((k, v) ∷ m) = (get m k ≡ none) × IsKeyed m

  -- A row behind the first is found past it, and the first is found at once.
  pub get-tail :
      (k : K) (v : V) (m : Map K V) (j : K) (u : V)
      → get m k ≡ none
      → get m j ≡ some u
      → get ((k, v) ∷ m) j ≡ some u
  unfolding get
  get-tail k v m j u fresh h = ground (arith, e.eqb_iff k j)

  pub get-head : (k : K) (v : V) (m : Map K V) → get ((k, v) ∷ m) k ≡ some v
  unfolding get
  get-head k v m = ground (arith, e.eqb_iff k k)

  abbrev pub count_rows : (K × V → Bool) → Map K V → ℕ
  count_rows p m = length (select p m)

  remove-absent : (m : Map K V) (k : K) → get m k ≡ none → remove m k ≡ m
  unfolding get remove
  remove-absent [] k h = refl
  remove-absent ((j, v) ∷ m) k h = ground (arith, remove-absent m k)

  pub remove-IsKeyed : (m : Map K V) (k : K) → IsKeyed m → IsKeyed (remove m k)
  unfolding remove
  remove-IsKeyed [] k h = tt
  remove-IsKeyed ((j, v) ∷ m) k h = ground (arith, remove-IsKeyed m k h.1, get-remove m k j)

  pub insert-IsKeyed : (m : Map K V) (k : K) (v : V) → IsKeyed m → IsKeyed (insert m k v)
  unfolding insert
  insert-IsKeyed m k v h = (ground (arith, get-remove m k k, e.eqb_iff k k), remove-IsKeyed m k h)

  pub count_rows-insert :
      (p : K × V → Bool) (m : Map K V) (k : K) (v : V)
      → get m k ≡ none
      → count_rows p (insert m k v) ≡ (if p (k, v) then suc (count_rows p m) else count_rows p m)
  unfolding insert
  count_rows-insert p m k v h = rw (remove-absent m k h) (ground arith)

  pub count_rows-remove :
      (p : K × V → Bool) (m : Map K V) (k : K) (v : V)
      → IsKeyed m
      → get m k ≡ some v
      → count_rows p m
        ≡ (if p (k, v) then suc (count_rows p (remove m k)) else count_rows p (remove m k))
  unfolding get remove
  count_rows-remove p [] k v h g = cc
  count_rows-remove p ((j, w) ∷ m) k v h g =
      ground (arith, count_rows-remove p m k v h.1, remove-absent m k, e.eqb_iff j k)

module _ {K : Type 0} ⦃e : Eq K⦄ where
  pub count_at-add_one :
      (m m' : Map K ℕ) (k j : K)
      → add_one m k ≡ some m'
      → count_at m' j ≡ (if e.eqb k j then suc (count_at m j) else count_at m j)
  unfolding add_one count_at
  count_at-add_one m m' k j h = elim (Option-cases (get m k)) [
    | inl z ↦ ground (arith, get-insert m k 1 j, e.eqb_iff k j)
    | inr (n, z) ↦ ground (arith, get-insert m k (n + 1) j, e.eqb_iff k j)
  ]

  pub count_at-take_one :
      (m : Map K ℕ) (k j : K)
      → count_at (take_one m k) j ≡ (if e.eqb k j then count_at m j - 1 else count_at m j)
  unfolding take_one count_at
  count_at-take_one m k j = elim (Option-cases (get m k)) [
    | inl z ↦ ground (arith, get-insert m k 0 j, e.eqb_iff k j)
    | inr (n, z) ↦ ground (arith, get-insert m k (n - 1) j, e.eqb_iff k j)
  ]

module _ {K V : Type 0} ⦃e : Eq K⦄ where
  pub get-remove_other : (m : Map K V) (k j : K) → j ≢ k → get (remove m k) j ≡ get m j
  get-remove_other m k j n = ground (arith, get-remove m k j, e.eqb_iff k j, n)

  pub get-insert_other :
      (m : Map K V) (k : K) (v : V) (j : K) → j ≢ k → get (insert m k v) j ≡ get m j
  get-insert_other m k v j n = ground (arith, get-insert m k v j, e.eqb_iff k j, n)

module _ {K : Type 0} ⦃e : Eq K⦄ where
  pub get-take_one : (m : Map K ℕ) (k : K) → get (take_one m k) k ≡ some (count_at m k - 1)
  unfolding take_one count_at
  get-take_one m k = elim (Option-cases (get m k)) [
    | inl z ↦ ground (arith, get-insert_self m k 0)
    | inr (n, z) ↦ ground (arith, get-insert_self m k (n - 1))
  ]

  pub get-take_one_other : (m : Map K ℕ) (k j : K) → j ≢ k → get (take_one m k) j ≡ get m j
  unfolding take_one
  get-take_one_other m k j n = elim (Option-cases (get m k)) [
    | inl z ↦ ground (arith, get-insert_other m k 0 j n)
    | inr (v, z) ↦ ground (arith, get-insert_other m k (v - 1) j n)
  ]
