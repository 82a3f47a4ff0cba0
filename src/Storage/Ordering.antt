-- ===== src/Storage/Ordering.antt =====
-- ORDER BY: rows put in the order of a strict order of their sort keys. Rows with equal keys stay in
-- the order of the table, which is one of the orders that SQL allows. The statements are those of
-- src/storage/likes_repository.rs.
use likes_service.Common.{
  ◌≡◌, refl, ◌⊎◌, inl, inr, Bool, true, false, List, [], ◌∷◌, ◌++◌, select, All, All-behind,
  if◌then◌else◌, Bool-cases, arith,
}

-- The laws of an ORDER BY: `precedes` is a strict order, and rows that tie are not told apart by it.
pub record WeakOrder {R : Type 0} (precedes : R → R → Bool) : Type 0 where
  pub irrefl : (r : R) → precedes r r ≡ false
  pub trans : (r s t : R) → precedes r s ≡ true → precedes s t ≡ true → precedes r t ≡ true
  pub skip : (r s t : R) → precedes r s ≡ true → precedes t s ≡ false → precedes r t ≡ true

module _ {R : Type 0} (precedes : R → R → Bool) where
  unfoldable pub place : R → List R → List R
  place r [] = r ∷ []
  place r (s ∷ rows) = let rest = place r rows in if precedes r s then r ∷ s ∷ rows else s ∷ rest

  unfoldable pub order_by : List R → List R
  unfolding place
  order_by [] = []
  order_by (r ∷ rows) = place r (order_by rows)

  -- No row is preceded by a later one.
  abbrev pub IsOrdered : List R → Type 0
  IsOrdered [] = Unit
  IsOrdered (r ∷ rows) = All (λ s. precedes s r ≡ false) rows × IsOrdered rows

  -- Each row precedes every later one.
  abbrev pub IsStrict : List R → Type 0
  IsStrict [] = Unit
  IsStrict (r ∷ rows) = All (λ s. precedes r s ≡ true) rows × IsStrict rows

  -- Of any two rows one precedes the other.
  abbrev pub NoTies : List R → Type 0
  NoTies [] = Unit
  NoTies (r ∷ rows) = All (λ s. (precedes r s ≡ true) ⊎ (precedes s r ≡ true)) rows × NoTies rows

module _ {R : Type 0} (P : R → Type 0) (precedes : R → R → Bool) where
  place-All : (r : R) (rows : List R) → P r → All P rows → All P (place precedes r rows)
  unfolding place
  place-All r [] p ps = (p, tt)
  place-All r (s ∷ rows) p ps = elim (Bool-cases (precedes r s)) [
    | inl e ↦ rw e (p, ps)
    | inr e ↦ rw e (ps.0, place-All r rows p ps.1)
  ]

  pub order_by-All : (rows : List R) → All P rows → All P (order_by precedes rows)
  unfolding order_by
  order_by-All [] ps = tt
  order_by-All (r ∷ rows) ps = place-All r (order_by precedes rows) ps.0 (order_by-All rows ps.1)

module _ {R : Type 0} (precedes : R → R → Bool) (laws : WeakOrder precedes) where
  asym : (r s : R) → precedes r s ≡ true → precedes s r ≡ false
  asym r s h = elim (Bool-cases (precedes s r)) [
    | inl e ↦ absurd (cc (laws.trans r s r h e, laws.irrefl r))
    | inr e ↦ e
  ]

  behind :
      (r s : R) (rows : List R)
      → precedes r s ≡ true
      → All (λ t. precedes t s ≡ false) rows
      → All (λ t. precedes t r ≡ false) rows
  behind r s [] h ps = tt
  behind r s (t ∷ rows) h ps = (asym r t (laws.skip r s t h ps.0), behind r s rows h ps.1)

  place-IsOrdered :
      (r : R) (rows : List R) → IsOrdered precedes rows → IsOrdered precedes (place precedes r rows)
  unfolding place
  place-IsOrdered r [] o = (tt, tt)
  place-IsOrdered r (s ∷ rows) o = elim (Bool-cases (precedes r s)) [
    | inl e ↦ rw e ((asym r s e, behind r s rows e o.0), o)
    | inr e ↦
        rw e
          (place-All (λ t. precedes t s ≡ false) precedes r rows e o.0, place-IsOrdered r rows o.1)
  ]

  pub order_by-IsOrdered : (rows : List R) → IsOrdered precedes (order_by precedes rows)
  unfolding order_by
  order_by-IsOrdered [] = tt
  order_by-IsOrdered (r ∷ rows) =
      place-IsOrdered r (order_by precedes rows) (order_by-IsOrdered rows)

  place-IsStrict :
      (r : R) (rows : List R)
      → All (λ s. (precedes r s ≡ true) ⊎ (precedes s r ≡ true)) rows
      → IsStrict precedes rows
      → IsStrict precedes (place precedes r rows)
  unfolding place
  place-IsStrict r [] n o = (tt, tt)
  place-IsStrict r (s ∷ rows) n o = elim n.0 [
    | inl e ↦ rw e ((e, before r s rows e o.0), o)
    | inr e ↦
        rw (asym s r e) (
          place-All (λ t. precedes s t ≡ true) precedes r rows e o.0,
          place-IsStrict r rows n.1 o.1,
        )
  ]
    where
      before :
          (r s : R) (rows : List R)
          → precedes r s ≡ true
          → All (λ t. precedes s t ≡ true) rows
          → All (λ t. precedes r t ≡ true) rows
      before r s [] h ps = tt
      before r s (t ∷ rows) h ps = (laws.trans r s t h ps.0, before r s rows h ps.1)

  -- Rows of which no two tie are put in a strict order.
  pub order_by-IsStrict :
      (rows : List R) → NoTies precedes rows → IsStrict precedes (order_by precedes rows)
  unfolding order_by
  order_by-IsStrict [] n = tt
  order_by-IsStrict (r ∷ rows) n =
      place-IsStrict r (order_by precedes rows) (order_by-All _ precedes rows n.0)
        (order_by-IsStrict rows n.1)

  place-front :
      (r : R) (rows : List R)
      → All (λ t. precedes r t ≡ true) rows
      → place precedes r rows ≡ r ∷ rows
  unfolding place
  place-front r [] ps = refl
  place-front r (t ∷ rows) ps = rw ps.0 refl

  select-All : (P : R → Type 0) (p : R → Bool) (rows : List R) → All P rows → All P (select p rows)
  select-All P p [] ps = tt
  select-All P p (t ∷ rows) ps = elim (Bool-cases (p t)) [
    | inl e ↦ rw e (ps.0, select-All P p rows ps.1)
    | inr e ↦ rw e (select-All P p rows ps.1)
  ]

  ahead :
      (r s : R) (rows : List R)
      → precedes r s ≡ true
      → All (λ t. precedes t s ≡ false) rows
      → All (λ t. precedes r t ≡ true) rows
  ahead r s [] h ps = tt
  ahead r s (t ∷ rows) h ps = (laws.skip r s t h ps.0, ahead r s rows h ps.1)

  select-place :
      (p : R → Bool) (r : R) (rows : List R)
      → IsOrdered precedes rows
      → select p (place precedes r rows)
        ≡ (if p r then place precedes r (select p rows) else select p rows)
  unfolding place
  select-place p r [] o = refl
  select-place p r (s ∷ rows) o = elim (Bool-cases (precedes r s)) [
    | inl e ↦
        let front : place precedes r (select p rows) ≡ r ∷ select p rows =
          place-front r (select p rows) (select-All _ p rows (ahead r s rows e o.0)) in
        ground arith
    | inr e ↦ let step = select-place p r rows o.1 in ground arith
  ]

  -- Choosing rows before or after they are put in order is the same.
  pub select-order_by :
      (p : R → Bool) (rows : List R)
      → order_by precedes (select p rows) ≡ select p (order_by precedes rows)
  unfolding order_by
  select-order_by p [] = refl
  select-order_by p (r ∷ rows) =
      let step = select-place p r (order_by precedes rows) (order_by-IsOrdered rows) in
      let rest = select-order_by p rows in ground arith

  select-behind :
      (r : R) (rows : List R)
      → All (λ t. precedes r t ≡ true) rows
      → select (precedes r) rows ≡ rows
  select-behind r [] ps = refl
  select-behind r (t ∷ rows) ps = rw (ps.0, select-behind r rows ps.1) refl

  -- In a strict order, the rows that come after a row are those that stand behind it.
  pub select-after :
      (before : List R) (r : R) (rest : List R)
      → IsStrict precedes (before ++ r ∷ rest)
      → select (precedes r) (before ++ r ∷ rest) ≡ rest
  select-after [] r rest o = rw (laws.irrefl r) (select-behind r rest o.0)
  select-after (s ∷ before) r rest o =
      rw (asym s r (All-behind _ before r rest o.0).0) (select-after before r rest o.1)
