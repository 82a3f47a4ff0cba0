-- ===== src/Repository/Listing/Ranking/Totals.antt =====
-- The rows that a ranking is made of, looked up by content: putting them in order and choosing among
-- them, and the sums over the hours of a window.
use likes_service.Common.{
  ℕ, ◌+◌, ◌≡◌, refl, ◌∙◌, inl, inr, Bool, ◌&&◌, [], ◌∷◌, Text, Option, none, some, ltb, leb, select,
  if◌then◌else◌, arith, Bool-cases, text_eq, pair_eq, nat_eq, Eq, pair_eqb_iff, ◌==◌,
}
use likes_service.Common.Maps.{Map, get, get-insert, get-cons_none}
use likes_service.Storage.{ContentKey, BucketKey, count_at}
use likes_service.Storage.Counting.{IsKeyed, insert-IsKeyed}
use likes_service.Storage.Ordering.{order_by, place}
use likes_service.Repository.Listing.Ranking.{of_type, window_sums}

module _ {K V : Type 0} ⦃e : Eq K⦄ where
  get-place :
      (precedes : K × V → K × V → Bool) (k : K) (v : V) (m : Map K V) (j : K)
      → get m k ≡ none
      → get (place precedes (k, v) m) j ≡ get ((k, v) ∷ m) j
  unfolding place get
  get-place precedes k v [] j h = refl
  get-place precedes k v ((i, u) ∷ m) j h =
      ground (arith, get-place precedes k v m j, e.eqb_iff i k, e.eqb_iff i j, e.eqb_iff k j)

  not_first :
      (k : K) (v : V) (m : Map K V) (i : K)
      → (i ≡ k → ⊥)
      → get m i ≡ none
      → get ((k, v) ∷ m) i ≡ none
  unfolding get
  not_first k v m i other h = ground (arith, e.eqb_iff k i)

  place-IsKeyed :
      (precedes : K × V → K × V → Bool) (k : K) (v : V) (m : Map K V)
      → get m k ≡ none
      → IsKeyed m
      → IsKeyed (place precedes (k, v) m)
  unfolding place
  place-IsKeyed precedes k v [] h keyed = (h, tt)
  place-IsKeyed precedes k v ((i, u) ∷ m) h keyed =
      let (other, absent) = get-cons_none i u m k h in
      elim (Bool-cases (precedes (k, v) (i, u))) [
        | inl f ↦ rw f (h, keyed)
        | inr f ↦ rw f (
          get-place precedes k v m i absent ∙ not_first k v m i other keyed.0,
          place-IsKeyed precedes k v m absent keyed.1,
        )
      ]

  pub order_by-IsKeyed :
      (precedes : K × V → K × V → Bool) (m : Map K V)
      → IsKeyed m
      → IsKeyed (order_by precedes m) × ((j : K) → get (order_by precedes m) j ≡ get m j)
  unfolding order_by get
  order_by-IsKeyed precedes [] keyed = (tt, λ j. refl)
  order_by-IsKeyed precedes ((k, v) ∷ m) keyed =
      let (ordered, same) = order_by-IsKeyed precedes m keyed.1 in
      let absent = same k ∙ keyed.0 in
      (
        place-IsKeyed precedes k v (order_by precedes m) absent ordered,
        λ j. get-place precedes k v (order_by precedes m) j absent ∙ rw (same j) refl,
      )

  unfoldable pub keep_if : (K × V → Bool) → K → Option V → Option V
  keep_if p k none = none
  keep_if p k (some v) = if p (k, v) then some v else none

  -- Choosing rows, looked up.
  pub get-select :
      (p : K × V → Bool) (m : Map K V) (j : K)
      → IsKeyed m
      → get (select p m) j ≡ keep_if p j (get m j)
  unfolding get keep_if
  get-select p [] j keyed = refl
  get-select p ((k, v) ∷ m) j keyed =
      ground (arith, get-select p m j keyed.1, e.eqb_iff k j, keyed.0)

-- The sum over the hours from `cutoff` on for a content.
abbrev pub hours_total : ℕ → Map BucketKey ℕ → ContentKey → ℕ
hours_total cutoff [] c = 0
hours_total cutoff (((b, c'), n) ∷ rows) c =
    let rest = hours_total cutoff rows c in if leb cutoff b && c' == c then n + rest else rest

-- Whether a content has the type that is asked for.
abbrev pub wanted_type : Option Text → ContentKey → Bool
wanted_type wanted c = of_type wanted (c, 1)

abbrev pub if_some : ℕ → Option ℕ
if_some n = if ltb 0 n then some n else none

pub of_type_lem :
    (wanted : Option Text) (c : ContentKey) (n : ℕ)
    → of_type wanted (c, n) ≡ (ltb 0 n && wanted_type wanted c)
unfolding of_type
of_type_lem none c n = ground arith
of_type_lem (some t) c n = ground arith

pub window_sums-IsKeyed :
    (cutoff : ℕ) (wanted : Option Text) (rows : Map BucketKey ℕ)
    → IsKeyed (window_sums cutoff wanted rows)
unfolding window_sums
window_sums-IsKeyed cutoff wanted [] = tt
window_sums-IsKeyed cutoff wanted (((b, c'), n) ∷ rows) =
    let keyed = window_sums-IsKeyed cutoff wanted rows in
    elim (Bool-cases (of_type wanted (c', n) && leb cutoff b)) [
      | inl h ↦ rw h (
          insert-IsKeyed (window_sums cutoff wanted rows) c'
            (count_at (window_sums cutoff wanted rows) c' + n) keyed)
      | inr h ↦ rw h keyed
    ]

pub get-window_sums :
    (cutoff : ℕ) (wanted : Option Text) (rows : Map BucketKey ℕ) (c : ContentKey)
    → get (window_sums cutoff wanted rows) c
      ≡ (if wanted_type wanted c then if_some (hours_total cutoff rows c) else none)
unfolding window_sums count_at get
get-window_sums cutoff wanted [] c = ground arith
get-window_sums cutoff wanted (((b, c'), n) ∷ rows) c =
    let sums = window_sums cutoff wanted rows in
    ground (
      arith,
      of_type_lem wanted c' n,
      get-window_sums cutoff wanted rows c,
      get-window_sums cutoff wanted rows c',
      get-insert sums c' (count_at sums c' + n) c,
      pair_eqb_iff c' c,
    )

select-none :
    {K V : Type 0} ⦃e : Eq K⦄ (p : K × V → Bool) (m : Map K V) (k : K)
    → get m k ≡ none
    → get (select p m) k ≡ none
unfolding get
select-none ⦃e⦄ p [] k h = refl
select-none ⦃e⦄ p ((j, v) ∷ m) k h = ground (arith, select-none p m k, e.eqb_iff j k)

pub select-IsKeyed :
    {K V : Type 0} ⦃e : Eq K⦄ (p : K × V → Bool) (m : Map K V) → IsKeyed m → IsKeyed (select p m)
select-IsKeyed p [] keyed = tt
select-IsKeyed p ((k, v) ∷ m) keyed = elim (Bool-cases (p (k, v))) [
  | inl h ↦ rw h (select-none p m k keyed.0, select-IsKeyed p m keyed.1)
  | inr h ↦ rw h (select-IsKeyed p m keyed.1)
]
