-- ===== src/Repository/Listing/Ranking/Windows.antt =====
-- The sum of the hours of a window against the likes of these hours.
use likes_service.Common.{
  ℕ, ◌+◌, ◌≤◌, ◌≡◌, refl, sym, ap, ◌∙◌, ◌⊎◌, inl, inr, Bool, true, false, ◌&&◌, ◌||◌, [], ◌∷◌, none,
  some, leb, arith, Bool-cases, Option-cases, text_eq, pair_eq, nat_eq, pair_eqb_iff, ◌==◌, suc,
  subst,
}
use likes_service.Common.Maps.{Map, get}
use likes_service.Storage.{ContentKey, BucketKey, count_at, bucket_of, LikeKey}
use likes_service.Storage.Counting.{IsKeyed, count_rows, get-tail, get-head}
use likes_service.Storage.Consistency.{in_bucket}
use likes_service.Repository.Listing.Ranking.Totals.{hours_total}

bucket_key : LikeKey × ℕ → BucketKey
bucket_key r = (bucket_of r.1, r.0.1)

abbrev in_window : ℕ → ContentKey → BucketKey → Bool
in_window cutoff c (b, c') = leb cutoff b && c' == c

has : Map BucketKey ℕ → BucketKey → Bool
has m k = elim (get m k) [ none ↦ false | some n ↦ true ]

count_rows-split :
    (p q s : LikeKey × ℕ → Bool) (rows : Map LikeKey ℕ)
    → ((r : LikeKey × ℕ)
        → ((p r ≡ false) × (q r ≡ false) × (s r ≡ false))
          ⊎ (((p r ≡ true) × (q r ≡ true) × (s r ≡ false))
              ⊎ ((p r ≡ true) × (q r ≡ false) × (s r ≡ true))))
    → count_rows p rows ≡ count_rows q rows + count_rows s rows
count_rows-split p q s [] h = omega arith
count_rows-split p q s (r ∷ rows) h =
    let rest = count_rows-split p q s rows h in
    elim (h r) [
      | inl (a, b, c) ↦ rw (a, b, c) rest
      | inr (inl (a, b, c)) ↦ rw (a, b, c) (omega (arith, rest))
      | inr (inr (a, b, c)) ↦ rw (a, b, c) (omega (arith, rest))
    ]

count_rows-same :
    (p q : LikeKey × ℕ → Bool) (rows : Map LikeKey ℕ)
    → ((r : LikeKey × ℕ) → p r ≡ q r)
    → count_rows p rows ≡ count_rows q rows
count_rows-same p q [] h = refl
count_rows-same p q (r ∷ rows) h = rw (h r) (ground (arith, count_rows-same p q rows h))

counted :
    (p : LikeKey × ℕ → Bool) (r : LikeKey × ℕ) (rows : Map LikeKey ℕ)
    → p r ≡ true
    → count_rows p (r ∷ rows) ≡ suc (count_rows p rows)
counted p r rows h = rw h refl

passed :
    (p : LikeKey × ℕ → Bool) (r : LikeKey × ℕ) (rows : Map LikeKey ℕ)
    → p r ≡ false
    → count_rows p (r ∷ rows) ≡ count_rows p rows
passed p r rows h = rw h refl

get-empty : (k : BucketKey) → get {V = ℕ} [] k ≡ none
unfolding get
get-empty k = refl

module _ (cutoff : ℕ) (c : ContentKey) where
  -- The likes of the content in the window whose hour has a row.
  abbrev seen : Map BucketKey ℕ → LikeKey × ℕ → Bool
  seen rows r = in_window cutoff c (bucket_key r) && has rows (bucket_key r)

  has-cons :
      (k : BucketKey) (n : ℕ) (rows : Map BucketKey ℕ) (j : BucketKey)
      → has ((k, n) ∷ rows) j ≡ (j == k || has rows j)
  unfolding has get
  has-cons k n rows j = ground (arith, pair_eqb_iff k j, pair_eqb_iff j k)

  in_bucket_lem : (k : BucketKey) (r : LikeKey × ℕ) → in_bucket k r ≡ (bucket_key r == k)
  unfolding bucket_key
  in_bucket_lem k r = refl

  has-none : (rows : Map BucketKey ℕ) (k : BucketKey) → get rows k ≡ none → has rows k ≡ false
  unfolding has
  has-none rows k h = rw (has, h) refl

  seen-inside :
      (k : BucketKey) (n : ℕ) (rows : Map BucketKey ℕ)
      → in_window cutoff c k ≡ true
      → get rows k ≡ none
      → (r : LikeKey × ℕ)
      → ((seen ((k, n) ∷ rows) r ≡ false) × (in_bucket k r ≡ false) × (seen rows r ≡ false))
        ⊎ (((seen ((k, n) ∷ rows) r ≡ true) × (in_bucket k r ≡ true) × (seen rows r ≡ false))
            ⊎ ((seen ((k, n) ∷ rows) r ≡ true) × (in_bucket k r ≡ false) × (seen rows r ≡ true)))
  seen-inside k n rows inside fresh r =
      let whole = has-cons k n rows (bucket_key r) in
      let bucket = in_bucket_lem k r in
      elim (Bool-cases (bucket_key r == k)) [
        | inl e ↦
            let same = (pair_eqb_iff (bucket_key r) k).0 e in
            let there : in_window cutoff c (bucket_key r) ≡ true =
              subst (λ j. in_window cutoff c j ≡ true) (sym same) inside in
            let absent : has rows (bucket_key r) ≡ false =
              subst (λ j. has rows j ≡ false) (sym same) (has-none rows k fresh) in
            inr (inl (rw (there, whole, e) refl, bucket ∙ e, rw (there, absent) refl))
        | inr e ↦ elim (Bool-cases (seen rows r)) [
          | inl f ↦ inr (inr (rw (whole, e) f, bucket ∙ e, f))
          | inr f ↦ inl (rw (whole, e) f, bucket ∙ e, f)
        ]
      ]

  seen-outside :
      (k : BucketKey) (n : ℕ) (rows : Map BucketKey ℕ)
      → in_window cutoff c k ≡ false
      → (r : LikeKey × ℕ) → seen rows r ≡ seen ((k, n) ∷ rows) r
  seen-outside k n rows outside r =
      let whole = has-cons k n rows (bucket_key r) in
      elim (Bool-cases (bucket_key r == k)) [
        | inl e ↦
            let same = (pair_eqb_iff (bucket_key r) k).0 e in
            let there : in_window cutoff c (bucket_key r) ≡ false =
              subst (λ j. in_window cutoff c j ≡ false) (sym same) outside in
            rw there refl
        | inr e ↦ rw (whole, e) refl
      ]

  -- Each row of the hours holds the number of likes of its hour.
  Exact : Map LikeKey ℕ → Map BucketKey ℕ → Type 0
  Exact likes rows =
      (k : BucketKey) (n : ℕ) → get rows k ≡ some n → n ≡ count_rows (in_bucket k) likes

  Exact-tail :
      (likes : Map LikeKey ℕ) (k : BucketKey) (n : ℕ) (rows : Map BucketKey ℕ)
      → get rows k ≡ none
      → Exact likes ((k, n) ∷ rows)
      → Exact likes rows
  unfolding Exact
  Exact-tail likes k n rows fresh exact j m h = exact j m (get-tail k n rows j m fresh h)

  Exact-head :
      (likes : Map LikeKey ℕ) (k : BucketKey) (n : ℕ) (rows : Map BucketKey ℕ)
      → Exact likes ((k, n) ∷ rows)
      → n ≡ count_rows (in_bucket k) likes
  unfolding Exact
  Exact-head likes k n rows exact = exact k n (get-head k n rows)

  none_seen : (likes : Map LikeKey ℕ) → 0 ≡ count_rows (seen []) likes
  none_seen [] = refl
  none_seen (r ∷ likes) =
      let absent : seen [] r ≡ false =
        rw (has-none [] (bucket_key r) (get-empty (bucket_key r))) (ground arith) in
      rw absent (none_seen likes)

  hours_total-seen :
      (likes : Map LikeKey ℕ) (rows : Map BucketKey ℕ)
      → IsKeyed rows
      → Exact likes rows
      → hours_total cutoff rows c ≡ count_rows (seen rows) likes
  hours_total-seen likes [] keyed exact = none_seen likes
  hours_total-seen likes ((k, n) ∷ rows) keyed exact =
      let rest = hours_total-seen likes rows keyed.1 (Exact-tail likes k n rows keyed.0 exact) in
      let head = Exact-head likes k n rows exact in
      elim (Bool-cases (in_window cutoff c k)) [
        | inl h ↦
            let split =
              count_rows-split (seen ((k, n) ∷ rows)) (in_bucket k) (seen rows) likes
                (seen-inside k n rows h keyed.0) in
            rw h (omega (arith, head, rest, split))
        | inr h ↦
            rw (h, rest)
              (count_rows-same (seen rows) (seen ((k, n) ∷ rows)) likes (seen-outside k n rows h))
      ]

  -- The likes of the content in the hours from `cutoff` on.
  abbrev pub in_hours : LikeKey × ℕ → Bool
  in_hours (k, t) = leb cutoff (bucket_of t) && k.1 == c

  bucketed : LikeKey × ℕ → Bool
  bucketed r = in_window cutoff c (bucket_key r)

  bucketed-in_hours : (r : LikeKey × ℕ) → bucketed r ≡ in_hours r
  unfolding bucket_key bucketed
  bucketed-in_hours r = refl

  Covers : Map LikeKey ℕ → Map BucketKey ℕ → Type 0
  Covers likes rows = (k : BucketKey) → count_rows (in_bucket k) likes ≤ count_at rows k

  Covers-head :
      (r : LikeKey × ℕ) (likes : Map LikeKey ℕ) (rows : Map BucketKey ℕ)
      → Covers (r ∷ likes) rows
      → has rows (bucket_key r) ≡ true
  unfolding Covers has count_at
  Covers-head r likes rows covers =
      let here = covers (bucket_key r) in
      let bucket =
        in_bucket_lem (bucket_key r) r ∙ (pair_eqb_iff (bucket_key r) (bucket_key r)).1 refl in
      elim (Option-cases (get rows (bucket_key r))) [
        | inl e ↦
            let z : count_at rows (bucket_key r) ≡ 0 = rw (count_at, e) refl in
            absurd (omega (arith, here, z, counted (in_bucket (bucket_key r)) r likes bucket))
        | inr (n, e) ↦ rw (has, e) refl
      ]

  Covers-tail :
      (r : LikeKey × ℕ) (likes : Map LikeKey ℕ) (rows : Map BucketKey ℕ)
      → Covers (r ∷ likes) rows
      → Covers likes rows
  unfolding Covers
  Covers-tail r likes rows covers k =
      let here = covers k in
      elim (Bool-cases (in_bucket k r)) [
        | inl e ↦ omega (arith, here, counted (in_bucket k) r likes e)
        | inr e ↦ omega (arith, here, passed (in_bucket k) r likes e)
      ]

  seen-all :
      (likes : Map LikeKey ℕ) (rows : Map BucketKey ℕ)
      → Covers likes rows
      → count_rows (seen rows) likes ≡ count_rows in_hours likes
  unfolding bucketed
  seen-all [] rows covers = refl
  seen-all (r ∷ likes) rows covers =
      let rest = seen-all likes rows (Covers-tail r likes rows covers) in
      let there = Covers-head r likes rows covers in
      let same = bucketed-in_hours r in
      elim (Bool-cases (in_hours r)) [
        | inl e ↦
            counted (seen rows) r likes (ap (λ x. x && has rows (bucket_key r)) (same ∙ e) ∙ there)
            ∙ ap suc rest
            ∙ sym (counted in_hours r likes e)
        | inr e ↦
            passed (seen rows) r likes (ap (λ x. x && has rows (bucket_key r)) (same ∙ e))
            ∙ rest
            ∙ sym (passed in_hours r likes e)
      ]

  -- On exact counters the hours of a window add up to the likes of these hours.
  pub hours_total-exact :
      (likes : Map LikeKey ℕ) (rows : Map BucketKey ℕ)
      → IsKeyed rows
      → ((k : BucketKey) → count_at rows k ≡ count_rows (in_bucket k) likes)
      → hours_total cutoff rows c ≡ count_rows in_hours likes
  unfolding Exact Covers count_at
  hours_total-exact likes rows keyed exact =
      hours_total-seen likes rows keyed (λ k n h. sym (rw (count_at, h) refl) ∙ exact k)
      ∙ seen-all likes rows (λ k. omega (arith, exact k))
