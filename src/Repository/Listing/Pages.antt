-- ===== src/Repository/Listing/Pages.antt =====
-- The pages of a user's likes: the rows after a cursor are the rest of the list.
use likes_service.Common.{
  ℕ, ◌≡◌, ◌≢◌, refl, sym, ap, ◌∙◌, ◌⊎◌, inl, inr, Bool, true, false, ◌&&◌, List, [], ◌∷◌, ◌++◌,
  Text, Option, none, some, select, All, arith, Bool-cases, text_eqb_iff, text_eq, pair_eq,
}
use likes_service.Common.Maps.{Map, get, get-cons_none}
use likes_service.Storage.{LikeKey}
use likes_service.Storage.Counting.{IsKeyed}
use likes_service.Storage.Ordering.{
  order_by, WeakOrder, IsOrdered, IsStrict, NoTies, order_by-IsOrdered, order_by-IsStrict,
  select-order_by, select-after,
}
use likes_service.Repository.Listing.{
  PostgresApi, PostgresLaws, LikeRow, SortKey, sort_key, of_user, comes_after, newer, past_cursor,
  user_like_rows,
}

module _ {A : Type 0} (p q : A → Bool) where
  pub select-and : (xs : List A) → select (λ x. p x && q x) xs ≡ select q (select p xs)
  select-and [] = refl
  select-and (x ∷ xs) =
      let rest = select-and xs in
      elim (Bool-cases (p x)) [
        | inl e ↦ elim (Bool-cases (q x)) [
          | inl f ↦ rw (e, f) (ap (◌∷◌ x) rest)
          | inr f ↦ rw (e, f) rest
        ]
        | inr e ↦ rw e rest
      ]

module _ (pg : PostgresApi) (laws : PostgresLaws pg) where
  pub text_skip :
      (r s t : Text) → pg.text_lt s r ≡ true → pg.text_lt s t ≡ false → pg.text_lt t r ≡ true
  text_skip r s t h k = elim (Bool-cases (pg.text_lt t s)) [
    | inl e ↦ laws.trans t s r e h
    | inr e ↦ let same = laws.total t s e k in cc
  ]

  pub newer-WeakOrder : WeakOrder (newer pg)
  unfolding newer comes_after
  newer-WeakOrder = record {
    irrefl = λ r. let i = laws.irrefl (sort_key r).1 in ground arith;
    trans = λ r s t h k. ground (arith, laws.trans (sort_key t).1 (sort_key s).1 (sort_key r).1);
    skip = λ r s t h k. ground (arith, text_skip (sort_key r).1 (sort_key s).1 (sort_key t).1);
  }

  module _ (likes : Map LikeKey ℕ) (user : Text) (wanted : Option Text) where
    abbrev listing : List LikeRow
    listing = user_like_rows pg likes user wanted none

    user_like_rows-chosen :
        (k : Option SortKey)
        → user_like_rows pg likes user wanted k
          ≡ select (past_cursor pg k) (order_by (newer pg) (select (of_user user wanted) likes))
    unfolding user_like_rows
    user_like_rows-chosen k =
        ap (order_by (newer pg)) (select-and (of_user user wanted) (past_cursor pg k) likes)
        ∙ select-order_by (newer pg) newer-WeakOrder (past_cursor pg k)
            (select (of_user user wanted) likes)

    select-none : (rows : List LikeRow) → select (past_cursor pg none) rows ≡ rows
    unfolding past_cursor
    select-none [] = refl
    select-none (r ∷ rows) = ap (◌∷◌ r) (select-none rows)

    listing_lem : listing ≡ order_by (newer pg) (select (of_user user wanted) likes)
    listing_lem = user_like_rows-chosen none ∙ select-none _

    -- The rows of a user are listed with the newer ones first.
    pub user_like_rows-IsOrdered : IsOrdered (newer pg) listing
    user_like_rows-IsOrdered = rw listing_lem (order_by-IsOrdered (newer pg) newer-WeakOrder _)

    -- The rows after the cursor of a row are those of the whole list that the row is newer than.
    pub user_like_rows-after :
        (r : LikeRow)
        → user_like_rows pg likes user wanted (some (sort_key r)) ≡ select (newer pg r) listing
    unfolding past_cursor newer
    user_like_rows-after r =
        user_like_rows-chosen (some (sort_key r)) ∙ sym (ap (select (newer pg r)) listing_lem)

    -- Where no two of the rows tie, the rows after the cursor of a row are those that stand behind it.
    pub user_like_rows-rest :
        NoTies (newer pg) (select (of_user user wanted) likes)
        → (before : List LikeRow) (r : LikeRow) (rest : List LikeRow) → listing ≡ before ++ r ∷ rest
        → user_like_rows pg likes user wanted (some (sort_key r)) ≡ rest
    user_like_rows-rest apart before r rest e =
        let strict : IsStrict (newer pg) (before ++ r ∷ rest) =
          rw (sym e, listing_lem) (order_by-IsStrict (newer pg) newer-WeakOrder _ apart) in
        user_like_rows-after r
        ∙ ap (select (newer pg r)) e
        ∙ select-after (newer pg) newer-WeakOrder before r rest strict

  -- Rows that tie have the same time and content id.
  ties : (r s : LikeRow) → newer pg r s ≡ false → newer pg s r ≡ false → sort_key r ≡ sort_key s
  unfolding newer comes_after
  ties r s h k =
      let times : r.1 ≡ s.1 = ground arith in
      let ids : (sort_key r).1 ≡ (sort_key s).1 =
        laws.total (sort_key r).1 (sort_key s).1 (ground arith) (ground arith) in
      cc

  same_key :
      (user content_type : Text) (r s : LikeRow)
      → of_user user (some content_type) r ≡ true
      → of_user user (some content_type) s ≡ true
      → sort_key r ≡ sort_key s
      → r.0 ≡ s.0
  unfolding of_user
  same_key user type r s h k e = ground (
    arith,
    text_eqb_iff r.0.0 user,
    text_eqb_iff s.0.0 user,
    text_eqb_iff r.0.1.0 type,
    text_eqb_iff s.0.1.0 type,
  )

  one_first :
      (user content_type : Text) (r s : LikeRow)
      → of_user user (some content_type) r ≡ true
      → of_user user (some content_type) s ≡ true
      → s.0 ≢ r.0
      → (newer pg r s ≡ true) ⊎ (newer pg s r ≡ true)
  one_first user type r s h f other = elim (Bool-cases (newer pg r s)) [
    | inl e ↦ inl e
    | inr e ↦ elim (Bool-cases (newer pg s r)) [
      | inl k ↦ inr k
      | inr k ↦ absurd (other (sym (same_key user type r s h f (ties r s e k))))
    ]
  ]

  no_tie_with :
      (user content_type : Text) (r : LikeRow) (rows : Map LikeKey ℕ)
      → of_user user (some content_type) r ≡ true
      → get rows r.0 ≡ none
      → All
          (λ s. (newer pg r s ≡ true) ⊎ (newer pg s r ≡ true))
          (select (of_user user (some content_type)) rows)
  no_tie_with user type r [] h fresh = tt
  no_tie_with user type r (s ∷ rows) h fresh =
      let (other, absent) = get-cons_none s.0 s.1 rows r.0 fresh in
      let rest = no_tie_with user type r rows h absent in
      elim (Bool-cases (of_user user (some type) s)) [
        | inl f ↦ rw f (one_first user type r s h f other, rest)
        | inr f ↦ rw f rest
      ]

  -- Of one user's likes of one content type no two tie, since no like is there twice.
  pub typed-NoTies :
      (user content_type : Text) (likes : Map LikeKey ℕ)
      → IsKeyed likes
      → NoTies (newer pg) (select (of_user user (some content_type)) likes)
  typed-NoTies user type [] keyed = tt
  typed-NoTies user type (r ∷ rows) keyed = elim (Bool-cases (of_user user (some type) r)) [
    | inl h ↦ rw h (no_tie_with user type r rows h keyed.0, typed-NoTies user type rows keyed.1)
    | inr h ↦ rw h (typed-NoTies user type rows keyed.1)
  ]
