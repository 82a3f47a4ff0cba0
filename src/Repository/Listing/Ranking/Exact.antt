-- ===== src/Repository/Listing/Ranking/Exact.antt =====
-- What a ranking shows: the first contents of all that are to be ranked, in order, each with its exact
-- number of likes.
use likes_service.Common.{
  ℕ, ◌<◌, ◌≡◌, ◌≢◌, refl, sym, ◌∙◌, ◌⊎◌, inl, inr, true, false, [], ◌∷◌, ltb, ltb→lt, Bool-cases,
  All, List, Text, Option, none, text_eqb_iff, select, map, take, if◌then◌else◌, arith,
  Option-cases, text_eq, pair_eq, nat_eq,
}
use likes_service.Common.Maps.{Map, get, get-cons_none}
use likes_service.Storage.{ContentKey, count_at}
use likes_service.Storage.Counting.{IsKeyed}
use likes_service.Storage.Ordering.{order_by, IsOrdered, WeakOrder, order_by-IsOrdered}
use likes_service.Repository.Listing.{PostgresApi, PostgresLaws}
use likes_service.Repository.Listing.Pages.{text_skip}
use likes_service.Repository.Listing.Ranking.{CountRow, TopLikeRow, ranks_before, ranked, of_type}
use likes_service.Repository.Listing.Ranking.Totals.{
  wanted_type, if_some, order_by-IsKeyed, get-select, keep_if, of_type_lem,
}

-- The rows of `like_counts` that the ranking of all times reads.
pub totals-exact :
    (wanted : Option Text) (counts : Map ContentKey ℕ) (c : ContentKey)
    → IsKeyed counts
    → get (select (of_type wanted) counts) c
      ≡ (if wanted_type wanted c then if_some (count_at counts c) else none)
unfolding count_at keep_if
totals-exact wanted counts c keyed =
    get-select (of_type wanted) counts c keyed ∙ (elim (Option-cases (get counts c)) [
      | inl e ↦ rw e (ground arith)
      | inr (n, e) ↦ rw (e, of_type_lem wanted c n) (ground arith)
    ])

module _ (pg : PostgresApi) (laws : PostgresLaws pg) where
  pub ranks_before-WeakOrder : WeakOrder (ranks_before pg)
  unfolding ranks_before
  ranks_before-WeakOrder = record {
    irrefl = λ ((t, i), n). ground (arith, laws.irrefl t, laws.irrefl i);
    trans = λ ((t, i), n) ((t', i'), n') ((t'', i''), n'') h k. ground (
      arith,
      laws.trans t'' t' t,
      laws.trans i'' i' i,
      text_eqb_iff t' t,
      text_eqb_iff t'' t',
      text_eqb_iff t'' t,
    );
    skip = λ ((t, i), n) ((t', i'), n') ((t'', i''), n'') h k. ground (
      arith,
      text_skip pg laws t t' t'',
      text_skip pg laws i i' i'',
      laws.total t' t'',
      text_eqb_iff t' t,
      text_eqb_iff t' t'',
      text_eqb_iff t'' t,
    );
  }

  -- The first of two rows has more likes, or as many and the later content type, or the same content
  -- type and the later content id.
  abbrev pub Leads : CountRow → CountRow → Type 0
  Leads ((content_type, content_id), n) ((content_type', content_id'), n') =
      (n' < n)
      ⊎ ((n ≡ n')
          × ((pg.text_lt content_type' content_type ≡ true)
              ⊎ ((content_type ≡ content_type') × (pg.text_lt content_id' content_id ≡ true))))

  -- Each row leads every later one.
  abbrev pub IsDescending : List CountRow → Type 0
  IsDescending [] = Unit
  IsDescending (r ∷ rows) = All (Leads r) rows × IsDescending rows

  leads_lem : (r s : CountRow) → r.0 ≢ s.0 → ranks_before pg s r ≡ false → Leads r s
  unfolding ranks_before
  leads_lem ((t, i), n) ((t', i'), n') distinct h = elim (Bool-cases (ltb n' n)) [
    | inl more ↦ inl (ltb→lt n' n more)
    | inr no_more ↦ elim (Bool-cases (pg.text_lt t' t)) [
      | inl later ↦ inr (ground arith, inl later)
      | inr no_later ↦
          let same_count : n ≡ n' = ground arith in
          let same_type : t ≡ t' = sym (laws.total t' t no_later (ground arith)) in
          elim (Bool-cases (pg.text_lt i' i)) [
            | inl after ↦ inr (same_count, inr (same_type, after))
            | inr no_after ↦
                let same_id : i' ≡ i =
                  laws.total i' i no_after (ground (arith, text_eqb_iff t t')) in
                absurd (distinct (cc))
          ]
    ]
  ]

  Leads-All :
      (r : CountRow) (rows : List CountRow)
      → get rows r.0 ≡ none
      → All (λ s. ranks_before pg s r ≡ false) rows
      → All (Leads r) rows
  Leads-All r [] absent ps = tt
  Leads-All r ((c, n) ∷ rows) absent ps =
      let (other, rest) = get-cons_none c n rows r.0 absent in
      (leads_lem r (c, n) (λ e. other (sym e)) ps.0, Leads-All r rows rest ps.1)

  IsDescending-ordered :
      (rows : List CountRow) → IsKeyed rows → IsOrdered (ranks_before pg) rows → IsDescending rows
  IsDescending-ordered [] keyed o = tt
  IsDescending-ordered ((c, n) ∷ rows) keyed o =
      (Leads-All (c, n) rows keyed.0 o.0, IsDescending-ordered rows keyed.1 o.1)

  -- The ranking of the contents by `score`: they are the contents of the type that is asked for with
  -- a score above 0, each once and with its score, and each leads every later one; the first `limit`
  -- are shown.
  pub record IsRanking (limit : ℕ) (wanted : Option Text) (score : ContentKey → ℕ)
      (rows : List TopLikeRow) : Type 0 where
    pub listed : List CountRow
    pub keyed : IsKeyed listed
    pub descending : IsDescending listed
    pub exact :
        (c : ContentKey) → get listed c ≡ (if wanted_type wanted c then if_some (score c) else none)
    pub shown :
        rows
        ≡ map
            (λ (r : CountRow). record {
              content_type = r.0.0;
              content_id = r.0.1;
              like_count = r.1;
            })
            (take limit listed)

  pub ranked-IsRanking :
      (limit : ℕ) (wanted : Option Text) (score : ContentKey → ℕ) (rows : List CountRow)
      → IsKeyed rows
      → ((c : ContentKey) → get rows c ≡ (if wanted_type wanted c then if_some (score c) else none))
      → IsRanking limit wanted score (ranked pg limit rows)
  unfolding ranked
  ranked-IsRanking limit wanted score rows keyed exact = record {
    listed = order_by (ranks_before pg) rows;
    keyed = (order_by-IsKeyed (ranks_before pg) rows keyed).0;
    descending =
        IsDescending-ordered (order_by (ranks_before pg) rows)
          (order_by-IsKeyed (ranks_before pg) rows keyed).0
          (order_by-IsOrdered (ranks_before pg) ranks_before-WeakOrder rows);
    exact = λ c. (order_by-IsKeyed (ranks_before pg) rows keyed).1 c ∙ exact c;
    shown = refl;
  }
