-- ===== src/Http/Batch/Counts/Repeats.antt =====
-- The answer to a batch that asks twice for a content whose count is not cached.
use likes_service.Common.{
  ℕ, ◌≤◌, length, arith, ◌≡◌, ◌⊎◌, inl, inr, refl, sym, subst, ap, ◌∙◌, List, [], ◌∷◌, ◌++◌, Option,
  none, some, map, append_assoc, append-nil, text_eq, pair_eq, Text,
}
use likes_service.Common.Int.{ℤ}
use likes_service.Common.Maps.{Map, get, insert}
use likes_service.Common.Results.{Result, ok, err}
use likes_service.Error.{AppError}
use likes_service.Effects.{World, Exec, pure, lift, ◌>>=◌, attempt, record_metric, modify}
use likes_service.Effects.Frame.{KeepsFrame, KeepsFrame-record_metric}
use likes_service.Effects.Keeps.{Keeps-bind, Keeps-pure}
use likes_service.Helpers.{max_batch_items}
use likes_service.Http.Batch.{BatchLikeItemRequest, parse_batch_items, unless_too_large}
use likes_service.Http.Batch.Counts.{
  Sorted, sort_items, none_cached, cached_or_none, filled, batch_counts, batch_answer, or_error,
  get_like_counts_batch,
}
use likes_service.Http.Batch.Leaders.{record_batch_cache, collect_leaders}
use likes_service.Http.Batch.Leaders.Repeats.{collect_leaders-repeated}
use likes_service.Http.Caches.{get_cached_like_counts}
use likes_service.Http.Caches.Frame.{get_cached_like_counts-Frame}
use likes_service.Http.Likes.{Handlers}
use likes_service.Storage.{Database, ContentKey}
use likes_service.UseCases.{like_count_cache_key}

-- A run whose first part returns goes on from there.
run_on :
    {E A B : Type 0} (m : Exec E A) (f : A → Exec E B) (w : World) (a : A)
    → (m w).0 ≡ ok a
    → (m >>= f) w ≡ f a (m w).1
unfolding ◌>>=◌
run_on m f w a e = rw e refl

-- The items that are not cached come behind those that were missing before.
abbrev Sorts : {E : Type 0} → List ContentKey → Result E Sorted → Type 0
Sorts {E} before x =
    (s : Sorted) × (x ≡ ok s) × ((more : List ContentKey) × (s.missing_items ≡ before ++ more))

sort_items-Sorts :
    {E : Type 0} (items : List ContentKey) (cached : List (Option ℤ)) (f : Sorted) (w : World)
    → Sorts f.missing_items (sort_items {E = E} items cached f w).0
unfolding sort_items record_batch_cache record_metric modify ◌>>=◌ pure
sort_items-Sorts [] cached f w = (f, refl, ([], sym (append-nil f.missing_items)))
sort_items-Sorts (c ∷ items) [] f w = (f, refl, ([], sym (append-nil f.missing_items)))
sort_items-Sorts (c ∷ items) (some count ∷ cached) f w =
    sort_items-Sorts items cached (record f { counts_by_item = insert f.counts_by_item c count }) _
sort_items-Sorts (c ∷ items) (none ∷ cached) f w =
    let (s, e, (more, behind)) =
      sort_items-Sorts items cached (record f { missing_items = f.missing_items ++ c ∷ [] }) _ in
    (s, e, (c ∷ more, behind ∙ append_assoc f.missing_items (c ∷ []) more))

abbrev nothing_sorted : Sorted
nothing_sorted = record { counts_by_item = []; missing_items = [] }

sort_items-two :
    {E : Type 0} (c : ContentKey) (items : List ContentKey) (values : List (Option ℤ)) (w : World)
    → Sorts
        (c ∷ c ∷ [])
        (sort_items {E = E} (c ∷ c ∷ items) (none ∷ none ∷ values) nothing_sorted w).0
unfolding sort_items record_batch_cache record_metric modify ◌>>=◌
sort_items-two c items values w =
    sort_items-Sorts items values (record { counts_by_item = []; missing_items = c ∷ c ∷ [] }) _

module _ {E : Type 0} {d : Database} {m : Map Text ℕ} where
  sort_items-Frame :
      (items : List ContentKey) (cached : List (Option ℤ)) (f : Sorted)
      → KeepsFrame d m (sort_items {E = E} items cached f)
  unfolding sort_items record_batch_cache
  sort_items-Frame [] cached f = Keeps-pure f
  sort_items-Frame (c ∷ items) [] f = Keeps-pure f
  sort_items-Frame (c ∷ items) (some count ∷ cached) f =
      Keeps-bind _ _ (KeepsFrame-record_metric _) (λ u. sort_items-Frame items cached _)
  sort_items-Frame (c ∷ items) (none ∷ cached) f =
      Keeps-bind _ _ (KeepsFrame-record_metric _) (λ u. sort_items-Frame items cached _)

-- Neither of the first two counts is cached, or the caches cannot be read.
abbrev pub Uncached : Result AppError (List (Option ℤ)) → Type 0
Uncached x =
    ((values : List (Option ℤ)) × (x ≡ ok (none ∷ none ∷ values))) ⊎ ((e : AppError) × (x ≡ err e))

unless_too_large_lem :
    (requests : List BatchLikeItemRequest)
    → length requests ≤ max_batch_items
    → unless_too_large requests ≡ ok tt
unfolding unless_too_large
unless_too_large_lem requests small = ground arith

module _ (h : Handlers) (woken : ℕ → World → Option World) (fresh : ℕ) (c : ContentKey)
    (items : List ContentKey) (own : (v : World) → woken fresh v ≡ none) where
  abbrev pub Idle : World → Type 0
  Idle w = get w.like_count_cache_inflight (like_count_cache_key c) ≡ none

  leading : Sorted → Exec AppError (Option (Map ContentKey ℤ))
  leading s =
      collect_leaders woken fresh s.missing_items
        (record { counts_by_item = s.counts_by_item; leader_items = [] })
      >>= λ f. filled h f

  leading_waits :
      (s : Sorted) (more : List ContentKey) (w : World)
      → s.missing_items ≡ c ∷ c ∷ more
      → Idle w
      → (leading s w).0 ≡ ok none
  unfolding leading filled pure
  leading_waits s more w e idle = rw e (
      ap (λ x. x.0)
        (run_on _ _ w none (
          collect_leaders-repeated woken fresh c more
            (record { counts_by_item = s.counts_by_item; leader_items = [] }) w own idle)))

  sorting_waits :
      (values : List (Option ℤ)) (w : World)
      → Idle w
      → ((sort_items (c ∷ c ∷ items) (none ∷ none ∷ values) nothing_sorted >>= leading) w).0
        ≡ ok none
  sorting_waits values w idle =
      let all = sort_items {E = AppError} (c ∷ c ∷ items) (none ∷ none ∷ values) nothing_sorted in
      let (s, e, (more, behind)) = sort_items-two {E = AppError} c items values w in
      let same =
        ((sort_items-Frame (c ∷ c ∷ items) (none ∷ none ∷ values) nothing_sorted).kept w
          (refl, refl)).1 in
      ap (λ x. x.0) (run_on all leading w s e)
      ∙ leading_waits s more (all w).1 behind
          (subst (λ m. get m (like_count_cache_key c) ≡ none) (sym same) idle)

  caches_wait :
      (x : Result AppError (List (Option ℤ))) (w : World)
      → Uncached x
      → Idle w
      → ((cached_or_none h (c ∷ c ∷ items) x >>= λ cached.
            sort_items (c ∷ c ∷ items) cached nothing_sorted >>= leading)
          w).0
        ≡ ok none
  unfolding cached_or_none record_batch_cache record_metric modify ◌>>=◌ pure
  caches_wait (ok cached) w (inl (values, e)) idle =
      let here : cached ≡ none ∷ none ∷ values = cc e in rw here (sorting_waits values w idle)
  caches_wait (ok cached) w (inr (x, e)) idle = absurd (cc e)
  caches_wait (err x) w (inl (values, e)) idle = absurd (cc e)
  caches_wait (err x) w (inr (y, e)) idle = sorting_waits (none_cached items) _ idle

  abbrev pub keys : List Text
  keys = map like_count_cache_key (c ∷ c ∷ items)

  batch_counts_waits :
      (w : World)
      → Uncached (get_cached_like_counts keys w).0
      → Idle w
      → (batch_counts h woken fresh (c ∷ c ∷ items) w).0 ≡ ok none
  unfolding batch_counts leading attempt
  batch_counts_waits w uncached idle =
      let same = ((get_cached_like_counts-Frame keys).kept w (refl, refl)).1 in
      ap (λ x. x.0) (run_on (attempt (get_cached_like_counts keys)) _ w _ refl)
      ∙ caches_wait (get_cached_like_counts keys w).0 (get_cached_like_counts keys w).1 uncached
          (subst (λ m. get m (like_count_cache_key c) ≡ none) (sym same) idle)

  -- A batch of counts that begins with the same content twice gets no answer, whatever else it asks for
  -- and whatever fails: where it asks
  -- for no more than 100 items that are all valid, neither of the two counts is cached (or the caches cannot be
  -- read), no fill of that count is in flight, and no other task wakes the `Notify` which the request
  -- makes for its own fill.
  pub get_like_counts_batch_waits :
      (requests : List BatchLikeItemRequest) (w : World)
      → length requests ≤ max_batch_items
      → parse_batch_items h.uuid requests ≡ ok (c ∷ c ∷ items)
      → Uncached (get_cached_like_counts keys w).0
      → Idle w
      → (get_like_counts_batch h {E = AppError} woken fresh requests w).0 ≡ ok none
  unfolding get_like_counts_batch batch_answer or_error attempt pure lift ◌>>=◌
  get_like_counts_batch_waits requests w small parsed uncached idle =
      rw (unless_too_large_lem requests small, parsed, batch_counts_waits w uncached idle) refl
