-- ===== src/Http/Batch/Counts.antt =====
-- Batches of counts: get_like_counts_batch of src/http/batch.rs; `woken` and `fresh` are those of
-- `Http.Batch.Leaders`. The outcome is `none` where the request waits forever.
-- The entries BatchLikeCountItemResponse have the fields of LikeCountResponse.
pub mod Repeats
use likes_service.Common.{ℕ, List, [], ◌∷◌, ◌++◌, text, Option, none, some, map, text_eq, pair_eq}
use likes_service.Common.Int.{ℤ, pos}
use likes_service.Common.Maps.{Map, get, insert}
use likes_service.Common.Results.{Result, ok, err}
use likes_service.AppState.{finish_like_count_fill}
use likes_service.Error.{AppError}
use likes_service.Effects.{World, Exec, pure, raise, lift, ◌>>=◌, ◌>>◌, attempt}
use likes_service.Http.{Response, LikeCountResponse, batch_counts_body, into_response, success}
use likes_service.Http.Caches.{cache_like_count, get_cached_like_counts}
use likes_service.Http.Likes.{Handlers}
use likes_service.Repository as Repository
use likes_service.Repository.{LikeStatus, replica}
use likes_service.Storage.{ContentKey}
use likes_service.UseCases.{like_count_cache_key}
use likes_service.Http.Batch.{BatchLikeItemRequest, parse_batch_items, unless_too_large}
use likes_service.Http.Batch.Leaders.{Filling, record_batch_cache, collect_leaders}

-- The counts by item, and the items that the cache does not have.
pub record Sorted : Type 0 where
  pub counts_by_item : Map ContentKey ℤ
  pub missing_items : List ContentKey

sort_items : {E : Type 0} → List ContentKey → List (Option ℤ) → Sorted → Exec E Sorted
unfolding record_batch_cache
sort_items [] cached so_far = pure so_far
sort_items (c ∷ items) [] so_far = pure so_far
sort_items (c ∷ items) (some count ∷ cached) so_far = do
  record_batch_cache (text "hit")
  sort_items items cached (record so_far { counts_by_item = insert so_far.counts_by_item c count })
sort_items (c ∷ items) (none ∷ cached) so_far = do
  record_batch_cache (text "miss")
  sort_items items cached (record so_far { missing_items = so_far.missing_items ++ c ∷ [] })

contents : List (ContentKey × ℕ) → List ContentKey
contents [] = []
contents ((c, notify) ∷ items) = c ∷ contents items

-- The fills that end because the query has failed.
finish_all : {E : Type 0} → List (ContentKey × ℕ) → Exec E Unit
finish_all [] = pure tt
finish_all ((c, notify) ∷ items) = do
  finish_like_count_fill (like_count_cache_key c) notify
  finish_all items

count_of : Map ContentKey ℕ → ContentKey → ℤ
count_of counts c = elim (get counts c) [ none ↦ pos 0 | some n ↦ pos n ]

-- The items in their order: 0 where no count was found.
unfoldable pub count_responses : Map ContentKey ℤ → List ContentKey → List LikeCountResponse
count_responses counts [] = []
count_responses counts ((content_type, content_id) ∷ items) =
    record {
      content_type = content_type;
      content_id = content_id;
      count = elim (get counts (content_type, content_id)) [ none ↦ pos 0 | some n ↦ n ];
    }
    ∷ count_responses counts items

abbrev none_cached : List ContentKey → List (Option ℤ)
none_cached [] = []
none_cached (c ∷ items) = none ∷ none_cached items

module _ (h : Handlers) where
  noted : {E : Type 0} → Result AppError Unit → Exec E Unit
  unfolding record_batch_cache
  noted (ok a) = pure tt
  noted (err error) = record_batch_cache (text "error")

  -- The counts of Postgres, put into the caches one by one.
  store_counts :
      {E : Type 0}
      → Map ContentKey ℕ
      → List (ContentKey × ℕ)
      → Map ContentKey ℤ
      → Exec E (Map ContentKey ℤ)
  unfolding count_of noted
  store_counts counts [] by_item = pure by_item
  store_counts counts ((c, notify) ∷ items) by_item = do
    r ← attempt (
        cache_like_count h.cache_ttl_like_counts_seconds (like_count_cache_key c)
          (count_of counts c))
    noted r
    finish_like_count_fill (like_count_cache_key c) notify
    store_counts counts items (insert by_item c (count_of counts c))

  stored : Filling → Result AppError (Map ContentKey ℕ) → Exec AppError (Map ContentKey ℤ)
  unfolding finish_all store_counts
  stored f (ok counts) = store_counts counts f.leader_items f.counts_by_item
  stored f (err error) = do finish_all f.leader_items; raise error

  fill_from_tables : Filling → List (ContentKey × ℕ) → Exec AppError (Map ContentKey ℤ)
  unfolding stored contents
  fill_from_tables f [] = pure f.counts_by_item
  fill_from_tables f (item ∷ items) = do
    r ← attempt (Repository.get_like_counts_batch replica (contents (item ∷ items)))
    stored f r

  filled : Option Filling → Exec AppError (Option (Map ContentKey ℤ))
  unfolding fill_from_tables
  filled none = pure none
  filled (some f) = do counts ← fill_from_tables f f.leader_items; pure (some counts)

  cached_or_none :
      List ContentKey → Result AppError (List (Option ℤ)) → Exec AppError (List (Option ℤ))
  unfolding record_batch_cache
  cached_or_none items (ok values) = pure values
  cached_or_none items (err error) = do record_batch_cache (text "error"); pure (none_cached items)

  unfoldable pub batch_counts :
      (ℕ → World → Option World) → ℕ → List ContentKey → Exec AppError (Option (Map ContentKey ℤ))
  unfolding cached_or_none sort_items collect_leaders filled
  batch_counts woken fresh items = do
    r ← attempt (get_cached_like_counts (map like_count_cache_key items))
    cached ← cached_or_none items r
    sorted ← sort_items items cached (record { counts_by_item = []; missing_items = [] })
    f ←
        collect_leaders woken fresh sorted.missing_items
          (record { counts_by_item = sorted.counts_by_item; leader_items = [] })
    filled f

  batch_answer : List ContentKey → Option (Map ContentKey ℤ) → Option Response
  unfolding count_responses
  batch_answer items none = none
  batch_answer items (some counts) =
      some (success (batch_counts_body (count_responses counts items)))

  or_error : Result AppError (Option Response) → Option Response
  or_error (ok answer) = answer
  or_error (err error) = some (into_response error)

  unfoldable pub get_like_counts_batch :
      {E : Type 0}
      → (ℕ → World → Option World)
      → ℕ
      → List BatchLikeItemRequest
      → Exec E (Option Response)
  unfolding unless_too_large parse_batch_items batch_counts batch_answer or_error
  get_like_counts_batch woken fresh requests = do
    r ← attempt (do
      lift (unless_too_large requests)
      items ← lift (parse_batch_items h.uuid requests)
      counts ← batch_counts woken fresh items
      pure (batch_answer items counts))
    pure (or_error r)
