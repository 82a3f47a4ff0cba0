-- ===== src/Http/Batch/Leaders.antt =====
-- The fills that a batch of counts leads: the loop over the items that are not cached, in
-- src/http/batch.rs. A request that finds a fill in flight waits until the fill's `Notify` is woken.
-- This request cannot wake it while it waits, so what happens then is up to the other tasks, a
-- parameter: `woken notify w` is the world in which one of them, from `w` on, wakes those who wait on
-- `notify`, and `none` if no task ever does, so that the request waits forever and the loop's outcome
-- is `none`. The `Notify`s that a request allocates are numbered from `fresh` on, by its rounds.
pub mod Repeats
use likes_service.Common.{
  ℕ, ◌+◌, Bool, true, false, List, [], ◌∷◌, ◌++◌, Text, text, Option, none, some, map, length, ltb,
  nat_eqb, if◌then◌else◌, text_eq, pair_eq, replicate,
}
use likes_service.Common.Int.{ℤ, pos}
use likes_service.Common.Maps.{Map, get, insert}
use likes_service.Common.Results.{Result, ok, err}
use likes_service.AppState.{
  LikeCountFillPermit, leader, follower, begin_like_count_fill, finish_like_count_fill,
}
use likes_service.Domain.{UuidApi, show_user_id}
use likes_service.Error.{AppError, invalid_request}
use likes_service.Effects.{
  World, Exec, cache_operation, pure, raise, lift, ◌>>=◌, ◌>>◌, attempt, record_metric, modify,
}
use likes_service.Helpers.{max_batch_items}
use likes_service.Http.{
  Response, LikeCountResponse, LikeStatusResponse, BatchLikeStatusItemResponse, batch_counts_body,
  batch_statuses_body, into_response, success,
}
use likes_service.Http.Caches.{
  cache_like_count, get_cached_like_counts, cache_like_status, get_cached_like_status,
}
use likes_service.Http.Likes.{Handlers}
use likes_service.Http.Requests.{
  parse_authenticated_user_id, content_type_of, content_id_of, respond_with,
}
use likes_service.Integrations.ProfileApi.{AuthenticatedUser}
use likes_service.Repository as Repository
use likes_service.Repository.{LikeStatus, replica}
use likes_service.Storage.{ContentKey}
use likes_service.UseCases.{like_count_cache_key}
use likes_service.Http.Batch.{BatchLikeItemRequest, parse_batch_items, unless_too_large}

unfoldable pub record_batch_cache : {E : Type 0} → Text → Exec E Unit
record_batch_cache result = record_metric (cache_operation (text "get_like_counts_batch") result)

-- The counts by item, and the items that this request reads, each with its `Notify`.
pub record Filling : Type 0 where
  pub counts_by_item : Map ContentKey ℤ
  pub leader_items : List (ContentKey × ℕ)

abbrev lead : ContentKey → ℕ → Filling → Filling
lead c notify f = record f { leader_items = f.leader_items ++ (c, notify) ∷ [] }

-- What follows a wait.
resumed : {E A : Type 0} → Exec E (Option A) → World → Option World → Result E (Option A) × World
resumed next w none = (ok none, w)
resumed next w (some w') = next w'

-- notify.notified().await, and the rest.
wait_then :
    {E : Type 0}
    → (ℕ → World → Option World)
    → ℕ
    → Exec E (Option Filling)
    → Exec E (Option Filling)
unfolding resumed
wait_then woken notify next w = resumed next w (woken notify w)

module _ {E : Type 0} (woken : ℕ → World → Option World) (c : ContentKey) where
  -- The second permit, after a wait that left no cached count.
  retried : Filling → LikeCountFillPermit → Exec E (Option Filling)
  unfolding wait_then
  retried f (leader notify) = pure (some (lead c notify f))
  retried f (follower notify) = wait_then woken notify (pure (some f))

  -- What the cache says after a wait on `notify`.
  looked_up : ℕ → ℕ → Filling → Result AppError (List (Option ℤ)) → Exec E (Option Filling)
  unfolding retried record_batch_cache
  looked_up fresh notify f (ok (some count ∷ values)) =
      pure (some (record f { counts_by_item = insert f.counts_by_item c count }))
  looked_up fresh notify f (ok (none ∷ values)) = do
    permit ← begin_like_count_fill (fresh + 1) (like_count_cache_key c)
    retried f permit
  looked_up fresh notify f (ok []) = do
    permit ← begin_like_count_fill (fresh + 1) (like_count_cache_key c)
    retried f permit
  looked_up fresh notify f (err error) = do
    record_batch_cache (text "error")
    pure (some (lead c notify f))

  permitted : ℕ → Filling → LikeCountFillPermit → Exec E (Option Filling)
  unfolding wait_then looked_up
  permitted fresh f (leader notify) = pure (some (lead c notify f))
  permitted fresh f (follower notify) = wait_then woken notify (do
    cached ← attempt (get_cached_like_counts (like_count_cache_key c ∷ []))
    looked_up fresh notify f cached)

-- `more` is the rest of the loop over the missing items.
and_more :
    {E : Type 0} → (Filling → Exec E (Option Filling)) → Option Filling → Exec E (Option Filling)
and_more more none = pure none
and_more more (some f) = more f

unfoldable pub collect_leaders :
    {E : Type 0}
    → (ℕ → World → Option World)
    → ℕ
    → List ContentKey
    → Filling
    → Exec E (Option Filling)
unfolding permitted and_more
collect_leaders woken fresh [] f = pure (some f)
collect_leaders woken fresh (c ∷ items) f = do
  permit ← begin_like_count_fill fresh (like_count_cache_key c)
  r ← permitted woken c fresh f permit
  and_more (collect_leaders woken (fresh + 2) items) r
