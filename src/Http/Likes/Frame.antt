-- ===== src/Http/Likes/Frame.antt =====
-- The actions that follow a like and an unlike leave the tables alone and do not fail.
use likes_service.Common.{Bool, true, false, Text}
use likes_service.Common.Int.{ℤ}
use likes_service.Common.Results.{Result, ok, err}
use likes_service.AppState.{set_local}
use likes_service.Domain.{UserId}
use likes_service.Storage.{Database, ContentKey}
use likes_service.Effects.{Exec}
use likes_service.Effects.Keeps.{Keeps-pure, Keeps-bind, Keeps-attempt, keeps_rules}
use likes_service.Effects.Tables.{KeepsTables}
use likes_service.Effects.Returns.{Returns, returns_rules, Returns-pure}
use likes_service.Http.Caches.{store_local_like_count}
use likes_service.Http.Caches.Tables.{
  store_local-Keeps, cache_like_count-Keeps, publish_update-Keeps, cache_like_status-Keeps,
}
use likes_service.Integrations.SseEvents.Tables.{publish_like-Keeps, publish_unlike-Keeps}
use likes_service.Http.Likes.{
  Handlers, or_else, ignoring, when, cache_count, after_like, after_unlike,
}
use likes_service.UseCases.{LikeContentResult, UnlikeContentResult}

module _ {d : Database} {E : Type 0} where
  or_else-Keeps :
      {A : Type 0} (m : Exec E Unit) (r : Result A Unit)
      → KeepsTables d m
      → KeepsTables d (or_else m r)
  unfolding or_else
  or_else-Keeps m (ok a) k = Keeps-pure tt
  or_else-Keeps m (err e) k = k

  ignoring-Keeps :
      {F : Type 0} (m : Exec F Unit) → KeepsTables d m → KeepsTables d (ignoring {E = E} m)
  unfolding ignoring
  ignoring-Keeps m k = Keeps-bind _ _ (Keeps-attempt m k) (λ r. Keeps-pure tt)

  when-Keeps : (b : Bool) (m : Exec E Unit) → KeepsTables d m → KeepsTables d (when b m)
  unfolding when
  when-Keeps true m k = k
  when-Keeps false m k = Keeps-pure tt

module _ {E : Type 0} where
  or_else-Returns :
      {A : Type 0} (m : Exec E Unit) (r : Result A Unit) → Returns m → Returns (or_else m r)
  unfolding or_else
  or_else-Returns m (ok a) k = Returns-pure tt
  or_else-Returns m (err e) k = k

  ignoring-Returns : {F : Type 0} (m : Exec F Unit) → Returns (ignoring {E = E} m)
  unfolding ignoring
  ignoring-Returns m = search returns_rules

  when-Returns : (b : Bool) (m : Exec E Unit) → Returns m → Returns (when b m)
  unfolding when
  when-Returns true m k = k
  when-Returns false m k = Returns-pure tt

  store-Returns : (key : Text) (count : ℤ) → Returns (store_local_like_count {E = E} key count)
  unfolding store_local_like_count set_local
  store-Returns key count = search returns_rules

module _ (h : Handlers) {E : Type 0} where
  cache_count-Keeps :
      {d : Database} (key : Text) (count : ℤ) → KeepsTables d (cache_count h {E = E} key count)
  unfolding cache_count
  cache_count-Keeps key count =
      search (keeps_rules, cache_like_count-Keeps, or_else-Keeps, store_local-Keeps) depth 8

  cache_count-Returns : (key : Text) (count : ℤ) → Returns (cache_count h {E = E} key count)
  unfolding cache_count
  cache_count-Returns key count = search (returns_rules, or_else-Returns, store-Returns) depth 8

  pub after_like-Keeps :
      {d : Database} (user : UserId) (c : ContentKey) (result : LikeContentResult)
      → KeepsTables d (after_like h {E = E} user c result)
  unfolding after_like
  after_like-Keeps user c result =
      search
        (
          keeps_rules, cache_count-Keeps, ignoring-Keeps, when-Keeps, publish_update-Keeps,
          publish_like-Keeps, cache_like_status-Keeps,
        )
        depth 10

  pub after_like-Returns :
      (user : UserId) (c : ContentKey) (result : LikeContentResult)
      → Returns (after_like h {E = E} user c result)
  unfolding after_like
  after_like-Returns user c result =
      search (returns_rules, cache_count-Returns, ignoring-Returns, when-Returns) depth 10

  pub after_unlike-Keeps :
      {d : Database} (user : UserId) (c : ContentKey) (result : UnlikeContentResult)
      → KeepsTables d (after_unlike h {E = E} user c result)
  unfolding after_unlike
  after_unlike-Keeps user c result =
      search
        (
          keeps_rules, cache_count-Keeps, ignoring-Keeps, when-Keeps, publish_update-Keeps,
          publish_unlike-Keeps, cache_like_status-Keeps,
        )
        depth 10

  pub after_unlike-Returns :
      (user : UserId) (c : ContentKey) (result : UnlikeContentResult)
      → Returns (after_unlike h {E = E} user c result)
  unfolding after_unlike
  after_unlike-Returns user c result =
      search (returns_rules, cache_count-Returns, ignoring-Returns, when-Returns) depth 10
