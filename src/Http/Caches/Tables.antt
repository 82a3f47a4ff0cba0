-- ===== src/Http/Caches/Tables.antt =====
-- What is cached, and an update of a count, leaves the tables of Postgres as they are.
use likes_service.Common.{ℕ, refl, Text}
use likes_service.Common.Int.{ℤ}
use likes_service.AppState.{set_local}
use likes_service.Storage.{Database, ContentKey}
use likes_service.Effects.{read_clock}
use likes_service.Effects.Keeps.{Keeps-bind, keeps_rules}
use likes_service.Effects.Tables.{KeepsTables, KeepsTables-modify, tables_rules}
use likes_service.Http.{LikeStatusResponse}
use likes_service.Http.Caches.{
  store_local_like_count, cache_like_count, LikeCountCacheUpdate, publish_like_count_update,
  set_cached_json, cache_like_status,
}
use likes_service.Integrations.ContentValidation.{JsonFormat}
use likes_service.Redis.Tables.{reply_rules}

module _ {d : Database} where
  pub store_local-Keeps :
      {E : Type 0} (key : Text) (count : ℤ)
      → KeepsTables d (store_local_like_count {E = E} key count)
  unfolding store_local_like_count set_local
  store_local-Keeps key count =
      Keeps-bind read_clock _ (search tables_rules) (λ now. KeepsTables-modify _ (λ w. refl))

  pub cache_like_count-Keeps :
      (ttl : ℕ) (key : Text) (count : ℤ) → KeepsTables d (cache_like_count ttl key count)
  unfolding cache_like_count
  cache_like_count-Keeps ttl key count =
      search (keeps_rules, reply_rules, store_local-Keeps) depth 8

  pub publish_update-Keeps :
      (json : JsonFormat LikeCountCacheUpdate) (c : ContentKey) (count : ℤ)
      → KeepsTables d (publish_like_count_update json c count)
  unfolding publish_like_count_update
  publish_update-Keeps json (t, i) count = search (keeps_rules, reply_rules) depth 8

  pub cache_like_status-Keeps :
      (json : JsonFormat LikeStatusResponse) (ttl : ℕ) (user : Text) (c : ContentKey)
      (status : LikeStatusResponse)
      → KeepsTables d (cache_like_status json ttl user c status)
  unfolding cache_like_status set_cached_json
  cache_like_status-Keeps json ttl user (t, i) status = search (keeps_rules, reply_rules) depth 8
