-- ===== src/UseCases/Tables.antt =====
-- What liking and unliking do around the repository leaves the tables of Postgres as they are.
use likes_service.Common.{ℕ, Bool, true, false, Text}
use likes_service.Storage.{Database, ContentKey}
use likes_service.Effects.{Exec}
use likes_service.Effects.Keeps.{Keeps-pure, Keeps-convert, keeps_rules}
use likes_service.Effects.Tables.{KeepsTables, tables_rules}
use likes_service.Redis.Tables.{
  execute-Keeps, connect-Keeps, exists-db, incr-db, decr-db, set-db, expire-db,
}
use likes_service.Integrations.ContentValidation.{
  JsonFormat, CachedValidationResult, ContentValidationClient,
}
use likes_service.Integrations.ContentValidation.Tables.{validate_content-Keeps}
use likes_service.Repository.{
  InsertLikeResult, inserted, already_exists, DeleteLikeResult, deleted, not_found,
}
use likes_service.UseCases.{
  refresh, when_cached, not_below_zero, increment_cached_like_count, decrement_cached_like_count,
  note_inserted, note_deleted, validate,
}

ruleset redis_rules = (execute-Keeps, connect-Keeps, exists-db, incr-db, decr-db, set-db, expire-db)

module _ {d : Database} where
  refresh-Keeps : (key : Text) (ttl : ℕ) → KeepsTables d (refresh key ttl)
  unfolding refresh
  refresh-Keeps key ttl = search (keeps_rules, redis_rules)

  when_cached-Keeps :
      (m : Exec Text Unit) (b : Bool) → KeepsTables d m → KeepsTables d (when_cached m b)
  unfolding when_cached
  when_cached-Keeps m true k = k
  when_cached-Keeps m false k = Keeps-pure tt

  not_below_zero-Keeps : (key : Text) (b : Bool) → KeepsTables d (not_below_zero key b)
  unfolding not_below_zero
  not_below_zero-Keeps key true = search redis_rules
  not_below_zero-Keeps key false = Keeps-pure tt

  increment-Keeps : (c : ContentKey) (ttl : ℕ) → KeepsTables d (increment_cached_like_count c ttl)
  unfolding increment_cached_like_count
  increment-Keeps c ttl =
      search (keeps_rules, redis_rules, refresh-Keeps, when_cached-Keeps) depth 10

  decrement-Keeps : (c : ContentKey) (ttl : ℕ) → KeepsTables d (decrement_cached_like_count c ttl)
  unfolding decrement_cached_like_count
  decrement-Keeps c ttl =
      search (keeps_rules, redis_rules, refresh-Keeps, when_cached-Keeps, not_below_zero-Keeps)
        depth 10

module _ {d : Database} (show_status to_char : ℕ → Text) (json : JsonFormat CachedValidationResult)
    (client : ContentValidationClient) (ttl : ℕ) where
  pub note_inserted-Keeps :
      (c : ContentKey) (r : InsertLikeResult)
      → KeepsTables d (note_inserted show_status to_char json client ttl c r)
  unfolding note_inserted
  note_inserted-Keeps c inserted = search (keeps_rules, tables_rules, increment-Keeps)
  note_inserted-Keeps c already_exists = Keeps-pure true

  pub note_deleted-Keeps :
      (c : ContentKey) (r : DeleteLikeResult)
      → KeepsTables d (note_deleted show_status to_char json client ttl c r)
  unfolding note_deleted
  note_deleted-Keeps c deleted = search (keeps_rules, tables_rules, decrement-Keeps)
  note_deleted-Keeps c not_found = Keeps-pure false

  pub validate-Keeps :
      (c : ContentKey) → KeepsTables d (validate show_status to_char json client ttl c)
  validate-Keeps c = Keeps-convert _ _ (validate_content-Keeps show_status json client c.0 c.1)
