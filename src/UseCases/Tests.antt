-- ===== src/UseCases/Tests.antt =====
-- A like that is accepted, and a Redis that fails after the insertion.
use likes_service.Common.{
  ℕ, ◌≡◌, refl, true, false, [], ◌∷◌, Text, text, some, text_eqb, text, pair_eqb,
}
use likes_service.Common.Results.{ok, err}
use likes_service.Storage.{
  LikeKey, add_one, bucket_of, count_at, increment_hourly_count, increment_like_count,
  insert_like_row, delete_like_row, decrement_like_count, decrement_hourly_count, take_one,
}
use likes_service.Storage.Consistency.{IsConsistent, empty-IsConsistent}
use likes_service.Effects.{
  World, content_status, ◌>>=◌, convert, attempt, redis_outcome, record_metric, after_reading,
  db_outcome, gets, lift, modify, next_outcome, pure, read_clock,
}
use likes_service.Effects.Examples.{quiet_world}
use likes_service.Integrations.ContentRegistry as Registry
use likes_service.Integrations.ContentValidation.{
  JsonFormat, CachedValidationResult, ContentValidationClient, validate_content,
  get_cached_validation_result, cache_validation_result, content_reply,
  content_validation_cache_key,
}
use likes_service.UseCases.{
  LikeContentResult, like_content, unlike_content, increment_cached_like_count,
  like_count_cache_key, note_inserted, when_cached, UnlikeContentResult, note_deleted,
  decrement_cached_like_count,
}
use likes_service.UseCases.Liking.{Liked, like_content-Liked}
use likes_service.UseCases.Consistency.{use_cases-IsConsistent}
use likes_service.Redis.{connect, execute, get_text, live, exists}
use likes_service.Common.Maps.{get, insert, remove}
use likes_service.CircuitBreaker.{
  allow_request, increment_u32, is_failure_rate_threshold_reached, prune_outcomes, push_outcome,
  record_success,
}
use likes_service.Integrations.Calls.{allow_call, call_succeeded, send_content_request}
use likes_service.Repository.{
  commit, count_inserted, get_like_count, get_like_status, in_range, insert_like, query, status_of,
  delete_like, count_deleted,
}
use likes_service.Common.Decimal.{show_nat}
use likes_service.UseCases.Unliking.{Unliked, unlike_content-Unliked}

abbrev no_text : ℕ → Text
no_text n = text "x"

abbrev no_json : JsonFormat CachedValidationResult
no_json = record { to_string = λ x. err (text "no"); from_str = λ s. err (text "no") }

abbrev post_client : ContentValidationClient
post_client = record {
  registry =
      Registry.new (record { content_type = text "post"; base_url = text "http://post" } ∷ []);
  cache_ttl_seconds = 60;
}

abbrev like : LikeKey
like = (text "u", (text "post", text "c"))

abbrev answering : World
answering = record quiet_world { content_replies = content_status 200 ∷ [] }

abbrev first_like : LikeContentResult
first_like = record { liked = true; already_existed = false; count = 1; liked_at = some (text "x") }

accepted : (like_content no_text no_text no_json post_client 60 like answering).0 ≡ ok first_like
unfolding like_content ◌>>=◌ convert validate_content get_cached_validation_result attempt connect
    redis_outcome execute get_text live get record_metric insert text_eqb text allow_request
    increment_u32 is_failure_rate_threshold_reached prune_outcomes push_outcome record_success
    pair_eqb remove after_reading db_outcome gets lift modify next_outcome pure read_clock
    allow_call call_succeeded send_content_request cache_validation_result content_reply exists
    commit count_inserted get_like_count get_like_status in_range insert_like query status_of
    add_one bucket_of count_at increment_hourly_count increment_like_count insert_like_row
    increment_cached_like_count like_count_cache_key note_inserted when_cached show_nat
    content_validation_cache_key Registry.get Registry.new
accepted = refl

like_content-Liked_example :
    Liked no_text like answering.db first_like
      (like_content no_text no_text no_json post_client 60 like answering).1.db
like_content-Liked_example =
    like_content-Liked no_text no_text no_json post_client 60 like answering first_like
      empty-IsConsistent accepted

use_cases-IsConsistent_example :
    IsConsistent (like_content no_text no_text no_json post_client 60 like answering).1.db
    × IsConsistent (unlike_content no_text no_text no_json post_client 60 like answering).1.db
use_cases-IsConsistent_example =
    use_cases-IsConsistent no_text no_text no_json post_client 60 like answering empty-IsConsistent

abbrev liked : World
liked = record ((like_content no_text no_text no_json post_client 60 like answering).1) {
  content_replies = content_status 200 ∷ [];
}

abbrev last_unlike : UnlikeContentResult
last_unlike = record { liked = false; was_liked = true; count = 0 }

withdrawn : (unlike_content no_text no_text no_json post_client 60 like liked).0 ≡ ok last_unlike
unfolding like_content ◌>>=◌ convert validate_content get_cached_validation_result attempt connect
    redis_outcome execute get_text live get record_metric insert text_eqb text allow_request
    increment_u32 is_failure_rate_threshold_reached prune_outcomes push_outcome record_success
    pair_eqb remove after_reading db_outcome gets lift modify next_outcome pure read_clock
    allow_call call_succeeded send_content_request cache_validation_result content_reply exists
    commit count_inserted get_like_count get_like_status in_range insert_like query status_of
    add_one bucket_of count_at increment_hourly_count increment_like_count insert_like_row
    increment_cached_like_count like_count_cache_key note_inserted when_cached show_nat
    content_validation_cache_key Registry.get Registry.new unlike_content delete_like count_deleted
    delete_like_row decrement_like_count decrement_hourly_count take_one note_deleted
    decrement_cached_like_count
withdrawn = refl

unlike_content-Unliked_example :
    Unliked like liked.db last_unlike
      (unlike_content no_text no_text no_json post_client 60 like liked).1.db
unlike_content-Unliked_example =
    unlike_content-Unliked no_text no_text no_json post_client 60 like liked last_unlike
      (use_cases-IsConsistent no_text no_text no_json post_client 60 like answering
        empty-IsConsistent).0
      withdrawn
