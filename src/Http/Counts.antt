-- ===== src/Http/Counts.antt =====
-- The count of a content: get_like_count and build_count_response of src/http/likes.rs. While one
-- request fills the cache (the leader), the others for the same key wait to be notified; `meanwhile`
-- is what the other tasks do until then, `fresh` the number of the `Notify` that this request makes
-- if it leads. The loop takes fuel, one unit for each round; `none` says that the request still
-- waits when the fuel is used up.
pub mod Answers
use likes_service.Common.{
  ℕ, zero, suc, Bool, true, false, Text, text, Option, none, some, if◌then◌else◌, text_eq,
}
use likes_service.Common.Int.{ℤ, pos}
use likes_service.Common.Results.{Result, ok, err}
use likes_service.AppState.{
  LikeCountFillPermit, leader, follower, begin_like_count_fill, finish_like_count_fill,
}
use likes_service.Error.{AppError, str}
use likes_service.Effects.{
  World, Exec, cache_operation, pure, raise, lift, ◌>>=◌, ◌>>◌, attempt, record_metric, modify,
}
use likes_service.Helpers.{cache_control_for_count, count_response_etag, if_none_match_matches}
use likes_service.Http.{
  Response, LikeCountResponse, count_body, no_body, respond, set_header, into_response, success,
}
use likes_service.Http.Caches.{cache_like_count, get_cached_like_count}
use likes_service.Http.Likes.{Handlers}
use likes_service.Http.Requests.{content_type_of, content_id_of}
use likes_service.Repository as Repository
use likes_service.Repository.{LikeCount, replica}
use likes_service.Storage.{ContentKey}
use likes_service.UseCases.{like_count_cache_key}

-- LikeCountResponse::from_parts
unfoldable pub count_parts : ContentKey → ℤ → LikeCountResponse
count_parts (content_type, content_id) count = record {
  content_type = content_type;
  content_id = content_id;
  count = count;
}

tagged : Text → Response → Response
unfolding set_header
tagged etag response =
    set_header (text "cache-control") (str cache_control_for_count)
      (set_header (text "etag") (str etag) response)

unfoldable pub build_count_response : ContentKey → ℤ → Option Text → Response
unfolding tagged count_parts
build_count_response (content_type, content_id) count if_none_match =
    let etag = count_response_etag content_type content_id count in
    if if_none_match_matches if_none_match etag
    then tagged etag (respond 304 no_body)
    else tagged etag (success (count_body (count_parts (content_type, content_id) count)))

record_count_cache : {E : Type 0} → Text → Exec E Unit
record_count_cache result = record_metric (cache_operation (text "get_like_count") result)

-- The metric of a failure to fill the cache.
note_filled : {E : Type 0} → Result AppError Unit → Exec E Unit
unfolding record_count_cache
note_filled (ok a) = pure tt
note_filled (err error) = record_count_cache (text "error")

module _ (h : Handlers) (c : ContentKey) (if_none_match : Option Text) where
  -- The leader's answer, from what the tables said.
  led : Result AppError LikeCount → Exec AppError (Option Response)
  unfolding note_filled
  led (err error) = raise error
  led (ok count) = do
    r ← attempt (
        cache_like_count h.cache_ttl_like_counts_seconds (like_count_cache_key c) (pos count.count))
    note_filled r
    pure (some (build_count_response c (pos count.count) if_none_match))

  -- A follower's answer, from what the cache says once it is notified; `again` is the next round.
  followed :
      Exec AppError (Option Response) → Result AppError (Option ℤ) → Exec AppError (Option Response)
  unfolding record_count_cache
  followed again (ok (some count)) = do
    record_count_cache (text "hit")
    pure (some (success (count_body (count_parts c count))))
  followed again (ok none) = again
  followed again (err error) = do record_count_cache (text "error"); again

  -- One round with its permit.
  round :
      (World → World)
      → Exec AppError (Option Response)
      → LikeCountFillPermit
      → Exec AppError (Option Response)
  unfolding led followed
  round meanwhile again (leader notify) = do
    result ← attempt (Repository.get_like_count replica c)
    finish_like_count_fill (like_count_cache_key c) notify
    led result
  round meanwhile again (follower notify) = do
    modify meanwhile
    cached ← attempt (get_cached_like_count (like_count_cache_key c))
    followed again cached

  unfoldable pub fill_loop : (World → World) → ℕ → ℕ → Exec AppError (Option Response)
  unfolding round
  fill_loop meanwhile fresh zero = pure none
  fill_loop meanwhile fresh (suc fuel) = do
    permit ← begin_like_count_fill fresh (like_count_cache_key c)
    round meanwhile (fill_loop meanwhile fresh fuel) permit

  -- What the cache says first.
  first_cached :
      Exec AppError (Option Response) → Result AppError (Option ℤ) → Exec AppError (Option Response)
  unfolding record_count_cache
  first_cached fill (ok (some count)) = do
    record_count_cache (text "hit")
    pure (some (build_count_response c count if_none_match))
  first_cached fill (ok none) = do record_count_cache (text "miss"); fill
  first_cached fill (err error) = do record_count_cache (text "error"); fill

  unfoldable pub read_like_count : (World → World) → ℕ → ℕ → Exec AppError (Option Response)
  unfolding first_cached fill_loop
  read_like_count meanwhile fresh fuel = do
    cached ← attempt (get_cached_like_count (like_count_cache_key c))
    first_cached (fill_loop meanwhile fresh fuel) cached

answer_of : Result AppError (Option Response) → Option Response
answer_of (ok answer) = answer
answer_of (err error) = some (into_response error)

unfoldable pub get_like_count :
    {E : Type 0}
    → Handlers
    → (World → World)
    → ℕ
    → ℕ
    → Option Text
    → Text
    → Text
    → Exec E (Option Response)
unfolding read_like_count answer_of
get_like_count h meanwhile fresh fuel if_none_match path_type path_id = do
  r ← attempt (do
    content_type ← lift (content_type_of path_type)
    content_id ← lift (content_id_of h.uuid path_id)
    read_like_count h (content_type, content_id) if_none_match meanwhile fresh fuel)
  pure (answer_of r)
