-- ===== src/Http/Tests.antt =====
-- The handlers at concrete inputs.
use likes_service.Common.{
  inl, arith, ℕ, ◌≡◌, ◌↔◌, refl, inr, List, [], ◌∷◌, Text, text, Option, none, some, map, ltb→lt,
  text_eqb, text_eq, pair_eq, strip_prefix, split_once, trim,
}
use likes_service.Common.Int.{pos}
use likes_service.Common.Results.{ok}
use likes_service.Domain.{UserId, show_user_id, parse_user_id, parse_content_type, parse_content_id}
use likes_service.Error.{AppError}
use likes_service.Effects.{World, content_status, ◌>>=◌, read_clock, convert, redis_outcome}
use likes_service.Redis.{get_redis_connection, execute, get_integers}
use likes_service.Effects.Examples.{quiet_world}
use likes_service.Helpers.{parse_limit, count_response_etag, decode_cursor}
use likes_service.Http.{Response}
use likes_service.AppState.{get_local}
use likes_service.Http.Batch.{BatchLikeItemRequest, parse_batch_items}
use likes_service.Http.Batch.Counts.{get_like_counts_batch}
use likes_service.Http.Batch.Counts.Repeats.{get_like_counts_batch_waits}
use likes_service.Http.Caches.{get_cached_like_counts}
use likes_service.Http.Counts.{build_count_response}
use likes_service.Http.Counts.Answers.{not_modified_iff}
use likes_service.Http.Examples.{
  unary, plain, plain-Base64Laws, postgres, postgres-PostgresLaws, postgres-TimeLaws, handlers,
}
use likes_service.Http.Likes.{create_like, delete_like}
use likes_service.Http.Likes.Answers.{
  Answers-like, create_like-Answers, Answers-unlike, delete_like-Answers,
}
use likes_service.Http.Requests.{
  parse_authenticated_user_id, content_type_of, content_id_of, optional_content_type,
  optional_cursor,
}
use likes_service.Http.UserLikes.{UserLikesQuery, list_user_likes}
use likes_service.Http.UserLikes.Pages.{list_user_likes-500, item}
use likes_service.Http.UserLikes.Walk.{walk, walk-user_like_rows}
use likes_service.Integrations.ProfileApi.{AuthenticatedUser}
use likes_service.Repository.Listing.{
  LikeRow, of_user, newer, comes_after, past_cursor, user_like_rows,
}
use likes_service.Repository.Steps.{steady}
use likes_service.Storage.Consistency.{empty-IsConsistent}
use likes_service.Storage.Ordering.{order_by, place}
use likes_service.Common.Maps.{get}
use likes_service.UseCases.{like_count_cache_key}

abbrev alice : AuthenticatedUser
alice = record { user_id = b'a' ∷ b'a' ∷ []; display_name = b'A' ∷ [] }

abbrev two : UserId
two = record { uuid = 2 }

abbrev type_text : Text
type_text = b'p' ∷ []

abbrev id_text : Text
id_text = b'a' ∷ b'a' ∷ b'a' ∷ []

alice_parsed : parse_authenticated_user_id unary alice ≡ ok two
unfolding parse_authenticated_user_id parse_user_id strip_prefix trim text
alice_parsed = refl

type_parsed : content_type_of type_text ≡ ok type_text
unfolding content_type_of parse_content_type
type_parsed = refl

id_parsed : content_id_of unary id_text ≡ ok id_text
unfolding content_id_of parse_content_id
id_parsed = refl

abbrev answering : World
answering = record quiet_world { content_replies = content_status 200 ∷ [] }

create_like-Answers_example :
    Answers-like handlers alice two type_text id_text type_text id_text alice_parsed type_parsed
      id_parsed answering
      (create_like handlers alice
        (record { content_type = type_text; content_id = id_text })
        answering)
create_like-Answers_example =
    create_like-Answers handlers alice two type_text id_text type_text id_text alice_parsed
      type_parsed id_parsed answering empty-IsConsistent

delete_like-Answers_example :
    Answers-unlike handlers alice two type_text id_text type_text id_text alice_parsed type_parsed
      id_parsed answering
      (delete_like handlers alice type_text id_text answering)
delete_like-Answers_example =
    delete_like-Answers handlers alice two type_text id_text type_text id_text alice_parsed
      type_parsed id_parsed answering empty-IsConsistent

no_fill : (key : Text) → get {V = ℕ} [] key ≡ none
unfolding get
no_fill key = refl

not_modified_iff_example :
    ((build_count_response
        (type_text, id_text)
        (pos 2)
        (some (count_response_etag type_text id_text (pos 1)))).status
      ≡ 304)
    ↔ (pos 1 ≡ pos 2)
not_modified_iff_example =
    not_modified_iff type_text id_text (pos 1) (pos 2) (refl, tt) (refl, (refl, (refl, tt)))

abbrev twice : List BatchLikeItemRequest
twice =
    record { content_type = type_text; content_id = id_text }
    ∷ record { content_type = type_text; content_id = id_text }
    ∷ []

-- No other task wakes anybody.
abbrev nobody : ℕ → World → Option World
nobody notify w = none

twice_parsed :
    parse_batch_items handlers.uuid twice ≡ ok ((type_text, id_text) ∷ (type_text, id_text) ∷ [])
unfolding parse_batch_items content_type_of content_id_of parse_content_type parse_content_id
twice_parsed = refl

not_cached :
    (get_cached_like_counts
      (like_count_cache_key (type_text, id_text) ∷ like_count_cache_key (type_text, id_text) ∷ [])
      quiet_world).0
    ≡ ok (none ∷ none ∷ [])
unfolding get_cached_like_counts get_local get like_count_cache_key text ◌>>=◌ read_clock convert
    get_redis_connection execute redis_outcome get_integers
not_cached = refl

get_like_counts_batch_waits_example :
    (get_like_counts_batch handlers {E = AppError} nobody 0 twice quiet_world).0 ≡ ok none
get_like_counts_batch_waits_example =
    get_like_counts_batch_waits handlers nobody 0 (type_text, id_text) [] (λ w. refl) twice
      quiet_world (omega arith) twice_parsed (inl ([], not_cached))
      (no_fill (like_count_cache_key (type_text, id_text)))

abbrev two_a : Text
two_a = b'a' ∷ b'a' ∷ []

-- Two likes of one user.
abbrev stored : List LikeRow
stored = ((two_a, (type_text, id_text)), 1) ∷ ((two_a, (type_text, two_a)), 2) ∷ []

abbrev listing_world : World
listing_world = record quiet_world {
  read_db = record { likes = stored; like_counts = []; like_hourly_counts = [] };
}

abbrev one : Option ℕ
one = some 1

limit_parsed : parse_limit one ≡ ok 1
unfolding parse_limit
limit_parsed = refl

any_type : optional_content_type none ≡ ok none
unfolding optional_content_type
any_type = refl

walk-user_like_rows_example :
    walk unary plain postgres alice one none 3 none (steady listing_world) ≡ (
      ok (map (item plain postgres) (user_like_rows postgres stored two_a none none)),
      steady listing_world,
    )
unfolding of_user newer comes_after past_cursor user_like_rows order_by place text_eqb show_user_id
walk-user_like_rows_example =
    walk-user_like_rows unary plain postgres alice one none plain-Base64Laws postgres-PostgresLaws
      postgres-TimeLaws two 1 none listing_world alice_parsed limit_parsed any_type
      ((inr refl, tt), (tt, tt)) ((λ e. cc), ((λ e. cc), tt)) 3 (ltb→lt 2 3 refl)

abbrev first_page : UserLikesQuery
first_page = record { limit = one; cursor = none; content_type = none }

-- `x` is no time.
abbrev bad_page : UserLikesQuery
bad_page = record { limit = one; cursor = some (b'x' ∷ b'|' ∷ b'a' ∷ []); content_type = none }

bad_cursor :
    optional_cursor plain bad_page.cursor
    ≡ ok (some (record { liked_at = b'x' ∷ []; content_id = b'a' ∷ [] }))
unfolding optional_cursor decode_cursor split_once
bad_cursor = refl

list_user_likes-500_example :
    (response : Response) × ((list_user_likes unary plain postgres {E = AppError} alice bad_page
        listing_world).0
      ≡ ok response)
    × (response.status ≡ 500)
list_user_likes-500_example =
    list_user_likes-500 unary plain postgres alice bad_page two 1 none
      (record { liked_at = b'x' ∷ []; content_id = b'a' ∷ [] }) alice_parsed limit_parsed any_type
      bad_cursor refl listing_world
