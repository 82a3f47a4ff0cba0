-- ===== src/Http/Likes/Answers.antt =====
-- What the answers of the like handlers say, whatever fails.
use likes_service.Common.{if◌then◌else◌, ◌≡◌, refl, sym, subst, ◌⊎◌, inl, inr, Text}
use likes_service.Common.Results.{Result, ok}
use likes_service.Domain.{UserId, show_user_id}
use likes_service.Error.{AppError}
use likes_service.Storage.{ContentKey, LikeKey}
use likes_service.Storage.Consistency.{IsConsistent}
use likes_service.Effects.{World, Exec, pure, ◌>>=◌, ◌>>◌}
use likes_service.Http.{Response, respond, into_response, success, like_body, unlike_body}
use likes_service.Http.Likes.{
  Handlers, CreateLikeRequest, after_like, created, like_response, create_like, after_unlike,
  unlike_response, delete_like,
}
use likes_service.Http.Likes.Frame.{
  after_like-Keeps, after_like-Returns, after_unlike-Keeps, after_unlike-Returns,
}
use likes_service.Http.Requests.{
  parse_authenticated_user_id, content_type_of, content_id_of, respond_with,
}
use likes_service.Http.Requests.Finishing.{respond_with-Finished}
use likes_service.Integrations.ProfileApi.{AuthenticatedUser}
use likes_service.UseCases.{LikeContentResult, UnlikeContentResult, like_content, unlike_content}
use likes_service.UseCases.Liking.{Liked, like_content-Liked}
use likes_service.UseCases.Unliking.{Unliked, unlike_content-Unliked}
use likes_service.UseCases.Consistency.{use_cases-IsConsistent}

module _ (h : Handlers) (user : AuthenticatedUser) (user_id : UserId)
    (content_type content_id : Text) (path_type path_id : Text)
    (parsed_user : parse_authenticated_user_id h.uuid user ≡ ok user_id)
    (parsed_type : content_type_of path_type ≡ ok content_type)
    (parsed_id : content_id_of h.uuid path_id ≡ ok content_id) where
  abbrev content : ContentKey
  content = (content_type, content_id)

  -- The like that a request is about.
  abbrev like : LikeKey
  like = (show_user_id h.uuid user_id, content)

  abbrev request : CreateLikeRequest
  request = record { content_type = path_type; content_id = path_id }

  abbrev liking : Exec AppError LikeContentResult
  liking =
      like_content h.show_status h.to_char h.validations h.client h.cache_ttl_like_counts_seconds
        like

  create_like-run :
      create_like h {E = AppError} user request
      ≡ respond_with
          (liking >>= λ result. after_like h user_id content result >> pure (created h result))
  unfolding create_like ◌>>=◌
  create_like-run = rw (parsed_user, parsed_type, parsed_id) refl

  -- 200 for a like that was there and 201 for a new one, with what liking has found out.
  abbrev pub like_answer : LikeContentResult → Response
  like_answer result = respond (if result.already_existed then 200 else 201) (
      like_body (record {
        liked = result.liked;
        already_existed = result.already_existed;
        count = result.count;
        liked_at = result.liked_at;
      }))

  -- The answer to a request to like a content whose parameters are accepted, and the tables after it.
  abbrev pub Answers-like : World → Result AppError Response × World → Type 0
  Answers-like w x =
      IsConsistent x.1.db
      × (((result : LikeContentResult) × Liked h.to_char like w.db result x.1.db
            × (x.0 ≡ ok (like_answer result)))
          ⊎ ((e : AppError) × (x.0 ≡ ok (into_response e))))

  -- A request to like a content, on exact counters and whatever fails: it is answered by 201 if the like
  -- is new and by 200 if it was there, with the row's time and the exact number of likes of the tables
  -- then, or by an error; the counters stay exact.
  pub create_like-Answers :
      (w : World) → IsConsistent w.db → Answers-like w (create_like h user request w)
  unfolding created like_response
  create_like-Answers w v = rw create_like-run (
      let (outcome, same) =
        respond_with-Finished (created h) (after_like h user_id content)
          (after_like-Returns h user_id content) (λ a d. after_like-Keeps h user_id content a)
          liking w in
      (
        subst IsConsistent (sym same) (
            (use_cases-IsConsistent h.show_status h.to_char h.validations h.client
              h.cache_ttl_like_counts_seconds like w v).0),
        elim outcome [
          | inl (result, e, answer) ↦ inl (
            result,
            subst (Liked h.to_char like w.db result) (sym same) (
                like_content-Liked h.show_status h.to_char h.validations h.client
                  h.cache_ttl_like_counts_seconds like w result v e),
            answer,
          )
          | inr (e, failed, answer) ↦ inr (e, answer)
        ],
      ))

  abbrev unliking : Exec AppError UnlikeContentResult
  unliking =
      unlike_content h.show_status h.to_char h.validations h.client h.cache_ttl_like_counts_seconds
        like

  abbrev deleted : UnlikeContentResult → Response
  deleted result = success (unlike_body (unlike_response result))

  delete_like-run :
      delete_like h {E = AppError} user path_type path_id
      ≡ respond_with
          (unliking >>= λ result. after_unlike h user_id content result >> pure (deleted result))
  unfolding delete_like ◌>>=◌
  delete_like-run = rw (parsed_user, parsed_type, parsed_id) refl

  -- 200 with what unliking has found out.
  abbrev pub unlike_answer : UnlikeContentResult → Response
  unlike_answer result = respond 200 (
      unlike_body
        (record { liked = result.liked; was_liked = result.was_liked; count = result.count }))

  abbrev pub Answers-unlike : World → Result AppError Response × World → Type 0
  Answers-unlike w x =
      IsConsistent x.1.db
      × (((result : UnlikeContentResult) × Unliked like w.db result x.1.db
            × (x.0 ≡ ok (unlike_answer result)))
          ⊎ ((e : AppError) × (x.0 ≡ ok (into_response e))))

  -- A request to take a like back, on exact counters and whatever fails: it is answered by 200 with
  -- the exact number of likes of the tables then, when the row is gone, and whether it was there, or by
  -- an error; the counters stay exact.
  pub delete_like-Answers :
      (w : World) → IsConsistent w.db → Answers-unlike w (delete_like h user path_type path_id w)
  unfolding success unlike_response
  delete_like-Answers w v = rw delete_like-run (
      let (outcome, same) =
        respond_with-Finished deleted (after_unlike h user_id content)
          (after_unlike-Returns h user_id content) (λ a d. after_unlike-Keeps h user_id content a)
          unliking w in
      (
        subst IsConsistent (sym same) (
            (use_cases-IsConsistent h.show_status h.to_char h.validations h.client
              h.cache_ttl_like_counts_seconds like w v).1),
        elim outcome [
          | inl (result, e, answer) ↦ inl (
            result,
            subst (Unliked like w.db result) (sym same) (
                unlike_content-Unliked h.show_status h.to_char h.validations h.client
                  h.cache_ttl_like_counts_seconds like w result v e),
            answer,
          )
          | inr (e, failed, answer) ↦ inr (e, answer)
        ],
      ))
