-- ===== src/Http/Counts/Answers.antt =====
-- What the answer to a request for a count says, whatever fails.
use likes_service.Common.{
  ℕ, ◌≡◌, ◌↔◌, Bool-cases, Lacks, arith, refl, ◌⊎◌, inl, inr, ◌∷◌, Text, text, Option, some,
  text_eq,
}
use likes_service.Common.Int.{ℤ, pos}
use likes_service.Common.Results.{Result, ok, err}
use likes_service.AppState.Fills.{with_fill}
use likes_service.Error.{AppError, database}
use likes_service.Effects.{World, cache_operation}
use likes_service.Effects.Frame.{Frame}
use likes_service.Effects.Returns.{Returns}
use likes_service.Helpers.{count_response_etag, if_none_match_matches}
use likes_service.Helpers.Etags.{if_none_match-count}
use likes_service.Http.{Response, set_header, success}
use likes_service.Http.Caches.{get_cached_like_count}
use likes_service.Http.Counts.{build_count_response, tagged}
use likes_service.Http.Likes.{Handlers}
use likes_service.Repository as Repository
use likes_service.Storage.{Database, ContentKey}
use likes_service.Storage.Consistency.{likes_of}
use likes_service.UseCases.{like_count_cache_key}

module _ (h : Handlers) (c : ContentKey) (if_none_match : Option Text) where
  -- How a fill ends that reads the tables `d`.
  abbrev Fills : Database → Result AppError (Option Response) → Type 0
  Fills d x =
      (x ≡ ok (some (build_count_response c (pos (likes_of d c)) if_none_match)))
      ⊎ ((e : Text) × (x ≡ err (database e)))

  led_world : World → ℕ → World
  led_world w fresh = with_fill (like_count_cache_key c) fresh w

  -- How a request ends: by the cached count, by the tables' one, or by the database's error.
  abbrev pub Counted : World → Result AppError (Option Response) → Type 0
  Counted w x =
      ((n : ℤ) × ((get_cached_like_count (like_count_cache_key c) w).0 ≡ ok (some n))
        × (x ≡ ok (some (build_count_response c n if_none_match))))
      ⊎ Fills w.read_db x

  noted : Text → World → World
  noted result w = record w {
    recorded = cache_operation (text "get_like_count") result ∷ w.recorded;
  }

-- A client that sends back the tag of a count is answered by 304 exactly if the count is still the
-- same, where content type and content id have no comma.
pub not_modified_iff :
    (content_type content_id : Text) (m n : ℤ)
    → Lacks b',' content_type
    → Lacks b',' content_id
    → ((build_count_response
          (content_type, content_id)
          n
          (some (count_response_etag content_type content_id m))).status
        ≡ 304)
      ↔ (m ≡ n)
unfolding build_count_response tagged set_header success
not_modified_iff t i m n ht hi =
    let same = if_none_match-count t i m n ht hi in
    elim (Bool-cases
      (if_none_match_matches (some (count_response_etag t i m)) (count_response_etag t i n))) [
        | inl e ↦ rw e ((λ h. same.0 e), λ h. refl)
        | inr e ↦ rw e ((λ h. absurd (omega (arith, h))), λ h. absurd (cc (same.1 h)))
      ]
