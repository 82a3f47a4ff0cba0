-- ===== src/Grpc/Batches.antt =====
-- What a batch of counts answers over gRPC.
use likes_service.Common.{ℕ, ◌≡◌, true, List, Text, none, some, if◌then◌else◌, text_eq, pair_eq}
use likes_service.Common.Maps.{Map, get}
use likes_service.Common.Results.{Result, ok}
use likes_service.Storage.{ContentKey}
use likes_service.Effects.{World}
use likes_service.Error.{AppError}
use likes_service.Grpc.Messages.{ContentRef, GetLikeCountResponse}
use likes_service.Grpc.Requests.{parse_content_refs}
use likes_service.Http.Likes.{Handlers}
use likes_service.Repository.{replica, get_like_counts_batch}
use likes_service.Repository.Reads.{requested}

-- The answer for a content with `n` likes.
abbrev pub counted : (ContentKey → ℕ) → ContentKey → GetLikeCountResponse
counted likes c = record { content_type = c.0; content_id = c.1; count = likes c }

module _ (likes : ContentKey → ℕ) (counts : Map ContentKey ℕ) (all_items : List ContentKey)
    (exact : (c : ContentKey)
      → get counts c ≡ (if requested all_items c then some (likes c) else none)) where
  -- Every item that is asked for is among those that are asked for.
  Among : List ContentKey → Type 0
  Among items = (c : ContentKey) → requested items c ≡ true → requested all_items c ≡ true

module _ (h : Handlers) (base_url : Text) (refs : List ContentRef) (items : List ContentKey)
    (parsed : parse_content_refs h.uuid refs ≡ ok items) where
  abbrev pub answer : World → Result AppError (Map ContentKey ℕ)
  answer w = (get_like_counts_batch replica items w).0
