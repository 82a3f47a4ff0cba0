-- ===== src/Repository/Listing/Tests.antt =====
-- A ranking of a concrete database.
use likes_service.Common.{[], ◌∷◌, text_eq, pair_eq, nat_eq}
use likes_service.Storage.{Database, ContentKey, LikeKey}
use likes_service.Effects.{World}
use likes_service.Effects.Examples.{quiet_world}

abbrev content : ContentKey
content = (b'p' ∷ [], b'c' ∷ [])

abbrev ann : LikeKey
ann = (b'a' ∷ [], content)

abbrev bob : LikeKey
bob = (b'b' ∷ [], content)

abbrev one_like : Database
one_like = record {
  likes = (ann, 0) ∷ [];
  like_counts = (content, 1) ∷ [];
  like_hourly_counts = ((0, content), 1) ∷ [];
}

abbrev two_likes : Database
two_likes = record {
  likes = (bob, 5) ∷ (ann, 0) ∷ [];
  like_counts = (content, 2) ∷ [];
  like_hourly_counts = ((0, content), 2) ∷ [];
}

abbrev liked_world : World
liked_world = record quiet_world { read_db = two_likes }
