-- ===== src/Grpc/Messages.antt =====
-- The messages of the gRPC service, as the build generates them from proto/likes.proto.
use likes_service.Common.{ℕ, Bool, List, Text, Option}
use likes_service.Common.Int.{ℤ}

-- Also UnlikeRequest and GetLikeStatusRequest, which have the same fields.
pub record LikeRequest : Type 0 where
  pub session_token : Text
  pub content_type : Text
  pub content_id : Text

pub record LikeResponse : Type 0 where
  pub liked : Bool
  pub already_existed : Bool
  pub count : ℕ
  pub liked_at : Option Text

pub record UnlikeResponse : Type 0 where
  pub liked : Bool
  pub was_liked : Bool
  pub count : ℕ

pub record ContentRef : Type 0 where
  pub content_type : Text
  pub content_id : Text

-- Also BatchLikeCountItem.
pub record GetLikeCountResponse : Type 0 where
  pub content_type : Text
  pub content_id : Text
  pub count : ℕ

pub record GetLikeStatusResponse : Type 0 where
  pub liked : Bool
  pub liked_at : Option Text

pub record GetUserLikesRequest : Type 0 where
  pub session_token : Text
  pub content_type : Option Text
  pub cursor : Option Text
  pub limit : Option ℕ

pub record UserLikeItem : Type 0 where
  pub content_type : Text
  pub content_id : Text
  pub liked_at : Text

pub record GetUserLikesResponse : Type 0 where
  pub items : List UserLikeItem
  pub next_cursor : Option Text
  pub has_more : Bool

pub record BatchLikeStatusItem : Type 0 where
  pub content_type : Text
  pub content_id : Text
  pub liked : Bool
  pub liked_at : Option Text

pub record BatchGetLikeStatusesRequest : Type 0 where
  pub session_token : Text
  pub items : List ContentRef

pub record GetTopLikesRequest : Type 0 where
  pub content_type : Option Text
  pub window : ℤ
  pub limit : Option ℕ

pub record TopLikeItem : Type 0 where
  pub content_type : Text
  pub content_id : Text
  pub count : ℕ

pub record GetTopLikesResponse : Type 0 where
  pub window : ℤ
  pub content_type : Option Text
  pub items : List TopLikeItem
