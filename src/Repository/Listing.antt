-- ===== src/Repository/Listing.antt =====
-- The list queries of src/storage/likes_repository.rs: a user's likes, a page at a time, and the most
-- liked contents. What Postgres does with texts and times is a parameter.
mod Tests
pub mod Ranking
pub mod Pages
use likes_service.Common.{
  ℕ, Bool, true, false, ◌&&◌, ◌||◌, List, [], ◌∷◌, Text, text, Option, none, some, map, ltb,
  nat_eqb, text_eqb, select, take, ◌≡◌,
}
use likes_service.Common.Maps.{Map}
use likes_service.Common.Results.{Result, ok, err}
use likes_service.Error.{AppError, database}
use likes_service.Storage.{Database, LikeKey}
use likes_service.Storage.Ordering.{order_by}
use likes_service.Effects.{Exec, pure, lift, gets, ◌>>=◌, ◌>>◌}
use likes_service.Helpers.{UserLikeRow, LikesCursor}
use likes_service.Repository.{Pool, tables, query}

-- Postgres' own part: the order of texts, the rendering of a time by `to_char`, and the casts
-- `::timestamptz`, which fails on a text that is no time, and `::interval`, in microseconds.
pub record PostgresApi : Type 0 where
  pub text_lt : Text → Text → Bool
  pub to_char : ℕ → Text
  pub timestamptz : Text → Option ℕ
  pub interval : Text → ℕ

-- The order of texts is a strict total order.
pub record PostgresLaws (pg : PostgresApi) : Type 0 where
  pub irrefl : (s : Text) → pg.text_lt s s ≡ false
  pub trans : (s t u : Text) → pg.text_lt s t ≡ true → pg.text_lt t u ≡ true → pg.text_lt s u ≡ true
  pub total : (s t : Text) → pg.text_lt s t ≡ false → pg.text_lt t s ≡ false → s ≡ t

-- A row of `likes`.
abbrev pub LikeRow : Type 0
LikeRow = LikeKey × ℕ

-- (liked_at, content_id)
abbrev pub SortKey : Type 0
SortKey = ℕ × Text

abbrev pub sort_key : LikeRow → SortKey
sort_key ((user_id, (content_type, content_id)), liked_at) = (liked_at, content_id)

-- user_id = $1 [AND content_type = $2]
unfoldable pub of_user : Text → Option Text → LikeRow → Bool
of_user user none ((user_id, (content_type, content_id)), liked_at) = text_eqb user_id user
of_user user (some wanted) ((user_id, (content_type, content_id)), liked_at) =
    text_eqb user_id user && text_eqb content_type wanted

module _ (pg : PostgresApi) where
  -- liked_at < t OR (liked_at = t AND content_id < c)
  unfoldable pub comes_after : SortKey → SortKey → Bool
  comes_after (t, c) (liked_at, content_id) =
      ltb liked_at t || nat_eqb liked_at t && pg.text_lt content_id c

  -- ORDER BY liked_at DESC, content_id DESC
  unfoldable pub newer : LikeRow → LikeRow → Bool
  unfolding comes_after
  newer r s = comes_after (sort_key r) (sort_key s)

  unfoldable pub past_cursor : Option SortKey → LikeRow → Bool
  unfolding comes_after
  past_cursor none r = true
  past_cursor (some k) r = comes_after k (sort_key r)

  -- The rows of the statement, without LIMIT.
  unfoldable pub user_like_rows : Map LikeKey ℕ → Text → Option Text → Option SortKey → List LikeRow
  unfolding newer past_cursor of_user order_by
  user_like_rows likes user wanted k =
      order_by newer (select (λ r. of_user user wanted r && past_cursor k r) likes)

  unfoldable pub shown_row : LikeRow → UserLikeRow
  shown_row ((user_id, (content_type, content_id)), liked_at) = record {
    content_type = content_type;
    content_id = content_id;
    liked_at = pg.to_char liked_at;
  }

  cast_time : Text → Option ℕ → Result AppError (Option SortKey)
  cast_time content_id none =
      err (database (text "invalid input syntax for type timestamp with time zone"))
  cast_time content_id (some t) = ok (some (t, content_id))

  -- The bound cursor, its time cast.
  unfoldable pub cursor_key : Option LikesCursor → Result AppError (Option SortKey)
  unfolding cast_time
  cursor_key none = ok none
  cursor_key (some cursor) = cast_time cursor.content_id (pg.timestamptz cursor.liked_at)

  unfoldable pub list_user_likes :
      Pool → Text → Option Text → Option LikesCursor → ℕ → Exec AppError (List UserLikeRow)
  unfolding user_like_rows shown_row cursor_key
  list_user_likes pool user wanted cursor limit = do
    query
    k ← lift (cursor_key cursor)
    d ← gets (tables pool)
    pure (map shown_row (take limit (user_like_rows d.likes user wanted k)))
