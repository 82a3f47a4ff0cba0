-- ===== src/Repository/Listing/Ranking.antt =====
-- list_top_likes and its windows, src/storage/likes_repository.rs. A sum above BIGINT's range is an
-- error of the cast to `bigint`.
pub mod Totals
pub mod Windows
pub mod Exact
pub mod Answers
use likes_service.Common.{
  ℕ, ◌+◌, ◌-◌, ◌/◌, ◌≡◌, Bool, true, false, ◌&&◌, ◌||◌, List, [], ◌∷◌, Text, text, Option, none,
  some, map, ltb, leb, nat_eqb, text_eqb, select, take, trim, to_ascii_lowercase, if◌then◌else◌,
  text_eq, pair_eq, Eq,
}
use likes_service.Common.Maps.{Map, insert}
use likes_service.Common.Results.{Result, ok, err}
use likes_service.Error.{AppError, database, invalid_request}
use likes_service.Storage.{Database, ContentKey, BucketKey, count_at, i64_max}
use likes_service.Storage.Ordering.{order_by}
use likes_service.Effects.{Exec, pure, lift, gets, ◌>>=◌, ◌>>◌, read_clock}
use likes_service.Repository.{Pool, tables, query}
use likes_service.Repository.Listing.{PostgresApi}

pub record TopLikeRow : Type 0 where
  pub content_type : Text
  pub content_id : Text
  pub like_count : ℕ

pub data TopLikesWindow : Type 0 where
  last_24_hours last_7_days last_30_days all : TopLikesWindow

unfoldable pub as_str : TopLikesWindow → Text
as_str last_24_hours = text "24h"
as_str last_7_days = text "7d"
as_str last_30_days = text "30d"
as_str all = text "all"

unfoldable pub as_interval : TopLikesWindow → Option Text
as_interval last_24_hours = some (text "24 hours")
as_interval last_7_days = some (text "7 days")
as_interval last_30_days = some (text "30 days")
as_interval all = none

-- The arms of `match` in their order.
window_of : Text → Result AppError TopLikesWindow
window_of value =
    if text_eqb value (text "24h")
    then ok last_24_hours
    else if text_eqb value (text "7d")
    then ok last_7_days
    else if text_eqb value (text "30d")
    then ok last_30_days
    else if text_eqb value (text "all")
    then ok all
    else err
        (invalid_request (text "INVALID_WINDOW") (text "window must be one of: 24h, 7d, 30d, all"))

-- impl FromStr for TopLikesWindow
unfoldable pub parse_window : Text → Result AppError TopLikesWindow
unfolding window_of
parse_window value = window_of (map to_ascii_lowercase (trim value))

-- A row of `like_counts`, or a group of `like_hourly_counts`.
abbrev pub CountRow : Type 0
CountRow = ContentKey × ℕ

-- like_count > 0 AND ($1 IS NULL OR content_type = $1)
unfoldable pub of_type : Option Text → CountRow → Bool
of_type none (c, n) = ltb 0 n
of_type (some wanted) ((content_type, content_id), n) = ltb 0 n && text_eqb content_type wanted

-- GROUP BY content_type, content_id, with SUM(like_count), of the hours from `cutoff` on.
unfoldable pub window_sums : ℕ → Option Text → Map BucketKey ℕ → Map ContentKey ℕ
unfolding of_type count_at insert
window_sums cutoff wanted [] = []
window_sums cutoff wanted (((bucket_start, c), n) ∷ rows) =
    let sums = window_sums cutoff wanted rows in
    if of_type wanted (c, n) && leb cutoff bucket_start
    then insert sums c (count_at sums c + n)
    else sums

abbrev fits_bigint : Map ContentKey ℕ → Bool
fits_bigint [] = true
fits_bigint ((c, n) ∷ rows) = leb n i64_max && fits_bigint rows

-- The cast of every sum.
in_bigint : Map ContentKey ℕ → Result AppError (Map ContentKey ℕ)
in_bigint sums = if fits_bigint sums then ok sums else err (database (text "bigint out of range"))

module _ (pg : PostgresApi) where
  -- ORDER BY like_count DESC, content_type DESC, content_id DESC
  unfoldable pub ranks_before : CountRow → CountRow → Bool
  ranks_before ((content_type, content_id), n) ((content_type', content_id'), n') =
      ltb n' n
      || nat_eqb n' n
        && (pg.text_lt content_type' content_type
            || text_eqb content_type' content_type && pg.text_lt content_id' content_id)

  unfoldable pub top_row : CountRow → TopLikeRow
  top_row ((content_type, content_id), n) = record {
    content_type = content_type;
    content_id = content_id;
    like_count = n;
  }

  -- The end of both statements: the rows in order, as many as asked for.
  unfoldable pub ranked : ℕ → List CountRow → List TopLikeRow
  unfolding ranks_before top_row order_by
  ranked limit rows = map top_row (take limit (order_by ranks_before rows))

  counted_rows : Database → Option Text → ℕ → Option Text → Result AppError (List CountRow)
  unfolding window_sums in_bigint of_type
  counted_rows d wanted now none = ok (select (of_type wanted) d.like_counts)
  counted_rows d wanted now (some i) =
      in_bigint (window_sums (now - pg.interval i) wanted d.like_hourly_counts)

  -- `expect` finds an interval, since only the window `all` has none. A sum of counts that are above
  -- 0 is above 0, so HAVING drops no group.
  unfoldable pub list_top_likes :
      Pool → Option Text → TopLikesWindow → ℕ → Exec AppError (List TopLikeRow)
  unfolding as_interval ranked counted_rows
  list_top_likes pool wanted window limit = do
    now ← read_clock
    query
    d ← gets (tables pool)
    rows ← lift (counted_rows d wanted (now / 1000) (as_interval window))
    pure (ranked limit rows)
