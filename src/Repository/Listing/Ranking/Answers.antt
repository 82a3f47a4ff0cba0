-- ===== src/Repository/Listing/Ranking/Answers.antt =====
-- list_top_likes, whatever the database answers.
use likes_service.Common.{
  ℕ, ◌-◌, ◌/◌, ◌≤◌, ◌≡◌, ◌⊎◌, List, Text, Option, none, some, length, if◌then◌else◌, text_eq,
  pair_eq, nat_eq,
}
use likes_service.Common.Maps.{get}
use likes_service.Common.Results.{Result, ok, err}
use likes_service.Error.{AppError, database}
use likes_service.Storage.{Database, ContentKey, i64_max}
use likes_service.Storage.Counting.{IsKeyed, count_rows}
use likes_service.Storage.Consistency.{IsConsistent, likes_of}
use likes_service.Effects.{World, after_reading}
use likes_service.Repository.{Pool, tables}
use likes_service.Repository.Listing.{PostgresApi, PostgresLaws}
use likes_service.Repository.Listing.Ranking.{
  CountRow, TopLikeRow, TopLikesWindow, as_interval, counted_rows,
}
use likes_service.Repository.Listing.Ranking.Totals.{wanted_type, if_some}
use likes_service.Repository.Listing.Ranking.Windows.{in_hours}
use likes_service.Repository.Listing.Ranking.Exact.{IsRanking}

-- The tables' primary keys, and fewer likes than a BIGINT counts.
pub record IsStored (d : Database) : Type 0 where
  pub consistent : IsConsistent d
  pub totals_keyed : IsKeyed d.like_counts
  pub hours_keyed : IsKeyed d.like_hourly_counts
  pub countable : length d.likes ≤ i64_max

-- The score of a content in an interval that ends `now`: the likes of the hours that begin in it.
pub score_in : PostgresApi → Database → ℕ → Option Text → ContentKey → ℕ
score_in pg d now none c = likes_of d c
score_in pg d now (some i) c = count_rows (in_hours (now - pg.interval i) c) d.likes

module _ (pg : PostgresApi) where
  AreCounted : Database → Option Text → ℕ → Option Text → List CountRow → Type 0
  AreCounted d wanted now i rows =
      (counted_rows pg d wanted now i ≡ ok rows)
      × IsKeyed rows
      × ((c : ContentKey)
          → get rows c ≡ (if wanted_type wanted c then if_some (score_in pg d now i c) else none))

  -- The time of the statement, and the contents' scores then.
  abbrev pub statement_time : World → ℕ
  statement_time w = (after_reading w.elapses w).0 / 1000

  abbrev pub score_at : Pool → TopLikesWindow → World → ContentKey → ℕ
  score_at pool window w = score_in pg (tables pool w) (statement_time w) (as_interval window)

  module _ (laws : PostgresLaws pg) (pool : Pool) (wanted : Option Text) (window : TopLikesWindow)
      (limit : ℕ) where
    abbrev pub Ranks : World → Result AppError (List TopLikeRow) × World → Type 0
    Ranks w x =
        ((rows : List TopLikeRow) × (x.0 ≡ ok rows)
          × IsRanking pg laws limit wanted (score_at pool window w) rows)
        ⊎ ((e : Text) × (x.0 ≡ err (database e)))
