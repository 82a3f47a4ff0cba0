-- ===== src/Repository.antt =====
-- PostgresLikesRepository, src/storage/likes_repository.rs: its transactions and queries as actions.
-- A statement outside a transaction is one step. A transaction works on a draft of the tables, which
-- its commit puts in place; the rows that it writes are locked until then, so no other transaction
-- comes in between. `to_char` is Postgres' rendering of a time.
pub mod Steps
pub mod Insertion
pub mod Deletion
pub mod Reads
pub mod Histories
pub mod Listing
mod Tests
use likes_service.Common.{
  ℕ, zero, suc, ◌+◌, ◌/◌, ◌≤◌, ◌<◌, ◌≡◌, Bool, true, false, List, [], ◌∷◌, Text, text, Option, none,
  some, map, nat_eqb, if◌then◌else◌, text_eq, pair_eq,
}
use likes_service.Common.Maps.{Map, get, insert}
use likes_service.Common.Results.{Result, ok, err}
use likes_service.Error.{AppError, database}
use likes_service.Storage.{
  Database, LikeKey, ContentKey, insert_like_row, increment_like_count, increment_hourly_count,
  delete_like_row, decrement_like_count, decrement_hourly_count, count_at,
}
use likes_service.Effects.{
  World, Exec, Outcome, done, failed, unacknowledged, pure, raise, gets, modify, ◌>>=◌, ◌>>◌,
  db_outcome, read_clock,
}

pub data InsertLikeResult : Type 0 where
  inserted already_exists : InsertLikeResult

pub data DeleteLikeResult : Type 0 where
  deleted not_found : DeleteLikeResult

pub record LikeStatus : Type 0 where
  pub exists : Bool
  pub liked_at : Option Text

pub record LikeCount : Type 0 where
  pub count : ℕ

-- The pool that the repository is made with.
pub data Pool : Type 0 where
  primary replica : Pool

abbrev pub tables : Pool → World → Database
tables primary w = w.db
tables replica w = w.read_db

abbrev put_tables : Pool → Database → World → World
put_tables primary d w = record w { db = d }
put_tables replica d w = record w { read_db = d }

answer : Outcome → Exec AppError Unit
answer done = pure tt
answer (failed e) = raise (database e)
answer (unacknowledged e) = raise (database e)

-- A statement whose effect is only on a draft, or that only reads.
unfoldable pub query : Exec AppError Unit
unfolding answer
query = do o ← db_outcome; answer o

-- COMMIT, which may also be done with its reply lost.
committed : Pool → Database → Outcome → Exec AppError Unit
committed pool d done = modify (put_tables pool d)
committed pool d (failed e) = raise (database e)
committed pool d (unacknowledged e) = do modify (put_tables pool d); raise (database e)

unfoldable pub commit : Pool → Database → Exec AppError Unit
unfolding committed
commit pool d = do o ← db_outcome; committed pool d o

-- A statement that may leave BIGINT's range.
unfoldable pub in_range : Option Database → Exec AppError Database
in_range (some d) = pure d
in_range none = raise (database (text "bigint out of range"))

unfoldable pub count_inserted : Pool → LikeKey → ℕ → ℕ × Database → Exec AppError InsertLikeResult
count_inserted pool k now (affected, d₁) =
    if nat_eqb affected 1
    then (do
      query
      d₂ ← in_range (increment_like_count d₁ k.1)
      query
      d₃ ← in_range (increment_hourly_count d₂ now k.1)
      commit pool d₃
      pure inserted)
    else (do commit pool d₁; pure already_exists)

-- NOW() is the time at which the transaction began.
unfoldable pub insert_like : Pool → LikeKey → Exec AppError InsertLikeResult
insert_like pool k = do
  query
  began ← read_clock
  query
  d ← gets (tables pool)
  count_inserted pool k (began / 1000) (insert_like_row d k (began / 1000))

unfoldable pub count_deleted : Pool → LikeKey → Option ℕ × Database → Exec AppError DeleteLikeResult
count_deleted pool k (some bucket_start, d₁) = do
  query
  let d₂ = decrement_like_count d₁ k.1
  query
  let d₃ = decrement_hourly_count d₂ bucket_start k.1
  commit pool d₃
  pure deleted
count_deleted pool k (none, d₁) = do commit pool d₁; pure not_found

unfoldable pub delete_like : Pool → LikeKey → Exec AppError DeleteLikeResult
delete_like pool k = do
  query
  query
  d ← gets (tables pool)
  count_deleted pool k (delete_like_row d k)

unfoldable pub status_of : Option Text → LikeStatus
status_of none = record { exists = false; liked_at = none }
status_of (some t) = record { exists = true; liked_at = some t }

abbrev pub option_map : {A B : Type 0} → (A → B) → Option A → Option B
option_map f none = none
option_map f (some a) = some (f a)

unfoldable pub get_like_status : (ℕ → Text) → Pool → LikeKey → Exec AppError LikeStatus
get_like_status to_char pool k = do
  query
  d ← gets (tables pool)
  pure (status_of (option_map to_char (get d.likes k)))

unfoldable pub get_like_count : Pool → ContentKey → Exec AppError LikeCount
get_like_count pool c = do
  query
  d ← gets (tables pool)
  pure (record { count = count_at d.like_counts c })

-- The rows of the left join, collected into a `HashMap`: the last row of a key wins.
unfoldable pub collect :
    {V : Type 0} → (ContentKey → V) → List ContentKey → Map ContentKey V → Map ContentKey V
collect row [] m = m
collect row (c ∷ cs) m = collect row cs (insert m c (row c))

unfoldable pub get_like_counts_batch : Pool → List ContentKey → Exec AppError (Map ContentKey ℕ)
get_like_counts_batch pool [] = pure []
get_like_counts_batch pool (c ∷ cs) = do
  query
  d ← gets (tables pool)
  pure (collect (count_at d.like_counts) (c ∷ cs) [])

unfoldable pub get_like_statuses_batch :
    (ℕ → Text) → Pool → Text → List ContentKey → Exec AppError (Map ContentKey LikeStatus)
get_like_statuses_batch to_char pool user_id [] = pure []
get_like_statuses_batch to_char pool user_id (c ∷ cs) = do
  query
  d ← gets (tables pool)
  pure (collect (λ k. status_of (option_map to_char (get d.likes (user_id, k)))) (c ∷ cs) [])
