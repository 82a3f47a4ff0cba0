-- ===== src/Storage.antt =====
-- The tables and the SQL statements of src/storage/likes_repository.rs, with the schema of
-- migrations/*.sql. A table is the association of its primary key with its other column. Times are
-- microseconds since the epoch, in UTC. A count is a natural number, which the tables' CHECK
-- constraints allow and no more; a value above BIGINT's range is an error of the statement.
pub mod Counting
pub mod Ordering
pub mod Consistency
use likes_service.Common.{
  ℕ, ◌+◌, ◌-◌, ◌*◌, ◌/◌, ◌≤◌, ◌<◌, ◌≡◌, Bool, true, false, List, [], ◌∷◌, Text, Option, none, some,
  leb, if◌then◌else◌, text_eq, pair_eq, nat_eq, Eq,
}
use likes_service.Common.Maps.{Map, get, insert, remove}

-- (content_type, content_id)
abbrev pub ContentKey : Type 0
ContentKey = Text × Text

-- (user_id, (content_type, content_id))
abbrev pub LikeKey : Type 0
LikeKey = Text × ContentKey

-- (bucket_start, (content_type, content_id))
abbrev pub BucketKey : Type 0
BucketKey = ℕ × ContentKey

pub record Database : Type 0 where
  pub likes : Map LikeKey ℕ
  pub like_counts : Map ContentKey ℕ
  pub like_hourly_counts : Map BucketKey ℕ

abbrev pub empty_database : Database
empty_database = record { likes = []; like_counts = []; like_hourly_counts = [] }

abbrev pub i64_max : ℕ
i64_max = 9223372036854775807

abbrev pub micros_per_hour : ℕ
micros_per_hour = 3600000000

-- date_trunc('hour', t)
unfoldable pub bucket_of : ℕ → ℕ
bucket_of t = t / micros_per_hour * micros_per_hour

-- INSERT INTO likes ... ON CONFLICT DO NOTHING, with rows_affected.
unfoldable pub insert_like_row : Database → LikeKey → ℕ → ℕ × Database
insert_like_row db k now = elim (get db.likes k) [
  | some t ↦ (0, db)
  | none ↦ (1, record db { likes = insert db.likes k now })
]

module _ {K : Type 0} ⦃e : Eq K⦄ where
  -- INSERT ... VALUES (..., 1) ON CONFLICT DO UPDATE SET like_count = like_count + 1
  unfoldable pub add_one : Map K ℕ → K → Option (Map K ℕ)
  add_one m k = elim (get m k) [
    | none ↦ some (insert m k 1)
    | some n ↦ if leb i64_max n then none else some (insert m k (n + 1))
  ]

  -- INSERT ... VALUES (..., 0) ON CONFLICT DO UPDATE SET like_count = GREATEST(like_count - 1, 0)
  unfoldable pub take_one : Map K ℕ → K → Map K ℕ
  take_one m k = elim (get m k) [ none ↦ insert m k 0 | some n ↦ insert m k (n - 1) ]

  -- The counter of a key, 0 where there is no row: `fetch_optional` and `unwrap_or(0)`.
  unfoldable pub count_at : Map K ℕ → K → ℕ
  count_at m k = elim (get m k) [ none ↦ 0 | some n ↦ n ]

abbrev set_like_counts : Database → Option (Map ContentKey ℕ) → Option Database
set_like_counts db none = none
set_like_counts db (some m) = some (record db { like_counts = m })

abbrev set_hourly : Database → Option (Map BucketKey ℕ) → Option Database
set_hourly db none = none
set_hourly db (some m) = some (record db { like_hourly_counts = m })

-- The second and third statement of `insert_like`; `none` is "bigint out of range".
unfoldable pub increment_like_count : Database → ContentKey → Option Database
unfolding add_one
increment_like_count db c = set_like_counts db (add_one db.like_counts c)

unfoldable pub increment_hourly_count : Database → ℕ → ContentKey → Option Database
unfolding add_one
increment_hourly_count db now c = set_hourly db (add_one db.like_hourly_counts (bucket_of now, c))

-- DELETE FROM likes ... RETURNING date_trunc('hour', liked_at). The bucket goes through its text
-- form, which Postgres reads back as the same time.
unfoldable pub delete_like_row : Database → LikeKey → Option ℕ × Database
delete_like_row db k = elim (get db.likes k) [
  | some liked_at ↦ (some (bucket_of liked_at), record db { likes = remove db.likes k })
  | none ↦ (none, db)
]

unfoldable pub decrement_like_count : Database → ContentKey → Database
unfolding take_one
decrement_like_count db c = record db { like_counts = take_one db.like_counts c }

unfoldable pub decrement_hourly_count : Database → ℕ → ContentKey → Database
unfolding take_one
decrement_hourly_count db bucket_start c = record db {
  like_hourly_counts = take_one db.like_hourly_counts (bucket_start, c);
}
