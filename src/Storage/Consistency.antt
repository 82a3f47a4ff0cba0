-- ===== src/Storage/Consistency.antt =====
-- The counter tables against the table of likes.
use likes_service.Common.{
  ℕ, ◌-◌, ◌≡◌, ◌≢◌, refl, Bool, none, some, arith, text_eq, pair_eq, nat_eq, ◌==◌,
}
use likes_service.Common.Maps.{get, get-remove_self, insert, remove}
use likes_service.Storage.{
  Database, LikeKey, ContentKey, BucketKey, empty_database, insert_like_row, increment_like_count,
  increment_hourly_count, delete_like_row, decrement_like_count, decrement_hourly_count, bucket_of,
  count_at, add_one, take_one,
}
use likes_service.Storage.Counting.{
  IsKeyed, count_rows, insert-IsKeyed, remove-IsKeyed, count_rows-insert, count_rows-remove,
  count_at-add_one, count_at-take_one, get-remove_other, get-take_one, get-take_one_other,
}

abbrev pub of_content : ContentKey → LikeKey × ℕ → Bool
of_content c (k, t) = k.1 == c

abbrev pub in_bucket : BucketKey → LikeKey × ℕ → Bool
in_bucket b (k, t) = (bucket_of t, k.1) == b

-- The number of rows of `likes` for a content, and for a content and an hour.
abbrev pub likes_of : Database → ContentKey → ℕ
likes_of db c = count_rows (of_content c) db.likes

abbrev pub likes_in : Database → BucketKey → ℕ
likes_in db b = count_rows (in_bucket b) db.likes

-- Each counter is the number of rows that it stands for, and no like is there twice.
pub record IsConsistent (db : Database) : Type 0 where
  pub keyed : IsKeyed db.likes
  pub totals : (c : ContentKey) → count_at db.like_counts c ≡ likes_of db c
  pub hourly : (b : BucketKey) → count_at db.like_hourly_counts b ≡ likes_in db b

pub empty-IsConsistent : IsConsistent empty_database
unfolding count_at get
empty-IsConsistent = record { keyed = tt; totals = λ c. refl; hourly = λ b. refl }

module _ (db : Database) (k : LikeKey) (now : ℕ) where
  -- The tables after the three statements of an insertion.
  abbrev pub Inserted : Database → Type 0
  Inserted d =
      (d.likes ≡ insert db.likes k now)
      × (add_one db.like_counts k.1 ≡ some d.like_counts)
      × (add_one db.like_hourly_counts (bucket_of now, k.1) ≡ some d.like_hourly_counts)

  pub inserted_lem :
      (d₂ d₃ : Database)
      → get db.likes k ≡ none
      → increment_like_count (insert_like_row db k now).1 k.1 ≡ some d₂
      → increment_hourly_count d₂ now k.1 ≡ some d₃
      → Inserted d₃
  unfolding insert_like_row increment_like_count increment_hourly_count
  inserted_lem d₂ d₃ fresh e₂ e₃ = (ground arith, ground arith, ground arith)

  pub Inserted-IsConsistent :
      (d : Database) → get db.likes k ≡ none → Inserted d → IsConsistent db → IsConsistent d
  Inserted-IsConsistent d fresh (rows, counts, buckets) v = record {
    keyed = rw rows (insert-IsKeyed db.likes k now v.keyed);
    totals = λ c. rw rows (
        ground (
          arith,
          count_at-add_one db.like_counts d.like_counts k.1 c counts,
          count_rows-insert (of_content c) db.likes k now fresh,
          v.totals c,
        ));
    hourly = λ b. rw rows (
        ground (
          arith,
          count_at-add_one db.like_hourly_counts d.like_hourly_counts (bucket_of now, k.1) b
              buckets,
          count_rows-insert (in_bucket b) db.likes k now fresh,
          v.hourly b,
        ));
  }

  -- An insertion of a like that is not there keeps the counters exact.
  pub insert-IsConsistent :
      (d₂ d₃ : Database)
      → get db.likes k ≡ none
      → increment_like_count (insert_like_row db k now).1 k.1 ≡ some d₂
      → increment_hourly_count d₂ now k.1 ≡ some d₃
      → IsConsistent db
      → IsConsistent d₃
  insert-IsConsistent d₂ d₃ fresh e₂ e₃ v =
      Inserted-IsConsistent d₃ fresh (inserted_lem d₂ d₃ fresh e₂ e₃) v

module _ (db : Database) (k : LikeKey) (liked_at : ℕ) where
  abbrev pub after_delete : Database
  after_delete =
      decrement_hourly_count (decrement_like_count (delete_like_row db k).1 k.1)
        (bucket_of liked_at) k.1

  pub likes-after_delete : get db.likes k ≡ some liked_at → after_delete.likes ≡ remove db.likes k
  unfolding delete_like_row decrement_like_count decrement_hourly_count
  likes-after_delete h = ground arith

  like_counts-after_delete :
      get db.likes k ≡ some liked_at → after_delete.like_counts ≡ take_one db.like_counts k.1
  unfolding delete_like_row decrement_like_count decrement_hourly_count
  like_counts-after_delete h = ground arith

  hourly-after_delete :
      get db.likes k ≡ some liked_at
      → after_delete.like_hourly_counts ≡ take_one db.like_hourly_counts (bucket_of liked_at, k.1)
  unfolding delete_like_row decrement_like_count decrement_hourly_count
  hourly-after_delete h = ground arith

  -- The row is gone and no other is; the counters of its content, and of its content and its hour, have
  -- lost one, and no others have.
  pub record Removed (d : Database) : Type 0 where
    pub gone : get d.likes k ≡ none
    pub other_likes : (j : LikeKey) → j ≢ k → get d.likes j ≡ get db.likes j
    pub total : get d.like_counts k.1 ≡ some (count_at db.like_counts k.1 - 1)
    pub other_totals : (c : ContentKey) → c ≢ k.1 → get d.like_counts c ≡ get db.like_counts c
    pub hour :
        get d.like_hourly_counts (bucket_of liked_at, k.1)
        ≡ some (count_at db.like_hourly_counts (bucket_of liked_at, k.1) - 1)
    pub other_hours :
        (b : BucketKey)
        → b ≢ (bucket_of liked_at, k.1)
        → get d.like_hourly_counts b ≡ get db.like_hourly_counts b

  pub after_delete-Removed : get db.likes k ≡ some liked_at → Removed after_delete
  after_delete-Removed h = record {
    gone = rw (likes-after_delete h) (get-remove_self db.likes k);
    other_likes = λ j n. rw (likes-after_delete h) (get-remove_other db.likes k j n);
    total = rw (like_counts-after_delete h) (get-take_one db.like_counts k.1);
    other_totals =
        λ c n. rw (like_counts-after_delete h) (get-take_one_other db.like_counts k.1 c n);
    hour =
        rw (hourly-after_delete h) (get-take_one db.like_hourly_counts (bucket_of liked_at, k.1));
    other_hours = λ b n.
        rw (hourly-after_delete h)
          (get-take_one_other db.like_hourly_counts (bucket_of liked_at, k.1) b n);
  }

  -- A deletion of a like that is there keeps the counters exact.
  pub delete-IsConsistent :
      get db.likes k ≡ some liked_at → IsConsistent db → IsConsistent after_delete
  delete-IsConsistent h v = record {
    keyed = rw (likes-after_delete h) (remove-IsKeyed db.likes k v.keyed);
    totals = λ c.
        rw (likes-after_delete h, like_counts-after_delete h)
          (ground (
            arith,
            count_at-take_one db.like_counts k.1 c,
            count_rows-remove (of_content c) db.likes k liked_at v.keyed h,
            v.totals c,
          ));
    hourly = λ b.
        rw (likes-after_delete h, hourly-after_delete h)
          (ground (
            arith,
            count_at-take_one db.like_hourly_counts (bucket_of liked_at, k.1) b,
            count_rows-remove (in_bucket b) db.likes k liked_at v.keyed h,
            v.hourly b,
          ));
  }
