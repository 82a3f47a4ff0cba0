-- ===== src/Repository/Histories.antt =====
-- The counts after any history of insertions and deletions that begins with empty tables, in
-- src/storage/likes_repository.rs. The primary takes them one after the other, and each may fail at
-- any of its statements.
use likes_service.Common.{◌≡◌, sym, subst, List, [], ◌∷◌}
use likes_service.Storage.{LikeKey, ContentKey, empty_database}
use likes_service.Storage.Consistency.{IsConsistent, empty-IsConsistent, likes_of}
use likes_service.Effects.{World}
use likes_service.Repository.{primary, insert_like, delete_like, get_like_count}
use likes_service.Repository.Insertion.{insert_like-IsConsistent}
use likes_service.Repository.Deletion.{delete_like-IsConsistent}
use likes_service.Repository.Reads.{Answers, get_like_count-exact}

pub data Operation : Type 0 where
  inserts deletes : LikeKey → Operation

abbrev pub operate : Operation → World → World
operate (inserts k) w = (insert_like primary k w).1
operate (deletes k) w = (delete_like primary k w).1

abbrev pub history : List Operation → World → World
history [] w = w
history (o ∷ os) w = history os (operate o w)

operate-IsConsistent :
    (o : Operation) (w : World) → IsConsistent w.db → IsConsistent (operate o w).db
operate-IsConsistent (inserts k) w v = insert_like-IsConsistent k w v
operate-IsConsistent (deletes k) w v = delete_like-IsConsistent k w v

history-IsConsistent :
    (os : List Operation) (w : World) → IsConsistent w.db → IsConsistent (history os w).db
history-IsConsistent [] w v = v
history-IsConsistent (o ∷ os) w v =
    history-IsConsistent os (operate o w) (operate-IsConsistent o w v)

-- After any insertions and deletions from empty tables, whatever of them failed, the query for the
-- count of a content is answered with the number of the likes for it that are stored, or fails with
-- the database's error.
pub get_like_count-history :
    (os : List Operation) (c : ContentKey) (w : World)
    → w.db ≡ empty_database
    → Answers
        (get_like_count primary c)
        (history os w)
        (record { count = likes_of (history os w).db c })
get_like_count-history os c w e =
    get_like_count-exact primary c (history os w)
      (history-IsConsistent os w (subst IsConsistent (sym e) empty-IsConsistent))
