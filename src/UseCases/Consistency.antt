-- ===== src/UseCases/Consistency.antt =====
-- Liking and unliking keep the counters of the tables exact, whatever fails.
use likes_service.Common.{ℕ, refl, sym, subst, Text}
use likes_service.Storage.{Database, LikeKey, ContentKey}
use likes_service.Storage.Consistency.{IsConsistent}
use likes_service.Effects.{World, Exec}
use likes_service.Effects.Keeps.{Keeps, keeps_rules}
use likes_service.Effects.Tables.{KeepsTables}
use likes_service.Integrations.ContentValidation.{
  JsonFormat, CachedValidationResult, ContentValidationClient,
}
use likes_service.Repository.{
  InsertLikeResult, DeleteLikeResult, primary, insert_like, delete_like, get_like_status,
  get_like_count,
}
use likes_service.Repository.Insertion.{insert_like-IsConsistent}
use likes_service.Repository.Deletion.{delete_like-IsConsistent}
use likes_service.Repository.Reads.{Answers-db, get_like_status-row, get_like_count-exact}
use likes_service.UseCases.{like_content, unlike_content, note_inserted, note_deleted, validate}
use likes_service.UseCases.Tables.{note_inserted-Keeps, note_deleted-Keeps, validate-Keeps}

-- `m` keeps the counters exact.
abbrev KeepsConsistent : {E A : Type 0} → Exec E A → Type 0
KeepsConsistent m = Keeps (λ w. IsConsistent w.db) m

from_tables : {E A : Type 0} (m : Exec E A) → ((d : Database) → KeepsTables d m) → KeepsConsistent m
from_tables m k = record { kept = λ w v. subst IsConsistent (sym ((k w.db).kept w refl)) v }

insert-Keeps : (k : LikeKey) → KeepsConsistent (insert_like primary k)
insert-Keeps k = record { kept = insert_like-IsConsistent k }

delete-Keeps : (k : LikeKey) → KeepsConsistent (delete_like primary k)
delete-Keeps k = record { kept = delete_like-IsConsistent k }

status-Keeps :
    (to_char : ℕ → Text) (k : LikeKey) → KeepsConsistent (get_like_status to_char primary k)
status-Keeps to_char k = record {
  kept = λ w v.
      subst IsConsistent
        (sym (
          Answers-db (get_like_status to_char primary k) w _
            (get_like_status-row to_char primary k w)))
        v;
}

count-Keeps : (c : ContentKey) → KeepsConsistent (get_like_count primary c)
count-Keeps c = record {
  kept = λ w v.
      subst IsConsistent
        (sym (Answers-db (get_like_count primary c) w _ (get_like_count-exact primary c w v))) v;
}

module _ (show_status to_char : ℕ → Text) (json : JsonFormat CachedValidationResult)
    (client : ContentValidationClient) (ttl : ℕ) where
  validating : (c : ContentKey) → KeepsConsistent (validate show_status to_char json client ttl c)
  validating c = from_tables _ (λ d. validate-Keeps show_status to_char json client ttl c)

  noting_insertion :
      (c : ContentKey) (r : InsertLikeResult)
      → KeepsConsistent (note_inserted show_status to_char json client ttl c r)
  noting_insertion c r =
      from_tables _ (λ d. note_inserted-Keeps show_status to_char json client ttl c r)

  noting_deletion :
      (c : ContentKey) (r : DeleteLikeResult)
      → KeepsConsistent (note_deleted show_status to_char json client ttl c r)
  noting_deletion c r =
      from_tables _ (λ d. note_deleted-Keeps show_status to_char json client ttl c r)

  like_content-Keeps :
      (k : LikeKey) → KeepsConsistent (like_content show_status to_char json client ttl k)
  unfolding like_content
  like_content-Keeps k =
      search (keeps_rules, validating, insert-Keeps, noting_insertion, status-Keeps, count-Keeps)
        depth 8

  unlike_content-Keeps :
      (k : LikeKey) → KeepsConsistent (unlike_content show_status to_char json client ttl k)
  unfolding unlike_content
  unlike_content-Keeps k =
      search (keeps_rules, validating, delete-Keeps, noting_deletion, count-Keeps) depth 8

  -- Liking and unliking keep the total and the hourly counters equal to the numbers of rows, whatever
  -- fails in Postgres, in Redis and in the content API, and whether they return or fail.
  pub use_cases-IsConsistent :
      (k : LikeKey) (w : World)
      → IsConsistent w.db
      → IsConsistent (like_content show_status to_char json client ttl k w).1.db
        × IsConsistent (unlike_content show_status to_char json client ttl k w).1.db
  use_cases-IsConsistent k w v =
      ((like_content-Keeps k).kept w v, (unlike_content-Keeps k).kept w v)
