-- ===== src/Repository/Deletion.antt =====
-- delete_like of src/storage/likes_repository.rs is atomic, whatever fails in it.
use likes_service.Common.{
  ℕ, ◌≡◌, refl, ap, sym, subst, Text, none, some, text_eq, pair_eq, arith, Option-cases, inl, inr,
}
use likes_service.Common.Maps.{get}
use likes_service.Common.Results.{Result, ok, err}
use likes_service.Error.{AppError, database}
use likes_service.Storage.{Database, LikeKey, delete_like_row, bucket_of}
use likes_service.Storage.Consistency.{
  IsConsistent, after_delete, delete-IsConsistent, Removed, after_delete-Removed,
}
use likes_service.Effects.{World, pure}
use likes_service.Repository.{
  DeleteLikeResult, deleted, not_found, primary, count_deleted, delete_like,
}
use likes_service.Repository.Steps.{
  OnlyPrimary, after_outcome, put_db, query_then, commit_then, gets_then,
}

-- What a deletion may come to, where `P t d` says that the row of the time `t` is removed.
pub data DeletesBy (P : ℕ → Database → Type 0) (k : LikeKey) (w : World)
    (r : Result AppError DeleteLikeResult) (d : Database) : Type 0 where
  removed : (t : ℕ) → get w.db.likes k ≡ some t → P t d → r ≡ ok deleted → DeletesBy P k w r d
  absent : get w.db.likes k ≡ none → d ≡ w.db → r ≡ ok not_found → DeletesBy P k w r d
  unchanged : (e : Text) → d ≡ w.db → r ≡ err (database e) → DeletesBy P k w r d
  unanswered :
      (e : Text) (t : ℕ)
      → get w.db.likes k ≡ some t
      → P t d
      → r ≡ err (database e)
      → DeletesBy P k w r d

DeletesBy-map :
    {P Q : ℕ → Database → Type 0} {k : LikeKey} {w : World} {r : Result AppError DeleteLikeResult}
    {d : Database}
    → ((t : ℕ) → get w.db.likes k ≡ some t → P t d → Q t d)
    → DeletesBy P k w r d
    → DeletesBy Q k w r d
DeletesBy-map f (removed t there p good) = removed t there (f t there p) good
DeletesBy-map f (absent gone same good) = absent gone same good
DeletesBy-map f (unchanged e same bad) = unchanged e same bad
DeletesBy-map f (unanswered e t there p bad) = unanswered e t there (f t there p) bad

abbrev pub Deletes : LikeKey → World → Result AppError DeleteLikeResult → Database → Type 0
Deletes k w r d = DeletesBy (Removed w.db k) k w r d

-- The same with the tables after the statements.
abbrev Runs : LikeKey → World → Result AppError DeleteLikeResult → Database → Type 0
Runs k w r d = DeletesBy (λ t d'. d' ≡ after_delete w.db k t) k w r d

record DeletesIn (k : LikeKey) (w : World) (x : Result AppError DeleteLikeResult × World)
    : Type 0 where
  outcome : Runs k w x.0 x.1.db
  only : OnlyPrimary w x.1

refuse_delete :
    {k : LikeKey} {v : World} (x : Text) (w : World)
    → OnlyPrimary v w
    → w.db ≡ v.db
    → DeletesIn k v (err (database x), w)
refuse_delete x w o e = record { outcome = unchanged x e refl; only = o }

delete_like_row-old :
    (d : Database) (k : LikeKey) (t : ℕ)
    → get d.likes k ≡ some t
    → (delete_like_row d k).0 ≡ some (bucket_of t)
unfolding delete_like_row
delete_like_row-old d k t h = ground arith

delete_like_row-absent :
    (d : Database) (k : LikeKey) → get d.likes k ≡ none → delete_like_row d k ≡ (none, d)
unfolding delete_like_row
delete_like_row-absent d k h = ground arith

count_deleted-DeletesIn :
    (k : LikeKey) (v w : World)
    → w.db ≡ v.db
    → OnlyPrimary v w
    → DeletesIn k v (count_deleted primary k (delete_like_row v.db k) w)
unfolding count_deleted pure
count_deleted-DeletesIn k v w e o = elim (Option-cases (get v.db.likes k)) [
  | inl none_there ↦ rw (delete_like_row-absent v.db k none_there) (
      commit_then (DeletesIn k v) v.db _ w
        (record {
          outcome = absent none_there refl refl;
          only = ap (λ x. put_db v.db (after_outcome x)) o;
        })
        (λ x. refuse_delete x _ (ap after_outcome o) e)
        (λ x. refuse_delete x _ (ap (λ y. put_db v.db (after_outcome y)) o) refl))
  | inr (t, there) ↦
      let w₁ = after_outcome w in
      let w₂ = after_outcome w₁ in
      let o₁ : OnlyPrimary v w₁ = ap after_outcome o in
      let o₂ : OnlyPrimary v w₂ = ap after_outcome o₁ in
      let d = after_delete v.db k t in
      let o₃ : OnlyPrimary v (put_db d (after_outcome w₂)) =
        ap (λ x. put_db d (after_outcome x)) o₂ in
      rw (delete_like_row-old v.db k t there) (
        query_then (DeletesIn k v) _ w
          (query_then (DeletesIn k v) _ w₁
            (commit_then (DeletesIn k v) d _ w₂
              (record { outcome = removed t there refl refl; only = o₃ })
              (λ x. refuse_delete x _ (ap after_outcome o₂) e)
              (λ x. record { outcome = unanswered x t there refl refl; only = o₃ }))
            (λ x. refuse_delete x w₂ o₂ e))
          (λ x. refuse_delete x w₁ o₁ e))
]

delete_like-DeletesIn : (k : LikeKey) (w : World) → DeletesIn k w (delete_like primary k w)
unfolding delete_like
delete_like-DeletesIn k w =
    let w₁ = after_outcome w in
    let w₂ = after_outcome w₁ in
    query_then (DeletesIn k w) _ w
      (query_then (DeletesIn k w) _ w₁
        (gets_then (DeletesIn k w) _ _ w₂ (count_deleted-DeletesIn k w w₂ refl refl))
        (λ x. refuse_delete x w₂ refl refl))
      (λ x. refuse_delete x w₁ refl refl)

-- Deleting a like, whatever fails: it removes its row and no other, and takes one off the counter of
-- its content and off that of its content and the hour in which it was liked, and off no other (a
-- counter of 0 stays 0); or finds no row and changes no table, or fails with a database
-- error and changes no table; or fails at its commit with all of this done. Nothing else of the world
-- changes but the schedule of the database and the clock.
pub delete_like-Deletes :
    (k : LikeKey) (w : World)
    → Deletes k w (delete_like primary k w).0 (delete_like primary k w).1.db
      × OnlyPrimary w (delete_like primary k w).1
delete_like-Deletes k w =
    let p : DeletesIn k w (delete_like primary k w) = delete_like-DeletesIn k w in
    (
      DeletesBy-map
          (λ t there e. subst (Removed w.db k t) (sym e) (after_delete-Removed w.db k t there))
          p.outcome,
      p.only,
    )

Runs-IsConsistent :
    {k : LikeKey} {w : World} {r : Result AppError DeleteLikeResult} {d : Database}
    → Runs k w r d
    → IsConsistent w.db
    → IsConsistent d
Runs-IsConsistent {k} {w} (removed t there e _) v =
    subst IsConsistent (sym e) (delete-IsConsistent w.db k t there v)
Runs-IsConsistent (absent gone e _) v = subst IsConsistent (sym e) v
Runs-IsConsistent (unchanged x e _) v = subst IsConsistent (sym e) v
Runs-IsConsistent {k} {w} (unanswered x t there e _) v =
    subst IsConsistent (sym e) (delete-IsConsistent w.db k t there v)

-- Deleting a like keeps every counter exact, on every path and whatever fails.
pub delete_like-IsConsistent :
    (k : LikeKey) (w : World) → IsConsistent w.db → IsConsistent (delete_like primary k w).1.db
delete_like-IsConsistent k w v = Runs-IsConsistent (delete_like-DeletesIn k w).outcome v
