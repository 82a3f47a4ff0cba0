-- ===== src/Repository/Insertion.antt =====
-- insert_like of src/storage/likes_repository.rs is atomic, whatever fails in it.
use likes_service.Common.{
  ℕ, ◌/◌, ◌≡◌, refl, ap, sym, subst, Text, none, some, text_eq, pair_eq, arith, Option-cases, inl,
  inr,
}
use likes_service.Common.Maps.{get}
use likes_service.Common.Results.{Result, ok, err}
use likes_service.Error.{AppError, database}
use likes_service.Storage.{
  Database, LikeKey, insert_like_row, increment_like_count, increment_hourly_count,
}
use likes_service.Storage.Consistency.{IsConsistent, Inserted, inserted_lem, Inserted-IsConsistent}
use likes_service.Effects.{World, pure, ◌>>◌}
use likes_service.Repository.{
  InsertLikeResult, inserted, already_exists, primary, commit, count_inserted, insert_like,
}
use likes_service.Repository.Steps.{
  OnlyPrimary, after_outcome, put_db, query_then, commit_then, read_clock_then, gets_then,
  in_range_then,
}

-- What an insertion may come to: a new like with its counters; a like that was there, and nothing
-- changed; an error, and nothing changed; or an error of a commit that took place.
pub data Inserts (k : LikeKey) (w : World) (r : Result AppError InsertLikeResult) (d : Database)
    : Type 0 where
  created :
      (t : ℕ) → get w.db.likes k ≡ none → Inserted w.db k t d → r ≡ ok inserted → Inserts k w r d
  kept : (t : ℕ) → get w.db.likes k ≡ some t → d ≡ w.db → r ≡ ok already_exists → Inserts k w r d
  refused : (e : Text) → d ≡ w.db → r ≡ err (database e) → Inserts k w r d
  lost :
      (e : Text) (t : ℕ)
      → get w.db.likes k ≡ none
      → Inserted w.db k t d
      → r ≡ err (database e)
      → Inserts k w r d

record InsertsIn (k : LikeKey) (w : World) (x : Result AppError InsertLikeResult × World)
    : Type 0 where
  outcome : Inserts k w x.0 x.1.db
  only : OnlyPrimary w x.1

insert_like_row-fresh :
    (d : Database) (k : LikeKey) (t : ℕ) → get d.likes k ≡ none → (insert_like_row d k t).0 ≡ 1
unfolding insert_like_row
insert_like_row-fresh d k t h = ground arith

insert_like_row-old :
    (d : Database) (k : LikeKey) (t u : ℕ) → get d.likes k ≡ some u → insert_like_row d k t ≡ (0, d)
unfolding insert_like_row
insert_like_row-old d k t u h = ground arith

-- An error of the database at a world whose tables are those at the beginning.
refuse :
    {k : LikeKey} {v : World} (x : Text) (w : World)
    → OnlyPrimary v w
    → w.db ≡ v.db
    → InsertsIn k v (err (database x), w)
refuse x w o e = record { outcome = refused x e refl; only = o }

module _ (k : LikeKey) (t : ℕ) (v w : World) (e : w.db ≡ v.db) (o : OnlyPrimary v w) where
  commit_created :
      (d₂ d₃ : Database)
      → get v.db.likes k ≡ none
      → increment_like_count (insert_like_row v.db k t).1 k.1 ≡ some d₂
      → increment_hourly_count d₂ t k.1 ≡ some d₃
      → InsertsIn k v ((commit primary d₃ >> pure inserted) w)
  unfolding pure
  commit_created d₂ d₃ fresh e₂ e₃ =
      let rows = inserted_lem v.db k t d₂ d₃ fresh e₂ e₃ in
      let only : OnlyPrimary v (put_db d₃ (after_outcome w)) =
        ap (λ x. put_db d₃ (after_outcome x)) o in
      commit_then (InsertsIn k v) d₃ _ w
        (record { outcome = created t fresh rows refl; only = only })
        (λ x. refuse x _ (ap after_outcome o) e)
        (λ x. record { outcome = lost x t fresh rows refl; only = only })

  commit_kept :
      (u : ℕ)
      → get v.db.likes k ≡ some u
      → InsertsIn k v ((commit primary v.db >> pure already_exists) w)
  unfolding pure
  commit_kept u old =
      let only : OnlyPrimary v (put_db v.db (after_outcome w)) =
        ap (λ x. put_db v.db (after_outcome x)) o in
      commit_then (InsertsIn k v) v.db _ w (record { outcome = kept u old refl refl; only = only })
        (λ x. refuse x _ (ap after_outcome o) e) (λ x. refuse x _ only refl)

count_created :
    (k : LikeKey) (t : ℕ) (v w : World)
    → w.db ≡ v.db
    → OnlyPrimary v w
    → get v.db.likes k ≡ none
    → InsertsIn k v (count_inserted primary k t (insert_like_row v.db k t) w)
unfolding count_inserted
count_created k t v w e o fresh =
    let w₁ = after_outcome w in
    let w₂ = after_outcome w₁ in
    let o₁ : OnlyPrimary v w₁ = ap after_outcome o in
    let o₂ : OnlyPrimary v w₂ = ap after_outcome o₁ in
    rw (insert_like_row-fresh v.db k t fresh) (
      query_then (InsertsIn k v) _ w
        (in_range_then (InsertsIn k v) _ _ w₁
          (λ d₂ e₂.
            query_then (InsertsIn k v) _ w₁
              (in_range_then (InsertsIn k v) _ _ w₂
                (λ d₃ e₃. commit_created k t v w₂ e o₂ d₂ d₃ fresh e₂ e₃) (λ x. refuse x w₂ o₂ e))
              (λ x. refuse x w₂ o₂ e))
          (λ x. refuse x w₁ o₁ e))
        (λ x. refuse x w₁ o₁ e))

count_inserted-InsertsIn :
    (k : LikeKey) (t : ℕ) (v w : World)
    → w.db ≡ v.db
    → OnlyPrimary v w
    → InsertsIn k v (count_inserted primary k t (insert_like_row v.db k t) w)
unfolding count_inserted
count_inserted-InsertsIn k t v w e o = elim (Option-cases (get v.db.likes k)) [
  | inl fresh ↦ count_created k t v w e o fresh
  | inr (u, old) ↦ rw (insert_like_row-old v.db k t u old) (commit_kept k t v w e o u old)
]

insert_like-InsertsIn : (k : LikeKey) (w : World) → InsertsIn k w (insert_like primary k w)
unfolding insert_like
insert_like-InsertsIn k w =
    query_then (InsertsIn k w) _ w
      (read_clock_then (InsertsIn k w) _ (after_outcome w) (λ t ds.
        query_then (InsertsIn k w) _ (record (after_outcome w) { now = t; elapses = ds })
          (gets_then (InsertsIn k w) _ _
            (after_outcome (record (after_outcome w) { now = t; elapses = ds }))
            (count_inserted-InsertsIn k (t / 1000) w
              (after_outcome (record (after_outcome w) { now = t; elapses = ds })) refl refl))
          (λ x. refuse x _ refl refl)))
      (λ x. refuse x _ refl refl)

-- Inserting a like, whatever fails: it creates the row and adds one to both counters of its content,
-- or finds the row there and changes no table, or fails with a database error and changes no table;
-- or fails at its commit with all of this done. Nothing else of the world changes but the schedule
-- of the database and the clock.
pub insert_like-Inserts :
    (k : LikeKey) (w : World)
    → Inserts k w (insert_like primary k w).0 (insert_like primary k w).1.db
      × OnlyPrimary w (insert_like primary k w).1
insert_like-Inserts k w =
    let p : InsertsIn k w (insert_like primary k w) = insert_like-InsertsIn k w in
    (p.outcome, p.only)

Inserts-IsConsistent :
    {k : LikeKey} {w : World} {r : Result AppError InsertLikeResult} {d : Database}
    → Inserts k w r d
    → IsConsistent w.db
    → IsConsistent d
Inserts-IsConsistent {k} {w} {r} {d} (created t fresh rows e) v =
    Inserted-IsConsistent w.db k t d fresh rows v
Inserts-IsConsistent (kept t old e _) v = subst IsConsistent (sym e) v
Inserts-IsConsistent (refused x e _) v = subst IsConsistent (sym e) v
Inserts-IsConsistent {k} {w} {r} {d} (lost x t fresh rows e) v =
    Inserted-IsConsistent w.db k t d fresh rows v

-- Inserting a like keeps every counter exact, on every path and whatever fails.
pub insert_like-IsConsistent :
    (k : LikeKey) (w : World) → IsConsistent w.db → IsConsistent (insert_like primary k w).1.db
insert_like-IsConsistent k w v = Inserts-IsConsistent (insert_like-Inserts k w).0 v
