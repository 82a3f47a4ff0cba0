-- ===== src/Repository/Reads.antt =====
-- What the queries of src/storage/likes_repository.rs read.
use likes_service.Common.{
  ℕ, ◌≡◌, refl, ap, subst, Bool, false, ◌||◌, List, [], ◌∷◌, Text, none, some, if◌then◌else◌,
  text_eq, pair_eq, pair_eqb_iff, arith, ◌⊎◌, inl, inr, ◌==◌,
}
use likes_service.Common.Maps.{Map, get, insert, get-insert}
use likes_service.Common.Results.{Result, ok, err}
use likes_service.Error.{AppError, database}
use likes_service.Storage.{Database, LikeKey, ContentKey, count_at}
use likes_service.Storage.Consistency.{IsConsistent, likes_of}
use likes_service.Repository.Steps.{after_outcome, query_then, gets_then}
use likes_service.Effects.{World, Exec, pure, gets, ◌>>=◌, ◌>>◌}
use likes_service.Repository.{
  status_of, option_map, get_like_status, Pool, primary, replica, tables, query, collect,
  get_like_count, get_like_counts_batch,
}

-- Whether an item is asked for.
abbrev pub requested : List ContentKey → ContentKey → Bool
requested [] c = false
requested (i ∷ is) c = i == c || requested is c

get-collect :
    {V : Type 0} (row : ContentKey → V) (is : List ContentKey) (m : Map ContentKey V)
    (c : ContentKey)
    → get (collect row is m) c ≡ (if requested is c then some (row c) else get m c)
unfolding collect
get-collect row [] m c = refl
get-collect row (i ∷ is) m c =
    ground
      (arith, get-collect row is (insert m i (row i)) c, get-insert m i (row i) c, pair_eqb_iff i c)

-- A query that is answered with `a`, or fails; either way only the database's schedule moves on.
abbrev pub Answers : {A : Type 0} → Exec AppError A → World → A → Type 0
Answers m w a =
    (m w ≡ (ok a, after_outcome w)) ⊎ ((e : Text) × (m w ≡ (err (database e), after_outcome w)))

tables-after_outcome : (pool : Pool) (w : World) → tables pool (after_outcome w) ≡ tables pool w
tables-after_outcome primary w = refl
tables-after_outcome replica w = refl

-- A query that asks once and computes `f` of the tables.
query-Answers :
    {A : Type 0} (f : Database → A) (pool : Pool) (w : World)
    → Answers (do query; d ← gets (tables pool); pure (f d)) w (f (tables pool w))
unfolding pure
query-Answers f pool w =
    query_then
      (λ x.
        (x ≡ (ok (f (tables pool w)), after_outcome w))
        ⊎ ((e : Text) × (x ≡ (err (database e), after_outcome w))))
      _ w
      (inl (
        gets_then (λ x. x ≡ (ok (f (tables pool w)), after_outcome w)) (tables pool) _
          (after_outcome w) (ap (λ d. (ok (f d), after_outcome w)) (tables-after_outcome pool w))))
      (λ e. inr (e, refl))

-- On consistent tables the count of a content, where the database answers, is the number of rows of
-- `likes` for it.
pub get_like_count-exact :
    (pool : Pool) (c : ContentKey) (w : World)
    → IsConsistent (tables pool w)
    → Answers (get_like_count pool c) w (record { count = likes_of (tables pool w) c })
unfolding get_like_count
get_like_count-exact pool c w v =
    subst (λ n. Answers (get_like_count pool c) w (record { count = n })) (v.totals c)
      (query-Answers (λ d. record { count = count_at d.like_counts c }) pool w)

-- The status of a like is read from its row.
pub get_like_status-row :
    (to_char : ℕ → Text) (pool : Pool) (k : LikeKey) (w : World)
    → Answers
        (get_like_status to_char pool k)
        w
        (status_of (option_map to_char (get (tables pool w).likes k)))
unfolding get_like_status
get_like_status-row to_char pool k w =
    query-Answers (λ d. status_of (option_map to_char (get d.likes k))) pool w

-- A query leaves the tables as they are.
pub Answers-db :
    {A : Type 0} (m : Exec AppError A) (w : World) (a : A) → Answers m w a → (m w).1.db ≡ w.db
Answers-db {A} m w a (inl e) = ap (λ (x : Result AppError A × World). x.1.db) e
Answers-db {A} m w a (inr (x, e)) = ap (λ (x : Result AppError A × World). x.1.db) e

ok-injective : {A : Type 0} {a b : A} → ◌≡◌ {A = Result AppError A} (ok a) (ok b) → a ≡ b
ok-injective h = cc

pub answered :
    {A : Type 0} (m : Exec AppError A) (w : World) (a b : A)
    → Answers m w a
    → (m w).0 ≡ ok b
    → b ≡ a
answered {A} m w a b (inl e) h = cc (ap (λ (x : Result AppError A × World). x.0) e)
answered {A} m w a b (inr (x, e)) h = cc (ap (λ (x : Result AppError A × World). x.0) e)

-- On consistent tables a batch of counts, where the database answers, has an entry for each content
-- that is asked for and for no other, and the entry is the number of rows of `likes` for the content:
-- the batch agrees with the single queries, also where contents are repeated.
pub get_like_counts_batch-exact :
    (pool : Pool) (items : List ContentKey) (w : World) (m : Map ContentKey ℕ)
    → IsConsistent (tables pool w)
    → (get_like_counts_batch pool items w).0 ≡ ok m
    → (c : ContentKey)
    → get m c ≡ (if requested items c then some (likes_of (tables pool w) c) else none)
unfolding get_like_counts_batch pure get
get_like_counts_batch-exact pool [] w m v h c =
    subst (λ (x : Map ContentKey ℕ). get x c ≡ none) (ok-injective h) refl
get_like_counts_batch-exact pool (i ∷ is) w m v h c =
    let e : m ≡ collect (count_at (tables pool w).like_counts) (i ∷ is) [] =
      answered (get_like_counts_batch pool (i ∷ is)) w _ m
        (query-Answers (λ d. collect (count_at d.like_counts) (i ∷ is) []) pool w) h in
    rw (e, get-collect (count_at (tables pool w).like_counts) (i ∷ is) [] c, v.totals c) refl
