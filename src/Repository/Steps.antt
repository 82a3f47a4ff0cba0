-- ===== src/Repository/Steps.antt =====
-- Runs that begin with a statement, a commit or a reading of the clock: what is to be proved of
-- each way in which they go on.
use likes_service.Common.{
  ℕ, ◌+◌, ◌≡◌, refl, List, [], ◌∷◌, Text, text, Option, none, some, text_eq, pair_eq,
}
use likes_service.Common.Results.{Result, ok, err}
use likes_service.Error.{AppError, database}
use likes_service.Storage.{Database}
use likes_service.Effects.{
  after_reading, next_outcome, World, Exec, Outcome, done, failed, unacknowledged, gets, ◌>>=◌,
  ◌>>◌, db_outcome, read_clock,
}
use likes_service.Repository.{primary, query, answer, committed, commit, in_range}

-- Nothing but the primary's tables, its schedule and the clock is another.
abbrev pub OnlyPrimary : World → World → Type 0
OnlyPrimary w w' =
    w' ≡ record w { db = w'.db; db_outcomes = w'.db_outcomes; now = w'.now; elapses = w'.elapses }

abbrev pub after_outcome : World → World
after_outcome w = record w { db_outcomes = (next_outcome w.db_outcomes).1 }

abbrev pub put_db : Database → World → World
put_db d w = record w { db = d }

module _ {A : Type 0} (Q : Result AppError A × World → Type 0) where
  answer_then :
      (o : Outcome) (f : Exec AppError A) (w : World)
      → Q (f w)
      → ((e : Text) → Q (err (database e), w))
      → Q ((answer o >> f) w)
  unfolding ◌>>=◌ answer
  answer_then done f w good bad = good
  answer_then (failed e) f w good bad = bad e
  answer_then (unacknowledged e) f w good bad = bad e

  -- To prove `Q` of a run that begins with a statement, prove it where the statement is answered and
  -- where it fails.
  pub query_then :
      (f : Exec AppError A) (w : World)
      → Q (f (after_outcome w))
      → ((e : Text) → Q (err (database e), after_outcome w))
      → Q ((query >> f) w)
  unfolding ◌>>=◌ query db_outcome
  query_then f w good bad = answer_then (next_outcome w.db_outcomes).0 f (after_outcome w) good bad

  committed_then :
      (o : Outcome) (d : Database) (f : Exec AppError A) (w : World)
      → Q (f (put_db d w))
      → ((e : Text) → Q (err (database e), w))
      → ((e : Text) → Q (err (database e), put_db d w))
      → Q ((committed primary d o >> f) w)
  unfolding ◌>>=◌ committed
  committed_then done d f w good bad lost = good
  committed_then (failed e) d f w good bad lost = bad e
  committed_then (unacknowledged e) d f w good bad lost = lost e

  -- The same for a commit, which may also be done and fail.
  pub commit_then :
      (d : Database) (f : Exec AppError A) (w : World)
      → Q (f (put_db d (after_outcome w)))
      → ((e : Text) → Q (err (database e), after_outcome w))
      → ((e : Text) → Q (err (database e), put_db d (after_outcome w)))
      → Q ((commit primary d >> f) w)
  unfolding ◌>>=◌ commit db_outcome
  commit_then d f w good bad lost =
      committed_then (next_outcome w.db_outcomes).0 d f (after_outcome w) good bad lost

  pub read_clock_then :
      (f : ℕ → Exec AppError A) (w : World)
      → ((t : ℕ) (ds : List ℕ) → Q (f t (record w { now = t; elapses = ds })))
      → Q ((read_clock >>= f) w)
  unfolding ◌>>=◌ read_clock
  read_clock_then f w good = reading w.elapses refl
    where
      reading : (ds : List ℕ) → w.elapses ≡ ds → Q (f (after_reading ds w).0 (after_reading ds w).1)
      reading [] e = good w.now w.elapses
      reading (d ∷ ds) e = good (w.now + d) ds

  pub gets_then :
      {B : Type 0} (g : World → B) (f : B → Exec AppError A) (w : World)
      → Q (f (g w) w)
      → Q ((gets g >>= f) w)
  unfolding ◌>>=◌
  gets_then g f w h = h

  pub in_range_then :
      (o : Option Database) (f : Database → Exec AppError A) (w : World)
      → ((d : Database) → o ≡ some d → Q (f d w))
      → ((e : Text) → Q (err (database e), w))
      → Q ((in_range o >>= f) w)
  unfolding ◌>>=◌ in_range
  in_range_then (some d) f w good bad = good d refl
  in_range_then none f w good bad = bad (text "bigint out of range")

-- Postgres answers every statement.
abbrev pub steady : World → World
steady w = record w { db_outcomes = [] }

pub query-steady : (w : World) → query (steady w) ≡ (ok tt, steady w)
unfolding ◌>>=◌ query answer db_outcome next_outcome
query-steady w = refl
