-- ===== src/Effects/Returns.antt =====
-- Actions that return, whatever fails: those that look at every error themselves.
use likes_service.Common.{◌≡◌, refl, Bool, true, false, if◌then◌else◌}
use likes_service.Common.Results.{Result, ok}
use likes_service.Effects.{
  World, Exec, Metric, pure, gets, modify, continue, ◌>>=◌, ◌>>◌, attempt, read_clock,
  record_metric,
}

pub record Returns {E A : Type 0} (m : Exec E A) : Type 0 where
  pub returned : (w : World) → (a : A) × ((m w).0 ≡ ok a)

module _ {E A : Type 0} where
  pub Returns-pure : (a : A) → Returns {E = E} (pure a)
  unfolding pure
  Returns-pure a = record { returned = λ w. (a, refl) }

  pub Returns-gets : (f : World → A) → Returns {E = E} (gets f)
  unfolding gets
  Returns-gets f = record { returned = λ w. (f w, refl) }

  pub Returns-if :
      (b : Bool) (m n : Exec E A) → Returns m → Returns n → Returns (if b then m else n)
  Returns-if true m n r s = r
  Returns-if false m n r s = s

pub Returns-modify : {E : Type 0} (f : World → World) → Returns {E = E} (modify f)
unfolding modify
Returns-modify f = record { returned = λ w. (tt, refl) }

pub Returns-read_clock : {E : Type 0} → Returns {E = E} read_clock
unfolding read_clock
Returns-read_clock = record { returned = λ w. (_, refl) }

pub Returns-record_metric : {E : Type 0} (m : Metric) → Returns {E = E} (record_metric m)
unfolding record_metric modify
Returns-record_metric m = record { returned = λ w. (tt, refl) }

pub Returns-attempt : {E F A : Type 0} (m : Exec E A) → Returns {E = F} (attempt m)
unfolding attempt
Returns-attempt m = record { returned = λ w. (_, refl) }

module _ {E A B : Type 0} where
  continue-returned :
      (r : Result E A) (a : A) (f : A → Exec E B) (w : World)
      → r ≡ ok a
      → (b : B) × ((f a w).0 ≡ ok b)
      → (b : B) × ((continue r f w).0 ≡ ok b)
  continue-returned r a f w e (b, h) = (b, rw e h)

  pub Returns-bind :
      (m : Exec E A) (f : A → Exec E B) → Returns m → ((a : A) → Returns (f a)) → Returns (m >>= f)
  unfolding ◌>>=◌
  Returns-bind m f rm rf = record {
    returned = λ w.
        let (a, e) = rm.returned w in
        continue-returned (m w).0 a f (m w).1 e ((rf a).returned (m w).1);
  }

pub ruleset returns_rules = (
  Returns-pure, Returns-gets, Returns-if, Returns-modify, Returns-read_clock, Returns-record_metric,
  Returns-attempt, Returns-bind,
)

-- What follows an action that returns is the result of both.
pub Returns-then :
    {E A B : Type 0} (m : Exec E A) (b : B) (w : World) → Returns m → ((m >> pure b) w).0 ≡ ok b
unfolding ◌>>=◌ pure
Returns-then m b w r = let (a, e) = r.returned w in rw e refl
