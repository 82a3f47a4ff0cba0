-- ===== src/Effects/Keeps.antt =====
-- Invariants of actions, one rule for each way to build an action.
use likes_service.Common.{Bool, true, false, if◌then◌else◌}
use likes_service.Common.Results.{Result, ok, err}
use likes_service.Effects.{World, Exec, pure, raise, lift, gets, ◌>>=◌, attempt, convert}

-- `m` keeps `P`, whether it returns or fails.
pub record Keeps {E A : Type 0} (P : World → Type 0) (m : Exec E A) : Type 0 where
  pub kept : (w : World) → P w → P (m w).1

module _ {E A : Type 0} {P : World → Type 0} where
  pub Keeps-gets : (f : World → A) → Keeps P (gets {E = E} f)
  unfolding gets
  Keeps-gets f = record { kept = λ w held. held }

  pub Keeps-raise : (e : E) → Keeps P (raise {A = A} e)
  unfolding raise
  Keeps-raise e = record { kept = λ w held. held }

  pub Keeps-pure : (a : A) → Keeps P (pure {E = E} a)
  unfolding pure
  Keeps-pure a = record { kept = λ w held. held }

  pub Keeps-lift : (r : Result E A) → Keeps P (lift r)
  unfolding lift
  Keeps-lift r = record { kept = λ w held. held }

  pub Keeps-if : (b : Bool) (m n : Exec E A) → Keeps P m → Keeps P n → Keeps P (if b then m else n)
  Keeps-if true m n km kn = km
  Keeps-if false m n km kn = kn

module _ {E A B : Type 0} {P : World → Type 0} where
  continue-Keeps :
      (r : Result E A) (f : A → Exec E B) → ((a : A) → Keeps P (f a)) → Keeps P (lift r >>= f)
  unfolding ◌>>=◌
  continue-Keeps (ok a) f kf = kf a
  continue-Keeps (err e) f kf = Keeps-raise e

  pub Keeps-bind :
      (m : Exec E A) (f : A → Exec E B) → Keeps P m → ((a : A) → Keeps P (f a)) → Keeps P (m >>= f)
  unfolding ◌>>=◌
  Keeps-bind m f km kf = record {
    kept = λ w h. let (r, w') = m w in (continue-Keeps r f kf).kept w' (km.kept w h);
  }

module _ {E F A : Type 0} {P : World → Type 0} where
  pub Keeps-attempt : (m : Exec E A) → Keeps P m → Keeps P (attempt {F = F} m)
  unfolding attempt
  Keeps-attempt m km = record { kept = km.kept }

  pub Keeps-convert : (f : E → F) (m : Exec E A) → Keeps P m → Keeps P (convert f m)
  unfolding convert
  Keeps-convert f m km = record { kept = km.kept }

pub ruleset keeps_rules = (
  Keeps-pure, Keeps-raise, Keeps-lift, Keeps-gets, Keeps-if, Keeps-bind, Keeps-attempt,
  Keeps-convert,
)
