-- ===== src/Effects/Success.antt =====
-- What it takes for an action to return: each of its parts returned.
use likes_service.Common.{
  Bool, true, false, if◌then◌else◌, ◌⊎◌, inl, inr, ◌≡◌, refl, List, [], ◌∷◌, ℕ,
}
use likes_service.Common.Results.{Result, ok, err}
use likes_service.Effects.{World, Exec, continue, raise, ◌>>=◌, ◌>>◌, after_reading}

module _ {E A B : Type 0} where
  continue-ok :
      (r : Result E A) (f : A → Exec E B) (w : World) (b : B)
      → (continue r f w).0 ≡ ok b
      → (a : A) × (r ≡ ok a) × ((f a w).0 ≡ ok b)
  continue-ok (ok a) f w b h = (a, refl, h)
  continue-ok (err e) f w b h = absurd (cc)

  -- A sequence that returns `b`: its first part returns, and the rest returns `b` from there.
  pub bind-ok :
      (m : Exec E A) (f : A → Exec E B) (w : World) (b : B)
      → ((m >>= f) w).0 ≡ ok b
      → (a : A) × ((m w).0 ≡ ok a) × ((f a (m w).1).0 ≡ ok b)
  unfolding ◌>>=◌
  bind-ok m f w b h = continue-ok (m w).0 f (m w).1 b h

module _ {E A : Type 0} where
  pub raise-ok : (e : E) (w : World) (a : A) → (raise {A = A} e w).0 ≡ ok a → ⊥
  unfolding raise
  raise-ok e w a h = cc

  -- Two steps and an error: not a success.
  pub fails :
      (m n : Exec E Unit) (e : E) (w : World) (a : A)
      → ((m >> (n >> raise {A = A} e)) w).0 ≡ ok a
      → ⊥
  fails m n e w a h =
      let (x, _, rest) = bind-ok m _ w a h in
      let (y, _, last) = bind-ok n _ (m w).1 a rest in raise-ok e _ a last

  -- One step and an error.
  pub fails_after :
      (m : Exec E Unit) (e : E) (w : World) (a : A) → ((m >> raise {A = A} e) w).0 ≡ ok a → ⊥
  fails_after m e w a h = let (x, _, last) = bind-ok m _ w a h in raise-ok e _ a last

module _ {E A : Type 0} where
  -- A conditional that returns: its test, and that its branch returns.
  pub if-ok :
      (b : Bool) (m n : Exec E A) (w : World) (a : A)
      → ((if b then m else n) w).0 ≡ ok a
      → ((b ≡ true) × ((m w).0 ≡ ok a)) ⊎ ((b ≡ false) × ((n w).0 ≡ ok a))
  if-ok true m n w a h = inl (refl, h)
  if-ok false m n w a h = inr (refl, h)

-- What holds of the result and the world of a run that returns.
abbrev pub OnOk : {E A : Type 0} → (A → World → Type 0) → Result E A × World → Type 0
OnOk {E} {A} Q x = (a : A) → x.0 ≡ ok a → Q a x.1

module _ {E A B : Type 0} (Q : B → World → Type 0) where
  continue_then :
      (r : Result E A) (f : A → Exec E B) (w : World)
      → ((a : A) → r ≡ ok a → OnOk Q (f a w))
      → OnOk Q (continue r f w)
  continue_then (ok a) f w good = good a refl
  continue_then (err e) f w good = λ b h. absurd (cc)

  -- To prove `Q` of a sequence where it returns, prove it of its rest where its first part returns.
  pub bind_then :
      (m : Exec E A) (f : A → Exec E B) (w : World)
      → ((a : A) → (m w).0 ≡ ok a → OnOk Q (f a (m w).1))
      → OnOk Q ((m >>= f) w)
  unfolding ◌>>=◌
  bind_then m f w good = continue_then (m w).0 f (m w).1 good

-- The clock does not change what is asked of the services.
pub after_reading-replies :
    (ds : List ℕ) (w : World)
    → ((after_reading ds w).1.profile_replies ≡ w.profile_replies)
      × ((after_reading ds w).1.content_replies ≡ w.content_replies)
unfolding after_reading
after_reading-replies [] w = (refl, refl)
after_reading-replies (d ∷ ds) w = (refl, refl)
