-- ===== src/Http/Requests/Finishing.antt =====
-- How a handler ends that has one step that may fail, and then what it does for the caches.
use likes_service.Common.{◌≡◌, refl, subst, sym, ◌⊎◌, inl, inr}
use likes_service.Common.Results.{Result, ok, err}
use likes_service.Error.{AppError}
use likes_service.Storage.{Database}
use likes_service.Effects.{World, Exec, pure, continue, ◌>>=◌, ◌>>◌}
use likes_service.Effects.Tables.{KeepsTables}
use likes_service.Effects.Returns.{Returns}
use likes_service.Http.{Response, into_response}
use likes_service.Http.Requests.{respond_with, response_of}

module _ {A : Type 0} (f : A → Response) where
  -- The handler answers by the step's result, or by its error, and leaves the tables as the step did.
  abbrev pub Finished : Result AppError A × World → Result AppError Response × World → Type 0
  Finished y x =
      (((a : A) × (y.0 ≡ ok a) × (x.0 ≡ ok (f a)))
        ⊎ ((e : AppError) × (y.0 ≡ err e) × (x.0 ≡ ok (into_response e))))
      × (x.1.db ≡ y.1.db)

  module _ (after : A → Exec AppError Unit) (returns : (a : A) → Returns (after a))
      (keeps : (a : A) (d : Database) → KeepsTables d (after a)) where
    rest : A → Exec AppError Response
    rest a = after a >> pure (f a)

    ended : Result AppError Response × World → Result AppError Response × World
    ended (r, w) = (ok (response_of r), w)

    rest-ok : (a : A) (w : World) → ended (rest a w) ≡ (ok (f a), (after a w).1)
    unfolding rest ended response_of ◌>>=◌ pure
    rest-ok a w = let (u, e) = (returns a).returned w in rw e refl

    ended-Finished :
        (r : Result AppError A) (w : World) → Finished (r, w) (ended (continue r rest w))
    unfolding response_of ended
    ended-Finished (ok a) w =
        subst (Finished (ok a, w)) (sym (rest-ok a w))
          (inl (a, refl, refl), (keeps a w.db).kept w refl)
    ended-Finished (err e) w = (inr (e, refl, refl), refl)

    pub respond_with-Finished :
        (m : Exec AppError A) (w : World)
        → Finished (m w) (respond_with (m >>= λ a. after a >> pure (f a)) w)
    unfolding respond_with ended rest ◌>>=◌
    respond_with-Finished m w = ended-Finished (m w).0 (m w).1
