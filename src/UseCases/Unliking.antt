-- ===== src/UseCases/Unliking.antt =====
-- What an unlike that was accepted has done.
use likes_service.Common.{
  ℕ, ◌≡◌, refl, sym, ap, subst, ◌∙◌, ◌⊎◌, inl, inr, Bool, true, false, Text, none, some, text_eq,
  pair_eq,
}
use likes_service.Common.Maps.{get}
use likes_service.Common.Results.{Result, ok}
use likes_service.Error.{AppError}
use likes_service.Storage.{Database, LikeKey}
use likes_service.Storage.Consistency.{IsConsistent, likes_of}
use likes_service.Effects.{World, pure, ◌>>=◌}
use likes_service.Effects.Success.{OnOk, bind-ok, bind_then}
use likes_service.Integrations.ContentValidation.{
  JsonFormat, CachedValidationResult, ContentValidationClient,
}
use likes_service.Repository.{
  DeleteLikeResult, deleted, not_found, primary, delete_like, get_like_count,
}
use likes_service.Repository.Deletion.{
  Deletes, removed, absent, unchanged, unanswered, delete_like-Deletes, delete_like-IsConsistent,
}
use likes_service.Repository.Reads.{answered, Answers-db, get_like_count-exact}
use likes_service.UseCases.{UnlikeContentResult, unlike_content, note_deleted, validate}
use likes_service.UseCases.Liking.{ok-equal}
use likes_service.UseCases.Tables.{note_deleted-Keeps, validate-Keeps}

-- The row is gone, and the answer is what the tables say: its count, and whether the like was there.
pub record Unliked (k : LikeKey) (d : Database) (r : UnlikeContentResult) (d' : Database)
    : Type 0 where
  pub consistent : IsConsistent d'
  pub gone : get d'.likes k ≡ none
  pub counted : r.count ≡ likes_of d' k.1
  pub before :
      ((r.was_liked ≡ true) × ((t : ℕ) × (get d.likes k ≡ some t)))
      ⊎ ((r.was_liked ≡ false) × (d' ≡ d))

record GoneOf (k : LikeKey) (d : Database) (result : DeleteLikeResult) (d' : Database)
    : Type 0 where
  missing : get d'.likes k ≡ none
  was :
      ((result ≡ deleted) × ((t : ℕ) × (get d.likes k ≡ some t)))
      ⊎ ((result ≡ not_found) × (d' ≡ d))

Deletes-GoneOf :
    {k : LikeKey} {w : World} {x : Result AppError DeleteLikeResult} {d : Database}
    (result : DeleteLikeResult)
    → Deletes k w x d
    → x ≡ ok result
    → GoneOf k w.db result d
Deletes-GoneOf {k} {w} {x} {d} result (removed t there e good) h = record {
  missing = e.gone;
  was = inl (ok-equal x good h, (t, there));
}
Deletes-GoneOf {k} {w} {x} {d} result (absent none_there same good) h = record {
  missing = rw same none_there;
  was = inr (ok-equal x good h, same);
}
Deletes-GoneOf result (unchanged e same bad) h = absurd (cc)
Deletes-GoneOf result (unanswered e t there rows bad) h = absurd (cc)

module _ (show_status to_char : ℕ → Text) (json : JsonFormat CachedValidationResult)
    (client : ContentValidationClient) (ttl : ℕ) (k : LikeKey) where
  note_deleted-was :
      (result : DeleteLikeResult) (w : World) (b : Bool)
      → (note_deleted show_status to_char json client ttl k.1 result w).0 ≡ ok b
      → ((result ≡ deleted) × (b ≡ true)) ⊎ ((result ≡ not_found) × (b ≡ false))
  unfolding note_deleted pure
  note_deleted-was deleted w b h =
      let (_, _, rest) = bind-ok _ _ w b h in
      let (_, _, last) = bind-ok _ _ _ b rest in inl (refl, cc)
  note_deleted-was not_found w b h = inr (refl, cc)

  verdict :
      {d d' : Database} (result : DeleteLikeResult) (b : Bool)
      → ((result ≡ deleted) × ((t : ℕ) × (get d.likes k ≡ some t)))
        ⊎ ((result ≡ not_found) × (d' ≡ d))
      → ((result ≡ deleted) × (b ≡ true)) ⊎ ((result ≡ not_found) × (b ≡ false))
      → ((b ≡ true) × ((t : ℕ) × (get d.likes k ≡ some t))) ⊎ ((b ≡ false) × (d' ≡ d))
  verdict result b (inl (e, there)) (inl (_, t)) = inl (t, there)
  verdict result b (inl (e, there)) (inr (f, _)) = absurd (cc)
  verdict result b (inr (e, same)) (inl (f, _)) = absurd (cc)
  verdict result b (inr (e, same)) (inr (_, t)) = inr (t, same)

  -- The query at the end, and the answer.
  counting :
      (w w₂ w₃ : World) (result : DeleteLikeResult) (b : Bool)
      → GoneOf k w.db result w₂.db
      → IsConsistent w₂.db
      → w₃.db ≡ w₂.db
      → ((result ≡ deleted) × (b ≡ true)) ⊎ ((result ≡ not_found) × (b ≡ false))
      → OnOk
          (λ x w'. Unliked k w.db x w'.db)
          ((do
            c ← get_like_count primary k.1
            pure {E = AppError} (record { liked = false; was_liked = b; count = c.count }))
            w₃)
  unfolding pure
  counting w w₂ w₃ result b rows v₂ same₃ existed =
      let Q : UnlikeContentResult → World → Type 0 = λ x w'. Unliked k w.db x w'.db in
      let w₄ = (get_like_count primary k.1 w₃).1 in
      let v₃ : IsConsistent w₃.db = subst IsConsistent (sym same₃) v₂ in
      let exact = get_like_count-exact primary k.1 w₃ v₃ in
      let same₄ : w₄.db ≡ w₂.db = Answers-db (get_like_count primary k.1) w₃ _ exact ∙ same₃ in
      bind_then Q (get_like_count primary k.1) _ w₃ (λ c f x h.
        let c_read : c ≡ record { count = likes_of w₂.db k.1 } =
          answered (get_like_count primary k.1) w₃ _ c exact f
          ∙ ap (λ d. record { count = likes_of d k.1 }) same₃ in
        subst (λ x. Unliked k w.db x w₄.db) (ok-equal _ h refl)
          (record {
            consistent = subst IsConsistent (sym same₄) v₂;
            gone = rw same₄ rows.missing;
            counted = rw (c_read, same₄) refl;
            before = rw same₄ (verdict result b rows.was existed);
          }))

  -- An unlike that is accepted, on consistent tables: its row is gone; the answer's count is the
  -- number of likes of the content; the answer says that the like was there exactly if it was, and
  -- else nothing was changed; and the tables are consistent.
  pub unlike_content-Unliked :
      (w : World) (r : UnlikeContentResult)
      → IsConsistent w.db
      → (unlike_content show_status to_char json client ttl k w).0 ≡ ok r
      → Unliked k w.db r (unlike_content show_status to_char json client ttl k w).1.db
  unfolding unlike_content pure
  unlike_content-Unliked w r v =
      let Q : UnlikeContentResult → World → Type 0 = λ x w'. Unliked k w.db x w'.db in
      let validating = validate show_status to_char json client ttl k.1 in
      let w₁ = (validating w).1 in
      let same₁ : w₁.db ≡ w.db =
        (validate-Keeps show_status to_char json client ttl k.1).kept w refl in
      let v₁ : IsConsistent w₁.db = subst IsConsistent (sym same₁) v in
      let w₂ = (delete_like primary k w₁).1 in
      let v₂ : IsConsistent w₂.db = delete_like-IsConsistent k w₁ v₁ in
      bind_then Q validating _ w
        (λ _ _. bind_then Q (delete_like primary k) _ w₁ (λ result i.
          let rows : GoneOf k w.db result w₂.db =
            subst (λ d. GoneOf k d result w₂.db) same₁
              (Deletes-GoneOf result (delete_like-Deletes k w₁).0 i) in
          let noting = note_deleted show_status to_char json client ttl k.1 result in
          bind_then Q noting _ w₂ (λ b n.
            let w₃ = (noting w₂).1 in
            let same₃ : w₃.db ≡ w₂.db =
              (note_deleted-Keeps show_status to_char json client ttl k.1 result).kept w₂ refl in
            counting w w₂ w₃ result b rows v₂ same₃ (note_deleted-was result w₂ b n))))
        r
