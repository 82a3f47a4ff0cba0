-- ===== src/UseCases/Liking.antt =====
-- What a like that was accepted has done.
use likes_service.Common.{
  ℕ, ◌≡◌, refl, sym, ap, subst, ◌∙◌, ◌⊎◌, inl, inr, Bool, true, false, Text, none, some, text_eq,
  pair_eq,
}
use likes_service.Common.Maps.{get, get-insert_self}
use likes_service.Common.Results.{Result, ok}
use likes_service.Error.{AppError}
use likes_service.Storage.{Database, LikeKey}
use likes_service.Storage.Consistency.{IsConsistent, likes_of}
use likes_service.Effects.{World, pure, ◌>>=◌}
use likes_service.Effects.Success.{OnOk, bind-ok, bind_then}
use likes_service.Integrations.ContentValidation.{
  JsonFormat, CachedValidationResult, ContentValidationClient,
}
use likes_service.Repository.{
  InsertLikeResult, inserted, already_exists, primary, insert_like, get_like_status, get_like_count,
  status_of, option_map, LikeStatus, LikeCount,
}
use likes_service.Repository.Insertion.{
  Inserts, created, kept, refused, lost, insert_like-Inserts, insert_like-IsConsistent,
}
use likes_service.Repository.Reads.{answered, Answers-db, get_like_status-row, get_like_count-exact}
use likes_service.UseCases.{LikeContentResult, like_content, note_inserted, validate}
use likes_service.UseCases.Tables.{note_inserted-Keeps, validate-Keeps}

-- The row is there, and the answer is what the tables say: its time, its count, and whether it was
-- there before.
pub record Liked (to_char : ℕ → Text) (k : LikeKey) (d : Database) (r : LikeContentResult)
    (d' : Database) : Type 0 where
  pub consistent : IsConsistent d'
  pub liked_at : ℕ
  pub row : get d'.likes k ≡ some liked_at
  pub shown : r.liked_at ≡ some (to_char liked_at)
  pub counted : r.count ≡ likes_of d' k.1
  pub before :
      ((r.already_existed ≡ true) × (d' ≡ d))
      ⊎ ((r.already_existed ≡ false) × (get d.likes k ≡ none))

record RowOf (k : LikeKey) (d : Database) (result : InsertLikeResult) (d' : Database) : Type 0 where
  time : ℕ
  found : get d'.likes k ≡ some time
  fresh : ((result ≡ already_exists) × (d' ≡ d)) ⊎ ((result ≡ inserted) × (get d.likes k ≡ none))

pub ok-equal : {A : Type 0} {a b : A} (x : Result AppError A) → x ≡ ok a → x ≡ ok b → b ≡ a
ok-equal x h k = cc

Inserts-RowOf :
    {k : LikeKey} {w : World} {x : Result AppError InsertLikeResult} {d : Database}
    (result : InsertLikeResult)
    → Inserts k w x d
    → x ≡ ok result
    → RowOf k w.db result d
Inserts-RowOf {k} {w} {x} {d} result (created t none_there rows e) h = record {
  time = t;
  found = rw rows.0 (get-insert_self w.db.likes k t);
  fresh = inr (ok-equal x e h, none_there);
}
Inserts-RowOf {k} {w} {x} {d} result (kept t there same e) h = record {
  time = t;
  found = rw same there;
  fresh = inl (ok-equal x e h, same);
}
Inserts-RowOf result (refused e same bad) h = absurd (cc)
Inserts-RowOf result (lost e t none_there rows bad) h = absurd (cc)

module _ (show_status to_char : ℕ → Text) (json : JsonFormat CachedValidationResult)
    (client : ContentValidationClient) (ttl : ℕ) (k : LikeKey) where
  note_inserted-existed :
      (result : InsertLikeResult) (w : World) (b : Bool)
      → (note_inserted show_status to_char json client ttl k.1 result w).0 ≡ ok b
      → ((result ≡ already_exists) × (b ≡ true)) ⊎ ((result ≡ inserted) × (b ≡ false))
  unfolding note_inserted pure
  note_inserted-existed inserted w b h =
      let (_, _, rest) = bind-ok _ _ w b h in
      let (_, _, last) = bind-ok _ _ _ b rest in inr (refl, cc)
  note_inserted-existed already_exists w b h = inl (refl, cc)

  verdict :
      {d d' : Database} (result : InsertLikeResult) (b : Bool)
      → ((result ≡ already_exists) × (d' ≡ d)) ⊎ ((result ≡ inserted) × (get d.likes k ≡ none))
      → ((result ≡ already_exists) × (b ≡ true)) ⊎ ((result ≡ inserted) × (b ≡ false))
      → ((b ≡ true) × (d' ≡ d)) ⊎ ((b ≡ false) × (get d.likes k ≡ none))
  verdict result b (inl (e, same)) (inl (_, t)) = inl (t, same)
  verdict result b (inl (e, same)) (inr (f, _)) = absurd (cc)
  verdict result b (inr (e, free)) (inl (f, _)) = absurd (cc)
  verdict result b (inr (e, free)) (inr (_, t)) = inr (t, free)

  concluded :
      (d d₂ d₃ : Database) (result : InsertLikeResult) (b : Bool) (s : LikeStatus) (c : LikeCount)
      → RowOf k d result d₂
      → IsConsistent d₂
      → ((result ≡ already_exists) × (b ≡ true)) ⊎ ((result ≡ inserted) × (b ≡ false))
      → s ≡ status_of (option_map to_char (get d₂.likes k))
      → c ≡ record { count = likes_of d₂ k.1 }
      → d₃ ≡ d₂
      → Liked to_char k d
          (record { liked = true; already_existed = b; count = c.count; liked_at = s.liked_at })
          d₃
  unfolding status_of
  concluded d d₂ d₃ result b s c rows v existed e f same = record {
    consistent = subst IsConsistent (sym same) v;
    liked_at = rows.time;
    row = rw same rows.found;
    shown = rw (e, rows.found) refl;
    counted = rw (f, same) refl;
    before = rw same (verdict result b rows.fresh existed);
  }

  -- The two queries at the end, and the answer.
  reading :
      (w w₂ w₃ : World) (result : InsertLikeResult) (b : Bool)
      → RowOf k w.db result w₂.db
      → IsConsistent w₂.db
      → w₃.db ≡ w₂.db
      → ((result ≡ already_exists) × (b ≡ true)) ⊎ ((result ≡ inserted) × (b ≡ false))
      → OnOk
          (λ x w'. Liked to_char k w.db x w'.db)
          ((do
            s ← get_like_status to_char primary k
            c ← get_like_count primary k.1
            pure {E = AppError} (record {
              liked = true;
              already_existed = b;
              count = c.count;
              liked_at = s.liked_at;
            }))
            w₃)
  unfolding pure
  reading w w₂ w₃ result b rows v₂ same₃ existed =
      let Q : LikeContentResult → World → Type 0 = λ x w'. Liked to_char k w.db x w'.db in
      let w₄ = (get_like_status to_char primary k w₃).1 in
      let w₅ = (get_like_count primary k.1 w₄).1 in
      let status = get_like_status-row to_char primary k w₃ in
      let same₄ : w₄.db ≡ w₂.db =
        Answers-db (get_like_status to_char primary k) w₃ _ status ∙ same₃ in
      let v₄ : IsConsistent w₄.db = subst IsConsistent (sym same₄) v₂ in
      let counting = get_like_count-exact primary k.1 w₄ v₄ in
      let same₅ : w₅.db ≡ w₂.db = Answers-db (get_like_count primary k.1) w₄ _ counting ∙ same₄ in
      bind_then Q (get_like_status to_char primary k) _ w₃ (λ s e.
        bind_then Q (get_like_count primary k.1) _ w₄ (λ c f x h.
          let s_read : s ≡ status_of (option_map to_char (get w₂.db.likes k)) =
            answered (get_like_status to_char primary k) w₃ _ s status e
            ∙ ap (λ d. status_of (option_map to_char (get d.likes k))) same₃ in
          let c_read : c ≡ record { count = likes_of w₂.db k.1 } =
            answered (get_like_count primary k.1) w₄ _ c counting f
            ∙ ap (λ d. record { count = likes_of d k.1 }) same₄ in
          subst (λ x. Liked to_char k w.db x w₅.db) (ok-equal _ h refl)
            (concluded w.db w₂.db w₅.db result b s c rows v₂ existed s_read c_read same₅)))

  -- A like that is accepted, on consistent tables: its row is there, with the time that the answer
  -- shows; the answer's count is the number of likes of the content; the answer says that the like
  -- was there before exactly if nothing was changed, and else there was none; and the tables are
  -- consistent.
  pub like_content-Liked :
      (w : World) (r : LikeContentResult)
      → IsConsistent w.db
      → (like_content show_status to_char json client ttl k w).0 ≡ ok r
      → Liked to_char k w.db r (like_content show_status to_char json client ttl k w).1.db
  unfolding like_content pure
  like_content-Liked w r v =
      let Q : LikeContentResult → World → Type 0 = λ x w'. Liked to_char k w.db x w'.db in
      let validating = validate show_status to_char json client ttl k.1 in
      let w₁ = (validating w).1 in
      let same₁ : w₁.db ≡ w.db =
        (validate-Keeps show_status to_char json client ttl k.1).kept w refl in
      let v₁ : IsConsistent w₁.db = subst IsConsistent (sym same₁) v in
      let w₂ = (insert_like primary k w₁).1 in
      let v₂ : IsConsistent w₂.db = insert_like-IsConsistent k w₁ v₁ in
      bind_then Q validating _ w
        (λ _ _. bind_then Q (insert_like primary k) _ w₁ (λ result i.
          let rows : RowOf k w.db result w₂.db =
            subst (λ d. RowOf k d result w₂.db) same₁
              (Inserts-RowOf result (insert_like-Inserts k w₁).0 i) in
          let noting = note_inserted show_status to_char json client ttl k.1 result in
          bind_then Q noting _ w₂ (λ b n.
            let w₃ = (noting w₂).1 in
            let same₃ : w₃.db ≡ w₂.db =
              (note_inserted-Keeps show_status to_char json client ttl k.1 result).kept w₂ refl in
            reading w w₂ w₃ result b rows v₂ same₃ (note_inserted-existed result w₂ b n))))
        r
