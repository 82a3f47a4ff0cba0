-- ===== src/Http/UserLikes/Walk.antt =====
-- A client that follows `next_cursor` until there is none, and what it gets.
use likes_service.Common.{
  ℕ, zero, suc, ◌+◌, ◌≤◌, ◌<◌, ◌≡◌, ◌≢◌, refl, sym, ap, ◌∙◌, ◌⊎◌, inl, inr, List, [], ◌∷◌, ◌++◌,
  Text, text, Option, none, some, map, take, length, ltb, ltb→lt, arith, Bool-cases, Cut, cut,
  map-append, last-append, append_assoc, append-nil, subst, All, All-behind, select, Lacks,
  take-all,
}
use likes_service.Common.Results.{ok}
use likes_service.Domain.{UuidApi, UserId, show_user_id}
use likes_service.Error.{AppError, cache}
use likes_service.Effects.{World, Exec, pure, raise, ◌>>=◌}
use likes_service.Helpers.{Base64Api, Base64Laws, LikesCursor, encode_cursor, parse_limit}
use likes_service.Helpers.Cursors.{decode-encode_cursor}
use likes_service.Helpers.Limits.{parse_limits_iff}
use likes_service.Http.{UserLikesResponse, UserLikeItemResponse}
use likes_service.Http.Requests.{
  parse_authenticated_user_id, optional_content_type, optional_cursor,
}
use likes_service.Http.UserLikes.{UserLikesQuery, page_of, user_likes_page}
use likes_service.Http.UserLikes.Pages.{
  Parsed, IsPage, item, page_of-IsPage, user_likes_page-steady,
}
use likes_service.Integrations.ProfileApi.{AuthenticatedUser}
use likes_service.Repository.Listing.{
  PostgresApi, PostgresLaws, LikeRow, SortKey, sort_key, of_user, newer, user_like_rows, shown_row,
  cursor_key,
}
use likes_service.Repository.Listing.Pages.{user_like_rows-rest}
use likes_service.Repository.Steps.{steady}
use likes_service.Storage.Ordering.{NoTies}

-- A time is printed as a text that is not empty, has no `|`, and is read back as that time.
pub record TimeLaws (pg : PostgresApi) : Type 0 where
  pub filled : (t : ℕ) → pg.to_char t ≢ []
  pub bar : (t : ℕ) → Lacks b'|' (pg.to_char t)
  pub read : (t : ℕ) → pg.timestamptz (pg.to_char t) ≡ some t

module _ (u : UuidApi) (b : Base64Api) (pg : PostgresApi) (user : AuthenticatedUser)
    (limit : Option ℕ) (content_type : Option Text) where
  -- The query for the page at a cursor.
  abbrev pub at_cursor : Option Text → UserLikesQuery
  at_cursor cursor = record { limit = limit; cursor = cursor; content_type = content_type }

  -- All items of at most `n` pages, the first at the cursor; an error if there are more pages.
  unfoldable pub walk : ℕ → Option Text → Exec AppError (List UserLikeItemResponse)
  walk zero cursor = raise (cache (text "too many pages"))
  walk (suc n) cursor = do
    page ← user_likes_page u b pg user (at_cursor cursor)
    rest ← elim page.next_cursor [ none ↦ pure [] | some c ↦ walk n (some c) ]
    pure (page.items ++ rest)

  module _ (blaws : Base64Laws b) (plaws : PostgresLaws pg) (times : TimeLaws pg) (user_id : UserId)
      (n : ℕ) (wanted : Option Text) (w : World)
      (parsed_user : parse_authenticated_user_id u user ≡ ok user_id)
      (parsed_limit : parse_limit limit ≡ ok n)
      (parsed_type : optional_content_type content_type ≡ ok wanted) where
    -- The rows after a row of the list, and all of them.
    abbrev rows_at : Option SortKey → List LikeRow
    rows_at k = user_like_rows pg w.read_db.likes (show_user_id u user_id) wanted k

    IsAt : Option Text → List LikeRow → Type 0
    IsAt cursor rest =
        (c : Option LikesCursor) × (k : Option SortKey) × (optional_cursor b cursor ≡ ok c)
        × (cursor_key pg c ≡ ok k)
        × (rows_at k ≡ rest)

    IsPage-at :
        (cursor : Option Text) (rest : List LikeRow)
        → IsAt cursor rest
        → (page : UserLikesResponse) × IsPage b pg n rest page
          × (user_likes_page u b pg user (at_cursor cursor) (steady w) ≡ (ok page, steady w))
    unfolding IsAt
    IsPage-at cursor rest (c, k, ec, ek, er) =
        let asked : Parsed u b pg user (at_cursor cursor) = record {
          user_id = user_id;
          limit = n;
          content_type = wanted;
          cursor = c;
          key = k;
          parsed_user = parsed_user;
          parsed_limit = parsed_limit;
          parsed_type = parsed_type;
          parsed_cursor = ec;
          parsed_key = ek;
        } in
        (
          _,
          subst
              (λ rows.
                IsPage b pg n rows (page_of b n (map (shown_row pg) (take (n + 1) (rows_at k)))))
              er (page_of-IsPage b pg n (rows_at k)),
          user_likes_page-steady u b pg user (at_cursor cursor) asked w,
        )

    encoded_row : LikeRow → Text
    encoded_row r = encode_cursor b (shown_row pg r)

    next-IsAt :
        NoTies (newer pg) (select (of_user (show_user_id u user_id) wanted) w.read_db.likes)
        → (before : List LikeRow) (r : LikeRow) (rest : List LikeRow) → (sort_key r).1 ≢ []
        → rows_at none ≡ before ++ r ∷ rest
        → IsAt (some (encoded_row r)) rest
    unfolding IsAt encoded_row optional_cursor cursor_key shown_row
    next-IsAt apart before r rest named e = (
      some (record { liked_at = pg.to_char r.1; content_id = (sort_key r).1 }),
      some (sort_key r),
      rw (decode-encode_cursor b blaws (shown_row pg r) (times.filled r.1) named (times.bar r.1))
          refl,
      rw (times.read r.1) refl,
      user_like_rows-rest pg plaws w.read_db.likes (show_user_id u user_id) wanted apart before r
          rest e,
    )

    NextOf : UserLikesResponse → List LikeRow → Type 0
    NextOf page rest =
        ((page.items ≡ map (item b pg) rest) × (page.next_cursor ≡ none))
        ⊎ ((c : Cut n rest) × (page.items ≡ map (item b pg) (c.before ++ c.at ∷ []))
            × (page.next_cursor ≡ some (encoded_row c.at)))

    one_page :
        1 ≤ n
        → (page : UserLikesResponse) (rest : List LikeRow) → IsPage b pg n rest page
        → NextOf page rest
    unfolding NextOf encoded_row
    one_page positive page rest isp = elim (Bool-cases (ltb n (length rest))) [
      | inl h ↦
          let c = cut n rest positive (ltb→lt n (length rest) h) in
          inr (
            c,
            isp.items ∙ ap (map (item b pg)) c.taken,
            isp.next_cursor
                ∙ rw
                    (
                      h,
                      c.taken,
                      map-append (shown_row pg) c.before (c.at ∷ []),
                      last-append (map (shown_row pg) c.before) (shown_row pg c.at),
                    )
                    refl,
          )
      | inr h ↦ inl (
        isp.items ∙ ap (map (item b pg)) (take-all n rest (ground arith)),
        isp.next_cursor ∙ rw h refl,
      )
    ]

    step_on :
        (fuel : ℕ) (cursor : Option Text) (page : UserLikesResponse) (c : Text)
        (items : List UserLikeItemResponse)
        → user_likes_page u b pg user (at_cursor cursor) (steady w) ≡ (ok page, steady w)
        → page.next_cursor ≡ some c
        → walk fuel (some c) (steady w) ≡ (ok items, steady w)
        → walk (suc fuel) cursor (steady w) ≡ (ok (page.items ++ items), steady w)
    unfolding walk ◌>>=◌ pure
    step_on fuel cursor page c items run next rest = rw (run, next, rest) refl

    step_off :
        (fuel : ℕ) (cursor : Option Text) (page : UserLikesResponse)
        → user_likes_page u b pg user (at_cursor cursor) (steady w) ≡ (ok page, steady w)
        → page.next_cursor ≡ none
        → walk (suc fuel) cursor (steady w) ≡ (ok (page.items ++ []), steady w)
    unfolding walk ◌>>=◌ pure
    step_off fuel cursor page run next = rw (run, next) refl

    abbrev Named : LikeRow → Type 0
    Named r = (sort_key r).1 ≢ []

    Walks : ℕ → Option Text → List LikeRow → Type 0
    Walks fuel cursor rest = walk fuel cursor (steady w) ≡ (ok (map (item b pg) rest), steady w)

    joined :
        (page : UserLikesResponse) (rest : List LikeRow) (c : Cut n rest)
        → page.items ≡ map (item b pg) (c.before ++ c.at ∷ [])
        → page.items ++ map (item b pg) c.rest ≡ map (item b pg) rest
    joined page rest c items =
        ap (λ xs. xs ++ map (item b pg) c.rest) items
        ∙ sym (map-append (item b pg) (c.before ++ c.at ∷ []) c.rest)
        ∙ ap (map (item b pg)) (append_assoc c.before (c.at ∷ []) c.rest ∙ sym c.whole)

    module _
        (apart : NoTies
          (newer pg)
          (select (of_user (show_user_id u user_id) wanted) w.read_db.likes)) where
      walk-rest :
          (fuel : ℕ) (cursor : Option Text) (before rest : List LikeRow)
          → rows_at none ≡ before ++ rest
          → All Named rest
          → IsAt cursor rest
          → length rest < fuel
          → Walks fuel cursor rest
      unfolding NextOf Walks
      walk-rest zero cursor before rest e named at h = absurd (omega (arith, h))
      walk-rest (suc fuel) cursor before rest e named at h =
          let (page, isp, run) = IsPage-at cursor rest at in
          elim (one_page ((parse_limits_iff limit n).0.0 parsed_limit).1 page rest isp) [
            | inl (items, next) ↦ step_off fuel cursor page run next ∙ rw (items, append-nil) refl
            | inr (c, items, next) ↦
                let whole : rows_at none ≡ (before ++ c.before) ++ c.at ∷ c.rest =
                  e
                  ∙ ap (λ xs. before ++ xs) c.whole
                  ∙ sym (append_assoc before c.before (c.at ∷ c.rest)) in
                let named' =
                  All-behind Named c.before c.at c.rest (subst (All Named) c.whole named) in
                let behind =
                  walk-rest fuel (some (encoded_row c.at)) ((before ++ c.before) ++ c.at ∷ [])
                    c.rest (whole ∙ sym (append_assoc (before ++ c.before) (c.at ∷ []) c.rest))
                    named'.1 (next-IsAt apart (before ++ c.before) c.at c.rest named'.0 whole)
                    (omega (arith, c.fewer, h)) in
                step_on fuel cursor page (encoded_row c.at) (map (item b pg) c.rest) run next behind
                ∙ ap (λ items. (ok items, steady w)) (joined page rest c items)
          ]

    -- A client that follows the cursors gets every row exactly once, in the order of the list, in at
    -- most one page more than there are rows: where Postgres answers, no two of the rows tie and
    -- no content id is empty.
    pub walk-user_like_rows :
        NoTies (newer pg) (select (of_user (show_user_id u user_id) wanted) w.read_db.likes)
        → All Named (rows_at none)
        → (fuel : ℕ) → length (rows_at none) < fuel
        → walk fuel none (steady w) ≡ (ok (map (item b pg) (rows_at none)), steady w)
    unfolding Walks IsAt optional_cursor cursor_key
    walk-user_like_rows apart named fuel h =
        walk-rest apart fuel none [] (rows_at none) refl named (none, none, refl, refl, refl) h
