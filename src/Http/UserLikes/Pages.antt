-- ===== src/Http/UserLikes/Pages.antt =====
-- What a page of a user's likes holds.
use likes_service.Common.{
  ℕ, suc, ◌+◌, ◌≡◌, refl, sym, ap, ◌∙◌, ◌⊎◌, inl, inr, false, List, [], ◌∷◌, Text, Option, none,
  some, map, take, last, length, ltb, if◌then◌else◌, arith, Bool-cases, take-take-suc, take-all,
  ltb-length-take, length-map, take-map, subst,
}
use native.Mathlib.Numerals.{add-one}
use likes_service.Common.Results.{Result, ok, err}
use likes_service.Domain.{UuidApi, UserId, show_user_id}
use likes_service.Error.{AppError, database, as_http_error}
use likes_service.Effects.{World, Exec, pure, lift, gets, ◌>>=◌}
use likes_service.Helpers.{Base64Api, UserLikeRow, LikesCursor, encode_cursor, parse_limit}
use likes_service.Http.{Response, into_response, UserLikesResponse, UserLikeItemResponse}
use likes_service.Http.Requests.{
  parse_authenticated_user_id, optional_content_type, optional_cursor, respond_with,
}
use likes_service.Http.UserLikes as Handler
use likes_service.Http.UserLikes.{UserLikesQuery, item_of, page_of, user_likes_page}
use likes_service.Integrations.ProfileApi.{AuthenticatedUser}
use likes_service.Repository.{replica, option_map, tables}
use likes_service.Repository.Steps.{after_outcome, query_then, steady, query-steady}
use likes_service.Repository.Listing.{
  PostgresApi, LikeRow, SortKey, user_like_rows, shown_row, cursor_key, list_user_likes,
}

module _ (b : Base64Api) (pg : PostgresApi) where
  abbrev pub item : LikeRow → UserLikeItemResponse
  item r = item_of (shown_row pg r)

  -- The page of at most `limit` of the rows: the first of them, whether there are more, and if there
  -- are, the cursor of the last row of the page.
  pub record IsPage (limit : ℕ) (rows : List LikeRow) (page : UserLikesResponse) : Type 0 where
    pub items : page.items ≡ map item (take limit rows)
    pub has_more : page.has_more ≡ ltb limit (length rows)
    pub next_cursor : page.next_cursor ≡ (
        if ltb limit (length rows)
        then option_map (encode_cursor b) (last (map (shown_row pg) (take limit rows)))
        else none)

  map_items : (rows : List LikeRow) → map item_of (map (shown_row pg) rows) ≡ map item rows
  map_items [] = refl
  map_items (r ∷ rows) = ap (◌∷◌ (item r)) (map_items rows)

  more :
      (limit : ℕ) (rows : List LikeRow)
      → ltb limit (length (map (shown_row pg) (take (suc limit) rows))) ≡ ltb limit (length rows)
  more limit rows =
      ap (ltb limit) (length-map (shown_row pg) (take (suc limit) rows))
      ∙ ltb-length-take limit rows

  first_rows :
      (limit : ℕ) (rows : List LikeRow)
      → take limit (map (shown_row pg) (take (suc limit) rows))
        ≡ map (shown_row pg) (take limit rows)
  first_rows limit rows =
      take-map (shown_row pg) limit (take (suc limit) rows)
      ∙ ap (map (shown_row pg)) (take-take-suc limit rows)

  all_rows :
      (limit : ℕ) (rows : List LikeRow)
      → ltb limit (length rows) ≡ false
      → map (shown_row pg) (take (suc limit) rows) ≡ map (shown_row pg) (take limit rows)
  all_rows limit rows h =
      ap (map (shown_row pg))
        (take-all (suc limit) rows (ground arith) ∙ sym (take-all limit rows (ground arith)))

  page_of-suc-IsPage :
      (limit : ℕ) (rows : List LikeRow)
      → IsPage limit rows (page_of b limit (map (shown_row pg) (take (suc limit) rows)))
  unfolding page_of
  page_of-suc-IsPage limit rows = elim (Bool-cases (ltb limit (length rows))) [
    | inl h ↦ record {
      items = rw (more limit rows, h, first_rows limit rows) (map_items (take limit rows));
      has_more = more limit rows;
      next_cursor = rw (more limit rows, h, first_rows limit rows) refl;
    }
    | inr h ↦ record {
      items = rw (more limit rows, h, all_rows limit rows h) (map_items (take limit rows));
      has_more = more limit rows;
      next_cursor = rw (more limit rows, h) refl;
    }
  ]

  pub page_of-IsPage :
      (limit : ℕ) (rows : List LikeRow)
      → IsPage limit rows (page_of b limit (map (shown_row pg) (take (limit + 1) rows)))
  page_of-IsPage limit rows =
      subst (λ n. IsPage limit rows (page_of b limit (map (shown_row pg) (take n rows))))
        (sym (add-one limit)) (page_of-suc-IsPage limit rows)

-- The query as it was sent, parsed: whose likes, how many, of which type, after which row.
pub record Parsed (u : UuidApi) (b : Base64Api) (pg : PostgresApi) (user : AuthenticatedUser)
    (query : UserLikesQuery) : Type 0 where
  pub user_id : UserId
  pub limit : ℕ
  pub content_type : Option Text
  pub cursor : Option LikesCursor
  pub key : Option SortKey
  pub parsed_user : parse_authenticated_user_id u user ≡ ok user_id
  pub parsed_limit : parse_limit query.limit ≡ ok limit
  pub parsed_type : optional_content_type query.content_type ≡ ok content_type
  pub parsed_cursor : optional_cursor b query.cursor ≡ ok cursor
  pub parsed_key : cursor_key pg cursor ≡ ok key

module _ (u : UuidApi) (b : Base64Api) (pg : PostgresApi) (user : AuthenticatedUser)
    (query : UserLikesQuery) (asked : Parsed u b pg user query) where
  -- The rows that are asked for, without a limit.
  abbrev pub asked_rows : World → List LikeRow
  asked_rows w =
      user_like_rows pg w.read_db.likes (show_user_id u asked.user_id) asked.content_type asked.key

  -- How a request for a page ends: with a page of the rows, or with the database's error.
  abbrev pub Paged : World → Result AppError UserLikesResponse × World → Type 0
  Paged w x =
      ((page : UserLikesResponse) × (x ≡ (ok page, after_outcome w))
        × IsPage b pg asked.limit (asked_rows w) page)
      ⊎ ((e : Text) × (x ≡ (err (database e), after_outcome w)))

  user_likes_page-run : user_likes_page u b pg user query ≡ (
      list_user_likes pg replica
        (show_user_id u asked.user_id)
        asked.content_type
        asked.cursor
        (asked.limit + 1)
      >>= λ rows. pure (page_of b asked.limit rows))
  unfolding user_likes_page ◌>>=◌
  user_likes_page-run =
      rw (asked.parsed_user, asked.parsed_limit, asked.parsed_type, asked.parsed_cursor) refl

  rows_of : World → List UserLikeRow
  rows_of w = map (shown_row pg) (take (asked.limit + 1) (asked_rows w))

  listed : World → Exec AppError (List UserLikeRow)
  listed w =
      list_user_likes pg replica (show_user_id u asked.user_id) asked.content_type asked.cursor
        (asked.limit + 1)

  list-steady : (w : World) → listed w (steady w) ≡ (ok (rows_of w), steady w)
  unfolding list_user_likes ◌>>=◌ listed rows_of
  list-steady w = rw (query-steady w, asked.parsed_key) refl

  -- The same where Postgres answers.
  pub user_likes_page-steady :
      (w : World)
      → user_likes_page u b pg user query (steady w) ≡ (
        ok (page_of b asked.limit (map (shown_row pg) (take (asked.limit + 1) (asked_rows w)))),
        steady w,
      )
  unfolding ◌>>=◌ listed rows_of pure
  user_likes_page-steady w = rw (user_likes_page-run, list-steady w) refl

module _ (u : UuidApi) (b : Base64Api) (pg : PostgresApi) (user : AuthenticatedUser)
    (query : UserLikesQuery) (user_id : UserId) (limit : ℕ) (content_type : Option Text)
    (cursor : LikesCursor) (parsed_user : parse_authenticated_user_id u user ≡ ok user_id)
    (parsed_limit : parse_limit query.limit ≡ ok limit)
    (parsed_type : optional_content_type query.content_type ≡ ok content_type)
    (parsed_cursor : optional_cursor b query.cursor ≡ ok (some cursor))
    (no_time : pg.timestamptz cursor.liked_at ≡ none) where
  listing : Exec AppError (List UserLikeRow)
  listing =
      list_user_likes pg replica (show_user_id u user_id) content_type (some cursor) (limit + 1)

  Fails : {A : Type 0} → Result AppError A × World → Type 0
  Fails x = (e : Text) × (x.0 ≡ err (database e))

  listing-Fails : (w : World) → Fails (listing w)
  unfolding listing list_user_likes Fails cursor_key ◌>>=◌ lift
  listing-Fails w =
      query_then {A = List UserLikeRow} Fails
        (lift (cursor_key pg (some cursor)) >>= λ k. gets (tables replica) >>= λ d. pure (
          map (shown_row pg)
            (take (limit + 1) (user_like_rows pg d.likes (show_user_id u user_id) content_type k))))
        w (rw no_time (_, refl)) (λ e. (e, refl))

  -- A cursor that is decoded, but whose time Postgres cannot read, is answered by 500 and not as an
  -- invalid request, whatever else happens.
  pub list_user_likes-500 :
      (w : World)
      → (response : Response) × ((Handler.list_user_likes u b pg {E = AppError} user query w).0
          ≡ ok response)
        × (response.status ≡ 500)
  unfolding Handler.list_user_likes user_likes_page ◌>>=◌ Fails listing respond_with lift
      into_response as_http_error
  list_user_likes-500 w =
      let (e, failed) = listing-Fails w in
      (
        into_response (database e),
        rw (parsed_user, parsed_limit, parsed_type, parsed_cursor, failed) refl,
        refl,
      )
