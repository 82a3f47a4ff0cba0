-- ===== src/Http/Top.antt =====
-- The most liked contents: src/http/top.rs, with its cache and its entity tag (src/http/helpers.rs).
-- Rankings are read from the replica.
use likes_service.Common.{
  ℕ, List, [], ◌∷◌, ◌++◌, Text, text, Option, none, some, map, if◌then◌else◌, text_eq,
}
use likes_service.Common.Decimal.{show_integer}
use likes_service.Common.Int.{pos}
use likes_service.Common.Results.{Result, ok, err, unwrap_or}
use likes_service.Error.{AppError, str}
use likes_service.Effects.{Exec, pure, lift, ◌>>=◌, attempt}
use likes_service.Helpers.{
  Base64Api, cache_control_for_top_likes, if_none_match_matches, top_likes_cache_key,
  parse_top_likes_limit,
}
use likes_service.Http.{
  Response, TopLikesResponse, TopLikeItemResponse, top_likes_body, no_body, respond, set_header,
  success,
}
use likes_service.Http.Caches.{get_cached_json, set_cached_json}
use likes_service.Http.Requests.{optional_content_type, respond_with}
use likes_service.Integrations.ContentValidation.{JsonFormat}
use likes_service.Repository.{replica}
use likes_service.Repository.Listing.{PostgresApi}
use likes_service.Repository.Listing.Ranking.{
  TopLikeRow, TopLikesWindow, as_str, parse_window, list_top_likes,
}

pub record TopLikesQuery : Type 0 where
  pub window : Option Text
  pub limit : Option ℕ
  pub content_type : Option Text

unfoldable pub parse_top_likes_window : Option Text → Result AppError TopLikesWindow
parse_top_likes_window window = parse_window (unwrap_or window (text "24h"))

unfoldable pub map_top_like_row : TopLikeRow → TopLikeItemResponse
map_top_like_row row = record {
  content_type = row.content_type;
  content_id = row.content_id;
  count = pos row.like_count;
}

tag_items : List TopLikeItemResponse → Text
tag_items [] = []
tag_items (item ∷ items) =
    b'|'
    ∷ (item.content_type
        ++ b':' ∷ (item.content_id ++ b':' ∷ (show_integer item.count ++ tag_items items)))

-- What the entity tag of a ranking encodes.
unfoldable pub tag_text : TopLikesResponse → Text
unfolding tag_items
tag_text response =
    text "top:"
    ++ (response.window
        ++ b':' ∷ (unwrap_or response.content_type (text "all") ++ tag_items response.items))

unfoldable pub top_likes_response_etag : Base64Api → TopLikesResponse → Text
unfolding tag_text
top_likes_response_etag b response = b'"' ∷ (b.encode (b.as_bytes (tag_text response)) ++ b'"' ∷ [])

tagged : Text → Response → Response
unfolding set_header
tagged etag response =
    set_header (text "cache-control") (str cache_control_for_top_likes)
      (set_header (text "etag") (str etag) response)

unfoldable pub build_top_likes_http_response : Base64Api → TopLikesResponse → Option Text → Response
unfolding tagged
build_top_likes_http_response b response if_none_match =
    let etag = top_likes_response_etag b response in
    if if_none_match_matches if_none_match etag
    then tagged etag (respond 304 no_body)
    else tagged etag (success (top_likes_body response))

module _ (pg : PostgresApi) (json : JsonFormat TopLikesResponse) (refresh_seconds : ℕ) where
  -- The ranking in the tables, which is cached.
  unfoldable pub read_top_likes :
      Text → TopLikesWindow → Option Text → ℕ → Exec AppError TopLikesResponse
  unfolding map_top_like_row
  read_top_likes cache_key window content_type limit = do
    rows ← list_top_likes pg replica content_type window limit
    let response : TopLikesResponse = record {
      window = as_str window;
      content_type = content_type;
      items = map map_top_like_row rows;
    }
    stored ← attempt (set_cached_json json cache_key refresh_seconds response)
    pure response

  unless_cached :
      Exec AppError TopLikesResponse
      → Result AppError (Option TopLikesResponse)
      → Exec AppError TopLikesResponse
  unless_cached read (ok (some response)) = pure response
  unless_cached read (ok none) = read
  unless_cached read (err error) = read

  unfoldable pub build_top_likes_response : TopLikesQuery → Exec AppError TopLikesResponse
  unfolding parse_top_likes_window read_top_likes unless_cached
  build_top_likes_response query = do
    window ← lift (parse_top_likes_window query.window)
    limit ← lift (parse_top_likes_limit query.limit)
    content_type ← lift (optional_content_type query.content_type)
    let cache_key = top_likes_cache_key (as_str window) content_type limit
    cached ← attempt (get_cached_json json cache_key)
    unless_cached (read_top_likes cache_key window content_type limit) cached

  unfoldable pub get_top_likes :
      {E : Type 0} → Base64Api → Option Text → TopLikesQuery → Exec E Response
  unfolding build_top_likes_response
  get_top_likes b if_none_match query = respond_with (do
    response ← build_top_likes_response query
    pure (build_top_likes_http_response b response if_none_match))
