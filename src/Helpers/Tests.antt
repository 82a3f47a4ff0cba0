-- ===== src/Helpers/Tests.antt =====
-- The helpers at concrete inputs.
use likes_service.Common.{ℕ, ◌≤◌, ◌≡◌, ◌↔◌, refl, [], ◌∷◌, text, Option, none, some, Text}
use likes_service.Common.Results.{ok, unwrap_or}
use likes_service.Helpers.{
  Base64Api, Base64Laws, UserLikeRow, encode_cursor, decode_cursor, parse_limit,
  parse_top_likes_limit, like_status_cache_key,
}
use likes_service.Helpers.Limits.{parse_limits_iff}
use likes_service.Helpers.Cursors.{decode-encode_cursor, cache_keys_iff}
use likes_service.UseCases.{like_count_cache_key}

-- An encoding that leaves bytes as they are.
abbrev plain : Base64Api
plain = record {
  encode = λ bytes. bytes;
  decode = λ s. some s;
  as_bytes = λ s. s;
  from_utf8 = λ bytes. some bytes;
}

plain-Base64Laws : Base64Laws plain
plain-Base64Laws = record { decode-encode = λ s. refl; from_utf8-as_bytes = λ s. refl }

abbrev row : UserLikeRow
row = record { content_type = b'p' ∷ []; content_id = b'c' ∷ []; liked_at = b'2' ∷ b'0' ∷ [] }

abbrev nothing_asked : Option ℕ
nothing_asked = none

abbrev twenty : ℕ
twenty = 20

parse_limits_iff_example :
    ((parse_limit nothing_asked ≡ ok twenty)
      ↔ ((twenty ≡ unwrap_or nothing_asked 20) × (1 ≤ twenty) × (twenty ≤ 100)))
    × ((parse_top_likes_limit nothing_asked ≡ ok twenty)
        ↔ ((twenty ≡ unwrap_or nothing_asked 10) × (1 ≤ twenty) × (twenty ≤ 50)))
parse_limits_iff_example = parse_limits_iff nothing_asked twenty

decode-encode_cursor_example :
    decode_cursor plain (encode_cursor plain row)
    ≡ ok (record { liked_at = row.liked_at; content_id = row.content_id })
decode-encode_cursor_example =
    decode-encode_cursor plain plain-Base64Laws row (λ e. cc) (λ e. cc) (refl, (refl, tt))

abbrev alice : Text
alice = b'u' ∷ []

abbrev bob : Text
bob = b'v' ∷ []

abbrev post : Text
post = b'p' ∷ []

abbrev first : Text
first = text "a:b"

abbrev second : Text
second = text "c"

cache_keys_iff_example :
    ((like_status_cache_key alice post first ≡ like_status_cache_key bob post second)
      ↔ ((alice ≡ bob) × (post ≡ post) × (first ≡ second)))
    × ((like_count_cache_key (post, first) ≡ like_count_cache_key (post, second))
        ↔ ((post ≡ post) × (first ≡ second)))
cache_keys_iff_example =
    cache_keys_iff alice bob post post first second (refl, tt) (refl, tt) (refl, tt) (refl, tt)
