-- ===== src/Helpers/Cursors.antt =====
-- Cursors, and the cache keys of counts and statuses.
use likes_service.Common.{
  ◌≡◌, ◌≢◌, ◌↔◌, refl, [], ◌∷◌, ◌++◌, Text, text, Lacks, split_once-append, append-cancel,
  append_separated,
}
use likes_service.Common.Results.{ok}
use likes_service.Helpers.{
  Base64Api, Base64Laws, UserLikeRow, filled_cursor, cursor_of, cursor_text, decoded_bytes,
  encode_cursor, decode_cursor, like_status_cache_key,
}
use likes_service.UseCases.{like_count_cache_key}

filled_cursor-filled :
    (s t : Text)
    → s ≢ []
    → t ≢ []
    → filled_cursor s t ≡ ok (record { liked_at = s; content_id = t })
unfolding filled_cursor
filled_cursor-filled [] t a b = absurd (a refl)
filled_cursor-filled (c ∷ s) [] a b = absurd (b refl)
filled_cursor-filled (c ∷ s) (d ∷ t) a b = refl

-- The cursor after a row is read back as the row's time and content id, if neither is empty and the
-- time has no `|`.
pub decode-encode_cursor :
    (b : Base64Api)
    → Base64Laws b
    → (row : UserLikeRow) → row.liked_at ≢ []
    → row.content_id ≢ []
    → Lacks b'|' row.liked_at
    → decode_cursor b (encode_cursor b row)
      ≡ ok (record { liked_at = row.liked_at; content_id = row.content_id })
unfolding decode_cursor decoded_bytes cursor_text cursor_of encode_cursor
decode-encode_cursor b laws row filled named h =
    rw
      (
        laws.decode-encode (b.as_bytes (row.liked_at ++ b'|' ∷ row.content_id)),
        laws.from_utf8-as_bytes (row.liked_at ++ b'|' ∷ row.content_id),
        split_once-append b'|' row.liked_at row.content_id h,
      )
      (filled_cursor-filled row.liked_at row.content_id filled named)

-- Two likes share a cached status exactly if they have the same user, content type and content id,
-- and two contents a cached count exactly if they are the same, where no user id and no content type
-- has a colon.
pub cache_keys_iff :
    (user user' content_type content_type' content_id content_id' : Text)
    → Lacks b':' user
    → Lacks b':' user'
    → Lacks b':' content_type
    → Lacks b':' content_type'
    → ((like_status_cache_key user content_type content_id
          ≡ like_status_cache_key user' content_type' content_id')
        ↔ ((user ≡ user') × (content_type ≡ content_type') × (content_id ≡ content_id')))
      × ((like_count_cache_key (content_type, content_id)
            ≡ like_count_cache_key (content_type', content_id'))
          ↔ ((content_type ≡ content_type') × (content_id ≡ content_id')))
unfolding like_status_cache_key like_count_cache_key
cache_keys_iff u u' t t' i i' hu hu' ht ht' = (
  (
    λ e.
        let outer = append_separated b':' u (t ++ b':' ∷ i) u' (t' ++ b':' ∷ i') hu hu' (
          append-cancel (text "likes:status:") (u ++ b':' ∷ (t ++ b':' ∷ i))
            (u' ++ b':' ∷ (t' ++ b':' ∷ i')) e) in
        let inner = append_separated b':' t i t' i' ht ht' outer.1 in (outer.0, inner.0, inner.1),
    λ (a, b, c). cc,
  ),
  (
    λ e.
        append_separated b':' t i t' i' ht ht'
          (append-cancel (text "likes:count:") (t ++ b':' ∷ i) (t' ++ b':' ∷ i') e),
    λ (b, c). cc,
  ),
)
