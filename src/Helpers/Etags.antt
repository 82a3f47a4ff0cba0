-- ===== src/Helpers/Etags.antt =====
-- Entity tags of counts, sent back in If-None-Match.
use likes_service.Common.{
  ◌≡◌, ◌↔◌, refl, ap, true, false, [], ◌∷◌, ◌++◌, Text, text, some, text_eqb, text_eqb_iff,
  All-append, Lacks, split-Lacks, trim, trim-closed, IsClosed, IsClosed-append, append-cancel,
  append_separated_right, is_whitespace, arith, trim_end, cons_trimmed, is_ascii_digit,
}
use likes_service.Common.Decimal.{show_integer, show_integer-injective, show_integer-Lacks}
use likes_service.Common.Int.{ℤ}
use likes_service.Helpers.{count_response_etag, names_etag, if_none_match_matches}

-- The tag behind its first character.
tail_of : Text → Text → ℤ → Text
tail_of t i n = text "count:" ++ (t ++ b':' ∷ (i ++ b':' ∷ (show_integer n ++ b'"' ∷ [])))

etag_lem : (t i : Text) (n : ℤ) → count_response_etag t i n ≡ b'"' ∷ tail_of t i n
unfolding count_response_etag tail_of text
etag_lem t i n = refl

quote-IsClosed : IsClosed (b'"' ∷ [])
unfolding trim_end cons_trimmed is_whitespace
quote-IsClosed = (refl, λ e. cc)

tag-trim : (t i : Text) (n : ℤ) → trim (b'"' ∷ tail_of t i n) ≡ b'"' ∷ tail_of t i n
unfolding tail_of is_whitespace
tag-trim t i n = trim-closed b'"' (tail_of t i n) refl (
    IsClosed-append (b'"' ∷ text "count:") _ (
      IsClosed-append t _
        (IsClosed-append (b':' ∷ i) _ (IsClosed-append (b':' ∷ show_integer n) _ quote-IsClosed))))

tag-Lacks : (t i : Text) (n : ℤ) → Lacks b',' t → Lacks b',' i → Lacks b',' (b'"' ∷ tail_of t i n)
unfolding tail_of text is_ascii_digit
tag-Lacks t i n ht hi =
    All-append _ (b'"' ∷ text "count:") _ (refl, (refl, (refl, (refl, (refl, (refl, (refl, tt)))))))
      (All-append _ t _ ht (
        All-append _ (b':' ∷ i) _ (refl, hi)
          (All-append _ (b':' ∷ show_integer n) _ (refl, show_integer-Lacks b',' refl refl n)
            (refl, tt))))

tag-injective : (t i : Text) (m n : ℤ) → tail_of t i m ≡ tail_of t i n → m ≡ n
unfolding tail_of
tag-injective t i m n e =
    let a = append-cancel (text "count:") _ _ e in
    let b : i ++ b':' ∷ (show_integer m ++ b'"' ∷ []) ≡ i ++ b':' ∷ (show_integer n ++ b'"' ∷ []) =
      cc (append-cancel t _ _ a) in
    let c : show_integer m ++ b'"' ∷ [] ≡ show_integer n ++ b'"' ∷ [] =
      cc (append-cancel i _ _ b) in
    show_integer-injective m n
      (append_separated_right b'"' (show_integer m) [] (show_integer n) [] tt tt c).0

no_star : (s : Text) → text_eqb (b'"' ∷ s) (text "*") ≡ false
unfolding text_eqb text
no_star s = refl

only_tag :
    (tag s : Text) → text_eqb s (text "*") ≡ false → (names_etag tag (s ∷ []) ≡ true) ↔ (s ≡ tag)
unfolding names_etag
only_tag tag s h = ground (arith, text_eqb_iff s tag)

-- A client that sends back the tag of a count of a content matches the tag of another count of it
-- exactly if the counts are the same, where content type and content id have no comma.
pub if_none_match-count :
    (content_type content_id : Text) (m n : ℤ)
    → Lacks b',' content_type
    → Lacks b',' content_id
    → (if_none_match_matches
          (some (count_response_etag content_type content_id m))
          (count_response_etag content_type content_id n)
        ≡ true)
      ↔ (m ≡ n)
unfolding if_none_match_matches
if_none_match-count t i m n ht hi =
    rw
      (
        etag_lem t i m,
        etag_lem t i n,
        split-Lacks b',' (b'"' ∷ tail_of t i m) (tag-Lacks t i m ht hi),
        tag-trim t i m,
      )
      (let only =
          only_tag (b'"' ∷ tail_of t i n) (b'"' ∷ tail_of t i m) (no_star (tail_of t i m)) in
        (
          λ h. tag-injective t i m n (cc (only.0 h)),
          λ same. only.1 (ap (λ k. b'"' ∷ tail_of t i k) same),
        ))
