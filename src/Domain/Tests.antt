-- ===== src/Domain/Tests.antt =====
-- Runs of the parsers, and the theorems at concrete inputs.
use likes_service.Common.{
  arith, ℕ, suc, zero, ◌≡◌, refl, ap, true, text, some, All, length, replicate, is_ascii_digit,
  is_ascii_lowercase, nat_eqb, ◌||◌,
}
use likes_service.Common.Results.{ok, err}
use likes_service.Error.{invalid_content_type}
use likes_service.Domain.{
  UuidApi, UuidLaws, ContentType, parse_content_type, parse_user_id, as_external_id, show_user_id,
}
use likes_service.Domain.Ids.{parse_user_id-show}

-- Ids in unary: an id is printed as so many letters `a`.
abbrev pub unary : UuidApi
unary = record { parse_str = λ s. some (length s); show = λ x. replicate x b'a' }

length-replicate : (n : ℕ) → length {A = ℕ} (replicate n b'a') ≡ n
length-replicate zero = refl
length-replicate (suc n) = ap suc (length-replicate n)

replicate_chars :
    (n : ℕ)
    → All
        (λ c. (is_ascii_digit c || is_ascii_lowercase c || nat_eqb c b'-') ≡ true)
        (replicate n b'a')
unfolding is_ascii_digit is_ascii_lowercase
replicate_chars zero = tt
replicate_chars (suc n) = (refl, replicate_chars n)

pub unary-UuidLaws : UuidLaws unary
unary-UuidLaws = record {
  parse_str-show = λ x small. ap some (length-replicate x);
  show_chars = λ x small. replicate_chars x;
}

abbrev post : ContentType
post = record { value = text "top_picks2" }

rejects : parse_content_type (text "2nd") ≡ err (invalid_content_type (text "2nd"))
unfolding parse_content_type text
rejects = refl

parse_user_id-show_example :
    (parse_user_id unary (as_external_id unary (record { uuid = 7 })) ≡ ok (record { uuid = 7 }))
    × (parse_user_id unary (show_user_id unary (record { uuid = 7 })) ≡ ok (record { uuid = 7 }))
parse_user_id-show_example =
    parse_user_id-show unary unary-UuidLaws (record { uuid = 7 }) (omega arith)
