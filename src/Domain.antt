-- ===== src/Domain.antt =====
-- The validated values: src/domain.rs. A `Uuid` is its 128-bit value; the crate that parses and
-- prints it is a parameter. `String` values are their code points.
pub mod ContentTypes
pub mod Ids
mod Tests
use likes_service.Common.{
  ℕ, ◌≤◌, ◌<◌, ◌≡◌, Bool, true, false, not, ◌||◌, ◌&&◌, List, [], ◌∷◌, ◌++◌, map, Text, text,
  Option, none, some, all, All, trim, is_ascii_lowercase, is_ascii_digit, to_ascii_lowercase,
  strip_prefix, nat_eqb, if◌then◌else◌, is_whitespace,
}
use likes_service.Common.Results.{Result, ok, err, ok_or, unwrap_or}
use likes_service.Error.{DomainError, invalid_content_type, invalid_content_id, invalid_user_id}

pub record ContentType : Type 0 where
  pub value : Text

unfoldable pub is_content_type_char : ℕ → Bool
unfolding is_ascii_lowercase is_ascii_digit
is_content_type_char c = is_ascii_lowercase c || is_ascii_digit c || nat_eqb c b'_'

check_normalized : Text → Text → Result DomainError ContentType
unfolding is_content_type_char
check_normalized value [] = err (invalid_content_type value)
check_normalized value (first ∷ chars) =
    if not (is_ascii_lowercase first)
    then err (invalid_content_type value)
    else if not (all is_content_type_char chars)
    then err (invalid_content_type value)
    else ok (record { value = first ∷ chars })

-- impl FromStr for ContentType
unfoldable pub parse_content_type : Text → Result DomainError ContentType
unfolding check_normalized trim to_ascii_lowercase
parse_content_type value = check_normalized value (map to_ascii_lowercase (trim value))

-- The crate `uuid`: Uuid::parse_str and the hyphenated Display.
pub record UuidApi : Type 0 where
  pub parse_str : Text → Option ℕ
  pub show : ℕ → Text

-- A `Uuid` has 128 bits.
abbrev pub uuid_limit : ℕ
uuid_limit = 340282366920938463463374607431768211456

-- What its documentation says of them: the printed form of an id is read back, and is made of
-- lower-case hexadecimal digits and hyphens.
pub record UuidLaws (u : UuidApi) : Type 0 where
  pub parse_str-show : (x : ℕ) → x < uuid_limit → u.parse_str (u.show x) ≡ some x
  pub show_chars :
      (x : ℕ)
      → x < uuid_limit
      → All (λ c. (is_ascii_digit c || is_ascii_lowercase c || nat_eqb c b'-') ≡ true) (u.show x)

pub record ContentId : Type 0 where
  pub uuid : ℕ

pub record UserId : Type 0 where
  pub uuid : ℕ

pub record Like : Type 0 where
  pub user_id : UserId
  pub content_type : ContentType
  pub content_id : ContentId
  pub liked_at : ℕ

module _ (u : UuidApi) where
  parsed_content_id : Text → Option ℕ → Result DomainError ContentId
  parsed_content_id value (some x) = ok (record { uuid = x })
  parsed_content_id value none = err (invalid_content_id value)

  -- impl FromStr for ContentId
  unfoldable pub parse_content_id : Text → Result DomainError ContentId
  unfolding parsed_content_id
  parse_content_id value = parsed_content_id value (u.parse_str value)

  unfoldable pub show_content_id : ContentId → Text
  show_content_id c = u.show c.uuid

  parsed_user_id : Text → Option ℕ → Result DomainError UserId
  parsed_user_id value (some x) = ok (record { uuid = x })
  parsed_user_id value none = err (invalid_user_id value)

  -- impl FromStr for UserId
  unfoldable pub parse_user_id : Text → Result DomainError UserId
  unfolding parsed_user_id
  parse_user_id value =
      let normalized = unwrap_or (strip_prefix (text "usr_") (trim value)) (trim value) in
      parsed_user_id value (u.parse_str normalized)

  -- impl Display for UserId
  unfoldable pub show_user_id : UserId → Text
  show_user_id x = u.show x.uuid

  unfoldable pub as_external_id : UserId → Text
  as_external_id x = text "usr_" ++ u.show x.uuid
