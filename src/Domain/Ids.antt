-- ===== src/Domain/Ids.antt =====
-- User ids in their external form: src/domain.rs, UserId.
use likes_service.Common.{
  ℕ, ◌<◌, ◌≡◌, refl, Bool, true, false, ◌||◌, ◌++◌, [], ◌∷◌, Text, text, none, All, All-append,
  NoSpace, Lacks, trim-NoSpace, strip_prefix, strip_prefix-append, is_whitespace, is_ascii_digit,
  is_ascii_lowercase, nat_eqb, arith,
}
use likes_service.Common.Results.{ok}
use likes_service.Domain.{
  UuidApi, UuidLaws, uuid_limit, UserId, parse_user_id, as_external_id, show_user_id,
}

-- A character of a printed id.
abbrev pub is_uuid_char : ℕ → Bool
is_uuid_char c = is_ascii_digit c || is_ascii_lowercase c || nat_eqb c b'-'

uuid_char_facts :
    (c : ℕ)
    → is_uuid_char c ≡ true
    → (is_whitespace c ≡ false) × (nat_eqb c b':' ≡ false) × (nat_eqb c b'|' ≡ false)
unfolding is_whitespace is_ascii_digit is_ascii_lowercase
uuid_char_facts c h = ground arith

pub uuid-NoSpace : (s : Text) → All (λ c. is_uuid_char c ≡ true) s → NoSpace s
uuid-NoSpace [] h = tt
uuid-NoSpace (c ∷ s) h = ((uuid_char_facts c h.0).0, uuid-NoSpace s h.1)

pub uuid-Lacks-colon : (s : Text) → All (λ c. is_uuid_char c ≡ true) s → Lacks b':' s
uuid-Lacks-colon [] h = tt
uuid-Lacks-colon (c ∷ s) h = ((uuid_char_facts c h.0).1, uuid-Lacks-colon s h.1)

prefix-NoSpace : NoSpace (text "usr_")
unfolding text is_whitespace
prefix-NoSpace = (refl, (refl, (refl, (refl, tt))))

-- No printed id has the prefix, since it has no underscore.
strip_prefix-uuid :
    (s : Text) → All (λ c. is_uuid_char c ≡ true) s → strip_prefix (text "usr_") s ≡ none
unfolding text strip_prefix is_ascii_digit is_ascii_lowercase
strip_prefix-uuid [] h = refl
strip_prefix-uuid (a ∷ []) h = ground arith
strip_prefix-uuid (a ∷ b ∷ []) h = ground arith
strip_prefix-uuid (a ∷ b ∷ c ∷ []) h = ground arith
strip_prefix-uuid (a ∷ b ∷ c ∷ d ∷ s) h = ground (arith, h.1.1.1.0)

-- Both forms in which the service prints a user id of 128 bits, with the prefix and without, are read
-- back as that user id.
pub parse_user_id-show :
    (u : UuidApi)
    → UuidLaws u
    → (x : UserId) → x.uuid < uuid_limit
    → (parse_user_id u (as_external_id u x) ≡ ok x) × (parse_user_id u (show_user_id u x) ≡ ok x)
unfolding parse_user_id as_external_id show_user_id
parse_user_id-show u laws x small =
    let printed = u.show x.uuid in
    let chars = laws.show_chars x.uuid small in
    let clean = uuid-NoSpace printed chars in
    let whole =
      trim-NoSpace (text "usr_" ++ printed)
        (All-append _ (text "usr_") printed prefix-NoSpace clean) in
    (
      rw (whole, strip_prefix-append (text "usr_") printed, laws.parse_str-show x.uuid small),
      rw (
        trim-NoSpace printed clean,
        strip_prefix-uuid printed chars,
        laws.parse_str-show x.uuid small,
      ),
    )
