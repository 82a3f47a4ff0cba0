-- ===== src/Domain/ContentTypes.antt =====
-- The content types that are accepted: src/domain.rs, ContentType::from_str.
use likes_service.Common.{
  ◌↔◌, subst, sym, ℕ, ◌≡◌, refl, ap, ◌∙◌, Bool, true, false, [], ◌∷◌, map, Text, all, All, Lacks,
  trim, trim-NoSpace, is_whitespace, is_ascii_lowercase, to_ascii_lowercase, nat_eqb, arith,
  Bool-cases, inl, inr,
}
use likes_service.Common.Results.{ok}
use likes_service.Domain.{ContentType, is_content_type_char, check_normalized, parse_content_type}

-- [a-z][a-z0-9_]*
abbrev pub IsName : Text → Type 0
IsName [] = ⊥
IsName (first ∷ chars) =
    (is_ascii_lowercase first ≡ true) × All (λ c. is_content_type_char c ≡ true) chars

all→All : (p : ℕ → Bool) (s : Text) → all p s ≡ true → All (λ c. p c ≡ true) s
all→All p [] h = tt
all→All p (c ∷ s) h = (ground arith, all→All p s (ground arith))

All→all : (p : ℕ → Bool) (s : Text) → All (λ c. p c ≡ true) s → all p s ≡ true
All→all p [] h = refl
All→all p (c ∷ s) h = ground (arith, All→all p s h.1)

check_normalized-IsName :
    (value s : Text) (t : ContentType)
    → check_normalized value s ≡ ok t
    → IsName s × (t ≡ record { value = s })
unfolding check_normalized
check_normalized-IsName value [] t h = cc
check_normalized-IsName value (c ∷ s) t h = elim (Bool-cases (is_ascii_lowercase c)) [
  | inl lower ↦ elim (Bool-cases (all is_content_type_char s)) [
    | inl good ↦ ((lower, all→All is_content_type_char s good), ground arith)
    | inr bad ↦ ground arith
  ]
  | inr other ↦ ground arith
]

check_normalized_complete :
    (value s : Text) → IsName s → check_normalized value s ≡ ok (record { value = s })
unfolding check_normalized
check_normalized_complete value [] h = absurd h
check_normalized_complete value (c ∷ s) h = ground (arith, h.0, All→all is_content_type_char s h.1)

lower-char : (c : ℕ) → is_content_type_char c ≡ true → to_ascii_lowercase c ≡ c
unfolding is_content_type_char to_ascii_lowercase
lower-char c h = ground arith

lowercase-char : (c : ℕ) → is_ascii_lowercase c ≡ true → is_content_type_char c ≡ true
unfolding is_content_type_char
lowercase-char c h = ground arith

not-space-char : (c : ℕ) → is_content_type_char c ≡ true → is_whitespace c ≡ false
unfolding is_content_type_char is_whitespace
not-space-char c h = ground arith

pub colon-char : (c : ℕ) → is_content_type_char c ≡ true → nat_eqb c b':' ≡ false
unfolding is_content_type_char
colon-char c h = ground arith

All-mono :
    (p q : ℕ → Bool) (b : Bool) (s : Text)
    → ((c : ℕ) → p c ≡ true → q c ≡ b)
    → All (λ c. p c ≡ true) s
    → All (λ c. q c ≡ b) s
All-mono p q b [] f h = tt
All-mono p q b (c ∷ s) f h = (f c h.0, All-mono p q b s f h.1)

IsName-chars : (s : Text) → IsName s → All (λ c. is_content_type_char c ≡ true) s
IsName-chars [] h = absurd h
IsName-chars (c ∷ s) h = (lowercase-char c h.0, h.1)

map-lower : (s : Text) → All (λ c. is_content_type_char c ≡ true) s → map to_ascii_lowercase s ≡ s
map-lower [] h = refl
map-lower (c ∷ s) h = cc (lower-char c h.0, map-lower s h.1)

pub IsName-Lacks-colon : (s : Text) → IsName s → Lacks b':' s
IsName-Lacks-colon s h =
    All-mono is_content_type_char (λ c. nat_eqb c b':') false s colon-char (IsName-chars s h)

pub parse_content_type_iff :
    (value : Text) (t : ContentType)
    → (parse_content_type value ≡ ok t)
      ↔ (IsName t.value × (t.value ≡ map to_ascii_lowercase (trim value)))
unfolding parse_content_type
parse_content_type_iff value t = (
  λ h.
      let (good, e) = check_normalized-IsName value (map to_ascii_lowercase (trim value)) t h in
      (
        subst IsName (ap (λ (c : ContentType). c.value) (sym e)) good,
        ap (λ (c : ContentType). c.value) e,
      ),
  λ (good, e).
      check_normalized_complete value (map to_ascii_lowercase (trim value)) (subst IsName e good)
      ∙ ap (λ (s : Text). ok (record { value = s })) (sym e),
)

-- The text of an accepted content type is accepted again, as the same content type.
pub parse_content_type-value :
    (value : Text) (t : ContentType)
    → parse_content_type value ≡ ok t
    → parse_content_type t.value ≡ ok t
parse_content_type-value value t h =
    let good = ((parse_content_type_iff value t).0 h).0 in
    let chars = IsName-chars t.value good in
    let trimmed =
      trim-NoSpace t.value
        (All-mono is_content_type_char is_whitespace false t.value not-space-char chars) in
    (parse_content_type_iff t.value t).1
      (good, sym (ap (map to_ascii_lowercase) trimmed ∙ map-lower t.value chars))
