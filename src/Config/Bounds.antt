-- ===== src/Config/Bounds.antt =====
-- What holds of the values of a configuration that are read.
use likes_service.Common.{
  ℕ, ◌+◌, ◌*◌, ◌-◌, ◌≤◌, ◌≡◌, ◌≢◌, refl, subst, false, List, [], ◌∷◌, Text, text, Option, none,
  some, trim, All, arith, split_once, split,
}
use likes_service.Common.Results.{Result, ok, err, ◌>>=◌, unwrap_or}
use likes_service.Config.{
  parse_digits, parse_unsigned, parsed, required_number, is_empty, unless_blank, filled_definition,
  definition_of, entry_definition, definitions_of, unless_none, get_required_string,
  optional_number, get_optional_parsed, get_required_parsed, number_or,
  parse_content_api_definitions,
}
use likes_service.Integrations.ContentRegistry.{ContentApiDefinition}

-- What holds of a value, if there is one.
abbrev pub Good : {A : Type 0} → (A → Type 0) → Result Text A → Type 0
Good {A} P r = (a : A) → r ≡ ok a → P a

pub good_bind :
    {A B : Type 0} (P : A → Type 0) (Q : B → Type 0) (r : Result Text A) (f : A → Result Text B)
    → Good P r
    → ((a : A) → P a → Good Q (f a))
    → Good Q (r >>= f)
good_bind P Q (ok a) f p q = q a (p a refl)
good_bind P Q (err e) f p q = λ b h. absurd (cc)

ok-injective : {A : Type 0} {a b : A} → ◌≡◌ {A = Result Text A} (ok a) (ok b) → a ≡ b
ok-injective h = cc

pub good_ok : {A : Type 0} (P : A → Type 0) (a : A) → P a → Good P (ok a)
good_ok P a p = λ b h. subst P (ok-injective h) p

parse_digits-le : (limit n : ℕ) (s : Text) (m : ℕ) → parse_digits limit n s ≡ some m → m ≤ limit
unfolding parse_digits
parse_digits-le limit n [] m h = ground arith
parse_digits-le limit n (c ∷ s) m h =
    let rest = parse_digits-le limit (n * 10 + (c - b'0')) s m in ground arith

parse_unsigned-le : (limit : ℕ) (s : Text) (m : ℕ) → parse_unsigned limit s ≡ some m → m ≤ limit
unfolding parse_unsigned
parse_unsigned-le limit [] m h = absurd (cc)
parse_unsigned-le limit (c ∷ []) m h = parse_digits-le limit 0 (c ∷ []) m h
parse_unsigned-le limit (c ∷ d ∷ s) m h =
    let behind = parse_digits-le limit 0 (d ∷ s) m in
    let whole = parse_digits-le limit 0 (c ∷ d ∷ s) m in ground arith

-- A number that is there is at most `limit`.
abbrev AtMost : ℕ → Option ℕ → Type 0
AtMost limit none = Unit
AtMost limit (some n) = n ≤ limit

parsed-Good :
    (primary value : Text) (limit : ℕ) (o : Option ℕ)
    → ((m : ℕ) → o ≡ some m → m ≤ limit)
    → Good (AtMost limit) (parsed primary value o)
unfolding parsed
parsed-Good primary value limit none small = λ a h. absurd (cc)
parsed-Good primary value limit (some n) small = good_ok (AtMost limit) (some n) (small n refl)

filled : (s : Text) → is_empty s ≡ false → s ≢ []
unfolding is_empty
filled [] h = absurd (cc)
filled (c ∷ s) h = λ e. cc

-- A definition names a content type and an address.
abbrev pub IsFilled : ContentApiDefinition → Type 0
IsFilled d = (d.content_type ≢ []) × (d.base_url ≢ [])

filled_definition-Good :
    (entry content_type base_url : Text)
    → Good IsFilled (filled_definition entry content_type base_url)
unfolding filled_definition is_empty
filled_definition-Good entry [] base_url = λ a h. absurd (cc)
filled_definition-Good entry (c ∷ s) [] = λ a h. absurd (cc)
filled_definition-Good entry (c ∷ s) (d ∷ t) = good_ok IsFilled _ ((λ e. cc), (λ e. cc))

definition_of-Good :
    (entry : Text) (o : Option (Text × Text)) → Good IsFilled (definition_of entry o)
unfolding definition_of
definition_of-Good entry none = λ a h. absurd (cc)
definition_of-Good entry (some (t, url)) = filled_definition-Good entry _ _

entry-Good :
    (entry : Text) (rest : Result Text (List ContentApiDefinition))
    → Good (All IsFilled) rest
    → Good (All IsFilled) (entry_definition entry rest)
unfolding entry_definition
entry-Good [] rest p = p
entry-Good (c ∷ entry) rest p =
    good_bind IsFilled (All IsFilled) _ _
      (definition_of-Good (c ∷ entry) (split_once b'=' (c ∷ entry)))
      (λ d q.
        good_bind (All IsFilled) (All IsFilled) rest _ p
          (λ ds ps. good_ok (All IsFilled) (d ∷ ds) (q, ps)))

definitions_of-Good : (entries : List Text) → Good (All IsFilled) (definitions_of entries)
unfolding definitions_of
definitions_of-Good [] = good_ok (All IsFilled) [] tt
definitions_of-Good (entry ∷ entries) =
    entry-Good (trim entry) (definitions_of entries) (definitions_of-Good entries)

module _ (var : Text → Option Text) where
  optional_number-Good :
      (primary : Text) (limit : ℕ) (o : Option Text)
      → Good (AtMost limit) (optional_number var primary limit o)
  unfolding optional_number
  optional_number-Good primary limit none = good_ok (AtMost limit) none tt
  optional_number-Good primary limit (some value) =
      parsed-Good primary value limit (parse_unsigned limit value) (parse_unsigned-le limit value)

  pub number_or-Good :
      (primary : Text) (limit default : ℕ)
      → default ≤ limit
      → Good (λ n. n ≤ limit) (number_or var primary limit default)
  unfolding number_or get_optional_parsed
  number_or-Good primary limit default small =
      good_bind (AtMost limit) (λ n. n ≤ limit) _ _
        (optional_number-Good primary limit (var primary)) (λ o p. of o p)
    where
      of : (o : Option ℕ) → AtMost limit o → Good (λ n. n ≤ limit) (ok (unwrap_or o default))
      of none p = good_ok (λ n. n ≤ limit) default small
      of (some n) p = good_ok (λ n. n ≤ limit) n p

  pub required-Good :
      (primary : Text) (limit : ℕ) → Good (λ n. n ≤ limit) (get_required_parsed var primary limit)
  unfolding get_required_parsed get_optional_parsed required_number
  required-Good primary limit =
      good_bind (AtMost limit) (λ n. n ≤ limit) _ _
        (optional_number-Good primary limit (var primary)) (λ o p. of o p)
    where
      of : (o : Option ℕ) → AtMost limit o → Good (λ n. n ≤ limit) (required_number primary o)
      of none p = λ a h. absurd (cc)
      of (some n) p = good_ok (λ n. n ≤ limit) n p

  pub unless_blank-Good :
      (primary value : Text) → Good (λ u. trim value ≢ []) (unless_blank primary value)
  unfolding unless_blank
  unless_blank-Good primary value = λ u h. filled (trim value) (ground arith)

  pub definitions-Good :
      Good (λ ds. (ds ≢ []) × All IsFilled ds) (parse_content_api_definitions var)
  unfolding parse_content_api_definitions
  definitions-Good =
      good_bind (λ s. Unit) _ (get_required_string var (text "CONTENT_API_REGISTRY")) _ (λ s h. tt)
        (λ s u.
          good_bind (All IsFilled) _ _ _ (definitions_of-Good (split b',' s))
            (λ ds p. some_of ds p))
    where
      some_of :
          (ds : List ContentApiDefinition)
          → All IsFilled ds
          → Good (λ ds. (ds ≢ []) × All IsFilled ds) (unless_none ds)
      some_of [] p = λ a h. absurd (cc)
      some_of (d ∷ ds) p = good_ok (λ ds. (ds ≢ []) × All IsFilled ds) (d ∷ ds) ((λ e. cc), p)
