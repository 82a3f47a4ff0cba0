-- ===== src/Http/Examples.antt =====
-- What the handlers are given, for tests: ids in unary, texts compared from the left, times in unary,
-- JSON that fails, and one content API.
use likes_service.Common.{
  ℕ, zero, suc, ◌≡◌, refl, ap, Bool, true, false, ◌||◌, ◌&&◌, [], ◌∷◌, Text, Option, none, some,
  ltb, nat_eqb, if◌then◌else◌, length, replicate, Lacks, arith,
}
use likes_service.Common.Results.{err}
use likes_service.Domain.{UuidApi}
use likes_service.Helpers.{Base64Api, Base64Laws}
use likes_service.Http.Likes.{Handlers}
use likes_service.Http.UserLikes.Walk.{TimeLaws}
use likes_service.Integrations.ContentRegistry as Registry
use likes_service.Integrations.ContentValidation.{JsonFormat, ContentValidationClient}
use likes_service.Repository.Listing.{PostgresApi, PostgresLaws}

abbrev pub unary : UuidApi
unary = record { parse_str = λ s. some (length s); show = λ x. replicate x b'a' }

abbrev pub plain : Base64Api
plain = record {
  encode = λ bytes. bytes;
  decode = λ s. some s;
  as_bytes = λ s. s;
  from_utf8 = λ bytes. some bytes;
}

pub plain-Base64Laws : Base64Laws plain
plain-Base64Laws = record { decode-encode = λ s. refl; from_utf8-as_bytes = λ s. refl }

abbrev pub text_before : Text → Text → Bool
text_before [] [] = false
text_before [] (d ∷ t) = true
text_before (c ∷ s) [] = false
text_before (c ∷ s) (d ∷ t) = let rest = text_before s t in ltb c d || nat_eqb c d && rest

abbrev pub unary_time : Text → Option ℕ
unary_time [] = none
unary_time (c ∷ s) = if nat_eqb c b'T' then some (length s) else none

abbrev pub unary_interval : Text → ℕ
unary_interval s = 86400000000

abbrev pub postgres : PostgresApi
postgres = record {
  text_lt = text_before;
  to_char = λ t. b'T' ∷ replicate t b'a';
  timestamptz = unary_time;
  interval = unary_interval;
}

irrefl_lem : (s : Text) → text_before s s ≡ false
irrefl_lem [] = refl
irrefl_lem (c ∷ s) = ground (arith, irrefl_lem s)

trans_lem :
    (s t u : Text) → text_before s t ≡ true → text_before t u ≡ true → text_before s u ≡ true
trans_lem [] [] u h k = absurd (cc)
trans_lem [] (d ∷ t) [] h k = absurd (cc)
trans_lem [] (d ∷ t) (e ∷ u) h k = refl
trans_lem (c ∷ s) [] u h k = absurd (cc)
trans_lem (c ∷ s) (d ∷ t) [] h k = absurd (cc)
trans_lem (c ∷ s) (d ∷ t) (e ∷ u) h k = let rest = trans_lem s t u in ground arith

total_lem : (s t : Text) → text_before s t ≡ false → text_before t s ≡ false → s ≡ t
total_lem [] [] h k = refl
total_lem [] (d ∷ t) h k = absurd (cc)
total_lem (c ∷ s) [] h k = absurd (cc)
total_lem (c ∷ s) (d ∷ t) h k =
    let rest = total_lem s t in
    let heads : c ≡ d = ground arith in let tails : s ≡ t = rest (ground arith) (ground arith) in cc

pub postgres-PostgresLaws : PostgresLaws postgres
postgres-PostgresLaws = record { irrefl = irrefl_lem; trans = trans_lem; total = total_lem }

length-replicate : (n : ℕ) → length {A = ℕ} (replicate n b'a') ≡ n
length-replicate zero = refl
length-replicate (suc n) = ap suc (length-replicate n)

Lacks-replicate : (n : ℕ) → Lacks b'|' (replicate n b'a')
Lacks-replicate zero = tt
Lacks-replicate (suc n) = (refl, Lacks-replicate n)

pub postgres-TimeLaws : TimeLaws postgres
postgres-TimeLaws = record {
  filled = λ t e. cc;
  bar = λ t. (refl, Lacks-replicate t);
  read = λ t. ap some (length-replicate t);
}

abbrev pub no_text : ℕ → Text
no_text n = b'x' ∷ []

abbrev pub no_json : {A : Type 0} → JsonFormat A
no_json = record { to_string = λ x. err (b'n' ∷ []); from_str = λ s. err (b'n' ∷ []) }

abbrev pub post_client : ContentValidationClient
post_client = record {
  registry = Registry.new (record { content_type = b'p' ∷ []; base_url = b'h' ∷ [] } ∷ []);
  cache_ttl_seconds = 60;
}

abbrev pub handlers : Handlers
handlers = record {
  uuid = unary;
  show_status = no_text;
  to_char = postgres.to_char;
  validations = no_json;
  updates = no_json;
  statuses = no_json;
  events = record { json = no_json; rfc3339 = no_text };
  client = post_client;
  cache_ttl_like_counts_seconds = 300;
  cache_ttl_user_status_seconds = 60;
}
