-- ===== src/Helpers/Limits.antt =====
-- Which limits of a page are accepted.
use likes_service.Common.{ℕ, ◌≤◌, ◌≡◌, ◌↔◌, Option, arith}
use likes_service.Common.Results.{ok, unwrap_or}
use likes_service.Helpers.{checked_limit, parse_limit, parse_top_likes_limit}

checked_limit_iff :
    (max limit n : ℕ) → (checked_limit max limit ≡ ok n) ↔ ((n ≡ limit) × (1 ≤ n) × (n ≤ max))
unfolding checked_limit
checked_limit_iff max limit n = ground arith

-- A page of likes has 1 to 100 entries and 20 if nothing is asked for, a ranking 1 to 50 and 10; all
-- other limits are refused.
pub parse_limits_iff :
    (limit : Option ℕ) (n : ℕ)
    → ((parse_limit limit ≡ ok n) ↔ ((n ≡ unwrap_or limit 20) × (1 ≤ n) × (n ≤ 100)))
      × ((parse_top_likes_limit limit ≡ ok n) ↔ ((n ≡ unwrap_or limit 10) × (1 ≤ n) × (n ≤ 50)))
unfolding parse_limit parse_top_likes_limit
parse_limits_iff limit n =
    (checked_limit_iff 100 (unwrap_or limit 20) n, checked_limit_iff 50 (unwrap_or limit 10) n)
