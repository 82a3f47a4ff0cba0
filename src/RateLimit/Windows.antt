-- ===== src/RateLimit/Windows.antt =====
-- The minutes of the rate limits and the Redis keys that stand for them.
use likes_service.Common.{
  ℕ, ◌+◌, ◌*◌, ◌/◌, ◌≤◌, ◌≡◌, ◌↔◌, ◌∷◌, ◌++◌, Text, text, Lacks, append-cancel, append_separated,
  append_separated_right, arith,
}
use likes_service.Common.Decimal.{show_nat, show_nat-injective, show_nat-Lacks-colon}
use likes_service.RateLimit.{rate_limit_window_key}

-- The reset of a request's minute is the next full minute, and the seconds until then are between 1
-- and 60.
pub rate_limit_window_key-bounds :
    (scope subject : Text) (now : ℕ)
    → let (reset, retry) = (rate_limit_window_key scope subject now).1 in
      (reset ≡ now + retry) × (1 ≤ retry) × (retry ≤ 60) × (reset ≡ reset / 60 * 60)
unfolding rate_limit_window_key
rate_limit_window_key-bounds scope subject now =
    (omega arith, omega arith, omega arith, omega arith)

-- Two requests share a counter exactly if they have the same scope, the same subject and the same
-- minute, also where a subject has colons, as the text of an IPv6 address. The scopes have none.
pub rate_limit_window_key_iff :
    (scope scope' subject subject' : Text) (m n : ℕ)
    → Lacks b':' scope
    → Lacks b':' scope'
    → ((rate_limit_window_key scope subject m).0 ≡ (rate_limit_window_key scope' subject' n).0)
      ↔ ((scope ≡ scope') × (subject ≡ subject') × (m / 60 ≡ n / 60))
unfolding rate_limit_window_key
rate_limit_window_key_iff scope scope' subject subject' m n h k = (
  λ e.
      let a = subject ++ b':' ∷ show_nat (m / 60) in
      let b = subject' ++ b':' ∷ show_nat (n / 60) in
      let tails = append-cancel (text "rate_limit:") (scope ++ b':' ∷ a) (scope' ++ b':' ∷ b) e in
      let outer = append_separated b':' scope a scope' b h k tails in
      let inner =
        append_separated_right b':' subject (show_nat (m / 60)) subject' (show_nat (n / 60))
          (show_nat-Lacks-colon (m / 60)) (show_nat-Lacks-colon (n / 60)) outer.1 in
      (outer.0, inner.0, show_nat-injective (m / 60) (n / 60) inner.1),
  λ (e, f, g). cc,
)
