-- ===== src/RateLimit/Reservation.antt =====
-- Reservations of several processes against one counter.
use likes_service.Common.{
  ℕ, ◌+◌, ◌-◌, ◌*◌, ◌/◌, ◌≤◌, ◌<◌, min, ◌≡◌, refl, ap, All, List, [], ◌∷◌, Text, none, some, leb,
  nat_eqb, if◌then◌else◌, text_eq, arith, Bool-cases, inl, inr,
}
use likes_service.Common.Int.{pos}
use likes_service.Common.Maps.{get, get-insert_self}
use likes_service.Common.Results.{Result, ok, err}
use likes_service.CircuitBreaker.{nanos_per_second}
use likes_service.Effects.{World, RedisValue, integer}
use likes_service.Redis.{live, deadline}
use likes_service.RateLimit.{reserve_script, reserve_in}

-- The counter of a key is at `c`, and stays at least until the end of its minute.
pub data Counted (key : Text) (reset : ℕ) (w : World) : ℕ → Type 0 where
  unused : get w.redis key ≡ none → Counted key reset w 0
  used :
      (c d : ℕ)
      → get w.redis key ≡ some (record { value = integer (pos c); expires_at = some d })
      → reset * nanos_per_second ≤ d
      → Counted key reset w c

abbrev pub granted_of : ℕ → ℕ → ℕ → ℕ
granted_of requested limit c = if leb limit c then 0 else min requested (limit - c)

abbrev pub retry_at : ℕ → World → ℕ
retry_at reset w = reset - w.now / nanos_per_second

live-none : (w : World) (key : Text) → get w.redis key ≡ none → live w key ≡ none
unfolding live
live-none w key h = rw h refl

live-some :
    (w : World) (key : Text) (v : RedisValue) (d : ℕ)
    → get w.redis key ≡ some (record { value = v; expires_at = some d })
    → w.now < d
    → live w key ≡ some (record { value = v; expires_at = some d })
unfolding live
live-some w key v d h before = ground arith

abbrev Reserves : Text → ℕ → World → ℕ → ℕ → Result Text (ℕ × ℕ) × World → Type 0
Reserves key reset w c g x = (x.0 ≡ ok (c + g, g)) × Counted key reset x.1 (c + g)

sum_zero : (c : ℕ) → c + 0 ≡ c
sum_zero c = omega arith

zero_sum : (n : ℕ) → 0 + n ≡ n
zero_sum n = omega arith

reserve_unused :
    (key : Text) (reset requested limit : ℕ) (w : World)
    → get w.redis key ≡ none
    → w.now < reset * nanos_per_second
    → Reserves key reset w 0
        (granted_of requested limit 0)
        (reserve_in key (retry_at reset w) requested limit none w)
unfolding reserve_in
reserve_unused key reset requested limit w h before = elim (Bool-cases (nat_eqb limit 0)) [
  | inl e ↦
      let none_left : granted_of requested limit 0 ≡ 0 = ground arith in
      rw (e, none_left) (refl, unused h)
  | inr e ↦
      let granted : granted_of requested limit 0 ≡ min requested limit = ground arith in
      rw (e, granted)
        (rw (zero_sum (min requested limit)) (
          refl,
          used (min requested limit) (deadline w (retry_at reset w)) (get-insert_self w.redis key _)
              (omega arith),
        ))
]

reserve_used :
    (key : Text) (reset c d requested limit : ℕ) (w : World)
    → get w.redis key ≡ some (record { value = integer (pos c); expires_at = some d })
    → reset * nanos_per_second ≤ d
    → w.now < reset * nanos_per_second
    → Reserves key reset w c (granted_of requested limit c) (
        reserve_in key
          (retry_at reset w)
          requested
          limit
          (some (record { value = integer (pos c); expires_at = some d }))
          w)
unfolding reserve_in
reserve_used key reset c d requested limit w h later before = elim (Bool-cases (leb limit c)) [
  | inl e ↦ rw e (rw (sum_zero c) (refl, used c d h later))
  | inr e ↦ rw e (
    refl,
    elim (Bool-cases (nat_eqb c 0)) [
      | inl z ↦
          rw z
            (used _ (deadline w (retry_at reset w)) (get-insert_self w.redis key _) (omega arith))
      | inr z ↦ rw z (used _ d (get-insert_self w.redis key _) later)
    ],
  )
]

-- A reservation on a counter at `c`: what is granted is what is asked for, as far as the limit goes.
pub reserve_script-Counted :
    (key : Text) (reset c requested limit : ℕ) (w : World)
    → Counted key reset w c
    → w.now < reset * nanos_per_second
    → Reserves key reset w c
        (granted_of requested limit c)
        (reserve_script key (retry_at reset w) requested limit w)
unfolding reserve_script
reserve_script-Counted key reset _ requested limit w (unused h) before =
    rw (live-none w key h) (reserve_unused key reset requested limit w h before)
reserve_script-Counted key reset _ requested limit w (used c d h later) before =
    rw (live-some w key (integer (pos c)) d h (omega arith))
      (reserve_used key reset c d requested limit w h later before)

abbrev pub at_time : ℕ → World → World
at_time t w = record w { now = t }

pub Counted-at_time :
    (key : Text) (reset c t : ℕ) (w : World)
    → Counted key reset w c
    → Counted key reset (at_time t w) c
Counted-at_time key reset _ t w (unused h) = unused h
Counted-at_time key reset _ t w (used c d h later) = used c d h later

abbrev amount : Result Text (ℕ × ℕ) → ℕ
amount (ok (current, granted)) = granted
amount (err e) = 0

-- Reservations at the given times, by any processes: the sum of what they are granted.
abbrev pub reserve_all : Text → ℕ → ℕ → List (ℕ × ℕ) → World → ℕ
reserve_all key reset limit [] w = 0
reserve_all key reset limit ((t, requested) ∷ rs) w =
    let x = reserve_script key (retry_at reset (at_time t w)) requested limit (at_time t w) in
    amount x.0 + reserve_all key reset limit rs x.1

abbrev pub sum_requested : List (ℕ × ℕ) → ℕ
sum_requested [] = 0
sum_requested ((t, requested) ∷ rs) = requested + sum_requested rs

-- Within one minute all processes together are granted what they ask for up to the limit, and then
-- nothing: from a counter at `c`, the sum of the grants is the smaller of what was asked for and of
-- what was left.
pub reserve_all-granted :
    (key : Text) (reset c limit : ℕ) (rs : List (ℕ × ℕ)) (w : World)
    → Counted key reset w c
    → c ≤ limit
    → All (λ r. r.0 < reset * nanos_per_second) rs
    → c + reserve_all key reset limit rs w ≡ min limit (c + sum_requested rs)
reserve_all-granted key reset c limit [] w counted within times = omega arith
reserve_all-granted key reset c limit ((t, requested) ∷ rs) w counted within times =
    let x = reserve_script key (retry_at reset (at_time t w)) requested limit (at_time t w) in
    let g = granted_of requested limit c in
    let step : Reserves key reset (at_time t w) c g x =
      reserve_script-Counted key reset c requested limit (at_time t w)
        (Counted-at_time key reset c t w counted) times.0 in
    let small : g ≡ min requested (limit - c) = ground arith in
    let rest = reserve_all-granted key reset (c + g) limit rs x.1 step.1 (omega arith) times.1 in
    let amounts : amount x.0 ≡ g = ap amount step.0 in omega (arith, rest, amounts, small)
