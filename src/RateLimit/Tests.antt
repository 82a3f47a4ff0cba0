-- ===== src/RateLimit/Tests.antt =====
-- Rate limits at concrete inputs.
use likes_service.Common.{
  ◌+◌, ◌*◌, ◌/◌, ◌≤◌, ◌≡◌, ◌↔◌, refl, min, [], ◌∷◌, text, none, text_eq, Lacks, arith,
}
use likes_service.Common.Maps.{get}
use likes_service.Effects.Examples.{quiet_world}
use likes_service.RateLimit.{ClientInfo, client_ip, rate_limit_window_key}
use likes_service.RateLimit.Windows.{rate_limit_window_key-bounds, rate_limit_window_key_iff}
use likes_service.RateLimit.Reservation.{
  Counted, unused, reserve_all, sum_requested, reserve_all-granted,
}

abbrev proxied : ClientInfo
proxied = record { x_forwarded_for = none; x_real_ip = none; peer = none }

no_address : client_ip proxied ≡ text "unknown"
unfolding client_ip
no_address = refl

rate_limit_window_key-bounds_example :
    let (reset, retry) = (rate_limit_window_key (text "read") (text "::1") 119).1 in
    (reset ≡ 119 + retry) × (1 ≤ retry) × (retry ≤ 60) × (reset ≡ reset / 60 * 60)
rate_limit_window_key-bounds_example = rate_limit_window_key-bounds (text "read") (text "::1") 119

read_Lacks : Lacks b':' (text "read")
unfolding text
read_Lacks = (refl, (refl, (refl, (refl, tt))))

rate_limit_window_key_iff_example :
    ((rate_limit_window_key (text "read") (text "::1") 60).0
      ≡ (rate_limit_window_key (text "read") (text "::1") 119).0)
    ↔ ((text "read" ≡ text "read") × (text "::1" ≡ text "::1") × (60 / 60 ≡ 119 / 60))
rate_limit_window_key_iff_example =
    rate_limit_window_key_iff (text "read") (text "read") (text "::1") (text "::1") 60 119
      read_Lacks read_Lacks

nothing-Counted : Counted (text "k") 60 quiet_world 0
unfolding get
nothing-Counted = unused refl

-- Two processes and a limit of 70, in the first minute.
reserve_all-granted_example :
    0 + reserve_all (text "k") 60 70 ((5, 50) ∷ (6, 50) ∷ []) quiet_world
    ≡ min 70 (0 + sum_requested ((5, 50) ∷ (6, 50) ∷ []))
reserve_all-granted_example =
    reserve_all-granted (text "k") 60 0 70 ((5, 50) ∷ (6, 50) ∷ []) quiet_world nothing-Counted
      (omega arith) (omega arith, (omega arith, tt))
