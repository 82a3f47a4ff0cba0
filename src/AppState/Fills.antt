-- ===== src/AppState/Fills.antt =====
-- Who leads a fill.
use likes_service.Common.{ℕ, ◌≡◌, refl, Text, none, some, text_eq}
use likes_service.Common.Maps.{get, insert}
use likes_service.Common.Results.{ok}
use likes_service.Effects.{World, modify, pure, ◌>>=◌}
use likes_service.AppState.{leader, follower, permit_for, begin_like_count_fill}

abbrev pub with_fill : Text → ℕ → World → World
with_fill key notify w = record w {
  like_count_cache_inflight = insert w.like_count_cache_inflight key notify;
}

-- Where no fill is in flight, the request leads one.
pub begin-leader :
    {E : Type 0} (fresh : ℕ) (key : Text) (w : World)
    → get w.like_count_cache_inflight key ≡ none
    → begin_like_count_fill {E = E} fresh key w ≡ (ok (leader fresh), with_fill key fresh w)
unfolding begin_like_count_fill permit_for ◌>>=◌ modify pure
begin-leader fresh key w idle = rw idle refl

-- Where one is, the request follows it.
pub begin-follower :
    {E : Type 0} (fresh notify : ℕ) (key : Text) (w : World)
    → get w.like_count_cache_inflight key ≡ some notify
    → begin_like_count_fill {E = E} fresh key w ≡ (ok (follower notify), w)
unfolding begin_like_count_fill permit_for ◌>>=◌ pure
begin-follower fresh notify key w busy = rw busy refl
