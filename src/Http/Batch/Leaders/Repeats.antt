-- ===== src/Http/Batch/Leaders/Repeats.antt =====
-- A batch that asks twice for a content whose count is not cached.
use likes_service.Common.{ℕ, ◌+◌, ◌≡◌, refl, List, ◌∷◌, Option, none, text_eq}
use likes_service.Common.Maps.{get, get-insert_self}
use likes_service.Common.Results.{ok}
use likes_service.AppState.Fills.{begin-leader, begin-follower, with_fill}
use likes_service.Effects.{World, ◌>>=◌, pure}
use likes_service.Http.Batch.Leaders.{
  Filling, resumed, wait_then, permitted, and_more, collect_leaders,
}
use likes_service.Storage.{ContentKey}
use likes_service.UseCases.{like_count_cache_key}

-- The loop over the items that are not cached never ends if two of them in a row are the same, no fill
-- of their count is in flight, and no other task wakes the `Notify` that the first of them allocates.
pub collect_leaders-repeated :
    {E : Type 0} (woken : ℕ → World → Option World) (fresh : ℕ) (c : ContentKey)
    (items : List ContentKey) (f : Filling) (w : World)
    → ((v : World) → woken fresh v ≡ none)
    → get w.like_count_cache_inflight (like_count_cache_key c) ≡ none
    → (collect_leaders {E = E} woken fresh (c ∷ c ∷ items) f w).0 ≡ ok none
unfolding collect_leaders ◌>>=◌ permitted and_more wait_then resumed pure
collect_leaders-repeated {E} woken fresh c items f w own idle =
    rw
      (
        begin-leader {E = E} fresh (like_count_cache_key c) w idle,
        begin-follower {E = E} (fresh + 2) fresh (like_count_cache_key c)
            (with_fill (like_count_cache_key c) fresh w)
            (get-insert_self w.like_count_cache_inflight (like_count_cache_key c) fresh),
        own (with_fill (like_count_cache_key c) fresh w),
      )
      refl
