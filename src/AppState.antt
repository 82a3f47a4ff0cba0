-- ===== src/AppState.antt =====
-- What the process keeps for its handlers: src/app_state.rs, the local cache of counts and the fills
-- of that cache that are in flight. A lock that is taken, and the code under it, is one step. A
-- poisoned lock is not modelled. A `Notify` is the number of its allocation: two are the same object
-- exactly if they have the same number.
pub mod Frame
pub mod Fills
use likes_service.Common.{
  ℕ, ◌+◌, ◌*◌, ◌≤◌, ◌<◌, Bool, true, false, [], ◌∷◌, Text, Option, none, some, ltb, nat_eqb,
  if◌then◌else◌, text_eq,
}
use likes_service.Common.Int.{ℤ}
use likes_service.Common.Maps.{Map, get, insert, remove}
use likes_service.Effects.{
  World, Exec, LocalLikeCountCacheEntry, pure, gets, modify, ◌>>=◌, ◌>>◌, read_clock,
}

-- LocalLikeCountCache::get. An entry that is no longer valid is removed.
fresh_count : {E : Type 0} → Text → ℕ → Option LocalLikeCountCacheEntry → Exec E (Option ℤ)
fresh_count key now none = pure none
fresh_count key now (some entry) = if ltb now entry.expires_at then pure (some entry.count) else (do
  modify (λ w. record w { local_like_count_cache = remove w.local_like_count_cache key })
  pure none)

unfoldable pub get_local : {E : Type 0} → Text → Exec E (Option ℤ)
unfolding fresh_count
get_local key = do
  now ← read_clock
  entry ← gets (λ w. get w.local_like_count_cache key)
  fresh_count key now entry

-- LocalLikeCountCache::set
unfoldable pub set_local : {E : Type 0} → Text → ℤ → ℕ → Exec E Unit
set_local key count ttl = do
  now ← read_clock
  let entry : LocalLikeCountCacheEntry = record { count = count; expires_at = now + ttl }
  modify (λ w. record w { local_like_count_cache = insert w.local_like_count_cache key entry })

pub data LikeCountFillPermit : Type 0 where
  leader follower : ℕ → LikeCountFillPermit

permit_for : {E : Type 0} → Text → ℕ → Option ℕ → Exec E LikeCountFillPermit
permit_for key fresh (some notify) = pure (follower notify)
permit_for key fresh none = do
  modify
      (λ w. record w { like_count_cache_inflight = insert w.like_count_cache_inflight key fresh })
  pure (leader fresh)

-- AppState::begin_like_count_fill, where `fresh` is the number of the new `Notify`.
unfoldable pub begin_like_count_fill : {E : Type 0} → ℕ → Text → Exec E LikeCountFillPermit
unfolding permit_for
begin_like_count_fill fresh key = do
  current ← gets (λ w. get w.like_count_cache_inflight key)
  permit_for key fresh current

abbrev is_same : ℕ → Option ℕ → Bool
is_same notify none = false
is_same notify (some current) = nat_eqb current notify

-- AppState::finish_like_count_fill. Whoever waits on `notify` is woken by the return of this.
unfoldable pub finish_like_count_fill : {E : Type 0} → Text → ℕ → Exec E Unit
finish_like_count_fill key notify = modify (λ w.
    if is_same notify (get w.like_count_cache_inflight key)
    then record w { like_count_cache_inflight = remove w.like_count_cache_inflight key }
    else w)
