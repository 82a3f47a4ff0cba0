-- ===== src/Http/Caches/Frame.antt =====
-- Asking for cached counts leaves the replica's tables and the fills in flight as they are.
use likes_service.Common.{ℕ, List, [], ◌∷◌, Text, Option, none, some}
use likes_service.Common.Int.{ℤ}
use likes_service.Common.Maps.{Map}
use likes_service.Storage.{Database}
use likes_service.AppState.Frame.{get_local-Frame, set_local-Frame}
use likes_service.Effects.Frame.{KeepsFrame}
use likes_service.Effects.Keeps.{Keeps-pure, Keeps-bind, keeps_rules}
use likes_service.Http.Caches.{
  store_local_like_count, keep_local, cached_in_redis, get_cached_like_count, local_counts,
  fill_slots, unless_complete, get_cached_like_counts,
}
use likes_service.Redis.Frame.{get_redis_connection-Frame, get_integer-Frame, get_integers-Frame}

module _ {d : Database} {m : Map Text ℕ} where
  keep-Frame : (key : Text) (o : Option ℤ) → KeepsFrame d m (keep_local key o)
  unfolding keep_local store_local_like_count
  keep-Frame key none = Keeps-pure none
  keep-Frame key (some count) = search (keeps_rules, set_local-Frame)

  cached-Frame : (key : Text) (o : Option ℤ) → KeepsFrame d m (cached_in_redis key o)
  unfolding cached_in_redis
  cached-Frame key (some count) = Keeps-pure (some count)
  cached-Frame key none =
      search (keeps_rules, get_redis_connection-Frame, get_integer-Frame, keep-Frame) depth 8

  pub get_cached_like_count-Frame : (key : Text) → KeepsFrame d m (get_cached_like_count key)
  unfolding get_cached_like_count
  get_cached_like_count-Frame key = search (keeps_rules, get_local-Frame, cached-Frame)

  local_counts-Frame : {E : Type 0} (keys : List Text) → KeepsFrame d m (local_counts {E = E} keys)
  unfolding local_counts
  local_counts-Frame [] = Keeps-pure []
  local_counts-Frame (key ∷ keys) =
      Keeps-bind _ _ (get_local-Frame key)
        (λ count. Keeps-bind _ _ (local_counts-Frame keys) (λ rest. Keeps-pure _))

  store-Frame :
      {E : Type 0} (key : Text) (count : ℤ)
      → KeepsFrame d m (store_local_like_count {E = E} key count)
  unfolding store_local_like_count
  store-Frame key count = set_local-Frame key count _

  fill_slots-Frame :
      {E : Type 0} (slots : List (Text × Option ℤ)) (replies : List (Option ℤ))
      → KeepsFrame d m (fill_slots {E = E} slots replies)
  unfolding fill_slots
  fill_slots-Frame [] replies = Keeps-pure []
  fill_slots-Frame ((key, some count) ∷ slots) replies =
      Keeps-bind _ _ (fill_slots-Frame slots replies) (λ rest. Keeps-pure _)
  fill_slots-Frame ((key, none) ∷ slots) [] =
      Keeps-bind _ _ (fill_slots-Frame slots []) (λ rest. Keeps-pure _)
  fill_slots-Frame ((key, none) ∷ slots) (none ∷ replies) =
      Keeps-bind _ _ (fill_slots-Frame slots replies) (λ rest. Keeps-pure _)
  fill_slots-Frame ((key, none) ∷ slots) (some count ∷ replies) =
      Keeps-bind _ _ (store-Frame key count)
        (λ u. Keeps-bind _ _ (fill_slots-Frame slots replies) (λ rest. Keeps-pure _))

  unless_complete-Frame :
      (slots : List (Text × Option ℤ)) (keys : List Text)
      → KeepsFrame d m (unless_complete slots keys)
  unfolding unless_complete
  unless_complete-Frame slots [] = fill_slots-Frame slots []
  unless_complete-Frame slots (key ∷ keys) =
      search (keeps_rules, get_redis_connection-Frame, get_integers-Frame, fill_slots-Frame) depth 8

  pub get_cached_like_counts-Frame :
      (keys : List Text) → KeepsFrame d m (get_cached_like_counts keys)
  unfolding get_cached_like_counts
  get_cached_like_counts-Frame keys =
      search (keeps_rules, local_counts-Frame, unless_complete-Frame)
