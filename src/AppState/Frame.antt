-- ===== src/AppState/Frame.antt =====
-- The local cache is apart from the replica's tables and from the fills in flight.
use likes_service.Common.{ℕ, Text, Option, none, some}
use likes_service.Common.Int.{ℤ}
use likes_service.Common.Maps.{Map}
use likes_service.Storage.{Database}
use likes_service.Effects.{LocalLikeCountCacheEntry, read_clock}
use likes_service.Effects.Frame.{KeepsFrame, KeepsFrame-read_clock, KeepsFrame-modify}
use likes_service.Effects.Keeps.{Keeps-bind, Keeps-pure, Keeps-if, Keeps-gets}
use likes_service.AppState.{get_local, fresh_count, set_local}

module _ {E : Type 0} {d : Database} {m : Map Text ℕ} where
  pub set_local-Frame :
      (key : Text) (count : ℤ) (ttl : ℕ) → KeepsFrame d m (set_local {E = E} key count ttl)
  unfolding set_local
  set_local-Frame key count ttl =
      Keeps-bind read_clock _ KeepsFrame-read_clock (λ now. KeepsFrame-modify _ (λ w h. h))

  fresh-Frame :
      (key : Text) (now : ℕ) (o : Option LocalLikeCountCacheEntry)
      → KeepsFrame d m (fresh_count {E = E} key now o)
  unfolding fresh_count
  fresh-Frame key now none = Keeps-pure none
  fresh-Frame key now (some entry) =
      Keeps-if _ _ _ (Keeps-pure (some entry.count))
        (Keeps-bind _ _ (KeepsFrame-modify _ (λ w h. h)) (λ u. Keeps-pure none))

  pub get_local-Frame : (key : Text) → KeepsFrame d m (get_local {E = E} key)
  unfolding get_local
  get_local-Frame key =
      Keeps-bind read_clock _ KeepsFrame-read_clock
        (λ now. Keeps-bind _ _ (Keeps-gets _) (λ entry. fresh-Frame key now entry))
