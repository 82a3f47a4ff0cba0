-- ===== src/Integrations/SseEvents/Tables.antt =====
-- What is published leaves the tables of Postgres as they are.
use likes_service.Common.{Text, Option, none, some}
use likes_service.Common.Int.{ℤ}
use likes_service.Storage.{Database, ContentKey}
use likes_service.Effects.Keeps.{Keeps-bind, keeps_rules}
use likes_service.Effects.Tables.{KeepsTables, tables_rules}
use likes_service.Integrations.SseEvents.{
  EventFormat, LikeEvent, publish_event, current_timestamp, timestamp_or, publish_like,
  publish_unlike,
}
use likes_service.Redis.Tables.{reply_rules}

module _ {d : Database} where
  publish_event-Keeps :
      (format : EventFormat) (c : ContentKey) (event : LikeEvent)
      → KeepsTables d (publish_event format c event)
  unfolding publish_event
  publish_event-Keeps format c event = search (keeps_rules, reply_rules) depth 8

  current-Keeps :
      (format : EventFormat) {E : Type 0} → KeepsTables d (current_timestamp format {E = E})
  unfolding current_timestamp
  current-Keeps format = search (keeps_rules, tables_rules) depth 6

  timestamp_or-Keeps :
      (format : EventFormat) {E : Type 0} (t : Option Text)
      → KeepsTables d (timestamp_or format {E = E} t)
  unfolding timestamp_or
  timestamp_or-Keeps format none = current-Keeps format
  timestamp_or-Keeps format (some t) = search (keeps_rules, tables_rules)

  pub publish_like-Keeps :
      (format : EventFormat) (user : Text) (c : ContentKey) (count : ℤ) (t : Option Text)
      → KeepsTables d (publish_like format user c count t)
  unfolding publish_like
  publish_like-Keeps format user (type, i) count t =
      Keeps-bind _ _ (timestamp_or-Keeps format t) (λ s. publish_event-Keeps format _ _)

  pub publish_unlike-Keeps :
      (format : EventFormat) (user : Text) (c : ContentKey) (count : ℤ)
      → KeepsTables d (publish_unlike format user c count)
  unfolding publish_unlike
  publish_unlike-Keeps format user (type, i) count =
      Keeps-bind _ _ (current-Keeps format) (λ s. publish_event-Keeps format _ _)
