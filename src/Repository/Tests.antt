-- ===== src/Repository/Tests.antt =====
-- Runs of the repository, and its theorems at concrete inputs.
use likes_service.Common.{
  ◌≡◌, refl, List, [], ◌∷◌, text, some, text_eq, pair_eq, text_eqb, pair_eqb,
}
use likes_service.Common.Maps.{get, insert, remove}
use likes_service.Common.Results.{ok, err}
use likes_service.Error.{database}
use likes_service.Storage.{
  LikeKey, ContentKey, insert_like_row, increment_like_count, increment_hourly_count,
  delete_like_row, decrement_like_count, decrement_hourly_count, count_at,
}
use likes_service.Storage.Consistency.{IsConsistent, empty-IsConsistent, likes_of}
use likes_service.Effects.{World, done, unacknowledged, ◌>>=◌, read_clock, db_outcome, next_outcome}
use likes_service.Effects.Examples.{quiet_world}
use likes_service.Repository.{
  insert_like, delete_like, get_like_count, get_like_counts_batch, primary, already_exists, query,
  commit, count_inserted, count_deleted, in_range, answer, committed, collect,
}
use likes_service.Repository.Insertion.{Inserts, insert_like-Inserts, insert_like-IsConsistent}
use likes_service.Repository.Steps.{OnlyPrimary}
use likes_service.Repository.Deletion.{Deletes, delete_like-Deletes, delete_like-IsConsistent}
use likes_service.Repository.Reads.{Answers, get_like_counts_batch-exact}
use likes_service.Repository.Histories.{
  Operation, inserts, deletes, history, get_like_count-history,
}

abbrev content : ContentKey
content = (text "post", text "c1")

abbrev like : LikeKey
like = (text "u1", content)

abbrev after_insert : World
after_insert = (insert_like primary like quiet_world).1

like_twice : (insert_like primary like after_insert).0 ≡ ok already_exists
unfolding insert_like query commit count_inserted in_range answer committed db_outcome next_outcome
    read_clock ◌>>=◌ insert_like_row increment_like_count increment_hourly_count get insert text_eqb
    pair_eqb text
like_twice = refl

unlike_counted : count_at (delete_like primary like after_insert).1.db.like_counts content ≡ 0
unfolding insert_like delete_like query commit count_inserted count_deleted in_range answer
    committed db_outcome next_outcome read_clock ◌>>=◌ insert_like_row increment_like_count
    increment_hourly_count delete_like_row decrement_like_count decrement_hourly_count count_at get
    insert text_eqb pair_eqb text
unlike_counted = refl

-- The commit takes place and its reply is lost.
abbrev lossy : World
lossy = record quiet_world {
  db_outcomes = done ∷ done ∷ done ∷ done ∷ unacknowledged (text "connection reset") ∷ [];
}

lost_reply : (insert_like primary like lossy).0 ≡ err (database (text "connection reset"))
unfolding insert_like query commit count_inserted in_range answer committed db_outcome next_outcome
    read_clock ◌>>=◌ insert_like_row increment_like_count increment_hourly_count get insert text_eqb
    pair_eqb text
lost_reply = refl

insert_like-IsConsistent_example : IsConsistent (insert_like primary like lossy).1.db
insert_like-IsConsistent_example = insert_like-IsConsistent like lossy empty-IsConsistent

delete_like-IsConsistent_example : IsConsistent (delete_like primary like after_insert).1.db
delete_like-IsConsistent_example =
    delete_like-IsConsistent like after_insert
      (insert_like-IsConsistent like quiet_world empty-IsConsistent)

-- A like whose reply is lost, another one, and the first one taken back.
abbrev a_history : List Operation
a_history = inserts like ∷ inserts (text "u2", content) ∷ deletes like ∷ []

get_like_count-history_example :
    Answers
      (get_like_count primary content)
      (history a_history lossy)
      (record { count = likes_of (history a_history lossy).db content })
get_like_count-history_example = get_like_count-history a_history content lossy refl

insert_like-Inserts_example :
    Inserts like lossy (insert_like primary like lossy).0 (insert_like primary like lossy).1.db
    × OnlyPrimary lossy (insert_like primary like lossy).1
insert_like-Inserts_example = insert_like-Inserts like lossy

delete_like-Deletes_example :
    Deletes like after_insert
      (delete_like primary like after_insert).0
      (delete_like primary like after_insert).1.db
    × OnlyPrimary after_insert (delete_like primary like after_insert).1
delete_like-Deletes_example = delete_like-Deletes like after_insert

batch_runs :
    (get_like_counts_batch primary (content ∷ content ∷ []) quiet_world).0 ≡ ok ((content, 0) ∷ [])
unfolding get_like_counts_batch query answer db_outcome next_outcome collect ◌>>=◌ count_at get
    insert remove text_eqb pair_eqb text
batch_runs = refl

get_like_counts_batch-exact_example :
    get ((content, 0) ∷ []) content ≡ some (likes_of quiet_world.db content)
unfolding text_eqb pair_eqb text
get_like_counts_batch-exact_example =
    get_like_counts_batch-exact primary (content ∷ content ∷ []) quiet_world ((content, 0) ∷ [])
      empty-IsConsistent batch_runs content
