-- ===== src/Grpc/Tests.antt =====
-- Statuses of concrete errors.
use likes_service.Common.{List, [], ◌∷◌, text}
use likes_service.Grpc.Messages.{ContentRef}
use likes_service.Storage.{ContentKey}
use likes_service.Error.{content_validation, content_not_found}
use likes_service.Grpc.Statuses.{ComparesWithHttp, app_error_to_status_iff}

app_error_to_status_iff_example :
    ComparesWithHttp (content_validation (content_not_found (text "post") (text "c")))
app_error_to_status_iff_example =
    app_error_to_status_iff (content_validation (content_not_found (text "post") (text "c")))

abbrev refs : List ContentRef
refs =
    record { content_type = b'p' ∷ []; content_id = b'a' ∷ [] }
    ∷ record { content_type = b'p' ∷ []; content_id = b'a' ∷ [] }
    ∷ []

abbrev items : List ContentKey
items = (b'p' ∷ [], b'a' ∷ []) ∷ (b'p' ∷ [], b'a' ∷ []) ∷ []
