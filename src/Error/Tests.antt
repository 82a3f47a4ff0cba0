-- ===== src/Error/Tests.antt =====
-- The theorems at concrete inputs.
use likes_service.Common.{text}
use likes_service.Error.{database}
use likes_service.Error.Mapping.{InternalIffLogged, internal_iff_logged}

internal_iff_logged_example : InternalIffLogged (database (text "pool timed out"))
internal_iff_logged_example = internal_iff_logged (database (text "pool timed out"))
