-- ===== src/Core/RateLimit/Retry.antt =====
-- When a refused client may come back.
use tarisya.Prelude.{String, false, ◌≡◌, str_eq}
use tarisya.Core.RateLimit.Laws.{Call}

abbrev pub IsOther : String → Call → Type 0
IsOther key call = str_eq call.1 key ≡ false
