-- ===== src/Core/Http/Console/Settles.antt =====
-- How the console's calls settle on every answer of the core, refusals included.
use tarisya.Prelude.{ℕ, String, Bool, Option, ◌≡◌, ◌⊎◌}
use tarisya.Json.{Json}
use tarisya.ApiClient.{Result, resolved, rejected, api_error}
use tarisya.Api
use tarisya.Core.Http.{Response}
use tarisya.Core.Http.Console.Refusals.{Refusal}

-- The call resolves, or it is rejected with the status and the message of a refusal.
abbrev pub Settled : Bool → (Response ⊎ ℕ) → Result → Type 0
Settled allowed who result =
    ((value : Option Json) × (result ≡ resolved value))
    ⊎ ((status : ℕ) × (message : String) × Refusal allowed who status message
        × (result ≡ rejected (api_error status message)))
