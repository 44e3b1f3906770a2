-- ===== src/Queries/Unauthorized.antt =====
-- Which failures the query of the session throws: all but a 401.
use tarisya.Prelude.{String, false, not, ◌≡◌, ◌↔◌, arith}
use tarisya.ApiClient.{Failure, api_error, network, bad_json}
use tarisya.Queries.{is_unauthorized}

pub unauthorized_iff :
    (error : Failure)
    → (not (is_unauthorized error) ≡ false) ↔ ((message : String) × (error ≡ api_error 401 message))
unauthorized_iff (api_error status message) = (λ e. (message, ground arith), λ (m, e). ground arith)
unauthorized_iff network = (λ e. cc, λ (m, e). cc)
unauthorized_iff bad_json = (λ e. cc, λ (m, e). cc)
