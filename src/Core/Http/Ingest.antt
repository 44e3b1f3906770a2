-- ===== src/Core/Http/Ingest.antt =====
-- internal/core/http.go, receiveMetrics: an agent's payload, checked, authenticated by the key of its
-- server and stored. What the handler calls of Go's library is a parameter: the tests of a float64,
-- `strings.TrimSpace`, the bytes of a text, `strings.Cut` at a space and `strings.EqualFold`. A
-- timestamp is `none` where it is the zero time, and none is before 1970.
pub mod Rotated
use tarisya.Prelude.{
  ℕ, ◌+◌, Bool, true, false, not, ◌&&◌, ◌||◌, String, Option, none, some, List, [], ◌∷◌, ltb,
  str_eq, ◌⊎◌, inl, inr, if◌then◌else◌,
}
use tarisya.Json.{string, object, end, field}
use tarisya.Core.Database.{Values, Database}
use tarisya.Core.Store.{
  MetricsPayload, SaveError, database_full, constraint, api_key_valid, save_metrics,
}
use tarisya.Core.Http.{
  Response, write_json, write_error, internal_error, Body, decode_json, Services,
}

pub record Checks (F : Type 0) : Type 0 where
  pub is_nan : F → Bool
  pub is_inf : F → Bool
  pub is_negative : F → Bool
  pub exceeds_100 : F → Bool
  pub cut : String → Option (String × String)
  pub equal_fold : String → String → Bool

-- The payload as it is decoded, its timestamp in milliseconds if there is one.
pub record Received (F : Type 0) : Type 0 where
  pub payload : MetricsPayload F
  pub has_timestamp : Bool

-- `Bearer` and a token
abbrev bearer_of : (String → String → Bool) → Option (String × String) → Option String
bearer_of equal_fold none = none
bearer_of equal_fold (some (scheme, token)) =
    if equal_fold scheme "Bearer" && not (str_eq token "") then some token else none

module _ {F : Type 0} (h : Services) (c : Checks F) where
  unfoldable pub bearer_token : String → Option String
  bearer_token header = bearer_of c.equal_fold (c.cut header)

  abbrev pub is_bad : F → Bool
  is_bad value = c.is_nan value || c.is_inf value || c.is_negative value

  -- The error's message, and `none` where there is no error.
  unfoldable pub validate_payload : ℕ → Received F → Option String
  validate_payload now received =
      let p = received.payload in
      let v = p.metrics in
      if str_eq (h.trim_space p.server_id) ""
      then some "server_id is required"
      else if str_eq (h.trim_space p.hostname) "" || ltb 255 (h.len p.hostname)
      then some "hostname must contain 1 to 255 characters"
      else if str_eq (h.trim_space p.agent_version) "" || ltb 50 (h.len p.agent_version)
      then some "agent_version must contain 1 to 50 characters"
      else if not received.has_timestamp
      then some "timestamp is required"
      else if ltb (now + 300_000) p.timestamp
      then some "timestamp cannot be in the future"
      else if is_bad v.cpu_usage
          || is_bad v.memory_usage
          || is_bad v.disk_usage
          || is_bad v.load_average
      then some "metric values must be finite and non-negative"
      else if c.exceeds_100 v.cpu_usage
          || c.exceeds_100 v.memory_usage
          || c.exceeds_100 v.disk_usage
      then some "usage percentages cannot exceed 100"
      else none

  abbrev pub saved_reply : Option SaveError → Response
  saved_reply none = write_json 202 (object (field "status" (string "accepted") end))
  saved_reply (some database_full) =
      write_error 507 "metric ingestion is paused because the database size limit was reached"
  saved_reply (some constraint) = internal_error

  -- `now` is the store's clock; then the greatest size of the file and its size.
  abbrev pub save_for : ℕ → ℕ → ℕ → Received F → Option String → Database F → Response × Database F
  save_for now max_size size received none db =
      (write_error 401 "missing or invalid bearer token", db)
  save_for now max_size size received (some api_key) db =
      let (result, next) = save_metrics now max_size size received.payload db in
      if api_key_valid h.hash_api_key received.payload.server_id api_key db
      then (saved_reply result, next)
      else (write_error 401 "invalid API key", db)

  abbrev pub receive_valid :
      ℕ → ℕ → ℕ → Received F → String → Option String → Database F → Response × Database F
  receive_valid now max_size size received header (some message) db = (write_error 400 message, db)
  receive_valid now max_size size received header none db =
      save_for now max_size size received (bearer_token header) db

  abbrev pub receive_decoded :
      ℕ → ℕ → ℕ → ℕ → Response ⊎ Received F → String → Database F → Response × Database F
  receive_decoded clock now max_size size (inl refusal) header db = (refusal, db)
  receive_decoded clock now max_size size (inr received) header db =
      receive_valid now max_size size received header (validate_payload clock received) db

  unfoldable pub receive_metrics :
      ℕ → ℕ → ℕ → ℕ → Body (Received F) → String → Database F → Response × Database F
  receive_metrics clock now max_size size body header db =
      receive_decoded clock now max_size size (decode_json body) header db
