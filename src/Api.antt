-- ===== src/Api.antt =====
-- console/src/features/auth/api.ts, metrics/api.ts and servers/api.ts: the calls of the core's API.
-- Each is the path and the options that it hands to `apiFetch`; `call` makes the call.
use tarisya.Prelude.{String, true, some, [], ◌∷◌, ◌<>◌}
use tarisya.Json.{Json, string, object, end, field}
use tarisya.Types.{LoginPayload, CreateServerPayload, MetricsRange, 15m, 1h, 6h, 24h}
use tarisya.ApiClient.{Platform, RequestOptions, no_options, Result, api_fetch}

-- The arguments of one call of `apiFetch`.
pub record Call : Type 0 where
  pub path : String
  pub options : RequestOptions

unfoldable pub call : Platform → Call → Result
call platform c = api_fetch platform c.path c.options

abbrev get : String → Call
get path = record { path = path; options = no_options }

-- `{ method, … }`
abbrev with_method : String → RequestOptions
with_method method = record no_options { rest = ("method", method) ∷ [] }

abbrev post : String → Call
post path = record { path = path; options = with_method "POST" }

abbrev post_json : String → Json → Call
post_json path body = record {
  path = path;
  options = record (with_method "POST") { body = some body };
}

unfoldable pub login : LoginPayload → Call
login payload =
    post_json "/auth/login" (
      object
        (field "email" (string payload.email) (field "password" (string payload.password) end)))

unfoldable pub logout : Call
logout = post "/auth/logout"

unfoldable pub get_me : Call
get_me = get "/auth/me"

unfoldable pub get_latest_metrics : String → Call
get_latest_metrics server_id = get ("/servers/" <> server_id <> "/latest-metrics")

-- A range is written in a URL as it is named.
abbrev pub range_text : MetricsRange → String
range_text 15m = "15m"
range_text 1h = "1h"
range_text 6h = "6h"
range_text 24h = "24h"

unfoldable pub get_metrics_range : String → MetricsRange → Call
get_metrics_range server_id range = record {
  path = "/servers/" <> server_id <> "/metrics?range=" <> range_text range;
  options = record no_options { raw = true };
}

unfoldable pub list_servers : Call
list_servers = get "/servers"

unfoldable pub get_server : String → Call
get_server server_id = get ("/servers/" <> server_id)

unfoldable pub create_server : CreateServerPayload → Call
create_server payload = post_json "/servers" (object (field "name" (string payload.name) end))

unfoldable pub rotate_api_key : String → Call
rotate_api_key server_id = post ("/servers/" <> server_id <> "/rotate-api-key")

unfoldable pub delete_server : String → Call
delete_server server_id = record { path = "/servers/" <> server_id; options = with_method "DELETE" }
