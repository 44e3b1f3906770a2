-- ===== src/Queries.antt =====
-- console/src/features/*/hooks.ts: the keys and options of the queries, and what the mutations do
-- to the query cache. @tanstack/react-query is not modelled: it takes these options, and the
-- theorems state what it needs to do with them.
pub mod Keys
pub mod Cache
pub mod Unauthorized
mod Examples
use tarisya.Prelude.{
  ℕ, ◌*◌, String, Bool, true, false, not, Option, none, some, List, [], ◌∷◌, str_eq, ltb, ◌==◌,
  ◌&&◌, if◌then◌else◌, or_else, ◌≡◌,
}
use tarisya.Types.{MetricsRange}
use tarisya.ApiClient.{Failure, api_error, network, bad_json}
use tarisya.Api.{
  Call, get_me, get_latest_metrics, get_metrics_range, range_text, list_servers, get_server,
}

-- A query key is a sequence of texts.
abbrev pub QueryKey : Type 0
QueryKey = List String

abbrev pub me_key : QueryKey
me_key = "auth" ∷ "me" ∷ []

abbrev pub latest_key : String → QueryKey
latest_key server_id = "metrics" ∷ server_id ∷ "latest" ∷ []

abbrev pub range_key : String → MetricsRange → QueryKey
range_key server_id range = "metrics" ∷ server_id ∷ "range" ∷ range_text range ∷ []

abbrev pub list_key : QueryKey
list_key = "servers" ∷ []

abbrev pub detail_key : String → QueryKey
detail_key server_id = "servers" ∷ server_id ∷ []

-- The options of `useQuery`; an option that is left out is `none`. Times are in milliseconds.
pub record QueryOptions : Type 0 where
  pub query_key : QueryKey
  pub query_fn : Call
  pub enabled : Option Bool
  pub retry : Option (ℕ → Failure → Bool)
  pub stale_time : Option ℕ
  pub refetch_interval : Option ℕ
  pub throw_on_error : Option (Failure → Bool)

abbrev query : QueryKey → Call → QueryOptions
query key c = record {
  query_key = key;
  query_fn = c;
  enabled = none;
  retry = none;
  stale_time = none;
  refetch_interval = none;
  throw_on_error = none;
}

-- `Boolean(serverId)`
abbrev pub truthy : Option String → Bool
truthy none = false
truthy (some s) = not (str_eq s "")

-- `${serverId}`
abbrev template : Option String → String
template none = "undefined"
template (some s) = s

-- `error instanceof ApiError && error.status === 401`
abbrev pub is_unauthorized : Failure → Bool
is_unauthorized (api_error status message) = status == 401
is_unauthorized _ = false

-- `error instanceof ApiError && error.status < 500`
abbrev pub is_client_error : Failure → Bool
is_client_error (api_error status message) = ltb status 500
is_client_error _ = false

unfoldable pub use_me : QueryOptions
use_me = record (query me_key get_me) {
  retry = some (λ failure_count error. false);
  stale_time = some (5 * 60 * 1000);
  throw_on_error = some (λ error. not (is_unauthorized error));
}

unfoldable pub use_latest_metrics : Option String → QueryOptions
use_latest_metrics server_id =
    record (query (latest_key (or_else server_id "")) (get_latest_metrics (template server_id))) {
      enabled = some (truthy server_id);
      refetch_interval = some 15_000;
    }

unfoldable pub use_metrics_range : Option String → MetricsRange → QueryOptions
use_metrics_range server_id range =
    record (query (range_key (or_else server_id "") range)
      (get_metrics_range (template server_id) range)) {
        enabled = some (truthy server_id);
        stale_time = some (60 * 1000);
        retry =
            some
              (λ failure_count error. if is_client_error error then false else ltb failure_count 3);
      }

unfoldable pub use_servers : QueryOptions
use_servers = record (query list_key list_servers) { stale_time = some (60 * 1000) }

unfoldable pub use_server : Option String → QueryOptions
use_server server_id =
    record (query (detail_key (or_else server_id "")) (get_server (template server_id))) {
      enabled = some (truthy server_id);
      stale_time = some (30 * 1000);
      refetch_interval = some (30 * 1000);
    }

-- The queries of the console, by the hook that makes them and its arguments.
pub data Hook : Type 0 where
  me servers : Hook
  latest_metrics server : Option String → Hook
  metrics_range : Option String → MetricsRange → Hook

abbrev pub options : Hook → QueryOptions
options me = use_me
options servers = use_servers
options (latest_metrics server_id) = use_latest_metrics server_id
options (server server_id) = use_server server_id
options (metrics_range server_id range) = use_metrics_range server_id range

-- A query runs unless its options disable it.
abbrev pub IsEnabled : Hook → Type 0
IsEnabled h = or_else ((options h).enabled) true ≡ true
