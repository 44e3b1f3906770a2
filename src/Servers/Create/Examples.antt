-- ===== src/Servers/Create/Examples.antt =====
-- The dialog at a concrete server.
use tarisya.Prelude.{ℕ, true, false, none, some, [], ◌∷◌, ◌≡◌, refl}
use tarisya.Jsx
use tarisya.Jsx.{texts}
use tarisya.Types.{
  OverallStatus, ConnectivityStatus, HealthStatus, AgentConfig, CreateServerResponse,
}
use tarisya.ApiClient.{Failure}
use tarisya.Api.{create_server}
use tarisya.Mutations.{Answer, success, failure}
use tarisya.Mutations.Reference.{counting, counting-IsObserver}
use tarisya.Servers.Copyable.{copyable_field}
use tarisya.Servers.Create.{
  CreateState, initial, handle_open_change, set_name, handle_submit, answered,
}
use tarisya.Servers.Create.View.{view}
use tarisya.Servers.Create.Laws.{
  opens_or_closes, types, submits, Reach, start, next, closed_forgets, submit_then_answered,
}

abbrev config : AgentConfig
config = record { server_id = "srv_1"; api_key = "tar_1"; core_url = "http://core" }

abbrev response : CreateServerResponse
response = record {
  server = record {
    id = "srv_1";
    name = "Campus Server";
    overall_status = OverallStatus.pending;
    connectivity_status = ConnectivityStatus.pending;
    health_status = HealthStatus.unknown;
    last_seen_at = none;
    created_at = "2026-01-01T00:00:00Z";
  };
  agent_config = config;
}

-- Open, with a name; submitted; and closed again before the answer.
abbrev named : CreateState counting
named = set_name counting "Campus Server" (handle_open_change counting true (initial counting))

abbrev sent : CreateState counting
sent = (handle_submit counting named).0

abbrev closed : CreateState counting
closed = handle_open_change counting false sent

runs :
    (texts (view (λ e. "failed") counting (answered counting 0 (success response) sent))
      ≡ "Add Server" ∷ "Server created"
        ∷ "Simpan konfigurasi ini pada server target. API key hanya ditampilkan sekali."
        ∷ "TARISYA_SERVER_ID" ∷ "srv_1" ∷ "Copy " ∷ "TARISYA_SERVER_ID" ∷ "TARISYA_API_KEY"
        ∷ "tar_1" ∷ "Copy " ∷ "TARISYA_API_KEY" ∷ "TARISYA_CORE_URL" ∷ "http://core" ∷ "Copy "
        ∷ "TARISYA_CORE_URL" ∷ "Done" ∷ [])
    × ((answered counting 0 (success response) closed).agent_config ≡ none)
unfolding view texts copyable_field answered handle_submit handle_open_change set_name initial
    Jsx.when
runs = (refl, refl)

closed-Reach : Reach counting closed
unfolding handle_open_change set_name initial handle_submit
closed-Reach =
    next
      (next (next (next start (opens_or_closes _ true)) (types _ "Campus Server" refl))
        (submits _ refl refl refl))
      (opens_or_closes _ false)

closed_forgets_example :
    (closed.name ≡ "")
    × (closed.agent_config ≡ none)
    × ((id : ℕ) (answer : Answer CreateServerResponse)
        → answered counting id answer closed ≡ closed)
unfolding handle_open_change
closed_forgets_example = closed_forgets counting counting-IsObserver closed closed-Reach refl

submit_then_answered_example :
    let (sent, id, c) = handle_submit counting named in
    (c ≡ create_server (record { name = named.name }))
    × (counting.is_pending sent.mutation ≡ true)
    × ((response : CreateServerResponse)
        → ((answered counting id (success response) sent).agent_config ≡ some response.agent_config)
          × ((answered counting id (success response) sent).is_open ≡ named.is_open))
    × ((e : Failure)
        → let t = answered counting id (failure e) sent in
          (t.agent_config ≡ named.agent_config)
          × (t.name ≡ named.name)
          × (counting.error t.mutation ≡ some e)
          × (counting.is_pending t.mutation ≡ false))
submit_then_answered_example = submit_then_answered counting counting-IsObserver named
