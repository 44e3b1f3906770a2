-- ===== src/Core/Store/Examples.antt =====
-- Runs of the store, and its theorems at them. A key's hash is the key with a mark before it.
use mathlib.Core.Option
use mathlib.Core.List.{Perm}
use tarisya.Prelude.{
  ltb, leb, map, ℕ, String, true, none, some, List, [], ◌∷◌, ◌≡◌, refl, arith, ◌<>◌, length,
}
use tarisya.Core.Sql.{select}
use tarisya.Core.Database.{UserRow, Database}
use tarisya.Core.Store.{
  MetricsPayload, user_owns_server, delete_server, revoke_api_key, save_metrics, create_server,
  rotate_api_key, api_key_valid,
}
use tarisya.Core.Store.Tables.{lookup}
use tarisya.Core.Store.Registry.{Command, Answer, step, run, described_run}
use tarisya.Core.Store.Integrity.{IsSound}
use tarisya.Core.Store.Integrity.Steps.{run-IsSound}
use tarisya.Core.Store.View.{view}
use tarisya.Core.Store.Refinement.{run_refines}
use tarisya.Core.Store.Keys.{untouched, renewed}
use tarisya.Core.Store.Pages.{by_newest, is_of, metrics_history, history_page, follow}
use tarisya.Core.Store.Servers.{
  Thresholds, servers_by_user, server_by_user, status, overall_status, latest_metrics, max,
}
use tarisya.Core.Store.Servers.Agree.{summary, record_id, details_agree}
use tarisya.Core.Store.Pages.Order.{IsOrdered}
use tarisya.Core.Store.Pages.Complete.{follow_complete}

abbrev user : ℕ → String → UserRow
user id name = record {
  id = id;
  name = name;
  email = name <> "@example.com";
  password_hash = "";
  role = "user";
  created_at = 0;
}

abbrev two_users : Database ℕ
two_users = record {
  users = user 1 "ann" ∷ user 2 "bob" ∷ [];
  servers = [];
  keys = [];
  metrics = [];
}

abbrev mark : String → String
mark key = "#" <> key

abbrev sample : String → ℕ → MetricsPayload ℕ
sample server_id timestamp = record {
  server_id = server_id;
  hostname = "host";
  timestamp = timestamp;
  metrics = record {
    cpu_usage = 1;
    memory_usage = 2;
    disk_usage = 3;
    load_average = 4;
    uptime_seconds = 5;
  };
  agent_version = "1.0";
}

abbrev setup : List (Command ℕ)
setup =
    Command.create 10 1 "srv_a" "web" "one"
    ∷ Command.create 11 2 "srv_b" "mail" "two"
    ∷ Command.save 12 0 0 (sample "srv_a" 100)
    ∷ Command.save 13 0 0 (sample "srv_a" 300)
    ∷ Command.save 14 0 0 (sample "srv_a" 200)
    ∷ []

-- Asking, failing and changing.
abbrev later : List (Command ℕ)
later =
    Command.authenticate "srv_a" "one"
    ∷ Command.authenticate "srv_b" "one"
    ∷ Command.create 20 1 "srv_b" "again" "three"
    ∷ Command.create 20 1 "srv_c" "again" "two"
    ∷ Command.delete 1 "srv_b"
    ∷ Command.rotate 21 1 "srv_a" "two"
    ∷ Command.rotate 21 1 "srv_a" "three"
    ∷ Command.authenticate "srv_a" "one"
    ∷ Command.authenticate "srv_a" "three"
    ∷ Command.save 22 5 5 (sample "srv_a" 100)
    ∷ Command.save 22 6 5 (sample "srv_x" 100)
    ∷ Command.delete 1 "srv_a"
    ∷ Command.authenticate "srv_a" "three"
    ∷ Command.owns 2 "srv_b"
    ∷ []

abbrev filled : Database ℕ
filled = (run mark setup two_users).1

answers_are :
    (run mark later filled).0
    ≡ Answer.accepted ∷ Answer.not_found ∷ Answer.refused ∷ Answer.refused ∷ Answer.not_found
      ∷ Answer.refused ∷ Answer.accepted ∷ Answer.not_found ∷ Answer.accepted ∷ Answer.full
      ∷ Answer.refused ∷ Answer.accepted ∷ Answer.not_found ∷ Answer.accepted ∷ []
unfolding run step user_owns_server delete_server revoke_api_key save_metrics create_server
    rotate_api_key api_key_valid
answers_are = refl

two_users-IsSound : IsSound two_users
two_users-IsSound = record {
  servers_unique = tt;
  keys_unique = tt;
  have_users = tt;
  keys_refer = tt;
  metrics_refer = tt;
}

run-IsSound_example : IsSound (run mark setup two_users).1
run-IsSound_example = run-IsSound mark setup two_users two_users-IsSound

run_refines_example :
    let (answers, last) = run mark later two_users in
    (answers, view last) ≡ described_run mark later (view two_users)
run_refines_example = run_refines mark later two_users two_users-IsSound

abbrev by_bob : List (Command ℕ)
by_bob =
    Command.delete 2 "srv_a"
    ∷ Command.rotate 30 2 "srv_a" "mine"
    ∷ Command.create 31 2 "srv_a" "b" "one"
    ∷ Command.revoke 32 2 "srv_b"
    ∷ []

untouched_example :
    let last = (run mark by_bob (run mark setup two_users).1).1 in
    (user_owns_server 1 "srv_a" last ≡ true)
    × ((key : String)
        → api_key_valid mark "srv_a" key last
          ≡ api_key_valid mark "srv_a" key (run mark setup two_users).1)
unfolding run step save_metrics create_server user_owns_server
untouched_example =
    untouched mark 1 "srv_a" by_bob (run mark setup two_users).1
      (run-IsSound mark setup two_users two_users-IsSound) refl (refl, (refl, (tt, (refl, tt))))

renewed_example :
    api_key_valid mark "srv_a" "three"
      (run mark by_bob
        (step mark (Command.rotate 21 1 "srv_a" "three") (run mark setup two_users).1).1).1
    ≡ true
unfolding run step save_metrics create_server user_owns_server rotate_api_key
renewed_example =
    renewed mark 1 "srv_a" 21 (some "three") by_bob (run mark setup two_users).1
      (run-IsSound mark setup two_users two_users-IsSound) refl (refl, (refl, (tt, (refl, tt))))
      "three"

-- The second page begins after the last row of the first.
pages_are :
    (follow 4 "srv_a" 2 none filled ≡ some (by_newest filled.metrics))
    × ((history_page "srv_a" 2 none filled).next_cursor ≡ some 200)
unfolding run step save_metrics create_server follow history_page metrics_history
pages_are = (refl, refl)

-- Of two rows with the same time, on both sides of a page's end, the client does not see the second.
abbrev same_time : List (Command ℕ)
same_time = Command.save 15 0 0 (sample "srv_a" 200) ∷ []

row_is_missed :
    (length (run mark same_time filled).1.metrics ≡ 4)
    × (Option.map length (follow 9 "srv_a" 2 none (run mark same_time filled).1) ≡ some 3)
unfolding run step save_metrics create_server follow history_page metrics_history
row_is_missed = (refl, refl)

follow_complete_example :
    let rows = select (is_of "srv_a") filled.metrics in
    (follow 4 "srv_a" 2 none filled ≡ some (by_newest rows))
    × IsOrdered (by_newest rows)
    × Perm (by_newest rows) rows
unfolding run step save_metrics create_server
follow_complete_example =
    follow_complete "srv_a" 2 4 filled (omega arith) (omega arith)
      ((refl, (refl, tt)), ((refl, tt), (tt, tt)))

abbrev thresholds : Thresholds ℕ
thresholds = record {
  lt = ltb;
  ge = λ a b. leb b a;
  now = 60_014;
  offline = 60_000;
  warn = 2;
  critical = 4;
}

details_agree_example :
    Option.map summary (server_by_user thresholds 1 "srv_a" (run mark setup two_users).1)
    ≡ lookup record_id "srv_a" (servers_by_user thresholds 1 (run mark setup two_users).1)
details_agree_example =
    details_agree thresholds 1 "srv_a" (run mark setup two_users).1
      (run-IsSound mark setup two_users two_users-IsSound)

-- A server with metrics, one that never reported, one of another user.
statuses_are :
    (map (λ r. r.overall_status) (servers_by_user thresholds 1 filled) ≡ "warning" ∷ [])
    × (map (λ r. r.overall_status) (servers_by_user thresholds 2 filled) ≡ "pending" ∷ [])
    × (server_by_user thresholds 2 "srv_a" filled ≡ none)
    × (overall_status (status thresholds (some 13) none) ≡ "offline")
    × (overall_status (status thresholds (some 14) none) ≡ "unknown")
unfolding run step save_metrics create_server servers_by_user server_by_user status max
    overall_status latest_metrics
statuses_are = (refl, refl, refl, refl, refl)
