-- ===== src/Dashboard/Overview/Examples.antt =====
-- The overview at a concrete server.
use tarisya.Prelude.{none}
use tarisya.Types.{ServerDetail, OverallStatus, ConnectivityStatus, HealthStatus}

abbrev web : ServerDetail
web = record {
  server = record {
    id = "s1";
    name = "web";
    overall_status = OverallStatus.healthy;
    connectivity_status = ConnectivityStatus.online;
    health_status = HealthStatus.healthy;
    last_seen_at = none;
    created_at = "2026-01-01";
  };
  hostname = "web-1";
  agent_version = "1.2";
  uptime_seconds = 3600;
}
