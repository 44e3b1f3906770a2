-- ===== src/Core.antt =====
-- internal/core: the server that the console and the agents talk to.
pub mod RateLimit
pub mod Sql
pub mod Database
pub mod Store
pub mod Http
pub mod Retention
