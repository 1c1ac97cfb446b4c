-- ===== src/Postgresql/Sync.antt =====
-- `synchronous_standby_names` and the choice of synchronous standbys (patroni/postgresql/sync.py).
pub mod Lexer
pub mod Parser
pub mod Writer
pub mod Names
pub mod List
pub mod RoundTrip
pub mod Keywords
pub mod Replicas
pub mod Handler
pub mod Cascade
pub mod Ready
pub mod Choice
pub mod Confirmed
