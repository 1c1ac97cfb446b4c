-- ===== src/Postgresql.antt =====
-- PostgreSQL support (patroni/postgresql): the synchronous standbys.
pub mod Sync
