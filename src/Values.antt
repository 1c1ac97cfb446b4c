-- ===== src/Values.antt =====
-- The values of a configuration (patroni/utils.py), and how one is patched.
pub mod Value
pub mod Patch
pub mod Patched
