-- ===== src/Watchdog.antt =====
-- The watchdog that stops a node which no longer renews the leader key (patroni/watchdog/base.py).
pub mod Config
pub mod Device
pub mod Facade
pub mod Activation
pub mod Modes
