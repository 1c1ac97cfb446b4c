-- ===== src/Async.antt =====
-- The tasks that run beside the HA loop (patroni/async_executor.py).
pub mod Executor
pub mod Threads
pub mod Alone
pub mod Critical
