-- ===== src/Dcs.antt =====
-- The views of the keys of the distributed configuration store (patroni/dcs/__init__.py).
pub mod SyncState
pub mod Slots
