-- ===== src/Ha.antt =====
-- The high-availability loop (patroni/ha.py): the leader race, who may enter it, and how the
-- replication state is published.
pub mod Race
pub mod Election
pub mod Cycle
pub mod Replication
pub mod Multisync
pub mod Prepromote
