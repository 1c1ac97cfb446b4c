-- ===== src/Quorum/Live.antt =====
-- What the resolver (patroni/quorum.py) achieves.
pub mod Runs
pub mod Members
pub mod Updates
pub mod Stages
pub mod Factor
pub mod Target
