-- ===== src/Quorum.antt =====
-- `QuorumStateResolver` of patroni/quorum.py: the state machine that keeps
-- `synchronous_standby_names` and the `/sync` key overlapping. The state and the two kinds of
-- update are in Quorum/State and Quorum/Updates, the generator in Quorum/Stages and
-- Quorum/Resolver; the other children prove what it guarantees.
pub mod Kinds
pub mod State
pub mod Updates
pub mod Stages
pub mod Resolver
pub mod Overlap
pub mod Trace
pub mod Sound
pub mod Live
