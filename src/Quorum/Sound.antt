-- ===== src/Quorum/Sound.antt =====
-- The invariant of a run of the generator (patroni/quorum.py), and the rules by which a block of
-- the generator keeps it: what was yielded leads from the first view to the present one, through
-- views that are all safe.
pub mod Rules
pub mod Updates
pub mod Stages
pub mod Failover
pub mod Recovery
pub mod Transitions
