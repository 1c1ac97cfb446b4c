-- ===== src/Tests.antt =====
-- The theorems at concrete inputs, and runs of the definitions.
mod Quorum
mod QuorumTheorems
mod SyncState
mod Race
mod Election
mod Replication
mod Dict
mod Standbys
mod SyncHandler
mod Watchdog
mod Async
mod Multisync
mod Values
mod Prepromote
mod Cycle
mod Slots
