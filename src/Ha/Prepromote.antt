-- ===== src/Ha/Prepromote.antt =====
-- `Ha.process_sync_replication_prepromote` (patroni/ha.py): the setting `synchronous_standby_names`
-- that a node gives itself before it is promoted.
pub mod Overlaps
use metatroni.Prelude.{
  ℕ, Bool, true, false, not, ◌&&◌, ◌||◌, List, [], Option, none, some, length, if◌then◌else◌,
}
use metatroni.Prelude.Int.{ℤ, pos, ◌+ℤ◌, ◌-ℤ◌, ltb_ℤ}
use metatroni.Names.{Name}
use metatroni.Collections.{CaseInsensitiveSet, contains, discard, from_list}
use metatroni.Dcs.SyncState.{SyncState, SyncDict, members, write_sync_state}
use metatroni.Ha.Election.{Ha, quorum_commit_mode_is_active}

-- `disables` is the call of `disable_synchronous_replication`, `fails` the return of `False`, and
-- `assigns` the call of `set_synchronous_standby_names`, with the key where it was written.
pub data Prepromotion : Type 0 where
  disables : Prepromotion
  fails : Prepromotion
  assigns : Option SyncState → CaseInsensitiveSet → ℤ → Prepromotion

-- The standbys and their number, where quorum commit is active.
unfoldable pub keep_syncing : Name → SyncState → CaseInsensitiveSet × ℤ
keep_syncing name sync =
    let nodes = from_list (members sync) in
    let numsync = pos (length nodes) -ℤ sync.quorum -ℤ pos 1 in
    if contains name nodes then (discard name nodes, numsync) else (nodes, numsync +ℤ pos 1)

unfoldable pub sync_and_numsync : Ha → ℕ → CaseInsensitiveSet × ℤ
unfolding keep_syncing quorum_commit_mode_is_active
sync_and_numsync h min_sync =
    if quorum_commit_mode_is_active h
    then keep_syncing h.race.name h.race.sync
    else ([], pos min_sync)

-- `process_sync_replication_prepromote`
unfoldable pub process_sync_replication_prepromote :
    (SyncDict → Option ℕ → Option ℕ) → Bool → ℕ → Ha → Prepromotion
unfolding sync_and_numsync
process_sync_replication_prepromote set_sync_state_value supports_multiple_sync min_sync h =
    let kept = sync_and_numsync h min_sync in
    let reset : Prepromotion =
      elim (write_sync_state set_sync_state_value (some h.race.name) [] (pos 0)
        h.race.sync.version) [ none ↦ fails | some sync ↦ assigns (some sync) [] (pos min_sync) ] in
    if not h.is_synchronous_mode
    then disables
    else if not h.is_quorum_commit_mode || (not supports_multiple_sync && ltb_ℤ (pos 1) kept.1)
    then reset
    else assigns none kept.0 kept.1
