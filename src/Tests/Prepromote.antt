-- ===== src/Tests/Prepromote.antt =====
-- `Ha.process_sync_replication_prepromote` (patroni/ha.py) at the node of the election.
use metatroni.Prelude.{◌≡◌, refl, true, none}
use metatroni.Prelude.Int.{ℤ}
use metatroni.Collections.{CaseInsensitiveSet, contains, discard, from_list, add, add_all}
use metatroni.Ha.Election.{quorum_commit_mode_is_active}
use metatroni.Ha.Prepromote.{
  Prepromotion, keep_syncing, sync_and_numsync, process_sync_replication_prepromote,
}
use metatroni.Ha.Prepromote.Overlaps.{Overlaps, process_sync_replication_prepromote-Overlaps}
use metatroni.Tests.Election.{node}
use metatroni.Tests.Replication.{program as replication_program, takes}

program : Unit {0}
unfolding replication_program contains discard from_list add add_all quorum_commit_mode_is_active
    keep_syncing sync_and_numsync process_sync_replication_prepromote
program = tt

is_active : quorum_commit_mode_is_active node ≡ true
unfolding program
is_active = refl

process_sync_replication_prepromote-Overlaps_example :
    (kept : CaseInsensitiveSet × ℤ) × (process_sync_replication_prepromote takes true 0 node
      ≡ Prepromotion.assigns none kept.0 kept.1)
    × Overlaps node.race.name node.race.sync kept
process_sync_replication_prepromote-Overlaps_example =
    process_sync_replication_prepromote-Overlaps takes 0 node refl is_active
