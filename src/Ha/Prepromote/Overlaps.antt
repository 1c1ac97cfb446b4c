-- ===== src/Ha/Prepromote/Overlaps.antt =====
-- The setting of a node that is about to be promoted fits the quorum of the key (patroni/ha.py).
use metatroni.Prelude.{
  ℕ, suc, ◌≡◌, refl, sym, ◌∙◌, ap, true, false, not, ◌&&◌, Option, none, arith, length, if_cases,
  &&_split,
}
use metatroni.Prelude.Int.{ℤ, pos, negsuc, ◌+ℤ◌, ◌-ℤ◌}
use metatroni.Names.{Name, same}
use metatroni.Collections.{CaseInsensitiveSet, contains, discard, from_list}
use metatroni.Collections.Laws.{
  contains_congr, contains-discard, contains-from_list, from_list-IsDistinct,
}
use metatroni.Collections.Size.{length-discard}
use metatroni.Dcs.SyncState.{SyncState, SyncDict, members}
use metatroni.Ha.Election.{Ha, quorum_commit_mode_is_active}
use metatroni.Ha.Prepromote.{
  Prepromotion, keep_syncing, sync_and_numsync, process_sync_replication_prepromote,
}

-- The number of standbys and the quorum are together the standbys, which are the nodes of the key
-- but the one that is promoted.
pub record Overlaps (name : Name) (sync : SyncState) (kept : CaseInsensitiveSet × ℤ) : Type 0 where
  pub numsync : kept.1 +ℤ sync.quorum ≡ pos (length kept.0)
  pub nodes : (x : Name) → contains x kept.0 ≡ (contains x (members sync) && not (same x name))

without_one : (n : ℕ) (q : ℤ) → (pos (suc n) -ℤ q -ℤ pos 1) +ℤ q ≡ pos n
without_one n (pos q) = ground arith
without_one n (negsuc q) = ground arith

with_all : (n : ℕ) (q : ℤ) → ((pos n -ℤ q -ℤ pos 1) +ℤ pos 1) +ℤ q ≡ pos n
with_all n (pos q) = ground arith
with_all n (negsuc q) = ground arith

keep_syncing-Overlaps :
    (name : Name) (sync : SyncState) → Overlaps name sync (keep_syncing name sync)
unfolding keep_syncing
keep_syncing-Overlaps name sync =
    if_cases (Overlaps name sync) (contains name nodes)
      (discard name nodes, pos (length nodes) -ℤ sync.quorum -ℤ pos 1)
      (nodes, pos (length nodes) -ℤ sync.quorum -ℤ pos 1 +ℤ pos 1)
      (λ voter. record {
        numsync =
            ap (λ n. (pos n -ℤ sync.quorum -ℤ pos 1) +ℤ sync.quorum)
              (length-discard name nodes voter)
            ∙ without_one (length (discard name nodes)) sync.quorum;
        nodes = λ x.
            contains-discard x name nodes (from_list-IsDistinct (members sync))
            ∙ ap (λ b. b && not (same x name)) (contains-from_list x (members sync));
      })
      (λ outside. record {
        numsync = with_all (length nodes) sync.quorum;
        nodes = λ x. contains-from_list x (members sync) ∙ other x (outsider outside x);
      })
  where
    nodes : CaseInsensitiveSet
    nodes = from_list (members sync)

    outsider :
        contains name nodes ≡ false
        → (x : Name) → same x name ≡ true
        → contains x (members sync) ≡ false
    outsider outside x e =
        contains_congr x name (members sync) e
        ∙ sym (contains-from_list name (members sync))
        ∙ outside

    other :
        (x : Name)
        → (same x name ≡ true → contains x (members sync) ≡ false)
        → contains x (members sync) ≡ (contains x (members sync) && not (same x name))
    other x h = ground (arith, h)

-- A node that is promoted while quorum commit is active keeps syncing: it leaves the key alone and
-- sets a number of standbys that with the quorum makes up all of them, which are the other nodes of
-- the key. The database supports several standbys.
pub process_sync_replication_prepromote-Overlaps :
    (set_value : SyncDict → Option ℕ → Option ℕ) (min_sync : ℕ) (h : Ha)
    → h.is_synchronous_mode ≡ true
    → quorum_commit_mode_is_active h ≡ true
    → (kept : CaseInsensitiveSet × ℤ) × (process_sync_replication_prepromote set_value true min_sync
          h
        ≡ Prepromotion.assigns none kept.0 kept.1)
      × Overlaps h.race.name h.race.sync kept
unfolding process_sync_replication_prepromote sync_and_numsync
process_sync_replication_prepromote-Overlaps set_value min_sync h mode active = (
  keep_syncing h.race.name h.race.sync,
  rw (mode, active, configured) refl,
  keep_syncing-Overlaps h.race.name h.race.sync,
)
  where
    configured : h.is_quorum_commit_mode ≡ true
    configured = unfold quorum_commit_mode_is_active in (&&_split _ _ active).0
