-- ===== src/Quorum/Stages.antt =====
-- The stages of the generator of `QuorumStateResolver`, in the order in which it runs them.
use metatroni.Prelude.{
  ℕ, ◌+◌, ◌-◌, Bool, true, false, not, ◌&&◌, ◌||◌, [], none, length, take, min, max, ltb, ◌==◌,
  if◌then◌else◌,
}
use metatroni.Prelude.Int.{ℤ, pos, sub_ℕ, ◌+ℤ◌, ◌-ℤ◌, ltb_ℤ, min_ℤ, is_zero}
use metatroni.Collections.{
  CaseInsensitiveSet, from_list, union, inter, diff, is_empty, is_proper_subset, set_eq, sorted,
  sorted_reverse, discard_all, inter_update,
}
use metatroni.Quorum.State.{Resolver, Action, pure, get, raise_if, assertion_error, ◌>>=◌, ◌>>◌}
use metatroni.Quorum.Updates.{quorum_update, sync_update}

-- A statement under an `if` with no `else`.
abbrev pub when : Bool → Action (Unit {0}) → Action (Unit {0})
when c m = if c then m else pure tt

-- Case 1 of `__handle_non_steady_cases`: `sync` is a proper subset of `voters`.
unfoldable pub sync_below_voters : Action (Unit {0})
sync_below_voters = do
  s ← get
  let remove_from_voters = diff s.voters (union s.sync s.active)
  when (not (is_empty remove_from_voters)) (
      quorum_update (sub_ℕ (length s.voters) (length remove_from_voters + s.numsync))
        (diff s.voters remove_from_voters) none (is_empty (diff s.sync s.active)))
  s ← get
  let add_to_sync = diff (inter s.voters s.active) s.sync
  when (not (is_empty add_to_sync)) (sync_update (pos s.numsync) (union s.sync add_to_sync))

-- `min(self.numsync, len(self.sync) - len(removed))`
abbrev numsync_without : Resolver → CaseInsensitiveSet → ℤ
numsync_without s removed = min_ℤ (pos s.numsync) (sub_ℕ (length s.sync) (length removed))

-- Case 2 of `__handle_non_steady_cases`: `sync` is a proper superset of `voters`.
unfoldable pub sync_above_voters : Action (Unit {0})
sync_above_voters = do
  s ← get
  let remove_from_sync = diff s.sync s.active
  let sync = diff s.sync remove_from_sync
  when
      (not (is_empty remove_from_sync)
        && not (is_empty sync)
        && (is_empty s.voters || not (is_empty (inter sync s.voters))))
      (sync_update (numsync_without s remove_from_sync) sync)
  s ← get
  let add_to_voters = inter (diff s.sync s.voters) s.active
  let voters = union s.voters add_to_voters
  when (not (is_empty add_to_voters))
      (quorum_update (sub_ℕ (length voters) s.numsync) voters none true)
  s ← get
  let remove_from_sync' = diff s.sync s.voters
  when (not (is_empty remove_from_sync'))
      (sync_update (numsync_without s remove_from_sync') (diff s.sync remove_from_sync'))

-- Cases 3 and 4 of `__handle_non_steady_cases`: the margin of a change of the replication factor.
unfoldable pub use_margin : Action (Unit {0})
use_margin = do
  s ← get
  let nodes = length (union s.voters s.sync)
  let confirmed = min_ℤ (pos s.numsync) s.numsync_confirmed
  if ltb_ℤ (pos nodes) (pos s.quorum +ℤ confirmed)
      then (if ltb s.sync_wanted s.numsync
          then sync_update (pos (max s.sync_wanted (length s.voters - s.quorum))) s.sync
          else quorum_update (sub_ℕ (length s.sync) s.numsync) s.voters none true)
      else when
          ((s.numsync == s.sync_wanted)
            && ltb nodes (s.quorum + s.numsync)
            && ltb_ℤ s.numsync_confirmed (pos s.numsync))
          (quorum_update (sub_ℕ (length s.sync) s.numsync) s.voters none true)

-- `__handle_non_steady_cases`
unfoldable pub handle_non_steady_cases : Action (Unit {0})
handle_non_steady_cases = do
  s ← get
  if is_proper_subset s.sync s.voters
      then sync_below_voters
      else when (is_proper_subset s.voters s.sync) sync_above_voters
  s ← get
  raise_if (not (set_eq s.voters s.sync)) assertion_error
  use_margin

-- All nodes are gone: the first branch of `__remove_gone_nodes`.
unfoldable pub remove_all_nodes : Action (Unit {0})
remove_all_nodes = do quorum_update (pos 0) [] none false; sync_update (pos 0) []

-- `if can_reduce_quorum_by`: the nodes that are left to remove.
unfoldable pub reduce_quorum : CaseInsensitiveSet → Action CaseInsensitiveSet
reduce_quorum to_remove = do
  s ← get
  let remove = from_list (take s.quorum (sorted_reverse to_remove))
  let sync = diff s.sync remove
  let numsync = min (if ltb s.numsync s.sync_wanted then s.sync_wanted else s.numsync) (length sync)
  sync_update (pos numsync) sync
  s ← get
  let voters = diff s.voters remove
  let left = inter_update to_remove s.sync
  quorum_update (sub_ℕ (length voters) s.numsync) voters none (is_empty left)
  pure left

-- The last `if to_remove` of `__remove_gone_nodes`.
unfoldable pub reduce_numsync : CaseInsensitiveSet → Action (Unit {0})
reduce_numsync to_remove = do
  s ← get
  raise_if (not (s.quorum == 0)) assertion_error
  let numsync = sub_ℕ s.numsync (length to_remove)
  let sync = diff s.sync to_remove
  let voters = diff s.voters to_remove
  let sync_decrease = numsync -ℤ pos (min s.sync_wanted (length sync))
  let quorum =
      if is_zero sync_decrease then pos 0 else min_ℤ sync_decrease (sub_ℕ (length voters) 1)
  quorum_update quorum voters none false
  sync_update numsync sync

-- `__remove_gone_nodes`
unfoldable pub remove_gone_nodes : Action (Unit {0})
remove_gone_nodes = do
  s ← get
  let to_remove = diff s.sync s.active
  if is_empty to_remove
      then pure tt
      else (if set_eq s.sync to_remove then remove_all_nodes else (do
        left ← (if s.quorum == 0 then pure to_remove else reduce_quorum to_remove)
        when (not (is_empty left)) (reduce_numsync left)))

-- The nodes that `__add_new_nodes` adds first, to get to the requested replication factor.
unfoldable pub first_to_add : Resolver → CaseInsensitiveSet → ℕ → CaseInsensitiveSet
first_to_add s to_add increase_by =
    if is_empty s.sync then to_add else from_list (take increase_by (sorted to_add))

-- `if increase_numsync_by > 0`: the nodes that are left to add.
unfoldable pub increase_numsync : CaseInsensitiveSet → ℕ → Action CaseInsensitiveSet
unfolding first_to_add
increase_numsync to_add sync_wanted = do
  s ← get
  let increase_by = sync_wanted - s.numsync
  let nodes = first_to_add s to_add increase_by
  let increase_by' = if is_empty s.sync then increase_by else length nodes
  sync_update (pos (s.numsync + increase_by')) (union s.sync nodes)
  s ← get
  let voters = union s.voters nodes
  quorum_update (sub_ℕ (length voters) sync_wanted) voters none true
  s ← get
  pure (discard_all to_add s.sync)

-- The last `if to_add` of `__add_new_nodes`.
unfoldable pub increase_quorum : CaseInsensitiveSet → ℕ → Action (Unit {0})
increase_quorum to_add sync_wanted = do
  s ← get
  let voters = union s.voters to_add
  quorum_update (sub_ℕ (length voters) sync_wanted) voters none
      (ltb_ℤ s.numsync_confirmed (pos sync_wanted))
  s ← get
  sync_update (pos sync_wanted) (union s.sync to_add)

-- `__add_new_nodes`
unfoldable pub add_new_nodes : Action (Unit {0})
add_new_nodes = do
  s ← get
  let to_add = diff s.active s.sync
  let sync_wanted = min s.sync_wanted (length (union s.sync to_add))
  if is_empty to_add then pure tt else (do
    left ← (if ltb s.numsync sync_wanted then increase_numsync to_add sync_wanted else pure to_add)
    when (not (is_empty left)) (increase_quorum left sync_wanted))

-- `__handle_replication_factor_change`
unfoldable pub handle_replication_factor_change : Action (Unit {0})
handle_replication_factor_change = do
  s ← get
  let wanted = min s.sync_wanted (length s.sync)
  if ltb s.numsync wanted
      then (do
        sync_update (pos wanted) s.sync
        s ← get
        quorum_update (sub_ℕ (length s.voters) s.numsync) s.voters none true)
      else when (ltb wanted s.numsync) (do
        when (ltb (s.quorum + (s.numsync - wanted)) (length s.voters)) (
            quorum_update (sub_ℕ (length s.voters) s.numsync +ℤ pos (s.numsync - wanted)) s.voters
              none (ltb_ℤ s.numsync_confirmed (pos s.sync_wanted)))
        s ← get
        sync_update (pos wanted) s.sync)
