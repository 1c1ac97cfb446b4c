-- ===== src/Quorum/Resolver.antt =====
-- `_generate_transitions` and `__iter__` of `QuorumStateResolver`.
use metatroni.Prelude.{
  Bool, true, false, not, ◌&&◌, List, [], ◌∷◌, some, none, length, if◌then◌else◌,
}
use metatroni.Prelude.Int.{pos, sub_ℕ, min_ℤ, is_zero}
use metatroni.Names.{name_eq}
use metatroni.Collections.{CaseInsensitiveSet, union, inter, diff, is_empty}
use metatroni.Quorum.Kinds.{TransitionType}
use metatroni.Quorum.State.{
  Resolver, Transition, Run, Action, Result, ok, err, pure, get, put, raise_if, on_quorum_error,
  assertion_error, ◌>>=◌, ◌>>◌,
}
use metatroni.Quorum.Updates.{check_invariants, quorum_update, sync_update}
use metatroni.Quorum.Stages.{
  when, handle_non_steady_cases, remove_gone_nodes, add_new_nodes, handle_replication_factor_change,
}

-- The voters right after a failover: the old leader in place of the new one.
unfoldable pub voters_after_failover : Resolver → CaseInsensitiveSet
voters_after_failover s = union (diff s.voters (s.leader_wanted ∷ [])) (s.leader ∷ [])

-- The failover branch of `_generate_transitions`; `false` for its early `return`.
unfoldable pub change_leader : Action Bool
unfolding voters_after_failover
change_leader = do
  s ← get
  let voters = voters_after_failover s
  when (is_empty s.sync) (sync_update (sub_ℕ (length voters) s.quorum) voters)
  s ← get
  quorum_update (pos s.quorum) voters (some s.leader_wanted) true
  s ← get
  pure (not (is_empty (inter s.sync s.active)))

-- The body of the `try`.
unfoldable pub check_leader : Action Bool
unfolding change_leader
check_leader = do
  s ← get
  if name_eq s.leader_wanted s.leader then check_invariants >> pure true else change_leader

-- The handler of `QuorumError`.
unfoldable pub recover : Action Bool
recover = do s ← get; quorum_update (sub_ℕ (length s.sync) s.numsync) s.sync none true; pure true

-- `numsync_confirmed` is calculated from the quorum where it is 0.
unfoldable pub confirm_numsync : Action (Unit {0})
confirm_numsync = do
  s ← get
  let alive = inter s.sync s.active
  when (is_zero s.numsync_confirmed && not (is_empty alive)) (
      put (record s {
        numsync_confirmed = min_ℤ (pos (length alive)) (sub_ℕ (length s.voters) s.quorum);
      }))

-- What follows the `try`.
unfoldable pub settle : Action (Unit {0})
unfolding confirm_numsync
settle = do
  s ← get
  raise_if (not (name_eq s.leader s.leader_wanted)) assertion_error
  confirm_numsync
  handle_non_steady_cases
  remove_gone_nodes
  add_new_nodes
  handle_replication_factor_change

-- `_generate_transitions`
unfoldable pub generate_transitions : Action (Unit {0})
generate_transitions = do connected ← on_quorum_error check_leader recover; when connected settle

unfoldable pub same_type : TransitionType → TransitionType → Bool
same_type TransitionType.sync TransitionType.sync = true
same_type TransitionType.quorum TransitionType.quorum = true
same_type TransitionType.restart TransitionType.restart = true
same_type _ _ = false

-- The loop of `__iter__` over the transitions: it skips the first of two of one type, and ends at
-- a hint to restart.
unfoldable pub merge : List Transition → List Transition
unfolding same_type
merge [] = []
merge (t ∷ []) = t ∷ []
merge (t ∷ u ∷ ts) =
    let rest = merge (u ∷ ts) in
    if same_type t.transition_type u.transition_type
    then rest
    else if same_type t.transition_type TransitionType.restart
    then t ∷ []
    else t ∷ rest

unfoldable pub merged : Result (Unit {0}) × Run → Result (List Transition)
unfolding merge
merged (ok _, r) = ok (merge r.yielded)
merged (err e, r) = err e

-- `list(QuorumStateResolver(...))`
unfoldable pub transitions : Resolver → Result (List Transition)
unfolding merged
transitions s = merged (generate_transitions (record { self = s; yielded = [] }))
