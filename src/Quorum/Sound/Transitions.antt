-- ===== src/Quorum/Sound/Transitions.antt =====
-- What `list(QuorumStateResolver(...))` (patroni/quorum.py) promises to the HA loop, which carries
-- the transitions out one by one.
use metatroni.Prelude.{◌≡◌, refl, sym, ◌∙◌, Bool, true, false, List, Bool-cases, inl, inr}
use mathlib.Core.Path.{subst}
use metatroni.Names.{name_eq}
use metatroni.Collections.Laws.{IsDistinct}
use metatroni.Quorum.State.{
  Resolver, Transition, Run, Result, ok, err, quorum_error, assertion_error, handled, get, pure,
  raise_if, on_quorum_error, ◌>>=◌,
}
use metatroni.Quorum.Updates.{check_invariants, overlaps, sets_match}
use metatroni.Quorum.Resolver.{check_leader, recover, generate_transitions, merged, transitions}
use metatroni.Quorum.Overlap.{View, view}
use metatroni.Quorum.Trace.{replay, AllSafe, merge-AllSafe, replay-merge, has_restart}
use metatroni.Quorum.Sound.Rules.{Traced, Ends, Anywhere, follow_with, Keeps-if, Keeps-pure}
use metatroni.Quorum.Sound.Failover.{Raised}
use metatroni.Quorum.Sound.Stages.{settle-Keeps}
use metatroni.Quorum.Sound.Recovery.{fresh, change_leader-Ends, recover-Ends}

ok_injective : {A : Type 0} {a b : A} → ok a ≡ ok b → a ≡ b
ok_injective h = cc

fresh-Traced : (s : Resolver) → Traced (view s) (fresh s)
unfolding replay
fresh-Traced s = record { safe = tt; reached = refl }

-- A state that fails the check has published nothing yet.
only_checked-Ends :
    (s : Resolver)
    → Ends (Traced (view s)) (Raised (view s)) ((check_invariants >>= λ _. pure true) (fresh s))
unfolding check_invariants ◌>>=◌ get pure raise_if
only_checked-Ends s = elim (Bool-cases (overlaps s)) [
  | inr apart ↦ rw apart (inl (fresh-Traced s))
  | inl overlap ↦ elim (Bool-cases (sets_match s)) [
    | inr apart ↦ rw (overlap, apart) (inl (fresh-Traced s))
    | inl fits ↦ rw (overlap, fits) (fresh-Traced s)
  ]
]

check_leader-Ends :
    (s : Resolver)
    → IsDistinct s.sync
    → Ends (Traced (view s)) (Raised (view s)) (check_leader (fresh s))
unfolding check_leader ◌>>=◌ get
check_leader-Ends s d = elim (Bool-cases (name_eq s.leader_wanted s.leader)) [
  | inl steady ↦ rw steady (only_checked-Ends s)
  | inr failover ↦ rw failover (
      change_leader-Ends s
        (record { traced = fresh-Traced s; distinct = d; other_leader = failover }))
]

handled-Ends :
    (start : View) (x : Result Bool × Run)
    → Ends (Traced start) (Raised start) x
    → Ends (Traced start) Anywhere (handled x recover)
handled-Ends start (ok a, r) h = h
handled-Ends start (err quorum_error, r) h = recover-Ends start r h
handled-Ends start (err assertion_error, r) h = tt

generate_transitions-Ends :
    (s : Resolver)
    → IsDistinct s.sync
    → Ends (Traced (view s)) Anywhere (generate_transitions (fresh s))
unfolding generate_transitions on_quorum_error ◌>>=◌
generate_transitions-Ends s d =
    follow_with (Traced (view s)) (Traced (view s)) Anywhere _ _
      (handled-Ends (view s) (check_leader (fresh s)) (check_leader-Ends s d))
      (λ a r t. (Keeps-if a (settle-Keeps (view s)) (Keeps-pure tt)).holds r t)

-- What a result of `transitions` says about the run that gave it.
merged_safe :
    (start : View) (x : Result (Unit {0}) × Run) (ts : List Transition)
    → Ends (Traced start) Anywhere x
    → merged x ≡ ok ts
    → AllSafe ts start
unfolding merged
merged_safe start (ok a, r) ts h e =
    subst (λ us. AllSafe us start) (ok_injective e) (merge-AllSafe r.yielded start h.safe)
merged_safe start (err e', r) ts h e = absurd (cc)

-- In the order in which `QuorumStateResolver` yields its transitions, each of them leaves a state
-- of `synchronous_standby_names` and of the `/sync` key in which, while there are voters, every
-- set of nodes that can acknowledge a commit shares a node with every set of nodes that can
-- promote a new leader: whatever the state was before, and also where the process stops between
-- two transitions. The names in `sync` differ also in lower case, as in any set of the program.
pub transitions-AllSafe :
    (s : Resolver) (ts : List Transition)
    → IsDistinct s.sync
    → transitions s ≡ ok ts
    → AllSafe ts (view s)
unfolding transitions
transitions-AllSafe s ts d h = merged_safe (view s) _ ts (generate_transitions-Ends s d) h

merged-replay :
    (start : View) (x : Result (Unit {0}) × Run) (ts : List Transition)
    → Ends (Traced start) Anywhere x
    → merged x ≡ ok ts
    → has_restart ts ≡ false
    → replay ts start ≡ view x.1.self
unfolding merged
merged-replay start (ok a, r) ts h e n =
    subst (λ us. replay us start ≡ view r.self) (ok_injective e)
      (replay-merge r.yielded start (subst (λ us. has_restart us ≡ false) (sym (ok_injective e)) n)
        ∙ h.reached)
merged-replay start (err e', r) ts h e n = absurd (cc)

-- The transitions are complete: where they do not end in a hint to restart, carrying them out
-- from the state that the resolver was given leads to the leader, quorum, voters, numsync and sync
-- that it ends with, also where an update raised `QuorumError` half done on the way and where
-- `__iter__` merged two transitions. The names in `sync` differ also in lower case.
pub transitions-replay :
    (s : Resolver) (ts : List Transition)
    → IsDistinct s.sync
    → transitions s ≡ ok ts
    → has_restart ts ≡ false
    → replay ts (view s) ≡ view (generate_transitions (fresh s)).1.self
unfolding transitions
transitions-replay s ts d h n = merged-replay (view s) _ ts (generate_transitions-Ends s d) h n
