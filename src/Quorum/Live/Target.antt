-- ===== src/Quorum/Live/Target.antt =====
-- What `list(QuorumStateResolver(...))` (patroni/quorum.py) does when the replication factor is
-- changed and the members stay.
use metatroni.Prelude.{ℕ, ◌<◌, ◌≡◌, refl, sym, ◌∙◌, ap, true, false, List, [], ◌∷◌, arith}
use metatroni.Names.{name_eq, eq→name_eq}
use metatroni.Quorum.State.{Resolver, Transition, Run, Result, ok, err, on_quorum_error, handled}
use metatroni.Quorum.Resolver.{
  check_leader, recover, settle, generate_transitions, merge, merged, transitions,
}
use metatroni.Quorum.Overlap.{view}
use metatroni.Quorum.Trace.{replay, has_restart}
use metatroni.Quorum.Sound.Recovery.{fresh}
use metatroni.Quorum.Sound.Transitions.{transitions-replay}
use metatroni.Quorum.Live.Runs.{Leads, Returns, Leads-bind, Leads-pure, Leads-get, Leads-raise_if}
use metatroni.Quorum.Live.Members.{Fits-enough}
use metatroni.Quorum.Live.Updates.{check_invariants-Leads}
use metatroni.Quorum.Live.Stages.{
  Regular, confirm_numsync-Leads, handle_non_steady_cases-Leads, remove_gone_nodes-Leads,
  add_new_nodes-Leads,
}
use metatroni.Quorum.Live.Factor.{
  counting, wanted, quorum_for, handle_replication_factor_change-Leads,
}

-- A handler has nothing to do after a statement that ends normally.
handled-Returns :
    {A : Type 0} (x : Result A × Run) (m : Run → Result A × Run) (a : A) (s : Resolver)
    → Returns a s x
    → Returns a s (handled x m)
handled-Returns (ok a', r) m a s h = h
handled-Returns (err e, r) m a s h = absurd (not_ok h.0)
  where
    not_ok : {A : Type 0} {a : A} → err e ≡ ok a → ⊥
    not_ok k = cc

merge-has_restart : (ts : List Transition) → has_restart ts ≡ false → has_restart (merge ts) ≡ false
unfolding merge
merge-has_restart [] h = refl
merge-has_restart (t ∷ []) h = h
merge-has_restart (t ∷ u ∷ ts) h = ground (arith, merge-has_restart (u ∷ ts))

module _ {s : Resolver} {c : ℕ} (h : Regular s c) where
  same_leader : name_eq s.leader_wanted s.leader ≡ true
  same_leader = eq→name_eq s.leader_wanted s.leader (sym h.members.leader)

  check_leader-Leads : Leads s check_leader true s
  unfolding check_leader
  check_leader-Leads = Leads-bind _ Leads-get (
      rw same_leader (
        Leads-bind _ (check_invariants-Leads s (Fits-enough h.members (omega (arith, h.exact))))
          (Leads-pure true)))

  settle-Leads :
      0 < s.sync_wanted → Leads s settle tt (counting s (wanted s) (quorum_for s c (wanted s)))
  unfolding settle
  settle-Leads k = Leads-bind _ Leads-get (
      Leads-bind _
        (Leads-raise_if _ (ground (arith, eq→name_eq s.leader s.leader_wanted h.members.leader)))
        (Leads-bind _ (confirm_numsync-Leads h) (
          Leads-bind _ (handle_non_steady_cases-Leads h) (
            Leads-bind _ (remove_gone_nodes-Leads h) (
              Leads-bind _ (add_new_nodes-Leads h) (handle_replication_factor_change-Leads h k))))))

  generate_transitions-Leads :
      0 < s.sync_wanted
      → Leads s generate_transitions tt (counting s (wanted s) (quorum_for s c (wanted s)))
  unfolding generate_transitions on_quorum_error
  generate_transitions-Leads k =
      Leads-bind _
        (record {
          runs =
              λ r i. handled-Returns (check_leader r) recover true s (check_leader-Leads.runs r i);
        })
        (settle-Leads k)

-- What a run that ends normally makes `transitions` return.
merged-Returns :
    (s : Resolver) (x : Result (Unit {0}) × Run)
    → Returns tt s x
    → (merged x ≡ ok (merge x.1.yielded)) × (has_restart (merge x.1.yielded) ≡ false)
unfolding merged
merged-Returns s (ok a, r) h = (refl, merge-has_restart r.yielded h.1.1)
merged-Returns s (err e, r) h = absurd (not_ok h.0)
  where
    not_ok : {A : Type 0} {a : A} → err e ≡ ok a → ⊥
    not_ok k = cc

-- If the leader, the voters, the standbys in `sync` and the active nodes have settled, quorum and
-- numsync add up to the number of standbys, and numsync of them or more are confirmed, the resolver
-- returns transitions, whatever positive replication factor is wanted. Carried out, they leave the
-- members as they are, make numsync the wanted factor, or the number of standbys where that is
-- less, and make the quorum the number of the other standbys plus the number of confirmations that
-- the new factor lacks.
pub transitions-factor :
    (s : Resolver) (confirmed : ℕ)
    → Regular s confirmed
    → 0 < s.sync_wanted
    → (ts : List Transition) × (transitions s ≡ ok ts)
      × (replay ts (view s)
          ≡ record (view s) { numsync = wanted s; quorum = quorum_for s confirmed (wanted s) })
unfolding transitions view
transitions-factor s confirmed h k =
    let x = generate_transitions (fresh s) in
    let run : Returns tt (counting s (wanted s) (quorum_for s confirmed (wanted s))) x =
      (generate_transitions-Leads h k).runs (fresh s) (refl, refl) in
    let (returned, quiet) = merged-Returns _ x run in
    (
      merge x.1.yielded,
      returned,
      transitions-replay s (merge x.1.yielded) h.members.distinct_sync returned quiet
          ∙ ap view run.1.0,
    )
