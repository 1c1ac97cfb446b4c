-- ===== src/Ha/Cycle/Rounds.antt =====
-- The rounds of the HA loop promote the database only with the lock (patroni/ha.py).
use metatroni.Prelude.{true, [], ◌≡◌, refl}
use metatroni.Ha.Cycle.{Query, Call, MgrAction, World, State}
use metatroni.Ha.Cycle.Keeps.{
  Leads, Keeps, Leads-weaken, Leads-if, Leads-bind, Leads-bind_result, Leads-on_result,
  Leads-on_option, reads-Keeps, pure-Keeps, bind-Keeps,
}
use metatroni.Ha.Cycle.Guards.{
  AllGuarded, guarded, delete_leader-Guarded, release-Guarded, demote-Guarded, follow-Guarded,
}
use metatroni.Ha.Cycle.Promotes.{HasLock, OnTrue, enforce_primary_role-Leads}
use metatroni.Ha.Cycle.Follow.{Message}
use metatroni.Ha.Cycle.Primary.{enforce_follow_remote_member}
use metatroni.Ha.Cycle.Process.{
  is_healthiest, lead, lose, process_unhealthy_cluster, handle_mgr_gtid_fork, lead_with_lock,
  lead_after, lead_mysql, lead_unless_requested, keep_leading, lose_lock, renew_lock, lead_paused,
  process_as_leader, follow_leader, follow_after, follow_mysql, process_healthy_cluster,
  process_cluster,
}
use metatroni.Ha.Cycle.HasLock.{
  acquire_lock-Yields, ask-HasLock, load_cluster_from_dcs-HasLock, locked,
  process_manual_failover-HasLock, run_mgr_cycle-HasLock, run_mgr_cycle-Keeps, tell-HasLock,
  update_lock-Yields,
}

-- The parts of a round.
enforce_follow-Keeps :
    (w : World) (m : Message) → Keeps (AllGuarded w) (enforce_follow_remote_member w m)
unfolding enforce_follow_remote_member
enforce_follow-Keeps w m = search (guarded, follow-Guarded)

handle_mgr_gtid_fork-Keeps : (w : World) → Keeps (AllGuarded w) (handle_mgr_gtid_fork w)
unfolding handle_mgr_gtid_fork
handle_mgr_gtid_fork-Keeps w = search guarded depth 20

lead-Leads : (w : World) → Leads (HasLock w) (AllGuarded w) (lead w)
unfolding lead
lead-Leads w =
    Leads-bind _ _ (reads-Keeps _) (λ tr h. h.0)
      λ failover.
        Leads-bind _ _ (search locked depth 10) (λ tr h. h.0)
          λ _.
            Leads-bind _ _ (load_cluster_from_dcs-HasLock w) (λ tr h. h.0)
              λ _.
                Leads-if _ _ _ (Leads-weaken _ (λ tr h. h.0) (enforce_follow-Keeps w _))
                  (enforce_primary_role-Leads w _ _)

lose-Keeps : (w : World) → Keeps (AllGuarded w) (lose w)
unfolding lose
lose-Keeps w = search (guarded, follow-Guarded) depth 20

is_healthiest-Keeps : (w : World) → Keeps (AllGuarded w) (is_healthiest w)
unfolding is_healthiest
is_healthiest-Keeps w = search guarded depth 20

process_unhealthy_cluster-Keeps : (w : World) → Keeps (AllGuarded w) (process_unhealthy_cluster w)
unfolding process_unhealthy_cluster
process_unhealthy_cluster-Keeps w = bind-Keeps _ _ (is_healthiest-Keeps w) λ healthiest.
    Leads-if _ _ _
      (Leads-bind_result _ _ (acquire_lock-Yields w) λ acquired.
        Leads-on_result (OnTrue w HasLock) acquired _ _ (lead-Leads w) (follow-Guarded w _ _ _))
      (lose-Keeps w)

lead_with_lock-Leads : (w : World) → Leads (HasLock w) (AllGuarded w) (lead_with_lock w)
unfolding lead_with_lock
lead_with_lock-Leads w = enforce_primary_role-Leads w _ _

lead_after-Leads : (w : World) (a : MgrAction) → Leads (HasLock w) (AllGuarded w) (lead_after w a)
unfolding lead_after
lead_after-Leads w MgrAction.yields_lock =
    Leads-weaken _ (λ tr h. h.0) (search (guarded, release-Guarded))
lead_after-Leads w MgrAction.gtid_fork = Leads-weaken _ (λ tr h. h.0) (handle_mgr_gtid_fork-Keeps w)
lead_after-Leads w MgrAction.other_action = Leads-weaken _ (λ tr h. h.0) (pure-Keeps _)
lead_after-Leads w MgrAction.no_action =
    Leads-bind _ _
      (bind-Keeps _ _ (ask-HasLock w Query.semi_sync_safety_check (λ r. refl)) (λ _. pure-Keeps tt))
      (λ tr h. h.0) λ _. lead_with_lock-Leads w

lead_unless_requested-Leads :
    (w : World) → Leads (HasLock w) (AllGuarded w) (lead_unless_requested w)
unfolding lead_unless_requested lead_mysql
lead_unless_requested-Leads w =
    Leads-bind _ _ (tell-HasLock w Call.ensures_checkpoint refl) (λ tr h. h.0)
      λ _.
        Leads-bind _ _ (reads-Keeps _) (λ tr h. h.0)
          λ role. Leads-if _ _ _ (Leads-weaken _ (λ tr h. h.0) (enforce_follow-Keeps w _)) (
            Leads-if _ _ _
              (Leads-bind _ _ (run_mgr_cycle-HasLock w true) (λ tr h. h.0) (lead_after-Leads w))
              (lead_with_lock-Leads w))

keep_leading-Leads : (w : World) → Leads (HasLock w) (AllGuarded w) (keep_leading w)
unfolding keep_leading
keep_leading-Leads w =
    Leads-bind _ _ (process_manual_failover-HasLock w) (λ tr h. h.0)
      λ msg.
        Leads-on_option msg _ _ (lead_unless_requested-Leads w)
          (λ m. Leads-weaken _ (λ tr h. h.0) (pure-Keeps m))

lose_lock-Keeps : (w : World) → Keeps (AllGuarded w) (lose_lock w)
unfolding lose_lock
lose_lock-Keeps w = search (guarded, demote-Guarded) depth 20

renew_lock-Keeps : (w : World) → Keeps (AllGuarded w) (renew_lock w)
unfolding renew_lock
renew_lock-Keeps w = Leads-bind_result _ _ (update_lock-Yields w true) λ updated.
    Leads-on_result (OnTrue w HasLock) updated _ _ (keep_leading-Leads w) (lose_lock-Keeps w)

process_as_leader-Keeps : (w : World) → Keeps (AllGuarded w) (process_as_leader w)
unfolding process_as_leader lead_paused
process_as_leader-Keeps w = search (guarded, renew_lock-Keeps, delete_leader-Guarded) depth 20

follow_leader-Keeps : (w : World) → Keeps (AllGuarded w) (follow_leader w)
unfolding follow_leader
follow_leader-Keeps w = follow-Guarded w _ _ _

follow_after-Keeps : (w : World) (a : MgrAction) → Keeps (AllGuarded w) (follow_after w a)
unfolding follow_after
follow_after-Keeps w MgrAction.no_action = search (guarded, follow_leader-Keeps) depth 20
follow_after-Keeps w MgrAction.gtid_fork = handle_mgr_gtid_fork-Keeps w
follow_after-Keeps w MgrAction.yields_lock = pure-Keeps _
follow_after-Keeps w MgrAction.other_action = pure-Keeps _

process_healthy_cluster-Keeps : (w : World) → Keeps (AllGuarded w) (process_healthy_cluster w)
unfolding process_healthy_cluster follow_mysql
process_healthy_cluster-Keeps w =
    search
      (
        guarded, process_as_leader-Keeps, follow_leader-Keeps, follow_after-Keeps,
        run_mgr_cycle-Keeps,
      )
      depth 20

process_cluster-Keeps : (w : World) → Keeps (AllGuarded w) (process_cluster w)
unfolding process_cluster
process_cluster-Keeps w =
    search (guarded, process_unhealthy_cluster-Keeps, process_healthy_cluster-Keeps) depth 20

-- Whatever the database, the watchdog and the store answer, a round starts each promotion with the
-- lock that it has acquired or updated and not deleted since, after the replication state was
-- prepared, and, unless the cluster is paused, with a watchdog that runs or was activated.
pub process_cluster-AllGuarded :
    (w : World) (s : State) → s.trace ≡ [] → AllGuarded w (process_cluster w s).1.trace
process_cluster-AllGuarded w s fresh = (process_cluster-Keeps w).at s (rw fresh tt)
