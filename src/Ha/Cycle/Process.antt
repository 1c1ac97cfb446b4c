-- ===== src/Ha/Cycle/Process.antt =====
-- `Ha.process_unhealthy_cluster`, `Ha.process_healthy_cluster` and
-- `Ha.process_manual_failover_from_leader` (patroni/ha.py).
use metatroni.Prelude.{◌*◌, Bool, true, false, not, ◌&&◌, ◌||◌, Option, none, some, if◌then◌else◌}
use Prim.Native.Nat.{◌/◌}
use metatroni.Prelude.Int.{pos, ◌-ℤ◌, ltb_ℤ}
use metatroni.Dcs.SyncState.{is_set}
use metatroni.Ha.Race.{names_node}
use metatroni.Ha.Election.{Failover, is_failover_possible}
use metatroni.Ha.Election.Health.{is_healthiest_node}
use metatroni.Ha.Cycle.{
  DemoteMode, Task, Query, Call, Cluster, MgrAction, World, Action, pure, log, called, ◌>>=◌, ◌>>◌,
  ask, perform, tell, reads, when, on_option, is_unlocked, has_lock,
}
use metatroni.Ha.Cycle.Lock.{
  load_cluster_from_dcs, attempt_all, acquire_lock, update_lock, delete_leader,
  release_leader_key_voluntarily,
}
use metatroni.Ha.Cycle.Demote.{demote}
use metatroni.Ha.Cycle.Follow.{Message, follow, is_standby_leader}
use metatroni.Ha.Cycle.Primary.{enforce_primary_role, enforce_follow_remote_member}

-- `self.cluster.failover` as a condition.
unfoldable pub requested : Cluster → Option Failover
requested c = elim c.failover [
  | none ↦ none
  | some f ↦ if is_set f.leader || is_set f.candidate then some f else none
]

-- `Ha.is_healthiest_node`, which may remove the failover key
unfoldable pub is_healthiest : World → Action Bool
is_healthiest w = do
  outcome ← reads (λ s. is_healthiest_node (w.view s.trace) (w.fetch s.trace))
  when outcome.removes_failover_key (perform w Query.manual_failover)
  pure outcome.is_healthiest

-- What follows a won race.
unfoldable pub lead : World → Action Message
lead w = do
  failover ← reads (λ s. requested s.cluster)
  on_option failover (pure tt) (λ f. perform w Query.manual_failover)
  load_cluster_from_dcs w
  if w.is_standby_cluster
      then enforce_follow_remote_member w Message.promoted_standby
      else enforce_primary_role w Message.is_leader Message.promoted

abbrev has_candidate : Option Failover → Bool
has_candidate none = false
has_candidate (some f) = is_set f.candidate

unfoldable pub lose : World → Action Message
lose w = do
  failover ← reads (λ s. requested s.cluster)
  when (has_candidate failover || w.nofailover && not w.is_paused)
      (tell Call.checks_diverged >> tell Call.sleeps)
  follow w Message.demoted_no_lock Message.following true

-- `Ha.process_unhealthy_cluster`
unfoldable pub process_unhealthy_cluster : World → Action Message
process_unhealthy_cluster w = do
  healthiest ← is_healthiest w
  if healthiest
      then (do
        acquired ← acquire_lock w
        if acquired then lead w else follow w Message.demoted_no_lock Message.following true)
      else lose w

-- `Ha.should_run_scheduled_action`; `none` is a time that cannot be compared.
unfoldable pub should_run_scheduled_action : World → Action Bool
should_run_scheduled_action w = if w.is_paused then pure false else do
  delta ← reads (λ s. w.scheduled_in s.trace)
  on_option delta (perform w Query.manual_failover >> pure false) (λ d.
      if ltb_ℤ (pos w.loop_wait) d
      then pure false
      else if ltb_ℤ d (pos 0 -ℤ pos (w.loop_wait * 3 / 2))
      then perform w Query.manual_failover >> pure false
      else tell Call.sleeps >> pure true)

-- Whether the leader steps down for the request.
unfoldable pub steps_down : World → Failover → Action Bool
steps_down w f =
    if (not (is_set f.leader) || names_node f.leader w.name)
      && (not (is_set f.candidate) || not (names_node f.candidate w.name))
      && not (not (is_set f.candidate) && w.is_paused)
    then reads (λ s. is_failover_possible (w.view s.trace) (w.fetch s.trace) 0 false)
    else pure false

unfoldable pub fail_over : World → Failover → Action (Option Message)
fail_over w f = do
  due ← if f.is_scheduled then should_run_scheduled_action w else pure true
  if not due then pure none else do
    possible ← steps_down w f
    if possible
        then tell (Call.runs Task.demote_gracefully) >> pure (some Message.demotes_for_failover)
        else perform w Query.manual_failover >> pure none

-- `Ha.process_manual_failover_from_leader`
unfoldable pub process_manual_failover_from_leader : World → Action (Option Message)
process_manual_failover_from_leader w = do
  failover ← reads (λ s. requested s.cluster)
  on_option failover (pure none) (λ f. do
    primary ← if w.is_paused then ask w Query.is_primary else pure true
    if primary then fail_over w f else pure none)

-- `Ha._handle_mgr_gtid_fork`
unfoldable pub handle_mgr_gtid_fork : World → Action Message
handle_mgr_gtid_fork w = do
  pauses ← ask w Query.mgr_pause_on_gtid_fork
  when (pauses && not w.is_paused) (attempt_all w Query.set_config_value)
  attempt_all w Query.set_read_only
  pure Message.mgr_fork

unfoldable pub run_mgr_cycle : World → Bool → Action MgrAction
run_mgr_cycle w holds_lock s =
    (w.run_mgr_cycle holds_lock s.trace, log (called (Call.runs_mgr holds_lock)) s)

-- A primary, with the part for MySQL first.
unfoldable pub lead_with_lock : World → Action Message
lead_with_lock w = enforce_primary_role w Message.is_leader Message.promoted

unfoldable pub lead_after : World → MgrAction → Action Message
lead_after w MgrAction.yields_lock =
    release_leader_key_voluntarily w >> pure Message.released_for_mgr
lead_after w MgrAction.gtid_fork = handle_mgr_gtid_fork w
lead_after w MgrAction.other_action = pure Message.mgr_action
lead_after w MgrAction.no_action = perform w Query.semi_sync_safety_check >> lead_with_lock w

unfoldable pub lead_mysql : World → Action Message
lead_mysql w = run_mgr_cycle w true >>= lead_after w

unfoldable pub lead_unless_requested : World → Action Message
lead_unless_requested w = do
  tell Call.ensures_checkpoint
  role ← reads (λ s. w.role s.trace)
  if w.is_standby_cluster
      then enforce_follow_remote_member w
          (if is_standby_leader role then Message.no_action else Message.promoted_standby)
      else if w.is_mysql
      then lead_mysql w
      else lead_with_lock w

-- The lock was updated.
unfoldable pub keep_leading : World → Action Message
keep_leading w = do
  msg ← process_manual_failover_from_leader w
  on_option msg (lead_unless_requested w) pure

-- The lock could not be updated.
unfoldable pub lose_lock : World → Action Message
lose_lock w = do
  primary ← ask w Query.is_primary
  if primary
      then (if w.is_paused
          then pure Message.continues_no_update
          else demote w DemoteMode.immediate_nolock >> pure Message.demoted_no_update)
      else pure Message.not_promoted_no_update

unfoldable pub renew_lock : World → Action Message
renew_lock w = do updated ← update_lock w true; if updated then keep_leading w else lose_lock w

-- `self.cluster.failover and self.cluster.failover.candidate == self.state_handler.name`
abbrev is_candidate : World → Option Failover → Bool
is_candidate w none = false
is_candidate w (some f) = names_node f.candidate w.name

-- A leader in pause whose database is no primary.
unfoldable pub lead_paused : World → Action Message
lead_paused w = do
  failover ← reads (λ s. requested s.cluster)
  if is_candidate w failover
      then pure Message.waits_for_promote
      else if not w.is_standby_cluster
      then delete_leader w >> pure Message.removed_lock
      else renew_lock w

unfoldable pub process_as_leader : World → Action Message
process_as_leader w =
    if w.is_paused
    then (do primary ← ask w Query.is_primary; if primary then renew_lock w else lead_paused w)
    else renew_lock w

-- The node does not have the lock.
unfoldable pub follow_leader : World → Action Message
follow_leader w =
    follow w (if w.is_standby_cluster then Message.demoted_in_standby else Message.demoted_no_lock)
      Message.following false

unfoldable pub follow_after : World → MgrAction → Action Message
follow_after w MgrAction.gtid_fork = handle_mgr_gtid_fork w
follow_after w MgrAction.yields_lock = pure Message.mgr_action
follow_after w MgrAction.other_action = pure Message.mgr_action
follow_after w MgrAction.no_action = do
  configured ← ask w Query.is_mgr_configured
  if not configured then follow_leader w else do
    status ← ask w Query.has_mgr_status
    pure (if status then Message.mgr_member else Message.mgr_waits)

unfoldable pub follow_mysql : World → Action Message
follow_mysql w = run_mgr_cycle w false >>= follow_after w

-- `Ha.process_healthy_cluster`
unfoldable pub process_healthy_cluster : World → Action Message
process_healthy_cluster w = do
  holds ← reads (λ s. has_lock w s.cluster)
  if holds
      then process_as_leader w
      else if w.is_mysql && not w.is_standby_cluster
      then follow_mysql w
      else follow_leader w

-- What `Ha._run_cycle` does with a database that is up.
unfoldable pub process_cluster : World → Action Message
process_cluster w = do
  unlocked ← reads (λ s. is_unlocked s.cluster)
  if unlocked then process_unhealthy_cluster w else process_healthy_cluster w
