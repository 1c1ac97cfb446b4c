-- ===== src/Ha/Cycle/Follow.antt =====
-- `Ha.follow` and `Ha._handle_rewind_or_reinitialize` (patroni/ha.py).
use metatroni.Prelude.{
  ℕ, ltb, Bool, true, false, not, ◌&&◌, ◌||◌, Option, none, some, if◌then◌else◌, ◌==◌,
}
use metatroni.Ha.Cycle.{
  Role, Target, remote, member, DemoteMode, Task, Query, Call, World, Action, pure, ◌>>=◌, ◌>>◌,
  ask, perform, tell, reads, when, and_also, on_option, is_unlocked, has_lock,
}
use metatroni.Ha.Cycle.Lock.{load_cluster_from_dcs}
use metatroni.Ha.Cycle.Demote.{get_node_to_follow, demote}

-- What a round reports.
pub data Message : Type 0 where
  continues_without_lock no_action follows_old_standby_leader : Message
  crash_recovery running_rewind reinitializing : Message
  demoted_no_lock following demoted_in_standby : Message
  demoted_no_watchdog not_promoted_no_watchdog promotion_cancelled promotion_postponed : Message
  is_leader promoted promoted_standby demotes_for_failover waits_for_promote : Message
  removed_lock released_for_mgr mgr_fork mgr_action mgr_member mgr_waits : Message
  continues_no_update demoted_no_update not_promoted_no_update : Message
  continues_failsafe demoted_no_dcs dcs_not_accessible : Message

abbrev is_some {ℓ} : {A : Type ℓ} → Option A → Bool
is_some none = false
is_some (some a) = true

-- `Ha._handle_crash_recovery`
unfoldable pub handle_crash_recovery : World → Action (Option Message)
handle_crash_recovery w = do
  started ← ask w Query.crash_recovery_started
  unlocked ← reads (λ s. is_unlocked s.cluster)
  allowed ← if started then pure false else if unlocked then pure true else ask w Query.can_rewind
  if allowed
      then tell (Call.runs Task.recover_crash) >> pure (some Message.crash_recovery)
      else pure none

-- The rewind, unless a crash recovery goes first.
unfoldable pub rewind_from_leader : World → Action (Option Message)
rewind_from_leader w = do
  running ← ask w Query.is_running
  interrupted ← if running then pure false else ask w Query.is_in_archive_recovery
  msg ← if interrupted then handle_crash_recovery w else pure none
  if is_some msg
      then pure msg
      else tell (Call.runs Task.rewind) >> pure (some Message.running_rewind)

unfoldable pub reinitialize_from_leader : World → Action (Option Message)
reinitialize_from_leader w = do
  removes ← ask w Query.should_remove_data_directory
  if removes && not w.is_standby_cluster
      then tell (Call.runs Task.reinitialize) >> pure (some Message.reinitializing)
      else pure none

-- `Ha._handle_rewind_or_reinitialize`
unfoldable pub handle_rewind_or_reinitialize : World → Action (Option Message)
handle_rewind_or_reinitialize w = do
  needed ← ask w Query.rewind_or_reinitialize_needed_and_possible
  has_leader ← reads (λ s. w.is_standby_cluster || is_some s.cluster.leader)
  if needed && has_leader
      then (do
        rewinds ← ask w Query.can_rewind
        if rewinds then rewind_from_leader w else reinitialize_from_leader w)
      else pure none

abbrev is_set_timeline : Option ℕ → Bool
is_set_timeline none = false
is_set_timeline (some t) = not (t == 0)

-- `self._last_timeline and self._leader_timeline and self._last_timeline < self._leader_timeline`
abbrev is_behind : Option ℕ → Option ℕ → Bool
is_behind (some last) (some leader) = not (last == 0) && ltb last leader
is_behind _ _ = false

abbrev is_remote : Option Target → Bool
is_remote (some remote) = true
is_remote _ = false

-- `node_to_follow and node_to_follow.conn_url`
abbrev is_reachable : World → Option Target → Bool
is_reachable w none = false
is_reachable w (some remote) = w.has_conn_url none
is_reachable w (some (member n)) = w.has_conn_url (some n)

abbrev pub is_standby_leader : Role → Bool
is_standby_leader Role.standby_leader = true
is_standby_leader _ = false

-- The configuration fits the node: a standby leader takes its role up, and the timelines are
-- compared.
unfoldable pub keep_following : World → Bool → Message → Action Message
keep_following w leads reason = do
  role ← reads (λ s. w.role s.trace)
  when (leads && not (is_standby_leader role))
      (tell (Call.sets_role Role.standby_leader) >> tell Call.calls_back)
  behind ← reads (λ s. is_behind (w.last_timeline s.trace) s.cluster.leader_timeline)
  if behind
      then (do
        tell Call.checks_diverged
        starting ← ask w Query.is_starting
        msg ← if starting then pure none else handle_rewind_or_reinitialize w
        pure (elim msg [ some m ↦ m | none ↦ reason ]))
      else pure reason

unfoldable pub change_config : World → Option Target → Role → Action (Unit {0})
change_config w target role = do
  restart ← ask w Query.restart_required
  (if restart
      then tell (Call.runs (Task.follow_node target role))
      else perform w (Query.follows target role))
  tell Call.checks_diverged

unfoldable pub configure : World → Option Target → Message → Action Message
configure w target reason = do
  when (not w.is_paused) (perform w Query.handles_parameter_change)
  leads ← reads (λ s. is_remote target && has_lock w s.cluster)
  if w.is_standby_cluster && not leads && not (is_reachable w target)
      then pure Message.follows_old_standby_leader
      else (do
        change ← ask w Query.change_required
        if change
            then change_config w target (if leads then Role.standby_leader else Role.replica)
              >> pure reason
            else keep_following w leads reason)

-- What a node does that stays a replica.
unfoldable pub follow_as_replica : World → Option Target → Message → Action Message
follow_as_replica w target reason = do
  timeline ← reads (λ s. s.cluster.leader_timeline)
  when (w.is_standby_cluster && is_set_timeline timeline)
      (do newer ← ask w Query.has_newer_history; when newer (tell Call.checks_diverged))
  starting ← ask w Query.is_starting
  msg ← if starting then pure none else handle_rewind_or_reinitialize w
  on_option msg (configure w target reason) pure

unfoldable pub follow_paused : World → Bool → Option Target → Message → Action Message
follow_paused w primary target reason = do
  rewind ← and_also (ask w Query.rewind_is_needed) (ask w Query.can_rewind_or_reinitialize_allowed)
  unlocked ← reads (λ s. is_unlocked s.cluster)
  if rewind && not unlocked
      then follow_as_replica w target reason
      else if primary
      then tell (Call.sets_role Role.primary) >> pure Message.continues_without_lock
      else do
        role ← reads (λ s. w.role s.trace)
        when (not (is_standby_leader role)) (tell (Call.sets_role Role.replica))
        on_option target (pure Message.no_action) (λ n. follow_as_replica w (some n) reason)

unfoldable pub demote_for : World → Message → Action Message
demote_for w reason = do
  (if w.is_standby_cluster
      then tell (Call.runs Task.demote_to_standby)
      else demote w DemoteMode.immediate_nolock)
  pure reason

-- `Ha.follow`
unfoldable pub follow : World → Message → Message → Bool → Action Message
follow w demote_reason follow_reason refresh = do
  when refresh (load_cluster_from_dcs w)
  primary ← ask w Query.is_primary
  target ← reads (λ s. get_node_to_follow w s.cluster)
  if w.is_paused
      then follow_paused w primary target follow_reason
      else if primary
      then demote_for w demote_reason
      else follow_as_replica w target follow_reason
