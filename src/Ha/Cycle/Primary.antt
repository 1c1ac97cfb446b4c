-- ===== src/Ha/Cycle/Primary.antt =====
-- `Ha.enforce_primary_role`, `Ha.process_sync_replication` and `Ha.enforce_follow_remote_member`
-- (patroni/ha.py).
use metatroni.Prelude.{◌-◌, Bool, true, false, not, ◌&&◌, ◌||◌, ltb, ◌==◌, if◌then◌else◌}
use metatroni.Ha.Cycle.{
  Role, DemoteMode, Task, SyncTask, Query, Call, World, Action, ok, pure, ◌>>=◌, ◌>>◌, ask, perform,
  tell, reads, when, or_else,
}
use metatroni.Ha.Cycle.Lock.{release_leader_key_voluntarily}
use metatroni.Ha.Cycle.Demote.{demote}
use metatroni.Ha.Cycle.Follow.{Message, follow}

-- `Ha.enforce_follow_remote_member`
unfoldable pub enforce_follow_remote_member : World → Message → Action Message
enforce_follow_remote_member w message = follow w Message.demoted_in_standby message true

unfoldable pub set_promote_timestamp : World → Action (Unit {0})
set_promote_timestamp w s = (ok tt, record s { promote_timestamp = w.time s.trace })

-- The rounds wait until `loop_wait` has passed since the promotion was seen.
unfoldable pub process_quorum : World → Action (Unit {0})
process_quorum w = do
  due ←
      reads
        (λ s. s.promote_timestamp == 0 || ltb w.loop_wait (w.time s.trace - s.promote_timestamp))
  when due (perform w (Query.syncs SyncTask.quorum_round))
  is_new ← reads (λ s. s.promote_timestamp == 0)
  when is_new (set_promote_timestamp w)

-- `Ha.process_sync_replication`
unfoldable pub process_sync_replication : World → Action (Unit {0})
process_sync_replication w =
    if w.is_quorum_commit_mode
    then (do primary ← ask w Query.is_primary; when primary (process_quorum w))
    else if w.is_synchronous_mode
    then perform w (Query.syncs SyncTask.multisync_round)
    else perform w (Query.syncs SyncTask.disable_sync)

abbrev is_primary_role : Role → Bool
is_primary_role Role.primary = true
is_primary_role Role.promoted = true
is_primary_role _ = false

abbrev is_mgr_primary : Role → Bool
is_mgr_primary Role.mgr_primary = true
is_mgr_primary _ = false

-- The database is the primary.
unfoldable pub confirm_primary : World → Message → Action Message
confirm_primary w message = do
  role ← reads (λ s. w.role s.trace)
  when (not (w.is_mysql && is_mgr_primary role)) (tell (Call.sets_role Role.primary))
  process_sync_replication w
  perform w Query.update_cluster_history
  perform w Query.sync_meta_data
  pure message

unfoldable pub start_promotion : World → Action (Unit {0})
start_promotion w = do
  tell Call.resets_failsafe
  tell Call.forgets_timeline
  tell Call.resets_response
  tell (Call.runs Task.promote)

-- The replication state is prepared.
unfoldable pub promote_prepared : World → Message → Action Message
promote_prepared w promote_message = do
  role ← reads (λ s. w.role s.trace)
  (if is_primary_role role then pure tt else start_promotion w)
  pure promote_message

-- The database is to be promoted.
unfoldable pub promote : World → Message → Action Message
promote w promote_message = do
  prepared ← ask w Query.syncs_before_promote
  if prepared then promote_prepared w promote_message else pure Message.promotion_postponed

unfoldable pub take_primary_role : World → Message → Message → Action Message
take_primary_role w message promote_message = do
  primary ← ask w Query.is_primary
  role ← reads (λ s. w.role s.trace)
  if primary
      then confirm_primary w message
      else if is_primary_role role
      then process_sync_replication w >> pure message
      else promote w promote_message

unfoldable pub give_up_unguarded : World → Action Message
give_up_unguarded w = do
  primary ← ask w Query.is_primary
  if primary
      then demote w DemoteMode.immediate >> pure Message.demoted_no_watchdog
      else release_leader_key_voluntarily w >> pure Message.not_promoted_no_watchdog

unfoldable pub cancel_promotion : World → Action Message
cancel_promotion w = do
  tell Call.remembers_release
  release_leader_key_voluntarily w
  tell Call.resets_response
  pure Message.promotion_cancelled

-- The watchdog runs.
unfoldable pub enforce_guarded : World → Message → Message → Action Message
enforce_guarded w message promote_message = do
  failed ← ask w Query.pre_promote_failed
  if failed then cancel_promotion w else take_primary_role w message promote_message

-- `Ha.enforce_primary_role`
unfoldable pub enforce_primary_role : World → Message → Message → Action Message
enforce_primary_role w message promote_message =
    if w.is_paused then take_primary_role w message promote_message else do
      guarded ← or_else (ask w Query.watchdog_is_running) (ask w Query.watchdog_activates)
      if guarded then enforce_guarded w message promote_message else give_up_unguarded w
