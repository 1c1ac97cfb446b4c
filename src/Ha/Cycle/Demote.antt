-- ===== src/Ha/Cycle/Demote.antt =====
-- `Ha.demote` and `Ha._get_node_to_follow` (patroni/ha.py).
use metatroni.Prelude.{
  Bool, true, false, not, ◌&&◌, ◌||◌, List, [], ◌∷◌, Option, none, some, if◌then◌else◌,
}
use metatroni.Names.{Name, name_eq}
use metatroni.Dcs.SyncState.{is_set}
use metatroni.Ha.Election.{is_failover_possible}
use metatroni.Ha.Cycle.{
  Role, Target, remote, member, DemoteMode, StopMode, Task, Query, Call, Result, Cluster, World,
  State, Action, ok, raised, pure, ◌>>=◌, ◌>>◌, ask, perform, tell, reads, when, is_unlocked,
  has_lock, offline, graceful, immediate, immediate_nolock, demote_cluster,
}
use metatroni.Ha.Cycle.Lock.{get_cluster, set_is_leader, release_leader_key_voluntarily}

-- `cluster.get_member(name)`, which falls back to the leader
unfoldable pub find_member : Name → List Name → Option Name → Option Target
find_member n [] none = none
find_member n [] (some leader) = some (member leader)
find_member n (m ∷ ms) leader = if name_eq m n then some (member m) else find_member n ms leader

unfoldable pub named_leader : Option Name → Option Target
named_leader none = none
named_leader (some n) = if is_set (some n) then some (member n) else none

unfoldable pub replication_source : World → Cluster → Option Target
replication_source w c = elim w.replicatefrom [
  | none ↦ named_leader c.leader
  | some n ↦
      if is_set (some n) && not (name_eq n w.name)
      then find_member n c.members c.leader
      else named_leader c.leader
]

unfoldable pub not_self : World → Option Target → Option Target
not_self w (some (member n)) = if name_eq n w.name then none else some (member n)
not_self w (some remote) = some remote
not_self w none = none

-- `Ha._get_node_to_follow`
unfoldable pub get_node_to_follow : World → Cluster → Option Target
get_node_to_follow w c =
    if w.nostream
    then none
    else not_self w (
        if w.is_standby_cluster
          && (is_set c.leader && has_lock w c || is_unlocked c && not w.is_paused)
        then some remote
        else replication_source w c)

-- The columns of `mode_control`.
abbrev stop_of : DemoteMode → StopMode
stop_of immediate = StopMode.immediate_stop
stop_of immediate_nolock = StopMode.immediate_stop
stop_of _ = StopMode.fast_stop

abbrev releases : DemoteMode → Bool
releases graceful = true
releases immediate = true
releases demote_cluster = true
releases _ = false

abbrev is_offline : DemoteMode → Bool
is_offline offline = true
is_offline _ = false

abbrev is_async : DemoteMode → Bool
is_async immediate = true
is_async immediate_nolock = true
is_async _ = false

abbrev is_graceful : DemoteMode → Bool
is_graceful graceful = true
is_graceful _ = false

abbrev is_to_standby : DemoteMode → Bool
is_to_standby demote_cluster = true
is_to_standby _ = false

-- `on_shutdown`: whether it released the key.
unfoldable pub on_shutdown : World → Action Bool
on_shutdown w = do
  tell Call.sleeps
  possible ← reads (λ s.
      is_failover_possible (w.view s.trace) (w.fetch s.trace) (w.checkpoint_location s.trace) false)
  if possible
      then (do tell (Call.sets_role Role.demoted); release_leader_key_voluntarily w; pure true)
      else pure false

-- The callbacks that `state_handler.stop` calls once it has begun.
unfoldable pub finish_stop : World → Bool → Bool → Action Bool
finish_stop w guarded release = do
  when guarded (do safe ← ask w Query.reaches_safepoint; when safe (tell Call.disables_watchdog))
  if release
      then (do
        shut_down ← ask w Query.reports_shutdown
        if shut_down then on_shutdown w else pure false)
      else pure false

-- `state_handler.stop`, with the callbacks that it is given.
unfoldable pub stop : World → DemoteMode → Bool → Action Bool
stop w mode release = do
  guarded ← ask w Query.watchdog_is_running
  when (is_graceful mode) (tell Call.before_shutdown)
  tell (Call.stops (stop_of mode))
  finish_stop w guarded release

abbrev pub chosen : World → Result Cluster × State → Result (Option Target) × State
chosen w (ok c, s) = (ok (get_node_to_follow w c), s)
chosen w (raised e, s) = (ok none, s)

-- `try: cluster = self.dcs.get_cluster()`
unfoldable pub try_choose : World → Action (Option Target)
try_choose w s = chosen w (get_cluster w s)

-- The leader flag, or the key of a standby leader.
unfoldable pub give_up_key : World → Bool → Action (Unit {0})
give_up_key w is_standby_leader =
    if is_standby_leader then perform w Query.update_leader else set_is_leader w false

-- The key is released unless `on_shutdown` did so.
unfoldable pub release_unless : World → Bool → Action (Unit {0})
release_unless w released = do
  when (not released) (release_leader_key_voluntarily w)
  tell Call.sleeps

-- The node that is started again, or rewound in the next round.
unfoldable pub restart_as : World → DemoteMode → Role → Option Target → Action (Unit {0})
restart_as w mode role target =
    if is_async mode then tell (Call.runs (Task.start_after_demotion target role)) else do
      diverged ← ask w Query.rewind_or_reinitialize_needed_and_possible
      if diverged then pure tt else perform w (Query.follows target role)

-- The part of `Ha.demote` after the stop.
unfoldable pub finish_demotion : World → DemoteMode → Bool → Bool → Bool → Action (Unit {0})
finish_demotion w mode archives release released = do
  tell (Call.sets_role Role.demoted)
  let is_standby_leader = is_to_standby mode && not released
  give_up_key w is_standby_leader
  when (release && not is_standby_leader) (release_unless w released)
  when archives (tell Call.archives_checkpoint)
  target ← if is_offline mode then pure none else try_choose w
  when w.is_synchronous_mode (perform w Query.clears_sync_names)
  restart_as w mode (if is_standby_leader then Role.standby_leader else Role.replica) target

unfoldable pub demote_postgresql : World → DemoteMode → Action (Unit {0})
demote_postgresql w mode = do
  tell Call.checks_diverged
  has_archive_command ← ask w Query.has_archive_command
  let archives = is_to_standby mode && has_archive_command
  let release = releases mode && not archives
  released ← stop w mode release
  finish_demotion w mode archives release released

-- `Ha.demote`
unfoldable pub demote : World → DemoteMode → Action (Unit {0})
demote w mode =
    if w.is_mysql then perform w (Query.demotes_mysql mode) else demote_postgresql w mode
