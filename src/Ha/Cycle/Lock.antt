-- ===== src/Ha/Cycle/Lock.antt =====
-- The leader lock (patroni/ha.py): `Ha.load_cluster_from_dcs`, `Ha.acquire_lock`,
-- `Ha.update_lock`, `Ha.set_is_leader` and the release of the lock.
use metatroni.Prelude.{◌+◌, Bool, false, not, ◌&&◌, none, some, if◌then◌else◌}
use metatroni.Ha.Cycle.{
  Query, Call, Error, Result, Cluster, World, State, Action, ok, raised, pure, ◌>>=◌, ◌>>◌, log,
  perform, tell, reads, when, is_unlocked, has_lock, loaded, asked,
}

-- `Ha.set_is_leader`
unfoldable pub set_is_leader : World → Bool → Action (Unit {0})
set_is_leader w value s = (
  ok tt,
  record s {
    leader_expiry = if value then w.time s.trace + w.ttl else 0;
    promote_timestamp = if value then s.promote_timestamp else 0;
  },
)

-- `Failsafe.update_cluster`, as far as the leader goes: the one that last called is put in.
unfoldable pub with_failsafe_leader : World → State → Cluster → Cluster
with_failsafe_leader w s c = elim (w.failsafe_leader s.trace) [
  | none ↦ c
  | some leader ↦ record c { leader = some leader; leader_timeline = none }
]

unfoldable pub get_cluster : World → Action Cluster
get_cluster w s = let c = w.get_cluster s.trace in (c, log (loaded c) s)

unfoldable pub set_cluster : Cluster → Action (Unit {0})
set_cluster c s = (ok tt, record s { cluster = c })

-- `Ha.load_cluster_from_dcs`
unfoldable pub load_cluster_from_dcs : World → Action (Unit {0})
load_cluster_from_dcs w = do
  c ← get_cluster w
  seen ← reads (λ s. if is_unlocked c && w.is_failsafe_mode then with_failsafe_leader w s c else c)
  set_cluster seen
  when (not (has_lock w seen)) (set_is_leader w false)

-- Errors other than those of the store count as a refusal.
abbrev pub refused : Result Bool → Result Bool
refused (ok b) = ok b
refused (raised Error.dcs_error) = raised Error.dcs_error
refused (raised Error.other_error) = ok false

unfoldable pub attempt : World → Query → Action Bool
attempt w q s = let a = w.answer q s.trace in (refused a, log (asked q a) s)

-- `try: ... except Exception`
unfoldable pub attempt_all : World → Query → Action (Unit {0})
attempt_all w q s = (ok tt, log (asked q (w.answer q s.trace)) s)

-- `Ha.acquire_lock`
unfoldable pub acquire_lock : World → Action Bool
acquire_lock w = do ret ← attempt w Query.acquire_leader_lock; set_is_leader w ret; pure ret

-- `Ha.update_lock`
unfoldable pub update_lock : World → Bool → Action Bool
update_lock w update_status = do
  when update_status (tell Call.fetches_status)
  ret ← attempt w Query.update_leader
  set_is_leader w ret
  when ret (tell Call.keepalive)
  pure ret

-- `Ha._delete_leader`
unfoldable pub delete_leader : World → Action (Unit {0})
delete_leader w = do
  set_is_leader w false
  perform w Query.delete_leader_key
  tell Call.resets_cluster

-- `Ha.release_leader_key_voluntarily`
unfoldable pub release_leader_key_voluntarily : World → Action (Unit {0})
release_leader_key_voluntarily w = delete_leader w >> tell Call.touches_member
