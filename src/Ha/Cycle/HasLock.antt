-- ===== src/Ha/Cycle/HasLock.antt =====
-- What keeps the lock, and what takes it (patroni/ha.py).
use metatroni.Prelude.{
  Bool, true, false, not, List, [], ◌∷◌, Option, none, some, ◌≡◌, refl, if◌then◌else◌, sym,
}
use metatroni.Ha.Election.{Failover}
use metatroni.Ha.Cycle.{
  Query, Call, Result, Event, World, State, ok, raised, asked, called, Error, when, ◌>>◌, pure, ask,
  tell,
}
use metatroni.Ha.Cycle.Keeps.{
  Leads, Keeps, Yields, After, Leads-weaken, Leads-split, Leads-if, Leads-bind, Leads-bind_result,
  Leads-on_result, Leads-on_option, Leads-then, Yields-bind, Yields-bind-Keeps, pure-Yields,
  set_is_leader-Keeps, reads-Keeps, pure-Keeps, bind-Keeps, keeps_rules,
}
use metatroni.Ha.Cycle.Guards.{lock_event, latest, is_promotion, AllGuarded, guarded}
use metatroni.Ha.Cycle.Promotes.{HasLock, OnTrue}
use metatroni.Ha.Cycle.Lock.{
  attempt, get_cluster, load_cluster_from_dcs, acquire_lock, update_lock, set_is_leader, refused,
}
use metatroni.Ha.Cycle.Process.{
  should_run_scheduled_action, steps_down, fail_over, process_manual_failover_from_leader,
  run_mgr_cycle,
}

-- Events that are not about the lock leave it as it is.
module _ (w : World) where
  pub ask-HasLock :
      (q : Query)
      → ((r : Result Bool) → lock_event (asked q r) ≡ none)
      → Keeps (HasLock w) (ask w q)
  unfolding ask
  ask-HasLock q quiet = record {
    at = λ s h. (((λ p. cc), h.0), rw (quiet (w.answer q s.trace), latest) h.1);
  }

  pub tell-HasLock : (c : Call) → is_promotion (called c) ≡ false → Keeps (HasLock w) (tell c)
  unfolding tell
  tell-HasLock c quiet = record { at = λ s h. (((λ p. cc), h.0), h.1) }

  pub get_cluster-HasLock : Keeps (HasLock w) (get_cluster w)
  unfolding get_cluster
  get_cluster-HasLock = record { at = λ s h. (((λ p. cc), h.0), h.1) }

  pub manual_failover-HasLock : Keeps (HasLock w) (ask w Query.manual_failover)
  manual_failover-HasLock = ask-HasLock Query.manual_failover (λ r. refl)

  pub is_primary-HasLock : Keeps (HasLock w) (ask w Query.is_primary)
  is_primary-HasLock = ask-HasLock Query.is_primary (λ r. refl)

  pub run_mgr_cycle-HasLock : (b : Bool) → Keeps (HasLock w) (run_mgr_cycle w b)
  unfolding run_mgr_cycle
  run_mgr_cycle-HasLock b = record { at = λ s h. (((λ p. cc), h.0), h.1) }

  pub run_mgr_cycle-Keeps : (b : Bool) → Keeps (AllGuarded w) (run_mgr_cycle w b)
  unfolding run_mgr_cycle
  run_mgr_cycle-Keeps b = record { at = λ s h. ((λ p. cc), h) }

pub ruleset locked = (
  keeps_rules, tell-HasLock, get_cluster-HasLock, manual_failover-HasLock, is_primary-HasLock, refl,
)

pub load_cluster_from_dcs-HasLock : (w : World) → Keeps (HasLock w) (load_cluster_from_dcs w)
unfolding load_cluster_from_dcs
load_cluster_from_dcs-HasLock w = search locked depth 20

pub fail_over-HasLock : (w : World) (f : Failover) → Keeps (HasLock w) (fail_over w f)
unfolding fail_over should_run_scheduled_action steps_down
fail_over-HasLock w f = search locked depth 30

pub process_manual_failover-HasLock :
    (w : World) → Keeps (HasLock w) (process_manual_failover_from_leader w)
unfolding process_manual_failover_from_leader
process_manual_failover-HasLock w = search (locked, fail_over-HasLock) depth 20

-- Taking or updating the lock.
pub weaken : (w : World) (b : Bool) (tr : List Event) → OnTrue w HasLock b tr → AllGuarded w tr
weaken w true tr h = h.0
weaken w false tr h = h

pub attempt-Yields :
    (w : World) (q : Query)
    → ((b : Bool) → lock_event (asked q (ok b)) ≡ some b)
    → Yields (AllGuarded w) (OnTrue w HasLock) (AllGuarded w) (attempt w q)
unfolding attempt
attempt-Yields w q about = record { at = λ s h. by_answer (w.answer q s.trace) s h }
  where
    by_answer :
        (a : Result Bool) (s : State)
        → AllGuarded w s.trace
        → After
            (OnTrue w HasLock)
            (AllGuarded w)
            (refused a, record s { trace = asked q a ∷ s.trace })
    by_answer (ok true) s h = (((λ p. cc), h), rw (about true, latest) refl)
    by_answer (ok false) s h = ((λ p. cc), h)
    by_answer (raised Error.dcs_error) s h = ((λ p. cc), h)
    by_answer (raised Error.other_error) s h = ((λ p. cc), h)

-- The flag and the keepalive after it.
pub set_leader-Yields :
    (w : World) (b : Bool)
    → Yields (OnTrue w HasLock b) (OnTrue w HasLock) (AllGuarded w) (set_is_leader w b >> pure b)
set_leader-Yields w b =
    Yields-bind-Keeps _ _ (set_is_leader-Keeps w b) (weaken w b)
      λ _. pure-Yields (OnTrue w HasLock) b

pub acquire_lock-Yields :
    (w : World) → Yields (AllGuarded w) (OnTrue w HasLock) (AllGuarded w) (acquire_lock w)
unfolding acquire_lock
acquire_lock-Yields w =
    Yields-bind (OnTrue w HasLock) _ _ (attempt-Yields w Query.acquire_leader_lock (λ b. refl))
      (set_leader-Yields w)

pub keepalive-Keeps :
    (w : World) (b : Bool) → Keeps (OnTrue w HasLock b) (when b (tell Call.keepalive))
keepalive-Keeps w true = tell-HasLock w Call.keepalive refl
keepalive-Keeps w false = pure-Keeps tt

pub update_lock-Yields :
    (w : World) (b : Bool)
    → Yields (AllGuarded w) (OnTrue w HasLock) (AllGuarded w) (update_lock w b)
unfolding update_lock
update_lock-Yields w b =
    Yields-bind-Keeps _ _ (search guarded) (λ tr h. h)
      λ _.
        Yields-bind (OnTrue w HasLock) _ _ (attempt-Yields w Query.update_leader (λ r. refl)) λ ret.
          Yields-bind-Keeps _ _ (set_is_leader-Keeps w ret) (weaken w ret) λ _.
            Yields-bind-Keeps _ _ (keepalive-Keeps w ret) (weaken w ret)
              λ _. pure-Yields (OnTrue w HasLock) ret
