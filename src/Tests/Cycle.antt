-- ===== src/Tests/Cycle.antt =====
-- Rounds of the HA loop (patroni/ha.py) at concrete answers.
use metatroni.Prelude.{◌≡◌, refl, Bool, true, false, ◌||◌, List, [], ◌∷◌, none, some}
use metatroni.Names.{name, name_eq}
use metatroni.Dcs.SyncState.{is_set}
use metatroni.Ha.Cycle.{
  Role, Query, MgrAction, Cluster, World, State, ok, pure, ◌>>=◌, ask, tell, reads, on_option,
  is_unlocked, has_lock, Event, called, Call,
}
use metatroni.Ha.Cycle.Lock.{attempt, get_cluster, set_is_leader, update_lock}
use metatroni.Ha.Cycle.Primary.{
  start_promotion, promote_prepared, promote, take_primary_role, enforce_guarded,
  enforce_primary_role,
}
use metatroni.Ha.Cycle.Process.{
  requested, process_manual_failover_from_leader, lead_with_lock, lead_unless_requested,
  keep_leading, renew_lock, process_as_leader, follow_leader, process_healthy_cluster,
  process_cluster,
}
use metatroni.Ha.Cycle.Demote.{
  get_node_to_follow, replication_source, named_leader, not_self, finish_stop, stop, give_up_key,
  release_unless, try_choose, restart_as, finish_demotion, demote_postgresql, demote,
}
use metatroni.Ha.Cycle.Follow.{Message, demote_for, follow}
use metatroni.Ha.Cycle.Outage.{
  call_failsafe_member, call_members, lists, call_others, call_topology, check_failsafe_topology,
  continue_as_leader, stop_offline, survive, handle_dcs_error,
}
use metatroni.Ha.Cycle.Guards.{AllGuarded, is_promotion}
use metatroni.Ha.Cycle.Rounds.{process_cluster-AllGuarded}
use metatroni.Ha.Cycle.Debts.{owes}
use metatroni.Ha.Cycle.NoSplit.{process_cluster-NoDebt}
use metatroni.Ha.Cycle.Failsafe.{Settled, handle_dcs_error-Settled}
use metatroni.Tests.Election.{node, fetch}

-- The database is a standby, and everything else succeeds.
abbrev answer_of : Query → Bool
answer_of Query.is_primary = false
answer_of Query.pre_promote_failed = false
answer_of _ = true

abbrev cluster : Cluster
cluster = record {
  leader = some (name "a");
  leader_timeline = some 1;
  members = name "a" ∷ name "b" ∷ [];
  failover = none;
}

abbrev world : World
world = record {
  name = name "a";
  is_paused = false;
  is_standby_cluster = false;
  is_synchronous_mode = false;
  is_quorum_commit_mode = false;
  is_failsafe_mode = false;
  is_mysql = false;
  nofailover = false;
  nostream = false;
  replicatefrom = none;
  ttl = 30;
  loop_wait = 10;
  has_conn_url = λ n. true;
  time = λ tr. 100;
  answer = λ q tr. ok (answer_of q);
  get_cluster = λ tr. ok cluster;
  role = λ tr. Role.replica;
  failsafe_leader = λ tr. none;
  last_timeline = λ tr. none;
  run_mgr_cycle = λ b tr. ok MgrAction.no_action;
  failsafe = none;
  accepts = λ n tr. true;
  scheduled_in = λ tr. none;
  view = λ tr. node;
  fetch = λ tr. fetch;
  checkpoint_location = λ tr. 0;
}

-- The node has the lock.
abbrev leading : State
leading = record { cluster = cluster; leader_expiry = 0; promote_timestamp = 0; trace = [] }

-- The same where the database is a primary.
abbrev answer_primary : Query → Bool
answer_primary Query.is_primary = true
answer_primary q = answer_of q

abbrev primary_world : World
primary_world = record world {
  answer = λ q tr. ok (answer_primary q);
  is_failsafe_mode = true;
  failsafe = some (name "a" ∷ name "b" ∷ []);
}

-- Another node has the lock.
abbrev deposed : State
deposed = record leading { cluster = record cluster { leader = some (name "b") } }

program : Unit {0}
unfolding name_eq is_set pure ◌>>=◌ ask tell reads on_option is_unlocked has_lock attempt
    set_is_leader update_lock start_promotion promote_prepared promote take_primary_role
    enforce_guarded enforce_primary_role requested process_manual_failover_from_leader
    lead_with_lock lead_unless_requested keep_leading renew_lock process_as_leader
    process_healthy_cluster process_cluster get_node_to_follow replication_source named_leader
    not_self get_cluster finish_stop stop give_up_key release_unless try_choose restart_as
    finish_demotion demote_postgresql demote demote_for follow follow_leader call_failsafe_member
    call_members lists call_others call_topology check_failsafe_topology continue_as_leader survive
    handle_dcs_error
program = tt

abbrev is_stop : Event → Bool
is_stop (called (Call.stops m)) = true
is_stop _ = false

abbrev has_event : (Event → Bool) → List Event → Bool
has_event p [] = false
has_event p (e ∷ tr) = p e || has_event p tr

-- The round ends by starting the promotion.
promotes : has_event is_promotion (process_cluster world leading).1.trace ≡ true
unfolding program
promotes = refl

stops_database : has_event is_stop (process_cluster primary_world deposed).1.trace ≡ true
unfolding program
stops_database = refl

-- Without failsafe mode, a primary that does not reach the store is stopped.
stops_offline :
    has_event is_stop
      (handle_dcs_error (record primary_world { is_failsafe_mode = false }) leading).1.trace
    ≡ true
unfolding program stop_offline
stops_offline = refl

process_cluster-AllGuarded_example : AllGuarded world (process_cluster world leading).1.trace
process_cluster-AllGuarded_example = process_cluster-AllGuarded world leading refl

deposed_round :
    process_cluster primary_world deposed
    ≡ (ok Message.demoted_no_lock, (process_cluster primary_world deposed).1)
unfolding program
deposed_round = refl

process_cluster-NoDebt_example : owes (process_cluster primary_world deposed).1.trace ≡ false
process_cluster-NoDebt_example =
    process_cluster-NoDebt primary_world deposed (process_cluster primary_world deposed).1
      Message.demoted_no_lock refl refl refl deposed_round

outage_round :
    handle_dcs_error primary_world leading
    ≡ (ok Message.continues_failsafe, (handle_dcs_error primary_world leading).1)
unfolding program
outage_round = refl

handle_dcs_error-Settled_example :
    Settled primary_world Message.continues_failsafe
      (handle_dcs_error primary_world leading).1.trace
handle_dcs_error-Settled_example =
    handle_dcs_error-Settled primary_world leading (handle_dcs_error primary_world leading).1
      Message.continues_failsafe refl refl outage_round
