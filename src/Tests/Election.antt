-- ===== src/Tests/Election.antt =====
-- Runs of `Ha.is_healthiest_node` and `Ha.is_failover_possible` (patroni/ha.py) at a concrete
-- cluster, that of Race.
use metatroni.Prelude.{
  Memᴰ, Sublistᴰ, ◌≤◌, ◌≡◌, refl, ◌<◌, true, false, List, some, none, length, ◌↔◌,
}
use metatroni.Names.{name}
use metatroni.Dcs.SyncState.{matches, members, search_text, is_listed}
use metatroni.Ha.Race.{MemberStatus}
use metatroni.Ha.Election.{
  Ha, Failover, Fetch, failover_of, race_of, sync_mode_is_active, quorum_commit_mode_is_active,
  is_manual_failover, is_eligible, get_failover_candidates, can_take_over, checks_quorum,
  is_failover_possible, get_member, is_available, race_for_failover, pick_other,
  manual_failover_process_no_leader,
}
use metatroni.Ha.Election.Health.{
  put_member, put_members, failsafe_members, is_left_out, all_known_members, is_healthiest_primary,
  racers, automatic_failover, standby_failover, started_failover, paused_failover,
  is_healthiest_node,
}
use metatroni.Ha.Election.Standby.{is_healthiest_node-switchover}
use metatroni.Ha.Election.Candidates.{TakesOver, NeedsQuorum, is_failover_possible-count}
use metatroni.Tests.Race.{program as race_program, race, nodes, answers, answer}

program : Unit {0}
unfolding race_program matches search_text is_listed failover_of race_of sync_mode_is_active
    quorum_commit_mode_is_active is_manual_failover is_eligible get_failover_candidates
    can_take_over checks_quorum is_failover_possible get_member is_available race_for_failover
    pick_other manual_failover_process_no_leader put_member put_members failsafe_members is_left_out
    all_known_members is_healthiest_primary racers automatic_failover standby_failover
    started_failover paused_failover is_healthiest_node
program = tt

abbrev pub fetch : Fetch
fetch = record { node_status = λ c. answer c.name 100; nodes_statuses = λ cs. answers }

-- The primary `a` is gone, and quorum commit is on.
abbrev pub node : Ha
node = record {
  race = race;
  is_synchronous_mode = true;
  is_quorum_commit_mode = true;
  is_paused = false;
  is_starting = false;
  is_primary = false;
  primary_timeline = none;
  nofailover = false;
  watchdog_is_healthy = true;
  has_released_leader_key = false;
  initialize = none;
  sysid = name "1";
  failover = none;
  members = nodes;
  old_members = nodes;
  old_leader = some (name "a");
  is_failsafe_mode = false;
  failsafe = none;
}

wins_race : (is_healthiest_node node fetch).is_healthiest ≡ true
unfolding program
wins_race = refl

-- Each call makes the member list of the old view longer.
grows : length (is_healthiest_node node fetch).old_members ≡ 10
unfolding program
grows = refl

-- A switchover from `a`.
abbrev switchover : Failover
switchover = record { leader = some (name "a"); candidate = none; is_scheduled = false }

abbrev switching : Ha
switching = record node { failover = some switchover }

is_healthiest_node-switchover_example :
    (switching.nofailover ≡ false)
    × (matches switching.race.sync (some switching.race.name) true ≡ true)
unfolding program
is_healthiest_node-switchover_example =
    is_healthiest_node-switchover switching fetch switchover refl refl refl refl refl refl

is_failover_possible-count_example : (is_failover_possible node fetch 0 false ≡ true) ↔ (
    (votes : List MemberStatus) × Sublistᴰ votes
      (fetch.nodes_statuses (get_failover_candidates node false))
    × ((st : MemberStatus) → Memᴰ st votes → TakesOver node 0 st)
    × (1 ≤ length votes)
    × (NeedsQuorum node false → 3 < length votes))
unfolding program
is_failover_possible-count_example = is_failover_possible-count node fetch 0 false 3 refl

-- Three answers are too few for a quorum of 3: the leader must stay.
stays : is_failover_possible node fetch 0 false ≡ false
unfolding program
stays = refl
