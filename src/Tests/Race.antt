-- ===== src/Tests/Race.antt =====
-- The leader race (patroni/ha.py) at a concrete cluster: the primary `a` is gone, and `b` has the
-- answers of `c`, `d` and `e`.
use metatroni.Prelude.{
  ℕ, ◌≡◌, refl, ◌≤◌, ◌<◌, Bool, true, false, List, [], ◌∷◌, some, none, arith, length, inl, inr,
}
use metatroni.Prelude.Int.{pos}
use metatroni.Names.{Name, name, name_eq, lower, lower_code, same}
use metatroni.Names.Text.{split_on, strip, strip_left, is_space}
use metatroni.Collections.{contains, add, add_all, from_list, is_empty}
use metatroni.Collections.Laws.{IsDistinct}
use metatroni.Dcs.SyncState.{
  is_set, is_empty as sync_is_empty, str_to_list, voters, members, leader_matches,
}
use metatroni.Ha.Race.{
  Race, MemberStatus, incomparable, failover_limitation, is_lagging, voting_set, quorum, names_node,
  leader_name, node_ahead, node_not_ahead, by_position, by_relation, compares_gtid, count_status,
  count_statuses, is_up_to_date, own_vote, has_votes, wins_race, is_healthiest_node, Candidate,
  asks,
}
use metatroni.Ha.Race.Voters.{Among, IsVoter, is_healthiest_node-votes}
use metatroni.Ha.Race.Commits.{RunsOn, Reached, promotion_keeps_commits}
use metatroni.Quorum.Overlap.{View, view, CanCommit}
use metatroni.Quorum.Trace.{replay, publish}
use metatroni.Tests.Quorum.{letters, sync_to, quorum_to}
use metatroni.Tests.QuorumTheorems.{joining, joining-steps}

-- All that a run computes with.
unfoldable pub program : Unit {0}
unfolding name_eq lower lower_code same split_on strip strip_left is_space contains add add_all
    from_list is_empty is_set sync_is_empty str_to_list voters members leader_matches
    failover_limitation is_lagging voting_set quorum names_node leader_name node_ahead
    node_not_ahead by_position by_relation compares_gtid count_status count_statuses is_up_to_date
    own_vote has_votes wins_race asks is_healthiest_node
program = tt

abbrev pub answer : Name → ℕ → MemberStatus
answer n p = record {
  name = n;
  reachable = true;
  nofailover = false;
  watchdog_failed = false;
  in_recovery = some true;
  wal_position = p;
  timeline = 1;
  failover_priority = pos 1;
  peer_gtid = [];
}

abbrev pub answers : List MemberStatus
answers = answer (name "c") 100 ∷ answer (name "d") 90 ∷ answer (name "e") 95 ∷ []

abbrev pub race : Race
race = record {
  name = name "b";
  failover_priority = pos 1;
  has_timelines = true;
  cluster_timeline = 1;
  my_timeline = some 1;
  my_wal_position = 100;
  last_lsn = 100;
  maximum_lag_on_failover = pos 1048576;
  is_standby_cluster = false;
  check_timeline = true;
  sync_mode_is_active = true;
  quorum_commit_mode_is_active = true;
  sync = record {
    version = some 5;
    leader = some (name "a");
    sync_standby = some (name "b,c,d,e");
    quorum = pos 3;
  };
  use_gtid = false;
  my_gtid = [];
  gtid_relation = λ a b. incomparable;
}

-- The nodes of the cluster: the old primary has no answer, and this node does not ask itself.
abbrev node : Name → Candidate
node n = record { name = n; has_api_url = true; nofailover = false }

abbrev pub nodes : List Candidate
nodes =
    node (name "b")
    ∷ node (name "c")
    ∷ node (name "d")
    ∷ node (name "e")
    ∷ record { name = name "f"; has_api_url = true; nofailover = true }
    ∷ []

-- What the nodes answer.
abbrev fetch : List Candidate → List MemberStatus
fetch asked = answers

won : is_healthiest_node race fetch nodes true none ≡ true
unfolding program
won = refl

-- One voter less, and the quorum is missed.
lost :
    is_healthiest_node race
      (λ asked. answer (name "c") 100 ∷ answer (name "d") 90 ∷ [])
      nodes
      true
      none
    ≡ false
unfolding program
lost = refl

-- A node that is ahead wins instead.
behind : is_healthiest_node race (λ asked. answer (name "c") 101 ∷ answers) nodes true none ≡ false
unfolding program
behind = refl

is_healthiest_node-votes_example :
    (votes : List Name) × IsDistinct votes
    × (3 < length votes)
    × ((x : Name)
        → contains x votes ≡ true
        → IsVoter race answers x × (contains x (members race.sync) ≡ true))
unfolding program
is_healthiest_node-votes_example =
    is_healthiest_node-votes race fetch nodes true none 3 refl refl refl
      (refl, (refl, (refl, (refl, tt)))) won

-- The view after the second transition.
abbrev after : View
after = record {
  leader = name "a";
  quorum = 3;
  voters = letters "bcde";
  numsync = 2;
  sync = letters "bc";
  primary = name "a";
}

runs_on : RunsOn race after
unfolding program
runs_on = record { quorum_commit = refl; quorum = refl; members = λ x. refl }

can_commit : CanCommit after (letters "abc")
unfolding program
can_commit = record {
  distinct = (refl, (refl, (refl, tt)));
  listed = λ x h. h;
  enough = omega arith;
}

no_member : ◌≡◌ {A = Bool} false true → ⊥
no_member h = cc

reached : Reached race answers (letters "abc") 100
reached = record { by_this_node = λ h. omega arith; by_answer = holds }
  where
    holds :
        (st : MemberStatus)
        → Among st answers
        → contains st.name (letters "abc") ≡ true
        → 100 ≤ st.wal_position
    holds st (inl c) k = rw c (omega arith)
    holds st (inr (inl d)) k = absurd (unfold program in no_member (rw d at k))
    holds st (inr (inr (inl e))) k = absurd (unfold program in no_member (rw e at k))
    holds st (inr (inr (inr none_left))) k = absurd none_left

promotion_keeps_commits_example : 100 ≤ race.my_wal_position
unfolding program replay publish view
promotion_keeps_commits_example =
    promotion_keeps_commits joining (sync_to "a" 2 "bc" ∷ []) (quorum_to "a" 3 "bcde")
      (sync_to "a" 2 "bcde" ∷ []) race fetch nodes true none (letters "abc") 100 (refl, tt)
      joining-steps refl runs_on can_commit reached refl refl (refl, (refl, (refl, (refl, tt)))) won
