-- ===== src/Ha/Race.antt =====
-- The leader race of patroni/ha.py: `_MemberStatus.failover_limitation`, `Ha.is_lagging` and
-- `Ha._is_healthiest_node`. What the methods ask other objects for is a field of `Race`.
pub mod Votes
pub mod Voters
pub mod Commits
use metatroni.Prelude.{
  ℕ, ◌+◌, Bool, true, false, not, ◌&&◌, ◌||◌, List, [], ◌∷◌, keep, Option, none, some, ltb, ◌==◌,
  if◌then◌else◌,
}
use metatroni.Prelude.Int.{ℤ, pos, negsuc, ◌+ℤ◌, ◌-ℤ◌, ltb_ℤ, leb_ℤ}
use metatroni.Names.{Name, name_eq}
use metatroni.Collections.{CaseInsensitiveSet, contains, from_list}
use metatroni.Dcs.SyncState.{SyncState, members, leader_matches}

pub data Limitation : Type 0 where
  not_reachable not_allowed not_watchdog_capable : Limitation

-- `_MemberStatus`. `peer_gtid` is the set of transactions that the answer or the member's key
-- reports, an empty text where there is none.
pub record MemberStatus : Type 0 where
  pub name : Name
  pub reachable : Bool
  pub nofailover : Bool
  pub watchdog_failed : Bool
  pub in_recovery : Option Bool
  pub wal_position : ℕ
  pub timeline : ℕ
  pub failover_priority : ℤ
  pub peer_gtid : Name

-- `_MemberStatus.failover_limitation`
unfoldable pub failover_limitation : MemberStatus → Option Limitation
failover_limitation st =
    if not st.reachable
    then some not_reachable
    else if st.nofailover
    then some not_allowed
    else if st.watchdog_failed
    then some not_watchdog_capable
    else none

-- The results of `gtid_relation`.
pub data Relation : Type 0 where
  equal a_ahead b_ahead incomparable : Relation

-- What this node knows when it enters the race. `gtid_relation` compares two sets of
-- transactions by a query; `use_gtid` and `my_gtid` tell whether it is asked.
pub record Race : Type 0 where
  pub name : Name
  pub failover_priority : ℤ
  pub has_timelines : Bool
  pub cluster_timeline : ℕ
  pub my_timeline : Option ℕ
  pub my_wal_position : ℕ
  pub last_lsn : ℕ
  pub maximum_lag_on_failover : ℤ
  pub is_standby_cluster : Bool
  pub check_timeline : Bool
  pub sync_mode_is_active : Bool
  pub quorum_commit_mode_is_active : Bool
  pub sync : SyncState
  pub use_gtid : Bool
  pub my_gtid : Name
  pub gtid_relation : Name → Name → Relation

-- `Ha.is_lagging`
unfoldable pub is_lagging : Race → ℕ → Bool
is_lagging r wal_position = ltb_ℤ r.maximum_lag_on_failover (pos r.last_lsn -ℤ pos wal_position)

-- The set of nodes whose votes count.
unfoldable pub voting_set : Race → CaseInsensitiveSet
voting_set r = if r.quorum_commit_mode_is_active then from_list (members r.sync) else []

-- The quorum that the votes must reach.
unfoldable pub quorum : Race → ℤ
quorum r = if r.quorum_commit_mode_is_active then r.sync.quorum else pos 0

-- `a == b` where either may be `None`, and is then no match.
unfoldable pub names_node : Option Name → Name → Bool
names_node none b = false
names_node (some a) b = name_eq a b

-- The former leader, whose priority is ignored.
unfoldable pub leader_name : Race → Option Name → Option Name
leader_name r leader = if r.sync_mode_is_active then r.sync.leader else leader

-- Votes and nodes ahead so far; `none` is `return False`.
abbrev pub Tally : Type 0
Tally = ℤ × ℕ

-- The node is ahead of this one: only the former leader of `/sync` may be.
unfoldable pub node_ahead : Race → MemberStatus → Tally → Option Tally
node_ahead r st (votes, ahead) =
    if not r.sync_mode_is_active || not (leader_matches r.sync (some st.name))
    then none
    else some (votes, ahead + 1)

-- The node is not ahead: it defers to this one, unless it is as far and has a higher priority.
unfoldable pub node_not_ahead : Race → Option Name → MemberStatus → Bool → Tally → Option Tally
node_not_ahead r leader st level (votes, ahead) =
    let quorum_vote = contains st.name (voting_set r) in
    let low_priority =
      level && ltb_ℤ r.failover_priority st.failover_priority && not (names_node leader st.name) in
    if low_priority && (not r.quorum_commit_mode_is_active || quorum_vote)
    then none
    else if quorum_vote
    then some (votes +ℤ pos 1, ahead)
    else some (votes, ahead)

-- The comparison of positions.
unfoldable pub by_position : Race → Option Name → MemberStatus → Tally → Option Tally
by_position r leader st tally =
    if ltb r.my_wal_position st.wal_position
    then node_ahead r st tally
    else if ltb 0 st.wal_position
    then node_not_ahead r leader st (r.my_wal_position == st.wal_position) tally
    else some tally

unfoldable pub by_relation : Relation → Race → Option Name → MemberStatus → Tally → Option Tally
by_relation b_ahead r leader st tally = node_ahead r st tally
by_relation a_ahead r leader st tally = node_not_ahead r leader st false tally
by_relation equal r leader st tally = node_not_ahead r leader st true tally
by_relation incomparable r leader st tally = by_position r leader st tally

unfoldable pub compares_gtid : Race → MemberStatus → Bool
compares_gtid r st = r.use_gtid && not (name_eq r.my_gtid []) && not (name_eq st.peer_gtid [])

abbrev is_primary : Option Bool → Bool
is_primary (some false) = true
is_primary _ = false

abbrev pub is_none : Option Limitation → Bool
is_none none = true
is_none (some l) = false

-- The body of the loop over the statuses.
unfoldable pub count_status : Race → Option Name → MemberStatus → Tally → Option Tally
count_status r leader st tally =
    if not (is_none (failover_limitation st))
    then some tally
    else if is_primary st.in_recovery
    then none
    else if compares_gtid r st
    then by_relation (r.gtid_relation r.my_gtid st.peer_gtid) r leader st tally
    else by_position r leader st tally

unfoldable pub count_statuses : Race → Option Name → List MemberStatus → Tally → Option Tally
count_statuses r leader [] tally = some tally
count_statuses r leader (st ∷ sts) tally = elim (count_status r leader st tally) [
  | none ↦ none
  | some tally' ↦ count_statuses r leader sts tally'
]

-- The tests before the nodes are asked: the lag and the timeline.
unfoldable pub is_up_to_date : Race → Bool → Bool
is_up_to_date r check_replication_lag =
    if check_replication_lag && is_lagging r r.my_wal_position
    then false
    else if r.has_timelines && not r.is_standby_cluster && r.check_timeline
    then elim r.my_timeline [ none ↦ false | some t ↦ not (ltb t r.cluster_timeline) ]
    else true

-- The vote of this node itself.
unfoldable pub own_vote : Race → ℤ
own_vote r = if contains r.name (voting_set r) then pos 0 else negsuc 0

-- The final test.
unfoldable pub has_votes : Race → Tally → Bool
has_votes r (votes, ahead) =
    not r.quorum_commit_mode_is_active
    || leb_ℤ (quorum r) votes
    || (ahead == 0 && names_node r.sync.leader r.name)

-- What `Ha._is_healthiest_node` decides from the answers.
unfoldable pub wins_race : Race → List MemberStatus → Bool → Option Name → Bool
wins_race r statuses check_replication_lag leader =
    if not (is_up_to_date r check_replication_lag)
    then false
    else elim (count_statuses r (leader_name r leader) statuses (own_vote r, 0)) [
      | none ↦ false
      | some tally ↦ has_votes r tally
    ]

-- A member of the cluster, as far as the race chooses whom to ask.
pub record Candidate : Type 0 where
  pub name : Name
  pub has_api_url : Bool
  pub nofailover : Bool

-- The list of nodes to ask: voters also with the `nofailover` tag.
unfoldable pub asks : Race → Candidate → Bool
asks r m =
    not (name_eq m.name r.name)
    && m.has_api_url
    && (not m.nofailover || contains m.name (voting_set r))

-- `Ha._is_healthiest_node`, over `fetch_nodes_statuses`, which asks the nodes for their status.
unfoldable pub is_healthiest_node :
    Race → (List Candidate → List MemberStatus) → List Candidate → Bool → Option Name → Bool
is_healthiest_node r fetch_nodes_statuses nodes check_replication_lag leader =
    wins_race r (fetch_nodes_statuses (keep (asks r) nodes)) check_replication_lag leader
