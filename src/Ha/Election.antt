-- ===== src/Ha/Election.antt =====
-- Whom a leader may step down for, and who may take over (patroni/ha.py):
-- `Ha.get_failover_candidates`, `Ha.is_failover_possible` and
-- `Ha.manual_failover_process_no_leader`; the child Health has `Ha.is_healthiest_node`. `Fetch` stands for the requests to the other nodes.

pub mod Health
pub mod Racers
pub mod Standby
pub mod Candidates
use metatroni.Prelude.{
  ℕ, ◌+◌, Bool, true, false, not, ◌&&◌, ◌||◌, List, [], ◌∷◌, ◌++◌, map, keep, Option, none, some,
  length, ltb, leb, ◌==◌, if◌then◌else◌,
}
use metatroni.Prelude.Int.{ℤ, pos, sub_ℕ, ltb_ℤ, leb_ℤ}
use metatroni.Names.{Name, name_eq}
use metatroni.Dcs.SyncState.{SyncState, is_empty, is_set, matches}
use metatroni.Ha.Race.{
  Race, MemberStatus, Candidate, failover_limitation, is_none, is_lagging, names_node, quorum,
  is_healthiest_node as wins_leader_race,
}

-- A `/failover` key, as far as these methods read it.
pub record Failover : Type 0 where
  pub leader : Option Name
  pub candidate : Option Name
  pub is_scheduled : Bool

-- What the methods ask the node, the cluster view and the configuration for. The modes of `race`
-- are those of the configuration; `race_of` restricts them to an active `/sync` key.
pub record Ha : Type 0 where
  pub race : Race
  pub is_synchronous_mode : Bool
  pub is_quorum_commit_mode : Bool
  pub is_paused : Bool
  pub is_starting : Bool
  pub is_primary : Bool
  pub primary_timeline : Option ℕ
  pub nofailover : Bool
  pub watchdog_is_healthy : Bool
  pub has_released_leader_key : Bool
  pub initialize : Option Name
  pub sysid : Name
  pub failover : Option Failover
  pub members : List Candidate
  pub old_members : List Candidate
  pub old_leader : Option Name
  pub is_failsafe_mode : Bool
  pub failsafe : Option (List Candidate)

-- `Ha.fetch_node_status`, and `Ha.fetch_nodes_statuses`, whose answers come in any order.
pub record Fetch : Type 0 where
  pub node_status : Candidate → MemberStatus
  pub nodes_statuses : List Candidate → List MemberStatus

-- `Ha.sync_mode_is_active`
unfoldable pub sync_mode_is_active : Ha → Bool
sync_mode_is_active h = h.is_synchronous_mode && not (is_empty h.race.sync)

-- `Ha.quorum_commit_mode_is_active`
unfoldable pub quorum_commit_mode_is_active : Ha → Bool
quorum_commit_mode_is_active h = h.is_quorum_commit_mode && not (is_empty h.race.sync)

-- The race with the modes that are active.
unfoldable pub race_of : Ha → Race
race_of h = record (h.race) {
  sync_mode_is_active = sync_mode_is_active h;
  quorum_commit_mode_is_active = quorum_commit_mode_is_active h;
}

-- `self.cluster.failover` as a condition: `Failover.__len__` counts the leader and the candidate.
unfoldable pub failover_of : Ha → Option Failover
failover_of h = elim h.failover [
  | none ↦ none
  | some f ↦ if is_set f.leader || is_set f.candidate then some f else none
]

-- `failover and not failover.leader`
unfoldable pub is_manual_failover : Option Failover → Bool
is_manual_failover none = false
is_manual_failover (some f) = not (is_set f.leader)

abbrev pub candidate_of : Option Failover → Option Name
candidate_of none = none
candidate_of (some f) = f.candidate

abbrev pub leader_of : Option Failover → Option Name
leader_of none = none
leader_of (some f) = f.leader

-- `is_eligible` in `Ha.get_failover_candidates`
unfoldable pub is_eligible : Ha → Bool → Candidate → Bool
is_eligible h exclude_failover_candidate node =
    if sync_mode_is_active h
      && not (matches h.race.sync (some node.name) false)
      && not (is_manual_failover (failover_of h))
    then false
    else not (name_eq node.name h.race.name)
      && not (exclude_failover_candidate && names_node (candidate_of (failover_of h)) node.name)
      && not node.nofailover
      && node.has_api_url
      && (exclude_failover_candidate
          || not (is_set (candidate_of (failover_of h)))
          || names_node (candidate_of (failover_of h)) node.name)

-- `Ha.get_failover_candidates`
unfoldable pub get_failover_candidates : Ha → Bool → List Candidate
get_failover_candidates h exclude_failover_candidate =
    keep (is_eligible h exclude_failover_candidate) h.members

-- An answer that counts in `Ha.is_failover_possible`.
unfoldable pub can_take_over : Ha → ℕ → MemberStatus → Bool
can_take_over h cluster_lsn st =
    if not (is_none (failover_limitation st))
    then false
    else if not (cluster_lsn == 0) && ltb st.wal_position cluster_lsn
        || (cluster_lsn == 0) && is_lagging h.race st.wal_position
    then false
    else not
        (h.race.check_timeline && ((st.timeline == 0) || ltb st.timeline h.race.cluster_timeline))

-- The quorum is ignored for a requested candidate.
unfoldable pub checks_quorum : Ha → Bool → Bool
checks_quorum h exclude_failover_candidate =
    quorum_commit_mode_is_active h
    && not (is_set (candidate_of (failover_of h)) && not exclude_failover_candidate)

-- `Ha.is_failover_possible`. The votes start at -1: the difference of the count and 1.
unfoldable pub is_failover_possible : Ha → Fetch → ℕ → Bool → Bool
is_failover_possible h fetch cluster_lsn exclude_failover_candidate =
    let answers = fetch.nodes_statuses (get_failover_candidates h exclude_failover_candidate) in
    let quorum_votes = sub_ℕ (length (keep (can_take_over h cluster_lsn) answers)) 1 in
    if checks_quorum h exclude_failover_candidate && ltb_ℤ quorum_votes h.race.sync.quorum
    then false
    else leb_ℤ (pos 0) quorum_votes

-- `next((m for m in members if m.name == name), None)`: `Cluster.get_member` without its fallback.
unfoldable pub get_member : List Candidate → Option Name → Option Candidate
get_member [] name = none
get_member (m ∷ ms) name = if names_node name m.name then some m else get_member ms name

-- The results of `manual_failover_process_no_leader`; `removed_key` is `None`, after the key was
-- removed.
pub data Verdict : Type 0 where
  wins loses removed_key : Verdict

abbrev pub verdict : Bool → Verdict
verdict b = if b then wins else loses

-- The candidate is a member and answers that it can be promoted.
unfoldable pub is_available : Fetch → Option Candidate → Bool
is_available fetch none = false
is_available fetch (some m) = is_none (failover_limitation (fetch.node_status m))

-- The race among the members that a manual failover or switchover leaves.
unfoldable pub race_for_failover : Ha → Fetch → Failover → Verdict
race_for_failover h fetch f =
    let takes_part = λ (m : Candidate).
      not (names_node f.leader m.name)
      && (not (sync_mode_is_active h) || matches h.race.sync (some m.name) false) in
    verdict
      (wins_leader_race (race_of h) fetch.nodes_statuses (keep takes_part h.members) false none)

-- What follows where no candidate settles the matter.
unfoldable pub pick_other : Ha → Fetch → Failover → Verdict
pick_other h fetch f =
    if is_set f.leader && names_node f.leader h.race.name
    then verdict (not (is_failover_possible h fetch 0 (is_set f.candidate)))
    else race_for_failover h fetch f

-- `Ha.manual_failover_process_no_leader`
unfoldable pub manual_failover_process_no_leader : Ha → Fetch → Failover → Verdict
manual_failover_process_no_leader h fetch f =
    if is_set f.candidate
    then (if names_node f.candidate h.race.name
        then wins
        else if h.is_paused
        then elim (get_member h.members f.candidate) [
          | none ↦ if h.is_primary then removed_key else loses
          | some m ↦ loses
        ]
        else if h.is_synchronous_mode
            && not h.is_quorum_commit_mode
            && not (matches h.race.sync (some h.race.name) true)
        then loses
        else if is_available fetch (get_member h.members f.candidate)
        then loses
        else pick_other h fetch f)
    else if h.is_paused
    then loses
    else pick_other h fetch f
