-- ===== src/Ha/Election/Health.antt =====
-- `Ha.is_healthiest_node` (patroni/ha.py): the checks that a node makes before it takes the leader
-- key.
use metatroni.Prelude.{
  Bool, true, false, not, ◌&&◌, ◌||◌, List, [], ◌∷◌, ◌++◌, keep, Option, none, some, ltb,
  if◌then◌else◌,
}
use metatroni.Names.{Name, name_eq}
use metatroni.Dcs.SyncState.{is_set, matches}
use metatroni.Ha.Race.{Candidate, names_node, is_healthiest_node as wins_leader_race}
use metatroni.Ha.Election.{
  Failover, Ha, Fetch, sync_mode_is_active, race_of, failover_of, Verdict,
  manual_failover_process_no_leader, wins, loses, removed_key,
}

-- `{m.name: m for m in nodes}.values()`: a later node takes the place of an earlier one.
unfoldable pub put_member : Candidate → List Candidate → List Candidate
put_member m [] = m ∷ []
put_member m (n ∷ ns) = if name_eq m.name n.name then m ∷ ns else n ∷ put_member m ns

unfoldable pub put_members : List Candidate → List Candidate → List Candidate
put_members [] ns = ns
put_members (m ∷ ms) ns = put_members ms (put_member m ns)

unfoldable pub names_any : Name → List Candidate → Bool
names_any n [] = false
names_any n (m ∷ ms) = name_eq n m.name || names_any n ms

abbrev is_nil : List Candidate → Bool
is_nil [] = true
is_nil (m ∷ ms) = false

-- The members of `/failsafe`, where it is a dictionary and the mode is on.
unfoldable pub failsafe_members : Ha → List Candidate
failsafe_members h = if h.is_failsafe_mode then elim h.failsafe [ none ↦ [] | some ms ↦ ms ] else []

-- The key names others, but not this node.
unfoldable pub is_left_out : Ha → Bool
unfolding names_any failsafe_members
is_left_out h =
    not (is_nil (failsafe_members h)) && not (names_any h.race.name (failsafe_members h))

-- `all_known_members`
unfoldable pub all_known_members : Ha → List Candidate
all_known_members h = h.old_members ++ failsafe_members h ++ h.members

-- What `is_healthiest_node` returns and changes: `all_known_members` is the list of the old
-- cluster view itself, which `+=` extends.
pub record Outcome : Type 0 where
  pub is_healthiest : Bool
  pub removes_failover_key : Bool
  pub old_members : List Candidate

-- A node that runs as a primary without holding the leader lock.
unfoldable pub is_healthiest_primary : Ha → Bool
is_healthiest_primary h =
    if h.is_paused
    then not (is_set h.initialize) || names_node h.initialize h.sysid
    else if h.race.has_timelines
    then elim h.primary_timeline [ none ↦ false | some t ↦ not (ltb t h.race.cluster_timeline) ]
    else true

abbrev is_win : Verdict → Bool
is_win wins = true
is_win _ = false

abbrev is_removal : Verdict → Bool
is_removal removed_key = true
is_removal _ = false

abbrev returns : Ha → Bool → Outcome
returns h b = record {
  is_healthiest = b;
  removes_failover_key = false;
  old_members = h.old_members;
}

abbrev returns_verdict : Ha → Verdict → Outcome
returns_verdict h v = record {
  is_healthiest = is_win v;
  removes_failover_key = is_removal v;
  old_members = h.old_members;
}

-- The nodes of the race: in synchronous mode those of the `/sync` key.
unfoldable pub racers : Ha → List Candidate
racers h =
    put_members
      (if sync_mode_is_active h
        then keep (λ m. matches h.race.sync (some m.name) true) (all_known_members h)
        else all_known_members h)
      []

-- The race of a standby where no manual failover is asked for.
unfoldable pub automatic_failover : Ha → Fetch → Outcome
automatic_failover h fetch =
    if not h.watchdog_is_healthy
    then returns h false
    else if is_left_out h
    then returns h false
    else record {
      is_healthiest =
          if sync_mode_is_active h
            && not h.is_quorum_commit_mode
            && not (matches h.race.sync (some h.race.name) true)
          then false
          else wins_leader_race (race_of h) fetch.nodes_statuses (racers h) true h.old_leader;
      removes_failover_key = false;
      old_members = all_known_members h;
    }

-- The part for a node that is started, and no primary.
unfoldable pub standby_failover : Ha → Fetch → Outcome
standby_failover h fetch =
    if h.is_paused
    then returns h false
    else if h.nofailover
    then returns h false
    else elim (failover_of h) [
      | none ↦ automatic_failover h fetch
      | some f ↦
          if is_set f.leader
            && sync_mode_is_active h
            && not (matches h.race.sync (some h.race.name) true)
          then returns h false
          else returns_verdict h (manual_failover_process_no_leader h fetch f)
    ]

-- What follows the manual failover of a paused cluster.
unfoldable pub started_failover : Ha → Fetch → Outcome
started_failover h fetch =
    if h.is_starting
    then returns h false
    else if h.is_primary
    then returns h (is_healthiest_primary h)
    else standby_failover h fetch

-- A manual failover of a paused cluster that is not scheduled.
unfoldable pub paused_failover : Ha → Option Failover
paused_failover h = elim (failover_of h) [
  | none ↦ none
  | some f ↦ if h.is_paused && not h.nofailover && not f.is_scheduled then some f else none
]

-- `Ha.is_healthiest_node`
unfoldable pub is_healthiest_node : Ha → Fetch → Outcome
is_healthiest_node h fetch =
    if h.has_released_leader_key then returns h false else elim (paused_failover h) [
      | none ↦ started_failover h fetch
      | some f ↦ elim (manual_failover_process_no_leader h fetch f) [
        | removed_key ↦ record (started_failover h fetch) { removes_failover_key = true }
        | wins ↦ returns h true
        | loses ↦ returns h false
      ]
    ]
