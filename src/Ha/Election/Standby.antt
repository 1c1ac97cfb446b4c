-- ===== src/Ha/Election/Standby.antt =====
-- What a standby passes before it takes the leader key (patroni/ha.py).
use metatroni.Prelude.{◌≡◌, refl, true, false, List, ◌∷◌, none, some, arith}
use metatroni.Dcs.SyncState.{matches, is_set}
use metatroni.Ha.Race.{Candidate, is_healthiest_node as wins_leader_race}
use metatroni.Ha.Election.Racers.{Named, AreRacers}
use metatroni.Ha.Election.{
  Ha, Failover, Fetch, failover_of, race_of, sync_mode_is_active, quorum_commit_mode_is_active,
}
use metatroni.Ha.Election.Health.{
  is_healthiest_node, standby_failover, started_failover, paused_failover, racers, is_left_out,
}

-- The tests that a standby passes to take over by itself.
record Checks (h : Ha) (fetch : Fetch) : Type 0 where
  released : h.has_released_leader_key ≡ false
  running : h.is_paused ≡ false
  started : h.is_starting ≡ false
  allowed : h.nofailover ≡ false
  watched : h.watchdog_is_healthy ≡ true
  in_failsafe : is_left_out h ≡ false
  synchronous :
      sync_mode_is_active h ≡ true
      → h.is_quorum_commit_mode ≡ false
      → matches h.race.sync (some h.race.name) true ≡ true
  race : wins_leader_race (race_of h) fetch.nodes_statuses (racers h) true h.old_leader ≡ true

-- What a standby that may take over by itself has to show.
pub record Passed (h : Ha) (fetch : Fetch) : Type 0 where
  pub released : h.has_released_leader_key ≡ false
  pub running : h.is_paused ≡ false
  pub started : h.is_starting ≡ false
  pub allowed : h.nofailover ≡ false
  pub watched : h.watchdog_is_healthy ≡ true
  pub in_failsafe :
      (m : Candidate) (ms : List Candidate)
      → h.is_failsafe_mode ≡ true
      → h.failsafe ≡ some (m ∷ ms)
      → Named h.race.name (m ∷ ms)
  pub synchronous :
      sync_mode_is_active h ≡ true
      → h.is_quorum_commit_mode ≡ false
      → matches h.race.sync (some h.race.name) true ≡ true
  pub race :
      (ns : List Candidate) × AreRacers h ns
      × (wins_leader_race (race_of h) fetch.nodes_statuses ns true h.old_leader ≡ true)

race_quorum :
    (h : Ha)
    → quorum_commit_mode_is_active h ≡ true
    → (race_of h).quorum_commit_mode_is_active ≡ true
unfolding race_of
race_quorum h m = m

race_sync : (h : Ha) → (race_of h).sync ≡ h.race.sync
unfolding race_of
race_sync h = refl

-- In a switchover in synchronous mode a node that is no primary finds itself the healthiest node
-- only if the cluster is not paused and the node is the former leader or a standby of the `/sync` key.
-- This is also so with quorum commit. A switchover names the leader to replace.
pub is_healthiest_node-switchover :
    (h : Ha) (fetch : Fetch) (f : Failover)
    → h.is_primary ≡ false
    → h.is_paused ≡ false
    → failover_of h ≡ some f
    → is_set f.leader ≡ true
    → sync_mode_is_active h ≡ true
    → (is_healthiest_node h fetch).is_healthiest ≡ true
    → (h.nofailover ≡ false) × (matches h.race.sync (some h.race.name) true ≡ true)
unfolding is_healthiest_node started_failover standby_failover paused_failover
is_healthiest_node-switchover h fetch f p q e l m k =
    let np : paused_failover h ≡ none = rw (paused_failover, e, q) refl in
    (ground (arith, np, k, p, q, e, l, m), ground (arith, np, k, p, q, e, l, m))
