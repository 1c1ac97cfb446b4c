-- ===== src/Ha/Election/Candidates.antt =====
-- What `Ha.is_failover_possible` (patroni/ha.py) requires of the candidates.
use metatroni.Prelude.{
  ℕ, ◌+◌, ◌≤◌, ◌<◌, ◌≡◌, refl, Bool, true, false, ◌&&◌, List, keep, arith, length, ◌↔◌, ◌⊎◌,
  if◌then◌else◌, Memᴰ, Sublistᴰ, keep-Memᴰ, keep-Sublistᴰ, Sublistᴰ-keep,
}
use metatroni.Prelude.Int.{ℤ, pos, sub_ℕ, ltb_ℤ, leb_ℤ, pos_part, neg_part}
use metatroni.Dcs.SyncState.{is_set}
use metatroni.Ha.Race.{MemberStatus, failover_limitation, is_lagging}
use metatroni.Ha.Election.{
  Ha, Fetch, can_take_over, checks_quorum, get_failover_candidates, is_failover_possible,
  quorum_commit_mode_is_active, candidate_of, failover_of,
}

-- What an answer must say for the node to take over: it is reachable, may and can be promoted, is
-- not behind the position that is asked for, or else not more than maximum_lag_on_failover behind
-- the last one known, and is on the cluster's timeline where that is checked.
pub record TakesOver (h : Ha) (cluster_lsn : ℕ) (st : MemberStatus) : Type 0 where
  pub reachable : st.reachable ≡ true
  pub allowed : st.nofailover ≡ false
  pub watched : st.watchdog_failed ≡ false
  pub caught_up : 1 ≤ cluster_lsn → cluster_lsn ≤ st.wal_position
  pub near :
      cluster_lsn ≡ 0
      → h.race.last_lsn + neg_part h.race.maximum_lag_on_failover
        ≤ st.wal_position + pos_part h.race.maximum_lag_on_failover
  pub on_timeline :
      h.race.check_timeline ≡ true → (1 ≤ st.timeline) × (h.race.cluster_timeline ≤ st.timeline)

can_take_over-TakesOver :
    (h : Ha) (cluster_lsn : ℕ) (st : MemberStatus)
    → can_take_over h cluster_lsn st ≡ true
    → TakesOver h cluster_lsn st
unfolding can_take_over failover_limitation is_lagging
can_take_over-TakesOver h cluster_lsn st e = record {
  reachable = ground (arith, e);
  allowed = ground (arith, e);
  watched = ground (arith, e);
  caught_up = λ l. ground (arith, e, l);
  near = λ z. ground (arith, e, z);
  on_timeline = λ c. ground (arith, e, c);
}

TakesOver-can_take_over :
    (h : Ha) (cluster_lsn : ℕ) (st : MemberStatus)
    → TakesOver h cluster_lsn st
    → can_take_over h cluster_lsn st ≡ true
unfolding can_take_over failover_limitation is_lagging
TakesOver-can_take_over h cluster_lsn st t =
    ground (arith, t.reachable, t.allowed, t.watched, t.caught_up, t.near, t.on_timeline)

-- The quorum counts: quorum commit is active, and no candidate is requested or it is excluded.
abbrev pub NeedsQuorum : Ha → Bool → Type 0
NeedsQuorum h exclude_failover_candidate =
    (quorum_commit_mode_is_active h ≡ true)
    × ((is_set (candidate_of (failover_of h)) ≡ false) ⊎ (exclude_failover_candidate ≡ true))

checks_quorum-NeedsQuorum : (h : Ha) (ex : Bool) → (checks_quorum h ex ≡ true) ↔ NeedsQuorum h ex
unfolding checks_quorum
checks_quorum-NeedsQuorum h ex = (λ e. ground (arith, e), λ n. ground (arith, n))

more_votes :
    (check : Bool) (n : ℕ) (z : ℤ) (q : ℕ)
    → z ≡ pos q
    → ((if check && ltb_ℤ (sub_ℕ n 1) z then false else leb_ℤ (pos 0) (sub_ℕ n 1)) ≡ true)
      ↔ ((1 ≤ n) × (check ≡ true → q < n))
more_votes check n z q e = rw e (counted check)
  where
    counted :
        (b : Bool)
        → ((if b && ltb_ℤ (sub_ℕ n 1) (pos q) then false else leb_ℤ (pos 0) (sub_ℕ n 1)) ≡ true)
          ↔ ((1 ≤ n) × (b ≡ true → q < n))
    counted true = (λ h. (ground arith, λ k. ground arith), λ h. ground (arith, h.0, h.1 refl))
    counted false = (λ h. (ground arith, λ k. absurd cc), λ h. ground (arith, h.0))

-- A failover is possible exactly if some of the answers of the eligible candidates, one at least and
-- more than the quorum of the `/sync` key where the quorum counts, say that the node can take over.
pub is_failover_possible-count :
    (h : Ha) (fetch : Fetch) (cluster_lsn : ℕ) (exclude_failover_candidate : Bool) (q : ℕ)
    → h.race.sync.quorum ≡ pos q
    → (is_failover_possible h fetch cluster_lsn exclude_failover_candidate ≡ true) ↔ (
        (votes : List MemberStatus) × Sublistᴰ votes
          (fetch.nodes_statuses (get_failover_candidates h exclude_failover_candidate))
        × ((st : MemberStatus) → Memᴰ st votes → TakesOver h cluster_lsn st)
        × (1 ≤ length votes)
        × (NeedsQuorum h exclude_failover_candidate → q < length votes))
unfolding is_failover_possible
is_failover_possible-count h fetch cluster_lsn ex q e =
    let p = can_take_over h cluster_lsn in
    let answers = fetch.nodes_statuses (get_failover_candidates h ex) in
    let counted =
      more_votes (checks_quorum h ex) (length (keep p answers)) h.race.sync.quorum q e in
    let needs = checks_quorum-NeedsQuorum h ex in
    (
      λ possible.
          let (one, more) = counted.0 possible in
          (
            keep p answers,
            keep-Sublistᴰ p answers,
            λ st m. can_take_over-TakesOver h cluster_lsn st (keep-Memᴰ p answers st m).1,
            one,
            λ n. more (needs.1 n),
          ),
      λ (votes, part, all, one, more).
          let longer =
            Sublistᴰ-keep p votes answers part
              (λ st m. TakesOver-can_take_over h cluster_lsn st (all st m)) in
          counted.1 (omega (arith, one, longer), λ k. omega (arith, more (needs.0 k), longer)),
    )
