-- ===== src/Ha/Race/Commits.antt =====
-- No promotion loses a commit: the leader race (patroni/ha.py) over the states that the resolver
-- (patroni/quorum.py) publishes.
use metatroni.Prelude.{
  ℕ, ◌≤◌, ◌≡◌, sym, ◌∙◌, Bool, true, false, List, [], ◌∷◌, keep, Option, arith, ◌⊎◌, inl, inr, ◌++◌,
}
use metatroni.Prelude.Int.{pos}
use metatroni.Names.{Name}
use metatroni.Collections.{CaseInsensitiveSet, contains, is_empty}
use metatroni.Collections.Laws.{IsDistinct, contains_congr}
use metatroni.Dcs.SyncState.{members}
use metatroni.Ha.Race.{
  Race, MemberStatus, Candidate, asks, compares_gtid, wins_race, is_healthiest_node, names_node,
}
use metatroni.Ha.Race.Voters.{Among, IsVoter, names, wins_race-votes}
use metatroni.Quorum.State.{Resolver, Transition, ok}
use metatroni.Quorum.Resolver.{transitions}
use metatroni.Quorum.Overlap.{View, view, IsSafe, CanCommit}
use metatroni.Quorum.Trace.{publish, replay, AllSafe}
use metatroni.Quorum.Sound.Transitions.{transitions-AllSafe}

-- The race runs on the `/sync` key of a view: its quorum, its leader and its voters, in any order.
pub record RunsOn (r : Race) (v : View) : Type 0 where
  pub quorum_commit : r.quorum_commit_mode_is_active ≡ true
  pub quorum : r.sync.quorum ≡ pos v.quorum
  pub members : (x : Name) → contains x (members r.sync) ≡ contains x (v.leader ∷ v.voters)

-- The nodes that acknowledged a commit have reached its position: this node, and those that
-- answered.
pub record Reached (r : Race) (sts : List MemberStatus) (acks : CaseInsensitiveSet) (p : ℕ)
    : Type 0 where
  pub by_this_node : contains r.name acks ≡ true → p ≤ r.my_wal_position
  pub by_answer :
      (st : MemberStatus) → Among st sts → contains st.name acks ≡ true → p ≤ st.wal_position

not_compared : (r : Race) (st : MemberStatus) → r.use_gtid ≡ false → compares_gtid r st ≡ true → ⊥
unfolding compares_gtid
not_compared r st g h = ground (arith, g, h)

-- The position of a voter that holds the commit.
voter-Reached :
    (r : Race) (sts : List MemberStatus) (acks : CaseInsensitiveSet) (p : ℕ) (x : Name)
    → r.use_gtid ≡ false
    → Reached r sts acks p
    → contains x acks ≡ true
    → IsVoter r sts x
    → p ≤ r.my_wal_position
voter-Reached r sts acks p x g h k (inl me) =
    h.by_this_node (sym (contains_congr x r.name acks me) ∙ k)
voter-Reached r sts acks p x g h k (inr (st, among, e, vouches)) = as_far vouches.as_far
  where
    reached : p ≤ st.wal_position
    reached = h.by_answer st among (sym (contains_congr x st.name acks e) ∙ k)

    as_far :
        {C : Type 0}
        → (st.wal_position ≤ r.my_wal_position) ⊎ (compares_gtid r st ≡ true) × C
        → p ≤ r.my_wal_position
    as_far (inl position) = omega (arith, reached)
    as_far (inr (gtids, _)) = absurd (not_compared r st g gtids)

-- In a safe view the winner of the race has every commit that was acknowledged.
winner-Reached :
    (v : View) (r : Race) (sts : List MemberStatus) (check_lag : Bool) (leader : Option Name)
    (acks : CaseInsensitiveSet) (p : ℕ)
    → IsSafe v
    → is_empty v.voters ≡ false
    → RunsOn r v
    → CanCommit v acks
    → Reached r sts acks p
    → r.use_gtid ≡ false
    → names_node r.sync.leader r.name ≡ false
    → IsDistinct (r.name ∷ names sts)
    → wins_race r sts check_lag leader ≡ true
    → p ≤ r.my_wal_position
winner-Reached v r sts check_lag leader acks p safe ne on c h g n d won =
    let (votes, distinct, enough, who) =
      wins_race-votes r sts check_lag leader v.quorum on.quorum_commit on.quorum n d won in
    let (x, acked, voted) = safe ne acks votes c (record {
      distinct = distinct;
      listed = λ y k. sym (on.members y) ∙ (who y k).1;
      enough = enough;
    }) in
    voter-Reached r sts acks p x g h acked (who x voted).0

AllSafe-at :
    (pre : List Transition) (t : Transition) (post : List Transition) (v : View)
    → AllSafe (pre ++ (t ∷ post)) v
    → IsSafe (replay (pre ++ (t ∷ [])) v)
unfolding replay
AllSafe-at [] t post v h = h.0
AllSafe-at (u ∷ pre) t post v h = AllSafe-at pre t post (publish u v) h.1

-- No promotion loses a commit. A resolver yields transitions, and the HA loop has carried out some
-- of them, the last being any one of them. A commit at position `p` is acknowledged by the primary
-- and by `numsync` of the nodes in `synchronous_standby_names`. If then a node that is not the
-- former leader wins the leader race on the `/sync` key, and there are voters in it, the node has
-- reached `p` itself. The nodes compare positions, no transaction sets; who acknowledged the
-- commit has reached `p`, as this node's position and the answers tell; and no two of the names
-- differ only in case.
pub promotion_keeps_commits :
    (s : Resolver) (pre : List Transition) (t : Transition) (post : List Transition) (r : Race)
    (fetch_nodes_statuses : List Candidate → List MemberStatus) (nodes : List Candidate)
    (check_lag : Bool) (leader : Option Name) (acks : CaseInsensitiveSet) (p : ℕ)
    → IsDistinct s.sync
    → transitions s ≡ ok (pre ++ (t ∷ post))
    → let v = replay (pre ++ (t ∷ [])) (view s) in
      let sts = fetch_nodes_statuses (keep (asks r) nodes) in
      is_empty v.voters ≡ false
      → RunsOn r v
      → CanCommit v acks
      → Reached r sts acks p
      → r.use_gtid ≡ false
      → names_node r.sync.leader r.name ≡ false
      → IsDistinct (r.name ∷ names sts)
      → is_healthiest_node r fetch_nodes_statuses nodes check_lag leader ≡ true
      → p ≤ r.my_wal_position
unfolding is_healthiest_node
promotion_keeps_commits s pre t post r fetch_nodes_statuses nodes check_lag leader acks p d e =
    winner-Reached (replay (pre ++ (t ∷ [])) (view s)) r
      (fetch_nodes_statuses (keep (asks r) nodes)) check_lag leader acks p
      (AllSafe-at pre t post (view s) (transitions-AllSafe s (pre ++ (t ∷ post)) d e))
