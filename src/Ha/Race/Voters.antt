-- ===== src/Ha/Race/Voters.antt =====
-- Who stands behind a node that wins the leader race (patroni/ha.py) while quorum commit is on.
use metatroni.Prelude.{
  ℕ, suc, ap, ◌∙◌, ◌≤◌, ◌<◌, ◌≡◌, refl, sym, Bool, true, false, List, [], ◌∷◌, map, keep, Option,
  some, arith, length, if◌then◌else◌, Bool-cases, Option-cases, ◌⊎◌, inl, inr,
}
use metatroni.Prelude.Int.{pos}
use metatroni.Names.{Name, same}
use metatroni.Collections.{contains}
use metatroni.Collections.Laws.{IsDistinct, contains_congr, contains-from_list}
use metatroni.Dcs.SyncState.{members}
use metatroni.Ha.Race.{
  Race, MemberStatus, Relation, equal, a_ahead, b_ahead, incomparable, Tally, failover_limitation,
  is_none, compares_gtid, voting_set, count_statuses, own_vote, has_votes, Candidate, asks,
  wins_race, is_healthiest_node, names_node, quorum, leader_name,
}
use metatroni.Ha.Race.Votes.{is_vote, defers, not_further, count_statuses-Gains, Gains}

-- The answer stands in the list.
abbrev pub Among : MemberStatus → List MemberStatus → Type 0
Among st [] = ⊥
Among st (s ∷ sts) = (st ≡ s) ⊎ Among st sts

-- What a vote says: the node can be promoted itself, and this node has got as far, by its position
-- or by its transactions.
pub record Vouches (r : Race) (st : MemberStatus) : Type 0 where
  pub unlimited : is_none (failover_limitation st) ≡ true
  pub as_far :
      (st.wal_position ≤ r.my_wal_position)
      ⊎ (compares_gtid r st ≡ true)
        × ((r.gtid_relation r.my_gtid st.peer_gtid ≡ equal)
            ⊎ (r.gtid_relation r.my_gtid st.peer_gtid ≡ a_ahead))

defers_as_far :
    (rel : Relation) (r : Race) (st : MemberStatus)
    → defers rel r st ≡ true
    → (st.wal_position ≤ r.my_wal_position) ⊎ ((rel ≡ equal) ⊎ (rel ≡ a_ahead))
defers_as_far equal r st h = inr (inl refl)
defers_as_far a_ahead r st h = inr (inr refl)
defers_as_far b_ahead r st h = absurd (cc)
defers_as_far incomparable r st h = inl (ground arith)

is_vote-Vouches :
    (r : Race) (st : MemberStatus)
    → is_vote r st ≡ true
    → Vouches r st × (contains st.name (voting_set r) ≡ true)
unfolding is_vote
is_vote-Vouches r st h = elim (Bool-cases (compares_gtid r st)) [
  | inr positions ↦
      let parts : (is_none (failover_limitation st) ≡ true)
          × (contains st.name (voting_set r) ≡ true)
          × (not_further r st ≡ true) =
        ground arith in
      (record { unlimited = parts.0; as_far = inl (ground arith) }, parts.1)
  | inl gtids ↦
      let rel : Relation = r.gtid_relation r.my_gtid st.peer_gtid in
      let parts : (is_none (failover_limitation st) ≡ true)
          × (contains st.name (voting_set r) ≡ true)
          × (defers rel r st ≡ true) =
        ground arith in
      (
        record { unlimited = parts.0; as_far = further gtids (defers_as_far rel r st parts.2) },
        parts.1,
      )
]
  where
    further :
        compares_gtid r st ≡ true
        → (st.wal_position ≤ r.my_wal_position)
          ⊎ ((r.gtid_relation r.my_gtid st.peer_gtid ≡ equal)
              ⊎ (r.gtid_relation r.my_gtid st.peer_gtid ≡ a_ahead))
        → (st.wal_position ≤ r.my_wal_position)
          ⊎ (compares_gtid r st ≡ true)
            × ((r.gtid_relation r.my_gtid st.peer_gtid ≡ equal)
                ⊎ (r.gtid_relation r.my_gtid st.peer_gtid ≡ a_ahead))
    further g (inl position) = inl position
    further g (inr relation) = inr (g, relation)

abbrev pub names : List MemberStatus → List Name
names = map (λ (st : MemberStatus). st.name)

length-names : (sts : List MemberStatus) → length (names sts) ≡ length sts
length-names [] = refl
length-names (st ∷ sts) = ap suc (length-names sts)

contains-names-keep :
    (p : MemberStatus → Bool) (x : Name) (sts : List MemberStatus)
    → contains x (names (keep p sts)) ≡ true
    → contains x (names sts) ≡ true
unfolding contains
contains-names-keep p x [] h = h
contains-names-keep p x (st ∷ sts) h = ground (arith, contains-names-keep p x sts)

names-keep-IsDistinct :
    (p : MemberStatus → Bool) (sts : List MemberStatus)
    → IsDistinct (names sts)
    → IsDistinct (names (keep p sts))
names-keep-IsDistinct p [] d = tt
names-keep-IsDistinct p (st ∷ sts) d =
    ground (arith, names-keep-IsDistinct p sts d.1, contains-names-keep p st.name sts)

-- A name among the kept answers is the name of one of them.
find_kept :
    (p : MemberStatus → Bool) (x : Name) (sts : List MemberStatus)
    → contains x (names (keep p sts)) ≡ true
    → (st : MemberStatus) × (Among st sts) × (same x st.name ≡ true) × (p st ≡ true)
unfolding contains
find_kept p x [] h = absurd (cc)
find_kept p x (st ∷ sts) h = elim (Bool-cases (p st)) [
  | inr dropped ↦ let (s, a, e, k) = find_kept p x sts (rw dropped at h) in (s, inr a, e, k)
  | inl kept ↦ elim (Bool-cases (same x st.name)) [
    | inl here ↦ (st, inl refl, here, kept)
    | inr elsewhere ↦
        let (s, a, e, k) = find_kept p x sts (rw (kept, elsewhere) at h) in (s, inr a, e, k)
  ]
]

-- The nodes that vote for this one: itself, if it is in the voting set, and the answers counted.
unfoldable pub voters_for : Race → List MemberStatus → List Name
voters_for r sts =
    if contains r.name (voting_set r)
    then r.name ∷ names (keep (is_vote r) sts)
    else names (keep (is_vote r) sts)

voters_for-IsDistinct :
    (r : Race) (sts : List MemberStatus)
    → IsDistinct (r.name ∷ names sts)
    → IsDistinct (voters_for r sts)
unfolding voters_for
voters_for-IsDistinct r sts d =
    ground
      (arith, names-keep-IsDistinct (is_vote r) sts d.1, contains-names-keep (is_vote r) r.name sts)

-- The votes are enough, unless the node is the former leader.
voters_for_enough :
    (r : Race) (sts : List MemberStatus) (t : Tally) (q : ℕ)
    → r.quorum_commit_mode_is_active ≡ true
    → r.sync.quorum ≡ pos q
    → names_node r.sync.leader r.name ≡ false
    → has_votes r t ≡ true
    → Gains (own_vote r, 0) t (length (keep (is_vote r) sts))
    → q < length (voters_for r sts)
unfolding voters_for has_votes own_vote quorum
voters_for_enough r sts t q m e n h g = elim (Bool-cases (contains r.name (voting_set r))) [
  | inl own ↦ ground (arith, length-names (keep (is_vote r) sts))
  | inr foreign ↦ ground (arith, length-names (keep (is_vote r) sts))
]

in_members :
    (r : Race) (x : Name)
    → r.quorum_commit_mode_is_active ≡ true
    → contains x (voting_set r) ≡ contains x (members r.sync)
unfolding voting_set
in_members r x m = rw m (contains-from_list x (members r.sync))

-- Who a voter is: this node, or the node of an answer that vouches for it.
abbrev pub IsVoter : Race → List MemberStatus → Name → Type 0
IsVoter r sts x =
    (same x r.name ≡ true)
    ⊎ ((st : MemberStatus) × (Among st sts) × (same x st.name ≡ true) × Vouches r st)

counted-IsVoter :
    (r : Race) (sts : List MemberStatus) (x : Name)
    → r.quorum_commit_mode_is_active ≡ true
    → contains x (names (keep (is_vote r) sts)) ≡ true
    → IsVoter r sts x × (contains x (members r.sync) ≡ true)
counted-IsVoter r sts x m h =
    let (st, among, e, k) = find_kept (is_vote r) x sts h in
    let (vouches, listed) = is_vote-Vouches r st k in
    (
      inr (st, among, e, vouches),
      sym (in_members r x m) ∙ (contains_congr x st.name (voting_set r) e ∙ listed),
    )

voter :
    (r : Race) (sts : List MemberStatus) (x : Name)
    → r.quorum_commit_mode_is_active ≡ true
    → contains x (voters_for r sts) ≡ true
    → IsVoter r sts x × (contains x (members r.sync) ≡ true)
unfolding voters_for contains
voter r sts x m h = elim (Bool-cases (contains r.name (voting_set r))) [
  | inr foreign ↦ counted-IsVoter r sts x m (rw foreign at h)
  | inl own ↦ elim (Bool-cases (same x r.name)) [
    | inl me ↦ (inl me, sym (in_members r x m) ∙ (contains_congr x r.name (voting_set r) me ∙ own))
    | inr another ↦ counted-IsVoter r sts x m (rw (own, another) at h)
  ]
]

healthiest_tally :
    (r : Race) (sts : List MemberStatus) (check_lag : Bool) (leader : Option Name)
    → wins_race r sts check_lag leader ≡ true
    → (t : Tally) × (count_statuses r (leader_name r leader) sts (own_vote r, 0) ≡ some t)
      × (has_votes r t ≡ true)
unfolding wins_race
healthiest_tally r sts check_lag leader h =
    elim (Option-cases (count_statuses r (leader_name r leader) sts (own_vote r, 0))) [
      | inl lost ↦ absurd (ground (arith, lost, h))
      | inr (t, e) ↦ (t, e, ground (arith, e, h))
    ]

-- The same over the answers.
pub wins_race-votes :
    (r : Race) (sts : List MemberStatus) (check_lag : Bool) (leader : Option Name) (q : ℕ)
    → r.quorum_commit_mode_is_active ≡ true
    → r.sync.quorum ≡ pos q
    → names_node r.sync.leader r.name ≡ false
    → IsDistinct (r.name ∷ names sts)
    → wins_race r sts check_lag leader ≡ true
    → (votes : List Name) × IsDistinct votes
      × (q < length votes)
      × ((x : Name)
          → contains x votes ≡ true
          → IsVoter r sts x × (contains x (members r.sync) ≡ true))
wins_race-votes r sts check_lag leader q m e n d h =
    let (t, counted, won) = healthiest_tally r sts check_lag leader h in
    (
      voters_for r sts,
      voters_for-IsDistinct r sts d,
      voters_for_enough r sts t q m e n won
          (count_statuses-Gains r (leader_name r leader) sts (own_vote r, 0) t counted),
      λ x k. voter r sts x m k,
    )

-- While quorum commit is on, a node that is not the former leader wins the leader race only with
-- more than `quorum` votes of different nodes of the `/sync` key: its own, if it is listed, and
-- those of nodes that answered, could be promoted themselves and have not got further than it. No
-- two of the nodes have names that differ only in case.
pub is_healthiest_node-votes :
    (r : Race) (fetch_nodes_statuses : List Candidate → List MemberStatus) (nodes : List Candidate)
    (check_lag : Bool) (leader : Option Name) (q : ℕ)
    → r.quorum_commit_mode_is_active ≡ true
    → r.sync.quorum ≡ pos q
    → names_node r.sync.leader r.name ≡ false
    → let sts = fetch_nodes_statuses (keep (asks r) nodes) in
      IsDistinct (r.name ∷ names sts)
      → is_healthiest_node r fetch_nodes_statuses nodes check_lag leader ≡ true
      → (votes : List Name) × IsDistinct votes
        × (q < length votes)
        × ((x : Name)
            → contains x votes ≡ true
            → IsVoter r sts x × (contains x (members r.sync) ≡ true))
unfolding is_healthiest_node
is_healthiest_node-votes r fetch_nodes_statuses nodes =
    wins_race-votes r (fetch_nodes_statuses (keep (asks r) nodes))
