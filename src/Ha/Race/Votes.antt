-- ===== src/Ha/Race/Votes.antt =====
-- The votes that a node counts in the leader race (patroni/ha.py): who they are from, and what
-- each of them says.
use metatroni.Prelude.{
  ℕ, ◌+◌, ◌≡◌, Bool, true, false, not, ◌&&◌, List, [], ◌∷◌, keep, Option, some, arith, length, ltb,
  ◌==◌, if◌then◌else◌, Bool-cases, Option-cases, inl, inr,
}
use metatroni.Prelude.Int.{ℤ, pos, pos_part, neg_part, ◌+ℤ◌}
use metatroni.Names.{Name}
use metatroni.Collections.{contains}
use metatroni.Ha.Race.{
  Race, MemberStatus, Relation, equal, a_ahead, b_ahead, incomparable, Tally, failover_limitation,
  is_none, is_primary, compares_gtid, voting_set, count_status, count_statuses, by_relation,
  by_position, node_ahead, node_not_ahead,
}

-- The node has not got further than this one, by position.
abbrev pub not_further : Race → MemberStatus → Bool
not_further r st = not (ltb r.my_wal_position st.wal_position) && ltb 0 st.wal_position

abbrev pub defers : Relation → Race → MemberStatus → Bool
defers a_ahead r st = true
defers equal r st = true
defers b_ahead r st = false
defers incomparable r st = not_further r st

-- The status is counted as a vote.
unfoldable pub is_vote : Race → MemberStatus → Bool
is_vote r st =
    is_none (failover_limitation st)
    && not (is_primary st.in_recovery)
    && contains st.name (voting_set r)
    && (if compares_gtid r st
        then defers (r.gtid_relation r.my_gtid st.peer_gtid) r st
        else not_further r st)

one_if : Bool → ℕ
one_if true = 1
one_if false = 0

-- `k` votes more.
abbrev pub Gains : Tally → Tally → ℕ → Type 0
Gains t t' k = pos_part t'.0 + neg_part t.0 ≡ pos_part t.0 + neg_part t'.0 + k

one_more : (v : ℤ) → pos_part (v +ℤ pos 1) + neg_part v ≡ pos_part v + neg_part (v +ℤ pos 1) + 1
one_more v = ground arith

node_not_ahead-Gains :
    (r : Race) (leader : Option Name) (st : MemberStatus) (level : Bool) (t t' : Tally)
    → node_not_ahead r leader st level t ≡ some t'
    → Gains t t' (one_if (contains st.name (voting_set r)))
unfolding node_not_ahead one_if
node_not_ahead-Gains r leader st level (v, a) t' h =
    elim (Bool-cases (contains st.name (voting_set r))) [
      | inl voter ↦ ground (arith, one_more v)
      | inr other ↦ ground arith
    ]

node_ahead-Gains :
    (r : Race) (st : MemberStatus) (t t' : Tally) → node_ahead r st t ≡ some t' → Gains t t' 0
unfolding node_ahead
node_ahead-Gains r st (v, a) t' h = ground arith

by_position-Gains :
    (r : Race) (leader : Option Name) (st : MemberStatus) (t t' : Tally)
    → by_position r leader st t ≡ some t'
    → Gains t t' (one_if (contains st.name (voting_set r) && not_further r st))
unfolding by_position one_if
by_position-Gains r leader st t t' h = ground (
  arith,
  node_ahead-Gains r st t t',
  node_not_ahead-Gains r leader st (r.my_wal_position == st.wal_position) t t',
)

by_relation-Gains :
    (rel : Relation) (r : Race) (leader : Option Name) (st : MemberStatus) (t t' : Tally)
    → by_relation rel r leader st t ≡ some t'
    → Gains t t' (one_if (contains st.name (voting_set r) && defers rel r st))
unfolding by_relation one_if
by_relation-Gains equal r leader st t t' h =
    ground (arith, node_not_ahead-Gains r leader st true t t')
by_relation-Gains a_ahead r leader st t t' h =
    ground (arith, node_not_ahead-Gains r leader st false t t')
by_relation-Gains b_ahead r leader st t t' h = ground (arith, node_ahead-Gains r st t t')
by_relation-Gains incomparable r leader st t t' h = by_position-Gains r leader st t t' h

count_status-Gains :
    (r : Race) (leader : Option Name) (st : MemberStatus) (t t' : Tally)
    → count_status r leader st t ≡ some t'
    → Gains t t' (one_if (is_vote r st))
unfolding count_status is_vote one_if
count_status-Gains r leader st t t' h = ground (
  arith,
  by_position-Gains r leader st t t',
  by_relation-Gains (r.gtid_relation r.my_gtid st.peer_gtid) r leader st t t',
)

length-keep-cons :
    (p : MemberStatus → Bool) (st : MemberStatus) (sts : List MemberStatus)
    → length (keep p (st ∷ sts)) ≡ one_if (p st) + length (keep p sts)
unfolding one_if
length-keep-cons p st sts = ground arith

pub count_statuses-Gains :
    (r : Race) (leader : Option Name) (sts : List MemberStatus) (t t' : Tally)
    → count_statuses r leader sts t ≡ some t'
    → Gains t t' (length (keep (is_vote r) sts))
unfolding count_statuses
count_statuses-Gains r leader [] t t' h = ground arith
count_statuses-Gains r leader (st ∷ sts) t t' h = elim (Option-cases (count_status r leader st t)) [
  | inl stopped ↦ absurd (ground (arith, stopped))
  | inr (u, next) ↦ omega (
    arith,
    count_status-Gains r leader st t u next,
    length-keep-cons (is_vote r) st sts,
    count_statuses-Gains r leader sts u t' (ground (arith, next, h)),
  )
]
