-- ===== src/Quorum/Overlap.antt =====
-- What the test of `check_invariants` (patroni/quorum.py) is worth: any nodes that can acknowledge
-- a commit share a node with any nodes that can promote a new leader.
use metatroni.Prelude.{ℕ, ◌+◌, ◌<◌, ◌≤◌, ◌≡◌, true, false, [], ◌∷◌, arith, length, leb→le}
use metatroni.Names.{Name}
use metatroni.Collections.{CaseInsensitiveSet, contains, is_empty, union}
use metatroni.Collections.Laws.{IsDistinct, contains-union, from_list-IsDistinct}
use metatroni.Collections.Size.{IsIn, pigeonhole}
use metatroni.Quorum.State.{Resolver}
use metatroni.Quorum.Updates.{all_voters, all_sync, overlaps}

-- What PostgreSQL and the other nodes see: the `/sync` key (leader, quorum, voters) and
-- `synchronous_standby_names` (numsync, sync), with the node that runs as the primary.
pub record View : Type 0 where
  pub leader : Name
  pub quorum : ℕ
  pub voters : CaseInsensitiveSet
  pub numsync : ℕ
  pub sync : CaseInsensitiveSet
  pub primary : Name

unfoldable pub view : Resolver → View
view s = record {
  leader = s.leader;
  quorum = s.quorum;
  voters = s.voters;
  numsync = s.numsync;
  sync = s.sync;
  primary = s.leader_wanted;
}

-- A commit is acknowledged by the primary and by `numsync` of the standbys in `sync`.
pub record CanCommit (v : View) (acks : CaseInsensitiveSet) : Type 0 where
  pub distinct : IsDistinct acks
  pub listed : IsIn acks (v.primary ∷ v.sync)
  pub enough : v.numsync < length acks

-- A node wins the leader race with `quorum` votes of other nodes besides its own, from the nodes
-- in `voters` and the old leader.
pub record CanPromote (v : View) (votes : CaseInsensitiveSet) : Type 0 where
  pub distinct : IsDistinct votes
  pub listed : IsIn votes (v.leader ∷ v.voters)
  pub enough : v.quorum < length votes

-- While anybody may vote, no promotion misses the nodes that hold a commit.
abbrev pub IsSafe : View → Type 0
IsSafe v =
    is_empty v.voters ≡ false
    → (acks votes : CaseInsensitiveSet) → CanCommit v acks
    → CanPromote v votes
    → (x : Name) × (contains x acks ≡ true) × (contains x votes ≡ true)

-- Membership in a set with one more node.
pub contains-with :
    (x n : Name) (s t : CaseInsensitiveSet)
    → contains x (n ∷ s) ≡ true
    → IsIn (union s (n ∷ [])) t
    → contains x t ≡ true
unfolding contains
contains-with x n s t h k = k x (ground (arith, contains-union x s (n ∷ [])))

pub left-union : (s t : CaseInsensitiveSet) → IsIn s (union s t)
left-union s t x h = ground (arith, contains-union x s t)

pub right-union : (s t : CaseInsensitiveSet) → IsIn t (union s t)
right-union s t x h = ground (arith, contains-union x s t)

overlaps-le :
    (s : Resolver)
    → overlaps s ≡ true
    → is_empty s.voters ≡ false
    → length (union (all_voters s) (all_sync s)) ≤ s.quorum + s.numsync + 1
unfolding overlaps
overlaps-le s h ne = leb→le _ _ (ground arith)

pub overlaps-IsSafe : (s : Resolver) → overlaps s ≡ true → IsSafe (view s)
unfolding view
overlaps-IsSafe s h ne acks votes c p =
    pigeonhole acks votes (union (all_voters s) (all_sync s)) c.distinct p.distinct
      (unfold union in from_list-IsDistinct _)
      (λ x k.
        contains-with x s.leader_wanted s.sync _ (c.listed x k)
          (right-union (all_voters s) (all_sync s)))
      (λ x k.
        contains-with x s.leader s.voters _ (p.listed x k) (left-union (all_voters s) (all_sync s)))
      (omega (arith, overlaps-le s h ne, c.enough, p.enough))
