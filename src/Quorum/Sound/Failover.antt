-- ===== src/Quorum/Sound/Failover.antt =====
-- The `try` of `_generate_transitions` (patroni/quorum.py): where an update raises `QuorumError`
-- half done, the handler's update publishes what the failed one left in the attributes.
use metatroni.Prelude.{
  ℕ, ◌+◌, ◌≤◌, ◌≡◌, refl, sym, Bool, true, false, not, ◌&&◌, ◌||◌, [], ◌∷◌, ◌++◌, arith, length,
  length-append, le→leb, ◌⊎◌,
}
use metatroni.Names.{Name, same_refl}
use metatroni.Collections.{CaseInsensitiveSet, contains, is_empty, union, diff}
use metatroni.Collections.Laws.{IsDistinct, contains-union, contains-diff, from_list-IsDistinct}
use metatroni.Collections.Size.{IsIn, length-le, length-from_list-le, IsIn→issubset}
use metatroni.Quorum.State.{Resolver, Run}
use metatroni.Quorum.Updates.{all_voters, all_sync, overlaps, sets_match}
use metatroni.Quorum.Resolver.{voters_after_failover}
use metatroni.Quorum.Overlap.{View}
use metatroni.Quorum.Trace.{replay, AllSafe}
use metatroni.Quorum.Sound.Rules.{Traced}
use metatroni.Quorum.Sound.Updates.{with_sync}

union-IsDistinct : (s t : CaseInsensitiveSet) → IsDistinct (union s t)
unfolding union
union-IsDistinct s t = from_list-IsDistinct _

IsIn-union : (s t u : CaseInsensitiveSet) → IsIn s u → IsIn t u → IsIn (union s t) u
IsIn-union s t u h k x m = ground (arith, contains-union x s t, h x, k x)

length-with-le : (s : CaseInsensitiveSet) (n : Name) → length (union s (n ∷ [])) ≤ length s + 1
unfolding union
length-with-le s n = omega (arith, length-from_list-le (s ++ (n ∷ [])), length-append s (n ∷ []))

both : (a b : Bool) → a ≡ true → b ≡ true → (a && b) ≡ true
both a b h k = ground arith

or_true : (a : Bool) → (a || true) ≡ true
or_true a = ground arith

-- Where every voter is the primary or listed in `sync`, and quorum and numsync add up to the
-- listed nodes, the invariants hold.
pub within_sync :
    (s : Resolver)
    → IsIn (all_voters s) (all_sync s)
    → length s.sync ≤ s.quorum + s.numsync
    → (overlaps s && sets_match s) ≡ true
within_sync s sub fits =
    both (overlaps s) (sets_match s)
      (unfold overlaps in rw (le→leb _ _ bound) (or_true (is_empty s.voters)))
      (unfold sets_match in
        rw (IsIn→issubset _ _ (union-IsDistinct _ _) (union-IsDistinct _ _) sub))
  where
    bound : length (union (all_voters s) (all_sync s)) ≤ s.quorum + s.numsync + 1
    bound = omega (
      arith,
      fits,
      length-le (union (all_voters s) (all_sync s)) (all_sync s) (union-IsDistinct _ _)
          (union-IsDistinct _ _)
          (IsIn-union (all_voters s) (all_sync s) (all_sync s) sub (λ x h. h)),
      length-with-le s.sync s.leader_wanted,
    )

contains-voters_after_failover :
    (x : Name) (s : Resolver)
    → contains x (voters_after_failover s) ≡ (
        contains x s.voters && not (contains x (s.leader_wanted ∷ []))
        || contains x (s.leader ∷ []))
unfolding voters_after_failover
contains-voters_after_failover x s = ground (
  arith,
  contains-union x (diff s.voters (s.leader_wanted ∷ [])) (s.leader ∷ []),
  contains-diff x s.voters (s.leader_wanted ∷ []),
)

-- After a failover the old leader and the old voters are the new voters, but for the new leader.
pub failover_fits :
    (s : Resolver) (n : ℕ)
    → length (voters_after_failover s) ≤ s.quorum + n
    → let s' = with_sync s n (voters_after_failover s) in (overlaps s' && sets_match s') ≡ true
failover_fits s n fits = within_sync (with_sync s n (voters_after_failover s)) listed fits
  where
    listed :
        IsIn
          (union s.voters (s.leader ∷ []))
          (union (voters_after_failover s) (s.leader_wanted ∷ []))
    listed x h = ground (
      arith,
      contains-union x s.voters (s.leader ∷ []),
      h,
      contains-union x (voters_after_failover s) (s.leader_wanted ∷ []),
      contains-voters_after_failover x s,
    )

has_member : (s : CaseInsensitiveSet) (x : Name) → contains x s ≡ true → is_empty s ≡ false
unfolding is_empty contains
has_member [] x h = sym h
has_member (v ∷ s) x h = refl

pub voters_after_failover_nonempty : (s : Resolver) → is_empty (voters_after_failover s) ≡ false
unfolding voters_after_failover contains
voters_after_failover_nonempty s = has_member _ s.leader (
    ground (
      arith,
      contains-union s.leader (diff s.voters (s.leader_wanted ∷ [])) (s.leader ∷ []),
      same_refl s.leader,
    ))

pub voters_after_failover-IsDistinct : (s : Resolver) → IsDistinct (voters_after_failover s)
unfolding voters_after_failover
voters_after_failover-IsDistinct s = union-IsDistinct _ _

-- What holds where an update of the failover branch has raised after its assignments: only the
-- `/sync` key differs from the attributes, and they break the invariants.
pub record Unpublished (start : View) (r : Run) : Type 0 where
  pub safe : AllSafe r.yielded start
  pub numsync : (replay r.yielded start).numsync ≡ r.self.numsync
  pub sync : (replay r.yielded start).sync ≡ r.self.sync
  pub primary : (replay r.yielded start).primary ≡ r.self.leader_wanted
  pub broken : (overlaps r.self && sets_match r.self) ≡ false
  pub leader : r.self.leader ≡ r.self.leader_wanted
  pub voters_nonempty : is_empty r.self.voters ≡ false
  pub voters_distinct : IsDistinct r.self.voters
  pub sync_distinct : IsDistinct r.self.sync

abbrev pub Raised : View → Run → Type 0
Raised start r = Traced start r ⊎ Unpublished start r
