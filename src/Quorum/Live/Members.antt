-- ===== src/Quorum/Live/Members.antt =====
-- States of the resolver (patroni/quorum.py) with the same nodes in `voters`, `sync` and `active`.
use metatroni.Prelude.{
  ◌+◌, ◌<◌, ◌≤◌, ◌≡◌, refl, ap, suc, true, false, [], ◌∷◌, arith, length, Bool-cases, inl, inr,
}
use metatroni.Names.{Name, same}
use metatroni.Collections.{
  CaseInsensitiveSet, contains, is_empty, union, diff, add, is_proper_subset, set_eq,
}
use metatroni.Collections.Laws.{
  IsDistinct, contains-union, contains-diff, contains-add, add-IsDistinct, from_list-IsDistinct,
}
use metatroni.Collections.Size.{IsIn, length-le, length-add-le, IsIn→issubset, contains_self}
use metatroni.Quorum.State.{Resolver}
use metatroni.Quorum.Updates.{all_voters, all_sync, overlaps, sets_match}

-- The leader is the wanted one, and `voters`, `sync` and `active` are one set, not empty.
pub record SameMembers (s : Resolver) : Type 0 where
  pub leader : s.leader ≡ s.leader_wanted
  pub distinct_voters : IsDistinct s.voters
  pub distinct_sync : IsDistinct s.sync
  pub voters_in_sync : IsIn s.voters s.sync
  pub sync_in_voters : IsIn s.sync s.voters
  pub sync_in_active : IsIn s.sync s.active
  pub active_in_sync : IsIn s.active s.sync
  pub populated : is_empty s.sync ≡ false

-- Both tests of `check_invariants` pass.
abbrev pub Fits : Resolver → Type 0
Fits s = (overlaps s ≡ true) × (sets_match s ≡ true)

not_empty : (s : CaseInsensitiveSet) → is_empty s ≡ false → 0 < length s
unfolding is_empty
not_empty [] h = absurd (cc)
not_empty (v ∷ s) h = omega arith

is_empty-length : (s : CaseInsensitiveSet) → is_empty s ≡ true → length s ≡ 0
unfolding is_empty
is_empty-length [] h = refl
is_empty-length (v ∷ s) h = absurd (cc)

pub union-IsDistinct : (s t : CaseInsensitiveSet) → IsDistinct (union s t)
unfolding union
union-IsDistinct s t = from_list-IsDistinct _

module _ {s : Resolver} (h : SameMembers s) where
  pub length-voters : length s.voters ≡ length s.sync
  length-voters = omega (
    arith,
    length-le _ _ h.distinct_voters h.distinct_sync h.voters_in_sync,
    length-le _ _ h.distinct_sync h.distinct_voters h.sync_in_voters,
  )

  leader_alone : (x : Name) → contains x (s.leader ∷ []) ≡ contains x (s.leader_wanted ∷ [])
  leader_alone x = ap (λ n. contains x (n ∷ [])) h.leader

  contains_one : (x : Name) → contains x (s.leader ∷ []) ≡ same x s.leader
  unfolding contains
  contains_one x = ground arith

  -- Everybody is the leader or one of `sync`.
  everybody :
      (x : Name)
      → contains x (union (all_voters s) (all_sync s)) ≡ true
      → contains x (add s.leader s.sync) ≡ true
  everybody x k = ground (
    arith,
    contains-union x (all_voters s) (all_sync s),
    contains-union x s.voters (s.leader ∷ []),
    contains-union x s.sync (s.leader_wanted ∷ []),
    contains-add x s.leader s.sync,
    h.voters_in_sync x,
    leader_alone x,
    contains_one x,
    k,
  )

  fits_count : length (union (all_voters s) (all_sync s)) ≤ suc (length s.sync)
  fits_count = omega (
    arith,
    length-add-le s.leader s.sync,
    length-le _ _ (union-IsDistinct (all_voters s) (all_sync s))
        (add-IsDistinct s.leader s.sync h.distinct_sync) everybody,
  )

  voters_fit : IsIn (all_voters s) (all_sync s)
  voters_fit x k = ground (
    arith,
    contains-union x s.voters (s.leader ∷ []),
    contains-union x s.sync (s.leader_wanted ∷ []),
    h.voters_in_sync x,
    leader_alone x,
    k,
  )

  pub Fits-enough : length s.sync ≤ s.quorum + s.numsync → Fits s
  unfolding overlaps sets_match
  Fits-enough k = (
    ground (arith, fits_count, k),
    ground (
      arith,
      IsIn→issubset (all_voters s) (all_sync s) (union-IsDistinct _ _) (union-IsDistinct _ _)
          voters_fit,
    ),
  )

  pub not_below : is_proper_subset s.sync s.voters ≡ false
  unfolding is_proper_subset
  not_below = ground (arith, length-voters)

  pub not_above : is_proper_subset s.voters s.sync ≡ false
  unfolding is_proper_subset
  not_above = ground (arith, length-voters)

  pub members_agree : set_eq s.voters s.sync ≡ true
  members_agree =
      unfold set_eq in
      ground (
        arith,
        length-voters,
        IsIn→issubset s.voters s.sync h.distinct_voters h.distinct_sync h.voters_in_sync,
      )

  members_within : IsIn (union s.voters s.sync) s.sync
  members_within x k = ground (arith, contains-union x s.voters s.sync, h.voters_in_sync x, k)

  within_members : IsIn s.sync (union s.voters s.sync)
  within_members x k = ground (arith, contains-union x s.voters s.sync, k)

  pub length-members : length (union s.voters s.sync) ≡ length s.sync
  length-members = omega (
    arith,
    length-le _ _ (union-IsDistinct s.voters s.sync) h.distinct_sync members_within,
    length-le _ _ h.distinct_sync (union-IsDistinct s.voters s.sync) within_members,
  )

  pub length-sync : 0 < length s.sync
  length-sync = not_empty s.sync h.populated

  pub voters_populated : is_empty s.voters ≡ false
  voters_populated = elim (Bool-cases (is_empty s.voters)) [
    | inr populated ↦ populated
    | inl empty ↦ absurd (omega (arith, length-voters, length-sync, is_empty-length s.voters empty))
  ]

no_names : (s : CaseInsensitiveSet) → ((x : Name) → contains x s ≡ true → ⊥) → is_empty s ≡ true
unfolding is_empty
no_names [] k = refl
no_names (v ∷ s) k = absurd (k v (contains_self v s))

pub diff-is_empty : (s t : CaseInsensitiveSet) → IsIn s t → is_empty (diff s t) ≡ true
diff-is_empty s t h = no_names (diff s t) (λ x k. none_left x k)
  where
    none_left : (x : Name) → contains x (diff s t) ≡ true → ⊥
    none_left x k = ground (arith, contains-diff x s t, h x, k)
