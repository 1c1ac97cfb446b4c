-- ===== src/Quorum/Trace.antt =====
-- The transitions of `QuorumStateResolver` (patroni/quorum.py) as they are carried out one by one,
-- and what `__iter__` leaves of them.
use metatroni.Prelude.{
  ◌≡◌, refl, Bool, true, false, List, [], ◌∷◌, ◌++◌, ◌||◌, arith, inl, inr, Bool-cases,
}
use mathlib.Core.Path.{subst}
use metatroni.Quorum.Kinds.{TransitionType}
use metatroni.Quorum.State.{Transition}
use metatroni.Quorum.Resolver.{same_type, merge}
use metatroni.Quorum.Overlap.{View, IsSafe}

unfoldable pub publish_as : TransitionType → Transition → View → View
publish_as TransitionType.sync t v = record v { numsync = t.num; sync = t.names }
publish_as TransitionType.quorum t v = record v {
  leader = t.leader;
  quorum = t.num;
  voters = t.names;
}
publish_as TransitionType.restart t v = v

-- A transition writes `synchronous_standby_names` or the `/sync` key.
unfoldable pub publish : Transition → View → View
unfolding publish_as
publish t v = publish_as t.transition_type t v

unfoldable pub replay : List Transition → View → View
replay [] v = v
replay (t ∷ ts) v = replay ts (publish t v)

-- After each of the transitions the views are safe.
abbrev pub AllSafe : List Transition → View → Type 0
AllSafe [] v = Unit {0}
AllSafe (t ∷ ts) v = IsSafe (publish t v) × AllSafe ts (publish t v)

pub replay-snoc :
    (ts : List Transition) (t : Transition) (v : View)
    → replay (ts ++ (t ∷ [])) v ≡ publish t (replay ts v)
unfolding replay
replay-snoc [] t v = refl
replay-snoc (u ∷ ts) t v = replay-snoc ts t (publish u v)

pub AllSafe-snoc :
    (ts : List Transition) (t : Transition) (v : View)
    → AllSafe ts v
    → IsSafe (publish t (replay ts v))
    → AllSafe (ts ++ (t ∷ [])) v
unfolding replay
AllSafe-snoc [] t v h k = (k, tt)
AllSafe-snoc (u ∷ ts) t v h k = (h.0, AllSafe-snoc ts t (publish u v) h.1 k)

-- The second of two transitions of one type hides the first.
publish_twice :
    (t u : Transition) (v : View)
    → same_type t.transition_type u.transition_type ≡ true
    → publish u (publish t v) ≡ publish u v
unfolding publish same_type
publish_twice t u v h = ground arith

skip_first :
    (t u : Transition) (ts : List Transition) (v : View)
    → same_type t.transition_type u.transition_type ≡ true
    → AllSafe (u ∷ ts) (publish t v)
    → AllSafe (u ∷ ts) v
skip_first t u ts v e h = subst (λ w. IsSafe w × AllSafe ts w) (publish_twice t u v e) h

-- Merging keeps every view safe.
pub merge-AllSafe : (ts : List Transition) (v : View) → AllSafe ts v → AllSafe (merge ts) v
unfolding merge
merge-AllSafe [] v h = tt
merge-AllSafe (t ∷ []) v h = h
merge-AllSafe (t ∷ u ∷ ts) v h = elim (Bool-cases (same_type t.transition_type u.transition_type)) [
  | inl alike ↦ rw alike (merge-AllSafe (u ∷ ts) v (skip_first t u ts v alike h.1))
  | inr other ↦
      let rest : AllSafe (merge (u ∷ ts)) (publish t v) =
        merge-AllSafe (u ∷ ts) (publish t v) h.1 in
      elim (Bool-cases (same_type t.transition_type TransitionType.restart)) [
        | inl hint ↦ rw (other, hint) (h.0, tt)
        | inr change ↦ rw (other, change) (h.0, rest)
      ]
]

abbrev pub has_restart : List Transition → Bool
has_restart [] = false
has_restart (t ∷ ts) = same_type t.transition_type TransitionType.restart || has_restart ts

not_shown : (b : Bool) → b ≡ true → (b || false) ≡ false → ⊥
not_shown b h k = ground arith

or_right : (a b : Bool) → (a || b) ≡ false → b ≡ false
or_right a b h = ground arith

-- With no hint to restart the merged transitions lead to the same view.
pub replay-merge :
    (ts : List Transition) (v : View)
    → has_restart (merge ts) ≡ false
    → replay (merge ts) v ≡ replay ts v
unfolding merge replay
replay-merge [] v h = refl
replay-merge (t ∷ []) v h = refl
replay-merge (t ∷ u ∷ ts) v h = elim (Bool-cases (same_type t.transition_type u.transition_type)) [
  | inl alike ↦ rw (alike, publish_twice t u v alike) (replay-merge (u ∷ ts) v (rw alike at h))
  | inr other ↦
      let go = replay-merge (u ∷ ts) (publish t v) in
      elim (Bool-cases (same_type t.transition_type TransitionType.restart)) [
        | inl hint ↦ absurd (not_shown _ hint (rw (other, hint) at h))
        | inr change ↦ rw (other, change) (go (or_right _ _ (rw (other, change) at h)))
      ]
]
