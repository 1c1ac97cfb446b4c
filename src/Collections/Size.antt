-- ===== src/Collections/Size.antt =====
-- Sizes of the sets of `CaseInsensitiveSet` (patroni/collections.py): what the comparisons decide,
-- and two subsets of a set that are together larger than it share a name.
use metatroni.Prelude.{
  ℕ, ◌&&◌, ◌↔◌, sym, ◌∙◌, suc, ◌+◌, refl, ◌≤◌, ◌<◌, ◌≡◌, Bool, true, false, ◌||◌, leb, le→leb,
  &&_split, ◌==◌, ==_iff, List, [], ◌∷◌, ◌++◌, inl, inr, arith, length, length-append, Bool-cases,
}
use metatroni.Names.{Name, same, same_refl}
use metatroni.Collections.{
  CaseInsensitiveSet, contains, discard, add, add_all, from_list, all_in, issubset, set_eq,
}
use metatroni.Collections.Laws.{
  IsDistinct, contains_congr, contains-discard, discard-IsDistinct, contains-append,
}

-- Every member of one list of names is a member of the other.
abbrev pub IsIn : List Name → List Name → Type 0
IsIn s t = (x : Name) → contains x s ≡ true → contains x t ≡ true

pub contains_self : (v : Name) (s : List Name) → contains v (v ∷ s) ≡ true
unfolding contains
contains_self v s = ground (arith, same_refl v)

contains_cons : (x v : Name) (s : List Name) → contains x s ≡ true → contains x (v ∷ s) ≡ true
unfolding contains
contains_cons x v s h = ground arith

-- A member of a list with a head is the head or a member of the tail.
contains_cons_inv :
    (x v : Name) (s : List Name) → contains x (v ∷ s) ≡ true → (same x v || contains x s) ≡ true
unfolding contains
contains_cons_inv x v s h = h

pub length-discard :
    (v : Name) (s : CaseInsensitiveSet)
    → contains v s ≡ true
    → length s ≡ suc (length (discard v s))
unfolding contains discard
length-discard v [] h = cc
length-discard v (w ∷ s) h = ground (arith, length-discard v s)

IsIn-tail :
    (v : Name) (s t : CaseInsensitiveSet)
    → IsDistinct (v ∷ s)
    → IsDistinct t
    → IsIn (v ∷ s) t
    → IsIn s (discard v t)
unfolding contains
IsIn-tail v s t d e h =
    λ x k. ground (arith, contains-discard x v t e, h x, contains_congr x v s, k)

-- A set is no larger than a set that has all its members.
pub length-le :
    (s t : CaseInsensitiveSet) → IsDistinct s → IsDistinct t → IsIn s t → length s ≤ length t
length-le [] t d e h = omega arith
length-le (v ∷ s) t d e h = omega (
  arith,
  length-discard v t (h v (contains_self v s)),
  length-le s (discard v t) d.1 (discard-IsDistinct v t e) (IsIn-tail v s t d e h),
)

-- Looks for a member of the first list in the second.
find_common : List Name → List Name → Bool
find_common [] t = false
find_common (v ∷ s) t = contains v t || find_common s t

find_common_found :
    (s t : List Name)
    → find_common s t ≡ true
    → (x : Name) × (contains x s ≡ true) × (contains x t ≡ true)
unfolding find_common
find_common_found [] t h = absurd (cc)
find_common_found (v ∷ s) t h = elim (Bool-cases (contains v t)) [
  | inl here ↦ (v, contains_self v s, here)
  | inr not_here ↦
      let (x, l, r) = find_common_found s t (ground arith) in
      (x, ground (arith, contains_cons x v s), r)
]

append-IsDistinct :
    (s t : List Name) → IsDistinct s → IsDistinct t → find_common s t ≡ false → IsDistinct (s ++ t)
unfolding find_common
append-IsDistinct [] t d e h = e
append-IsDistinct (v ∷ s) t d e h =
    ground (arith, contains-append v s t, append-IsDistinct s t d.1 e)

-- Two subsets of a set that together have more members than it has share a member.
pub pigeonhole :
    (s t u : CaseInsensitiveSet)
    → IsDistinct s
    → IsDistinct t
    → IsDistinct u
    → IsIn s u
    → IsIn t u
    → length u < length s + length t
    → (x : Name) × (contains x s ≡ true) × (contains x t ≡ true)
pigeonhole s t u ds dt du hs ht h = elim (Bool-cases (find_common s t)) [
  | inl found ↦ find_common_found s t found
  | inr apart ↦ absurd (
      omega (
        arith,
        length-append s t,
        length-le (s ++ t) u (append-IsDistinct s t ds dt apart) du
            (λ x k. ground (arith, contains-append x s t, hs x, ht x, k)),
      ))
]

pub length-add-le : (v : Name) (s : CaseInsensitiveSet) → length (add v s) ≤ suc (length s)
unfolding add
length-add-le v [] = omega arith
length-add-le v (w ∷ s) = ground (arith, length-add-le v s)

length-add_all-le :
    (s : CaseInsensitiveSet) (vs : List Name) → length (add_all s vs) ≤ length s + length vs
unfolding add_all
length-add_all-le s [] = omega arith
length-add_all-le s (v ∷ vs) = omega (arith, length-add_all-le (add v s) vs, length-add-le v s)

-- A set has at most as many members as the list that it was made from.
pub length-from_list-le : (vs : List Name) → length (from_list vs) ≤ length vs
unfolding from_list
length-from_list-le vs = omega (arith, length-add_all-le [] vs)

pub all_in→IsIn : (s t : List Name) → all_in s t ≡ true → IsIn s t
unfolding contains all_in
all_in→IsIn [] t h = λ x k. absurd (cc)
all_in→IsIn (v ∷ s) t h = λ x k.
    ground
      (arith, all_in→IsIn s t (&&_split (contains v t) (all_in s t) h).1 x, contains_congr x v t, k)

pub IsIn→all_in : (s t : List Name) → IsIn s t → all_in s t ≡ true
unfolding all_in
IsIn→all_in [] t h = refl
IsIn→all_in (v ∷ s) t h =
    rw (h v (contains_self v s)) (IsIn→all_in s t (λ x k. h x (contains_cons x v s k)))

pub issubset→IsIn : (s t : CaseInsensitiveSet) → issubset s t ≡ true → IsIn s t
unfolding issubset
issubset→IsIn s t h = all_in→IsIn s t (&&_split (leb (length s) (length t)) (all_in s t) h).1

-- The length that `<=` compares first never decides against a subset.
pub IsIn→issubset :
    (s t : CaseInsensitiveSet) → IsDistinct s → IsDistinct t → IsIn s t → issubset s t ≡ true
unfolding issubset
IsIn→issubset s t d e h = rw (le→leb _ _ (length-le s t d e h)) (IsIn→all_in s t h)

-- Equal sets have the same members.
pub set_eq→IsIn :
    (s t : CaseInsensitiveSet)
    → IsDistinct s
    → IsDistinct t
    → set_eq s t ≡ true
    → IsIn s t × IsIn t s
unfolding set_eq
set_eq→IsIn s t d e h =
    let parts = &&_split (length s == length t) (issubset s t) h in
    let sub : IsIn s t = issubset→IsIn s t parts.1 in
    (
      sub,
      λ x k. elim (Bool-cases (contains x s)) [
        | inl here ↦ here
        | inr gone ↦ absurd (
            omega (
              arith,
              length-le (x ∷ s) t (gone, d) e (λ y. member_or_head x s t sub k y),
              (==_iff (length s) (length t)).0 parts.0,
            ))
      ],
    )
  where
    member_or_head :
        (x : Name) (s t : CaseInsensitiveSet) → IsIn s t → contains x t ≡ true → IsIn (x ∷ s) t
    member_or_head x s t sub k y l =
        ground (arith, sub y, contains_congr y x t, contains_cons_inv y x s l)

equal_if : (m n : ℕ) (b : Bool) → m ≡ n → b ≡ true → (m == n && b) ≡ true
equal_if m n b h k = ground arith

-- `==` on sets decides whether they have the same members, whatever the order and the case of
-- their names; for sets, in which no name stands twice.
pub set_eq_iff :
    (s t : CaseInsensitiveSet)
    → IsDistinct s
    → IsDistinct t
    → (set_eq s t ≡ true) ↔ ((x : Name) → contains x s ≡ contains x t)
unfolding set_eq
set_eq_iff s t d e = (λ h. same_members (set_eq→IsIn s t d e h), λ h. equal_sets h)
  where
    same_members : IsIn s t × IsIn t s → (x : Name) → contains x s ≡ contains x t
    same_members (sub, sup) x = ground (arith, sub x, sup x)

    equal_sets : ((x : Name) → contains x s ≡ contains x t) → set_eq s t ≡ true
    equal_sets h =
        equal_if (length s) (length t) (issubset s t)
          (omega
            (arith, length-le s t d e (λ x k. sym (h x) ∙ k), length-le t s e d (λ x k. h x ∙ k)))
          (IsIn→issubset s t d e (λ x k. sym (h x) ∙ k))

-- `<=` on sets decides whether one is a subset of the other, and the comparison of the lengths
-- that it starts with never decides wrongly; for sets, in which no name stands twice.
issubset_iff :
    (s t : CaseInsensitiveSet) → IsDistinct s → IsDistinct t → (issubset s t ≡ true) ↔ IsIn s t
issubset_iff s t d e = (issubset→IsIn s t, IsIn→issubset s t d e)
