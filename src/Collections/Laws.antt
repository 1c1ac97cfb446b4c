-- ===== src/Collections/Laws.antt =====
-- Membership in the sets of `CaseInsensitiveSet` (patroni/collections.py), operator by operator.
use metatroni.Prelude.{
  ◌≡◌, refl, ◌∙◌, Bool, true, false, not, ◌&&◌, ◌||◌, List, [], ◌∷◌, ◌++◌, arith, ap, keep,
}
use metatroni.Names.{Name, same, same_sym, same_trans}
use metatroni.Collections.{
  CaseInsensitiveSet, contains, add, discard, add_all, from_list, union, inter, diff,
}

-- No name stands twice in the list of spellings, in any case.
abbrev pub IsDistinct : CaseInsensitiveSet → Type 0
IsDistinct [] = Unit {0}
IsDistinct (v ∷ s) = (contains v s ≡ false) × IsDistinct s

-- Spellings of one name are members of the same sets.
pub contains_congr : (x y : Name) (s : List Name) → same x y ≡ true → contains x s ≡ contains y s
unfolding contains
contains_congr x y [] h = refl
contains_congr x y (w ∷ s) h = ground (
  arith,
  contains_congr x y s h,
  same_sym x y h,
  same_trans x y w h,
  same_trans y x w (same_sym x y h),
)

pub contains-append :
    (x : Name) (s t : List Name) → contains x (s ++ t) ≡ (contains x s || contains x t)
unfolding contains
contains-append x [] t = refl
contains-append x (w ∷ s) t = ground (arith, contains-append x s t)

pub contains-add :
    (x v : Name) (s : CaseInsensitiveSet) → contains x (add v s) ≡ (same x v || contains x s)
unfolding contains add
contains-add x v [] = refl
contains-add x v (w ∷ s) =
    ground (arith, contains-add x v s, same_trans x w v, same_trans x v w, same_sym v w)

pub contains-add_all :
    (x : Name) (s : CaseInsensitiveSet) (vs : List Name)
    → contains x (add_all s vs) ≡ (contains x s || contains x vs)
unfolding contains add_all
contains-add_all x s [] = ground arith
contains-add_all x s (v ∷ vs) = ground (arith, contains-add_all x (add v s) vs, contains-add x v s)

pub contains-from_list : (x : Name) (vs : List Name) → contains x (from_list vs) ≡ contains x vs
unfolding from_list contains
contains-from_list x vs = contains-add_all x [] vs

-- A filter that does not tell spellings apart.
pub contains-keep :
    (p : Name → Bool)
    → ((x y : Name) → same x y ≡ true → p x ≡ p y)
    → (x : Name) (s : List Name) → contains x (keep p s) ≡ (contains x s && p x)
unfolding contains
contains-keep p h x [] = refl
contains-keep p h x (w ∷ s) = ground (arith, contains-keep p h x s, h x w)

pub contains-union :
    (x : Name) (s t : CaseInsensitiveSet) → contains x (union s t) ≡ (contains x s || contains x t)
unfolding union
contains-union x s t = contains-from_list x (s ++ t) ∙ contains-append x s t

pub contains-inter :
    (x : Name) (s t : CaseInsensitiveSet) → contains x (inter s t) ≡ (contains x s && contains x t)
unfolding inter
contains-inter x s t = ground (
  arith,
  contains-from_list x (keep (λ v. contains v s) t),
  contains-keep (λ v. contains v s) (λ a b. contains_congr a b s) x t,
)

pub contains-diff :
    (x : Name) (s t : CaseInsensitiveSet)
    → contains x (diff s t) ≡ (contains x s && not (contains x t))
unfolding diff
contains-diff x s t =
    contains-from_list x (keep (λ v. not (contains v t)) s)
    ∙ contains-keep (λ v. not (contains v t)) (λ a b e. ap not (contains_congr a b t e)) x s

pub add-IsDistinct : (v : Name) (s : CaseInsensitiveSet) → IsDistinct s → IsDistinct (add v s)
unfolding add contains
add-IsDistinct v [] d = ground arith
add-IsDistinct v (w ∷ s) d =
    ground (arith, add-IsDistinct v s d.1, contains-add w v s, contains_congr v w s, same_sym w v)

pub add_all-IsDistinct :
    (s : CaseInsensitiveSet) (vs : List Name) → IsDistinct s → IsDistinct (add_all s vs)
unfolding add_all
add_all-IsDistinct s [] d = d
add_all-IsDistinct s (v ∷ vs) d = add_all-IsDistinct (add v s) vs (add-IsDistinct v s d)

pub from_list-IsDistinct : (vs : List Name) → IsDistinct (from_list vs)
unfolding from_list
from_list-IsDistinct vs = add_all-IsDistinct [] vs tt

pub contains-discard :
    (x v : Name) (s : CaseInsensitiveSet)
    → IsDistinct s
    → contains x (discard v s) ≡ (contains x s && not (same x v))
unfolding contains discard
contains-discard x v [] d = refl
contains-discard x v (w ∷ s) d = ground (
  arith,
  contains-discard x v s d.1,
  contains_congr x w s,
  same_trans x v w,
  same_trans x w v,
  same_sym v w,
  same_trans v x w,
  same_sym x v,
)

pub discard-IsDistinct :
    (v : Name) (s : CaseInsensitiveSet) → IsDistinct s → IsDistinct (discard v s)
unfolding discard contains
discard-IsDistinct v [] d = tt
discard-IsDistinct v (w ∷ s) d =
    ground (arith, discard-IsDistinct v s d.1, contains-discard w v s d.1)
