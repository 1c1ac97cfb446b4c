-- ===== src/Collections.antt =====
-- `CaseInsensitiveSet` of patroni/collections.py. Its `_values` maps each lowered name to the last
-- spelling added: here the list of those spellings, in the order of the dictionary.
-- The operators are those that `collections.abc.Set` derives from the methods.
use metatroni.Prelude.{
  ℕ, ◌≡◌, Bool, true, false, not, ◌&&◌, ◌||◌, List, [], ◌∷◌, ◌++◌, ltb, leb, ◌==◌, if◌then◌else◌,
  length, keep,
}
use mathlib.Core.List.{reverse}
use metatroni.Names.{Name, same, name_le}
pub mod Laws
pub mod Size
pub mod Dict

abbrev pub CaseInsensitiveSet : Type 0
CaseInsensitiveSet = List Name

-- `__contains__`
unfoldable pub contains : Name → CaseInsensitiveSet → Bool
contains v [] = false
contains v (w ∷ s) = same v w || contains v s

-- `add`: the spelling of a name that is there is overwritten in its place.
unfoldable pub add : Name → CaseInsensitiveSet → CaseInsensitiveSet
add v [] = v ∷ []
add v (w ∷ s) = if same v w then v ∷ s else w ∷ add v s

-- `discard`
unfoldable pub discard : Name → CaseInsensitiveSet → CaseInsensitiveSet
discard v [] = []
discard v (w ∷ s) = if same v w then s else w ∷ discard v s

-- The loop of `__init__`, on the set built so far.
unfoldable pub add_all : CaseInsensitiveSet → List Name → CaseInsensitiveSet
add_all s [] = s
add_all s (v ∷ vs) = add_all (add v s) vs

-- `__init__`
unfoldable pub from_list : List Name → CaseInsensitiveSet
unfolding add_all
from_list = add_all []

unfoldable pub is_empty : CaseInsensitiveSet → Bool
is_empty [] = true
is_empty (v ∷ s) = false

-- `all(v in t for v in s)`
unfoldable pub all_in : List Name → CaseInsensitiveSet → Bool
all_in [] t = true
all_in (v ∷ s) t = contains v t && all_in s t

-- `s | t`
unfoldable pub union : CaseInsensitiveSet → CaseInsensitiveSet → CaseInsensitiveSet
union s t = from_list (s ++ t)

-- `s & t`
unfoldable pub inter : CaseInsensitiveSet → CaseInsensitiveSet → CaseInsensitiveSet
inter s t = from_list (keep (λ v. contains v s) t)

-- `s - t`
unfoldable pub diff : CaseInsensitiveSet → CaseInsensitiveSet → CaseInsensitiveSet
diff s t = from_list (keep (λ v. not (contains v t)) s)

-- `s <= t` and `s.issubset(t)`
unfoldable pub issubset : CaseInsensitiveSet → CaseInsensitiveSet → Bool
issubset s t = leb (length s) (length t) && all_in s t

-- `s < t`
unfoldable pub is_proper_subset : CaseInsensitiveSet → CaseInsensitiveSet → Bool
is_proper_subset s t = ltb (length s) (length t) && issubset s t

-- `s == t`
unfoldable pub set_eq : CaseInsensitiveSet → CaseInsensitiveSet → Bool
set_eq s t = length s == length t && issubset s t

-- One step of `sorted` on names, by insertion.
unfoldable pub insert_sorted : Name → List Name → List Name
insert_sorted v [] = v ∷ []
insert_sorted v (w ∷ s) = if name_le v w then v ∷ w ∷ s else w ∷ insert_sorted v s

-- `sorted(s)`
unfoldable pub sorted : List Name → List Name
sorted [] = []
sorted (v ∷ s) = insert_sorted v (sorted s)

-- `s -= t`
unfoldable pub discard_all : CaseInsensitiveSet → CaseInsensitiveSet → CaseInsensitiveSet
unfolding discard
discard_all s [] = s
discard_all s (v ∷ t) = discard_all (discard v s) t

-- `s &= t`
unfoldable pub inter_update : CaseInsensitiveSet → CaseInsensitiveSet → CaseInsensitiveSet
unfolding diff discard_all
inter_update s t = discard_all s (diff s t)

-- `sorted(s, reverse=True)`: no two members of a set are equal texts.
unfoldable pub sorted_reverse : CaseInsensitiveSet → List Name
unfolding sorted
sorted_reverse s = reverse (sorted s)
