-- ===== src/Collections/Dict.antt =====
-- `CaseInsensitiveDict` of patroni/collections.py. Its ordered dictionary `_values` is the list of
-- its items in order; an item has the lowered key, and the tuple of the key as it was last set and
-- the value.
pub mod Laws
use metatroni.Prelude.{
  ℕ, Bool, true, false, ◌||◌, List, [], ◌∷◌, map, Option, none, some, length, if◌then◌else◌,
}
use metatroni.Names.{Name, name_eq, lower}

pub record Item (A : Type 0) : Type 0 where
  pub lowered : Name
  pub key : Name
  pub value : A

abbrev pub CaseInsensitiveDict : Type 0 → Type 0
CaseInsensitiveDict A = List (Item A)

module _ {A : Type 0} where
  -- `_values[k] = …`: a key that is there keeps its place.
  unfoldable pub store : Item A → CaseInsensitiveDict A → CaseInsensitiveDict A
  store i [] = i ∷ []
  store i (j ∷ d) = let rest = store i d in if name_eq i.lowered j.lowered then i ∷ d else j ∷ rest

  -- `_values[k]`; `none` is a `KeyError`.
  unfoldable pub find : Name → CaseInsensitiveDict A → Option (Item A)
  find k [] = none
  find k (j ∷ d) = let rest = find k d in if name_eq k j.lowered then some j else rest

  unfoldable pub has_key : Name → CaseInsensitiveDict A → Bool
  has_key k [] = false
  has_key k (j ∷ d) = name_eq k j.lowered || has_key k d

  unfoldable pub remove : Name → CaseInsensitiveDict A → CaseInsensitiveDict A
  remove k [] = []
  remove k (j ∷ d) = let rest = remove k d in if name_eq k j.lowered then d else j ∷ rest

  -- `__setitem__`
  unfoldable pub set_item : Name → A → CaseInsensitiveDict A → CaseInsensitiveDict A
  set_item key value d = store (record { lowered = lower key; key = key; value = value }) d

  -- `__getitem__`; `none` is a `KeyError`.
  unfoldable pub get_item : Name → CaseInsensitiveDict A → Option A
  get_item key d = elim (find (lower key) d) [ none ↦ none | some i ↦ some i.value ]

  -- `__delitem__`; `none` is a `KeyError`.
  unfoldable pub del_item : Name → CaseInsensitiveDict A → Option (CaseInsensitiveDict A)
  del_item key d = if has_key (lower key) d then some (remove (lower key) d) else none

  -- `__iter__`
  unfoldable pub iter : CaseInsensitiveDict A → List Name
  iter d = map (λ (i : Item A). i.key) d

  -- `keys`: those of `_values`.
  unfoldable pub keys : CaseInsensitiveDict A → List Name
  keys d = map (λ (i : Item A). i.lowered) d

  -- `update` with the items of a dictionary, as `MutableMapping` has it.
  unfoldable pub update : List (Name × A) → CaseInsensitiveDict A → CaseInsensitiveDict A
  update [] d = d
  update ((key, value) ∷ items) d = update items (set_item key value d)

  -- `{key: value for …}`: a dictionary with the case of its keys.
  unfoldable pub put_plain : Name → A → List (Name × A) → List (Name × A)
  put_plain key value [] = (key, value) ∷ []
  put_plain key value ((k, v) ∷ items) =
      let rest = put_plain key value items in
      if name_eq key k then (k, value) ∷ items else (k, v) ∷ rest

  unfoldable pub plain : CaseInsensitiveDict A → List (Name × A) → List (Name × A)
  plain [] items = items
  plain (i ∷ d) items = plain d (put_plain i.key i.value items)

  -- `copy`
  unfoldable pub copy : CaseInsensitiveDict A → CaseInsensitiveDict A
  copy d = update (plain d []) []
