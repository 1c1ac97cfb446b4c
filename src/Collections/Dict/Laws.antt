-- ===== src/Collections/Dict/Laws.antt =====
-- Storing and looking up in a `CaseInsensitiveDict` (patroni/collections.py).
use metatroni.Prelude.{
  ◌≡◌, refl, sym, ◌∙◌, ap, true, false, ◌||◌, [], ◌∷◌, none, some, arith, if◌then◌else◌, Bool-cases,
  inl, inr,
}
use mathlib.Core.Path.{subst}
use metatroni.Names.{Name, name_eq, name_eq→eq, eq→name_eq, lower, same}
use metatroni.Collections.Dict.{
  Item, CaseInsensitiveDict, store, find, has_key, remove, set_item, get_item, del_item,
}

-- Every item stands under its own key in lower case, and no two under one.
abbrev pub IsValid : {A : Type 0} → CaseInsensitiveDict A → Type 0
IsValid [] = Unit {0}
IsValid (i ∷ d) = (i.lowered ≡ lower i.key) × (has_key i.lowered d ≡ false) × IsValid d

name_eq_congr : (k a b : Name) → name_eq a b ≡ true → name_eq k a ≡ name_eq k b
name_eq_congr k a b h = ap (name_eq k) (name_eq→eq a b h)

name_eq_sym : (a b : Name) → name_eq a b ≡ true → name_eq b a ≡ true
name_eq_sym a b h = eq→name_eq b a (sym (name_eq→eq a b h))

name_eq_both : (k a b : Name) → name_eq k a ≡ true → name_eq k b ≡ true → name_eq a b ≡ true
name_eq_both k a b h l = eq→name_eq a b (sym (name_eq→eq k a h) ∙ name_eq→eq k b l)

module _ {A : Type 0} where
  find-store :
      (k : Name) (i : Item A) (d : CaseInsensitiveDict A)
      → find k (store i d) ≡ (if name_eq k i.lowered then some i else find k d)
  unfolding find store
  find-store k i [] = refl
  find-store k i (j ∷ d) = ground (
    arith,
    find-store k i d,
    name_eq_congr k i.lowered j.lowered,
    name_eq_both k i.lowered j.lowered,
  )

  pub has_key-store :
      (k : Name) (i : Item A) (d : CaseInsensitiveDict A)
      → has_key k (store i d) ≡ (name_eq k i.lowered || has_key k d)
  unfolding has_key store
  has_key-store k i [] = refl
  has_key-store k i (j ∷ d) =
      ground (arith, has_key-store k i d, name_eq_congr k i.lowered j.lowered)

  has_key_congr :
      (k l : Name) (d : CaseInsensitiveDict A) → name_eq k l ≡ true → has_key k d ≡ has_key l d
  has_key_congr k l d h = ap (λ n. has_key n d) (name_eq→eq k l h)

  store-IsValid :
      (i : Item A) (d : CaseInsensitiveDict A)
      → i.lowered ≡ lower i.key
      → IsValid d
      → IsValid (store i d)
  unfolding store has_key
  store-IsValid i [] h v = (h, refl, tt)
  store-IsValid i (j ∷ d) h v = elim (Bool-cases (name_eq i.lowered j.lowered)) [
    | inl here ↦ rw here (h, has_key_congr i.lowered j.lowered d here ∙ v.1, v.2)
    | inr further ↦ rw further (
      v.0,
      has_key-store j.lowered i d ∙ ground (arith, v.1, name_eq_sym j.lowered i.lowered, further),
      store-IsValid i d h v.2,
    )
  ]

  not_found : (k : Name) (d : CaseInsensitiveDict A) → has_key k d ≡ false → find k d ≡ none
  unfolding find has_key
  not_found k [] h = refl
  not_found k (j ∷ d) h = ground (arith, not_found k d)

  find-remove :
      (k l : Name) (d : CaseInsensitiveDict A)
      → IsValid d
      → find k (remove l d) ≡ (if name_eq k l then none else find k d)
  unfolding find remove
  find-remove k l [] v = ground arith
  find-remove k l (j ∷ d) v = ground (
    arith,
    find-remove k l d v.2,
    not_found k d,
    has_key_congr k j.lowered d,
    v.1,
    name_eq_congr k l j.lowered,
    name_eq_both k l j.lowered,
  )

  has_key-remove :
      (k l : Name) (d : CaseInsensitiveDict A)
      → has_key k d ≡ false
      → has_key k (remove l d) ≡ false
  unfolding has_key remove
  has_key-remove k l [] h = refl
  has_key-remove k l (j ∷ d) h = ground (arith, has_key-remove k l d)

  has_key_gone :
      (k l : Name) (d : CaseInsensitiveDict A)
      → has_key l d ≡ false
      → has_key k d ≡ true
      → name_eq k l ≡ false
  has_key_gone k l d h e = ground (arith, has_key_congr k l d, h, e)

  -- A key that is left was there, and is another one.
  pub has_key-removed :
      (k l : Name) (d : CaseInsensitiveDict A)
      → IsValid d
      → has_key k (remove l d) ≡ true
      → (has_key k d ≡ true) × (name_eq k l ≡ false)
  unfolding has_key remove
  has_key-removed k l [] v h = absurd (cc)
  has_key-removed k l (j ∷ d) v h = ground (
    arith,
    has_key-removed k l d v.2,
    has_key_gone k j.lowered d v.1,
    name_eq_congr k l j.lowered,
    name_eq_both k l j.lowered,
  )

  pub remove-IsValid : (l : Name) (d : CaseInsensitiveDict A) → IsValid d → IsValid (remove l d)
  unfolding remove
  remove-IsValid l [] v = tt
  remove-IsValid l (j ∷ d) v = elim (Bool-cases (name_eq l j.lowered)) [
    | inl here ↦ rw here v.2
    | inr further ↦ rw further (v.0, has_key-remove j.lowered l d v.1, remove-IsValid l d v.2)
  ]

  -- Looking a key up gives the value that was set last under it, in whatever case, and setting one
  -- key changes no other.
  pub get_item-set_item :
      (k key : Name) (value : A) (d : CaseInsensitiveDict A)
      → get_item k (set_item key value d) ≡ (if same k key then some value else get_item k d)
  unfolding get_item set_item same
  get_item-set_item k key value d =
      rw
        (
          get_item,
          find-store (lower k) (record { lowered = lower key; key = key; value = value }) d,
        )
        (ground arith)

  -- Deleting a key that is in a valid dictionary leaves every other key its value, and nothing under this one, in
  -- whatever case; the dictionary stays valid.
  pub get_item-del_item :
      (k key : Name) (d e : CaseInsensitiveDict A)
      → IsValid d
      → del_item key d ≡ some e
      → IsValid e × (get_item k e ≡ (if same k key then none else get_item k d))
  unfolding get_item del_item same
  get_item-del_item k key d e v h =
      subst (λ z. IsValid z × (get_item k z ≡ (if same k key then none else get_item k d)))
        (removed h)
        (
          remove-IsValid (lower key) d v,
          rw (get_item, find-remove (lower k) (lower key) d v) (ground arith),
        )
    where
      removed : del_item key d ≡ some e → remove (lower key) d ≡ e
      removed l = ground (arith, l)

  -- Setting a key in a valid dictionary keeps every item under its own key in lower case, and no two under one.
  pub set_item-IsValid :
      (key : Name) (value : A) (d : CaseInsensitiveDict A)
      → IsValid d
      → IsValid (set_item key value d)
  unfolding set_item
  set_item-IsValid key value d v =
      store-IsValid (record { lowered = lower key; key = key; value = value }) d refl v
