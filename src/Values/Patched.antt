-- ===== src/Values/Patched.antt =====
-- What `patch_config` does to a configuration (patroni/utils.py).
use mathlib.Core.Path.{subst}
use metatroni.Prelude.{
  ◌≡◌, refl, ◌∙◌, ap, Bool, true, false, ◌||◌, Option, none, some, arith, if_cases, Bool-cases,
  Option-cases, inl, inr,
}
use metatroni.Names.{Name, name_eq, name_eq→eq}
use metatroni.Values.Value.{Value, Items, lookup, put, drop}
use metatroni.Values.Patch.{has_value, differs, patch_scalar, patch_dict, patch_one, patch_config}

-- Nothing in it is `None`, at any depth.
abbrev mutual
  pub NoNull : Value → Type 0
  NoNull Value.null = ⊥
  NoNull (Value.dict d) = NoNulls d
  NoNull (Value.truth b) = Unit {0}
  NoNull (Value.number z) = Unit {0}
  NoNull (Value.text s) = Unit {0}
  NoNull (Value.other s) = Unit {0}

  pub NoNulls : Items → Type 0
  NoNulls Items.empty = Unit {0}
  NoNulls (Items.item k v d) = NoNull v × NoNulls d

lookup-NoNull : (n : Name) (c : Items) (v : Value) → NoNulls c → lookup n c ≡ some v → NoNull v
unfolding lookup
lookup-NoNull n Items.empty v h e = absurd (cc)
lookup-NoNull n (Items.item k u c) v h e = elim (Bool-cases (name_eq n k)) [
  | inl here ↦ subst NoNull (found (rw here at e)) h.0
  | inr further ↦ lookup-NoNull n c v h.1 (rw further at e)
]
  where
    found : some u ≡ some v → u ≡ v
    found z = cc

drop-none : (n : Name) (c : Items) → lookup n c ≡ none → drop n c ≡ c
unfolding lookup drop
drop-none n Items.empty e = refl
drop-none n (Items.item k u c) e = ground (arith, drop-none n c)

put-lookup : (n : Name) (v : Value) (c : Items) → lookup n c ≡ some v → put n v c ≡ c
unfolding lookup put
put-lookup n v Items.empty e = absurd (cc)
put-lookup n v (Items.item k u c) e = ground (arith, put-lookup n v c)

no_value : (c : Items) (n : Name) → NoNulls c → has_value (lookup n c) ≡ false → lookup n c ≡ none
no_value c n h e = elim (Option-cases (lookup n c)) [
  | inl free ↦ free
  | inr (v, found) ↦ absurd (clash v (lookup-NoNull n c v h found) (rw found at e))
]
  where
    clash : (v : Value) → NoNull v → has_value (some v) ≡ false → ⊥
    clash Value.null k z = k
    clash (Value.dict d) k z = absurd (cc)
    clash (Value.truth b) k z = absurd (cc)
    clash (Value.number i) k z = absurd (cc)
    clash (Value.text t) k z = absurd (cc)
    clash (Value.other t) k z = absurd (cc)

module _ (dict_text : Items → Name) where
  patch_scalar_unchanged :
      (n : Name) (v : Value) (o : Option Value) (c : Items)
      → (patch_scalar dict_text n v o c).0 ≡ false
      → (patch_scalar dict_text n v o c).1 ≡ c
  unfolding patch_scalar
  patch_scalar_unchanged n v none c e = absurd (cc)
  patch_scalar_unchanged n v (some w) c e = ground (arith, e)

  patch_dict_unchanged :
      (nested : Items → Bool × Items) (n : Name) (d : Items) (o : Option Value) (c : Items)
      → ((e : Items) → o ≡ some (Value.dict e) → (nested e).0 ≡ false → (nested e).1 ≡ e)
      → lookup n c ≡ o
      → (patch_dict dict_text nested n d o c).0 ≡ false
      → (patch_dict dict_text nested n d o c).1 ≡ c
  unfolding patch_dict
  patch_dict_unchanged nested n d (some (Value.dict e)) c k found h =
      ap (λ x. put n (Value.dict x) c) (k e refl h) ∙ put-lookup n (Value.dict e) c found
  patch_dict_unchanged nested n d none c k found h = absurd (cc)
  patch_dict_unchanged nested n d (some Value.null) c k found h = absurd (cc)
  patch_dict_unchanged nested n d (some (Value.truth b)) c k found h = absurd (cc)
  patch_dict_unchanged nested n d (some (Value.number i)) c k found h = absurd (cc)
  patch_dict_unchanged nested n d (some (Value.text t)) c k found h = absurd (cc)
  patch_dict_unchanged nested n d (some (Value.other t)) c k found h = absurd (cc)

  -- One turn and those that follow it.
  both_unchanged :
      (one : Bool × Items) (rest : Items → Bool × Items) (c : Items)
      → (one.0 ≡ false → one.1 ≡ c)
      → ((rest c).0 ≡ false → (rest c).1 ≡ c)
      → (one.0 || (rest one.1).0) ≡ false
      → (rest one.1).1 ≡ c
  both_unchanged (true, e) rest c h k z = absurd (cc)
  both_unchanged (false, e) rest c h k z = let same : e ≡ c = h refl in rw same (k (rw same at z))

  -- A configuration without None that patch_config reports as unchanged is unchanged.
  pub patch_config_unchanged :
      (d c : Items)
      → NoNulls c
      → (patch_config dict_text d c).0 ≡ false
      → (patch_config dict_text d c).1 ≡ c
  unfolding patch_config patch_one
  patch_config_unchanged Items.empty c h e = refl
  patch_config_unchanged (Items.item n Value.null d) c h e =
      both_unchanged (patch_one dict_text n Value.null c) (patch_config dict_text d) c
        (λ z. drop-none n c (no_value c n h z)) (patch_config_unchanged d c h) e
  patch_config_unchanged (Items.item n (Value.dict b) d) c h e =
      both_unchanged (patch_one dict_text n (Value.dict b) c) (patch_config dict_text d) c
        (patch_dict_unchanged (patch_config dict_text b) n b (lookup n c) c
          (λ x found. patch_config_unchanged b x (lookup-NoNull n c (Value.dict x) h found)) refl)
        (patch_config_unchanged d c h) e
  patch_config_unchanged (Items.item n (Value.truth b) d) c h e =
      both_unchanged (patch_one dict_text n (Value.truth b) c) (patch_config dict_text d) c
        (patch_scalar_unchanged n (Value.truth b) (lookup n c) c) (patch_config_unchanged d c h) e
  patch_config_unchanged (Items.item n (Value.number b) d) c h e =
      both_unchanged (patch_one dict_text n (Value.number b) c) (patch_config dict_text d) c
        (patch_scalar_unchanged n (Value.number b) (lookup n c) c) (patch_config_unchanged d c h) e
  patch_config_unchanged (Items.item n (Value.text b) d) c h e =
      both_unchanged (patch_one dict_text n (Value.text b) c) (patch_config dict_text d) c
        (patch_scalar_unchanged n (Value.text b) (lookup n c) c) (patch_config_unchanged d c h) e
  patch_config_unchanged (Items.item n (Value.other b) d) c h e =
      both_unchanged (patch_one dict_text n (Value.other b) c) (patch_config dict_text d) c
        (patch_scalar_unchanged n (Value.other b) (lookup n c) c) (patch_config_unchanged d c h) e

lookup-put :
    (k n : Name) (v : Value) (c : Items) → name_eq k n ≡ false → lookup k (put n v c) ≡ lookup k c
unfolding lookup put
lookup-put k n v Items.empty h = rw h refl
lookup-put k n v (Items.item m u c) h = elim (Bool-cases (name_eq n m)) [
  | inl here ↦
      let other : name_eq k m ≡ false = subst (λ x. name_eq k x ≡ false) (name_eq→eq n m here) h in
      rw (here, other) refl
  | inr further ↦ rw further (rw (lookup-put k n v c h) refl)
]

lookup-drop : (k n : Name) (c : Items) → name_eq k n ≡ false → lookup k (drop n c) ≡ lookup k c
unfolding lookup drop
lookup-drop k n Items.empty h = refl
lookup-drop k n (Items.item m u c) h = elim (Bool-cases (name_eq n m)) [
  | inl here ↦
      let other : name_eq k m ≡ false = subst (λ x. name_eq k x ≡ false) (name_eq→eq n m here) h in
      rw (here, other) refl
  | inr further ↦ rw further (rw (lookup-drop k n c h) refl)
]

module _ (dict_text : Items → Name) (k : Name) where
  frame_scalar :
      (n : Name) (v : Value) (o : Option Value) (c : Items)
      → name_eq k n ≡ false
      → lookup k (patch_scalar dict_text n v o c).1 ≡ lookup k c
  unfolding patch_scalar
  frame_scalar n v none c h = lookup-put k n v c h
  frame_scalar n v (some w) c h =
      if_cases (λ (x : Bool × Items). lookup k x.1 ≡ lookup k c) (differs dict_text w v)
        (true, put n v c) (false, c) (λ e. lookup-put k n v c h) (λ e. refl)

  frame_dict :
      (nested : Items → Bool × Items) (n : Name) (d : Items) (o : Option Value) (c : Items)
      → name_eq k n ≡ false
      → lookup k (patch_dict dict_text nested n d o c).1 ≡ lookup k c
  unfolding patch_dict
  frame_dict nested n d none c h = lookup-put k n (Value.dict d) c h
  frame_dict nested n d (some (Value.dict e)) c h = lookup-put k n (Value.dict (nested e).1) c h
  frame_dict nested n d (some Value.null) c h = lookup-put k n (Value.dict d) c h
  frame_dict nested n d (some (Value.truth b)) c h = lookup-put k n (Value.dict d) c h
  frame_dict nested n d (some (Value.number z)) c h = lookup-put k n (Value.dict d) c h
  frame_dict nested n d (some (Value.text t)) c h = lookup-put k n (Value.dict d) c h
  frame_dict nested n d (some (Value.other t)) c h = lookup-put k n (Value.dict d) c h

  frame_one :
      (n : Name) (v : Value) (c : Items)
      → name_eq k n ≡ false
      → lookup k (patch_one dict_text n v c).1 ≡ lookup k c
  unfolding patch_one
  frame_one n Value.null c h = lookup-drop k n c h
  frame_one n (Value.dict d) c h = frame_dict _ n d (lookup n c) c h
  frame_one n (Value.truth b) c h = frame_scalar n (Value.truth b) (lookup n c) c h
  frame_one n (Value.number z) c h = frame_scalar n (Value.number z) (lookup n c) c h
  frame_one n (Value.text t) c h = frame_scalar n (Value.text t) (lookup n c) c h
  frame_one n (Value.other t) c h = frame_scalar n (Value.other t) (lookup n c) c h

  -- patch_config leaves the values of the keys that the data do not name as they are.
  pub lookup-patch_config :
      (d c : Items) → lookup k d ≡ none → lookup k (patch_config dict_text d c).1 ≡ lookup k c
  unfolding patch_config lookup
  lookup-patch_config Items.empty c h = refl
  lookup-patch_config (Items.item n v d) c h = elim (Bool-cases (name_eq k n)) [
    | inl here ↦ absurd (clash (rw here at h))
    | inr further ↦
        lookup-patch_config d (patch_one dict_text n v c).1 (rw further at h)
        ∙ frame_one n v c further
  ]
    where
      clash : some v ≡ none → ⊥
      clash z = absurd (cc)
