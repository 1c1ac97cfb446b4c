-- ===== src/Prelude/Members.antt =====
-- The elements of the lists that a comprehension or `+` builds.
use mathlib.Core.List.{List, [], ◌∷◌, ◌++◌, Memᴰ, Sublistᴰ}
use mathlib.Core.Logic.{◌⊎◌, inl, inr}
use mathlib.Core.Path.{◌≡◌, refl}
use mathlib.Core.Bool.{Bool, true}
use Prim.Native.Nat.{◌≤◌}
use native.Mathlib.Omega.{arith}
use metatroni.Prelude.Tests.{Bool-cases}
use metatroni.Prelude.Lists.{keep, length}

module _ {ℓ} {A : Type ℓ} where
  pub keep-Memᴰ :
      (p : A → Bool) (xs : List A) (x : A) → Memᴰ x (keep p xs) → Memᴰ x xs × (p x ≡ true)
  keep-Memᴰ p [] x k = elim k [ ]
  keep-Memᴰ p (y ∷ xs) x k = elim (Bool-cases (p y)) [
    | inl kept ↦ elim (rw kept at k) [
      | Memᴰ.head e ↦ (Memᴰ.head e, rw e kept)
      | Memᴰ.tail m ↦ let (there, passes) = keep-Memᴰ p xs x m in (Memᴰ.tail there, passes)
    ]
    | inr dropped ↦
        let (there, passes) = keep-Memᴰ p xs x (rw dropped at k) in (Memᴰ.tail there, passes)
  ]

  pub Memᴰ-keep : (p : A → Bool) (x : A) (xs : List A) → Memᴰ x xs → p x ≡ true → Memᴰ x (keep p xs)
  Memᴰ-keep p x [] k h = elim k [ ]
  Memᴰ-keep p x (y ∷ xs) (Memᴰ.head e) h =
      let passes : p y ≡ true = rw⁻¹ e h in rw passes (Memᴰ.head e)
  Memᴰ-keep p x (y ∷ xs) (Memᴰ.tail k) h = elim (Bool-cases (p y)) [
    | inl passes ↦ rw passes (Memᴰ.tail (Memᴰ-keep p x xs k h))
    | inr fails ↦ rw fails (Memᴰ-keep p x xs k h)
  ]

  pub keep-Sublistᴰ : (p : A → Bool) (xs : List A) → Sublistᴰ (keep p xs) xs
  keep-Sublistᴰ p [] = Sublistᴰ.slnil
  keep-Sublistᴰ p (x ∷ xs) = elim (Bool-cases (p x)) [
    | inl kept ↦ rw kept (Sublistᴰ.cons-cons refl (keep-Sublistᴰ p xs))
    | inr dropped ↦ rw dropped (Sublistᴰ.cons (keep-Sublistᴰ p xs))
  ]

  -- No list of elements that pass is longer than that of all which do.
  pub Sublistᴰ-keep :
      (p : A → Bool) (ys xs : List A)
      → Sublistᴰ ys xs
      → ((y : A) → Memᴰ y ys → p y ≡ true)
      → length ys ≤ length (keep p xs)
  Sublistᴰ-keep p [] xs s h = omega arith
  Sublistᴰ-keep p (y ∷ ys) [] s h = elim s [ ]
  Sublistᴰ-keep p (y ∷ ys) (x ∷ xs) (Sublistᴰ.cons s) h = elim (Bool-cases (p x)) [
    | inl kept ↦ rw kept (omega (arith, Sublistᴰ-keep p (y ∷ ys) xs s h))
    | inr dropped ↦ rw dropped (Sublistᴰ-keep p (y ∷ ys) xs s h)
  ]
  Sublistᴰ-keep p (y ∷ ys) (x ∷ xs) (Sublistᴰ.cons-cons e s) h =
      let passes : p x ≡ true = rw⁻¹ e (h y (Memᴰ.head refl)) in
      rw passes (omega (arith, Sublistᴰ-keep p ys xs s (λ z m. h z (Memᴰ.tail m))))

  pub append-Memᴰ : (xs ys : List A) (x : A) → Memᴰ x (xs ++ ys) → Memᴰ x xs ⊎ Memᴰ x ys
  append-Memᴰ [] ys x k = inr k
  append-Memᴰ (y ∷ xs) ys x (Memᴰ.head e) = inl (Memᴰ.head e)
  append-Memᴰ (y ∷ xs) ys x (Memᴰ.tail k) = elim (append-Memᴰ xs ys x k) [
    | inl left ↦ inl (Memᴰ.tail left)
    | inr right ↦ inr right
  ]

  pub Memᴰ-append_left : (xs ys : List A) (x : A) → Memᴰ x xs → Memᴰ x (xs ++ ys)
  Memᴰ-append_left [] ys x k = elim k [ ]
  Memᴰ-append_left (y ∷ xs) ys x (Memᴰ.head e) = Memᴰ.head e
  Memᴰ-append_left (y ∷ xs) ys x (Memᴰ.tail k) = Memᴰ.tail (Memᴰ-append_left xs ys x k)

  pub Memᴰ-append_right : (xs ys : List A) (x : A) → Memᴰ x ys → Memᴰ x (xs ++ ys)
  Memᴰ-append_right [] ys x k = k
  Memᴰ-append_right (y ∷ xs) ys x k = Memᴰ.tail (Memᴰ-append_right xs ys x k)
