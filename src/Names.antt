-- ===== src/Names.antt =====
-- Texts as lists of code points, and Python's `==`, `<` and `lower` on them. `lower` maps the
-- letters A to Z; the names that the program compares without case are ASCII.
pub mod Text
pub mod Scan
pub mod Decimal
use Prim.Native.Char.{code}
use Prim.Native.String.{String}
use metatroni.Prelude.{
  ℕ, ◌+◌, ◌≡◌, refl, sym, ◌∙◌, Bool, true, false, ◌&&◌, List, [], ◌∷◌, map, arith, ltb, leb, ◌==◌,
  if◌then◌else◌,
}

abbrev pub Name : Type 0
Name = List ℕ

-- A literal as a name.
abbrev pub name : String → Name
name String.[] = []
name (String.◌∷◌ c s) = code c ∷ name s

-- `a == b`
unfoldable pub name_eq : Name → Name → Bool
name_eq [] [] = true
name_eq [] (d ∷ b) = false
name_eq (c ∷ a) [] = false
name_eq (c ∷ a) (d ∷ b) = c == d && name_eq a b

-- `a <= b`
unfoldable pub name_le : Name → Name → Bool
name_le [] b = true
name_le (c ∷ a) [] = false
name_le (c ∷ a) (d ∷ b) = let rest = name_le a b in if c == d then rest else ltb c d

unfoldable pub lower_code : ℕ → ℕ
lower_code c = if leb b'A' c && leb c b'Z' then c + 32 else c

-- `a.lower()`
unfoldable pub lower : Name → Name
unfolding lower_code
lower = map lower_code

-- Two names that a case-insensitive container takes for one.
unfoldable pub same : Name → Name → Bool
unfolding name_eq lower
same a b = name_eq (lower a) (lower b)

pub name_eq→eq : (a b : Name) → name_eq a b ≡ true → a ≡ b
unfolding name_eq
name_eq→eq [] [] h = refl
name_eq→eq [] (d ∷ b) h = cc
name_eq→eq (c ∷ a) [] h = cc
name_eq→eq (c ∷ a) (d ∷ b) h = ground (arith, name_eq→eq a b)

pub name_eq_refl : (a : Name) → name_eq a a ≡ true
unfolding name_eq
name_eq_refl [] = refl
name_eq_refl (c ∷ a) = ground (arith, name_eq_refl a)

pub eq→name_eq : (a b : Name) → a ≡ b → name_eq a b ≡ true
eq→name_eq a b h = rw h (name_eq_refl b)

same→eq : (a b : Name) → same a b ≡ true → lower a ≡ lower b
unfolding same
same→eq a b = unfold same in name_eq→eq (lower a) (lower b)

pub same_refl : (a : Name) → same a a ≡ true
unfolding same
same_refl a = name_eq_refl (lower a)

pub same_sym : (a b : Name) → same a b ≡ true → same b a ≡ true
unfolding same
same_sym a b h = eq→name_eq (lower b) (lower a) (sym (name_eq→eq (lower a) (lower b) h))

pub same_trans : (a b c : Name) → same a b ≡ true → same b c ≡ true → same a c ≡ true
unfolding same
same_trans a b c h k =
    eq→name_eq (lower a) (lower c)
      (name_eq→eq (lower a) (lower b) h ∙ name_eq→eq (lower b) (lower c) k)

-- Lowering twice is lowering once, so a name and its lowered form are one to the containers.
lower_code_idem : (c : ℕ) → lower_code (lower_code c) ≡ lower_code c
unfolding lower_code
lower_code_idem c = ground arith

pub lower_idem : (a : Name) → lower (lower a) ≡ lower a
unfolding lower
lower_idem [] = refl
lower_idem (c ∷ a) = cc (lower_code_idem c, lower_idem a)
