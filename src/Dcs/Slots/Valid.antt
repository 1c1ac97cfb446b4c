-- ===== src/Dcs/Slots/Valid.antt =====
-- The slot names that `slot_name_from_member_name` of patroni/dcs/__init__.py gives.
use metatroni.Prelude.{
  ℕ, zero, suc, ◌-◌, refl, ◌≤◌, [], ◌∷◌, arith, ◌==◌, ◌||◌, length, take, length-take-le,
  length-append, Bool-cases, inl, inr,
}
use metatroni.Names.{Name}
use metatroni.Names.Scan.{AllOf, AllOf-append}
use metatroni.Names.Decimal.{str, is_digit, str_all}
use metatroni.Dcs.Slots.{
  is_slot_code, pad_zeros, replace_char, replace_chars, slot_name_from_member_name,
}

-- What PostgreSQL takes for the name of a slot.
pub record IsSlotName (s : Name) : Type 0 where
  pub codes : AllOf is_slot_code s
  pub some_code : 1 ≤ length s
  pub fits : length s ≤ 63

digits_AllOf : (s : Name) → AllOf is_digit s → AllOf is_slot_code s
unfolding is_slot_code
digits_AllOf [] h = tt
digits_AllOf (c ∷ s) h = (rw h.0 (ground arith), digits_AllOf s h.1)

take-AllOf : (n : ℕ) (s : Name) → AllOf is_slot_code s → AllOf is_slot_code (take n s)
take-AllOf zero s h = tt
take-AllOf (suc n) [] h = tt
take-AllOf (suc n) (c ∷ s) h = (h.0, take-AllOf n s h.1)

pad_zeros-AllOf : (n : ℕ) (s : Name) → AllOf is_slot_code s → AllOf is_slot_code (pad_zeros n s)
unfolding pad_zeros is_slot_code is_digit
pad_zeros-AllOf zero s h = h
pad_zeros-AllOf (suc n) s h = (refl, pad_zeros-AllOf n s h)

replace_char-AllOf : (c : ℕ) → AllOf is_slot_code (replace_char c)
unfolding replace_char is_slot_code is_digit
replace_char-AllOf c = elim (Bool-cases (c == b'-' || c == b'.')) [
  | inl sep ↦ rw sep (refl, tt)
  | inr other ↦
      rw other
        (refl, pad_zeros-AllOf (4 - length (str c)) (str c) (digits_AllOf (str c) (str_all c)))
]

length-replace_char : (c : ℕ) → 1 ≤ length (replace_char c)
unfolding replace_char
length-replace_char c = elim (Bool-cases (c == b'-' || c == b'.')) [
  | inl sep ↦ rw sep (omega arith)
  | inr other ↦ rw other (omega arith)
]

replace_chars-AllOf : (s : Name) → AllOf is_slot_code (replace_chars s)
unfolding replace_chars
replace_chars-AllOf [] = tt
replace_chars-AllOf (c ∷ s) = elim (Bool-cases (is_slot_code c)) [
  | inl kept ↦ rw kept (kept, replace_chars-AllOf s)
  | inr other ↦ rw other (
      AllOf-append is_slot_code (replace_char c) (replace_chars s) (replace_char-AllOf c)
        (replace_chars-AllOf s))
]

length-replace_chars : (s : Name) → 1 ≤ length s → 1 ≤ length (replace_chars s)
unfolding replace_chars
length-replace_chars [] h = h
length-replace_chars (c ∷ s) h = elim (Bool-cases (is_slot_code c)) [
  | inl kept ↦ rw kept (omega arith)
  | inr other ↦
      rw (other, length-append (replace_char c) (replace_chars s))
        (omega (arith, length-replace_char c))
]

length-take-some : (n : ℕ) (s : Name) → 1 ≤ length s → 1 ≤ length (take (suc n) s)
length-take-some n [] h = h
length-take-some n (c ∷ s) h = omega arith

-- The slot name of a member whose name in lower case is not empty has from 1 to 63 characters,
-- all of them lower case letters of ASCII, digits and underscores.
pub slot_name_from_member_name-IsSlotName :
    (str_lower : Name → Name) (member_name : Name)
    → 1 ≤ length (str_lower member_name)
    → IsSlotName (slot_name_from_member_name str_lower member_name)
unfolding slot_name_from_member_name
slot_name_from_member_name-IsSlotName str_lower member_name h =
    let s = replace_chars (str_lower member_name) in
    record {
      codes = take-AllOf 63 s (replace_chars-AllOf (str_lower member_name));
      some_code = length-take-some 62 s (length-replace_chars (str_lower member_name) h);
      fits = length-take-le 63 s;
    }
