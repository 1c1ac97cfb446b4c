-- ===== src/Names/Decimal.antt =====
-- `str` and `int` of Python on numbers that are not negative.
use Prim.Native.Nat.{◌/◌, ◌%◌}
use metatroni.Prelude.{
  ℕ, zero, suc, ◌+◌, ◌-◌, ◌*◌, ◌≡◌, refl, ◌∙◌, ◌<◌, Bool, ◌&&◌, [], ◌∷◌, ◌++◌, arith, ltb, leb,
  if◌then◌else◌, Bool-cases, inl, inr,
}
use metatroni.Names.{Name}
use metatroni.Names.Scan.{AllOf, AllOf-append}

unfoldable pub is_digit : ℕ → Bool
is_digit c = leb b'0' c && leb c b'9'

-- The digits of a number; a number has fewer digits than the fuel, if it is below the fuel.
unfoldable pub digits : ℕ → ℕ → Name
digits zero n = []
digits (suc f) n =
    let rest = digits f (n / 10) in (if ltb n 10 then [] else rest) ++ ((b'0' + n % 10) ∷ [])

-- `str(n)`
unfoldable pub str : ℕ → Name
unfolding digits
str n = digits (suc n) n

unfoldable pub int_from : ℕ → Name → ℕ
int_from n [] = n
int_from n (c ∷ s) = int_from (n * 10 + (c - b'0')) s

-- `int(s)` of a text of digits
unfoldable pub int : Name → ℕ
unfolding int_from
int s = int_from 0 s

int_from-append : (n c : ℕ) (s : Name) → int_from n (s ++ (c ∷ [])) ≡ int_from n s * 10 + (c - b'0')
unfolding int_from
int_from-append n c [] = refl
int_from-append n c (d ∷ s) = int_from-append (n * 10 + (d - b'0')) c s

int_from-digits : (f n : ℕ) → n < f → int_from 0 (digits f n) ≡ n
unfolding digits
int_from-digits zero n h = absurd (omega arith)
int_from-digits (suc f) n h = elim (Bool-cases (ltb n 10)) [
  | inl small ↦ rw small (unfold int_from in ground (arith, small))
  | inr large ↦ rw large (
      int_from-append 0 (b'0' + n % 10) (digits f (n / 10))
      ∙ ground (arith, large, int_from-digits f (n / 10)))
]

-- The digits of a number read back as the number.
pub int-str : (n : ℕ) → int (str n) ≡ n
unfolding int str
int-str n = int_from-digits (suc n) n (omega arith)

digits_all : (f n : ℕ) → AllOf is_digit (digits f n)
unfolding digits is_digit
digits_all zero n = tt
digits_all (suc f) n = elim (Bool-cases (ltb n 10)) [
  | inl small ↦ rw small (ground arith, tt)
  | inr large ↦
      rw large
        (AllOf-append is_digit (digits f (n / 10)) _ (digits_all f (n / 10)) (ground arith, tt))
]

pub str_all : (n : ℕ) → AllOf is_digit (str n)
unfolding str
str_all n = digits_all (suc n) n

-- It begins with a digit.
snoc-cons : (s : Name) (c : ℕ) → (d : ℕ) × (r : Name) × (s ++ (c ∷ []) ≡ d ∷ r)
snoc-cons [] c = (c, [], refl)
snoc-cons (d ∷ s) c = (d, s ++ (c ∷ []), refl)

pub str-cons : (n : ℕ) → (d : ℕ) × (r : Name) × (str n ≡ d ∷ r)
unfolding str digits
str-cons n = snoc-cons (if ltb n 10 then [] else digits n (n / 10)) (b'0' + n % 10)
