-- ===== src/Names/Scan.antt =====
-- What a regular expression such as `[a-z]+` takes off the front of a text.
use metatroni.Prelude.{
  ℕ, ◌≡◌, refl, ◌≤◌, Bool, true, false, [], ◌∷◌, ◌++◌, arith, length, if◌then◌else◌, Bool-cases,
  inl, inr,
}
use metatroni.Names.{Name}

-- The longest prefix of characters that pass the test, and the rest.
unfoldable pub span : (ℕ → Bool) → Name → Name × Name
span p [] = ([], [])
span p (c ∷ s) = let rest = span p s in if p c then (c ∷ rest.0, rest.1) else ([], c ∷ s)

abbrev pub AllOf : (ℕ → Bool) → Name → Type 0
AllOf p [] = Unit {0}
AllOf p (c ∷ s) = (p c ≡ true) × AllOf p s

-- The text does not begin with such a character.
abbrev pub StopsAt : (ℕ → Bool) → Name → Type 0
StopsAt p [] = Unit {0}
StopsAt p (c ∷ s) = p c ≡ false

span_stops : (p : ℕ → Bool) (r : Name) → StopsAt p r → span p r ≡ ([], r)
unfolding span
span_stops p [] h = refl
span_stops p (c ∷ r) h = rw h

pub span-append : (p : ℕ → Bool) (a r : Name) → AllOf p a → StopsAt p r → span p (a ++ r) ≡ (a, r)
unfolding span
span-append p [] r h k = span_stops p r k
span-append p (c ∷ a) r h k = rw (h.0, span-append p a r h.1 k)

-- The rest is no longer than the text.
pub length-span-le : (p : ℕ → Bool) (s : Name) → length (span p s).1 ≤ length s
unfolding span
length-span-le p [] = omega arith
length-span-le p (c ∷ s) = elim (Bool-cases (p c)) [
  | inl pass ↦ rw pass (omega (arith, length-span-le p s))
  | inr stop ↦ rw stop (omega arith)
]

pub AllOf-append : (p : ℕ → Bool) (a b : Name) → AllOf p a → AllOf p b → AllOf p (a ++ b)
AllOf-append p [] b h k = k
AllOf-append p (c ∷ a) b h k = (h.0, AllOf-append p a b h.1 k)
