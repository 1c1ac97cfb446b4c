-- ===== src/Names/Text.antt =====
-- `str.split`, `str.join` and `str.strip` of Python on texts, as the program uses them.
use metatroni.Prelude.{
  ℕ, ◌≡◌, refl, ap, ◌∙◌, Bool, true, false, ◌&&◌, ◌||◌, List, [], ◌∷◌, ◌++◌, map, arith, leb, ltb,
  ◌==◌, if◌then◌else◌, Bool-cases, inl, inr,
}
use mathlib.Core.List.{reverse, reverse_aux}
use metatroni.Names.{Name, lower, lower_code}

cons_head : ℕ → List Name → List Name
cons_head c [] = (c ∷ []) ∷ []
cons_head c (w ∷ ws) = (c ∷ w) ∷ ws

-- `s.split(sep)` for a separator of one character.
unfoldable pub split_on : ℕ → Name → List Name
unfolding cons_head
split_on sep [] = [] ∷ []
split_on sep (c ∷ s) = let rest = split_on sep s in if c == sep then [] ∷ rest else cons_head c rest

-- `sep.join(ws)`
unfoldable pub join : ℕ → List Name → Name
join sep [] = []
join sep (w ∷ []) = w
join sep (w ∷ v ∷ ws) = w ++ (sep ∷ join sep (v ∷ ws))

-- `c.isspace()`, for what `strip` removes.
unfoldable pub is_space : ℕ → Bool
is_space c =
    (leb 9 c && leb c 13)
    || (leb 28 c && leb c 32)
    || c == 0x85
    || c == 0xa0
    || c == 0x1680
    || (leb 0x2000 c && leb c 0x200a)
    || c == 0x2028
    || c == 0x2029
    || c == 0x202f
    || c == 0x205f
    || c == 0x3000

unfoldable pub strip_left : Name → Name
unfolding is_space
strip_left [] = []
strip_left (c ∷ s) = let rest = strip_left s in if is_space c then rest else c ∷ s

-- `s.strip()`
unfoldable pub strip : Name → Name
unfolding strip_left
strip s = reverse (strip_left (reverse (strip_left s)))

-- No separator stands in the text.
unfoldable pub has_code : ℕ → Name → Bool
has_code sep [] = false
has_code sep (c ∷ s) = c == sep || has_code sep s

abbrev pub Separate : ℕ → List Name → Type 0
Separate sep [] = Unit {0}
Separate sep (w ∷ ws) = (has_code sep w ≡ false) × Separate sep ws

or_false : (a b : Bool) → (a || b) ≡ false → (a ≡ false) × (b ≡ false)
or_false a b h = ground arith

-- There is always a first part.
split_on-cons : (sep : ℕ) (s : Name) → (w : Name) × (ws : List Name) × (split_on sep s ≡ w ∷ ws)
unfolding split_on
split_on-cons sep [] = ([], [], refl)
split_on-cons sep (c ∷ s) =
    let (w, ws, e) = split_on-cons sep s in
    elim (Bool-cases (c == sep)) [
      | inl here ↦ ([], split_on sep s, rw here)
      | inr other ↦ (c ∷ w, ws, rw (other, e))
    ]

cons_head-append :
    (c : ℕ) (ls : List Name) (w : Name) (ws us : List Name)
    → ls ≡ w ∷ ws
    → cons_head c (ls ++ us) ≡ cons_head c ls ++ us
unfolding cons_head
cons_head-append c ls w ws us e = rw e

-- Splitting at a separator between two texts.
pub split_on-append :
    (sep : ℕ) (s t : Name) → split_on sep (s ++ (sep ∷ t)) ≡ split_on sep s ++ split_on sep t
unfolding split_on
split_on-append sep [] t = ground arith
split_on-append sep (c ∷ s) t =
    let (w, ws, e) = split_on-cons sep s in
    elim (Bool-cases (c == sep)) [
      | inl here ↦ rw (here, split_on-append sep s t)
      | inr other ↦
          rw (other, split_on-append sep s t)
            (cons_head-append c (split_on sep s) w ws (split_on sep t) e)
    ]

pub split_on_one : (sep : ℕ) (s : Name) → has_code sep s ≡ false → split_on sep s ≡ s ∷ []
unfolding split_on has_code
split_on_one sep [] h = refl
split_on_one sep (c ∷ s) h =
    let (here, rest) = or_false (c == sep) (has_code sep s) h in rw (here, split_on_one sep s rest)

-- A list of texts without the separator comes back from `join` and `split`.
pub split_on-join :
    (sep : ℕ) (w : Name) (ws : List Name)
    → Separate sep (w ∷ ws)
    → split_on sep (join sep (w ∷ ws)) ≡ w ∷ ws
unfolding join
split_on-join sep w [] h = split_on_one sep w h.0
split_on-join sep w (v ∷ ws) h =
    rw (split_on-append, split_on_one sep w h.0, split_on-join sep v ws h.1)

-- `lower` moves no character across a separator that is no letter.
lower_code_sep : (c sep : ℕ) → ltb sep b'A' ≡ true → (lower_code c == sep) ≡ (c == sep)
unfolding lower_code
lower_code_sep c sep h = ground arith

cons_head-lower :
    (c : ℕ) (ls : List Name) (w : Name) (ws : List Name)
    → ls ≡ w ∷ ws
    → cons_head (lower_code c) (map lower ls) ≡ map lower (cons_head c ls)
unfolding cons_head lower
cons_head-lower c ls w ws e = rw e

pub split_on-lower :
    (sep : ℕ) (s : Name) → ltb sep b'A' ≡ true → split_on sep (lower s) ≡ map lower (split_on sep s)
unfolding split_on lower
split_on-lower sep [] h = refl
split_on-lower sep (c ∷ s) h =
    let (w, ws, e) = split_on-cons sep s in
    elim (Bool-cases (c == sep)) [
      | inl here ↦ rw (lower_code_sep c sep h, here, split_on-lower sep s h)
      | inr other ↦
          rw (lower_code_sep c sep h, other, split_on-lower sep s h)
            (cons_head-lower c (split_on sep s) w ws e)
    ]

pub is_space-lower_code : (c : ℕ) → is_space (lower_code c) ≡ is_space c
unfolding is_space lower_code
is_space-lower_code c = ground arith

pub strip_left-lower : (s : Name) → strip_left (lower s) ≡ lower (strip_left s)
unfolding strip_left lower
strip_left-lower [] = refl
strip_left-lower (c ∷ s) = elim (Bool-cases (is_space c)) [
  | inl space ↦ rw (is_space-lower_code, space, strip_left-lower s)
  | inr other ↦ rw (is_space-lower_code, other)
]

map-reverse_aux :
    (s t : Name)
    → reverse_aux (map lower_code s) (map lower_code t) ≡ map lower_code (reverse_aux s t)
map-reverse_aux [] t = refl
map-reverse_aux (c ∷ s) t = map-reverse_aux s (c ∷ t)

reverse-lower : (s : Name) → reverse (lower s) ≡ lower (reverse s)
unfolding lower
reverse-lower s = map-reverse_aux s []

pub strip-lower : (s : Name) → strip (lower s) ≡ lower (strip s)
unfolding strip
strip-lower s =
    ap (λ t. reverse (strip_left t))
      (ap reverse (strip_left-lower s) ∙ reverse-lower (strip_left s))
    ∙ ap reverse (strip_left-lower (reverse (strip_left s)))
    ∙ reverse-lower (strip_left (reverse (strip_left s)))
