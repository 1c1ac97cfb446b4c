-- ===== src/Postgresql/Sync/Lexer.antt =====
-- `SYNC_REP_PARSER_RE.finditer` of patroni/postgresql/sync.py: the tokens of a value of
-- `synchronous_standby_names`, the white space left out. Letters and digits are those of ASCII.
use metatroni.Prelude.{
  ℕ, zero, suc, ◌≡◌, refl, ap, ◌≤◌, Bool, ◌&&◌, ◌||◌, List, [], ◌∷◌, ◌++◌, Option, none, some,
  arith, leb, ◌==◌, if◌then◌else◌, length, take, Bool-cases, Option-cases, inl, inr,
}
use metatroni.Names.{Name, name, lower_code}
use metatroni.Names.Text.{is_space}
use metatroni.Names.Scan.{span, length-span-le}
use metatroni.Names.Decimal.{is_digit}

pub data Kind : Type 0 where
  first any ident dquot star num comma parenstart parenend junk : Kind

-- `m.lastgroup` and `m.group(0)`
pub record Token : Type 0 where
  pub kind : Kind
  pub value : Name

-- `[A-Za-z_]`
unfoldable pub is_ident_start : ℕ → Bool
is_ident_start c = (leb b'A' c && leb c b'Z') || (leb b'a' c && leb c b'z') || c == b'_'

-- `[A-Za-z_0-9\$]`
unfoldable pub is_ident : ℕ → Bool
unfolding is_ident_start is_digit
is_ident c = is_ident_start c || is_digit c || c == b'$'

-- `[fF][iI][rR][sS][tT]` for a word in lower case: what follows the word.
unfoldable pub keyword : Name → Name → Option Name
keyword [] s = some s
keyword (k ∷ ks) [] = none
keyword (k ∷ ks) (c ∷ s) = let rest = keyword ks s in if lower_code c == k then rest else none

-- `(?: [^"]+ | "" )* "`: the quoted text and what follows it. The last pair of quotes is given up
-- where no other quote closes the text.
unfoldable pub quoted : Name → Option (Name × Name)
quoted [] = none
quoted (c ∷ []) = if c == b'"' then some ([], []) else none
quoted (c ∷ d ∷ s) =
    let further = quoted (d ∷ s) in
    let after_pair = quoted s in
    if c == b'"'
    then (if d == b'"'
        then elim after_pair [ none ↦ some ([], d ∷ s) | some (v, r) ↦ some (b'"' ∷ b'"' ∷ v, r) ]
        else some ([], d ∷ s))
    else elim further [ none ↦ none | some (v, r) ↦ some (c ∷ v, r) ]

abbrev pub token : Kind → Name → Option Token
token kind value = some (record { kind = kind; value = value })

-- A match that begins with neither keyword; `none` is white space.
unfoldable pub lex_other : ℕ → Name → Option Token × Name
lex_other c s =
    if is_space c
    then (none, (span is_space s).1)
    else if is_ident_start c
    then (token Kind.ident (c ∷ (span is_ident s).0), (span is_ident s).1)
    else if c == b'"'
    then elim (quoted s) [
      | none ↦ (token Kind.junk (c ∷ []), s)
      | some (v, r) ↦ (token Kind.dquot (c ∷ (v ++ (b'"' ∷ []))), r)
    ]
    else if c == b'*'
    then (token Kind.star (c ∷ []), s)
    else if is_digit c
    then (token Kind.num (c ∷ (span is_digit s).0), (span is_digit s).1)
    else if c == b','
    then (token Kind.comma (c ∷ []), s)
    else if c == b'('
    then (token Kind.parenstart (c ∷ []), s)
    else if c == b')'
    then (token Kind.parenend (c ∷ []), s)
    else (token Kind.junk (c ∷ []), s)

-- One match, in the order of the alternatives.
unfoldable pub lex_one : ℕ → Name → Option Token × Name
lex_one c s = elim (keyword (name "first") (c ∷ s)) [
  | some r ↦ (token Kind.first (take 5 (c ∷ s)), r)
  | none ↦ elim (keyword (name "any") (c ∷ s)) [
    | some r ↦ (token Kind.any (take 3 (c ∷ s)), r)
    | none ↦ lex_other c s
  ]
]

abbrev pub add_token : Option Token → List Token → List Token
add_token none ts = ts
add_token (some t) ts = t ∷ ts

-- The matches one after another. Each takes a character at least, so the length is enough fuel.
unfoldable pub lex : ℕ → Name → List Token
lex zero s = []
lex (suc f) [] = []
lex (suc f) (c ∷ s) = let rest = lex f (lex_one c s).1 in add_token (lex_one c s).0 rest

unfoldable pub tokens : Name → List Token
tokens s = lex (length s) s

length-keyword : (ks s r : Name) → keyword ks s ≡ some r → length r ≤ length s
unfolding keyword
length-keyword [] s r h = ground arith
length-keyword (k ∷ ks) [] r h = absurd (cc)
length-keyword (k ∷ ks) (c ∷ s) r h = ground (arith, length-keyword ks s r)

length-keyword_word :
    (k c : ℕ) (ks s r : Name) → keyword (k ∷ ks) (c ∷ s) ≡ some r → length r ≤ length s
unfolding keyword
length-keyword_word k c ks s r h = ground (arith, length-keyword ks s r)

-- The rest of a match is no longer than that.
abbrev Within : ℕ → Option (Name × Name) → Type 0
Within n none = Unit {0}
Within n (some (v, r)) = length r ≤ n

quoted-Within : (s : Name) → Within (length s) (quoted s)
unfolding quoted
quoted-Within [] = tt
quoted-Within (c ∷ []) = elim (Bool-cases (c == b'"')) [
  | inl quote ↦ rw quote (omega arith)
  | inr other ↦ rw other tt
]
quoted-Within (c ∷ d ∷ s) = elim (Bool-cases (c == b'"')) [
  | inr other ↦ elim (Option-cases (quoted (d ∷ s))) [
    | inl open_end ↦ rw (other, open_end) tt
    | inr ((v, r), e) ↦
        let h : length r ≤ length (d ∷ s) = rw e at (quoted-Within (d ∷ s)) in
        rw (other, e) (omega arith)
  ]
  | inl quote ↦ elim (Bool-cases (d == b'"')) [
    | inr other ↦ rw (quote, other) (omega arith)
    | inl pair ↦ elim (Option-cases (quoted s)) [
      | inl open_end ↦ rw (quote, pair, open_end) (omega arith)
      | inr ((v, r), e) ↦
          let h : length r ≤ length s = rw e at (quoted-Within s) in
          rw (quote, pair, e) (omega arith)
    ]
  ]
]

length-lex_other : (c : ℕ) (s : Name) → length (lex_other c s).1 ≤ length s
unfolding lex_other
length-lex_other c s = elim (Option-cases (quoted s)) [
  | inl open_end ↦ ground (arith, open_end, spaces, idents, numbers)
  | inr ((v, r), e) ↦
      let h : length r ≤ length s = rw e at (quoted-Within s) in
      ground (arith, e, h, spaces, idents, numbers)
]
  where
    spaces : length (span is_space s).1 ≤ length s
    spaces = length-span-le is_space s

    idents : length (span is_ident s).1 ≤ length s
    idents = length-span-le is_ident s

    numbers : length (span is_digit s).1 ≤ length s
    numbers = length-span-le is_digit s

length-lex_one : (c : ℕ) (s : Name) → length (lex_one c s).1 ≤ length s
unfolding lex_one
length-lex_one c s = elim (Option-cases (keyword (name "first") (c ∷ s))) [
  | inr (r, e) ↦ rw (lex_one, e) (length-keyword_word b'f' c (name "irst") s r e)
  | inl no_first ↦ elim (Option-cases (keyword (name "any") (c ∷ s))) [
    | inr (r, e) ↦ rw (lex_one, no_first, e) (length-keyword_word b'a' c (name "ny") s r e)
    | inl no_any ↦ rw (lex_one, no_first, no_any) (length-lex_other c s)
  ]
]

lex_enough : (f g : ℕ) (s : Name) → length s ≤ f → length s ≤ g → lex f s ≡ lex g s
unfolding lex
lex_enough zero zero s h k = refl
lex_enough zero (suc g) [] h k = refl
lex_enough zero (suc g) (c ∷ s) h k = absurd (omega arith)
lex_enough (suc f) zero [] h k = refl
lex_enough (suc f) zero (c ∷ s) h k = absurd (omega arith)
lex_enough (suc f) (suc g) [] h k = refl
lex_enough (suc f) (suc g) (c ∷ s) h k = ap (add_token (lex_one c s).0) (
    lex_enough f g (lex_one c s).1 (omega (arith, length-lex_one c s))
      (omega (arith, length-lex_one c s)))

-- The tokens of a text are that of the first match, and those of what follows it.
pub tokens-cons :
    (c : ℕ) (s : Name) → tokens (c ∷ s) ≡ add_token (lex_one c s).0 (tokens (lex_one c s).1)
unfolding tokens lex
tokens-cons c s = ap (add_token (lex_one c s).0) (
    lex_enough (length s) (length (lex_one c s).1) (lex_one c s).1 (length-lex_one c s)
      (omega arith))
