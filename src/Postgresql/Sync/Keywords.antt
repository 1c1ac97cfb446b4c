-- ===== src/Postgresql/Sync/Keywords.antt =====
-- Names that begin like the keywords `FIRST` and `ANY` in the value of `synchronous_standby_names`
-- (patroni/postgresql/sync.py).
use metatroni.Prelude.{
  ◌⊎◌, ℕ, zero, suc, ◌≡◌, refl, ◌∙◌, ap, Bool, true, false, List, [], ◌∷◌, Option, none, some,
  arith, ◌==◌, take, length, Bool-cases, Option-cases, inl, inr, ==_iff, map,
}
use metatroni.Names.{Name, name, name_eq, lower, lower_code, eq→name_eq}
use metatroni.Names.Text.{has_code, is_space}
use metatroni.Names.Scan.{span, AllOf}
use metatroni.Names.Decimal.{is_digit}
use metatroni.Postgresql.Sync.Lexer.{
  Kind, Token, is_ident, is_ident_start, keyword, lex, lex_other, lex_one, tokens, tokens-cons,
  add_token, token,
}
use metatroni.Postgresql.Sync.Parser.{
  SyncType, standby, read_names, read_list, counted, is_num, is_parenstart, is_comma, with_name,
  header_of, header, parse_tokens, parse_sync_standby_names,
}
use metatroni.Postgresql.Sync.Writer.{is_simple, quote_standby_name}
use metatroni.Postgresql.Sync.Names.{is_bare, begins_keyword, simple_parts}

-- Neither a comma nor a parenthesis.
abbrev is_plain : Kind → Bool
is_plain Kind.comma = false
is_plain Kind.parenstart = false
is_plain Kind.parenend = false
is_plain _ = true

abbrev AllPlain : List Token → Type 0
AllPlain [] = Unit {0}
AllPlain (t ∷ ts) = (is_plain t.kind ≡ true) × AllPlain ts

some-none : (t : Name) → none ≡ some t → ⊥
some-none t e = absurd (cc)

keyword-AllOf : (ks s r : Name) → AllOf is_ident s → keyword ks s ≡ some r → AllOf is_ident r
unfolding keyword
keyword-AllOf [] s r a h = let e : r ≡ s = cc in rw e a
keyword-AllOf (k ∷ ks) [] r a h = absurd (cc)
keyword-AllOf (k ∷ ks) (c ∷ s) r a h = elim (Bool-cases (lower_code c == k)) [
  | inl letter ↦ keyword-AllOf ks s r a.1 (rw letter at h)
  | inr other ↦ absurd (some-none r (rw other at h))
]

span-AllOf : (p : ℕ → Bool) (s : Name) → AllOf is_ident s → AllOf is_ident (span p s).1
unfolding span
span-AllOf p [] a = tt
span-AllOf p (c ∷ s) a = elim (Bool-cases (p c)) [
  | inl inside ↦ rw inside (span-AllOf p s a.1)
  | inr outside ↦ rw outside a
]

-- A match in a text of the characters of names.
abbrev IsPlain : Option Token × Name → Type 0
IsPlain (o, r) = (t : Token) × (o ≡ some t) × (is_plain t.kind ≡ true) × AllOf is_ident r

plain_space : (c : ℕ) → is_ident c ≡ true → is_space c ≡ false
unfolding is_ident is_ident_start is_digit is_space
plain_space c h = ground (arith, h)

digit_tests : (c : ℕ) → is_digit c ≡ true → ((c == b'"') ≡ false) × ((c == b'*') ≡ false)
unfolding is_digit
digit_tests c h = ground (arith, h)

dollar_eq : (c : ℕ) → is_ident c ≡ true → is_ident_start c ≡ false → is_digit c ≡ false → c ≡ b'$'
unfolding is_ident
dollar_eq c h k l = ground (arith, h, k, l)

dollar-IsPlain : (s : Name) → AllOf is_ident s → IsPlain (lex_other b'$' s)
unfolding lex_other is_space is_ident_start is_digit
dollar-IsPlain s a = (_, refl, refl, a)

lex_other-IsPlain : (c : ℕ) (s : Name) → AllOf is_ident (c ∷ s) → IsPlain (lex_other c s)
unfolding lex_other
lex_other-IsPlain c s a = elim (Bool-cases (is_ident_start c)) [
  | inl letter ↦
      rw (lex_other, plain_space c a.0, letter) (_, refl, refl, span-AllOf is_ident s a.1)
  | inr other ↦ elim (Bool-cases (is_digit c)) [
    | inl digit ↦
        rw
          (
            lex_other,
            plain_space c a.0,
            other,
            (digit_tests c digit).0,
            (digit_tests c digit).1,
            digit,
          )
          (_, refl, refl, span-AllOf is_digit s a.1)
    | inr dollar ↦ rw (dollar_eq c a.0 other dollar) (dollar-IsPlain s a.1)
  ]
]

lex_one-IsPlain : (c : ℕ) (s : Name) → AllOf is_ident (c ∷ s) → IsPlain (lex_one c s)
unfolding lex_one
lex_one-IsPlain c s a = elim (Option-cases (keyword (name "first") (c ∷ s))) [
  | inr (r, e) ↦ rw (lex_one, e) (_, refl, refl, keyword-AllOf (name "first") (c ∷ s) r a e)
  | inl no_first ↦ elim (Option-cases (keyword (name "any") (c ∷ s))) [
    | inr (r, e) ↦
        rw (lex_one, no_first, e) (_, refl, refl, keyword-AllOf (name "any") (c ∷ s) r a e)
    | inl no_any ↦ rw (lex_one, no_first, no_any) (lex_other-IsPlain c s a)
  ]
]

lex-AllPlain : (f : ℕ) (s : Name) → AllOf is_ident s → AllPlain (lex f s)
unfolding lex
lex-AllPlain zero s a = tt
lex-AllPlain (suc f) [] a = tt
lex-AllPlain (suc f) (c ∷ s) a =
    let (t, e, plain, rest) = lex_one-IsPlain c s a in
    rw e (plain, lex-AllPlain f (lex_one c s).1 rest)

-- The keyword is the whole text.
keyword_whole : (ks s : Name) → keyword ks s ≡ some [] → lower s ≡ ks
unfolding keyword lower
keyword_whole [] s h = let e : s ≡ [] = cc in rw e refl
keyword_whole (k ∷ ks) [] h = absurd (cc)
keyword_whole (k ∷ ks) (c ∷ s) h = elim (Bool-cases (lower_code c == k)) [
  | inl letter ↦
      let e : lower_code c ≡ k = (==_iff (lower_code c) k).0 letter in
      ap (λ d. d ∷ map lower_code s) e ∙ ap (λ t. k ∷ t) (keyword_whole ks s (rw letter at h))
  | inr other ↦ absurd (some-none [] (rw other at h))
]

counted-none :
    (sync_type : SyncType) (u : Token) (us : List Token)
    → AllPlain us
    → counted sync_type (u ∷ us) ≡ none
unfolding counted
counted-none sync_type u [] h = refl
counted-none sync_type u (p ∷ us) h = elim (Bool-cases (is_num u.kind)) [
  | inl number ↦ rw (number, no_paren p.kind h.0) refl
  | inr other ↦ rw other refl
]
  where
    no_paren : (kind : Kind) → is_plain kind ≡ true → is_parenstart kind ≡ false
    no_paren Kind.parenstart k = absurd (cc)
    no_paren Kind.first k = refl
    no_paren Kind.any k = refl
    no_paren Kind.ident k = refl
    no_paren Kind.dquot k = refl
    no_paren Kind.star k = refl
    no_paren Kind.num k = refl
    no_paren Kind.comma k = refl
    no_paren Kind.parenend k = refl
    no_paren Kind.junk k = refl

-- The list is refused: no comma stands behind its first name.
read_names-none :
    (t u : Token) (us : List Token) (out : Bool × List Name)
    → is_plain u.kind ≡ true
    → read_names (t ∷ u ∷ us) out ≡ none
unfolding read_names
read_names-none t u [] out h = refl
read_names-none t u (v ∷ ts) out h = elim (Option-cases (with_name (standby t.kind t.value) out)) [
  | inl refused ↦ rw (read_names, refused) refl
  | inr (out', e) ↦ rw (read_names, e, no_comma u.kind h) refl
]
  where
    no_comma : (kind : Kind) → is_plain kind ≡ true → is_comma kind ≡ false
    no_comma Kind.comma k = absurd (cc)
    no_comma Kind.first k = refl
    no_comma Kind.any k = refl
    no_comma Kind.ident k = refl
    no_comma Kind.dquot k = refl
    no_comma Kind.star k = refl
    no_comma Kind.num k = refl
    no_comma Kind.parenstart k = refl
    no_comma Kind.parenend k = refl
    no_comma Kind.junk k = refl

read_list-none :
    (t u : Token) (us : List Token)
    → is_plain u.kind ≡ true
    → read_list (SyncType.priority, 1, t ∷ u ∷ us) ≡ none
unfolding read_list
read_list-none t u us h = rw (read_list, read_names-none t u us (false, []) h) refl

-- `FIRST` with the characters of a name behind it is refused, and so is `ANY`.
first_refused :
    (value : Name) (u : Token) (us : List Token)
    → AllPlain (u ∷ us)
    → parse_tokens (record { kind = Kind.first; value = value } ∷ u ∷ us) ≡ none
unfolding parse_tokens
first_refused value u us h =
    ap read_list alone ∙ read_list-none (record { kind = Kind.first; value = value }) u us h.0
  where
    alone :
        header (record { kind = Kind.first; value = value }) (u ∷ us)
        ≡ (SyncType.priority, 1, record { kind = Kind.first; value = value } ∷ u ∷ us)
    alone = unfold header header_of in rw (header, counted-none SyncType.priority u us h.1) refl

any_refused :
    (value : Name) (u : Token) (us : List Token)
    → AllPlain (u ∷ us)
    → parse_tokens (record { kind = Kind.any; value = value } ∷ u ∷ us) ≡ none
unfolding parse_tokens
any_refused value u us h =
    ap read_list alone ∙ read_list-none (record { kind = Kind.any; value = value }) u us h.0
  where
    alone :
        header (record { kind = Kind.any; value = value }) (u ∷ us)
        ≡ (SyncType.priority, 1, record { kind = Kind.any; value = value } ∷ u ∷ us)
    alone = unfold header header_of in rw (header, counted-none SyncType.quorum u us h.1) refl

-- Something is matched in what follows the keyword.
tokens_plain :
    (r : Name)
    → AllOf is_ident r
    → (r ≡ [] → ⊥)
    → (u : Token) × (us : List Token) × (tokens r ≡ u ∷ us) × AllPlain (u ∷ us)
unfolding tokens lex
tokens_plain [] a h = absurd (h refl)
tokens_plain (c ∷ r) a h =
    let (t, e, plain, rest) = lex_one-IsPlain c r a in
    (
      t,
      _,
      ap (λ o. add_token o (lex (length r) (lex_one c r).1)) e,
      (plain, lex-AllPlain (length r) (lex_one c r).1 rest),
    )

-- The text is refused, if its first match is a keyword and not the whole text.
split_refused :
    (c : ℕ) (s value r : Name)
    → (lex_one c s ≡ (token Kind.first value, r)) ⊎ (lex_one c s ≡ (token Kind.any value, r))
    → AllOf is_ident r
    → (r ≡ [] → ⊥)
    → parse_sync_standby_names (c ∷ s) ≡ none
unfolding parse_sync_standby_names
split_refused c s value r (inl e) a h =
    let (u, us, text, plain) = tokens_plain r a h in
    ap parse_tokens (
      tokens-cons c s
      ∙ ap (λ m. add_token m.0 (tokens m.1)) e
      ∙ ap (λ ts. record { kind = Kind.first; value = value } ∷ ts) text)
    ∙ first_refused value u us plain
split_refused c s value r (inr e) a h =
    let (u, us, text, plain) = tokens_plain r a h in
    ap parse_tokens (
      tokens-cons c s
      ∙ ap (λ m. add_token m.0 (tokens m.1)) e
      ∙ ap (λ ts. record { kind = Kind.any; value = value } ∷ ts) text)
    ∙ any_refused value u us plain

-- A name that is written without quotes is not a keyword.
bare_no_keyword :
    (n : Name) → is_bare n ≡ true → (lower n ≡ name "first" → ⊥) × (lower n ≡ name "any" → ⊥)
unfolding is_bare
bare_no_keyword n h = (
  λ e. absurd (clash (eq→name_eq (lower n) (name "first") e)),
  λ e. absurd (clash' (eq→name_eq (lower n) (name "any") e)),
)
  where
    clash : name_eq (lower n) (name "first") ≡ true → ⊥
    clash e = ground (arith, h, e)

    clash' : name_eq (lower n) (name "any") ≡ true → ⊥
    clash' e = ground (arith, h, e)

keyword_refused :
    (c : ℕ) (s : Name)
    → is_bare (c ∷ s) ≡ true
    → AllOf is_ident (c ∷ s)
    → begins_keyword (c ∷ s) ≡ true
    → parse_sync_standby_names (c ∷ s) ≡ none
unfolding begins_keyword
keyword_refused c s h a b = elim (Option-cases (keyword (name "first") (c ∷ s))) [
  | inr (r, e) ↦
      split_refused c s (take 5 (c ∷ s)) r (inl (unfold lex_one in rw (lex_one, e) refl))
        (keyword-AllOf (name "first") (c ∷ s) r a e)
        (λ z. (bare_no_keyword (c ∷ s) h).0 (keyword_whole (name "first") (c ∷ s) (e ∙ ap some z)))
  | inl no_first ↦ elim (Option-cases (keyword (name "any") (c ∷ s))) [
    | inr (r, e) ↦
        split_refused c s (take 3 (c ∷ s)) r
          (inr (unfold lex_one in rw (lex_one, no_first, e) refl))
          (keyword-AllOf (name "any") (c ∷ s) r a e)
          (λ z. (bare_no_keyword (c ∷ s) h).1 (keyword_whole (name "any") (c ∷ s) (e ∙ ap some z)))
    | inl no_any ↦ absurd (neither (rw (no_first, no_any) at b))
  ]
]
  where
    neither : false ≡ true → ⊥
    neither z = absurd (cc)

quote_standby_name_bare : (n : Name) → is_bare n ≡ true → quote_standby_name n ≡ n
unfolding quote_standby_name is_bare
quote_standby_name_bare n h = rw h refl

bare_refused :
    (n : Name)
    → is_bare n ≡ true
    → has_code b'\n' n ≡ false
    → begins_keyword n ≡ true
    → parse_sync_standby_names n ≡ none
bare_refused [] h k b = absurd (unfold is_bare is_simple in cc)
bare_refused (c ∷ s) h k b =
    let parts = simple_parts c s h k in
    keyword_refused c s h (unfold is_ident in ground (arith, parts.0), parts.1) b

-- A name that is written without quotes and begins with `first` or `any`, in any case, is
-- refused where it is read back.
pub parse_sync_standby_names-quote_standby_name :
    (n : Name)
    → is_bare n ≡ true
    → has_code b'\n' n ≡ false
    → begins_keyword n ≡ true
    → parse_sync_standby_names (quote_standby_name n) ≡ none
parse_sync_standby_names-quote_standby_name n h k b =
    ap parse_sync_standby_names (quote_standby_name_bare n h) ∙ bare_refused n h k b
