-- ===== src/Postgresql/Sync/Names.antt =====
-- How a name that `quote_standby_name` wrote is read back (patroni/postgresql/sync.py).
use metatroni.Prelude.{
  ℕ, ◌≡◌, refl, ◌∙◌, ap, Bool, true, false, not, ◌&&◌, ◌||◌, [], ◌∷◌, ◌++◌, Option, none, some,
  arith, leb, ◌==◌, Bool-cases, Option-cases, inl, inr, append-snoc, &&_split, ==_iff,
}
use metatroni.Names.{Name, name, name_eq, lower, lower_code}
use metatroni.Names.Text.{has_code, is_space}
use metatroni.Names.Scan.{span, span-append, AllOf, StopsAt}
use metatroni.Names.Decimal.{is_digit}
use metatroni.Postgresql.Sync.Lexer.{
  Kind, Token, is_ident, is_ident_start, keyword, quoted, lex_other, lex_one, tokens, tokens-cons,
  add_token, token,
}
use metatroni.Postgresql.Sync.Parser.{standby, unquote, inner, drop_last}
use metatroni.Postgresql.Sync.Writer.{
  at_end, is_simple, double_quotes, quote_ident, quote_standby_name,
}

-- The text begins with the word, in any case.
abbrev pub is_found : Option Name → Bool
is_found none = false
is_found (some r) = true

unfoldable pub begins_keyword : Name → Bool
begins_keyword n = is_found (keyword (name "first") n) || is_found (keyword (name "any") n)

-- The name is written with no quotes.
unfoldable pub is_bare : Name → Bool
is_bare n = is_simple n && not (name_eq (lower n) (name "first") || name_eq (lower n) (name "any"))

-- What stands behind a name in the list: no character of a name, and no quote.
pub record Ends (r : Name) : Type 0 where
  pub stops : StopsAt is_ident r
  pub no_quote : StopsAt (λ c. c == b'"') r

keyword_head :
    (k c : ℕ) (ks s : Name) → (lower_code c == k) ≡ false → keyword (k ∷ ks) (c ∷ s) ≡ none
unfolding keyword
keyword_head k c ks s h = rw h

-- A word of letters does not reach into what follows a name.
keyword-append :
    (ks n r : Name)
    → AllOf (λ k. leb b'a' k && leb k b'z') ks
    → StopsAt is_ident r
    → keyword ks n ≡ none
    → keyword ks (n ++ r) ≡ none
unfolding keyword
keyword-append [] n r a s h = absurd (cc)
keyword-append (k ∷ ks) [] [] a s h = refl
keyword-append (k ∷ ks) [] (c ∷ r) a s h =
    unfold lower_code is_ident is_ident_start is_digit in ground (arith, a.0, s)
keyword-append (k ∷ ks) (c ∷ n) r a s h = ground (arith, keyword-append ks n r a.1 s)

simple_all :
    (s : Name) → at_end (span is_ident s).1 ≡ true → has_code b'\n' s ≡ false → AllOf is_ident s
unfolding span has_code
simple_all [] h k = tt
simple_all (c ∷ s) h k = elim (Bool-cases (is_ident c)) [
  | inl inside ↦ (inside, simple_all s (rw inside at h) (ground (arith, k)))
  | inr outside ↦ absurd (only_feed c s (rw outside at h) k)
]
  where
    only_feed : (d : ℕ) (t : Name) → at_end (d ∷ t) ≡ true → has_code b'\n' (d ∷ t) ≡ false → ⊥
    only_feed d [] a b = ground (arith, a, b)
    only_feed d (e ∷ t) a b = absurd (cc)

-- Behind a character that is no quote.
abbrev cons_quoted : ℕ → Option (Name × Name) → Option (Name × Name)
cons_quoted c none = none
cons_quoted c (some (v, r)) = some (c ∷ v, r)

quoted-cons : (c : ℕ) (s : Name) → (c == b'"') ≡ false → quoted (c ∷ s) ≡ cons_quoted c (quoted s)
unfolding quoted
quoted-cons c [] h = rw h
quoted-cons c (d ∷ s) h = ground (arith, h)

quoted-close : (r : Name) → StopsAt (λ c. c == b'"') r → quoted (b'"' ∷ r) ≡ some ([], r)
unfolding quoted
quoted-close [] h = refl
quoted-close (c ∷ r) h = rw h

-- Behind a pair of quotes.
abbrev after_pair : Name → Option (Name × Name) → Option (Name × Name)
after_pair s none = some ([], b'"' ∷ s)
after_pair s (some (v, r)) = some (b'"' ∷ b'"' ∷ v, r)

quoted_pair : (s : Name) → quoted (b'"' ∷ b'"' ∷ s) ≡ after_pair s (quoted s)
unfolding quoted
quoted_pair s = elim (Option-cases (quoted s)) [
  | inl open_end ↦ rw (quoted, open_end) refl
  | inr ((v, r), e) ↦ rw (quoted, e) refl
]

quoted-double_quotes :
    (n r : Name)
    → StopsAt (λ c. c == b'"') r
    → quoted (double_quotes n ++ (b'"' ∷ r)) ≡ some (double_quotes n, r)
unfolding double_quotes
quoted-double_quotes [] r h = quoted-close r h
quoted-double_quotes (c ∷ n) r h = elim (Bool-cases (c == b'"')) [
  | inl quote ↦ rw quote (
      quoted_pair (double_quotes n ++ (b'"' ∷ r))
      ∙ ap (after_pair (double_quotes n ++ (b'"' ∷ r))) (quoted-double_quotes n r h))
  | inr other ↦ rw other (
      quoted-cons c (double_quotes n ++ (b'"' ∷ r)) other
      ∙ ap (cons_quoted c) (quoted-double_quotes n r h))
]

unquote-cons : (c : ℕ) (s : Name) → (c == b'"') ≡ false → unquote (c ∷ s) ≡ c ∷ unquote s
unfolding unquote
unquote-cons c [] h = refl
unquote-cons c (d ∷ s) h = rw h

unquote_pair : (s : Name) → unquote (b'"' ∷ b'"' ∷ s) ≡ b'"' ∷ unquote s
unfolding unquote
unquote_pair s = refl

unquote-double_quotes : (n : Name) → unquote (double_quotes n) ≡ n
unfolding double_quotes
unquote-double_quotes [] = unfold unquote in refl
unquote-double_quotes (c ∷ n) = elim (Bool-cases (c == b'"')) [
  | inl quote ↦
      rw (quote, (==_iff c b'"').0 quote)
        (unquote_pair (double_quotes n) ∙ ap (λ t. b'"' ∷ t) (unquote-double_quotes n))
  | inr other ↦
      rw other (unquote-cons c (double_quotes n) other ∙ ap (λ t. c ∷ t) (unquote-double_quotes n))
]

drop_last-snoc : (s : Name) (c : ℕ) → drop_last (s ++ (c ∷ [])) ≡ s
unfolding drop_last
drop_last-snoc [] c = refl
drop_last-snoc (d ∷ []) c = refl
drop_last-snoc (d ∷ e ∷ s) c = rw (drop_last-snoc (e ∷ s) c)

-- A name that is written and read back: it is the value of a token that stands for it.
pub record IsReadable (n : Name) : Type 0 where
  pub no_feed : has_code b'\n' n ≡ false
  pub no_keyword : is_bare n ≡ true → begins_keyword n ≡ false

-- One token for the text, and the text for the name.
abbrev pub ReadsBack : Name → Name → Type 0
ReadsBack n text =
    (r : Name)
    → Ends r
    → (t : Token) × (tokens (text ++ r) ≡ t ∷ tokens r) × (standby t.kind t.value ≡ some (n, false))

lex_one-quote :
    (s v r : Name)
    → quoted s ≡ some (v, r)
    → lex_one b'"' s ≡ (token Kind.dquot (b'"' ∷ (v ++ (b'"' ∷ []))), r)
unfolding lex_one lex_other keyword lower_code is_space is_ident_start
lex_one-quote s v r h = rw h

inner-quote_ident : (n : Name) → inner (quote_ident n) ≡ double_quotes n
unfolding inner quote_ident
inner-quote_ident n = drop_last-snoc (double_quotes n) b'"'

quoted_reads : (n : Name) → ReadsBack n (quote_ident n)
unfolding quote_ident
quoted_reads n r e = (
  record { kind = Kind.dquot; value = quote_ident n },
  tokens-cons b'"' ((double_quotes n ++ (b'"' ∷ [])) ++ r)
      ∙ ap (λ m. add_token m.0 (tokens m.1))
          (lex_one-quote ((double_quotes n ++ (b'"' ∷ [])) ++ r) (double_quotes n) r (
            ap quoted (append-snoc (double_quotes n) b'"' r)
            ∙ quoted-double_quotes n r e.no_quote)),
  unfold standby in rw (inner-quote_ident n, unquote-double_quotes n) refl,
)

lex_other-ident :
    (c : ℕ) (s r : Name)
    → is_ident_start c ≡ true
    → AllOf is_ident s
    → StopsAt is_ident r
    → lex_other c (s ++ r) ≡ (token Kind.ident (c ∷ s), r)
unfolding lex_other
lex_other-ident c s r h a e = rw (no_space, h, span-append is_ident s r a e)
  where
    no_space : is_space c ≡ false
    no_space = unfold is_space is_ident_start in ground (arith, h)

lex_one-ident :
    (c : ℕ) (s r : Name)
    → is_ident_start c ≡ true
    → AllOf is_ident s
    → begins_keyword (c ∷ s) ≡ false
    → StopsAt is_ident r
    → lex_one c (s ++ r) ≡ (token Kind.ident (c ∷ s), r)
unfolding lex_one
lex_one-ident c s r h a k e = rw (lex_one, no_first, no_any) (lex_other-ident c s r h a e)
  where
    none_of : (o p : Option Name) → (is_found o || is_found p) ≡ false → (o ≡ none) × (p ≡ none)
    none_of none none z = (refl, refl)
    none_of none (some _) z = absurd (cc)
    none_of (some _) p z = absurd (cc)

    neither : (keyword (name "first") (c ∷ s) ≡ none) × (keyword (name "any") (c ∷ s) ≡ none)
    neither = none_of _ _ (unfold begins_keyword in k)

    no_first : keyword (name "first") (c ∷ (s ++ r)) ≡ none
    no_first =
        keyword-append (name "first") (c ∷ s) r (refl, (refl, (refl, (refl, (refl, tt))))) e
          neither.0

    no_any : keyword (name "any") (c ∷ (s ++ r)) ≡ none
    no_any = keyword-append (name "any") (c ∷ s) r (refl, (refl, (refl, tt))) e neither.1

bare_reads :
    (c : ℕ) (s : Name)
    → is_ident_start c ≡ true
    → AllOf is_ident s
    → begins_keyword (c ∷ s) ≡ false
    → ReadsBack (c ∷ s) (c ∷ s)
bare_reads c s h a k r e = (
  record { kind = Kind.ident; value = c ∷ s },
  tokens-cons c (s ++ r) ∙ ap (λ m. add_token m.0 (tokens m.1)) (lex_one-ident c s r h a k e.stops),
  unfold standby in refl,
)

pub simple_parts :
    (c : ℕ) (s : Name)
    → is_bare (c ∷ s) ≡ true
    → has_code b'\n' (c ∷ s) ≡ false
    → (is_ident_start c ≡ true) × AllOf is_ident s
unfolding is_bare is_simple
simple_parts c s h k = (
  (&&_split _ _ (&&_split _ _ h).0).0,
  simple_all s (&&_split _ _ (&&_split _ _ h).0).1 (unfold has_code in ground (arith, k)),
)

simple_reads : (n : Name) → IsReadable n → is_bare n ≡ true → ReadsBack n n
simple_reads [] h k = absurd (unfold is_bare is_simple in cc)
simple_reads (c ∷ s) h k =
    let parts = simple_parts c s k h.no_feed in bare_reads c s parts.0 parts.1 (h.no_keyword k)

-- A readable name that `quote_standby_name` wrote is read back.
pub quote_standby_name-ReadsBack : (n : Name) → IsReadable n → ReadsBack n (quote_standby_name n)
unfolding quote_standby_name
quote_standby_name-ReadsBack n h r e = elim (Bool-cases (is_bare n)) [
  | inl bare ↦ rw (test true bare) (simple_reads n h bare r e)
  | inr quotes ↦ rw (test false quotes) (quoted_reads n r e)
]
  where
    test :
        (b : Bool)
        → is_bare n ≡ b
        → (is_simple n && not (name_eq (lower n) (name "first") || name_eq (lower n) (name "any")))
          ≡ b
    test b k = unfold is_bare in k
