-- ===== src/Postgresql/Sync/List.antt =====
-- The tokens of a list of names as `set_synchronous_standby_names` writes it
-- (patroni/postgresql/sync.py), and what `parse_sync_standby_names` makes of them.
use metatroni.Prelude.{
  ℕ, ◌≡◌, refl, ◌∙◌, ap, true, false, List, [], ◌∷◌, ◌++◌, map, none, some, arith, leb, ◌==◌,
}
use metatroni.Names.{Name, name, lower_code}
use metatroni.Names.Text.{join, is_space}
use metatroni.Names.Scan.{span-append, AllOf, StopsAt}
use metatroni.Names.Decimal.{is_digit, str, str-cons, str_all}
use metatroni.Collections.{CaseInsensitiveSet, add, add_all}
use metatroni.Postgresql.Sync.Lexer.{
  Kind, Token, is_ident, is_ident_start, keyword, lex_other, lex_one, tokens, tokens-cons,
  add_token, token,
}
use metatroni.Postgresql.Sync.Parser.{read_names, drop_end}
use metatroni.Postgresql.Sync.Writer.{quote_standby_name}
use metatroni.Postgresql.Sync.Names.{Ends, IsReadable, ReadsBack, quote_standby_name-ReadsBack}

abbrev pub Readable : List Name → Type 0
Readable [] = Unit {0}
Readable (n ∷ ns) = IsReadable n × Readable ns

append_assoc : (a b c : Name) → (a ++ b) ++ c ≡ a ++ (b ++ c)
append_assoc [] b c = refl
append_assoc (x ∷ a) b c = ap (λ t. x ∷ t) (append_assoc a b c)

Ends-comma : (r : Name) → Ends (b',' ∷ r)
unfolding is_ident is_ident_start is_digit
Ends-comma r = record { stops = refl; no_quote = refl }

pub Ends-paren : (r : Name) → Ends (b')' ∷ r)
unfolding is_ident is_ident_start is_digit
Ends-paren r = record { stops = refl; no_quote = refl }

tokens_comma :
    (s : Name) → tokens (b',' ∷ s) ≡ record { kind = Kind.comma; value = b',' ∷ [] } ∷ tokens s
unfolding lex_one lex_other keyword lower_code is_space is_ident_start is_digit
tokens_comma s = tokens-cons b',' s

-- The tokens of a list of names in front of a text, and the names that are read from them.
abbrev pub NamesRead : List Name → Name → Type 0
NamesRead ns text =
    (r : Name)
    → Ends r
    → (v : Token) × (vs : List Token) × (tokens (text ++ r) ≡ v ∷ (vs ++ tokens r))
      × ((members : CaseInsensitiveSet)
          → read_names (v ∷ vs) (false, members) ≡ some (false, add_all members ns))

one_name :
    (n : Name) → ReadsBack n (quote_standby_name n) → NamesRead (n ∷ []) (quote_standby_name n)
unfolding read_names add_all
one_name n h r e = let (t, reads, stands) = h r e in (t, [], reads, λ members. rw stands)

add_name :
    (n : Name) (ns : List Name) (text : Name)
    → ReadsBack n (quote_standby_name n)
    → NamesRead ns text
    → NamesRead (n ∷ ns) (quote_standby_name n ++ (b',' ∷ text))
unfolding read_names add_all
add_name n ns text h k r e =
    let (t, reads, stands) = h (b',' ∷ (text ++ r)) (Ends-comma (text ++ r)) in
    let (v, vs, more, rest) = k r e in
    (
      t,
      record { kind = Kind.comma; value = b',' ∷ [] } ∷ v ∷ vs,
      ap tokens (append_assoc (quote_standby_name n) (b',' ∷ text) r)
          ∙ reads
          ∙ ap (λ ts. t ∷ ts) (tokens_comma (text ++ r))
          ∙ ap (λ ts. t ∷ record { kind = Kind.comma; value = b',' ∷ [] } ∷ ts) more,
      λ members. rw (read_names, stands) (rest (add n members)),
    )

pub join-NamesRead :
    (n : Name) (ns : List Name)
    → Readable (n ∷ ns)
    → NamesRead (n ∷ ns) (join b',' (map quote_standby_name (n ∷ ns)))
unfolding join
join-NamesRead n [] h = one_name n (quote_standby_name-ReadsBack n h.0)
join-NamesRead n (k ∷ ks) h =
    add_name n (k ∷ ks) (join b',' (map quote_standby_name (k ∷ ks)))
      (quote_standby_name-ReadsBack n h.0) (join-NamesRead k ks h.1)

pub drop_end-snoc :
    (ts : List Token) (p : Token) → p.kind ≡ Kind.parenend → drop_end (ts ++ (p ∷ [])) ≡ some ts
unfolding drop_end
drop_end-snoc [] p h = rw h
drop_end-snoc (t ∷ []) p h = rw h
drop_end-snoc (t ∷ u ∷ ts) p h = rw (drop_end-snoc (u ∷ ts) p h)

-- A number in front of a text that goes on with no digit.
lex_one-num :
    (c : ℕ) (s r : Name)
    → is_digit c ≡ true
    → AllOf is_digit s
    → StopsAt is_digit r
    → lex_one c (s ++ r) ≡ (token Kind.num (c ∷ s), r)
unfolding lex_one lex_other
lex_one-num c s r h a e =
    rw (lex_one, no_word b'f' (name "irst") refl, no_word b'a' (name "ny") refl) number
  where
    no_word : (k : ℕ) (ks : Name) → leb b'a' k ≡ true → keyword (k ∷ ks) (c ∷ (s ++ r)) ≡ none
    no_word k ks z = unfold keyword lower_code is_digit in ground (arith, h, z)

    plain :
        (is_space c ≡ false)
        × ((is_ident_start c ≡ false) × (((c == b'"') ≡ false) × ((c == b'*') ≡ false)))
    plain = unfold is_space is_ident_start is_digit in ground (arith, h)

    number : lex_other c (s ++ r) ≡ (token Kind.num (c ∷ s), r)
    number =
        rw
          (lex_other, plain.0, plain.1.0, plain.1.1.0, plain.1.1.1, h, span-append is_digit s r a e)
          refl

pub tokens-str :
    (n : ℕ) (r : Name)
    → StopsAt is_digit r
    → tokens (str n ++ r) ≡ record { kind = Kind.num; value = str n } ∷ tokens r
tokens-str n r e =
    let (c, s, text) = str-cons n in
    let all : AllOf is_digit (c ∷ s) = rw text at (str_all n) in
    rw text (
      tokens-cons c (s ++ r)
      ∙ ap (λ m. add_token m.0 (tokens m.1)) (lex_one-num c s r all.0 all.1 e))
