-- ===== src/Postgresql/Sync/RoundTrip.antt =====
-- `parse_sync_standby_names` on the value that `set_synchronous_standby_names` writes
-- (patroni/postgresql/sync.py).
use metatroni.Prelude.{
  ℕ, ◌≡◌, refl, sym, ◌∙◌, ap, Bool, true, false, ◌&&◌, ◌||◌, List, [], ◌∷◌, ◌++◌, map, Option, none,
  some, arith, if◌then◌else◌, Bool-cases, inl, inr,
}
use metatroni.Names.{Name, name, name_le, lower_code}
use metatroni.Names.Text.{join, is_space}
use metatroni.Names.Scan.{AllOf, StopsAt, span, span-append}
use metatroni.Names.Decimal.{is_digit, int, str, int-str, str-cons, str_all}
use metatroni.Collections.{add_all, from_list, sorted, insert_sorted}
use metatroni.Postgresql.Sync.Lexer.{
  Kind, Token, is_ident_start, keyword, lex_other, lex, lex_one, tokens, tokens-cons,
}
use metatroni.Postgresql.Sync.Parser.{
  SyncType, Ssn, read_names, read_list, counted, header_of, header, parse_tokens,
  parse_sync_standby_names, standby,
}
use metatroni.Postgresql.Sync.Writer.{
  quote_standby_name, Modes, num_text, is_several, sync_param_of, sync_param, listed, has_asterisk,
}
use metatroni.Postgresql.Sync.Names.{IsReadable, Ends, quote_standby_name-ReadsBack}
use metatroni.Postgresql.Sync.List.{Readable, join-NamesRead, Ends-paren, drop_end-snoc, tokens-str}

tokens_open :
    (s : Name)
    → tokens (name " (" ++ s) ≡ record { kind = Kind.parenstart; value = name "(" } ∷ tokens s
unfolding lex_one lex_other keyword lower_code is_space is_ident_start is_digit span
tokens_open s = tokens-cons b' ' (name "(" ++ s) ∙ tokens-cons b'(' s

tokens_close : tokens (name ")") ≡ record { kind = Kind.parenend; value = name ")" } ∷ []
unfolding tokens lex lex_one lex_other keyword lower_code is_space is_ident_start is_digit
tokens_close = refl

tokens_blank : (s : Name) → StopsAt is_space s → tokens (b' ' ∷ s) ≡ tokens s
unfolding lex_one lex_other keyword lower_code
tokens_blank s h =
    tokens-cons b' ' s ∙ unfold is_space in ap (λ m. tokens m.1) (span-append is_space [] s tt h)

tokens_any :
    (s : Name)
    → StopsAt is_space s
    → tokens (name "ANY " ++ s) ≡ record { kind = Kind.any; value = name "ANY" } ∷ tokens s
unfolding lex_one keyword lower_code
tokens_any s h =
    tokens-cons b'A' (name "NY " ++ s)
    ∙ ap (λ ts. record { kind = Kind.any; value = name "ANY" } ∷ ts) (tokens_blank s h)

str_no_space : (n : ℕ) (s : Name) → StopsAt is_space (str n ++ s)
str_no_space n s =
    let (c, r, text) = str-cons n in
    let all : AllOf is_digit (c ∷ r) = rw text at (str_all n) in
    rw text (unfold is_space is_digit in ground (arith, all.0))

-- The tokens of `num (…)`.
tokens_counted :
    (n : ℕ) (list : Name) (v : Token) (vs : List Token)
    → tokens (list ++ name ")") ≡ v ∷ (vs ++ tokens (name ")"))
    → tokens (num_text (some n) ++ (name " (" ++ (list ++ name ")")))
      ≡ record { kind = Kind.num; value = str n }
          ∷ record { kind = Kind.parenstart; value = name "(" }
          ∷ (v ∷ vs)
        ++ (record { kind = Kind.parenend; value = name ")" } ∷ [])
tokens_counted n list v vs h =
    tokens-str n (name " (" ++ (list ++ name ")")) (unfold is_digit in refl)
    ∙ ap (λ ts. record { kind = Kind.num; value = str n } ∷ ts)
        (tokens_open (list ++ name ")")
          ∙ ap (λ ts. record { kind = Kind.parenstart; value = name "(" } ∷ ts)
              (h ∙ ap (λ ts. v ∷ (vs ++ ts)) tokens_close))

-- The list is read.
read_back :
    (sync_type : SyncType) (n : ℕ) (ns : List Name) (ts : List Token)
    → read_names ts (false, []) ≡ some (false, add_all [] ns)
    → read_list (sync_type, int (str n), ts)
      ≡ some (record { sync_type = sync_type; has_star = false; num = n; members = from_list ns })
unfolding read_list from_list
read_back sync_type n ns ts h = rw (read_list, h, int-str n) refl

-- The type that is written in front of the list.
abbrev pub written_type : Bool → SyncType
written_type true = SyncType.quorum
written_type false = SyncType.priority

-- The tokens of `num (…)`.
abbrev counted_list : ℕ → List Token → List Token
counted_list n ts =
    record { kind = Kind.num; value = str n }
    ∷ record { kind = Kind.parenstart; value = name "(" }
    ∷ (ts ++ (record { kind = Kind.parenend; value = name ")" } ∷ []))

header-num :
    (n : ℕ) (ts : List Token)
    → header
        (record { kind = Kind.num; value = str n })
        (record { kind = Kind.parenstart; value = name "(" }
          ∷ (ts ++ (record { kind = Kind.parenend; value = name ")" } ∷ [])))
      ≡ (SyncType.priority, int (str n), ts)
unfolding header header_of counted
header-num n ts =
    rw (header, drop_end-snoc ts (record { kind = Kind.parenend; value = name ")" }) refl) refl

header-any :
    (n : ℕ) (ts : List Token)
    → header (record { kind = Kind.any; value = name "ANY" }) (counted_list n ts)
      ≡ (SyncType.quorum, int (str n), ts)
unfolding header header_of counted
header-any n ts =
    rw (header, drop_end-snoc ts (record { kind = Kind.parenend; value = name ")" }) refl) refl

-- What is read from a value: its type, its number and its names.
abbrev pub ssn_of : SyncType → ℕ → List Name → Ssn
ssn_of sync_type n ns = record {
  sync_type = sync_type;
  has_star = false;
  num = n;
  members = from_list ns;
}

numbered_reads :
    (any : Bool) (n : ℕ) (k : Name) (ns : List Name)
    → Readable (k ∷ ns)
    → parse_sync_standby_names (
        (if any then name "ANY " else [])
        ++ (num_text (some n)
            ++ (name " (" ++ (join b',' (map quote_standby_name (k ∷ ns)) ++ name ")"))))
      ≡ some (ssn_of (written_type any) n (k ∷ ns))
unfolding parse_sync_standby_names parse_tokens
numbered_reads any n k ns h =
    let (v, vs, text, reads) = join-NamesRead k ns h (name ")") (Ends-paren []) in
    let list = tokens_counted n (join b',' (map quote_standby_name (k ∷ ns))) v vs text in
    with_any any (v ∷ vs) list (reads [])
  where
    with_any :
        (b : Bool) (ts : List Token)
        → tokens (
            num_text (some n)
            ++ (name " (" ++ (join b',' (map quote_standby_name (k ∷ ns)) ++ name ")")))
          ≡ counted_list n ts
        → read_names ts (false, []) ≡ some (false, add_all [] (k ∷ ns))
        → parse_tokens (
            tokens (
              (if b then name "ANY " else [])
              ++ (num_text (some n)
                  ++ (name " (" ++ (join b',' (map quote_standby_name (k ∷ ns)) ++ name ")")))))
          ≡ some (ssn_of (written_type b) n (k ∷ ns))
    with_any true ts list reads =
        ap parse_tokens (
          tokens_any _ (str_no_space n _)
          ∙ ap (λ us. record { kind = Kind.any; value = name "ANY" } ∷ us) list)
        ∙ ap read_list (header-any n ts)
        ∙ read_back SyncType.quorum n (k ∷ ns) ts reads
    with_any false ts list reads =
        ap parse_tokens list
        ∙ ap read_list (header-num n ts)
        ∙ read_back SyncType.priority n (k ∷ ns) ts reads

append_nil : (a : Name) → a ++ [] ≡ a
append_nil [] = refl
append_nil (c ∷ a) = ap (λ t. c ∷ t) (append_nil a)

abbrev or_alone : Token → Option (SyncType × ℕ × List Token) → SyncType × ℕ × List Token
or_alone t none = (SyncType.priority, 1, t ∷ [])
or_alone t (some h) = h

header-alone : (t : Token) → header t [] ≡ (SyncType.priority, 1, t ∷ [])
unfolding header header_of counted
header-alone t = no_header t.kind
  where
    no_header : (kind : Kind) → or_alone t (header_of kind t []) ≡ or_alone t none
    no_header Kind.first = refl
    no_header Kind.any = refl
    no_header Kind.ident = refl
    no_header Kind.dquot = refl
    no_header Kind.star = refl
    no_header Kind.num = refl
    no_header Kind.comma = refl
    no_header Kind.parenstart = refl
    no_header Kind.parenend = refl
    no_header Kind.junk = refl

-- One name with no number in front.
alone_reads :
    (k : Name)
    → IsReadable k
    → parse_sync_standby_names (quote_standby_name k) ≡ some (ssn_of SyncType.priority 1 (k ∷ []))
unfolding parse_sync_standby_names parse_tokens read_list read_names from_list add_all tokens lex
alone_reads k h =
    let (t, reads, stands) = quote_standby_name-ReadsBack k h [] ends in
    ap parse_tokens (ap tokens (sym (append_nil (quote_standby_name k))) ∙ reads)
    ∙ ap read_list (header-alone t)
    ∙ named t stands
  where
    ends : Ends []
    ends = record { stops = tt; no_quote = tt }

    named :
        (t : Token)
        → standby t.kind t.value ≡ some (k, false)
        → read_list (SyncType.priority, 1, t ∷ []) ≡ some (ssn_of SyncType.priority 1 (k ∷ []))
    named t e = rw (read_list, read_names, e) refl

-- The number that is written, or 1 where none is.
abbrev pub written_num : Modes → List Name → ℕ → ℕ
written_num m ns n = if is_several ns || m.is_quorum_commit_mode then n else 1

-- The type that is written: a quorum, where it is numbered at all.
abbrev pub type_of : Modes → SyncType
type_of m = written_type (m.is_quorum_commit_mode && m.supports_quorum_commit)

-- The setting as it is read; where it is removed, it is empty.
abbrev pub read_setting : Option Name → Option Ssn
read_setting none = parse_sync_standby_names []
read_setting (some value) = parse_sync_standby_names value

-- What the setting of some names is read as.
of_names :
    (m : Modes) (n : ℕ) (k : Name) (ns : List Name)
    → m.supports_multiple_sync ≡ true
    → Readable (k ∷ ns)
    → read_setting (sync_param_of m (map quote_standby_name (k ∷ ns)) (some n))
      ≡ some (ssn_of (type_of m) (written_num m (k ∷ ns) n) (k ∷ ns))
unfolding sync_param_of join
of_names m n k [] h r = elim (Bool-cases m.is_quorum_commit_mode) [
  | inl any ↦ rw (h, any) (numbered_reads m.supports_quorum_commit n k [] r)
  | inr plain ↦ rw (h, plain) (alone_reads k r.0)
]
of_names m n k (l ∷ ns) h r = rw h (numbered_reads _ n k (l ∷ ns) r)

insert_sorted-Readable :
    (n : Name) (ns : List Name) → IsReadable n → Readable ns → Readable (insert_sorted n ns)
unfolding insert_sorted
insert_sorted-Readable n [] h k = (h, tt)
insert_sorted-Readable n (l ∷ ns) h k = elim (Bool-cases (name_le n l)) [
  | inl before ↦ rw before (h, k)
  | inr after ↦ rw after (k.0, insert_sorted-Readable n ns h k.1)
]

sorted-Readable : (ns : List Name) → Readable ns → Readable (sorted ns)
unfolding sorted
sorted-Readable [] h = tt
sorted-Readable (n ∷ ns) h = insert_sorted-Readable n (sorted ns) h.0 (sorted-Readable ns h.1)

insert_sorted_cons :
    (n : Name) (ns : List Name) → (k : Name) × (ks : List Name) × (insert_sorted n ns ≡ k ∷ ks)
unfolding insert_sorted
insert_sorted_cons n [] = (n, [], refl)
insert_sorted_cons n (l ∷ ns) = elim (Bool-cases (name_le n l)) [
  | inl before ↦ (n, l ∷ ns, rw before refl)
  | inr after ↦ (l, insert_sorted n ns, rw after refl)
]

insert_sorted_several :
    (n : Name) (l : Name) (ns : List Name) → is_several (insert_sorted n (l ∷ ns)) ≡ true
unfolding insert_sorted
insert_sorted_several n l ns = elim (Bool-cases (name_le n l)) [
  | inl before ↦ rw before refl
  | inr after ↦ rw after (let (k, ks, e) = insert_sorted_cons n ns in rw e refl)
]

is_several-sorted : (k : Name) (ns : List Name) → is_several (sorted (k ∷ ns)) ≡ is_several (k ∷ ns)
unfolding sorted insert_sorted
is_several-sorted k [] = refl
is_several-sorted k (l ∷ ns) =
    let (h, hs, e) = insert_sorted_cons l (sorted ns) in rw e (insert_sorted_several k h hs)

-- The setting that is written for some names, none of them the star, is read back: with the names,
-- the number and the kind of synchronous replication that were written.
pub parse_sync_standby_names-sync_param :
    (m : Modes) (n : ℕ) (k : Name) (ns : List Name)
    → m.supports_multiple_sync ≡ true
    → has_asterisk (k ∷ ns) (some n) ≡ false
    → Readable (k ∷ ns)
    → read_setting (sync_param m (k ∷ ns) (some n))
      ≡ some (ssn_of (type_of m) (written_num m (k ∷ ns) n) (sorted (k ∷ ns)))
unfolding sync_param listed
parse_sync_standby_names-sync_param m n k ns h star r = rw star (
    rw (is_several-sorted k ns) at
      (cons_case (sorted (k ∷ ns)) (some_sorted k ns) (sorted-Readable (k ∷ ns) r)))
  where
    some_sorted :
        (a : Name) (more : List Name) → (b : Name) × (bs : List Name) × (sorted (a ∷ more) ≡ b ∷ bs)
    some_sorted a more = unfold sorted in insert_sorted_cons a (sorted more)

    cons_case :
        (ls : List Name)
        → (b : Name) × (bs : List Name) × (ls ≡ b ∷ bs)
        → Readable ls
        → read_setting (sync_param_of m (map quote_standby_name ls) (some n))
          ≡ some (ssn_of (type_of m) (if is_several ls || m.is_quorum_commit_mode then n else 1) ls)
    cons_case [] (b, bs, e) k = absurd (cc)
    cons_case (l ∷ ls) e k = of_names m n l ls h k
