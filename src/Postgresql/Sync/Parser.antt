-- ===== src/Postgresql/Sync/Parser.antt =====
-- `parse_sync_standby_names` of patroni/postgresql/sync.py.
use metatroni.Prelude.{
  ℕ, Bool, true, false, ◌&&◌, ◌||◌, List, [], ◌∷◌, Option, none, some, ◌==◌, if◌then◌else◌,
}
use metatroni.Names.{Name}
use metatroni.Names.Decimal.{int}
use metatroni.Collections.{CaseInsensitiveSet, add}
use metatroni.Postgresql.Sync.Lexer.{Kind, Token, tokens}

pub data SyncType : Type 0 where
  off priority quorum : SyncType

-- `_SSN`
pub record Ssn : Type 0 where
  pub sync_type : SyncType
  pub has_star : Bool
  pub num : ℕ
  pub members : CaseInsensitiveSet

-- `_EMPTY_SSN`
abbrev pub empty_ssn : Ssn
empty_ssn = record { sync_type = SyncType.off; has_star = false; num = 0; members = [] }

-- `s.replace('""', '"')`
unfoldable pub unquote : Name → Name
unquote [] = []
unquote (c ∷ []) = c ∷ []
unquote (c ∷ d ∷ s) =
    let further = unquote (d ∷ s) in
    let after_pair = unquote s in if c == b'"' && d == b'"' then c ∷ after_pair else c ∷ further

-- `s[:-1]`
unfoldable pub drop_last : Name → Name
drop_last [] = []
drop_last (c ∷ []) = []
drop_last (c ∷ d ∷ s) = c ∷ drop_last (d ∷ s)

-- `s[1:-1]`
unfoldable pub inner : Name → Name
unfolding drop_last
inner [] = []
inner (c ∷ s) = drop_last s

-- A name of the list: what is added, and whether it is the star; `none` is a `ValueError`.
unfoldable pub standby : Kind → Name → Option (Name × Bool)
standby Kind.ident value = some (value, false)
standby Kind.first value = some (value, false)
standby Kind.any value = some (value, false)
standby Kind.star value = some (value, true)
standby Kind.dquot value = some (unquote (inner value), false)
standby _ value = none

abbrev pub is_comma : Kind → Bool
is_comma Kind.comma = true
is_comma _ = false

abbrev pub Names : Type 0
Names = Bool × CaseInsensitiveSet

abbrev pub with_name : Option (Name × Bool) → Names → Option Names
with_name none out = none
with_name (some (value, star)) (has_star, members) = some (has_star || star, add value members)

-- The loop over the list: names at the even places, commas at the odd ones, none at the end;
-- `none` is a `ValueError`.
unfoldable pub read_names : List Token → Names → Option Names
unfolding standby
read_names [] out = some out
read_names (t ∷ []) out = with_name (standby t.kind t.value) out
read_names (t ∷ u ∷ []) out = none
read_names (t ∷ u ∷ v ∷ ts) out = elim (with_name (standby t.kind t.value) out) [
  | none ↦ none
  | some out' ↦ if is_comma u.kind then read_names (v ∷ ts) out' else none
]

abbrev pub is_num : Kind → Bool
is_num Kind.num = true
is_num _ = false

abbrev pub is_parenstart : Kind → Bool
is_parenstart Kind.parenstart = true
is_parenstart _ = false

abbrev is_parenend : Kind → Bool
is_parenend Kind.parenend = true
is_parenend _ = false

-- `ts[:-1]`, if the last token closes the parenthesis.
unfoldable pub drop_end : List Token → Option (List Token)
drop_end [] = none
drop_end (t ∷ []) = if is_parenend t.kind then some [] else none
drop_end (t ∷ u ∷ ts) = elim (drop_end (u ∷ ts)) [ none ↦ none | some l ↦ some (t ∷ l) ]

-- `num (…)`
unfoldable pub counted : SyncType → List Token → Option (SyncType × ℕ × List Token)
unfolding drop_end
counted sync_type [] = none
counted sync_type (n ∷ []) = none
counted sync_type (n ∷ p ∷ ts) =
    if is_num n.kind && is_parenstart p.kind
    then elim (drop_end ts) [ none ↦ none | some l ↦ some (sync_type, int n.value, l) ]
    else none

unfoldable pub header_of : Kind → Token → List Token → Option (SyncType × ℕ × List Token)
unfolding counted
header_of Kind.any t ts = counted SyncType.quorum ts
header_of Kind.first t ts = counted SyncType.priority ts
header_of Kind.num t ts = counted SyncType.priority (t ∷ ts)
header_of _ t ts = none

-- The type, the number and the list of a value that has tokens.
unfoldable pub header : Token → List Token → SyncType × ℕ × List Token
unfolding header_of
header t ts = elim (header_of t.kind t ts) [ none ↦ (SyncType.priority, 1, t ∷ ts) | some h ↦ h ]

unfoldable pub read_list : SyncType × ℕ × List Token → Option Ssn
unfolding read_names
read_list (sync_type, num, synclist) = elim (read_names synclist (false, [])) [
  | none ↦ none
  | some (has_star, members) ↦
      some (record { sync_type = sync_type; has_star = has_star; num = num; members = members })
]

unfoldable pub parse_tokens : List Token → Option Ssn
unfolding header read_list
parse_tokens [] = some empty_ssn
parse_tokens (t ∷ ts) = read_list (header t ts)

-- `parse_sync_standby_names`; `none` is a `ValueError`.
unfoldable pub parse_sync_standby_names : Name → Option Ssn
unfolding parse_tokens
parse_sync_standby_names value = parse_tokens (tokens value)
