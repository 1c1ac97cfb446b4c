-- ===== src/Tests/Standbys.antt =====
-- `parse_sync_standby_names` and what `set_synchronous_standby_names` writes
-- (patroni/postgresql/sync.py): the doctests, and the theorems at concrete names.
use metatroni.Prelude.{ℕ, ◌≡◌, refl, Bool, true, false, List, [], ◌∷◌, Option, some, none}
use Prim.Native.String.{String}
use metatroni.Names.{Name, name, name_eq, name_le, lower, lower_code, same}
use metatroni.Names.Text.{is_space, join}
use metatroni.Names.Scan.{span}
use metatroni.Names.Decimal.{is_digit, int, str}
use metatroni.Collections.{add, contains, sorted, insert_sorted}
use metatroni.Postgresql.Sync.Lexer.{
  is_ident, is_ident_start, keyword, quoted, lex_other, lex_one, lex, tokens,
}
use metatroni.Postgresql.Sync.Parser.{
  SyncType, Ssn, empty_ssn, unquote, inner, parse_sync_standby_names,
}
use metatroni.Postgresql.Sync.Writer.{
  Modes, quote_standby_name, double_quotes, quote_ident, sync_param, sync_param_of, listed,
}

unfoldable pub program : Unit {0}
unfolding name_eq name_le lower lower_code same is_space join span is_digit int str add contains
    sorted insert_sorted is_ident is_ident_start keyword quoted lex_other lex_one lex tokens unquote
    inner parse_sync_standby_names quote_standby_name double_quotes quote_ident sync_param
    sync_param_of listed
program = tt

abbrev read : String → Option Ssn
read s = parse_sync_standby_names (name s)

abbrev ssn : SyncType → Bool → ℕ → List Name → Option Ssn
ssn t b n ns = some (record { sync_type = t; has_star = b; num = n; members = ns })

doctests :
    (read "" ≡ some empty_ssn)
    × (read "FiRsT" ≡ ssn SyncType.priority false 1 (name "FiRsT" ∷ []))
    × (read "\"1\"" ≡ ssn SyncType.priority false 1 (name "1" ∷ []))
    × (read " a , b " ≡ ssn SyncType.priority false 1 (name "a" ∷ name "b" ∷ []))
    × (read "ANY 4(\"a\",*,b)" ≡ ssn SyncType.quorum true 4 (name "a" ∷ name "*" ∷ name "b" ∷ []))
unfolding program
doctests = (refl, refl, refl, refl, refl)

unparsable :
    (read "1" ≡ none)
    × (read "a," ≡ none)
    × (read "ANY 4(\"a\" b,\"c c\")" ≡ none)
    × (read "FIRST 4(\"a\",)" ≡ none)
    × (read "2 (,)" ≡ none)
unfolding program
unparsable = (refl, refl, refl, refl, refl)

-- A quote that is not closed gives a pair of quotes up.
odd_quotes : read "\"a\"\"b" ≡ none
unfolding program
odd_quotes = refl

abbrev modern : Modes
modern = record {
  supports_multiple_sync = true;
  supports_quorum_commit = true;
  is_quorum_commit_mode = true;
}

written :
    sync_param modern (name "b-c" ∷ name "a" ∷ name "First" ∷ []) (some 12)
    ≡ some (name "ANY 12 (\"First\",a,\"b-c\")")
unfolding program
written = refl

-- A name that begins with a keyword is written with no quotes, and cannot be read back.
keyword_prefix :
    (sync_param modern (name "first_node" ∷ []) (some 1) ≡ some (name "ANY 1 (first_node)"))
    × (read "ANY 1 (first_node)" ≡ none)
unfolding program
keyword_prefix = (refl, refl)
