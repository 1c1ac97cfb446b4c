-- ===== src/Postgresql/Sync/Writer.antt =====
-- `quote_standby_name` and the text that `SyncHandler.set_synchronous_standby_names` builds
-- (patroni/postgresql/sync.py), with `quote_ident` of patroni/psycopg.py.
use metatroni.Prelude.{
  ℕ, Bool, true, false, not, ◌&&◌, ◌||◌, List, [], ◌∷◌, ◌++◌, map, Option, none, some, leb, ◌==◌,
  if◌then◌else◌, length,
}
use metatroni.Names.{Name, name, name_eq, lower}
use metatroni.Names.Text.{join}
use metatroni.Names.Scan.{span}
use metatroni.Names.Decimal.{str}
use metatroni.Collections.{sorted}
use metatroni.Postgresql.Sync.Lexer.{is_ident, is_ident_start}

-- `$` also matches before a line feed at the end.
abbrev pub at_end : Name → Bool
at_end [] = true
at_end (c ∷ []) = c == b'\n'
at_end (c ∷ d ∷ s) = false

-- `SYNC_STANDBY_NAME_RE.match`
unfoldable pub is_simple : Name → Bool
is_simple [] = false
is_simple (c ∷ s) = is_ident_start c && at_end (span is_ident s).1

-- `s.replace('"', '""')`
unfoldable pub double_quotes : Name → Name
double_quotes [] = []
double_quotes (c ∷ s) = if c == b'"' then b'"' ∷ b'"' ∷ double_quotes s else c ∷ double_quotes s

-- `quote_ident` with no connection
unfoldable pub quote_ident : Name → Name
quote_ident value = b'"' ∷ (double_quotes value ++ (b'"' ∷ []))

unfoldable pub quote_standby_name : Name → Name
unfolding is_simple
quote_standby_name value =
    if is_simple value
      && not (name_eq (lower value) (name "first") || name_eq (lower value) (name "any"))
    then value
    else quote_ident value

abbrev pub is_star : Name → Bool
is_star value = name_eq value (b'*' ∷ [])

unfoldable pub has_star_name : List Name → Bool
has_star_name [] = false
has_star_name (n ∷ ns) = is_star n || has_star_name ns

abbrev pub at_least_one : Option ℕ → Bool
at_least_one none = false
at_least_one (some n) = leb 1 n

abbrev pub is_nil : List Name → Bool
is_nil [] = true
is_nil (n ∷ ns) = false

-- `has_asterisk`
unfoldable pub has_asterisk : List Name → Option ℕ → Bool
unfolding has_star_name
has_asterisk sync num = has_star_name sync || (at_least_one num && is_nil sync)

-- What the version of the database and the configuration say.
pub record Modes : Type 0 where
  pub supports_multiple_sync : Bool
  pub supports_quorum_commit : Bool
  pub is_quorum_commit_mode : Bool

-- `str(num)` in the f-string, where `num` may be `None`.
abbrev pub num_text : Option ℕ → Name
num_text none = name "None"
num_text (some n) = str n

abbrev pub first_name : List Name → Option Name
first_name [] = none
first_name (n ∷ ns) = some n

-- The names as they are listed.
unfoldable pub listed : List Name → Option ℕ → List Name
unfolding has_asterisk
listed sync num =
    if has_asterisk sync num then (b'*' ∷ []) ∷ [] else map quote_standby_name (sorted sync)

-- The list with its number in front: `ANY` for a quorum.
abbrev pub numbered : Modes → Option ℕ → Name → Name
numbered m num list =
    (if m.is_quorum_commit_mode && m.supports_quorum_commit then name "ANY " else [])
    ++ (num_text num ++ (name " (" ++ (list ++ name ")")))

-- `num` where it is not given.
abbrev pub default_num : Option ℕ → List Name → Option ℕ
default_num none names = some (length names)
default_num (some n) names = some n

abbrev pub is_several : List Name → Bool
is_several (n ∷ k ∷ ns) = true
is_several _ = false

-- The new value of the setting, `sync_param`, of some names.
unfoldable pub sync_param_of : Modes → List Name → Option ℕ → Option Name
sync_param_of m names num =
    if m.supports_multiple_sync && is_several names
    then some (numbered m (default_num num names) (join b',' names))
    else elim (first_name names) [
      | none ↦ none
      | some n ↦
          some (if m.supports_multiple_sync && m.is_quorum_commit_mode then numbered m num n else n)
    ]

-- The value that `SyncHandler.set_synchronous_standby_names` writes; `none` removes the setting.
unfoldable pub sync_param : Modes → List Name → Option ℕ → Option Name
unfolding listed sync_param_of
sync_param m sync num = sync_param_of m (listed sync num) num
