-- ===== src/Dcs/SyncState.antt =====
-- `SyncState` of patroni/dcs/__init__.py, the view of the `/sync` key, with `sync_state` and
-- `write_sync_state` of `AbstractDCS`. A version of a key is a number.
pub mod Laws
use metatroni.Prelude.{
  ℕ, Bool, true, false, not, ◌&&◌, ◌||◌, List, [], ◌∷◌, ◌++◌, map, keep, Option, none, some,
  if◌then◌else◌,
}
use metatroni.Prelude.Int.{ℤ, pos, is_zero}
use metatroni.Names.{Name, name_eq, lower}
use metatroni.Names.Text.{split_on, strip, join}
use metatroni.Collections.{CaseInsensitiveSet, sorted}

-- What `value.get('quorum')` may be: `int` raises on what is neither a number nor the text of one.
pub data QuorumValue : Type 0 where
  absent : QuorumValue
  number : ℤ → QuorumValue
  invalid : QuorumValue

-- A dictionary with the three keys, each `none` where it is missing or null.
pub record SyncDict : Type 0 where
  pub leader : Option Name
  pub quorum : QuorumValue
  pub sync_standby : Option Name

-- A value of the key: `None`, a text, a dictionary, or any other JSON value.
pub data NodeValue : Type 0 where
  missing : NodeValue
  text : Name → NodeValue
  dict : SyncDict → NodeValue
  other : NodeValue

pub record SyncState : Type 0 where
  pub version : Option ℕ
  pub leader : Option Name
  pub sync_standby : Option Name
  pub quorum : ℤ

-- `bool(s)` of an optional text.
unfoldable pub is_set : Option Name → Bool
is_set none = false
is_set (some []) = false
is_set (some (c ∷ s)) = true

-- `s or ''`
abbrev pub or_empty : Option Name → Name
or_empty none = []
or_empty (some s) = s

-- `SyncState.empty`
unfoldable pub empty : Option ℕ → SyncState
empty version = record { version = version; leader = none; sync_standby = none; quorum = pos 0 }

-- The quorum of a dictionary: `int(quorum) if leader and quorum else 0`, or the exception.
unfoldable pub quorum_of : Option Name → QuorumValue → Option ℤ
unfolding is_set
quorum_of leader absent = some (pos 0)
quorum_of leader (number q) = some (if is_set leader && not (is_zero q) then q else pos 0)
quorum_of leader invalid = if is_set leader then none else some (pos 0)

unfoldable pub from_dict : Option ℕ → SyncDict → SyncState
unfolding empty quorum_of
from_dict version d = elim (quorum_of d.leader d.quorum) [
  | none ↦ empty version
  | some q ↦ record {
    version = version;
    leader = d.leader;
    sync_standby = d.sync_standby;
    quorum = q;
  }
]

unfoldable pub from_value : Option ℕ → NodeValue → SyncState
unfolding from_dict empty
from_value version (dict d) = from_dict version d
from_value version _ = empty version

-- `SyncState.from_node`, over `json.loads`, which fails with a `ValueError`.
unfoldable pub from_node : (Name → Option NodeValue) → Option ℕ → NodeValue → SyncState
unfolding from_value empty
from_node loads version (text (c ∷ s)) = elim (loads (c ∷ s)) [
  | none ↦ empty version
  | some v ↦ from_value version v
]
from_node loads version value = from_value version value

-- `SyncState.is_empty`
unfoldable pub is_empty : SyncState → Bool
unfolding is_set
is_empty s = not (is_set s.leader)

-- `SyncState._str_to_list`
unfoldable pub str_to_list : Name → List Name
str_to_list value = keep (λ w. not (name_eq w [])) (map strip (split_on b',' value))

-- `SyncState.voters`
unfoldable pub voters : SyncState → List Name
unfolding is_empty str_to_list is_set
voters s =
    if not (is_empty s) && is_set s.sync_standby then str_to_list (or_empty s.sync_standby) else []

-- `SyncState.members`
unfoldable pub members : SyncState → List Name
unfolding voters is_set
members s = if is_set s.leader then or_empty s.leader ∷ voters s else []

-- `a in l`
unfoldable pub is_listed : Name → List Name → Bool
unfolding name_eq
is_listed a [] = false
is_listed a (b ∷ l) = name_eq a b || is_listed a l

-- The text that `matches` searches, before it is lowered.
unfoldable pub search_text : SyncState → Bool → Name
search_text s check_leader =
    or_empty s.sync_standby ++ (if check_leader then b',' ∷ or_empty s.leader else [])

-- `SyncState.matches`
unfoldable pub matches : SyncState → Option Name → Bool → Bool
unfolding is_empty is_set is_listed str_to_list search_text lower
matches s name check_leader =
    if is_set name && not (is_empty s)
    then is_listed (lower (or_empty name)) (str_to_list (lower (search_text s check_leader)))
    else false

-- `SyncState.leader_matches`
unfoldable pub leader_matches : SyncState → Option Name → Bool
unfolding is_empty is_set name_eq lower
leader_matches s name =
    is_set name && not (is_empty s) && name_eq (lower (or_empty name)) (lower (or_empty s.leader))

abbrev standby_text : List Name → Option Name
standby_text [] = none
standby_text (w ∷ ws) = some (join b',' (sorted (w ∷ ws)))

-- `AbstractDCS.sync_state`; no standbys are `None` or an empty collection.
unfoldable pub sync_state : Option Name → List Name → ℤ → SyncDict
sync_state leader sync_standby quorum = record {
  leader = leader;
  quorum = number quorum;
  sync_standby = standby_text sync_standby;
}

-- `AbstractDCS.write_sync_state`, over `set_sync_state_value`, which gives the new version of the
-- key, or a `bool`.
unfoldable pub write_sync_state :
    (SyncDict → Option ℕ → Option ℕ) → Option Name → List Name → ℤ → Option ℕ → Option SyncState
unfolding sync_state from_dict
write_sync_state set_sync_state_value leader sync_standby quorum version =
    elim (set_sync_state_value (sync_state leader sync_standby quorum) version) [
      | none ↦ none
      | some v ↦ some (from_dict (some v) (sync_state leader sync_standby quorum))
    ]
