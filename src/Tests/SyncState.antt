-- ===== src/Tests/SyncState.antt =====
-- Runs of `SyncState` (patroni/dcs/__init__.py) and its theorems at concrete keys.
use metatroni.Prelude.{◌≡◌, refl, true, false, List, [], ◌∷◌, some, none, ◌↔◌}
use metatroni.Prelude.Int.{pos}
use metatroni.Names.{Name, name, name_eq, name_le, lower, lower_code, same}
use metatroni.Names.Text.{split_on, strip, strip_left, is_space, join, has_code}
use metatroni.Collections.{contains, sorted, insert_sorted, set_eq}
use metatroni.Collections.Size.{set_eq_iff}
use metatroni.Dcs.SyncState.{
  SyncState, NodeValue, invalid, is_set, from_node, from_value, from_dict, quorum_of, empty,
  is_empty, str_to_list, voters, members, is_listed, search_text, matches, leader_matches,
  sync_state, write_sync_state,
}
use metatroni.Dcs.SyncState.Laws.{IsPlain, AllPlain, from_dict-sync_state, matches-contains_leader}

-- All that a run computes with.
program : Unit {0}
unfolding name_eq name_le lower lower_code same split_on strip strip_left is_space join has_code
    contains sorted insert_sorted is_set from_node from_value from_dict quorum_of empty is_empty
    str_to_list voters members is_listed search_text matches leader_matches sync_state
    write_sync_state
program = tt

-- The state of the doctest of `matches`.
abbrev key : SyncState
key = record {
  version = some 1;
  leader = some (name "foo");
  sync_standby = some (name "bar,zoo");
  quorum = pos 0;
}

matches_doctest :
    (matches key (some (name "foo")) false ≡ false)
    × (matches key (some (name "fOo")) true ≡ true)
    × (matches key (some (name "Bar")) false ≡ true)
    × (matches key (some (name "zoO")) false ≡ true)
    × (matches key (some (name "baz")) false ≡ false)
    × (matches key none false ≡ false)
    × (matches (empty (some 1)) (some (name "foo")) false ≡ false)
unfolding program
matches_doctest = (refl, refl, refl, refl, refl, refl, refl)

-- The doctest of `from_node`: what is no dictionary makes an empty state.
from_node_doctest :
    (from_node (λ t. none) (some 1) (NodeValue.text (name "{")) ≡ empty (some 1))
    × (from_node (λ t. some NodeValue.other) (some 1) (NodeValue.text (name "[]")) ≡ empty (some 1))
    × (from_node (λ t. none) (some 1) NodeValue.missing ≡ empty (some 1))
unfolding program
from_node_doctest = (refl, refl, refl)

-- A key whose quorum is no number is an empty state, if it has a leader.
invalid_quorum :
    (l : Name)
    → from_dict none (record { leader = some (name "a"); quorum = invalid; sync_standby = some l })
      ≡ empty none
unfolding program
invalid_quorum l = refl

abbrev names : List Name
names = name "zoo" ∷ name "bar" ∷ []

foo-IsPlain : IsPlain (name "foo")
unfolding program
foo-IsPlain = record { nonempty = refl; no_comma = refl; stripped = refl }

names-AllPlain : AllPlain names
unfolding program
names-AllPlain = (
  record { nonempty = refl; no_comma = refl; stripped = refl },
  (record { nonempty = refl; no_comma = refl; stripped = refl }, tt),
)

from_dict-sync_state_example :
    let s = from_dict (some 7) (sync_state (some (name "foo")) names (pos 1)) in
    (s.leader ≡ some (name "foo")) × (s.quorum ≡ pos 1) × (voters s ≡ sorted names)
from_dict-sync_state_example =
    from_dict-sync_state (some 7) (name "foo") names (pos 1) foo-IsPlain names-AllPlain

matches-contains_leader_example :
    matches key (some (name "fOo")) true ≡ contains (name "fOo") (members key)
unfolding program
matches-contains_leader_example =
    matches-contains_leader key (name "foo") (name "fOo") refl foo-IsPlain refl

abbrev capitals : List Name
capitals = name "BAR" ∷ name "Zoo" ∷ []

set_eq_iff_example :
    (set_eq names capitals ≡ true) ↔ ((x : Name) → contains x names ≡ contains x capitals)
unfolding program
set_eq_iff_example = set_eq_iff names capitals (refl, (refl, tt)) (refl, (refl, tt))
