-- ===== src/Tests/SyncHandler.antt =====
-- The choice of synchronous standbys (patroni/postgresql/sync.py) at concrete clusters, and the
-- theorems there.
use metatroni.Prelude.{
  ℕ, ◌≡◌, refl, ◌≤◌, ◌⊎◌, inl, inr, Bool, true, false, List, [], ◌∷◌, Option, some, none, arith,
  length, ap, sym, ◌∙◌,
}
use metatroni.Prelude.Int.{pos}
use metatroni.Names.{Name, name, name_eq, name_le, lower, lower_code, same}
use metatroni.Names.Text.{is_space, join, has_code}
use metatroni.Names.Scan.{span}
use metatroni.Names.Decimal.{is_digit, int, str}
use metatroni.Collections.{add, contains, sorted, insert_sorted, from_list, add_all}
use metatroni.Collections.Dict.{
  CaseInsensitiveDict, store, find, has_key, remove, set_item, get_item, keys, update, put_plain,
}
use metatroni.Dcs.SyncState.{empty, is_set, matches}
use metatroni.Postgresql.Sync.Lexer.{
  is_ident, is_ident_start, keyword, quoted, lex_other, lex_one, lex, tokens,
}
use metatroni.Postgresql.Sync.Parser.{SyncType, Ssn, unquote, inner, parse_sync_standby_names}
use metatroni.Postgresql.Sync.Writer.{
  Modes, quote_standby_name, double_quotes, quote_ident, sync_param, sync_param_of, listed,
  has_asterisk,
}
use metatroni.Postgresql.Sync.Names.{is_bare, begins_keyword}
use metatroni.Postgresql.Sync.List.{Readable}
use metatroni.Postgresql.Sync.RoundTrip.{parse_sync_standby_names-sync_param, read_setting}
use metatroni.Postgresql.Sync.Keywords.{parse_sync_standby_names-quote_standby_name}
use metatroni.Postgresql.Sync.Replicas.{
  Member, Row, Replica, ReplicaList, Primary, lsn_of, dict_by, eligible, members_of, replication_of,
  upstream, should_cascade, cascades, collect, insert_by, sort_by, preferred, greatest, max_lsn_of,
  list_of, replica_list,
}
use metatroni.Postgresql.Sync.Handler.{
  Handler, new_handler, Config, invalidate, handle_change, is_ready, mark_ready, mark_all,
  process_replica_readiness, choose, choose_all, is_near, CurrentState, state_of, current_state,
}
use metatroni.Postgresql.Sync.Cascade.{should_cascade_terminates, should_cascade_circle, Ranked}
use metatroni.Postgresql.Sync.Ready.{
  IsReady, SomeReady, Reaches, Reaches-IsReady, process_replica_readiness-SomeReady,
}
use metatroni.Postgresql.Sync.Confirmed.{current_state_confirmed}
use metatroni.Postgresql.Sync.Choice.{length-state_of-le}

unfoldable program : Unit {0}
unfolding name_eq name_le lower lower_code same is_space join has_code span is_digit int str add
    contains sorted insert_sorted from_list add_all store find has_key remove set_item get_item keys
    update put_plain empty is_set matches is_ident is_ident_start keyword quoted lex_other lex_one
    lex tokens unquote inner parse_sync_standby_names quote_standby_name double_quotes quote_ident
    sync_param sync_param_of listed has_asterisk is_bare begins_keyword lsn_of dict_by eligible
    members_of replication_of upstream should_cascade cascades collect insert_by sort_by preferred
    greatest max_lsn_of list_of replica_list invalidate handle_change is_ready mark_ready mark_all
    process_replica_readiness choose choose_all is_near state_of current_state
program = tt

abbrev quorum_mode : Modes
quorum_mode = record {
  supports_multiple_sync = true;
  supports_quorum_commit = true;
  is_quorum_commit_mode = true;
}

abbrev two_names : List Name
two_names = name "node-1" ∷ name "b" ∷ []

two_names-Readable : Readable two_names
unfolding program
two_names-Readable = (
  record { no_feed = refl; no_keyword = λ h. absurd (cc) },
  (record { no_feed = refl; no_keyword = λ h. refl }, tt),
)

two_names_plain : has_asterisk two_names (some 2) ≡ false
unfolding program
two_names_plain = refl

parse_sync_standby_names-sync_param_example :
    read_setting (sync_param quorum_mode two_names (some 2))
    ≡ some (record {
      sync_type = SyncType.quorum;
      has_star = false;
      num = 2;
      members = from_list (sorted two_names);
    })
parse_sync_standby_names-sync_param_example =
    parse_sync_standby_names-sync_param quorum_mode 2 (name "node-1") (name "b" ∷ []) refl
      two_names_plain two_names-Readable

first_node-bare : is_bare (name "first_node") ≡ true
unfolding program
first_node-bare = refl

first_node-no_feed : has_code b'\n' (name "first_node") ≡ false
unfolding program
first_node-no_feed = refl

first_node-keyword : begins_keyword (name "first_node") ≡ true
unfolding program
first_node-keyword = refl

parse_sync_standby_names-quote_standby_name_example :
    parse_sync_standby_names (quote_standby_name (name "first_node")) ≡ none
parse_sync_standby_names-quote_standby_name_example =
    parse_sync_standby_names-quote_standby_name (name "first_node") first_node-bare
      first_node-no_feed first_node-keyword

abbrev member : Name → Option Name → Member
member n from = record {
  name = n;
  is_running = true;
  nosync = false;
  nofailover = false;
  sync_priority = pos 1;
  replicatefrom = from;
}

abbrev streaming : ℕ → Name → Name → ℕ → Row
streaming pid n state lsn = record {
  pid = pid;
  application_name = n;
  sync_state = state;
  write_lsn = some lsn;
  flush_lsn = some lsn;
  replay_lsn = none;
}

abbrev primary : Primary
primary = record {
  own = name "p";
  synchronous_commit = name "on";
  rows =
      streaming 7 (name "a") (name "sync") 40 ∷ streaming 8 (name "b") (name "potential") 30 ∷ [];
  last_operation = 40;
}

abbrev standbys : List Member
standbys = member (name "p") none ∷ member (name "a") none ∷ member (name "b") none ∷ []

abbrev priority_config : Config
priority_config = record {
  is_quorum_commit_mode = false;
  supports_quorum_commit = true;
  supports_multiple_sync = true;
  synchronous_node_count = 1;
  maximum_lag_on_syncnode = pos 20;
}

abbrev replica_a : Replica
replica_a = record {
  pid = 7;
  application_name = name "a";
  sync_state = name "sync";
  lsn = 40;
  nofailover = false;
  sync_priority = pos 1;
}

abbrev replica_b : Replica
replica_b = record {
  pid = 8;
  application_name = name "b";
  sync_state = name "potential";
  lsn = 30;
  nofailover = false;
  sync_priority = pos 1;
}

abbrev replicas_ab : ReplicaList
replicas_ab = record { replicas = replica_a ∷ replica_b ∷ []; max_lsn = 40 }

list_ab : replica_list 10 primary standbys ≡ some replicas_ab
unfolding program
list_ab = refl

abbrev ssn_a : Ssn
ssn_a = record { sync_type = SyncType.priority; has_star = false; num = 1; members = name "a" ∷ [] }

abbrev handler_a : Handler
handler_a = record {
  synchronous_standby_names = name "a";
  ssn_data = ssn_a;
  primary_flush_lsn = 40;
  ready_replicas = [];
}

abbrev handler_ready : Handler
handler_ready = record {
  synchronous_standby_names = name "a";
  ssn_data = ssn_a;
  primary_flush_lsn = 40;
  ready_replicas = record { lowered = name "a"; key = name "a"; value = 7 } ∷ [];
}

abbrev state_a : CurrentState
state_a = record {
  sync_type = SyncType.priority;
  numsync = 1;
  sync = name "a" ∷ [];
  chosen = record { active = name "a" ∷ []; sync_confirmed = name "a" ∷ [] };
}

current_state_run :
    current_state 10 priority_config (name "a") 40 primary standbys (empty none) new_handler
    ≡ some (state_a, handler_ready)
unfolding program
current_state_run = refl

new_handler-IsReady : IsReady new_handler
unfolding program
new_handler-IsReady = record { valid = tt; listed = λ k e. absurd (cc) }

Reaches-IsReady_example : IsReady handler_ready
Reaches-IsReady_example = Reaches-IsReady handler_ready (
    Reaches.called 10 priority_config (name "a") 40 primary standbys (empty none) new_handler
      state_a handler_ready Reaches.created current_state_run)

handler_a-IsReady : IsReady handler_a
unfolding program
handler_a-IsReady = record { valid = tt; listed = λ k e. absurd (cc) }

not_yet : has_key (name "a") handler_a.ready_replicas ≡ false
unfolding program
not_yet = refl

now_ready :
    has_key
      (name "a")
      (process_replica_readiness priority_config
        (empty none)
        replicas_ab.replicas
        handler_a).ready_replicas
    ≡ true
unfolding program
now_ready = refl

process_replica_readiness-SomeReady_example :
    SomeReady priority_config (empty none) 40 (name "a") replicas_ab.replicas
process_replica_readiness-SomeReady_example =
    process_replica_readiness-SomeReady priority_config (empty none) replicas_ab.replicas handler_a
      (name "a") handler_a-IsReady not_yet now_ready

a_confirmed : contains (name "a") state_a.chosen.sync_confirmed ≡ true
unfolding program
a_confirmed = refl

current_state_confirmed_example :
    (contains (name "a") state_a.chosen.active ≡ true)
    × (contains (name "a") handler_ready.ssn_data.members ≡ true)
current_state_confirmed_example =
    current_state_confirmed 10 priority_config (name "a") 40 primary standbys (empty none)
      new_handler state_a handler_ready (name "a") new_handler-IsReady current_state_run a_confirmed

length-state_of-le_example :
    length (state_of priority_config replicas_ab handler_ready).chosen.active ≤ 1
length-state_of-le_example = length-state_of-le priority_config replicas_ab handler_ready refl

abbrev member_b : Member
member_b = member (name "b") (some (name "a"))

abbrev member_a : Member
member_a = member (name "a") none

abbrev chain : CaseInsensitiveDict Member
chain =
    record { lowered = name "a"; key = name "a"; value = member_a }
    ∷ record { lowered = name "b"; key = name "b"; value = member_b }
    ∷ []

abbrev InChain : Member → Type 0
InChain m = (m ≡ member_a) ⊎ (m ≡ member_b)

abbrev depth : Member → ℕ
depth m = elim m.replicatefrom [ none ↦ 0 | some n ↦ 1 ]

upstream_a : upstream chain member_a ≡ none
unfolding program
upstream_a = refl

upstream_b : upstream chain member_b ≡ some member_a
unfolding program
upstream_b = refl

chain-Ranked : Ranked InChain depth chain
chain-Ranked m u (inl here) e = absurd (nothing (sym upstream_a ∙ (rw here at e)))
  where
    nothing : none ≡ some u → ⊥
    nothing z = absurd (cc)
chain-Ranked m u (inr here) e = (inl up, rw (up, here) (omega arith))
  where
    found : some member_a ≡ some u
    found = sym upstream_b ∙ (rw here at e)

    up : u ≡ member_a
    up = sym (ap (λ o. elim o [ none ↦ member_a | some v ↦ v ]) found)

should_cascade_terminates_example : (b : Bool) × (should_cascade 2 chain [] member_b ≡ some b)
should_cascade_terminates_example =
    should_cascade_terminates InChain depth chain [] chain-Ranked 2 member_b (inr refl)
      (omega arith)

abbrev looped : Member
looped = member (name "c") (some (name "c"))

abbrev loop : CaseInsensitiveDict Member
loop = record { lowered = name "c"; key = name "c"; value = looped } ∷ []

looped-upstream : upstream loop looped ≡ some looped
unfolding program
looped-upstream = refl

looped-set : is_set looped.replicatefrom ≡ true
unfolding program
looped-set = refl

loop-closed :
    (m : Member)
    → m ≡ looped
    → (u : Member) × (upstream loop m ≡ some u) × (is_set u.replicatefrom ≡ true) × (u ≡ looped)
loop-closed m e = (looped, rw e looped-upstream, looped-set, refl)

should_cascade_circle_example : should_cascade 1000 loop [] looped ≡ none
should_cascade_circle_example =
    should_cascade_circle (λ m. m ≡ looped) loop [] loop-closed 1000 looped refl
