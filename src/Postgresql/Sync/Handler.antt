-- ===== src/Postgresql/Sync/Handler.antt =====
-- `SyncHandler` of patroni/postgresql/sync.py: the cached value of `synchronous_standby_names`, the
-- replicas that were seen to have caught up with it, and the choice of the synchronous standbys.
use metatroni.Prelude.{
  ℕ, Bool, true, false, not, ◌&&◌, ◌||◌, List, [], ◌∷◌, Option, none, some, leb, ltb, if◌then◌else◌,
  length,
}
use metatroni.Prelude.Int.{ℤ, pos, sub_ℕ, leb_ℤ}
use metatroni.Names.{Name, name, name_eq, lower}
use metatroni.Collections.{CaseInsensitiveSet, add, contains}
use metatroni.Collections.Dict.{CaseInsensitiveDict, has_key, keys, remove, set_item}
use metatroni.Dcs.SyncState.{SyncState, matches}
use metatroni.Postgresql.Sync.Parser.{SyncType, Ssn, empty_ssn, parse_sync_standby_names}
use metatroni.Postgresql.Sync.Replicas.{
  Member, Replica, ReplicaList, Primary, replica_list, sort_by,
}

-- The attributes of a `SyncHandler`; a ready replica has the number of its process.
pub record Handler : Type 0 where
  pub synchronous_standby_names : Name
  pub ssn_data : Ssn
  pub primary_flush_lsn : ℕ
  pub ready_replicas : CaseInsensitiveDict ℕ

-- `__init__`
abbrev pub new_handler : Handler
new_handler = record {
  synchronous_standby_names = [];
  ssn_data = empty_ssn;
  primary_flush_lsn = 0;
  ready_replicas = [];
}

-- The loop that invalidates the cache, over the keys that it has: none of them is missing.
unfoldable pub invalidate :
    List Name → CaseInsensitiveSet → CaseInsensitiveDict ℕ → CaseInsensitiveDict ℕ
invalidate [] members ready = ready
invalidate (k ∷ ks) members ready =
    if contains k members
    then invalidate ks members ready
    else invalidate ks members (remove (lower k) ready)

-- `except ValueError`
abbrev pub or_empty_ssn : Option Ssn → Ssn
or_empty_ssn none = empty_ssn
or_empty_ssn (some ssn) = ssn

abbrev changed : Name → ℕ → Ssn → CaseInsensitiveDict ℕ → Handler
changed setting last_operation ssn ready = record {
  synchronous_standby_names = setting;
  ssn_data = ssn;
  primary_flush_lsn = last_operation;
  ready_replicas = invalidate (keys ready) ssn.members ready;
}

-- `_handle_synchronous_standby_names_change`, for what the database says of the setting and of its
-- last operation.
unfoldable pub handle_change : Name → ℕ → Handler → Handler
unfolding invalidate
handle_change setting last_operation h =
    if name_eq setting h.synchronous_standby_names
    then h
    else changed setting last_operation (or_empty_ssn (parse_sync_standby_names setting))
        h.ready_replicas

-- What the choice reads of the configuration and of the version of the database.
pub record Config : Type 0 where
  pub is_quorum_commit_mode : Bool
  pub supports_quorum_commit : Bool
  pub supports_multiple_sync : Bool
  pub synchronous_node_count : ℕ
  pub maximum_lag_on_syncnode : ℤ

-- The replica has caught up, or the `/sync` key lists it.
unfoldable pub is_ready : Config → SyncState → ℕ → Replica → Bool
is_ready c sync flush_lsn r =
    if c.is_quorum_commit_mode
    then leb flush_lsn r.lsn
      && (name_eq r.sync_state (name "quorum")
          || (not c.supports_quorum_commit
              && (name_eq r.sync_state (name "sync") || name_eq r.sync_state (name "potential"))))
    else matches sync (some r.application_name) false
      || (name_eq r.sync_state (name "sync") && leb flush_lsn r.lsn)

-- One turn of the loop of `_process_replica_readiness`.
unfoldable pub mark_ready :
    Config → SyncState → Handler → Replica → CaseInsensitiveDict ℕ → CaseInsensitiveDict ℕ
unfolding is_ready
mark_ready c sync h r ready =
    if not (has_key (lower r.application_name) ready)
      && contains r.application_name h.ssn_data.members
      && is_ready c sync h.primary_flush_lsn r
    then set_item r.application_name r.pid ready
    else ready

unfoldable pub mark_all :
    Config → SyncState → Handler → List Replica → CaseInsensitiveDict ℕ → CaseInsensitiveDict ℕ
unfolding mark_ready
mark_all c sync h [] ready = ready
mark_all c sync h (r ∷ rs) ready = mark_all c sync h rs (mark_ready c sync h r ready)

-- `_process_replica_readiness`
unfoldable pub process_replica_readiness : Config → SyncState → List Replica → Handler → Handler
unfolding mark_all
process_replica_readiness c sync rs h = record {
  synchronous_standby_names = h.synchronous_standby_names;
  ssn_data = h.ssn_data;
  primary_flush_lsn = h.primary_flush_lsn;
  ready_replicas = mark_all c sync h rs h.ready_replicas;
}

-- `active` and `sync_confirmed`
pub record Chosen : Type 0 where
  pub active : CaseInsensitiveSet
  pub sync_confirmed : CaseInsensitiveSet

abbrev add_if : Bool → Name → CaseInsensitiveSet → CaseInsensitiveSet
add_if true v s = add v s
add_if false v s = s

-- The replica does not lag too far behind.
unfoldable pub is_near : ℤ → ℕ → Replica → Bool
is_near max_lag max_lsn r = leb_ℤ max_lag (pos 0) || leb_ℤ (sub_ℕ max_lsn r.lsn) max_lag

-- Both sets with a replica, and what must hold for it to be confirmed.
unfoldable pub choose : Bool → Name → Chosen → Chosen
choose confirmed v out = record {
  active = add v out.active;
  sync_confirmed = add_if confirmed v out.sync_confirmed;
}

-- The loop of `current_state` over the replicas.
unfoldable pub choose_all : Config → CaseInsensitiveDict ℕ → ℕ → ℕ → List Replica → Chosen → Chosen
unfolding choose is_near
choose_all c ready count max_lsn [] out = out
choose_all c ready count max_lsn (r ∷ rs) out =
    let ready_now = has_key (lower r.application_name) ready in
    let quorum_out = choose ready_now r.application_name out in
    let out' = choose (name_eq r.sync_state (name "sync") && ready_now) r.application_name out in
    let skipped = choose_all c ready count max_lsn rs out in
    let with_quorum = choose_all c ready count max_lsn rs quorum_out in
    let further = choose_all c ready count max_lsn rs out' in
    if is_near c.maximum_lag_on_syncnode max_lsn r
    then (if c.is_quorum_commit_mode
        then (if not r.nofailover || ltb (length out.active) count then with_quorum else skipped)
        else (if leb count (length out'.active) then out' else further))
    else skipped

-- `sync_node_count`
abbrev pub node_count : Config → ℕ
node_count c = if c.supports_multiple_sync then c.synchronous_node_count else 1

-- `sorted(replica_list, key=lambda x: x.nofailover)`
abbrev pub failover_first : Replica → Replica → Bool
failover_first r q = not r.nofailover && q.nofailover

-- `_SyncState`
pub record CurrentState : Type 0 where
  pub sync_type : SyncType
  pub numsync : ℕ
  pub sync : CaseInsensitiveSet
  pub chosen : Chosen

unfoldable pub state_of : Config → ReplicaList → Handler → CurrentState
unfolding choose_all sort_by
state_of c l h = record {
  sync_type = h.ssn_data.sync_type;
  numsync = h.ssn_data.num;
  sync = if h.ssn_data.has_star then [] else h.ssn_data.members;
  chosen =
      choose_all c h.ready_replicas (node_count c) l.max_lsn (sort_by failover_first l.replicas)
        (record { active = []; sync_confirmed = [] });
}

abbrev with_list :
    Config → SyncState → Handler → Option ReplicaList → Option (CurrentState × Handler)
with_list c sync h none = none
with_list c sync h (some l) =
    let h' = process_replica_readiness c sync l.replicas h in some (state_of c l h', h')

-- `current_state`, with the attributes afterwards; `none` is a `RecursionError`. The position of the
-- last operation is asked for where the setting has changed, and again for the list of the replicas.
unfoldable pub current_state :
    ℕ
    → Config
    → Name
    → ℕ
    → Primary
    → List Member
    → SyncState
    → Handler
    → Option (CurrentState × Handler)
unfolding handle_change process_replica_readiness state_of
current_state f c setting last_operation p ms sync h =
    with_list c sync (handle_change setting last_operation h) (replica_list f p ms)
