-- ===== src/Postgresql/Sync/Replicas.antt =====
-- `_Replica` and `_ReplicaList` of patroni/postgresql/sync.py: the replicas that may become
-- synchronous, in the order of their preference. A position in the log is a number; the properties
-- of a member are those of its tags.
use metatroni.Prelude.{
  ℕ, zero, suc, max, Bool, true, false, not, ◌&&◌, ◌||◌, List, [], ◌∷◌, map, keep, Option, none,
  some, ltb, if◌then◌else◌,
}
use metatroni.Prelude.Int.{ℤ, ltb_ℤ, leb_ℤ}
use metatroni.Names.{Name, name, name_eq, name_le, lower}
use metatroni.Collections.Dict.{CaseInsensitiveDict, Item, get_item, has_key, put_plain, update}
use metatroni.Dcs.SyncState.{is_set}

-- What is used of a member of the cluster.
pub record Member : Type 0 where
  pub name : Name
  pub is_running : Bool
  pub nosync : Bool
  pub nofailover : Bool
  pub sync_priority : ℤ
  pub replicatefrom : Option Name

-- A row of `pg_stat_replication`
pub record Row : Type 0 where
  pub pid : ℕ
  pub application_name : Name
  pub sync_state : Name
  pub write_lsn : Option ℕ
  pub flush_lsn : Option ℕ
  pub replay_lsn : Option ℕ

pub record Replica : Type 0 where
  pub pid : ℕ
  pub application_name : Name
  pub sync_state : Name
  pub lsn : ℕ
  pub nofailover : Bool
  pub sync_priority : ℤ

pub record ReplicaList : Type 0 where
  pub replicas : List Replica
  pub max_lsn : ℕ

-- `row[sort_col]`
unfoldable pub lsn_of : Name → Row → Option ℕ
lsn_of synchronous_commit row =
    if name_eq synchronous_commit (name "remote_apply")
    then row.replay_lsn
    else if name_eq synchronous_commit (name "remote_write")
    then row.write_lsn
    else row.flush_lsn

-- `CaseInsensitiveDict({key(x): x for x in xs})`
unfoldable pub dict_by :
    {A : Type 0} → (A → Name) → List A → List (Name × A) → CaseInsensitiveDict A
dict_by key [] items = update items []
dict_by key (x ∷ xs) items = dict_by key xs (put_plain (key x) x items)

-- The members that are eligible to stream from the node.
unfoldable pub eligible : Name → Member → Bool
eligible own m = m.is_running && not m.nosync && not (name_eq (lower m.name) (lower own))

unfoldable pub members_of : Name → List Member → CaseInsensitiveDict Member
unfolding dict_by eligible
members_of own ms = dict_by (λ (m : Member). m.name) (keep (eligible own) ms) []

abbrev pub is_some : {A : Type 0} → Option A → Bool
is_some none = false
is_some (some a) = true

unfoldable pub replication_of :
    Name → CaseInsensitiveDict Member → List Row → CaseInsensitiveDict Row
unfolding dict_by lsn_of
replication_of synchronous_commit members rows =
    dict_by (λ (r : Row). r.application_name)
      (keep
        (λ (r : Row).
          is_some (lsn_of synchronous_commit r) && has_key (lower r.application_name) members)
        rows)
      []

-- The member that another one is told to replicate from, if the tag is set and names one.
unfoldable pub upstream : CaseInsensitiveDict Member → Member → Option Member
upstream members m = elim m.replicatefrom [
  | none ↦ none
  | some [] ↦ none
  | some (c ∷ s) ↦ get_item (c ∷ s) members
]

-- `_should_cascade`; `none` is a `RecursionError`: the fuel is the depth that is left.
unfoldable pub should_cascade :
    ℕ → CaseInsensitiveDict Member → CaseInsensitiveDict Row → Member → Option Bool
unfolding upstream is_set
should_cascade zero members replication m = none
should_cascade (suc f) members replication m = elim (upstream members m) [
  | none ↦ some false
  | some u ↦ elim (is_set u.replicatefrom) [
    | false ↦ some (has_key (lower u.name) replication)
    | true ↦ should_cascade f members replication u
  ]
]

abbrev replica : Row → Member → ℕ → Replica
replica row m lsn = record {
  pid = row.pid;
  application_name = row.application_name;
  sync_state = row.sync_state;
  lsn = lsn;
  nofailover = m.nofailover;
  sync_priority = m.sync_priority;
}

-- One turn of the loop over the rows, on what the later turns append.
abbrev add_replica : Row → Option Member → Option ℕ → Option Bool → List Replica → List Replica
add_replica row (some m) (some lsn) (some false) rs = replica row m lsn ∷ rs
add_replica row _ _ _ rs = rs

-- What `_should_cascade` says of the member of a row, where it is called.
unfoldable pub cascades :
    ℕ
    → CaseInsensitiveDict Member
    → CaseInsensitiveDict Row
    → Option Member
    → Option ℕ
    → Option Bool
unfolding should_cascade
cascades f members replication (some m) (some lsn) = should_cascade f members replication m
cascades f members replication _ _ = some false

-- The loop over the rows.
unfoldable pub collect :
    ℕ
    → Name
    → CaseInsensitiveDict Member
    → CaseInsensitiveDict Row
    → List Row
    → Option (List Replica)
unfolding cascades lsn_of
collect f commit members replication [] = some []
collect f commit members replication (row ∷ rows) =
    let member = get_item row.application_name members in
    let lsn = lsn_of commit row in
    let cascade = cascades f members replication member lsn in
    let rest = collect f commit members replication rows in
    elim cascade [
      | none ↦ none
      | some c ↦ elim rest [ none ↦ none | some rs ↦ some (add_replica row member lsn (some c) rs) ]
    ]

-- A stable sort, by what goes before what.
unfoldable pub insert_by : {A : Type 0} → (A → A → Bool) → A → List A → List A
insert_by before x [] = x ∷ []
insert_by before x (y ∷ ys) =
    let rest = insert_by before x ys in if before y x then y ∷ rest else x ∷ y ∷ ys

unfoldable pub sort_by : {A : Type 0} → (A → A → Bool) → List A → List A
unfolding insert_by
sort_by before [] = []
sort_by before (x ∷ xs) = insert_by before x (sort_by before xs)

-- The key of `r` is greater: the priority, the state, and then the position.
unfoldable pub preferred : Replica → Replica → Bool
preferred r q =
    ltb_ℤ q.sync_priority r.sync_priority
    || (leb_ℤ q.sync_priority r.sync_priority
        && (not (name_le r.sync_state q.sync_state)
            || (name_eq r.sync_state q.sync_state && ltb q.lsn r.lsn)))

unfoldable pub greatest : ℕ → List Replica → ℕ
greatest n [] = n
greatest n (r ∷ rs) = greatest (max n r.lsn) rs

-- `max_lsn`
unfoldable pub max_lsn_of : ℕ → List Replica → ℕ
unfolding greatest
max_lsn_of last_operation (r ∷ q ∷ rs) = greatest r.lsn (q ∷ rs)
max_lsn_of last_operation _ = last_operation

-- What is read of the database: its own name, the setting `synchronous_commit`, the rows, and the
-- position of the last operation.
pub record Primary : Type 0 where
  pub own : Name
  pub synchronous_commit : Name
  pub rows : List Row
  pub last_operation : ℕ

unfoldable pub list_of : ℕ → Option (List Replica) → Option ReplicaList
unfolding sort_by preferred max_lsn_of
list_of last_operation none = none
list_of last_operation (some rs) =
    let ordered = sort_by preferred rs in
    some (record { replicas = ordered; max_lsn = max_lsn_of last_operation ordered })

-- `__init__`; `none` is a `RecursionError`.
unfoldable pub replica_list : ℕ → Primary → List Member → Option ReplicaList
unfolding members_of replication_of collect list_of
replica_list f p ms =
    let members = members_of p.own ms in
    let replication = replication_of p.synchronous_commit members p.rows in
    list_of p.last_operation (
      collect f p.synchronous_commit members replication
        (map (λ (i : Item Row). i.value) replication))
