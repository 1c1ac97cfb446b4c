-- ===== src/Postgresql/Sync/Ready.antt =====
-- The cache of ready replicas of `SyncHandler` (patroni/postgresql/sync.py).
use Prim.Native.String.{String}
use mathlib.Core.Path.{subst}
use metatroni.Prelude.{
  ℕ, ◌≡◌, refl, sym, ◌∙◌, ap, Bool, true, false, not, ◌&&◌, ◌||◌, ◌⊎◌, List, [], ◌∷◌, Option, none,
  some, arith, Bool-cases, Option-cases, inl, inr, ◌≤◌, leb, leb→le, &&_split,
}
use metatroni.Names.{
  Name, name, name_eq, name_eq→eq, eq→name_eq, name_eq_refl, lower, lower_idem, same,
}
use metatroni.Collections.{CaseInsensitiveSet, contains}
use metatroni.Collections.Laws.{contains_congr}
use metatroni.Collections.Dict.{CaseInsensitiveDict, Item, has_key, keys, remove, set_item, store}
use metatroni.Collections.Dict.Laws.{
  IsValid, has_key-store, remove-IsValid, set_item-IsValid, has_key-removed,
}
use metatroni.Dcs.SyncState.{SyncState, matches}
use metatroni.Postgresql.Sync.Replicas.{Replica, Primary, Member, replica_list}
use metatroni.Postgresql.Sync.Handler.{
  Handler, Config, invalidate, handle_change, is_ready, mark_ready, mark_all,
  process_replica_readiness, CurrentState, current_state, new_handler,
}

-- The ready replicas are listed in `synchronous_standby_names`, under one key each.
pub record IsReady (h : Handler) : Type 0 where
  pub valid : IsValid h.ready_replicas
  pub listed : (k : Name) → has_key k h.ready_replicas ≡ true → contains k h.ssn_data.members ≡ true

abbrev Listed : CaseInsensitiveSet → CaseInsensitiveDict ℕ → Type 0
Listed members ready = (k : Name) → has_key k ready ≡ true → contains k members ≡ true

same-lower : (v : Name) → same (lower v) v ≡ true
unfolding same
same-lower v = rw (lower_idem v) (name_eq_refl (lower v))

pub contains-lower : (v : Name) (s : CaseInsensitiveSet) → contains (lower v) s ≡ contains v s
contains-lower v s = contains_congr (lower v) v s (same-lower v)

invalidate-IsValid :
    (ks : List Name) (members : CaseInsensitiveSet) (ready : CaseInsensitiveDict ℕ)
    → IsValid ready
    → IsValid (invalidate ks members ready)
unfolding invalidate
invalidate-IsValid [] members ready v = v
invalidate-IsValid (l ∷ ks) members ready v = elim (Bool-cases (contains l members)) [
  | inl listed ↦ rw listed (invalidate-IsValid ks members ready v)
  | inr gone ↦
      rw gone
        (invalidate-IsValid ks members (remove (lower l) ready) (remove-IsValid (lower l) ready v))
]

-- What is left was there.
has_key-invalidate :
    (k : Name) (ks : List Name) (members : CaseInsensitiveSet) (ready : CaseInsensitiveDict ℕ)
    → IsValid ready
    → has_key k (invalidate ks members ready) ≡ true
    → has_key k ready ≡ true
unfolding invalidate
has_key-invalidate k [] members ready v h = h
has_key-invalidate k (l ∷ ks) members ready v h = elim (Bool-cases (contains l members)) [
  | inl listed ↦ has_key-invalidate k ks members ready v (rw listed at h)
  | inr gone ↦
      (has_key-removed k (lower l) ready v (
        has_key-invalidate k ks members (remove (lower l) ready) (remove-IsValid (lower l) ready v)
          (rw gone at h))).0
]

unfoldable has_name : Name → List Name → Bool
has_name k [] = false
has_name k (l ∷ ks) = name_eq k l || has_name k ks

-- What is left of the keys of the loop is listed.
has_name-invalidate :
    (k : Name) (ks : List Name) (members : CaseInsensitiveSet) (ready : CaseInsensitiveDict ℕ)
    → IsValid ready
    → lower k ≡ k
    → has_name k ks ≡ true
    → has_key k (invalidate ks members ready) ≡ true
    → contains k members ≡ true
unfolding has_name invalidate
has_name-invalidate k [] members ready v low i h = absurd (cc)
has_name-invalidate k (l ∷ ks) members ready v low i h = elim (Bool-cases (contains l members)) [
  | inl listed ↦ elim (Bool-cases (name_eq k l)) [
    | inl here ↦ rw (name_eq→eq k l here) listed
    | inr further ↦ has_name-invalidate k ks members ready v low (rw further at i) (rw listed at h)
  ]
  | inr gone ↦ elim (Bool-cases (name_eq k l)) [
    | inl here ↦ absurd (
        clash here
          (has_key-removed k (lower l) ready v (
            has_key-invalidate k ks members (remove (lower l) ready)
              (remove-IsValid (lower l) ready v) (rw gone at h))).1)
    | inr further ↦
        has_name-invalidate k ks members (remove (lower l) ready) (remove-IsValid (lower l) ready v)
          low (rw further at i) (rw gone at h)
  ]
]
  where
    clash : name_eq k l ≡ true → name_eq k (lower l) ≡ false → ⊥
    clash here other =
        let e : k ≡ lower l = sym low ∙ ap lower (name_eq→eq k l here) in
        absurd (cc (eq→name_eq k (lower l) e, other))

has_key-keys : (k : Name) (d : CaseInsensitiveDict ℕ) → has_key k d ≡ has_name k (keys d)
unfolding has_key keys has_name
has_key-keys k [] = refl
has_key-keys k (i ∷ d) = rw (has_key-keys k d) refl

has_key-lower :
    (k : Name) (d : CaseInsensitiveDict ℕ) → IsValid d → has_key k d ≡ true → lower k ≡ k
unfolding has_key
has_key-lower k [] v h = absurd (cc)
has_key-lower k (i ∷ d) v h = elim (Bool-cases (name_eq k i.lowered)) [
  | inl here ↦
      let e : k ≡ lower i.key = name_eq→eq k i.lowered here ∙ v.0 in
      ap lower e ∙ lower_idem i.key ∙ sym e
  | inr further ↦ has_key-lower k d v.2 (rw further at h)
]

-- A change of the setting leaves only ready replicas that it lists.
handle_change-IsReady :
    (setting : Name) (last_operation : ℕ) (h : Handler)
    → IsReady h
    → IsReady (handle_change setting last_operation h)
unfolding handle_change
handle_change-IsReady setting last_operation h k =
    elim (Bool-cases (name_eq setting h.synchronous_standby_names)) [
      | inl same_setting ↦ rw same_setting k
      | inr other ↦ rw other (record {
        valid = invalidate-IsValid (keys h.ready_replicas) _ h.ready_replicas k.valid;
        listed = λ n e.
            let there = has_key-invalidate n (keys h.ready_replicas) _ h.ready_replicas k.valid e in
            has_name-invalidate n (keys h.ready_replicas) _ h.ready_replicas k.valid
              (has_key-lower n h.ready_replicas k.valid there)
              (sym (has_key-keys n h.ready_replicas) ∙ there) e;
      })
    ]

has_key-set_item :
    (k key : Name) (pid : ℕ) (ready : CaseInsensitiveDict ℕ)
    → has_key k (set_item key pid ready) ≡ true
    → (k ≡ lower key) ⊎ (has_key k ready ≡ true)
has_key-set_item k key pid ready h =
    let item : Item ℕ = record { lowered = lower key; key = key; value = pid } in
    elim (Bool-cases (name_eq k (lower key))) [
      | inl here ↦ inl (name_eq→eq k (lower key) here)
      | inr other ↦ inr (ground (arith, has_key-store k item ready, unfolded item, other))
    ]
  where
    unfolded :
        (i : Item ℕ)
        → has_key k (store (record { lowered = lower key; key = key; value = pid }) ready) ≡ true
    unfolded i = unfold set_item in h

-- The test of a turn.
abbrev marks : Config → SyncState → Handler → Replica → CaseInsensitiveDict ℕ → Bool
marks c sync h r ready =
    not (has_key (lower r.application_name) ready)
    && contains r.application_name h.ssn_data.members
    && is_ready c sync h.primary_flush_lsn r

-- What a turn may add.
mark_ready_keys :
    (c : Config) (sync : SyncState) (h : Handler) (r : Replica) (ready : CaseInsensitiveDict ℕ)
    → IsValid ready
    → IsValid (mark_ready c sync h r ready)
      × ((k : Name)
          → has_key k (mark_ready c sync h r ready) ≡ true
          → (has_key k ready ≡ true)
            ⊎ ((k ≡ lower r.application_name)
                × (contains k h.ssn_data.members ≡ true)
                × (is_ready c sync h.primary_flush_lsn r ≡ true)))
unfolding mark_ready
mark_ready_keys c sync h r ready v = elim (Bool-cases (marks c sync h r ready)) [
  | inr skipped ↦ rw skipped (v, λ k e. inl e)
  | inl added ↦ rw added (
    set_item-IsValid r.application_name r.pid ready v,
    λ k e. elim (has_key-set_item k r.application_name r.pid ready e) [
      | inl here ↦ inr (
        here,
        rw here (contains-lower r.application_name h.ssn_data.members ∙ (parts added).0),
        (parts added).1,
      )
      | inr there ↦ inl there
    ],
  )
]
  where
    parts :
        marks c sync h r ready ≡ true
        → (contains r.application_name h.ssn_data.members ≡ true)
          × (is_ready c sync h.primary_flush_lsn r ≡ true)
    parts e = ground (arith, e)

-- What entitles a replica to be ready: with quorum commit its position and its state, where `sync` and
-- `potential` count for a database that does not support it; else the `/sync` key, or its position
-- and the state `sync`.
pub data IsEntitled (c : Config) (sync : SyncState) (flush_lsn : ℕ) (r : Replica) : Type 0 where
  of_quorum :
      c.is_quorum_commit_mode ≡ true
      → flush_lsn ≤ r.lsn
      → r.sync_state ≡ name "quorum"
      → IsEntitled c sync flush_lsn r
  of_standby :
      c.is_quorum_commit_mode ≡ true
      → flush_lsn ≤ r.lsn
      → c.supports_quorum_commit ≡ false
      → (r.sync_state ≡ name "sync") ⊎ (r.sync_state ≡ name "potential")
      → IsEntitled c sync flush_lsn r
  of_key :
      c.is_quorum_commit_mode ≡ false
      → matches sync (some r.application_name) false ≡ true
      → IsEntitled c sync flush_lsn r
  of_sync :
      c.is_quorum_commit_mode ≡ false
      → flush_lsn ≤ r.lsn
      → r.sync_state ≡ name "sync"
      → IsEntitled c sync flush_lsn r

or_split : (a b : Bool) → (a || b) ≡ true → (a ≡ true) ⊎ (b ≡ true)
or_split true b h = inl refl
or_split false b h = inr h

from_not : (b : Bool) → not b ≡ true → b ≡ false
from_not b h = ground arith

is_ready-IsEntitled :
    (c : Config) (sync : SyncState) (flush_lsn : ℕ) (r : Replica)
    → is_ready c sync flush_lsn r ≡ true
    → IsEntitled c sync flush_lsn r
unfolding is_ready
is_ready-IsEntitled c sync flush_lsn r h = elim (Bool-cases c.is_quorum_commit_mode) [
  | inl quorum ↦
      let (position, states) = &&_split near (has "quorum" || older) (rw quorum at h) in
      let caught_up = leb→le flush_lsn r.lsn position in
      elim (or_split (has "quorum") older states) [
        | inl state ↦ IsEntitled.of_quorum quorum caught_up (the_state "quorum" state)
        | inr old ↦
            let (without, either) =
              &&_split (not c.supports_quorum_commit) (has "sync" || has "potential") old in
            let unsupported = from_not c.supports_quorum_commit without in
            IsEntitled.of_standby quorum caught_up unsupported
              (elim (or_split (has "sync") (has "potential") either) [
                | inl state ↦ inl (the_state "sync" state)
                | inr state ↦ inr (the_state "potential" state)
              ])
      ]
  | inr priority ↦
      let listed = matches sync (some r.application_name) false in
      elim (or_split listed (has "sync" && near) (rw priority at h)) [
        | inl in_key ↦ IsEntitled.of_key priority in_key
        | inr synced ↦
            let (state, position) = &&_split (has "sync") near synced in
            IsEntitled.of_sync priority (leb→le flush_lsn r.lsn position) (the_state "sync" state)
      ]
]
  where
    near : Bool
    near = leb flush_lsn r.lsn

    has : String → Bool
    has t = name_eq r.sync_state (name t)

    older : Bool
    older = not c.supports_quorum_commit && (has "sync" || has "potential")

    the_state : (t : String) → has t ≡ true → r.sync_state ≡ name t
    the_state t e = name_eq→eq r.sync_state (name t) e

-- Some replica has the key and is entitled to be ready.
abbrev pub SomeReady : Config → SyncState → ℕ → Name → List Replica → Type 0
SomeReady c sync flush_lsn k [] = ⊥
SomeReady c sync flush_lsn k (r ∷ rs) =
    ((k ≡ lower r.application_name) × IsEntitled c sync flush_lsn r)
    ⊎ SomeReady c sync flush_lsn k rs

mark_all_keys :
    (c : Config) (sync : SyncState) (h : Handler) (rs : List Replica)
    (ready : CaseInsensitiveDict ℕ)
    → IsValid ready
    → IsValid (mark_all c sync h rs ready)
      × ((k : Name)
          → has_key k (mark_all c sync h rs ready) ≡ true
          → (has_key k ready ≡ true)
            ⊎ ((contains k h.ssn_data.members ≡ true) × SomeReady c sync h.primary_flush_lsn k rs))
unfolding mark_all
mark_all_keys c sync h [] ready v = (v, λ k e. inl e)
mark_all_keys c sync h (r ∷ rs) ready v =
    let (valid, first) = mark_ready_keys c sync h r ready v in
    let (valid', rest) = mark_all_keys c sync h rs (mark_ready c sync h r ready) valid in
    (
      valid',
      λ k e. elim (rest k e) [
        | inr (listed, some_ready) ↦ inr (listed, inr some_ready)
        | inl there ↦ elim (first k there) [
          | inl before ↦ inl before
          | inr (here, listed, entitled) ↦
              inr (listed, inl (here, is_ready-IsEntitled c sync h.primary_flush_lsn r entitled))
        ]
      ],
    )

-- From a handler whose ready replicas the setting lists under one key each, a key becomes ready only
-- if a replica of the list has it and is entitled: with quorum commit by a position not below that
-- of the primary at the change of the setting and its state, else by the `/sync` key or by such a
-- position and the state sync.
pub process_replica_readiness-SomeReady :
    (c : Config) (sync : SyncState) (rs : List Replica) (h : Handler) (k : Name)
    → IsReady h
    → has_key k h.ready_replicas ≡ false
    → has_key k (process_replica_readiness c sync rs h).ready_replicas ≡ true
    → SomeReady c sync h.primary_flush_lsn k rs
unfolding process_replica_readiness
process_replica_readiness-SomeReady c sync rs h k v before after =
    elim ((mark_all_keys c sync h rs h.ready_replicas v.valid).1 k after) [
      | inl there ↦ absurd (cc)
      | inr (listed, some_ready) ↦ some_ready
    ]

process_replica_readiness-IsReady :
    (c : Config) (sync : SyncState) (rs : List Replica) (h : Handler)
    → IsReady h
    → IsReady (process_replica_readiness c sync rs h)
unfolding process_replica_readiness
process_replica_readiness-IsReady c sync rs h v =
    let (valid, keys_of) = mark_all_keys c sync h rs h.ready_replicas v.valid in
    record {
      valid = valid;
      listed = λ k e. elim (keys_of k e) [
        | inl there ↦ v.listed k there
        | inr (listed, some_ready) ↦ listed
      ];
    }

-- From a handler whose ready replicas the setting lists under one key each, a call of `current_state`
-- that returns leaves such a handler.
pub current_state-IsReady :
    (f : ℕ) (c : Config) (setting : Name) (last_operation : ℕ) (p : Primary) (ms : List Member)
    (sync : SyncState) (h : Handler) (s : CurrentState) (h' : Handler)
    → IsReady h
    → current_state f c setting last_operation p ms sync h ≡ some (s, h')
    → IsReady h'
unfolding current_state
current_state-IsReady f c setting last_operation p ms sync h s h' v e =
    elim (Option-cases (replica_list f p ms)) [
      | inl recursion ↦ absurd (no_some (rw recursion at e))
      | inr (l, found) ↦ subst IsReady (ap after (rw found at e)) (
          process_replica_readiness-IsReady c sync l.replicas
            (handle_change setting last_operation h)
            (handle_change-IsReady setting last_operation h v))
    ]
  where
    after : Option (CurrentState × Handler) → Handler
    after none = h
    after (some r) = r.1

    no_some : {A : Type 0} {a : A} → none ≡ some a → ⊥
    no_some z = absurd (cc)

-- The handlers that there are: a new one, that after a call of `current_state` that returns, and that
-- after the part of it, and of `set_synchronous_standby_names`, that looks for a new setting.
pub data Reaches : Handler → Type 0 where
  created : Reaches new_handler
  noticed :
      (setting : Name) (last_operation : ℕ) (h : Handler)
      → Reaches h
      → Reaches (handle_change setting last_operation h)
  called :
      (f : ℕ) (c : Config) (setting : Name) (last_operation : ℕ) (p : Primary) (ms : List Member)
      (sync : SyncState) (h : Handler) (s : CurrentState) (h' : Handler)
      → Reaches h
      → current_state f c setting last_operation p ms sync h ≡ some (s, h')
      → Reaches h'

-- In every handler that calls lead to from a new one, the ready replicas are among those that the
-- cached synchronous_standby_names lists, under one key each.
pub Reaches-IsReady : (h : Handler) → Reaches h → IsReady h
unfolding has_key
Reaches-IsReady h Reaches.created = record { valid = tt; listed = λ k e. absurd cc }
Reaches-IsReady h (Reaches.noticed setting last_operation g r) =
    handle_change-IsReady setting last_operation g (Reaches-IsReady g r)
Reaches-IsReady h (Reaches.called f c setting last_operation p ms sync g s _ r e) =
    current_state-IsReady f c setting last_operation p ms sync g s h (Reaches-IsReady g r) e
