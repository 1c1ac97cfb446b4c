-- ===== src/Postgresql/Sync/Choice.antt =====
-- The choice of `SyncHandler.current_state` (patroni/postgresql/sync.py).
use metatroni.Prelude.{
  ◌⊎◌, ap, ℕ, suc, ◌+◌, max, ◌≡◌, refl, ◌∙◌, ◌≤◌, ◌<◌, Bool, true, false, not, ◌&&◌, ◌||◌, List, [],
  ◌∷◌, arith, leb, ltb, length, Bool-cases, inl, inr, &&_split,
}
use metatroni.Prelude.Int.{pos}
use metatroni.Names.{Name, name, name_eq, lower, same, name_eq→eq}
use metatroni.Collections.{CaseInsensitiveSet, add, contains}
use metatroni.Collections.Laws.{contains-add}
use metatroni.Collections.Size.{length-add-le}
use metatroni.Collections.Dict.{CaseInsensitiveDict, has_key}
use metatroni.Postgresql.Sync.Replicas.{Replica, ReplicaList, sort_by, insert_by}
use metatroni.Postgresql.Sync.Handler.{
  Handler, Config, Chosen, is_near, choose, choose_all, node_count, failover_first, state_of,
}

abbrev AllReplicas : (Replica → Type 0) → List Replica → Type 0
AllReplicas Q [] = Unit {0}
AllReplicas Q (r ∷ rs) = Q r × AllReplicas Q rs

insert_by-AllReplicas :
    (Q : Replica → Type 0) (before : Replica → Replica → Bool) (r : Replica) (rs : List Replica)
    → Q r
    → AllReplicas Q rs
    → AllReplicas Q (insert_by before r rs)
unfolding insert_by
insert_by-AllReplicas Q before r [] h k = (h, tt)
insert_by-AllReplicas Q before r (q ∷ rs) h k = elim (Bool-cases (before q r)) [
  | inl further ↦ rw further (k.0, insert_by-AllReplicas Q before r rs h k.1)
  | inr here ↦ rw here (h, k)
]

sort_by-AllReplicas :
    (Q : Replica → Type 0) (before : Replica → Replica → Bool) (rs : List Replica)
    → AllReplicas Q rs
    → AllReplicas Q (sort_by before rs)
unfolding sort_by
sort_by-AllReplicas Q before [] k = tt
sort_by-AllReplicas Q before (r ∷ rs) k =
    insert_by-AllReplicas Q before r (sort_by before rs) k.0 (sort_by-AllReplicas Q before rs k.1)

-- What every replica that is taken keeps, the loop keeps.
choose_all_keeps :
    (P : Chosen → Type 0) (Q : Replica → Type 0) (c : Config) (ready : CaseInsensitiveDict ℕ)
    (count max_lsn : ℕ)
    → ((r : Replica) (out : Chosen) (b : Bool)
        → Q r
        → is_near c.maximum_lag_on_syncnode max_lsn r ≡ true
        → (b ≡ true → has_key (lower r.application_name) ready ≡ true)
        → P out
        → P (choose b r.application_name out))
    → (rs : List Replica) (out : Chosen) → AllReplicas Q rs
    → P out
    → P (choose_all c ready count max_lsn rs out)
unfolding choose_all
choose_all_keeps P Q c ready count max_lsn step [] out q h = h
choose_all_keeps P Q c ready count max_lsn step (r ∷ rs) out q h =
    let further : (o : Chosen) → P o → P (choose_all c ready count max_lsn rs o) =
      λ o k. choose_all_keeps P Q c ready count max_lsn step rs o q.1 k in
    elim (Bool-cases (is_near c.maximum_lag_on_syncnode max_lsn r)) [
      | inr far ↦ rw (choose_all, far) (further out h)
      | inl near ↦ elim (Bool-cases c.is_quorum_commit_mode) [
        | inl quorum ↦ elim (Bool-cases (not r.nofailover || ltb (length out.active) count)) [
          | inl promotable ↦
              rw (choose_all, near, quorum, promotable) (further _ (taken _ near (λ e. e)))
          | inr other ↦ rw (choose_all, near, quorum, other) (further out h)
        ]
        | inr priority ↦
            elim (Bool-cases
              (leb count (length (choose confirmed r.application_name out).active))) [
                | inl full ↦
                    rw (choose_all, near, priority, full)
                      (taken _ near (λ e. (&&_split in_sync now e).1))
                | inr more ↦
                    rw (choose_all, near, priority, more)
                      (further _ (taken _ near (λ e. (&&_split in_sync now e).1)))
              ]
      ]
    ]
  where
    in_sync : Bool
    in_sync = name_eq r.sync_state (name "sync")

    now : Bool
    now = has_key (lower r.application_name) ready

    confirmed : Bool
    confirmed = in_sync && now

    taken :
        (b : Bool)
        → is_near c.maximum_lag_on_syncnode max_lsn r ≡ true
        → (b ≡ true → now ≡ true)
        → P (choose b r.application_name out)
    taken b near k = step r out b q.0 near k h

-- Where the limit on the lag is positive, the replica is that close to the greatest position.
abbrev pub IsNear : Config → ℕ → Replica → Type 0
IsNear c max_lsn r = (n : ℕ) → c.maximum_lag_on_syncnode ≡ pos (suc n) → max_lsn ≤ r.lsn + suc n

near_pos :
    (n max_lsn : ℕ) (r : Replica) → is_near (pos (suc n)) max_lsn r ≡ true → max_lsn ≤ r.lsn + suc n
unfolding is_near
near_pos n max_lsn r h = ground arith

is_near-IsNear :
    (c : Config) (max_lsn : ℕ) (r : Replica)
    → is_near c.maximum_lag_on_syncnode max_lsn r ≡ true
    → IsNear c max_lsn r
is_near-IsNear c max_lsn r h n e = near_pos n max_lsn r (rw e at h)

-- A replica of the name that does not lag too far behind.
abbrev pub SomeNear : Config → ℕ → Name → List Replica → Type 0
SomeNear c max_lsn x [] = ⊥
SomeNear c max_lsn x (r ∷ rs) =
    ((same x r.application_name ≡ true) × IsNear c max_lsn r) ⊎ SomeNear c max_lsn x rs

-- A replica of the list, in view of the whole of it.
abbrev Counts : Config → ℕ → List Replica → Replica → Type 0
Counts c max_lsn rs r =
    (x : Name)
    → same x r.application_name ≡ true
    → is_near c.maximum_lag_on_syncnode max_lsn r ≡ true
    → SomeNear c max_lsn x rs

all-Counts : (c : Config) (max_lsn : ℕ) (rs : List Replica) → AllReplicas (Counts c max_lsn rs) rs
all-Counts c max_lsn [] = tt
all-Counts c max_lsn (r ∷ rs) =
    (λ x e near. inl (e, is_near-IsNear c max_lsn r near), wider rs (all-Counts c max_lsn rs))
  where
    wider :
        (qs : List Replica)
        → AllReplicas (Counts c max_lsn rs) qs
        → AllReplicas (Counts c max_lsn (r ∷ rs)) qs
    wider [] k = tt
    wider (q ∷ qs) k = (λ x e near. inr (k.0 x e near), wider qs k.1)

-- What the loop keeps of both sets.
record Sound (c : Config) (ready : CaseInsensitiveDict ℕ) (max_lsn : ℕ) (rs : List Replica)
    (out : Chosen) : Type 0 where
  from_list : (x : Name) → contains x out.active ≡ true → SomeNear c max_lsn x rs
  confirmed_active :
      (x : Name) → contains x out.sync_confirmed ≡ true → contains x out.active ≡ true
  confirmed_ready :
      (x : Name) → contains x out.sync_confirmed ≡ true → has_key (lower x) ready ≡ true

same→lower : (x y : Name) → same x y ≡ true → lower x ≡ lower y
unfolding same
same→lower x y h = name_eq→eq (lower x) (lower y) h

contains-added :
    (x v : Name) (s : CaseInsensitiveSet)
    → contains x (add v s) ≡ true
    → (same x v ≡ true) ⊎ (contains x s ≡ true)
contains-added x v s h = ground (arith, contains-add x v s, h)

contains-widened :
    (x v : Name) (s : CaseInsensitiveSet) → contains x s ≡ true → contains x (add v s) ≡ true
contains-widened x v s h = ground (arith, contains-add x v s, h)

choose-Sound :
    (c : Config) (ready : CaseInsensitiveDict ℕ) (max_lsn : ℕ) (rs : List Replica) (r : Replica)
    (out : Chosen) (b : Bool)
    → Counts c max_lsn rs r
    → is_near c.maximum_lag_on_syncnode max_lsn r ≡ true
    → (b ≡ true → has_key (lower r.application_name) ready ≡ true)
    → Sound c ready max_lsn rs out
    → Sound c ready max_lsn rs (choose b r.application_name out)
unfolding choose
choose-Sound c ready max_lsn rs r out b q near k h = record {
  from_list = λ x e. elim (contains-added x r.application_name out.active e) [
    | inl here ↦ q x here near
    | inr before ↦ h.from_list x before
  ];
  confirmed_active = λ x e. both b x e;
  confirmed_ready = λ x e. ready_now b k x e;
}
  where
    confirmed : Bool → CaseInsensitiveSet
    confirmed a = (choose a r.application_name out).sync_confirmed

    both :
        (a : Bool) (x : Name)
        → contains x (confirmed a) ≡ true
        → contains x (add r.application_name out.active) ≡ true
    both true x e = elim (contains-added x r.application_name out.sync_confirmed e) [
      | inl here ↦ ground (arith, contains-add x r.application_name out.active, here)
      | inr before ↦ contains-widened x r.application_name out.active (h.confirmed_active x before)
    ]
    both false x e = contains-widened x r.application_name out.active (h.confirmed_active x e)

    ready_now :
        (a : Bool)
        → (a ≡ true → has_key (lower r.application_name) ready ≡ true)
        → (x : Name) → contains x (confirmed a) ≡ true
        → has_key (lower x) ready ≡ true
    ready_now false l x e = h.confirmed_ready x e
    ready_now true l x e = elim (contains-added x r.application_name out.sync_confirmed e) [
      | inl here ↦ ap (λ n. has_key n ready) (same→lower x r.application_name here) ∙ l refl
      | inr before ↦ h.confirmed_ready x before
    ]

-- What `current_state` chooses.
state_of-Sound :
    (c : Config) (l : ReplicaList) (h : Handler)
    → Sound c h.ready_replicas l.max_lsn l.replicas (state_of c l h).chosen
unfolding state_of
state_of-Sound c l h =
    choose_all_keeps (Sound c h.ready_replicas l.max_lsn l.replicas) (Counts c l.max_lsn l.replicas)
      c h.ready_replicas (node_count c) l.max_lsn
      (λ r out b q near k s.
        choose-Sound c h.ready_replicas l.max_lsn l.replicas r out b q near k s)
      (sort_by failover_first l.replicas) (record { active = []; sync_confirmed = [] })
      (sort_by-AllReplicas (Counts c l.max_lsn l.replicas) failover_first l.replicas
        (all-Counts c l.max_lsn l.replicas))
      (record {
        from_list = λ x e. absurd (nothing x e);
        confirmed_active = λ x e. e;
        confirmed_ready = λ x e. absurd (nothing x e);
      })
  where
    nothing : (x : Name) → contains x [] ≡ true → ⊥
    nothing x e = unfold contains in absurd (cc)

-- Each confirmed standby is active, and a ready replica.
pub state_of_confirmed :
    (c : Config) (l : ReplicaList) (h : Handler) (x : Name)
    → contains x (state_of c l h).chosen.sync_confirmed ≡ true
    → (contains x (state_of c l h).chosen.active ≡ true)
      × (has_key (lower x) h.ready_replicas ≡ true)
state_of_confirmed c l h x e =
    ((state_of-Sound c l h).confirmed_active x e, (state_of-Sound c l h).confirmed_ready x e)

-- The loop stops at the number of standbys, one at least.
length-choose_all-le :
    (c : Config) (ready : CaseInsensitiveDict ℕ) (count max_lsn : ℕ) (rs : List Replica)
    (out : Chosen)
    → c.is_quorum_commit_mode ≡ false
    → (length out.active < count) ⊎ (length out.active ≡ 0)
    → length (choose_all c ready count max_lsn rs out).active ≤ max 1 count
unfolding choose_all
length-choose_all-le c ready count max_lsn [] out h k = omega (arith, k)
length-choose_all-le c ready count max_lsn (r ∷ rs) out h k =
    elim (Bool-cases (is_near c.maximum_lag_on_syncnode max_lsn r)) [
      | inr far ↦ rw (choose_all, far) (length-choose_all-le c ready count max_lsn rs out h k)
      | inl near ↦ elim (Bool-cases (leb count (length (taken r out).active))) [
        | inl full ↦
            rw (choose_all, near, h, full)
              (unfold choose in omega (arith, length-add-le r.application_name out.active, k))
        | inr more ↦
            rw (choose_all, near, h, more)
              (length-choose_all-le c ready count max_lsn rs (taken r out) h
                (inl (ground (arith, more))))
      ]
    ]
  where
    taken : Replica → Chosen → Chosen
    taken q o =
        choose (name_eq q.sync_state (name "sync") && has_key (lower q.application_name) ready)
          q.application_name o

-- In priority mode no more standbys are chosen than the configuration asks for, or one.
pub length-state_of-le :
    (c : Config) (l : ReplicaList) (h : Handler)
    → c.is_quorum_commit_mode ≡ false
    → length (state_of c l h).chosen.active ≤ max 1 (node_count c)
unfolding state_of
length-state_of-le c l h mode =
    length-choose_all-le c h.ready_replicas (node_count c) l.max_lsn
      (sort_by failover_first l.replicas) (record { active = []; sync_confirmed = [] }) mode
      (inr refl)
