-- ===== src/Postgresql/Sync/Confirmed.antt =====
-- The standbys that `SyncHandler.current_state` confirms (patroni/postgresql/sync.py).
use mathlib.Core.Path.{subst}
use metatroni.Prelude.{ℕ, ◌≡◌, sym, ◌∙◌, ap, true, List, Option, none, some, Option-cases, inl, inr}
use metatroni.Names.{Name, lower}
use metatroni.Collections.{contains}
use metatroni.Dcs.SyncState.{SyncState}
use metatroni.Postgresql.Sync.Replicas.{Primary, Member, replica_list}
use metatroni.Postgresql.Sync.Handler.{
  Handler, Config, CurrentState, current_state, handle_change, process_replica_readiness, state_of,
}
use metatroni.Postgresql.Sync.Ready.{IsReady, current_state-IsReady, contains-lower}
use metatroni.Postgresql.Sync.Choice.{state_of_confirmed}

-- A confirmed standby is active, and the setting lists it.
abbrev Confirms : CurrentState × Handler → Type 0
Confirms (s, h) =
    IsReady h
    → (x : Name) → contains x s.chosen.sync_confirmed ≡ true
    → (contains x s.chosen.active ≡ true) × (contains x h.ssn_data.members ≡ true)

state_of-Confirms :
    (c : Config) (l : metatroni.Postgresql.Sync.Replicas.ReplicaList) (h : Handler)
    → Confirms (state_of c l h, h)
state_of-Confirms c l h ready x e =
    let (active, has) = state_of_confirmed c l h x e in
    (active, sym (contains-lower x h.ssn_data.members) ∙ ready.listed (lower x) has)

-- Each standby that current_state confirms is active, and listed in the value of
-- synchronous_standby_names that the handler has last seen.
pub current_state_confirmed :
    (f : ℕ) (c : Config) (setting : Name) (last_operation : ℕ) (p : Primary) (ms : List Member)
    (sync : SyncState) (h : Handler) (s : CurrentState) (h' : Handler) (x : Name)
    → IsReady h
    → current_state f c setting last_operation p ms sync h ≡ some (s, h')
    → contains x s.chosen.sync_confirmed ≡ true
    → (contains x s.chosen.active ≡ true) × (contains x h'.ssn_data.members ≡ true)
unfolding current_state
current_state_confirmed f c setting last_operation p ms sync h s h' x v e k =
    elim (Option-cases (replica_list f p ms)) [
      | inl recursion ↦ absurd (no_some (rw recursion at e))
      | inr (l, found) ↦
          subst Confirms (ap after (rw found at e))
            (state_of-Confirms c l (
              process_replica_readiness c sync l.replicas (handle_change setting last_operation h)))
            (current_state-IsReady f c setting last_operation p ms sync h s h' v e) x k
    ]
  where
    after : Option (CurrentState × Handler) → CurrentState × Handler
    after none = (s, h')
    after (some r) = r

    no_some : {A : Type 0} {a : A} → none ≡ some a → ⊥
    no_some z = absurd (cc)
