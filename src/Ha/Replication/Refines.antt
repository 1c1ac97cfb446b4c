-- ===== src/Ha/Replication/Refines.antt =====
-- The store and the database follow the transitions of the resolver (patroni/ha.py and
-- patroni/quorum.py), wherever a round stops.
use metatroni.Prelude.{
  ℕ, ◌≤◌, ◌≡◌, refl, sym, ◌∙◌, ap, Bool, List, [], ◌∷◌, Option, some, arith, Bool-cases,
  Option-cases, inl, inr, ◌⊎◌,
}
use mathlib.Core.Path.{subst}
use metatroni.Prelude.Int.{pos}
use metatroni.Names.{Name}
use metatroni.Collections.{contains, sorted}
use metatroni.Collections.Laws.{IsDistinct}
use metatroni.Dcs.SyncState.{SyncState, SyncDict, voters, from_dict, sync_state, write_sync_state}
use metatroni.Dcs.SyncState.Laws.{IsPlain, AllPlain, from_dict-sync_state, contains-sorted}
use metatroni.Quorum.Kinds.{TransitionType}
use metatroni.Quorum.State.{Resolver, Transition, ok}
use metatroni.Quorum.Resolver.{transitions}
use metatroni.Quorum.Overlap.{View, view, IsSafe}
use metatroni.Quorum.Trace.{publish, publish_as, AllSafe}
use metatroni.Quorum.Sound.Transitions.{transitions-AllSafe}
use metatroni.Ha.Replication.{World, carry_out, carry_out_as}

-- The store and the database are as in the view, where the database may wait for more standbys.
pub record Agrees (w : World) (v : View) : Type 0 where
  pub leader : w.sync.leader ≡ some v.leader
  pub quorum : w.sync.quorum ≡ pos v.quorum
  pub voters : (x : Name) → contains x (voters w.sync) ≡ contains x v.voters
  pub numsync : v.numsync ≤ w.numsync
  pub names : (x : Name) → contains x w.names ≡ contains x v.sync

-- The names of a transition can be written to the store.
pub record Writable (t : Transition) : Type 0 where
  pub leader : IsPlain t.leader
  pub names : AllPlain t.names

abbrev pub AllWritable : List Transition → Type 0
AllWritable [] = Unit {0}
AllWritable (t ∷ ts) = Writable t × AllWritable ts

pub some_inj : {A : Type 0} {a b : A} → some a ≡ some b → a ≡ b
some_inj h = cc

pub written :
    (set_value : SyncDict → Option ℕ → Option ℕ) (leader : Name) (names : List Name) (q : ℕ)
    (version : Option ℕ) (s : SyncState)
    → write_sync_state set_value (some leader) names (pos q) version ≡ some s
    → (n : ℕ) × (from_dict (some n) (sync_state (some leader) names (pos q)) ≡ s)
unfolding write_sync_state
written set_value leader names q version s h =
    elim (Option-cases (set_value (sync_state (some leader) names (pos q)) version)) [
      | inl refused ↦ absurd (ground (arith, refused, h))
      | inr (n, e) ↦ (n, some_inj (rw (write_sync_state, e) at h))
    ]

module _ (set_value : SyncDict → Option ℕ → Option ℕ) (min_sync : ℕ)
    (check_timeout : List Transition → Bool) where
  wrote :
      (t : Transition) (w : World) (v : View) (s : SyncState)
      → Agrees w v
      → Writable t
      → write_sync_state set_value (some t.leader) t.names (pos t.num) w.sync.version ≡ some s
      → Agrees (record w { leader = t.leader; sync = s }) (publish_as TransitionType.quorum t v)
  unfolding publish_as
  wrote t w v s h k e =
      let (n, d) = written set_value t.leader t.names t.num w.sync.version s e in
      let (l, q, vs) : (s.leader ≡ some t.leader)
          × (s.quorum ≡ pos t.num)
          × (voters s ≡ sorted t.names) =
        subst
          (λ z. (z.leader ≡ some t.leader) × (z.quorum ≡ pos t.num) × (voters z ≡ sorted t.names)) d
          (from_dict-sync_state (some n) t.leader t.names (pos t.num) k.leader k.names) in
      record {
        leader = l;
        quorum = q;
        voters = λ x. ap (contains x) vs ∙ contains-sorted x t.names;
        numsync = h.numsync;
        names = h.names;
      }

  carry_out_as-Agrees :
      (kind : TransitionType) (t : Transition) (w w' : World) (v : View)
      → Agrees w v
      → Writable t
      → carry_out_as set_value min_sync check_timeout kind t w ≡ some w'
      → Agrees w' (publish_as kind t v)
  unfolding carry_out_as publish_as
  carry_out_as-Agrees TransitionType.quorum t w w' v h k e =
      elim (Option-cases
        (write_sync_state set_value (some t.leader) t.names (pos t.num) w.sync.version)) [
          | inl refused ↦ absurd (ground (arith, refused, e))
          | inr (s, d) ↦
              subst (λ z. Agrees z (publish_as TransitionType.quorum t v))
                (some_inj (rw (carry_out_as, d) at e)) (wrote t w v s h k d)
        ]
  carry_out_as-Agrees TransitionType.sync t w w' v h k e =
      subst (λ z. Agrees z (publish_as TransitionType.sync t v)) (some_inj e)
        (record {
          leader = h.leader;
          quorum = h.quorum;
          voters = h.voters;
          numsync = ground arith;
          names = λ x. refl;
        })
  carry_out_as-Agrees TransitionType.restart t w w' v h k e =
      subst (λ z. Agrees z v) (some_inj e)
        (record {
          leader = h.leader;
          quorum = h.quorum;
          voters = h.voters;
          numsync = h.numsync;
          names = h.names;
        })

  -- The view after a transition, and those after what is left.
  after :
      {w : World} {v u : View}
      → IsSafe v
      → (u' : View) × Agrees w u' × ((u' ≡ v) ⊎ IsSafe u')
      → (u' : View) × Agrees w u' × ((u' ≡ u) ⊎ IsSafe u')
  after safe (u', agrees, inl e) = (u', agrees, inr (subst IsSafe (sym e) safe))
  after safe (u', agrees, inr k) = (u', agrees, inr k)

  -- Where a round stops, the view that is published is the first one, or one after a transition.
  carried_out :
      (ts : List Transition) (w : World) (v : View)
      → Agrees w v
      → AllWritable ts
      → AllSafe ts v
      → (u : View) × Agrees (carry_out set_value min_sync check_timeout ts w).1 u
        × ((u ≡ v) ⊎ IsSafe u)
  unfolding carry_out publish
  carried_out [] w v h k a = (v, h, inl refl)
  carried_out (t ∷ ts) w v h k a = elim (Bool-cases (check_timeout (t ∷ ts))) [
    | inl late ↦ rw late (v, h, inl refl)
    | inr in_time ↦
        elim (Option-cases (carry_out_as set_value min_sync check_timeout t.transition_type t w)) [
          | inl refused ↦ rw (in_time, refused) (v, h, inl refl)
          | inr (w', e) ↦
              rw (in_time, e)
                (after a.0 (
                  carried_out ts w' (publish_as t.transition_type t v)
                    (carry_out_as-Agrees t.transition_type t w w' v h k.0 e) k.1 a.1))
        ]
  ]

-- A round of `_process_quorum_replication` refines the resolver. It begins with a key and a setting
-- that agree with the resolver's view. Wherever it stops, out of time, at a write that the store
-- refuses, or at the end, the value of the `/sync` key that the node wrote last, or read if it wrote
-- none, and `synchronous_standby_names` agree with a view in which, while there are voters, every set
-- of nodes that can acknowledge a commit shares a node with every set that can promote a new leader,
-- or with the view that the round began with. After a refused write the store holds a later value of
-- someone else, of which nothing is said. The database may wait for more standbys than the view says.
-- The names of nodes are not empty, have no comma and no white space at their ends.
pub carry_out-IsSafe :
    (set_value : SyncDict → Option ℕ → Option ℕ) (min_sync : ℕ)
    (check_timeout : List Transition → Bool) (s : Resolver) (ts : List Transition) (w : World)
    → IsDistinct s.sync
    → transitions s ≡ ok ts
    → AllWritable ts
    → Agrees w (view s)
    → (u : View) × Agrees (carry_out set_value min_sync check_timeout ts w).1 u
      × ((u ≡ view s) ⊎ IsSafe u)
carry_out-IsSafe set_value min_sync check_timeout s ts w d e k h =
    carried_out set_value min_sync check_timeout ts w (view s) h k (transitions-AllSafe s ts d e)
