-- ===== src/Ha/Cycle/Guards.antt =====
-- A round promotes the database only while it holds the lock (patroni/ha.py).
use metatroni.Prelude.{
  Bool, true, false, List, [], ◌∷◌, Option, none, some, ◌≡◌, refl, if◌then◌else◌, arith, inl, inr,
  Bool-cases,
}
use metatroni.Ha.Cycle.{
  Target, DemoteMode, Task, Query, Call, Event, World, ok, raised, asked, called, ask, tell,
}
use metatroni.Ha.Cycle.Keeps.{
  Leads, Keeps, Leads-if, Leads-bind, pure-Keeps, bind-Keeps, keeps_rules,
}
use metatroni.Ha.Cycle.Parts
use metatroni.Ha.Cycle.Parts.{Allows, is_plain_query, is_plain_call}
use metatroni.Ha.Cycle.Lock.{
  load_cluster_from_dcs, attempt_all, delete_leader, release_leader_key_voluntarily,
}
use metatroni.Ha.Cycle.Demote.{demote}
use metatroni.Ha.Cycle.Follow.{follow_as_replica, follow_paused, demote_for, follow, Message}

-- What an event says of the lock, of the watchdog, and of the replication state.
abbrev pub lock_event : Event → Option Bool
lock_event (asked Query.acquire_leader_lock (ok b)) = some b
lock_event (asked Query.acquire_leader_lock (raised e)) = some false
lock_event (asked Query.update_leader (ok b)) = some b
lock_event (asked Query.update_leader (raised e)) = some false
lock_event (asked Query.delete_leader_key r) = some false
lock_event _ = none

abbrev pub guard_event : Event → Option Bool
guard_event (asked Query.watchdog_is_running (ok b)) = some b
guard_event (asked Query.watchdog_activates (ok b)) = some b
guard_event (called Call.disables_watchdog) = some false
guard_event _ = none

abbrev pub sync_event : Event → Option Bool
sync_event (asked Query.syncs_before_promote (ok b)) = some b
sync_event _ = none

abbrev pub latest : (Event → Option Bool) → List Event → Bool
latest f [] = false
latest f (e ∷ tr) = elim (f e) [ some b ↦ b | none ↦ latest f tr ]

abbrev pub is_promotion : Event → Bool
is_promotion (called (Call.runs Task.promote)) = true
is_promotion _ = false

-- Each promotion is started with the lock, with the replication state prepared, and with a
-- watchdog unless the cluster is paused.
pub record IsGuarded (w : World) (tr : List Event) : Type 0 where
  pub has_lock : latest lock_event tr ≡ true
  pub has_synced : latest sync_event tr ≡ true
  pub has_watchdog : w.is_paused ≡ false → latest guard_event tr ≡ true

abbrev pub AllGuarded : World → List Event → Type 0
AllGuarded w [] = Unit
AllGuarded w (e ∷ tr) = (is_promotion e ≡ true → IsGuarded w tr) × AllGuarded w tr

plain_promotion : (c : Call) → is_plain_call c ≡ true → is_promotion (called c) ≡ false
plain_promotion (Call.runs Task.promote) h = cc
plain_promotion _ h = refl

pub AllGuarded-Allows : (w : World) → Allows (AllGuarded w)
AllGuarded-Allows w = record {
  asking = λ q r tr quiet h. ((λ p. cc), h);
  calling =
      λ c tr quiet h. ((λ (p : is_promotion (called c) ≡ true). cc (plain_promotion c quiet)), h);
  loading = λ r tr h. ((λ p. cc), h);
}

module _ (w : World) where
  pub is_primary-Guarded : Keeps (AllGuarded w) (ask w Query.is_primary)
  unfolding ask
  is_primary-Guarded = record { at = λ s h. ((λ p. cc), h) }

  pub ask-Guarded : (q : Query) → is_plain_query q ≡ true → Keeps (AllGuarded w) (ask w q)
  ask-Guarded = Parts.ask-Keeps (AllGuarded-Allows w) w

  pub tell-Guarded : (c : Call) → is_plain_call c ≡ true → Keeps (AllGuarded w) (tell c)
  tell-Guarded = Parts.tell-Keeps (AllGuarded-Allows w) w

  pub attempt_all-Guarded :
      (q : Query) → is_plain_query q ≡ true → Keeps (AllGuarded w) (attempt_all w q)
  attempt_all-Guarded = Parts.attempt_all-Keeps (AllGuarded-Allows w) w

  pub delete_leader-Guarded : Keeps (AllGuarded w) (delete_leader w)
  delete_leader-Guarded = Parts.delete_leader-Keeps (AllGuarded-Allows w) w

  pub release-Guarded : Keeps (AllGuarded w) (release_leader_key_voluntarily w)
  release-Guarded = Parts.release_leader_key_voluntarily-Keeps (AllGuarded-Allows w) w

  pub demote-Guarded : (mode : DemoteMode) → Keeps (AllGuarded w) (demote w mode)
  demote-Guarded = Parts.demote-Keeps (AllGuarded-Allows w) w

  pub load_cluster-Guarded : Keeps (AllGuarded w) (load_cluster_from_dcs w)
  load_cluster-Guarded = Parts.load_cluster_from_dcs-Keeps (AllGuarded-Allows w) w

  follow_paused-Guarded :
      (primary : Bool) (target : Option Target) (reason : Message)
      → Keeps (AllGuarded w) (follow_paused w primary target reason)
  follow_paused-Guarded = Parts.follow_paused-Keeps (AllGuarded-Allows w) w

  demote_for-Guarded : (reason : Message) → Keeps (AllGuarded w) (demote_for w reason)
  demote_for-Guarded = Parts.demote_for-Keeps (AllGuarded-Allows w) w

  follow_as_replica-Guarded :
      (target : Option Target) (reason : Message)
      → Keeps (AllGuarded w) (follow_as_replica w target reason)
  follow_as_replica-Guarded = Parts.follow_as_replica-Keeps (AllGuarded-Allows w) w

pub ruleset guarded = (
  keeps_rules, is_primary-Guarded, ask-Guarded, tell-Guarded, attempt_all-Guarded,
  delete_leader-Guarded, release-Guarded, demote-Guarded, refl,
)

pub follow-Guarded :
    (w : World) (demote_reason reason : Message) (refresh : Bool)
    → Keeps (AllGuarded w) (follow w demote_reason reason refresh)
unfolding follow
follow-Guarded w demote_reason reason refresh =
    search
      (
        guarded, load_cluster-Guarded, follow_paused-Guarded, demote_for-Guarded,
        follow_as_replica-Guarded,
      )
      depth 20
