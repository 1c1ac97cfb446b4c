-- ===== src/Ha/Cycle/Promotes.antt =====
-- A round promotes the database only with the lock that it has just taken or updated (patroni/ha.py).
use metatroni.Prelude.{Bool, true, false, List, ◌∷◌, none, ◌≡◌, refl, if◌then◌else◌}
use metatroni.Ha.Cycle.{
  Task, Query, Call, Result, Event, World, State, ok, raised, asked, called, pure, ◌>>=◌, ask, tell,
  or_else, continue,
}
use metatroni.Ha.Cycle.Keeps.{
  Leads, Keeps, Yields, After, Leads-weaken, Leads-split, Leads-if, Leads-bind, Leads-bind_result,
  Leads-on_result, Leads-then, reads-Keeps, pure-Keeps, bind-Keeps,
}
use metatroni.Ha.Cycle.Guards.{
  lock_event, guard_event, sync_event, latest, is_promotion, AllGuarded, guarded, release-Guarded,
  demote-Guarded,
}
use metatroni.Ha.Cycle.Follow.{Message}
use metatroni.Ha.Cycle.Primary.{
  process_quorum, process_sync_replication, confirm_primary, start_promotion, promote_prepared,
  promote, take_primary_role, give_up_unguarded, cancel_promotion, enforce_guarded,
  enforce_primary_role,
}

-- The lock was taken or updated and has not been given up.
abbrev pub HasLock : World → List Event → Type 0
HasLock w tr = AllGuarded w tr × (latest lock_event tr ≡ true)

-- The watchdog runs, too, unless the cluster is paused.
abbrev IsReady : World → List Event → Type 0
IsReady w tr =
    AllGuarded w tr
    × (latest lock_event tr ≡ true)
    × (w.is_paused ≡ false → latest guard_event tr ≡ true)

abbrev IsSynced : World → List Event → Type 0
IsSynced w tr = IsReady w tr × (latest sync_event tr ≡ true)

-- What holds after an answer that is to be `True`.
abbrev pub OnTrue : World → (World → List Event → Type 0) → Bool → List Event → Type 0
OnTrue w P true tr = P w tr
OnTrue w P false tr = AllGuarded w tr

process_sync_replication-Keeps : (w : World) → Keeps (AllGuarded w) (process_sync_replication w)
unfolding process_sync_replication process_quorum
process_sync_replication-Keeps w = search guarded depth 30

confirm_primary-Keeps :
    (w : World) (message : Message) → Keeps (AllGuarded w) (confirm_primary w message)
unfolding confirm_primary
confirm_primary-Keeps w message = search (guarded, process_sync_replication-Keeps) depth 20

give_up_unguarded-Keeps : (w : World) → Keeps (AllGuarded w) (give_up_unguarded w)
unfolding give_up_unguarded
give_up_unguarded-Keeps w = search (guarded, demote-Guarded, release-Guarded) depth 20

cancel_promotion-Keeps : (w : World) → Keeps (AllGuarded w) (cancel_promotion w)
unfolding cancel_promotion
cancel_promotion-Keeps w = search (guarded, release-Guarded) depth 20

-- The task is started in a state in which it may be.
starts_promotion : (w : World) → Leads (IsSynced w) (AllGuarded w) (tell (Call.runs Task.promote))
unfolding tell
starts_promotion w = record {
  at = λ s h. (λ p. record { has_lock = h.0.1; has_synced = h.1; has_watchdog = h.0.2 }, h.0.0);
}

tell-IsSynced :
    (w : World) (c : Call)
    → is_promotion (called c) ≡ false
    → guard_event (called c) ≡ none
    → Keeps (IsSynced w) (tell c)
unfolding tell
tell-IsSynced w c quiet unguarded = record {
  at = λ s h. (((λ p. cc, h.0.0), h.0.1, λ p. rw (unguarded, latest) (h.0.2 p)), h.1);
}

syncs_before-Yields :
    (w : World)
    → Yields (IsReady w) (OnTrue w IsSynced) (AllGuarded w) (ask w Query.syncs_before_promote)
unfolding ask
syncs_before-Yields w = record {
  at = λ s h. by_answer (w.answer Query.syncs_before_promote s.trace) s h;
}
  where
    by_answer :
        (a : Result Bool) (s : State)
        → IsReady w s.trace
        → After
            (OnTrue w IsSynced)
            (AllGuarded w)
            (a, record s { trace = asked Query.syncs_before_promote a ∷ s.trace })
    by_answer (ok true) s h = ((((λ p. cc), h.0), h.1, h.2), refl)
    by_answer (ok false) s h = ((λ p. cc), h.0)
    by_answer (raised e) s h = ((λ p. cc), h.0)

start_promotion-Leads : (w : World) → Leads (IsSynced w) (AllGuarded w) (start_promotion w)
unfolding start_promotion
start_promotion-Leads w =
    Leads-bind _ _ (tell-IsSynced w Call.resets_failsafe refl refl) (λ tr h. h.0.0)
      λ _.
        Leads-bind _ _ (tell-IsSynced w Call.forgets_timeline refl refl) (λ tr h. h.0.0)
          λ _.
            Leads-bind _ _ (tell-IsSynced w Call.resets_response refl refl) (λ tr h. h.0.0)
              λ _. starts_promotion w

-- A node that is prepared is promoted, unless its role is that of a primary.
promote_prepared-Leads :
    (w : World) (message : Message) → Leads (IsSynced w) (AllGuarded w) (promote_prepared w message)
unfolding promote_prepared
promote_prepared-Leads w message =
    Leads-bind _ _ (reads-Keeps _) (λ tr h. h.0.0)
      λ role.
        Leads-then _ _
          (Leads-if _ _ _ (Leads-weaken _ (λ tr h. h.0.0) (pure-Keeps tt))
            (start_promotion-Leads w))
          (λ _. pure-Keeps message)

promote-Leads :
    (w : World) (message : Message) → Leads (IsReady w) (AllGuarded w) (promote w message)
unfolding promote
promote-Leads w message = Leads-bind_result _ _ (syncs_before-Yields w) λ prepared.
    Leads-on_result (OnTrue w IsSynced) prepared _ _ (promote_prepared-Leads w message)
      (pure-Keeps Message.promotion_postponed)

ask-IsReady :
    (w : World) (q : Query)
    → ((r : Result Bool) → lock_event (asked q r) ≡ none)
    → ((r : Result Bool) → guard_event (asked q r) ≡ none)
    → Keeps (IsReady w) (ask w q)
unfolding ask
ask-IsReady w q no_lock no_guard = record {
  at = λ s h.
      let r = w.answer q s.trace in
      (((λ p. cc), h.0), rw (no_lock r, latest) h.1, λ p. rw (no_guard r, latest) (h.2 p));
}

take_primary_role-Leads :
    (w : World) (message promote_message : Message)
    → Leads (IsReady w) (AllGuarded w) (take_primary_role w message promote_message)
unfolding take_primary_role
take_primary_role-Leads w message promote_message =
    Leads-bind _ _ (ask-IsReady w Query.is_primary (λ r. refl) (λ r. refl)) (λ tr h. h.0)
      λ primary.
        Leads-bind _ _ (reads-Keeps _) (λ tr h. h.0)
          λ role. Leads-if _ _ _ (Leads-weaken _ (λ tr h. h.0) (confirm_primary-Keeps w message)) (
            Leads-if _ _ _
              (Leads-weaken _ (λ tr h. h.0)
                (bind-Keeps _ _ (process_sync_replication-Keeps w) (λ _. pure-Keeps message)))
              (promote-Leads w promote_message))

-- The watchdog runs or is activated.
watchdog-Yields :
    (w : World)
    → Yields
        (HasLock w)
        (OnTrue w IsReady)
        (AllGuarded w)
        (or_else (ask w Query.watchdog_is_running) (ask w Query.watchdog_activates))
unfolding ask ◌>>=◌ pure
watchdog-Yields w = record {
  at = λ s h. by_running (w.answer Query.watchdog_is_running s.trace) s h;
}
  where
    by_activation :
        (a : Result Bool) (s : State)
        → HasLock w s.trace
        → After
            (OnTrue w IsReady)
            (AllGuarded w)
            (a, record s { trace = asked Query.watchdog_activates a ∷ s.trace })
    by_activation (ok true) s h = (((λ p. cc), h.0), h.1, λ p. refl)
    by_activation (ok false) s h = ((λ p. cc), h.0)
    by_activation (raised e) s h = ((λ p. cc), h.0)

    by_running :
        (a : Result Bool) (s : State)
        → HasLock w s.trace
        → After (OnTrue w IsReady) (AllGuarded w) (
            continue
              (a, record s { trace = asked Query.watchdog_is_running a ∷ s.trace })
              (λ b. if b then pure true else ask w Query.watchdog_activates))
    by_running (ok true) s h = (((λ p. cc), h.0), h.1, λ p. refl)
    by_running (ok false) s h =
        let s' = record s { trace = asked Query.watchdog_is_running (ok false) ∷ s.trace } in
        by_activation (w.answer Query.watchdog_activates s'.trace) s' (((λ p. cc), h.0), h.1)
    by_running (raised e) s h = ((λ p. cc), h.0)

enforce_guarded-Leads :
    (w : World) (message promote_message : Message)
    → Leads (IsReady w) (AllGuarded w) (enforce_guarded w message promote_message)
unfolding enforce_guarded
enforce_guarded-Leads w message promote_message =
    Leads-bind _ _ (ask-IsReady w Query.pre_promote_failed (λ r. refl) (λ r. refl)) (λ tr h. h.0)
      λ failed.
        Leads-if _ _ _ (Leads-weaken _ (λ tr h. h.0) (cancel_promotion-Keeps w))
          (take_primary_role-Leads w message promote_message)

pub enforce_primary_role-Leads :
    (w : World) (message promote_message : Message)
    → Leads (HasLock w) (AllGuarded w) (enforce_primary_role w message promote_message)
unfolding enforce_primary_role
enforce_primary_role-Leads w message promote_message =
    Leads-split _ _ _
      (λ (paused : w.is_paused ≡ true). record {
        at = λ s h.
            (take_primary_role-Leads w message promote_message).at s (h.0, h.1, λ running. cc);
      })
      (λ _. Leads-bind_result _ _ (watchdog-Yields w) λ guarded.
        Leads-on_result (OnTrue w IsReady) guarded _ _
          (enforce_guarded-Leads w message promote_message) (give_up_unguarded-Keeps w))
