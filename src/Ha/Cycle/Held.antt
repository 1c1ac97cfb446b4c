-- ===== src/Ha/Cycle/Held.antt =====
-- With the lock held, no debt arises (patroni/ha.py).
use metatroni.Prelude.{
  Bool, true, false, not, List, [], ◌∷◌, Option, none, some, ◌≡◌, refl, if◌then◌else◌,
}
use metatroni.Ha.Election.{Failover}
use metatroni.Ha.Cycle.{
  Query, Call, Error, Result, Event, World, State, ok, raised, asked, pure, ◌>>◌, ask, tell, when,
}
use metatroni.Ha.Cycle.Keeps.{
  Leads, Keeps, Yields, After, Leads-weaken, Leads-if, Leads-on_option, Yields-bind,
  Yields-bind-Keeps, pure-Yields, bind-Keeps, reads-Keeps, pure-Keeps, set_is_leader-Keeps,
  keeps_rules,
}
use metatroni.Ha.Cycle.Parts
use metatroni.Ha.Cycle.Parts.{is_plain_query}
use metatroni.Ha.Cycle.Guards.{lock_event, latest}
use metatroni.Ha.Cycle.Debts.{debt_event, owes, NoDebt, Any, NoDebt-Allows, call-NoDebt}
use metatroni.Ha.Cycle.Lock.{
  refused, attempt, get_cluster, acquire_lock, update_lock, set_is_leader,
}
use metatroni.Ha.Cycle.Follow.{Message}
use metatroni.Ha.Cycle.Primary.{
  process_quorum, process_sync_replication, confirm_primary, start_promotion, promote_prepared,
  promote, take_primary_role, cancel_promotion,
}
use metatroni.Ha.Cycle.Process.{
  should_run_scheduled_action, steps_down, fail_over, process_manual_failover_from_leader,
}

-- With the lock, no debt arises.
abbrev pub Held : List Event → Type 0
Held tr = (latest lock_event tr ≡ true) × NoDebt tr

abbrev pub is_lock_query : Query → Bool
is_lock_query Query.acquire_leader_lock = true
is_lock_query Query.update_leader = true
is_lock_query Query.delete_leader_key = true
is_lock_query _ = false

pub lock_event-none :
    (q : Query) (r : Result Bool) → is_lock_query q ≡ false → lock_event (asked q r) ≡ none
lock_event-none Query.acquire_leader_lock r h = cc
lock_event-none Query.update_leader r h = cc
lock_event-none Query.delete_leader_key r h = cc
lock_event-none _ r h = refl

pub debt-held : (q : Query) (r : Result Bool) → debt_event true (asked q r) ≡ none
debt-held Query.is_primary (ok true) = refl
debt-held Query.is_primary (ok false) = refl
debt-held Query.is_primary (raised e) = refl
debt-held _ r = refl

pub debt-none :
    (held : Bool) (q : Query) (r : Result Bool) → held ≡ true → debt_event held (asked q r) ≡ none
debt-none true q r h = debt-held q r
debt-none false q r h = cc

pub asked-Held :
    (q : Query) (r : Result Bool) (tr : List Event)
    → is_lock_query q ≡ false
    → Held tr
    → Held (asked q r ∷ tr)
asked-Held q r tr quiet h = (
  rw (lock_event-none q r quiet, latest) h.0,
  rw (debt-none (latest lock_event tr) q r h.0, owes) h.1,
)

module _ (w : World) where
  pub ask-Held : (q : Query) → is_lock_query q ≡ false → Keeps Held (ask w q)
  unfolding ask
  ask-Held q quiet = record { at = λ s h. asked-Held q (w.answer q s.trace) s.trace quiet h }

  pub get_cluster-Held : Keeps Held (get_cluster w)
  unfolding get_cluster
  get_cluster-Held = record { at = λ s h. h }

pub tell-Held : (c : Call) → Keeps Held (tell c)
unfolding tell
tell-Held c = record { at = λ s h. (h.0, call-NoDebt c s.trace h.1) }

pub ruleset held = (keeps_rules, ask-Held, get_cluster-Held, tell-Held, refl)

pub process_sync_replication-Held : (w : World) → Keeps Held (process_sync_replication w)
unfolding process_sync_replication process_quorum
process_sync_replication-Held w = search held depth 30

pub take_primary_role-Held :
    (w : World) (message promote_message : Message)
    → Keeps Held (take_primary_role w message promote_message)
unfolding take_primary_role confirm_primary start_promotion promote_prepared promote
take_primary_role-Held w message promote_message =
    search (held, process_sync_replication-Held) depth 40

pub cancel_promotion-NoDebt : (w : World) → Keeps NoDebt (cancel_promotion w)
unfolding cancel_promotion
cancel_promotion-NoDebt w =
    bind-Keeps _ _ (Parts.tell-Keeps NoDebt-Allows w Call.remembers_release refl) λ _.
      bind-Keeps _ _ (Parts.release_leader_key_voluntarily-Keeps NoDebt-Allows w) λ _.
        bind-Keeps _ _ (Parts.tell-Keeps NoDebt-Allows w Call.resets_response refl)
          λ _. pure-Keeps Message.promotion_cancelled

-- After an answer that is to be `True`, the lock is held.
abbrev pub OnHeld : Bool → List Event → Type 0
OnHeld true tr = Held tr
OnHeld false tr = NoDebt tr

pub attempt-Held :
    (w : World) (q : Query)
    → is_plain_query q ≡ true
    → ((b : Bool) → lock_event (asked q (ok b)) ≡ some b)
    → Yields NoDebt OnHeld Any (attempt w q)
unfolding attempt
attempt-Held w q plain about = record { at = λ s h. by_answer (w.answer q s.trace) s h }
  where
    by_answer :
        (a : Result Bool) (s : State)
        → NoDebt s.trace
        → After OnHeld Any (refused a, record s { trace = asked q a ∷ s.trace })
    by_answer (ok true) s h =
        (rw (about true, latest) refl, NoDebt-Allows.asking q (ok true) s.trace plain h)
    by_answer (ok false) s h = NoDebt-Allows.asking q (ok false) s.trace plain h
    by_answer (raised Error.dcs_error) s h = tt
    by_answer (raised Error.other_error) s h =
        NoDebt-Allows.asking q (raised Error.other_error) s.trace plain h

pub set_leader-Held :
    (w : World) (b : Bool) → Yields (OnHeld b) OnHeld Any (set_is_leader w b >> pure b)
set_leader-Held w b =
    Yields-bind-Keeps _ _ (set_is_leader-Keeps w b) (λ tr h. tt) λ _. pure-Yields OnHeld b

pub acquire_lock-Held : (w : World) → Yields NoDebt OnHeld Any (acquire_lock w)
unfolding acquire_lock
acquire_lock-Held w =
    Yields-bind OnHeld _ _ (attempt-Held w Query.acquire_leader_lock refl (λ b. refl))
      (set_leader-Held w)

pub keepalive-Held : (b : Bool) → Keeps (OnHeld b) (when b (tell Call.keepalive))
keepalive-Held true = tell-Held Call.keepalive
keepalive-Held false = pure-Keeps tt

pub update_lock-Held : (w : World) (b : Bool) → Yields NoDebt OnHeld Any (update_lock w b)
unfolding update_lock
update_lock-Held w b =
    Yields-bind-Keeps _ _
      (Leads-if _ _ _ (Parts.tell-Keeps NoDebt-Allows w Call.fetches_status refl) (pure-Keeps tt))
      (λ tr h. tt)
      λ _. Yields-bind OnHeld _ _ (attempt-Held w Query.update_leader refl (λ r. refl)) λ ret.
        Yields-bind-Keeps _ _ (set_is_leader-Keeps w ret) (λ tr h. tt)
          λ _. Yields-bind-Keeps _ _ (keepalive-Held ret) (λ tr h. tt) λ _. pure-Yields OnHeld ret

pub fail_over-Held : (w : World) (f : Failover) → Keeps Held (fail_over w f)
unfolding fail_over should_run_scheduled_action steps_down
fail_over-Held w f = search held depth 30

pub manual_failover-Held : (w : World) → Keeps Held (process_manual_failover_from_leader w)
unfolding process_manual_failover_from_leader
manual_failover-Held w = search (held, fail_over-Held) depth 20
