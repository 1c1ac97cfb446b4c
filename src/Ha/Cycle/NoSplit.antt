-- ===== src/Ha/Cycle/NoSplit.antt =====
-- A round does not leave a primary that runs without the lock (patroni/ha.py).
use mathlib.Core.Path.{subst}
use metatroni.Prelude.{Bool, true, false, ◌&&◌, [], ◌≡◌, refl, if◌then◌else◌}
use metatroni.Ha.Cycle.{DemoteMode, Query, Call, Result, World, State, Action, ok, pure}
use metatroni.Ha.Cycle.Keeps.{
  Keeps, After, Leads-weaken, Leads-if, Yields-bind, bind-Keeps, reads-Keeps, pure-Keeps,
}
use metatroni.Ha.Cycle.Parts
use metatroni.Ha.Cycle.Parts.{is_plain_query}
use metatroni.Ha.Cycle.Debts.{
  owes, NoDebt, Any, NoDebt-Allows, Ends, Leads-Ends, Ends-split, Ends-if_false, Ends-on_option,
  Ends-from_Any, Ends-bind, Unless, Ends-Unless, is_primary-Yields, demote-Ends, follow-Ends,
}
use metatroni.Ha.Cycle.Lock.{load_cluster_from_dcs}
use metatroni.Ha.Cycle.Follow.{Message}
use metatroni.Ha.Cycle.Primary.{
  enforce_follow_remote_member, give_up_unguarded, enforce_guarded, enforce_primary_role,
}
use metatroni.Ha.Cycle.Process.{
  is_healthiest, lead, lose, process_unhealthy_cluster, lead_with_lock, lead_mysql,
  lead_unless_requested, keep_leading, lose_lock, renew_lock, process_as_leader, follow_leader,
  follow_mysql, process_healthy_cluster, process_cluster,
}
use metatroni.Ha.Cycle.Held.{
  Held, ask-Held, cancel_promotion-NoDebt, held, take_primary_role-Held, tell-Held, OnHeld,
  acquire_lock-Held, update_lock-Held, manual_failover-Held,
}

forget_lock : {A : Type 0} (m : Action A) → Keeps NoDebt m → Ends Held NoDebt m
forget_lock m km = Leads-Ends m (Leads-weaken m (λ tr h. h.1) km)

keep_lock : {A : Type 0} (m : Action A) → Keeps Held m → Ends Held NoDebt m
keep_lock m km = Leads-Ends m (record { at = λ s h. (km.at s h).1 })

Ends-from_held : {A : Type 0} (m : Action A) → Ends NoDebt NoDebt m → Ends Held NoDebt m
Ends-from_held m em = record { at = λ s h. em.at s h.1 }

enforce_guarded-Ends :
    (w : World) (message promote_message : Message)
    → Ends Held NoDebt (enforce_guarded w message promote_message)
unfolding enforce_guarded
enforce_guarded-Ends w message promote_message =
    Ends-bind Held _ _ (Leads-Ends _ (ask-Held w Query.pre_promote_failed refl)) λ failed.
      Ends-split _ _ _ (λ _. forget_lock _ (cancel_promotion-NoDebt w))
        (λ _. keep_lock _ (take_primary_role-Held w message promote_message))

Ends-OnHeld :
    {A : Type 0} (b : Bool) (m n : Action A)
    → Ends Held NoDebt m
    → Ends NoDebt NoDebt n
    → Ends (OnHeld b) NoDebt (if b then m else n)
Ends-OnHeld true m n em en = em
Ends-OnHeld false m n em en = en

is_healthiest-NoDebt : (w : World) → Keeps NoDebt (is_healthiest w)
unfolding is_healthiest
is_healthiest-NoDebt w = bind-Keeps _ _ (reads-Keeps _) λ outcome.
    bind-Keeps _ _
      (Leads-if _ _ _
        (bind-Keeps _ _ (Parts.ask-Keeps NoDebt-Allows w Query.manual_failover refl)
          (λ _. pure-Keeps tt))
        (pure-Keeps tt))
      λ _. pure-Keeps _

&&_false : (a b : Bool) → a ≡ false → (a && b) ≡ false
&&_false true b h = cc
&&_false false b h = refl

-- What a node does without being paused, with PostgreSQL.
module _ (w : World) (running : w.is_paused ≡ false) (postgresql : w.is_mysql ≡ false) where
  give_up_unguarded-Ends : Ends Held NoDebt (give_up_unguarded w)
  unfolding give_up_unguarded
  give_up_unguarded-Ends =
      Ends-bind Held _ _ (Leads-Ends _ (ask-Held w Query.is_primary refl)) λ primary.
        Ends-split primary _ _
          (λ _.
            Ends-bind NoDebt _ _ (Ends-from_Any _ (demote-Ends w postgresql DemoteMode.immediate))
              λ _. Leads-Ends _ (pure-Keeps Message.demoted_no_watchdog))
          (λ _. forget_lock _ (
            bind-Keeps _ _ (Parts.release_leader_key_voluntarily-Keeps NoDebt-Allows w)
              (λ _. pure-Keeps Message.not_promoted_no_watchdog)))

  enforce_primary_role-Ends :
      (message promote_message : Message)
      → Ends Held NoDebt (enforce_primary_role w message promote_message)
  unfolding enforce_primary_role
  enforce_primary_role-Ends message promote_message = Ends-if_false _ _ _ running (
      Ends-bind Held _ _ (Leads-Ends _ (search held depth 20)) λ guarded.
        Ends-split _ _ _ (λ _. enforce_guarded-Ends w message promote_message)
          (λ _. give_up_unguarded-Ends))

  enforce_follow-Ends :
      (message : Message) → Ends NoDebt NoDebt (enforce_follow_remote_member w message)
  unfolding enforce_follow_remote_member
  enforce_follow-Ends message = follow-Ends w postgresql _ _ _ running

  lead_with_lock-Ends : Ends Held NoDebt (lead_with_lock w)
  unfolding lead_with_lock
  lead_with_lock-Ends = enforce_primary_role-Ends _ _

  lead-Ends : Ends Held NoDebt (lead w)
  unfolding lead load_cluster_from_dcs
  lead-Ends = Ends-bind Held _ _ (Leads-Ends _ (reads-Keeps _)) λ failover.
      Ends-bind Held _ _ (Leads-Ends _ (search held depth 10)) λ _.
        Ends-bind Held _ _ (Leads-Ends _ (search held depth 20)) λ _.
          Ends-split w.is_standby_cluster _ _
            (λ _. Ends-from_held _ (enforce_follow-Ends Message.promoted_standby))
            (λ _. enforce_primary_role-Ends Message.is_leader Message.promoted)

  lose_lock-Ends : Ends NoDebt NoDebt (lose_lock w)
  unfolding lose_lock
  lose_lock-Ends = Yields-bind Unless _ _ (is_primary-Yields w) λ primary.
      Ends-Unless primary _ _
        (Ends-if_false w.is_paused (pure Message.continues_no_update) _ running (
          Ends-bind NoDebt _ _ (demote-Ends w postgresql DemoteMode.immediate_nolock)
            λ _. Leads-Ends _ (pure-Keeps Message.demoted_no_update)))
        (Leads-Ends _ (pure-Keeps Message.not_promoted_no_update))

  lose-Ends : Ends NoDebt NoDebt (lose w)
  unfolding lose
  lose-Ends = Ends-bind NoDebt _ _ (Leads-Ends _ (reads-Keeps _)) λ failover.
      Ends-bind NoDebt _ _
        (Leads-Ends _ (
          Leads-if _ _ _
            (bind-Keeps _ _ (Parts.tell-Keeps NoDebt-Allows w Call.checks_diverged refl)
              (λ _. Parts.tell-Keeps NoDebt-Allows w Call.sleeps refl))
            (pure-Keeps tt)))
        λ _. follow-Ends w postgresql _ _ _ running

  lead_unless_requested-Ends : Ends Held NoDebt (lead_unless_requested w)
  unfolding lead_unless_requested
  lead_unless_requested-Ends =
      Ends-bind Held _ _ (Leads-Ends _ (tell-Held Call.ensures_checkpoint)) λ _.
        Ends-bind Held _ _ (Leads-Ends _ (reads-Keeps _)) λ role.
          Ends-split w.is_standby_cluster _ _ (λ _. Ends-from_held _ (enforce_follow-Ends _))
            (λ _. Ends-if_false w.is_mysql (lead_mysql w) _ postgresql lead_with_lock-Ends)

  keep_leading-Ends : Ends Held NoDebt (keep_leading w)
  unfolding keep_leading
  keep_leading-Ends =
      Ends-bind Held _ _ (Leads-Ends _ (manual_failover-Held w))
        λ msg. Ends-on_option msg _ _ lead_unless_requested-Ends (λ m. keep_lock _ (pure-Keeps m))

  renew_lock-Ends : Ends NoDebt NoDebt (renew_lock w)
  unfolding renew_lock
  renew_lock-Ends =
      Yields-bind OnHeld _ _ (update_lock-Held w true)
        λ updated. Ends-OnHeld updated _ _ keep_leading-Ends lose_lock-Ends

  process_unhealthy_cluster-Ends : Ends NoDebt NoDebt (process_unhealthy_cluster w)
  unfolding process_unhealthy_cluster
  process_unhealthy_cluster-Ends =
      Ends-bind NoDebt _ _ (Leads-Ends _ (is_healthiest-NoDebt w)) λ healthiest.
        Ends-split healthiest _ _
          (λ _.
            Yields-bind OnHeld _ _ (acquire_lock-Held w) λ acquired.
              Ends-OnHeld acquired _ _ lead-Ends (follow-Ends w postgresql _ _ _ running))
          (λ _. lose-Ends)

  process_as_leader-Ends : Ends NoDebt NoDebt (process_as_leader w)
  unfolding process_as_leader
  process_as_leader-Ends = Ends-if_false w.is_paused _ _ running renew_lock-Ends

  process_healthy_cluster-Ends : Ends NoDebt NoDebt (process_healthy_cluster w)
  unfolding process_healthy_cluster follow_leader
  process_healthy_cluster-Ends = Ends-bind NoDebt _ _ (Leads-Ends _ (reads-Keeps _)) λ holds.
      Ends-split holds _ _ (λ _. process_as_leader-Ends)
        (λ _.
          Ends-if_false _ (follow_mysql w) _ (&&_false w.is_mysql _ postgresql)
            (follow-Ends w postgresql _ _ _ running))

  process_cluster-Ends : Ends NoDebt NoDebt (process_cluster w)
  unfolding process_cluster
  process_cluster-Ends = Ends-bind NoDebt _ _ (Leads-Ends _ (reads-Keeps _)) λ unlocked.
      Ends-split unlocked _ _ (λ _. process_unhealthy_cluster-Ends)
        (λ _. process_healthy_cluster-Ends)

returned :
    {A : Type 0} (a : A) (s : State) (o : Result A × State)
    → o ≡ (ok a, s)
    → After (λ _. NoDebt) Any o
    → NoDebt s.trace
returned a s o e h = subst (After (λ _. NoDebt) Any) e h

-- Whatever is answered, a round that returns, of a node that is not paused and has PostgreSQL, has
-- stopped the database, or begun to demote the cluster, after each answer that the database is a
-- primary while the lock was not held: neither acquired nor updated in the round, or deleted since.
pub process_cluster-NoDebt :
    (w : World) (s s' : State) (message : Message)
    → w.is_paused ≡ false
    → w.is_mysql ≡ false
    → s.trace ≡ []
    → process_cluster w s ≡ (ok message, s')
    → owes s'.trace ≡ false
process_cluster-NoDebt w s s' message running postgresql fresh e =
    returned message s' (process_cluster w s) e
      ((process_cluster-Ends w running postgresql).at s (rw fresh refl))
