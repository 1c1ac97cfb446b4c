-- ===== src/Ha/Cycle/Failsafe.antt =====
-- A node that does not reach the store stops its primary, or all members agree that it runs on
-- (patroni/ha.py).
use mathlib.Core.Path.{subst}
use metatroni.Prelude.{
  ◌∷◌, Bool, true, false, not, List, [], Option, none, some, ◌≡◌, refl, if◌then◌else◌, keep,
}
use metatroni.Names.{Name, name_eq}
use metatroni.Ha.Cycle.{
  Result, raised, DemoteMode, Query, Call, Event, World, State, Action, ok, called, pure, ◌>>◌,
  tell, on_option,
}
use metatroni.Ha.Cycle.Keeps.{
  Keeps, Yields, After, Leads-if, Yields-bind, Yields-bind-Keeps, pure-Yields, pure-Keeps,
  set_is_leader-Keeps,
}
use metatroni.Ha.Cycle.Parts
use metatroni.Ha.Cycle.Debts.{
  NoDebt, Any, NoDebt-Allows, Any-Ends, Unless, is_primary-Yields, demote-Ends,
}
use metatroni.Ha.Cycle.Follow.{Message}
use metatroni.Ha.Cycle.Outage.{
  call_others, lists, call_topology, call_others, check_failsafe_topology, continue_as_leader,
  stop_offline, survive, handle_dcs_error,
}
use metatroni.Ha.Cycle.Accepts.{
  Agreed, AllAccepted-later, OnAccepted, OnAccepted-later, call_members-Yields,
}

abbrev OnAgreed : World → Bool → List Event → Type 0
OnAgreed w true tr = Agreed w tr
OnAgreed w false tr = Unit

Yields-split :
    {A : Type 0} {P : List Event → Type 0} {R : A → List Event → Type 0} (b : Bool) (m n : Action A)
    → (b ≡ true → Yields P R Any m)
    → (b ≡ false → Yields P R Any n)
    → Yields P R Any (if b then m else n)
Yields-split true m n ym yn = ym refl
Yields-split false m n ym yn = yn refl

Yields-weaken :
    {A : Type 0} {P P' : List Event → Type 0} {R : A → List Event → Type 0} (m : Action A)
    → ((tr : List Event) → P tr → P' tr)
    → Yields P' R Any m
    → Yields P R Any m
Yields-weaken m weaken ym = record { at = λ s h. ym.at s (weaken s.trace h) }

Yields-result :
    {A : Type 0} {P : List Event → Type 0} {R R' : A → List Event → Type 0} (m : Action A)
    → ((a : A) (tr : List Event) → R a tr → R' a tr)
    → Yields P R Any m
    → Yields P R' Any m
Yields-result {A} {P} {R} {R'} m weaken ym = record {
  at = λ s h. let (r, s') = m s in after r s' (ym.at s h);
}
  where
    after : (r : Result A) (s' : State) → After R Any (r, s') → After R' Any (r, s')
    after (ok a) s' h = weaken a s'.trace h
    after (raised e) s' h = h

pure-OnAgreed : (w : World) → Yields Any (OnAgreed w) Any (pure false)
pure-OnAgreed w = pure-Yields (OnAgreed w) false

agree :
    (w : World) (nodes : List Name) (accepted : Bool) (tr : List Event)
    → w.failsafe ≡ some nodes
    → lists w.name nodes ≡ true
    → OnAccepted (keep (λ n. not (name_eq n w.name)) nodes) accepted tr
    → OnAgreed w accepted tr
agree w nodes true tr topology is_listed h = record {
  nodes = nodes;
  topology = topology;
  is_listed = is_listed;
  accepted = h;
}
agree w nodes false tr topology is_listed h = tt

OnAccepted-tell : (ns : List Name) (b : Bool) (c : Call) → Keeps (OnAccepted ns b) (tell c)
unfolding tell
OnAccepted-tell ns b c = record { at = λ s h. OnAccepted-later ns b (called c) s.trace h }

call_others-Yields :
    (w : World) (ns : List Name) → Yields Any (OnAccepted ns) Any (call_others w ns)
unfolding call_others
call_others-Yields w [] = Yields-weaken _ (λ tr h. h) (pure-Yields (OnAccepted []) true)
call_others-Yields w (n ∷ ns) =
    Yields-bind (OnAccepted (n ∷ ns)) _ _ (call_members-Yields w (n ∷ ns)) λ accepted.
      Yields-bind-Keeps _ _
        (Leads-if _ _ _ (OnAccepted-tell (n ∷ ns) accepted Call.updates_failsafe_slots)
          (pure-Keeps tt))
        (λ tr h. tt) λ _. pure-Yields (OnAccepted (n ∷ ns)) accepted

call_topology-Yields :
    (w : World) (nodes : List Name)
    → w.failsafe ≡ some nodes
    → Yields Any (OnAgreed w) Any (call_topology w nodes)
unfolding call_topology
call_topology-Yields w nodes topology =
    Yields-split (lists w.name nodes) _ _
      (λ is_listed.
        Yields-result _ (λ accepted tr h. agree w nodes accepted tr topology is_listed h)
          (call_others-Yields w (keep (λ n. not (name_eq n w.name)) nodes)))
      (λ _. pure-OnAgreed w)

topology_cases :
    (w : World) (nodes : Option (List Name))
    → w.failsafe ≡ nodes
    → Yields Any (OnAgreed w) Any (on_option nodes (pure false) (call_topology w))
unfolding on_option
topology_cases w none e = pure-OnAgreed w
topology_cases w (some nodes) e = call_topology-Yields w nodes e

check_failsafe_topology-Yields :
    (w : World) → Yields Any (OnAgreed w) Any (check_failsafe_topology w)
unfolding check_failsafe_topology
check_failsafe_topology-Yields w = topology_cases w w.failsafe refl

-- What each report of the node means.
abbrev pub Settled : World → Message → List Event → Type 0
Settled w Message.continues_failsafe tr = Agreed w tr
Settled w _ tr = NoDebt tr

Agreed-tell : (w : World) (c : Call) → Keeps (Agreed w) (tell c)
unfolding tell
Agreed-tell w c = record {
  at = λ s h. record {
    nodes = h.nodes;
    topology = h.topology;
    is_listed = h.is_listed;
    accepted = AllAccepted-later _ (called c) s.trace h.accepted;
  };
}

continue_as_leader-Yields : (w : World) → Yields (Agreed w) (Settled w) Any (continue_as_leader w)
unfolding continue_as_leader
continue_as_leader-Yields w =
    Yields-bind-Keeps _ _ (set_is_leader-Keeps w true) (λ tr h. tt)
      λ _.
        Yields-bind-Keeps _ _ (Agreed-tell w Call.starts_failsafe) (λ tr h. tt)
          λ _.
            Yields-bind-Keeps _ _ (Agreed-tell w Call.keepalive) (λ tr h. tt)
              λ _.
                Yields-bind-Keeps _ _ (Agreed-tell w Call.syncs_slots) (λ tr h. tt)
                  λ _. pure-Yields (Settled w) Message.continues_failsafe

stop_offline-Yields : (w : World) → w.is_mysql ≡ false → Yields Any (Settled w) Any (stop_offline w)
unfolding stop_offline
stop_offline-Yields w postgresql =
    Yields-bind (λ _. Any) _ _ (Any-Ends _)
      λ _.
        Yields-bind (λ _. NoDebt) _ _ (demote-Ends w postgresql DemoteMode.offline)
          λ _. pure-Yields (Settled w) Message.demoted_no_dcs

on_agreed :
    (w : World) (agreed : Bool)
    → w.is_mysql ≡ false
    → Yields
        (OnAgreed w agreed)
        (Settled w)
        Any
        (if agreed then continue_as_leader w else stop_offline w)
on_agreed w true postgresql = continue_as_leader-Yields w
on_agreed w false postgresql = stop_offline-Yields w postgresql

survive-Yields : (w : World) → w.is_mysql ≡ false → Yields Any (Settled w) Any (survive w)
unfolding survive
survive-Yields w postgresql =
    Yields-bind (OnAgreed w) _ _
      (Yields-split w.is_failsafe_mode _ _ (λ _. check_failsafe_topology-Yields w)
        (λ _. pure-OnAgreed w))
      λ agreed. on_agreed w agreed postgresql

on_primary :
    (w : World) (primary : Bool)
    → w.is_mysql ≡ false
    → Yields
        (Unless primary)
        (Settled w)
        Any
        (if primary then survive w else tell Call.syncs_slots >> pure Message.dcs_not_accessible)
on_primary w true postgresql = survive-Yields w postgresql
on_primary w false postgresql =
    Yields-bind-Keeps _ _ (Parts.tell-Keeps NoDebt-Allows w Call.syncs_slots refl) (λ tr h. tt)
      λ _. pure-Yields (Settled w) Message.dcs_not_accessible

handle_dcs_error-Yields :
    (w : World) → w.is_mysql ≡ false → Yields NoDebt (Settled w) Any (handle_dcs_error w)
unfolding handle_dcs_error
handle_dcs_error-Yields w postgresql =
    Yields-bind-Keeps _ _
      (Leads-if _ _ _ (pure-Keeps false) (Parts.ask-Keeps NoDebt-Allows w Query.is_running refl))
      (λ tr h. tt)
      λ running.
        Yields-split running _ _
          (λ _.
            Yields-bind Unless _ _ (is_primary-Yields w) λ primary. on_primary w primary postgresql)
          (λ _. pure-Yields (Settled w) Message.dcs_not_accessible)

-- A node with PostgreSQL that does not reach the store, and that handles it without an error, has
-- stopped the database after each answer that it is a primary, or reports that it continues, and
-- then the `/failsafe` key lists it and all others that the key lists have accepted.
pub handle_dcs_error-Settled :
    (w : World) (s s' : State) (message : Message)
    → w.is_mysql ≡ false
    → s.trace ≡ []
    → handle_dcs_error w s ≡ (ok message, s')
    → Settled w message s'.trace
handle_dcs_error-Settled w s s' message postgresql fresh e =
    subst (After (Settled w) Any) e ((handle_dcs_error-Yields w postgresql).at s (rw fresh refl))
