-- ===== src/Ha/Cycle/Accepts.antt =====
-- The requests to the members of the `/failsafe` key (patroni/ha.py).
use metatroni.Prelude.{
  Bool, true, false, not, ◌&&◌, ◌||◌, List, [], ◌∷◌, some, ◌≡◌, refl, arith, keep, Bool-cases, inl,
  inr,
}
use metatroni.Names.{Name, name_eq}
use metatroni.Ha.Cycle.{Call, Event, World, called, pure}
use metatroni.Ha.Cycle.Keeps.{Yields, Yields-bind, pure-Yields}
use metatroni.Ha.Cycle.Debts.{Any}
use metatroni.Ha.Cycle.Outage.{call_failsafe_member, call_members, lists}

-- A member has accepted the request of the primary.
abbrev pub is_acceptance : Name → Event → Bool
is_acceptance n (called (Call.posts_failsafe m accepted)) = accepted && name_eq m n
is_acceptance n _ = false

abbrev pub has_accepted : Name → List Event → Bool
has_accepted n [] = false
has_accepted n (e ∷ tr) = is_acceptance n e || has_accepted n tr

abbrev pub AllAccepted : List Name → List Event → Type 0
AllAccepted [] tr = Unit
AllAccepted (n ∷ ns) tr = (has_accepted n tr ≡ true) × AllAccepted ns tr

-- The `/failsafe` key lists this node, and all others that it lists have accepted.
pub record Agreed (w : World) (tr : List Event) : Type 0 where
  pub nodes : List Name
  pub topology : w.failsafe ≡ some nodes
  pub is_listed : lists w.name nodes ≡ true
  pub accepted : AllAccepted (keep (λ n. not (name_eq n w.name)) nodes) tr

pub accepted_later :
    (n : Name) (e : Event) (tr : List Event)
    → has_accepted n tr ≡ true
    → has_accepted n (e ∷ tr) ≡ true
accepted_later n e tr h = elim (Bool-cases (is_acceptance n e)) [
  | inl now ↦ rw now refl
  | inr before ↦ rw before h
]

pub AllAccepted-later :
    (ns : List Name) (e : Event) (tr : List Event) → AllAccepted ns tr → AllAccepted ns (e ∷ tr)
AllAccepted-later [] e tr h = tt
AllAccepted-later (n ∷ ns) e tr h = (accepted_later n e tr h.0, AllAccepted-later ns e tr h.1)

-- What `True` says of a list of members.
abbrev pub OnAccepted : List Name → Bool → List Event → Type 0
OnAccepted ns true tr = AllAccepted ns tr
OnAccepted ns false tr = Unit

pub OnAccepted-later :
    (ns : List Name) (b : Bool) (e : Event) (tr : List Event)
    → OnAccepted ns b tr
    → OnAccepted ns b (e ∷ tr)
OnAccepted-later ns true e tr h = AllAccepted-later ns e tr h
OnAccepted-later ns false e tr h = tt

pub name_eq_self : (n : Name) → name_eq n n ≡ true
unfolding name_eq
name_eq_self [] = refl
name_eq_self (c ∷ n) = ground (arith, name_eq_self n)

pub call-OnAccepted :
    (w : World) (n : Name) (ns : List Name) (rest : Bool)
    → Yields
        (OnAccepted ns rest)
        (λ b. OnAccepted (n ∷ ns) (b && rest))
        Any
        (call_failsafe_member w n)
unfolding call_failsafe_member
call-OnAccepted w n ns rest = record { at = λ s h. by_answer (w.accepts n s.trace) rest s.trace h }
  where
    by_answer :
        (a r : Bool) (tr : List Event)
        → OnAccepted ns r tr
        → OnAccepted (n ∷ ns) (a && r) (called (Call.posts_failsafe n a) ∷ tr)
    by_answer true true tr h = (rw (name_eq_self n) refl, AllAccepted-later ns _ tr h)
    by_answer true false tr h = tt
    by_answer false r tr h = tt

pub call_members-Yields :
    (w : World) (ns : List Name) → Yields Any (OnAccepted ns) Any (call_members w ns)
unfolding call_members
call_members-Yields w [] = record { at = λ s h. unfold pure in tt }
call_members-Yields w (n ∷ ns) = Yields-bind (OnAccepted ns) _ _ (call_members-Yields w ns) λ rest.
    Yields-bind (λ b. OnAccepted (n ∷ ns) (b && rest)) _ _ (call-OnAccepted w n ns rest)
      λ accepted. pure-Yields (OnAccepted (n ∷ ns)) (accepted && rest)
