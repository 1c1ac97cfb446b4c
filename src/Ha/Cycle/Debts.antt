-- ===== src/Ha/Cycle/Debts.antt =====
-- A database that runs as a primary without the lock is to be stopped (patroni/ha.py): when a part
-- of a round leaves no such debt.
use metatroni.Prelude.{
  Bool, true, false, List, [], ◌∷◌, Option, none, some, ◌≡◌, refl, if◌then◌else◌,
}
use metatroni.Ha.Cycle.{
  DemoteMode, Task, Query, Call, Result, Event, World, State, Action, ok, raised, asked, called,
  ◌>>=◌, ask, tell, on_option,
}
use metatroni.Ha.Cycle.Keeps.{Leads, Leads-if, Yields, After, Yields-bind, reads-Keeps, pure-Keeps}
use metatroni.Ha.Cycle.Parts
use metatroni.Ha.Cycle.Parts.{Allows, is_plain_query, is_plain_call}
use metatroni.Ha.Cycle.Guards.{lock_event, latest}
use metatroni.Ha.Cycle.Demote.{stop, demote_postgresql, demote}
use metatroni.Ha.Cycle.Follow.{Message, demote_for, follow}

-- What an event does to the debt, where the lock is held or not: an answer that the database is a
-- primary makes one, and a stop or the demotion of the cluster settles it.
abbrev pub debt_event : Bool → Event → Option Bool
debt_event held (asked Query.is_primary (ok true)) = if held then none else some true
debt_event held (called (Call.stops m)) = some false
debt_event held (called (Call.runs Task.demote_to_standby)) = some false
debt_event held _ = none

abbrev pub owes : List Event → Bool
owes [] = false
owes (e ∷ tr) = elim (debt_event (latest lock_event tr) e) [ some b ↦ b | none ↦ owes tr ]

abbrev pub NoDebt : List Event → Type 0
NoDebt tr = owes tr ≡ false

abbrev pub Any : List Event → Type 0
Any tr = Unit

plain_query-debt :
    (held : Bool) (q : Query) (r : Result Bool)
    → is_plain_query q ≡ true
    → debt_event held (asked q r) ≡ none
plain_query-debt held Query.is_primary r h = cc
plain_query-debt held _ r h = refl

pub call-NoDebt : (c : Call) (tr : List Event) → NoDebt tr → NoDebt (called c ∷ tr)
call-NoDebt (Call.stops m) tr h = refl
call-NoDebt (Call.runs Task.demote_to_standby) tr h = refl
call-NoDebt (Call.runs _) tr h = h
call-NoDebt _ tr h = h

pub NoDebt-Allows : Allows NoDebt
NoDebt-Allows = record {
  asking = λ q r tr plain h. rw (plain_query-debt (latest lock_event tr) q r plain, owes) h;
  calling = λ c tr plain h. call-NoDebt c tr h;
  loading = λ r tr h. h;
}

-- A part that, if it returns, leads from `P` to `R`.
abbrev pub Ends : {A : Type 0} → (List Event → Type 0) → (List Event → Type 0) → Action A → Type 0
Ends P R m = Yields P (λ _. R) Any m

module _ {A : Type 0} {P R : List Event → Type 0} where
  pub Leads-Ends : (m : Action A) → Leads P R m → Ends P R m
  Leads-Ends m lm = record { at = λ s h. let (r, s') = m s in after r s' (lm.at s h) }
    where
      after : (r : Result A) (s' : State) → R s'.trace → After (λ _. R) Any (r, s')
      after (ok a) s' h = h
      after (raised e) s' h = tt

  pub Ends-split :
      (b : Bool) (m n : Action A)
      → (b ≡ true → Ends P R m)
      → (b ≡ false → Ends P R n)
      → Ends P R (if b then m else n)
  Ends-split true m n em en = em refl
  Ends-split false m n em en = en refl

  pub Ends-if_false :
      (b : Bool) (m n : Action A) → b ≡ false → Ends P R n → Ends P R (if b then m else n)
  Ends-if_false true m n e en = cc
  Ends-if_false false m n e en = en

  pub Ends-on_option :
      {B : Type 0} (o : Option B) (m : Action A) (f : B → Action A)
      → Ends P R m
      → ((b : B) → Ends P R (f b))
      → Ends P R (on_option o m f)
  unfolding on_option
  Ends-on_option none m f em ef = em
  Ends-on_option (some b) m f em ef = ef b

module _ {A : Type 0} {P : List Event → Type 0} where
  pub Any-Ends : (m : Action A) → Ends P Any m
  Any-Ends m = Leads-Ends m (record { at = λ s h. tt })

module _ {A : Type 0} {P R : List Event → Type 0} where
  pub Ends-from_Any : (m : Action A) → Ends Any R m → Ends P R m
  Ends-from_Any m em = record { at = λ s h. em.at s tt }

module _ {A B : Type 0} {P R : List Event → Type 0} (T : List Event → Type 0) where
  pub Ends-bind :
      (m : Action A) (f : A → Action B)
      → Ends P T m
      → ((a : A) → Ends T R (f a))
      → Ends P R (m >>= f)
  Ends-bind m f em ef = Yields-bind (λ _. T) m f em ef

-- What is known after the database was asked for its role.
abbrev pub Unless : Bool → List Event → Type 0
Unless true tr = Unit
Unless false tr = NoDebt tr

pub is_primary-Yields : (w : World) → Yields NoDebt Unless Any (ask w Query.is_primary)
unfolding ask
is_primary-Yields w = record { at = λ s h. by_answer (w.answer Query.is_primary s.trace) s h }
  where
    by_answer :
        (a : Result Bool) (s : State)
        → NoDebt s.trace
        → After Unless Any (a, record s { trace = asked Query.is_primary a ∷ s.trace })
    by_answer (ok true) s h = tt
    by_answer (ok false) s h = h
    by_answer (raised e) s h = tt

module _ {A : Type 0} {R : List Event → Type 0} where
  pub Ends-Unless :
      (b : Bool) (m n : Action A)
      → Ends Any R m
      → Ends NoDebt R n
      → Ends (Unless b) R (if b then m else n)
  Ends-Unless true m n em en = em
  Ends-Unless false m n em en = en

-- A stop settles the debt.
stops-Leads : (c : Call) → ((tr : List Event) → NoDebt (called c ∷ tr)) → Leads Any NoDebt (tell c)
unfolding tell
stops-Leads c settles = record { at = λ s h. settles s.trace }

stop-Ends : (w : World) (mode : DemoteMode) (release : Bool) → Ends Any NoDebt (stop w mode release)
unfolding stop
stop-Ends w mode release = Ends-bind Any _ _ (Any-Ends _) λ guarded.
    Ends-bind Any _ _ (Any-Ends _) λ _.
      Ends-bind NoDebt _ _ (Leads-Ends _ (stops-Leads (Call.stops _) (λ tr. refl)))
        λ _. Leads-Ends _ (Parts.finish_stop-Keeps NoDebt-Allows w guarded release)

demote_postgresql-Ends :
    (w : World) (mode : DemoteMode) → Ends Any NoDebt (demote_postgresql w mode)
unfolding demote_postgresql
demote_postgresql-Ends w mode = Ends-bind Any _ _ (Any-Ends _) λ _.
    Ends-bind Any _ _ (Any-Ends _) λ archive_command.
      Ends-bind NoDebt _ _ (stop-Ends w mode _)
        λ released. Leads-Ends _ (Parts.finish_demotion-Keeps NoDebt-Allows w mode _ _ released)

module _ (w : World) (postgresql : w.is_mysql ≡ false) where
  pub demote-Ends : (mode : DemoteMode) → Ends Any NoDebt (demote w mode)
  unfolding demote
  demote-Ends mode = Ends-if_false _ _ _ postgresql (demote_postgresql-Ends w mode)

  demote_for-Ends : (reason : Message) → Ends Any NoDebt (demote_for w reason)
  unfolding demote_for
  demote_for-Ends reason =
      Ends-bind NoDebt _ _
        (Ends-split _ _ _
          (λ _. Leads-Ends _ (stops-Leads (Call.runs Task.demote_to_standby) (λ tr. refl)))
          (λ _. demote-Ends DemoteMode.immediate_nolock))
        λ _. Leads-Ends _ (pure-Keeps reason)

  pub follow-Ends :
      (demote_reason reason : Message) (refresh : Bool)
      → w.is_paused ≡ false
      → Ends NoDebt NoDebt (follow w demote_reason reason refresh)
  unfolding follow
  follow-Ends demote_reason reason refresh running =
      Ends-bind NoDebt _ _
        (Leads-Ends _
          (Leads-if _ _ _ (Parts.load_cluster_from_dcs-Keeps NoDebt-Allows w) (pure-Keeps tt)))
        λ _. Yields-bind Unless _ _ (is_primary-Yields w) λ primary.
          Ends-bind (Unless primary) _ _ (Leads-Ends _ (reads-Keeps _)) λ target.
            Ends-if_false _ _ _ running (
              Ends-Unless primary _ _ (demote_for-Ends demote_reason)
                (Leads-Ends _ (Parts.follow_as_replica-Keeps NoDebt-Allows w target reason)))
