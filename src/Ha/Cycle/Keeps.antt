-- ===== src/Ha/Cycle/Keeps.antt =====
-- What a part of the round keeps of the trace, whether it returns or raises.
use metatroni.Prelude.{Bool, true, false, List, Option, none, some, ◌≡◌, refl, if◌then◌else◌}
use metatroni.Ha.Cycle.{
  Result, Cluster, Event, World, State, Action, ok, raised, pure, ◌>>=◌, reads, on_option, continue,
}
use metatroni.Ha.Cycle.Lock.{set_is_leader, set_cluster}
use metatroni.Ha.Cycle.Primary.{set_promote_timestamp}

pub record Leads {A : Type 0} (P Q : List Event → Type 0) (m : Action A) : Type 0 where
  pub at : (s : State) → P s.trace → Q (m s).1.trace

abbrev pub Keeps : {A : Type 0} → (List Event → Type 0) → Action A → Type 0
Keeps P m = Leads P P m

-- What holds after a result, and after a raise.
abbrev pub After :
    {A : Type 0} → (A → List Event → Type 0) → (List Event → Type 0) → Result A × State → Type 0
After R Q (ok a, s) = R a s.trace
After R Q (raised e, s) = Q s.trace

pub record Yields {A : Type 0} (P : List Event → Type 0) (R : A → List Event → Type 0)
    (Q : List Event → Type 0) (m : Action A) : Type 0 where
  pub at : (s : State) → P s.trace → After R Q (m s)

module _ {A : Type 0} {P Q : List Event → Type 0} where
  pub Leads-weaken : (m : Action A) → ((tr : List Event) → P tr → Q tr) → Keeps Q m → Leads P Q m
  Leads-weaken m weaken km = record { at = λ s h. km.at s (weaken s.trace h) }

  pub Leads-on_option :
      {B : Type 0} (o : Option B) (m : Action A) (f : B → Action A)
      → Leads P Q m
      → ((b : B) → Leads P Q (f b))
      → Leads P Q (on_option o m f)
  unfolding on_option
  Leads-on_option none m f km kf = km
  Leads-on_option (some b) m f km kf = kf b

  pub Leads-split :
      (b : Bool) (m n : Action A)
      → (b ≡ true → Leads P Q m)
      → (b ≡ false → Leads P Q n)
      → Leads P Q (if b then m else n)
  Leads-split true m n km kn = km refl
  Leads-split false m n km kn = kn refl

  pub Leads-if :
      (b : Bool) (m n : Action A) → Leads P Q m → Leads P Q n → Leads P Q (if b then m else n)
  Leads-if true m n km kn = km
  Leads-if false m n km kn = kn

module _ {P : List Event → Type 0} where
  pub pure-Keeps : {A : Type 0} (a : A) → Keeps P (pure a)
  unfolding pure
  pure-Keeps a = record { at = λ s h. h }

  pub reads-Keeps : {A : Type 0} (f : State → A) → Keeps P (reads f)
  unfolding reads
  reads-Keeps f = record { at = λ s h. h }

  pub set_is_leader-Keeps : (w : World) (b : Bool) → Keeps P (set_is_leader w b)
  unfolding set_is_leader
  set_is_leader-Keeps w b = record { at = λ s h. h }

  pub set_cluster-Keeps : (c : Cluster) → Keeps P (set_cluster c)
  unfolding set_cluster
  set_cluster-Keeps c = record { at = λ s h. h }

  pub set_promote_timestamp-Keeps : (w : World) → Keeps P (set_promote_timestamp w)
  unfolding set_promote_timestamp
  set_promote_timestamp-Keeps w = record { at = λ s h. h }

module _ {A B : Type 0} {P Q : List Event → Type 0} where
  -- What follows starts from `P`, and `Q` holds if it is not reached.
  pub Leads-bind :
      (m : Action A) (f : A → Action B)
      → Keeps P m
      → ((tr : List Event) → P tr → Q tr)
      → ((a : A) → Leads P Q (f a))
      → Leads P Q (m >>= f)
  unfolding ◌>>=◌
  Leads-bind m f km weaken kf = record { at = λ s h. let (r, s') = m s in after r s' (km.at s h) }
    where
      after : (r : Result A) (s' : State) → P s'.trace → Q (continue (r, s') f).1.trace
      after (ok a) s' h = (kf a).at s' h
      after (raised e) s' h = weaken s'.trace h

  -- What follows keeps `Q`.
  pub Leads-then :
      (m : Action A) (f : A → Action B)
      → Leads P Q m
      → ((a : A) → Keeps Q (f a))
      → Leads P Q (m >>= f)
  unfolding ◌>>=◌
  Leads-then m f km kf = record { at = λ s h. let (r, s') = m s in after r s' (km.at s h) }
    where
      after : (r : Result A) (s' : State) → Q s'.trace → Q (continue (r, s') f).1.trace
      after (ok a) s' h = (kf a).at s' h
      after (raised e) s' h = h

  -- What follows may use the result.
  pub Leads-bind_result :
      {R : A → List Event → Type 0} (m : Action A) (f : A → Action B)
      → Yields P R Q m
      → ((a : A) → Leads (R a) Q (f a))
      → Leads P Q (m >>= f)
  unfolding ◌>>=◌
  Leads-bind_result {R} m f ym kf = record {
    at = λ s h. let (r, s') = m s in after r s' (ym.at s h);
  }
    where
      after : (r : Result A) (s' : State) → After R Q (r, s') → Q (continue (r, s') f).1.trace
      after (ok a) s' h = (kf a).at s' h
      after (raised e) s' h = h

module _ {A : Type 0} {Q : List Event → Type 0} (R : Bool → List Event → Type 0) where
  pub Leads-on_result :
      (b : Bool) (m n : Action A)
      → Leads (R true) Q m
      → Leads (R false) Q n
      → Leads (R b) Q (if b then m else n)
  Leads-on_result true m n km kn = km
  Leads-on_result false m n km kn = kn

module _ {A : Type 0} {Q : List Event → Type 0} (R : A → List Event → Type 0) where
  pub pure-Yields : (a : A) → Yields (R a) R Q (pure a)
  unfolding pure
  pure-Yields a = record { at = λ s h. h }

module _ {A B : Type 0} {P Q : List Event → Type 0} {R' : B → List Event → Type 0} where
  pub Yields-bind :
      (R : A → List Event → Type 0) (m : Action A) (f : A → Action B)
      → Yields P R Q m
      → ((a : A) → Yields (R a) R' Q (f a))
      → Yields P R' Q (m >>= f)
  unfolding ◌>>=◌
  Yields-bind R m f ym yf = record { at = λ s h. let (r, s') = m s in after r s' (ym.at s h) }
    where
      after : (r : Result A) (s' : State) → After R Q (r, s') → After R' Q (continue (r, s') f)
      after (ok a) s' h = (yf a).at s' h
      after (raised e) s' h = h

  pub Yields-bind-Keeps :
      (m : Action A) (f : A → Action B)
      → Keeps P m
      → ((tr : List Event) → P tr → Q tr)
      → ((a : A) → Yields P R' Q (f a))
      → Yields P R' Q (m >>= f)
  unfolding ◌>>=◌
  Yields-bind-Keeps m f km weaken yf = record {
    at = λ s h. let (r, s') = m s in after r s' (km.at s h);
  }
    where
      after : (r : Result A) (s' : State) → P s'.trace → After R' Q (continue (r, s') f)
      after (ok a) s' h = (yf a).at s' h
      after (raised e) s' h = weaken s'.trace h

module _ {A B : Type 0} {P : List Event → Type 0} where
  pub bind-Keeps :
      (m : Action A) (f : A → Action B) → Keeps P m → ((a : A) → Keeps P (f a)) → Keeps P (m >>= f)
  bind-Keeps m f km kf = Leads-bind m f km (λ tr h. h) kf

pub ruleset keeps_rules = (
  Leads-if, pure-Keeps, reads-Keeps, set_is_leader-Keeps, set_cluster-Keeps,
  set_promote_timestamp-Keeps, bind-Keeps, Leads-on_option,
)
