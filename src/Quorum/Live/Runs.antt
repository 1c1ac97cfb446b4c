-- ===== src/Quorum/Live/Runs.antt =====
-- Statements of the generator (patroni/quorum.py) that end normally, from one state in another.
use metatroni.Prelude.{◌≡◌, refl, sym, ap, Bool, false, List, [], ◌∷◌, ◌++◌, arith}
use mathlib.Core.Path.{subst}
use metatroni.Quorum.Kinds.{TransitionType}
use metatroni.Quorum.State.{
  Resolver, Transition, Run, Action, Result, Error, ok, err, pure, get, put, yield, raise_if,
  follow, ◌>>=◌,
}
use metatroni.Quorum.Resolver.{same_type}
use metatroni.Quorum.Trace.{has_restart}

-- The object of a run, which has yielded no hint to restart.
abbrev pub At : Resolver → Run → Type 0
At s r = (r.self ≡ s) × (has_restart r.yielded ≡ false)

abbrev pub Returns : {A : Type 0} → A → Resolver → Result A × Run → Type 0
Returns a s x = (x.0 ≡ ok a) × At s x.1

-- The statement returns `a` and takes the object from `s` to `s'`.
pub record Leads (s : Resolver) {A : Type 0} (m : Action A) (a : A) (s' : Resolver) : Type 0 where
  pub runs : (r : Run) → At s r → Returns a s' (m r)

ok_inj : {A : Type 0} {a b : A} → ok a ≡ ok b → a ≡ b
ok_inj h = cc

not_ok : {A : Type 0} {a : A} {e : Error} → err e ≡ ok a → ⊥
not_ok h = cc

pub follow-Returns :
    {A B : Type 0} (x : Result A × Run) (f : A → Action B) (a : A) (b : B) (s s' : Resolver)
    → Returns a s x
    → Leads s (f a) b s'
    → Returns b s' (follow x f)
follow-Returns (ok a', r) f a b s s' h k =
    subst (λ c. Returns b s' (f c r)) (sym (ok_inj h.0)) (k.runs r h.1)
follow-Returns (err e, r) f a b s s' h k = absurd (not_ok h.0)

pub Leads-bind :
    {A B : Type 0} {m : Action A} (f : A → Action B) {a : A} {b : B} {s t u : Resolver}
    → Leads s m a t
    → Leads t (f a) b u
    → Leads s (m >>= f) b u
unfolding ◌>>=◌
Leads-bind {A} {B} {m} f {a} {b} {s} {t} {u} h k = record {
  runs = λ r i. follow-Returns (m r) f a b t u (h.runs r i) k;
}

pub Leads-pure : {A : Type 0} {s : Resolver} (a : A) → Leads s (pure a) a s
unfolding pure
Leads-pure a = record { runs = λ r i. (refl, i) }

pub Leads-get : {s : Resolver} → Leads s get s s
unfolding get
Leads-get = record { runs = λ r i. (ap ok i.0, i) }

pub Leads-put : {s s' : Resolver} → Leads s (put s') tt s'
unfolding put
Leads-put = record { runs = λ r i. (refl, (refl, i.1)) }

pub Leads-raise_if : {s : Resolver} {c : Bool} (e : Error) → c ≡ false → Leads s (raise_if c e) tt s
unfolding raise_if
Leads-raise_if e h = record { runs = λ r i. (rw h refl, i) }

has_restart-snoc :
    (ts : List Transition) (t : Transition)
    → has_restart ts ≡ false
    → same_type t.transition_type TransitionType.restart ≡ false
    → has_restart (ts ++ (t ∷ [])) ≡ false
has_restart-snoc [] t h k = ground arith
has_restart-snoc (u ∷ ts) t h k = ground (arith, has_restart-snoc ts t)

pub Leads-yield :
    {s : Resolver} (t : Transition)
    → same_type t.transition_type TransitionType.restart ≡ false
    → Leads s (yield t) tt s
unfolding yield
Leads-yield {s} t h = record { runs = λ r i. (refl, (i.0, has_restart-snoc r.yielded t i.1 h)) }
