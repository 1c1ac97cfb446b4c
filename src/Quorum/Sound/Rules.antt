-- ===== src/Quorum/Sound/Rules.antt =====
-- The invariant of a run of the generator (patroni/quorum.py), and a rule for each form of
-- statement in it.
use metatroni.Prelude.{◌≡◌, Bool, true, false, if◌then◌else◌}
use metatroni.Quorum.State.{
  Run, Action, Result, Error, ok, err, quorum_error, assertion_error, pure, get, raise, raise_if,
  follow, ◌>>=◌,
}
use metatroni.Quorum.Overlap.{View, view}
use metatroni.Quorum.Trace.{replay, AllSafe}

-- What was yielded leads from the first view to the present one, through safe views.
pub record Traced (start : View) (r : Run) : Type 0 where
  pub safe : AllSafe r.yielded start
  pub reached : replay r.yielded start ≡ view r.self

-- How a statement may end: normally, by a `QuorumError`, or by a failed assertion.
abbrev pub Ends : {A : Type 0} → (Run → Type 0) → (Run → Type 0) → Result A × Run → Type 0
Ends P E (ok a, r) = P r
Ends P E (err quorum_error, r) = E r
Ends P E (err assertion_error, r) = Unit {0}

abbrev pub Anywhere : Run → Type 0
Anywhere r = Unit {0}

-- A statement that keeps the invariant, unless it raises.
pub record Keeps (start : View) {A : Type 0} (m : Action A) : Type 0 where
  pub holds : (r : Run) → Traced start r → Ends (Traced start) Anywhere (m r)

-- A statement after another, for any conditions.
pub follow_with :
    {A B : Type 0} (P Q E : Run → Type 0) (x : Result A × Run) (f : A → Action B)
    → Ends P E x
    → ((a : A) (r : Run) → P r → Ends Q E (f a r))
    → Ends Q E (follow x f)
follow_with P Q E (ok a, r) f h k = k a r h
follow_with P Q E (err quorum_error, r) f h k = h
follow_with P Q E (err assertion_error, r) f h k = tt

pub follow-Ends :
    {A B : Type 0} (start : View) (x : Result A × Run) (f : A → Action B)
    → Ends (Traced start) Anywhere x
    → ((a : A) → Keeps start (f a))
    → Ends (Traced start) Anywhere (follow x f)
follow-Ends start x f h k =
    follow_with (Traced start) (Traced start) Anywhere x f h (λ a r t. (k a).holds r t)

module _ {start : View} where
  pub Keeps-bind :
      {A B : Type 0} {m : Action A} {f : A → Action B}
      → Keeps start m
      → ((a : A) → Keeps start (f a))
      → Keeps start (m >>= f)
  unfolding ◌>>=◌
  Keeps-bind {A} {B} {m} {f} h k = record {
    holds = λ r t. follow-Ends start (m r) f (h.holds r t) k;
  }

  pub Keeps-pure : {A : Type 0} (a : A) → Keeps start (pure a)
  unfolding pure
  Keeps-pure a = record { holds = λ r t. t }

  pub Keeps-get : Keeps start get
  unfolding get
  Keeps-get = record { holds = λ r t. t }

  pub Keeps-if :
      {A : Type 0} (c : Bool) {m n : Action A}
      → Keeps start m
      → Keeps start n
      → Keeps start (if c then m else n)
  Keeps-if true h k = h
  Keeps-if false h k = k

  pub Keeps-raise : {A : Type 0} (e : Error) → Keeps start (raise {A = A} e)
  unfolding raise
  Keeps-raise quorum_error = record { holds = λ r t. tt }
  Keeps-raise assertion_error = record { holds = λ r t. tt }

  pub Keeps-raise_if : (c : Bool) (e : Error) → Keeps start (raise_if c e)
  unfolding raise_if
  Keeps-raise_if true quorum_error = record { holds = λ r t. tt }
  Keeps-raise_if true assertion_error = record { holds = λ r t. tt }
  Keeps-raise_if false e = record { holds = λ r t. t }

pub ruleset keeps = (Keeps-bind, Keeps-pure, Keeps-get, Keeps-if, Keeps-raise, Keeps-raise_if)
