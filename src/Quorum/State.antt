-- ===== src/Quorum/State.antt =====
-- The attributes of `QuorumStateResolver`, its transitions, and the exceptions and yields of its
-- generator as a monad over the state.
use metatroni.Prelude.{ℕ, Bool, List, [], ◌∷◌, ◌++◌, length, min, if◌then◌else◌}
use metatroni.Prelude.Int.{ℤ, pos}
use metatroni.Names.{Name}
use metatroni.Collections.{CaseInsensitiveSet, from_list}
use metatroni.Quorum.Kinds.{TransitionType}

pub record Transition : Type 0 where
  pub transition_type : TransitionType
  pub leader : Name
  pub num : ℕ
  pub names : CaseInsensitiveSet

-- `quorum` and `numsync` are natural numbers, as every update refuses negative ones;
-- `numsync_confirmed` may be recalculated from them as a negative difference.
pub record Resolver : Type 0 where
  pub leader : Name
  pub quorum : ℕ
  pub voters : CaseInsensitiveSet
  pub numsync : ℕ
  pub sync : CaseInsensitiveSet
  pub numsync_confirmed : ℤ
  pub active : CaseInsensitiveSet
  pub sync_wanted : ℕ
  pub leader_wanted : Name

-- `__init__`
unfoldable pub init : Name → ℕ → List Name → ℕ → List Name → ℕ → List Name → ℕ → Name → Resolver
init leader quorum voters numsync sync numsync_confirmed active sync_wanted leader_wanted = record {
  leader = leader;
  quorum = quorum;
  voters = from_list voters;
  numsync = min numsync (length sync);
  sync = from_list sync;
  numsync_confirmed = pos numsync_confirmed;
  active = from_list active;
  sync_wanted = sync_wanted;
  leader_wanted = leader_wanted;
}

-- A run of the generator: the object, and what has been yielded so far.
pub record Run : Type 0 where
  pub self : Resolver
  pub yielded : List Transition

pub data Error : Type 0 where
  quorum_error assertion_error : Error

pub data Result (A : Type 0) : Type 0 where
  ok : A → Result A
  err : Error → Result A

-- After a raise the state is what was assigned before it, and what was yielded stays yielded.
abbrev pub Action : Type 0 → Type 0
Action A = Run → Result A × Run

module _ {A : Type 0} where
  unfoldable pub pure : A → Action A
  pure a r = (ok a, r)

  unfoldable pub raise : Error → Action A
  raise e r = (err e, r)

  abbrev pub handled : Result A × Run → Action A → Result A × Run
  handled (ok a, r) handler = (ok a, r)
  handled (err quorum_error, r) handler = handler r
  handled (err assertion_error, r) handler = (err assertion_error, r)

  -- `except QuorumError`
  unfoldable pub on_quorum_error : Action A → Action A → Action A
  on_quorum_error m handler r = handled (m r) handler

unfoldable pub get : Action Resolver
get r = (ok r.self, r)

unfoldable pub put : Resolver → Action (Unit {0})
put s r = (ok tt, record r { self = s })

unfoldable pub yield : Transition → Action (Unit {0})
yield t r = (ok tt, record r { yielded = r.yielded ++ (t ∷ []) })

unfoldable pub raise_if : Bool → Error → Action (Unit {0})
raise_if c e r = (if c then err e else ok tt, r)

-- How a statement goes on from the one before it.
abbrev pub follow : {A B : Type 0} → Result A × Run → (A → Action B) → Result B × Run
follow (ok a, r) f = f a r
follow (err e, r) f = (err e, r)

infixl 5 ◌>>=◌ ◌>>◌
unfoldable pub ◌>>=◌ : {A B : Type 0} → Action A → (A → Action B) → Action B
◌>>=◌ m f r = follow (m r) f

abbrev pub ◌>>◌ : {A B : Type 0} → Action A → Action B → Action B
m >> k = m >>= λ _. k
