-- ===== src/Tests/Replication.antt =====
-- A round of `Ha._process_quorum_replication` (patroni/ha.py) at the state `joining`.
use metatroni.Prelude.{◌≡◌, refl, ℕ, Bool, false, List, Option, some, none, arith, ◌⊎◌, suc}
use metatroni.Prelude.Int.{pos}
use metatroni.Names.{name}
use metatroni.Dcs.SyncState.{SyncDict, write_sync_state, from_dict, sync_state, empty, quorum_of}
use metatroni.Dcs.SyncState.Laws.{IsPlain}
use metatroni.Names.Text.{has_code, join}
use metatroni.Quorum.State.{Transition}
use metatroni.Quorum.Overlap.{View, view, IsSafe}
use metatroni.Ha.Replication.{World, finished, updated_elsewhere, carry_out, carry_out_as}
use metatroni.Ha.Replication.Refines.{Agrees, AllWritable, carry_out-IsSafe}
use metatroni.Tests.Quorum.{program as resolver_program, letters}
use metatroni.Tests.Race.{program as race_program}
use metatroni.Tests.QuorumTheorems.{joining, joining-steps, steps}

unfoldable pub program : Unit {0}
unfolding resolver_program race_program has_code join write_sync_state from_dict sync_state empty
    quorum_of carry_out carry_out_as view
program = tt

-- The store takes every write, and counts the versions.
abbrev pub takes : SyncDict → Option ℕ → Option ℕ
takes d none = some 0
takes d (some n) = some (suc n)

-- A store in which somebody else has written.
abbrev refuses : SyncDict → Option ℕ → Option ℕ
refuses d v = none

abbrev in_time : List Transition → Bool
in_time ts = false

abbrev start : World
start = record {
  leader = name "a";
  sync = record {
    version = some 4;
    leader = some (name "a");
    sync_standby = some (name "b");
    quorum = pos 0;
  };
  numsync = 1;
  names = letters "b";
}

start-Agrees : Agrees start (view joining)
unfolding program
start-Agrees = record {
  leader = refl;
  quorum = refl;
  voters = λ x. refl;
  numsync = omega arith;
  names = λ x. refl;
}

a-IsPlain : IsPlain (name "a")
unfolding program
a-IsPlain = record { nonempty = refl; no_comma = refl; stripped = refl }

b-IsPlain : IsPlain (name "b")
unfolding program
b-IsPlain = record { nonempty = refl; no_comma = refl; stripped = refl }

c-IsPlain : IsPlain (name "c")
unfolding program
c-IsPlain = record { nonempty = refl; no_comma = refl; stripped = refl }

d-IsPlain : IsPlain (name "d")
unfolding program
d-IsPlain = record { nonempty = refl; no_comma = refl; stripped = refl }

e-IsPlain : IsPlain (name "e")
unfolding program
e-IsPlain = record { nonempty = refl; no_comma = refl; stripped = refl }

steps-AllWritable : AllWritable steps
unfolding program
steps-AllWritable = (
  record { leader = a-IsPlain; names = (b-IsPlain, (c-IsPlain, tt)) },
  (
    record { leader = a-IsPlain; names = (b-IsPlain, (c-IsPlain, (d-IsPlain, (e-IsPlain, tt)))) },
    (
      record { leader = a-IsPlain; names = (b-IsPlain, (c-IsPlain, (d-IsPlain, (e-IsPlain, tt)))) },
      tt,
    ),
  ),
)

-- A whole round.
ends : (carry_out takes 0 in_time steps start).0 ≡ finished
unfolding program
ends = refl

-- The key was written by someone else: the first transition has been carried out.
stops : (carry_out refuses 0 in_time steps start).0 ≡ updated_elsewhere
unfolding program
stops = refl

stops_early : (carry_out refuses 0 in_time steps start).1.numsync ≡ 2
unfolding program
stops_early = refl

carry_out-IsSafe_example :
    (u : View) × Agrees (carry_out takes 0 in_time steps start).1 u
    × ((u ≡ view joining) ⊎ IsSafe u)
carry_out-IsSafe_example =
    carry_out-IsSafe takes 0 in_time joining steps start (unfold program in (refl, tt))
      joining-steps steps-AllWritable start-Agrees
