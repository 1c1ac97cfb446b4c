-- ===== src/Tests/QuorumTheorems.antt =====
-- The theorems about `QuorumStateResolver` (patroni/quorum.py) at concrete states.
use metatroni.Prelude.{arith, ◌≡◌, refl, List, [], ◌∷◌}
use metatroni.Prelude.Int.{pos}
use metatroni.Names.{name}
use metatroni.Quorum.State.{Resolver, Transition, ok}
use metatroni.Quorum.Resolver.{generate_transitions, transitions}
use metatroni.Quorum.Overlap.{view}
use metatroni.Quorum.Trace.{AllSafe, replay}
use metatroni.Quorum.Sound.Recovery.{fresh}
use metatroni.Quorum.Sound.Transitions.{transitions-AllSafe, transitions-replay}
use metatroni.Quorum.Live.Stages.{Regular}
use metatroni.Quorum.Live.Target.{transitions-factor}
use metatroni.Tests.Quorum.{program, letters, sync_to, quorum_to}

-- A node is added by increasing both sync and quorum (test_1222).
abbrev pub joining : Resolver
joining = record {
  leader = name "a";
  quorum = 0;
  voters = letters "b";
  numsync = 1;
  sync = letters "b";
  numsync_confirmed = pos 1;
  active = letters "bcde";
  sync_wanted = 2;
  leader_wanted = name "a";
}

abbrev pub steps : List Transition
steps = sync_to "a" 2 "bc" ∷ quorum_to "a" 3 "bcde" ∷ sync_to "a" 2 "bcde" ∷ []

pub joining-steps : transitions joining ≡ ok steps
unfolding program
joining-steps = refl

transitions-AllSafe_example : AllSafe steps (view joining)
unfolding program
transitions-AllSafe_example = transitions-AllSafe joining steps (refl, tt) joining-steps

transitions-replay_example :
    replay steps (view joining) ≡ view (generate_transitions (fresh joining)).1.self
unfolding program
transitions-replay_example = transitions-replay joining steps (refl, tt) joining-steps refl

-- Three standbys, one of which is needed for a commit; two are wanted, and one is confirmed.
abbrev settled : Resolver
settled = record {
  leader = name "a";
  quorum = 2;
  voters = letters "bcd";
  numsync = 1;
  sync = letters "bcd";
  numsync_confirmed = pos 1;
  active = letters "bcd";
  sync_wanted = 2;
  leader_wanted = name "a";
}

settled-Regular : Regular settled 1
unfolding program
settled-Regular = record {
  members = record {
    leader = refl;
    distinct_voters = (refl, (refl, (refl, tt)));
    distinct_sync = (refl, (refl, (refl, tt)));
    voters_in_sync = λ x h. h;
    sync_in_voters = λ x h. h;
    sync_in_active = λ x h. h;
    active_in_sync = λ x h. h;
    populated = refl;
  };
  exact = refl;
  synchronous = omega arith;
  known = refl;
  enough = omega arith;
}

transitions-factor_example :
    (ts : List Transition) × (transitions settled ≡ ok ts)
    × (replay ts (view settled) ≡ record (view settled) { numsync = 2; quorum = 2 })
unfolding program
transitions-factor_example = transitions-factor settled 1 settled-Regular (omega arith)
