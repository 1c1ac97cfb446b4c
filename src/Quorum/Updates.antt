-- ===== src/Quorum/Updates.antt =====
-- `check_invariants`, `quorum_update` and `sync_update` of `QuorumStateResolver`.
-- A copy `CaseInsensitiveSet(s)` of a set is the set itself.
use metatroni.Prelude.{
  ℕ, ◌+◌, Bool, not, ◌&&◌, ◌||◌, [], ◌∷◌, Option, none, some, length, ltb, leb, ◌==◌, if◌then◌else◌,
}
use metatroni.Prelude.Int.{ℤ, pos, negsuc, pos_part, ◌-ℤ◌, is_zero}
use metatroni.Names.{Name, name_eq}
use metatroni.Collections.{CaseInsensitiveSet, union, issubset, is_empty, set_eq}
use metatroni.Quorum.Kinds.{TransitionType}
use metatroni.Quorum.State.{
  Resolver, Transition, Action, pure, get, put, yield, raise, raise_if, quorum_error, ◌>>=◌, ◌>>◌,
}

-- The nodes that take part in the leader race.
abbrev pub all_voters : Resolver → CaseInsensitiveSet
all_voters s = union s.voters (s.leader ∷ [])

-- The nodes that may acknowledge a commit.
abbrev pub all_sync : Resolver → CaseInsensitiveSet
all_sync s = union s.sync (s.leader_wanted ∷ [])

-- The first test of `check_invariants`: quorum and sync are guaranteed to overlap.
unfoldable pub overlaps : Resolver → Bool
overlaps s =
    is_empty s.voters || leb (length (union (all_voters s) (all_sync s))) (s.quorum + s.numsync + 1)

-- The second test: one set is allowed to be a subset of the other.
unfoldable pub sets_match : Resolver → Bool
sets_match s = issubset (all_voters s) (all_sync s) || issubset (all_sync s) (all_voters s)

unfoldable pub check_invariants : Action (Unit {0})
unfolding overlaps sets_match
check_invariants = do
  s ← get
  raise_if (not (overlaps s)) quorum_error
  raise_if (not (sets_match s)) quorum_error

-- `max(d, 0)` is the positive part of `d`. The leader, quorum and voters that `quorum_update` goes on with, by its `if`/`elif` chain.
unfoldable pub adjust :
    Resolver → ℕ → CaseInsensitiveSet → Option Name → Bool → Name × ℕ × CaseInsensitiveSet
adjust s quorum voters (some leader) adjust_quorum = (leader, quorum, voters)
adjust s quorum voters none adjust_quorum =
    if is_zero s.numsync_confirmed && is_empty s.voters
    then (s.leader, 0, [])
    else if adjust_quorum
    then (s.leader, quorum + pos_part (pos s.numsync -ℤ s.numsync_confirmed), voters)
    else (s.leader, quorum, voters)

-- `(self.leader, quorum, voters) == (old_leader, self.quorum, self.voters)`
unfoldable pub is_unchanged : Resolver → Name → ℕ → CaseInsensitiveSet → Bool
is_unchanged s leader quorum voters =
    name_eq leader s.leader && (quorum == s.quorum) && set_eq voters s.voters

unfoldable pub sync_key : TransitionType → Resolver → Transition
sync_key kind s = record {
  transition_type = kind;
  leader = s.leader;
  num = s.quorum;
  names = s.voters;
}

-- The end of `quorum_update`: assign, check and yield.
unfoldable pub set_quorum : Name → ℕ → CaseInsensitiveSet → Action (Unit {0})
unfolding sync_key check_invariants
set_quorum leader quorum voters = do
  s ← get
  put (record s { leader = leader; quorum = quorum; voters = voters })
  check_invariants
  s' ← get
  yield (sync_key TransitionType.quorum s')

unfoldable pub hint_restart : Resolver → Name → Action (Unit {0})
unfolding sync_key
hint_restart s leader = yield (sync_key TransitionType.restart (record s { leader = leader }))

-- The early `return` and the hint to restart.
unfoldable pub set_quorum_if_changed : Resolver → Name → ℕ → CaseInsensitiveSet → Action (Unit {0})
unfolding is_unchanged set_quorum hint_restart
set_quorum_if_changed s leader quorum voters =
    if is_unchanged s leader quorum voters && not (is_empty s.voters)
    then pure tt
    else if is_unchanged s leader quorum voters
    then hint_restart s leader >> set_quorum leader quorum voters
    else set_quorum leader quorum voters

unfoldable pub quorum_update : ℤ → CaseInsensitiveSet → Option Name → Bool → Action (Unit {0})
unfolding adjust set_quorum_if_changed
quorum_update (negsuc n) voters leader adjust_quorum = raise quorum_error
quorum_update (pos quorum) voters leader adjust_quorum = do
  raise_if (ltb 0 quorum && leb (length voters) quorum) quorum_error
  s ← get
  let (leader', quorum', voters') = adjust s quorum voters leader adjust_quorum
  set_quorum_if_changed s leader' quorum' voters'

unfoldable pub sync_names : Resolver → Transition
sync_names s = record {
  transition_type = TransitionType.sync;
  leader = s.leader;
  num = s.numsync;
  names = s.sync;
}

-- The end of `sync_update`: assign, check and yield.
unfoldable pub set_sync : ℕ → CaseInsensitiveSet → Action (Unit {0})
unfolding sync_names check_invariants
set_sync numsync sync = do
  s ← get
  put (record s { numsync = numsync; sync = sync })
  check_invariants
  s' ← get
  yield (sync_names s')

unfoldable pub sync_update : ℤ → CaseInsensitiveSet → Action (Unit {0})
unfolding set_sync
sync_update (negsuc n) sync = raise quorum_error
sync_update (pos numsync) sync = do
  raise_if (ltb (length sync) numsync) quorum_error
  set_sync numsync sync
