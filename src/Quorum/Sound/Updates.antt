-- ===== src/Quorum/Sound/Updates.antt =====
-- `quorum_update` and `sync_update` (patroni/quorum.py) keep every view safe.
use metatroni.Prelude.{
  ℕ, ◌≡◌, refl, sym, ◌∙◌, ap, Bool, true, false, not, ◌&&◌, ◌∷◌, ◌++◌, [], Option, arith,
  Bool-cases, &&_split, inl, inr, length, ltb, leb, if◌then◌else◌,
}
use metatroni.Prelude.Int.{ℤ, pos, negsuc}
use metatroni.Names.{Name}
use metatroni.Collections.{CaseInsensitiveSet, is_empty}
use mathlib.Core.Path.{subst}
use metatroni.Quorum.Kinds.{TransitionType}
use metatroni.Quorum.State.{
  Resolver, Transition, Run, Result, ok, err, quorum_error, pure, get, put, yield, raise, raise_if,
  ◌>>=◌,
}
use metatroni.Quorum.Updates.{
  overlaps, sets_match, sync_key, sync_names, set_quorum, set_sync, hint_restart,
  set_quorum_if_changed, is_unchanged, quorum_update, sync_update,
}
use metatroni.Quorum.Overlap.{View, view, IsSafe, overlaps-IsSafe}
use metatroni.Quorum.Trace.{publish, replay, AllSafe, replay-snoc, AllSafe-snoc}
use metatroni.Quorum.Sound.Rules.{Traced, Ends, Anywhere, Keeps, keeps, follow-Ends}

-- One more transition, to a view that is safe.
pub Traced-yield :
    (start : View) (r r' : Run) (t : Transition)
    → Traced start r
    → r'.yielded ≡ r.yielded ++ (t ∷ [])
    → publish t (view r.self) ≡ view r'.self
    → IsSafe (view r'.self)
    → Traced start r'
Traced-yield start r r' t h e p k = record {
  safe =
      subst (λ ts. AllSafe ts start) (sym e)
        (AllSafe-snoc r.yielded t start h.safe (subst IsSafe (sym here) k));
  reached = ap (λ ts. replay ts start) e ∙ replay-snoc r.yielded t start ∙ here;
}
  where
    here : publish t (replay r.yielded start) ≡ view r'.self
    here = ap (publish t) h.reached ∙ p

-- A transition that is checked: what the end of either update does.
abbrev pub checked : Resolver → Run → Transition → Result (Unit {0}) × Run
checked s r t =
    if overlaps s && sets_match s
    then (ok tt, record { self = s; yielded = r.yielded ++ (t ∷ []) })
    else (err quorum_error, record { self = s; yielded = r.yielded })

abbrev pub with_quorum : Resolver → Name → ℕ → CaseInsensitiveSet → Resolver
with_quorum s leader quorum voters = record s { leader = leader; quorum = quorum; voters = voters }

abbrev pub with_sync : Resolver → ℕ → CaseInsensitiveSet → Resolver
with_sync s numsync sync = record s { numsync = numsync; sync = sync }

pub set_quorum-checked :
    (leader : Name) (quorum : ℕ) (voters : CaseInsensitiveSet) (r : Run)
    → set_quorum leader quorum voters r
      ≡ checked
          (with_quorum r.self leader quorum voters)
          r
          (sync_key TransitionType.quorum (with_quorum r.self leader quorum voters))
unfolding set_quorum ◌>>=◌ get put raise_if yield
set_quorum-checked leader quorum voters r = ground arith

pub set_sync-checked :
    (numsync : ℕ) (sync : CaseInsensitiveSet) (r : Run)
    → set_sync numsync sync r
      ≡ checked (with_sync r.self numsync sync) r (sync_names (with_sync r.self numsync sync))
unfolding set_sync ◌>>=◌ get put raise_if yield
set_sync-checked numsync sync r = ground arith

checked-Ends :
    (start : View) (s : Resolver) (r : Run) (t : Transition)
    → Traced start r
    → publish t (view r.self) ≡ view s
    → Ends (Traced start) Anywhere (checked s r t)
checked-Ends start s r t h p = elim (Bool-cases (overlaps s && sets_match s)) [
  | inl passed ↦ rw passed (
      Traced-yield start r _ t h refl p
        (overlaps-IsSafe s (&&_split (overlaps s) (sets_match s) passed).0))
  | inr failed ↦ rw failed tt
]

set_quorum-Keeps :
    (start : View) (leader : Name) (quorum : ℕ) (voters : CaseInsensitiveSet)
    → Keeps start (set_quorum leader quorum voters)
unfolding publish view sync_key
set_quorum-Keeps start leader quorum voters = record {
  holds = λ r h. rw (set_quorum-checked leader quorum voters r) (checked-Ends start _ r _ h refl);
}

set_sync-Keeps :
    (start : View) (numsync : ℕ) (sync : CaseInsensitiveSet) → Keeps start (set_sync numsync sync)
unfolding publish view sync_names
set_sync-Keeps start numsync sync = record {
  holds = λ r h. rw (set_sync-checked numsync sync r) (checked-Ends start _ r _ h refl);
}

-- The hint to restart changes nothing, and is given only where nobody but the leader may vote.
hint_restart-Traced :
    (start : View) (leader : Name) (r : Run)
    → Traced start r
    → is_empty r.self.voters ≡ true
    → Ends (Traced start) Anywhere (hint_restart r.self leader r)
unfolding hint_restart yield publish view sync_key
hint_restart-Traced start leader r h e = Traced-yield start r _ _ h refl refl (λ ne. absurd (cc))

voters_empty :
    (unchanged alone : Bool) → unchanged ≡ true → (unchanged && not alone) ≡ false → alone ≡ true
voters_empty unchanged alone h k = ground arith

set_quorum_if_changed-Traced :
    (start : View) (leader : Name) (quorum : ℕ) (voters : CaseInsensitiveSet) (r : Run)
    → Traced start r
    → Ends (Traced start) Anywhere (set_quorum_if_changed r.self leader quorum voters r)
unfolding set_quorum_if_changed
set_quorum_if_changed-Traced start leader quorum voters r h =
    elim (Bool-cases (unchanged && not (is_empty r.self.voters))) [
      | inl quiet ↦ rw quiet (unfold pure in h)
      | inr differs ↦ elim (Bool-cases unchanged) [
        | inl hint ↦
            rw (differs, hint)
              (unfold ◌>>=◌ in
                follow-Ends start (hint_restart r.self leader r)
                  (λ _. set_quorum leader quorum voters)
                  (hint_restart-Traced start leader r h (voters_empty _ _ hint differs))
                  (λ _. set_quorum-Keeps start leader quorum voters))
        | inr change ↦
            rw (differs, change) ((set_quorum-Keeps start leader quorum voters).holds r h)
      ]
    ]
  where
    unchanged : Bool
    unchanged = is_unchanged r.self leader quorum voters

pub quorum_update-Keeps :
    (start : View) (quorum : ℤ) (voters : CaseInsensitiveSet) (leader : Option Name)
    (adjust_quorum : Bool)
    → Keeps start (quorum_update quorum voters leader adjust_quorum)
unfolding quorum_update raise
quorum_update-Keeps start (negsuc n) voters leader adjust_quorum = record { holds = λ r h. tt }
quorum_update-Keeps start (pos q) voters leader adjust_quorum = record {
  holds = λ r h. elim (Bool-cases (ltb 0 q && leb (length voters) q)) [
    | inl invalid ↦ unfold ◌>>=◌ raise_if get in rw invalid tt
    | inr valid ↦
        unfold ◌>>=◌ raise_if get in rw valid (set_quorum_if_changed-Traced start _ _ _ r h)
  ];
}

pub sync_update-Keeps :
    (start : View) (numsync : ℤ) (sync : CaseInsensitiveSet)
    → Keeps start (sync_update numsync sync)
unfolding sync_update raise
sync_update-Keeps start (negsuc n) sync = record { holds = λ r h. tt }
sync_update-Keeps start (pos n) sync = record {
  holds = λ r h. elim (Bool-cases (ltb (length sync) n)) [
    | inl invalid ↦ unfold ◌>>=◌ raise_if in rw invalid tt
    | inr valid ↦ unfold ◌>>=◌ raise_if in rw valid ((set_sync-Keeps start n sync).holds r h)
  ];
}

pub ruleset updates = (keeps, quorum_update-Keeps, sync_update-Keeps)
