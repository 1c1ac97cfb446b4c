-- ===== src/Quorum/Sound/Recovery.antt =====
-- The failover branch and the handler of `QuorumError` in `_generate_transitions`
-- (patroni/quorum.py): together they keep every view safe, also where an update fails half done.
use metatroni.Prelude.{
  ℕ, ◌+◌, ◌≤◌, ◌≡◌, refl, sym, Bool, true, false, ◌&&◌, [], ◌∷◌, some, none, arith, Bool-cases,
  &&_split, inl, inr, length, ltb, leb, ap, ◌∙◌, ==_iff, ◌==◌,
}
use metatroni.Prelude.Int.{ℤ, pos, negsuc, sub_ℕ, pos_part, ◌-ℤ◌}
use metatroni.Names.{name_eq}
use metatroni.Collections.{CaseInsensitiveSet, is_empty, set_eq}
use metatroni.Collections.Laws.{IsDistinct, contains-union}
use metatroni.Collections.Size.{IsIn, set_eq→IsIn}
use mathlib.Core.Path.{subst}
use metatroni.Quorum.Kinds.{TransitionType}
use metatroni.Quorum.State.{Resolver, Run, get, pure, raise, raise_if, ◌>>=◌}
use metatroni.Quorum.Updates.{
  all_voters, all_sync, overlaps, sets_match, adjust, is_unchanged, set_quorum, sync_key,
  set_quorum_if_changed, quorum_update, sync_update,
}
use metatroni.Quorum.Resolver.{voters_after_failover, change_leader, recover}
use metatroni.Quorum.Stages.{when}
use metatroni.Quorum.Overlap.{View, view, IsSafe, overlaps-IsSafe}
use metatroni.Quorum.Trace.{publish, replay, replay-snoc, AllSafe-snoc}
use metatroni.Quorum.Sound.Rules.{Traced, Ends, Anywhere, follow_with}
use metatroni.Quorum.Sound.Updates.{
  with_quorum, set_quorum-checked, set_sync-checked, Traced-yield, quorum_update-Keeps,
}
use metatroni.Quorum.Sound.Failover.{
  Unpublished, Raised, failover_fits, within_sync, voters_after_failover_nonempty,
  voters_after_failover-IsDistinct,
}

-- What the failover branch needs of a state before it changes the leader.
pub record Ready (start : View) (r : Run) : Type 0 where
  pub traced : Traced start r
  pub distinct : IsDistinct r.self.sync
  pub other_leader : name_eq r.self.leader_wanted r.self.leader ≡ false

abbrev pub fresh : Resolver → Run
fresh s = record { self = s; yielded = [] }

-- Listing the new voters as the first synchronous standbys never raises after its assignments.
list_voters-Ends :
    (s : Resolver) (q : ℤ)
    → q ≡ sub_ℕ (length (voters_after_failover s)) s.quorum
    → Ready (view s) (fresh s)
    → Ends (Ready (view s)) (Raised (view s)) (sync_update q (voters_after_failover s) (fresh s))
unfolding sync_update raise
list_voters-Ends s (negsuc n) e h = inl h.traced
list_voters-Ends s (pos n) e h = elim (Bool-cases (ltb (length (voters_after_failover s)) n)) [
  | inl invalid ↦ unfold ◌>>=◌ raise_if in rw invalid (inl h.traced)
  | inr valid ↦
      unfold ◌>>=◌ raise_if in
      rw (valid, set_sync-checked, failover_fits s n fits)
        (record {
          traced =
              Traced-yield (view s) (fresh s) _ _ h.traced refl (unfold publish view in refl)
                (overlaps-IsSafe _ (&&_split _ _ (failover_fits s n fits)).0);
          distinct = voters_after_failover-IsDistinct s;
          other_leader = h.other_leader;
        })
]
  where
    fits : length (voters_after_failover s) ≤ s.quorum + n
    fits = ground arith

new_leader-Ends :
    (start : View) (voters : CaseInsensitiveSet) (r : Run)
    → IsDistinct voters
    → is_empty voters ≡ false
    → Ready start r
    → Ends (Traced start) (Raised start) (set_quorum r.self.leader_wanted r.self.quorum voters r)
new_leader-Ends start voters r d ne h =
    rw set_quorum-checked (elim (Bool-cases (overlaps s && sets_match s)) [
      | inl passed ↦ rw passed (
          Traced-yield start r _ _ h.traced refl (unfold publish view sync_key in refl)
            (overlaps-IsSafe s (&&_split (overlaps s) (sets_match s) passed).0))
      | inr failed ↦ rw failed (
          inr (record {
            safe = h.traced.safe;
            numsync = unfold view in ap (λ (v : View). v.numsync) h.traced.reached;
            sync = unfold view in ap (λ (v : View). v.sync) h.traced.reached;
            primary = unfold view in ap (λ (v : View). v.primary) h.traced.reached;
            broken = failed;
            leader = refl;
            voters_nonempty = ne;
            voters_distinct = d;
            sync_distinct = h.distinct;
          }))
    ])
  where
    s : Resolver
    s = with_quorum r.self r.self.leader_wanted r.self.quorum voters

-- The update to the new leader changes something, so it is never passed over in silence.
change-Ends :
    (start : View) (voters : CaseInsensitiveSet) (r : Run)
    → IsDistinct voters
    → is_empty voters ≡ false
    → Ready start r
    → Ends
        (Traced start)
        (Raised start)
        (quorum_update (pos r.self.quorum) voters (some r.self.leader_wanted) true r)
unfolding quorum_update set_quorum_if_changed is_unchanged adjust ◌>>=◌ raise_if get
change-Ends start voters r d ne h =
    elim (Bool-cases (ltb 0 r.self.quorum && leb (length voters) r.self.quorum)) [
      | inl invalid ↦ rw invalid (inl h.traced)
      | inr valid ↦ rw (valid, h.other_leader) (new_leader-Ends start voters r d ne h)
    ]

list_if_empty-Ends :
    (s : Resolver)
    → Ready (view s) (fresh s)
    → Ends (Ready (view s)) (Raised (view s)) (
        when
          (is_empty s.sync)
          (sync_update
            (sub_ℕ (length (voters_after_failover s)) s.quorum)
            (voters_after_failover s))
          (fresh s))
unfolding pure
list_if_empty-Ends s h = elim (Bool-cases (is_empty s.sync)) [
  | inl alone ↦ rw alone (list_voters-Ends s _ refl h)
  | inr listed ↦ rw listed h
]

pub change_leader-Ends :
    (s : Resolver)
    → Ready (view s) (fresh s)
    → Ends (Traced (view s)) (Raised (view s)) (change_leader (fresh s))
unfolding change_leader ◌>>=◌ get pure
change_leader-Ends s h =
    follow_with (Ready (view s)) (Traced (view s)) (Raised (view s)) _ _ (list_if_empty-Ends s h)
      (λ a r k.
        follow_with (Traced (view s)) (Traced (view s)) (Raised (view s)) _ _
          (change-Ends (view s) (voters_after_failover s) r (voters_after_failover-IsDistinct s)
            (voters_after_failover_nonempty s) k)
          (λ b r' t. t))

true_not_false : ◌≡◌ {A = Bool} true false → ⊥
true_not_false h = cc

difference_le : (q a b : ℕ) → pos q ≡ sub_ℕ a b → a ≤ q + b
difference_le q a b h = ground arith

-- Equal voters and standbys in sufficient number are no broken state.
not_broken :
    (start : View) (r : Run) (quorum : ℕ)
    → Unpublished start r
    → length r.self.sync ≤ quorum + r.self.numsync
    → is_unchanged r.self r.self.leader quorum r.self.sync ≡ true
    → ⊥
unfolding is_unchanged
not_broken start r quorum u fits h =
    absurd
      (true_not_false (sym (within_sync r.self listed (omega (arith, same_quorum))) ∙ u.broken))
  where
    parts : ((quorum == r.self.quorum) ≡ true) × (set_eq r.self.sync r.self.voters ≡ true)
    parts = ground arith

    same_quorum : quorum ≡ r.self.quorum
    same_quorum = (==_iff quorum r.self.quorum).0 parts.0

    members : IsIn r.self.sync r.self.voters × IsIn r.self.voters r.self.sync
    members = set_eq→IsIn r.self.sync r.self.voters u.sync_distinct u.voters_distinct parts.1

    listed : IsIn (all_voters r.self) (all_sync r.self)
    listed x k = ground (
      arith,
      contains-union x r.self.voters (r.self.leader ∷ []),
      k,
      members.1 x,
      contains-union x r.self.sync (r.self.leader_wanted ∷ []),
      u.leader,
    )

-- The handler's update publishes the leader, the quorum and the voters.
published-Ends :
    (start : View) (r : Run) (quorum : ℕ) (voters : CaseInsensitiveSet)
    → Unpublished start r
    → Ends (Traced start) Anywhere (set_quorum r.self.leader quorum voters r)
published-Ends start r quorum voters u =
    rw set_quorum-checked (elim (Bool-cases (overlaps s && sets_match s)) [
      | inl passed ↦ rw passed (record {
        safe = AllSafe-snoc r.yielded _ start u.safe (
            subst IsSafe (sym here)
              (overlaps-IsSafe s (&&_split (overlaps s) (sets_match s) passed).0));
        reached = replay-snoc r.yielded _ start ∙ here;
      })
      | inr failed ↦ rw failed tt
    ])
  where
    s : Resolver
    s = with_quorum r.self r.self.leader quorum voters

    here : publish (sync_key TransitionType.quorum s) (replay r.yielded start) ≡ view s
    here = unfold publish sync_key view in ground (arith, u.numsync, u.sync, u.primary)

adjust_nonempty :
    (s : Resolver) (quorum : ℕ) (voters : CaseInsensitiveSet)
    → is_empty s.voters ≡ false
    → adjust s quorum voters none true
      ≡ (s.leader, quorum + pos_part (pos s.numsync -ℤ s.numsync_confirmed), voters)
unfolding adjust
adjust_nonempty s quorum voters ne = ground arith

changed-Ends :
    (start : View) (r : Run) (quorum : ℕ)
    → Unpublished start r
    → length r.self.sync ≤ quorum + r.self.numsync
    → Ends (Traced start) Anywhere (set_quorum_if_changed r.self r.self.leader quorum r.self.sync r)
unfolding set_quorum_if_changed
changed-Ends start r quorum u fits =
    elim (Bool-cases (is_unchanged r.self r.self.leader quorum r.self.sync)) [
      | inl same_state ↦ absurd (not_broken start r quorum u fits same_state)
      | inr change ↦ rw change (published-Ends start r quorum r.self.sync u)
    ]

Unpublished-Ends :
    (start : View) (r : Run) (q : ℤ)
    → q ≡ sub_ℕ (length r.self.sync) r.self.numsync
    → Unpublished start r
    → Ends (Traced start) Anywhere (quorum_update q r.self.sync none true r)
unfolding quorum_update raise ◌>>=◌ raise_if get
Unpublished-Ends start r (negsuc n) e u = tt
Unpublished-Ends start r (pos q) e u = elim (Bool-cases (ltb 0 q && leb (length r.self.sync) q)) [
  | inl invalid ↦ rw invalid tt
  | inr valid ↦
      rw (valid, adjust_nonempty r.self q r.self.sync u.voters_nonempty)
        (changed-Ends start r _ u (omega (arith, difference_le q _ _ e)))
]

pub recover-Ends :
    (start : View) (r : Run) → Raised start r → Ends (Traced start) Anywhere (recover r)
unfolding recover ◌>>=◌ get pure
recover-Ends start r h =
    follow_with (Traced start) (Traced start) Anywhere _ _ (updated h) (λ a r' t. t)
  where
    updated :
        Raised start r
        → Ends
            (Traced start)
            Anywhere
            (quorum_update (sub_ℕ (length r.self.sync) r.self.numsync) r.self.sync none true r)
    updated (inl t) = (quorum_update-Keeps start _ _ none true).holds r t
    updated (inr u) = Unpublished-Ends start r _ refl u
