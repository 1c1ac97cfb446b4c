-- ===== src/Quorum/Live/Updates.antt =====
-- `quorum_update` and `sync_update` (patroni/quorum.py) where they raise nothing.
use metatroni.Prelude.{
  ℕ, ◌+◌, ◌<◌, ◌≤◌, ◌≡◌, refl, sym, ap, Bool, true, false, none, arith, length, ==_iff, Bool-cases,
  inl, inr, if◌then◌else◌,
}
use mathlib.Core.Path.{subst}
use metatroni.Prelude.Int.{pos, ◌-ℤ◌, pos_part}
use metatroni.Names.{Name}
use metatroni.Collections.{CaseInsensitiveSet, is_empty}
use metatroni.Quorum.State.{Resolver, pure}
use metatroni.Quorum.Resolver.{same_type}
use metatroni.Quorum.Updates.{
  check_invariants, adjust, is_unchanged, sync_key, sync_names, set_quorum, set_quorum_if_changed,
  set_sync, quorum_update, sync_update,
}
use metatroni.Quorum.Live.Runs.{
  Leads, Leads-bind, Leads-pure, Leads-get, Leads-put, Leads-raise_if, Leads-yield,
}
use metatroni.Quorum.Live.Members.{Fits}
use metatroni.Quorum.Sound.Updates.{with_quorum, with_sync}

pub check_invariants-Leads : (s : Resolver) → Fits s → Leads s check_invariants tt s
unfolding check_invariants
check_invariants-Leads s h =
    Leads-bind _ Leads-get (
      Leads-bind _ (Leads-raise_if _ (ground (arith, h.0)))
        (Leads-raise_if _ (ground (arith, h.1))))

set_sync-Leads :
    (s : Resolver) (n : ℕ) (sync : CaseInsensitiveSet)
    → Fits (with_sync s n sync)
    → Leads s (set_sync n sync) tt (with_sync s n sync)
unfolding set_sync same_type sync_names
set_sync-Leads s n sync h = Leads-bind _ Leads-get (
    Leads-bind _ Leads-put (
      Leads-bind _ (check_invariants-Leads (with_sync s n sync) h)
        (Leads-bind _ Leads-get (Leads-yield _ refl))))

pub sync_update-Leads :
    (s : Resolver) (n : ℕ) (sync : CaseInsensitiveSet)
    → n ≤ length sync
    → Fits (with_sync s n sync)
    → Leads s (sync_update (pos n) sync) tt (with_sync s n sync)
unfolding sync_update
sync_update-Leads s n sync h k =
    Leads-bind _ (Leads-raise_if _ (ground (arith, h))) (set_sync-Leads s n sync k)

set_quorum-Leads :
    (s : Resolver) (leader : Name) (q : ℕ) (voters : CaseInsensitiveSet)
    → Fits (with_quorum s leader q voters)
    → Leads s (set_quorum leader q voters) tt (with_quorum s leader q voters)
unfolding set_quorum same_type sync_key
set_quorum-Leads s leader q voters h = Leads-bind _ Leads-get (
    Leads-bind _ Leads-put (
      Leads-bind _ (check_invariants-Leads (with_quorum s leader q voters) h)
        (Leads-bind _ Leads-get (Leads-yield _ refl))))

-- The quorum that is already there.
same_quorum :
    (s : Resolver) (q : ℕ)
    → is_unchanged s s.leader q s.voters ≡ true
    → s ≡ with_quorum s s.leader q s.voters
unfolding is_unchanged
same_quorum s q h =
    ap (λ n. with_quorum s s.leader n s.voters) (sym ((==_iff q s.quorum).0 (ground (arith, h))))

-- The leader and the voters stay, and the quorum may change.
set_quorum_if_changed-Leads :
    (s : Resolver) (q : ℕ)
    → is_empty s.voters ≡ false
    → Fits (with_quorum s s.leader q s.voters)
    → Leads s (set_quorum_if_changed s s.leader q s.voters) tt (with_quorum s s.leader q s.voters)
unfolding set_quorum_if_changed
set_quorum_if_changed-Leads s q h k = elim (Bool-cases (is_unchanged s s.leader q s.voters)) [
  | inl unchanged ↦
      rw (unchanged, h)
        (subst (λ t. Leads s (pure tt) tt t) (same_quorum s q unchanged) (Leads-pure tt))
  | inr change ↦ rw change (set_quorum-Leads s s.leader q s.voters k)
]

-- The quorum after the adjustment.
abbrev pub adjusted : Resolver → ℕ → Bool → ℕ
adjusted s q adjust_quorum =
    if adjust_quorum then q + pos_part (pos s.numsync -ℤ s.numsync_confirmed) else q

adjust-voters :
    (s : Resolver) (q : ℕ) (adjust_quorum : Bool)
    → is_empty s.voters ≡ false
    → adjust s q s.voters none adjust_quorum ≡ (s.leader, adjusted s q adjust_quorum, s.voters)
unfolding adjust
adjust-voters s q adjust_quorum h = ground arith

pub quorum_update-Leads :
    (s : Resolver) (q : ℕ) (adjust_quorum : Bool)
    → is_empty s.voters ≡ false
    → q < length s.voters
    → Fits (with_quorum s s.leader (adjusted s q adjust_quorum) s.voters)
    → Leads s
        (quorum_update (pos q) s.voters none adjust_quorum)
        tt
        (with_quorum s s.leader (adjusted s q adjust_quorum) s.voters)
unfolding quorum_update
quorum_update-Leads s q adjust_quorum h k f = Leads-bind _ (Leads-raise_if _ (ground (arith, k))) (
    Leads-bind _ Leads-get (
      rw (adjust-voters s q adjust_quorum h)
        (set_quorum_if_changed-Leads s (adjusted s q adjust_quorum) h f)))
