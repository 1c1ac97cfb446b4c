-- ===== src/Quorum/Live/Factor.antt =====
-- `__handle_replication_factor_change` (patroni/quorum.py): the numbers it arrives at.
use metatroni.Prelude.{
  ℕ, ◌+◌, ◌-◌, ◌<◌, ◌≤◌, ◌≡◌, sym, ◌∙◌, ap, Bool, true, false, none, arith, length, ltb, min,
  Bool-cases, inl, inr, if◌then◌else◌,
}
use mathlib.Core.Path.{subst}
use metatroni.Prelude.Int.{ℤ, pos, ◌+ℤ◌, ltb_ℤ, sub_ℕ}
use metatroni.Quorum.State.{Resolver, pure}
use metatroni.Quorum.Stages.{handle_replication_factor_change}
use metatroni.Quorum.Updates.{quorum_update}
use metatroni.Quorum.Live.Runs.{Leads, Leads-bind, Leads-pure, Leads-get}
use metatroni.Quorum.Live.Members.{
  SameMembers, Fits, Fits-enough, length-voters, length-sync, voters_populated,
}
use metatroni.Quorum.Live.Updates.{sync_update-Leads, quorum_update-Leads, adjusted}
use metatroni.Quorum.Live.Stages.{Regular}

ltb-true : (a b : ℕ) → a < b → ltb a b ≡ true
ltb-true a b l = ground arith

not_ltb : (a b : ℕ) → b ≤ a → ltb a b ≡ false
not_ltb a b l = ground arith

-- The state with other counts.
abbrev pub counting : Resolver → ℕ → ℕ → Resolver
counting s numsync quorum = record s { numsync = numsync; quorum = quorum }

-- The replication factor that can be had.
abbrev pub wanted : Resolver → ℕ
wanted s = min s.sync_wanted (length s.sync)

-- The quorum for a replication factor: the standbys that are not needed for a commit, and one more
-- for each of the needed ones that is not known to hold all commits.
abbrev pub quorum_for : Resolver → ℕ → ℕ → ℕ
quorum_for s confirmed numsync = length s.sync - numsync + (numsync - confirmed)

counting-SameMembers :
    (s : Resolver) (numsync quorum : ℕ) → SameMembers s → SameMembers (counting s numsync quorum)
counting-SameMembers s numsync quorum h = record {
  leader = h.leader;
  distinct_voters = h.distinct_voters;
  distinct_sync = h.distinct_sync;
  voters_in_sync = h.voters_in_sync;
  sync_in_voters = h.sync_in_voters;
  sync_in_active = h.sync_in_active;
  active_in_sync = h.active_in_sync;
  populated = h.populated;
}

counting-Fits :
    (s : Resolver) (numsync quorum : ℕ)
    → SameMembers s
    → length s.sync ≤ quorum + numsync
    → Fits (counting s numsync quorum)
counting-Fits s numsync quorum h k = Fits-enough (counting-SameMembers s numsync quorum h) k

sub_ℕ-le : (a b : ℕ) → b ≤ a → sub_ℕ a b ≡ pos (a - b)
sub_ℕ-le a b h = ground arith

-- An update of the quorum that brings it to a given number.
quorum_to :
    (s : Resolver) (q q' : ℕ) (z : ℤ) (adjust_quorum : Bool)
    → SameMembers s
    → z ≡ pos q
    → q < length s.sync
    → adjusted s q adjust_quorum ≡ q'
    → length s.sync ≤ q' + s.numsync
    → Leads s (quorum_update z s.voters none adjust_quorum) tt (counting s s.numsync q')
quorum_to s q q' z adjust_quorum h e k a f =
    subst (λ y. Leads s (quorum_update y s.voters none adjust_quorum) tt (counting s s.numsync q'))
      (sym e)
      (subst
        (λ p.
          Leads s (quorum_update (pos q) s.voters none adjust_quorum) tt (counting s s.numsync p))
        a
        (quorum_update-Leads s q adjust_quorum (voters_populated h)
          (omega (arith, length-voters h, k)) (rw a (counting-Fits s s.numsync q' h f))))

adjusted-some :
    (s : Resolver) (q c : ℕ) (adjust_quorum : Bool)
    → s.numsync_confirmed ≡ pos c
    → adjusted s q adjust_quorum ≡ (if adjust_quorum then q + (s.numsync - c) else q)
adjusted-some s q c adjust_quorum h = rw h (ground arith)

module _ {s : Resolver} {c : ℕ} (h : Regular s c) (sync_wanted : 0 < s.sync_wanted) where
  raise_factor :
      s.numsync < wanted s
      → Leads s handle_replication_factor_change tt
          (counting s (wanted s) (quorum_for s c (wanted s)))
  unfolding handle_replication_factor_change
  raise_factor k = Leads-bind _ Leads-get (
      rw (ltb-true s.numsync (wanted s) k) (
        Leads-bind _
          (sync_update-Leads s (wanted s) s.sync (omega arith)
            (counting-Fits s (wanted s) s.quorum h.members (omega (arith, h.exact, k))))
          (Leads-bind _ Leads-get (
            quorum_to (counting s (wanted s) s.quorum) (length s.sync - wanted s)
              (quorum_for s c (wanted s)) _ true
              (counting-SameMembers s (wanted s) s.quorum h.members)
              (rw (length-voters h.members) (sub_ℕ-le (length s.sync) (wanted s) (omega arith)))
              (omega (arith, k)) (adjusted-some (counting s (wanted s) s.quorum) _ c true h.known)
              (omega arith)))))

  lower_factor :
      wanted s < s.numsync
      → Leads s handle_replication_factor_change tt
          (counting s (wanted s) (quorum_for s c (wanted s)))
  unfolding handle_replication_factor_change
  lower_factor k = Leads-bind _ Leads-get (
      rw
        (
          not_ltb s.numsync (wanted s) (omega (arith, k)),
          ltb-true (wanted s) s.numsync k,
          still_voters,
        )
        (Leads-bind _
          (quorum_to s (length s.sync - wanted s) (quorum_for s c (wanted s)) _ adjust h.members
            smaller (omega (arith, length-sync h.members))
            (adjusted-some s _ c adjust h.known ∙ no_adjustment adjust) (omega (arith, k)))
          (Leads-bind _ Leads-get (
            sync_update-Leads (counting s s.numsync (quorum_for s c (wanted s))) (wanted s) s.sync
              (omega arith)
              (counting-Fits s (wanted s) (quorum_for s c (wanted s)) h.members (omega arith))))))
    where
      adjust : Bool
      adjust = ltb_ℤ s.numsync_confirmed (pos s.sync_wanted)

      still_voters : ltb (s.quorum + (s.numsync - wanted s)) (length s.voters) ≡ true
      still_voters =
          ltb-true _ _ (omega (arith, length-voters h.members, length-sync h.members, h.exact, k))

      smaller :
          sub_ℕ (length s.voters) s.numsync +ℤ pos (s.numsync - wanted s)
          ≡ pos (length s.sync - wanted s)
      smaller =
          rw (length-voters h.members, sub_ℕ-le (length s.sync) s.numsync (omega (arith, h.exact)))
            (sub_ℕ-le _ 0 (omega arith) ∙ ap pos (omega (arith, h.exact, k)))

      no_adjustment :
          (b : Bool)
          → (if b then length s.sync - wanted s + (s.numsync - c) else length s.sync - wanted s)
            ≡ quorum_for s c (wanted s)
      no_adjustment b = ground (arith, h.enough, k)

  keep_factor :
      s.numsync ≡ wanted s
      → Leads s handle_replication_factor_change tt
          (counting s (wanted s) (quorum_for s c (wanted s)))
  unfolding handle_replication_factor_change
  keep_factor k = Leads-bind _ Leads-get (
      rw
        (
          not_ltb s.numsync (wanted s) (omega (arith, k)),
          not_ltb (wanted s) s.numsync (omega (arith, k)),
        )
        (subst (λ t. Leads s (pure tt) tt t) same_counts (Leads-pure tt)))
    where
      same_counts : s ≡ counting s (wanted s) (quorum_for s c (wanted s))
      same_counts =
          ap (λ n. counting s n s.quorum) k
          ∙ ap (λ q. counting s (wanted s) q) (omega (arith, k, h.exact, h.enough))

  -- The factor becomes the wanted one, as far as there are nodes, and the quorum fits it.
  pub handle_replication_factor_change-Leads :
      Leads s handle_replication_factor_change tt
        (counting s (wanted s) (quorum_for s c (wanted s)))
  handle_replication_factor_change-Leads = elim (Bool-cases (ltb s.numsync (wanted s))) [
    | inl less ↦ raise_factor (ground (arith, less))
    | inr not_less ↦ elim (Bool-cases (ltb (wanted s) s.numsync)) [
      | inl more ↦ lower_factor (ground (arith, more))
      | inr not_more ↦ keep_factor (ground (arith, not_less, not_more))
    ]
  ]
