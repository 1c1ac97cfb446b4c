-- ===== src/Quorum/Live/Stages.antt =====
-- The stages of the generator (patroni/quorum.py) from a state in which only the replication factor
-- may differ from what is wanted.
use metatroni.Prelude.{ℕ, ◌+◌, ◌<◌, ◌≤◌, ◌≡◌, Bool, false, arith, length, ltb, ◌==◌, ◌&&◌}
use metatroni.Prelude.Int.{pos, ◌+ℤ◌, min_ℤ, ltb_ℤ, is_zero}
use metatroni.Quorum.State.{Resolver}
use metatroni.Quorum.Stages.{handle_non_steady_cases, use_margin, remove_gone_nodes, add_new_nodes}
use metatroni.Quorum.Resolver.{confirm_numsync}
use metatroni.Quorum.Live.Runs.{Leads, Leads-bind, Leads-pure, Leads-get, Leads-raise_if}
use metatroni.Quorum.Live.Members.{
  SameMembers, length-members, not_below, not_above, members_agree, diff-is_empty,
}

-- The members are settled, the quorum is the smallest that overlaps, and so many nodes as the
-- present factor, `confirmed` in number, are known to hold all commits.
pub record Regular (s : Resolver) (confirmed : ℕ) : Type 0 where
  pub members : SameMembers s
  pub exact : s.quorum + s.numsync ≡ length s.sync
  pub synchronous : 0 < s.numsync
  pub known : s.numsync_confirmed ≡ pos confirmed
  pub enough : s.numsync ≤ confirmed

no_margin : (n q m c : ℕ) → q + m ≡ n → ltb_ℤ (pos n) (pos q +ℤ min_ℤ (pos m) (pos c)) ≡ false
no_margin n q m c h = ground arith

module _ {s : Resolver} {c : ℕ} (h : Regular s c) where
  use_margin-Leads : Leads s use_margin tt s
  unfolding use_margin
  use_margin-Leads = Leads-bind _ Leads-get (
      rw
        (
          length-members h.members,
          tight,
          no_count (s.numsync == s.sync_wanted) (ltb_ℤ s.numsync_confirmed (pos s.numsync)),
        )
        (Leads-pure tt))
    where
      tight :
          ltb_ℤ (pos (length s.sync)) (pos s.quorum +ℤ min_ℤ (pos s.numsync) s.numsync_confirmed)
          ≡ false
      tight = rw h.known (no_margin (length s.sync) s.quorum s.numsync c h.exact)

      no_count : (a b : Bool) → (a && ltb (length s.sync) (s.quorum + s.numsync) && b) ≡ false
      no_count a b = ground (arith, h.exact)

  pub handle_non_steady_cases-Leads : Leads s handle_non_steady_cases tt s
  unfolding handle_non_steady_cases
  handle_non_steady_cases-Leads = Leads-bind _ Leads-get (
      Leads-bind _ (rw (not_below h.members, not_above h.members) (Leads-pure tt)) (
        Leads-bind _ Leads-get (
          Leads-bind _ (Leads-raise_if _ (ground (arith, members_agree h.members)))
            use_margin-Leads)))

  pub remove_gone_nodes-Leads : Leads s remove_gone_nodes tt s
  unfolding remove_gone_nodes
  remove_gone_nodes-Leads =
      Leads-bind _ Leads-get
        (rw (diff-is_empty s.sync s.active h.members.sync_in_active) (Leads-pure tt))

  pub add_new_nodes-Leads : Leads s add_new_nodes tt s
  unfolding add_new_nodes
  add_new_nodes-Leads =
      Leads-bind _ Leads-get
        (rw (diff-is_empty s.active s.sync h.members.active_in_sync) (Leads-pure tt))

  pub confirm_numsync-Leads : Leads s confirm_numsync tt s
  unfolding confirm_numsync
  confirm_numsync-Leads = Leads-bind _ Leads-get (rw (is_known) (Leads-pure tt))
    where
      is_known : is_zero s.numsync_confirmed ≡ false
      is_known = rw h.known (ground (arith, h.synchronous, h.enough))
