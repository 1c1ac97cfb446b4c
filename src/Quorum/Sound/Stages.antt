-- ===== src/Quorum/Sound/Stages.antt =====
-- Every stage of the generator (patroni/quorum.py) keeps every view safe.
use metatroni.Prelude.{Bool-cases, inl, inr, ◌&&◌, not}
use metatroni.Collections.{CaseInsensitiveSet, is_empty, inter}
use metatroni.Prelude.Int.{is_zero}
use metatroni.Prelude.{ℕ}
use metatroni.Quorum.State.{put, get, pure, ◌>>=◌}
use metatroni.Quorum.Stages.{
  sync_below_voters, sync_above_voters, use_margin, handle_non_steady_cases, remove_all_nodes,
  reduce_quorum, reduce_numsync, remove_gone_nodes, increase_numsync, increase_quorum,
  add_new_nodes, handle_replication_factor_change,
}
use metatroni.Quorum.Resolver.{confirm_numsync, settle}
use metatroni.Quorum.Overlap.{View, view}
use metatroni.Quorum.Sound.Rules.{Keeps}
use metatroni.Quorum.Sound.Updates.{updates}

module _ (start : View) where
  sync_below_voters-Keeps : Keeps start sync_below_voters
  unfolding sync_below_voters
  sync_below_voters-Keeps = search updates depth 12

  sync_above_voters-Keeps : Keeps start sync_above_voters
  unfolding sync_above_voters
  sync_above_voters-Keeps = search updates depth 12

  use_margin-Keeps : Keeps start use_margin
  unfolding use_margin
  use_margin-Keeps = search updates depth 12

  handle_non_steady_cases-Keeps : Keeps start handle_non_steady_cases
  unfolding handle_non_steady_cases
  handle_non_steady_cases-Keeps =
      search (updates, sync_below_voters-Keeps, sync_above_voters-Keeps, use_margin-Keeps) depth 12

  remove_all_nodes-Keeps : Keeps start remove_all_nodes
  unfolding remove_all_nodes
  remove_all_nodes-Keeps = search updates depth 12

  reduce_quorum-Keeps : (s : CaseInsensitiveSet) → Keeps start (reduce_quorum s)
  unfolding reduce_quorum
  reduce_quorum-Keeps s = search updates depth 12

  reduce_numsync-Keeps : (s : CaseInsensitiveSet) → Keeps start (reduce_numsync s)
  unfolding reduce_numsync
  reduce_numsync-Keeps s = search updates depth 12

  remove_gone_nodes-Keeps : Keeps start remove_gone_nodes
  unfolding remove_gone_nodes
  remove_gone_nodes-Keeps =
      search (updates, remove_all_nodes-Keeps, reduce_quorum-Keeps, reduce_numsync-Keeps) depth 12

  increase_numsync-Keeps : (s : CaseInsensitiveSet) (n : ℕ) → Keeps start (increase_numsync s n)
  unfolding increase_numsync
  increase_numsync-Keeps s n = search updates depth 12

  increase_quorum-Keeps : (s : CaseInsensitiveSet) (n : ℕ) → Keeps start (increase_quorum s n)
  unfolding increase_quorum
  increase_quorum-Keeps s n = search updates depth 12

  add_new_nodes-Keeps : Keeps start add_new_nodes
  unfolding add_new_nodes
  add_new_nodes-Keeps = search (updates, increase_numsync-Keeps, increase_quorum-Keeps) depth 12

  handle_replication_factor_change-Keeps : Keeps start handle_replication_factor_change
  unfolding handle_replication_factor_change
  handle_replication_factor_change-Keeps = search updates depth 12

  -- The recalculated number is no part of a view.
  confirm_numsync-Keeps : Keeps start confirm_numsync
  unfolding confirm_numsync put get pure ◌>>=◌ view
  confirm_numsync-Keeps = record {
    holds = λ r h.
        elim (Bool-cases
          (is_zero r.self.numsync_confirmed && not (is_empty (inter r.self.sync r.self.active)))) [
            | inl unknown ↦ rw unknown (record { safe = h.safe; reached = h.reached })
            | inr known ↦ rw known h
          ];
  }

  pub settle-Keeps : Keeps start settle
  unfolding settle
  settle-Keeps =
      search
        (
          updates, confirm_numsync-Keeps, handle_non_steady_cases-Keeps, remove_gone_nodes-Keeps,
          add_new_nodes-Keeps, handle_replication_factor_change-Keeps,
        )
        depth 14
