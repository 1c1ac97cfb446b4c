-- ===== src/Ha/Replication.antt =====
-- `Ha._process_quorum_replication` (patroni/ha.py): one round of its loop, which carries the
-- transitions of a resolver out.
pub mod Refines
use metatroni.Prelude.{ℕ, Bool, List, [], ◌∷◌, Option, none, some, ltb, if◌then◌else◌}
use metatroni.Prelude.Int.{pos}
use metatroni.Names.{Name}
use metatroni.Collections.{CaseInsensitiveSet}
use metatroni.Dcs.SyncState.{SyncState, SyncDict, write_sync_state}
use metatroni.Quorum.Kinds.{TransitionType}
use metatroni.Quorum.State.{Transition}

-- The local variables `leader` and `sync`, the latter as in the store, and the setting
-- `synchronous_standby_names` of the database.
pub record World : Type 0 where
  pub leader : Name
  pub sync : SyncState
  pub numsync : ℕ
  pub names : CaseInsensitiveSet

-- How a round ends. After `updated_elsewhere` the store holds the key of someone else.
pub data Ended : Type 0 where
  finished timed_out updated_elsewhere : Ended

-- `set_sync_state_value` writes the key if its version is still the given one, and gives the new
-- version; `check_timeout` tells whether the loop is out of time with these transitions left.
module _ (set_sync_state_value : SyncDict → Option ℕ → Option ℕ) (min_sync : ℕ)
    (check_timeout : List Transition → Bool) where
  -- The body of the `for`, by the type of the transition; `none` is the `return`.
  unfoldable pub carry_out_as : TransitionType → Transition → World → Option World
  carry_out_as TransitionType.quorum t w =
      elim (write_sync_state set_sync_state_value (some t.leader) t.names (pos t.num)
        w.sync.version) [
          | none ↦ none
          | some sync ↦ some (record w { leader = t.leader; sync = sync })
        ]
  carry_out_as TransitionType.sync t w = some (record w {
    leader = t.leader;
    numsync = if ltb t.num min_sync then min_sync else t.num;
    names = t.names;
  })
  carry_out_as TransitionType.restart t w = some (record w { leader = t.leader })

  -- The `for` over the transitions.
  unfoldable pub carry_out : List Transition → World → Ended × World
  carry_out [] w = (finished, w)
  carry_out (t ∷ ts) w =
      if check_timeout (t ∷ ts) then (timed_out, w) else elim (carry_out_as t.transition_type t w) [
        | none ↦ (updated_elsewhere, w)
        | some w' ↦ carry_out ts w'
      ]
