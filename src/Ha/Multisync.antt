-- ===== src/Ha/Multisync.antt =====
-- `Ha._process_multisync_replication` and `Ha._maybe_enable_synchronous_mode` (patroni/ha.py): the
-- /sync key and `synchronous_standby_names` of a primary whose standbys are synchronous by priority.
pub mod Order
use metatroni.Prelude.{
  ℕ, Bool, true, false, not, ◌&&◌, ◌||◌, List, [], ◌∷◌, Option, none, some, ◌==◌, if◌then◌else◌,
  length,
}
use metatroni.Prelude.Int.{pos}
use metatroni.Names.{Name, name_eq}
use metatroni.Collections.{CaseInsensitiveSet, from_list, inter, is_empty, set_eq}
use metatroni.Dcs.SyncState.{SyncState, SyncDict, voters, write_sync_state}
use metatroni.Postgresql.Sync.Handler.{CurrentState}

-- The key as the primary last saw or wrote it, and the names that `synchronous_standby_names` lists.
pub record World : Type 0 where
  pub sync : SyncState
  pub names : CaseInsensitiveSet

-- What `current_state` says at first, and which standbys it confirms two seconds after the setting
-- was changed.
pub record Seen : Type 0 where
  pub name : Name
  pub is_synchronous_mode_strict : Bool
  pub current : CurrentState
  pub confirmed_later : CaseInsensitiveSet

abbrev pub asterisk : CaseInsensitiveSet
asterisk = (b'*' ∷ []) ∷ []

-- `self.state_handler.name != sync.leader`
abbrev pub is_other : Name → Option Name → Bool
is_other name none = true
is_other name (some leader) = not (name_eq name leader)

-- The states after a write, unless the key was updated by someone else.
abbrev pub on_write : Option World → (World → List World) → List World
on_write none next = []
on_write (some w) next = w ∷ next w

-- `set_sync_state_value` writes the key if its version is still the given one, and gives the new
-- version. Each function gives the states that the primary goes through, up to its `return`.
module _ (set_sync_state_value : SyncDict → Option ℕ → Option ℕ) (o : Seen) where
  -- `write_sync_state` with the primary as the leader.
  unfoldable pub write : List Name → World → Option World
  write standbys w =
      elim (write_sync_state set_sync_state_value (some o.name) standbys (pos 0) w.sync.version) [
        | none ↦ none
        | some sync ↦ some (record { sync = sync; names = w.names })
      ]

  -- What is promoted to the key in the end, of `picked` and the common nodes.
  unfoldable pub promote : CaseInsensitiveSet → CaseInsensitiveSet → World → List World
  unfolding write
  promote picked common w =
      let allow_promote =
        if not (is_empty picked)
          && not (set_eq picked asterisk)
          && not (set_eq o.current.chosen.sync_confirmed picked)
        then o.confirmed_later
        else o.current.chosen.sync_confirmed in
      let written = on_write (write allow_promote w) (λ w'. []) in
      if not (is_empty allow_promote) && not (set_eq allow_promote common) then written else []

  -- `set_synchronous_standby_names`
  unfoldable pub assign : CaseInsensitiveSet → World → List World
  unfolding promote
  assign common w =
      let picked =
        if o.is_synchronous_mode_strict && is_empty o.current.chosen.active
        then asterisk
        else o.current.chosen.active in
      let w' : World = record { sync = w.sync; names = picked } in w' ∷ promote picked common w'

  -- The nodes that are in the key and stay there.
  unfoldable pub narrow : CaseInsensitiveSet → World → List World
  unfolding write assign
  narrow vs w =
      let common = inter vs o.current.chosen.sync_confirmed in
      let assigned = assign common w in
      let written = on_write (write common w) (assign common) in
      if set_eq o.current.chosen.active vs
        && set_eq vs o.current.sync
        && o.current.numsync == length o.current.chosen.active
      then []
      else if set_eq common vs
      then assigned
      else written

  -- A key that disagrees with the setting is written anew.
  unfoldable pub repair : CaseInsensitiveSet → World → List World
  unfolding write narrow
  repair vs w =
      let kept = narrow vs w in
      let written =
        on_write (write o.current.chosen.sync_confirmed w)
          (λ w'. narrow (from_list (voters w'.sync)) w') in
      if set_eq o.current.chosen.active vs && not (set_eq vs o.current.chosen.sync_confirmed)
      then written
      else kept

  -- A key of another leader is taken over.
  unfoldable pub take_over : World → List World
  unfolding write repair
  take_over w =
      let kept = repair (from_list (voters w.sync)) w in
      let written = on_write (write [] w) (repair []) in
      if is_other o.name w.sync.leader then written else kept

  -- `_process_multisync_replication`, with `_maybe_enable_synchronous_mode` in front.
  unfoldable pub process_multisync_replication : World → List World
  unfolding write take_over
  process_multisync_replication w =
      let written = on_write (write [] w) take_over in
      let kept = take_over w in if metatroni.Dcs.SyncState.is_empty w.sync then written else kept
