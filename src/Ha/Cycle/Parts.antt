-- ===== src/Ha/Cycle/Parts.antt =====
-- The parts of a round that ask not whether the database is a primary, and promote nothing.
use metatroni.Prelude.{Bool, true, false, List, ◌∷◌, Option, ◌≡◌, refl}
use metatroni.Ha.Cycle.{
  Role, Target, DemoteMode, Task, Query, Call, Result, Cluster, Event, World, State, ok, raised,
  asked, called, loaded, ask, tell,
}
use metatroni.Ha.Cycle.Keeps.{Keeps, keeps_rules}
use metatroni.Ha.Cycle.Lock.{
  get_cluster, load_cluster_from_dcs, attempt, attempt_all, delete_leader,
  release_leader_key_voluntarily,
}
use metatroni.Ha.Cycle.Demote.{
  on_shutdown, finish_stop, stop, finish_demotion, try_choose, chosen, give_up_key, release_unless,
  restart_as, demote_postgresql, demote,
}
use metatroni.Ha.Cycle.Follow.{
  Message, handle_crash_recovery, rewind_from_leader, reinitialize_from_leader,
  handle_rewind_or_reinitialize, keep_following, change_config, configure, follow_as_replica,
  follow_paused, demote_for,
}

abbrev pub is_plain_query : Query → Bool
is_plain_query Query.is_primary = false
is_plain_query _ = true

abbrev pub is_plain_call : Call → Bool
is_plain_call (Call.runs Task.promote) = false
is_plain_call _ = true

-- A property of the trace that the other events keep.
pub record Allows (P : List Event → Type 0) : Type 0 where
  pub asking :
      (q : Query) (r : Result Bool) (tr : List Event)
      → is_plain_query q ≡ true
      → P tr
      → P (asked q r ∷ tr)
  pub calling : (c : Call) (tr : List Event) → is_plain_call c ≡ true → P tr → P (called c ∷ tr)
  pub loading : (r : Result Cluster) (tr : List Event) → P tr → P (loaded r ∷ tr)

module _ {P : List Event → Type 0} (allowed : Allows P) (w : World) where
  pub ask-Keeps : (q : Query) → is_plain_query q ≡ true → Keeps P (ask w q)
  unfolding ask
  ask-Keeps q plain = record { at = λ s h. allowed.asking q (w.answer q s.trace) s.trace plain h }

  pub attempt-Keeps : (q : Query) → is_plain_query q ≡ true → Keeps P (attempt w q)
  unfolding attempt
  attempt-Keeps q plain = record {
    at = λ s h. allowed.asking q (w.answer q s.trace) s.trace plain h;
  }

  pub attempt_all-Keeps : (q : Query) → is_plain_query q ≡ true → Keeps P (attempt_all w q)
  unfolding attempt_all
  attempt_all-Keeps q plain = record {
    at = λ s h. allowed.asking q (w.answer q s.trace) s.trace plain h;
  }

  pub get_cluster-Keeps : Keeps P (get_cluster w)
  unfolding get_cluster
  get_cluster-Keeps = record { at = λ s h. allowed.loading (w.get_cluster s.trace) s.trace h }

  pub tell-Keeps : (c : Call) → is_plain_call c ≡ true → Keeps P (tell c)
  unfolding tell
  tell-Keeps c plain = record { at = λ s h. allowed.calling c s.trace plain h }

  ruleset plain = (
    keeps_rules, ask-Keeps, attempt-Keeps, attempt_all-Keeps, get_cluster-Keeps, tell-Keeps, refl,
  )

  pub load_cluster_from_dcs-Keeps : Keeps P (load_cluster_from_dcs w)
  unfolding load_cluster_from_dcs
  load_cluster_from_dcs-Keeps = search plain depth 20

  pub delete_leader-Keeps : Keeps P (delete_leader w)
  unfolding delete_leader
  delete_leader-Keeps = search plain depth 20

  pub release_leader_key_voluntarily-Keeps : Keeps P (release_leader_key_voluntarily w)
  unfolding release_leader_key_voluntarily
  release_leader_key_voluntarily-Keeps = search (plain, delete_leader-Keeps) depth 20

  on_shutdown-Keeps : Keeps P (on_shutdown w)
  unfolding on_shutdown
  on_shutdown-Keeps = search (plain, release_leader_key_voluntarily-Keeps) depth 20

  pub finish_stop-Keeps : (guarded release : Bool) → Keeps P (finish_stop w guarded release)
  unfolding finish_stop
  finish_stop-Keeps guarded release = search (plain, on_shutdown-Keeps) depth 20

  stop-Keeps : (mode : DemoteMode) (release : Bool) → Keeps P (stop w mode release)
  unfolding stop
  stop-Keeps mode release = search (plain, finish_stop-Keeps) depth 20

  try_choose-Keeps : Keeps P (try_choose w)
  unfolding try_choose
  try_choose-Keeps = record {
    at = λ s h. let (r, s') = get_cluster w s in same_trace r s' ((get_cluster-Keeps).at s h);
  }
    where
      same_trace : (r : Result Cluster) (s' : State) → P s'.trace → P (chosen w (r, s')).1.trace
      same_trace (ok c) s' h = h
      same_trace (raised e) s' h = h

  give_up_key-Keeps : (keeps : Bool) → Keeps P (give_up_key w keeps)
  unfolding give_up_key
  give_up_key-Keeps keeps = search plain depth 20

  release_unless-Keeps : (released : Bool) → Keeps P (release_unless w released)
  unfolding release_unless
  release_unless-Keeps released = search (plain, release_leader_key_voluntarily-Keeps) depth 20

  restart_as-Keeps :
      (mode : DemoteMode) (role : Role) (target : Option Target)
      → Keeps P (restart_as w mode role target)
  unfolding restart_as
  restart_as-Keeps mode role target = search plain depth 20

  pub finish_demotion-Keeps :
      (mode : DemoteMode) (archives release released : Bool)
      → Keeps P (finish_demotion w mode archives release released)
  unfolding finish_demotion
  finish_demotion-Keeps mode archives release released =
      search (plain, give_up_key-Keeps, release_unless-Keeps, restart_as-Keeps, try_choose-Keeps)
        depth 30

  demote_postgresql-Keeps : (mode : DemoteMode) → Keeps P (demote_postgresql w mode)
  unfolding demote_postgresql
  demote_postgresql-Keeps mode = search (plain, stop-Keeps, finish_demotion-Keeps) depth 20

  pub demote-Keeps : (mode : DemoteMode) → Keeps P (demote w mode)
  unfolding demote
  demote-Keeps mode = search (plain, demote_postgresql-Keeps) depth 20

  handle_crash_recovery-Keeps : Keeps P (handle_crash_recovery w)
  unfolding handle_crash_recovery
  handle_crash_recovery-Keeps = search plain depth 20

  rewind_from_leader-Keeps : Keeps P (rewind_from_leader w)
  unfolding rewind_from_leader
  rewind_from_leader-Keeps = search (plain, handle_crash_recovery-Keeps) depth 20

  reinitialize_from_leader-Keeps : Keeps P (reinitialize_from_leader w)
  unfolding reinitialize_from_leader
  reinitialize_from_leader-Keeps = search plain depth 20

  pub handle_rewind_or_reinitialize-Keeps : Keeps P (handle_rewind_or_reinitialize w)
  unfolding handle_rewind_or_reinitialize
  handle_rewind_or_reinitialize-Keeps =
      search (plain, rewind_from_leader-Keeps, reinitialize_from_leader-Keeps) depth 20

  keep_following-Keeps : (leads : Bool) (reason : Message) → Keeps P (keep_following w leads reason)
  unfolding keep_following
  keep_following-Keeps leads reason = search (plain, handle_rewind_or_reinitialize-Keeps) depth 20

  change_config-Keeps :
      (target : Option Target) (role : Role) → Keeps P (change_config w target role)
  unfolding change_config
  change_config-Keeps target role = search plain depth 20

  pub configure-Keeps :
      (target : Option Target) (reason : Message) → Keeps P (configure w target reason)
  unfolding configure
  configure-Keeps target reason = search (plain, keep_following-Keeps, change_config-Keeps) depth 20

  pub follow_as_replica-Keeps :
      (target : Option Target) (reason : Message) → Keeps P (follow_as_replica w target reason)
  unfolding follow_as_replica
  follow_as_replica-Keeps target reason =
      search (plain, handle_rewind_or_reinitialize-Keeps, configure-Keeps) depth 20

  pub follow_paused-Keeps :
      (primary : Bool) (target : Option Target) (reason : Message)
      → Keeps P (follow_paused w primary target reason)
  unfolding follow_paused
  follow_paused-Keeps primary target reason = search (plain, follow_as_replica-Keeps) depth 20

  pub demote_for-Keeps : (reason : Message) → Keeps P (demote_for w reason)
  unfolding demote_for
  demote_for-Keeps reason = search (plain, demote-Keeps) depth 20
