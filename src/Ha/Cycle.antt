-- ===== src/Ha/Cycle.antt =====
-- The decisions of a round of the HA loop (patroni/ha.py), as actions that leave a trace. What the
-- rest of the program, the database and the store answer depends on the trace so far, in any way.
pub mod Lock
pub mod Demote
pub mod Follow
pub mod Primary
pub mod Process
pub mod Outage
pub mod Keeps
pub mod Parts
pub mod Guards
pub mod Promotes
pub mod Debts
pub mod Held
pub mod NoSplit
pub mod Accepts
pub mod Failsafe
pub mod HasLock
pub mod Rounds
use metatroni.Prelude.{
  ℕ, Bool, true, false, not, ◌&&◌, List, ◌∷◌, Option, none, some, if◌then◌else◌,
}
use metatroni.Prelude.Int.{ℤ}
use metatroni.Names.{Name, name_eq}
use metatroni.Dcs.SyncState.{is_set}
use metatroni.Ha.Election.{Ha, Fetch, Failover}

pub data Role : Type 0 where
  primary promoted replica demoted standby_leader mgr_primary other_role : Role

pub data DemoteMode : Type 0 where
  offline graceful immediate immediate_nolock demote_cluster : DemoteMode

pub data StopMode : Type 0 where
  fast_stop immediate_stop : StopMode

-- A node to follow: one outside of a standby cluster, or one of the cluster.
pub data Target : Type 0 where
  remote : Target
  member : Name → Target

-- What runs in the other thread.
pub data Task : Type 0 where
  promote demote_gracefully demote_to_standby recover_crash rewind reinitialize : Task
  follow_node start_after_demotion : Option Target → Role → Task

pub data SyncTask : Type 0 where
  quorum_round multisync_round disable_sync : SyncTask

-- What is asked of the database, the watchdog, the rewind state machine and the store. Each may
-- raise.
pub data Query : Type 0 where
  is_primary is_running is_starting : Query
  watchdog_is_running watchdog_activates : Query
  pre_promote_failed syncs_before_promote : Query
  acquire_leader_lock update_leader delete_leader_key manual_failover : Query
  rewind_is_needed can_rewind_or_reinitialize_allowed : Query
  rewind_or_reinitialize_needed_and_possible can_rewind is_in_archive_recovery : Query
  crash_recovery_started should_remove_data_directory : Query
  has_newer_history handles_parameter_change change_required restart_required : Query
  follows : Option Target → Role → Query
  has_archive_command reaches_safepoint reports_shutdown : Query
  syncs : SyncTask → Query
  demotes_mysql : DemoteMode → Query
  set_config_value set_read_only mgr_pause_on_gtid_fork is_mgr_configured has_mgr_status : Query
  semi_sync_safety_check update_cluster_history sync_meta_data clears_sync_names : Query

-- What changes a state that the round does not read.
pub data Call : Type 0 where
  sets_role : Role → Call
  stops : StopMode → Call
  runs : Task → Call
  runs_mgr : Bool → Call
  posts_failsafe : Name → Bool → Call
  before_shutdown disables_watchdog keepalive touches_member resets_cluster : Call
  checks_diverged ensures_checkpoint sleeps archives_checkpoint calls_back : Call
  resets_failsafe starts_failsafe resets_response remembers_release forgets_timeline : Call
  fetches_status syncs_slots updates_failsafe_slots : Call

pub data Error : Type 0 where
  dcs_error other_error : Error

pub data Result (A : Type 0) : Type 0 where
  ok : A → Result A
  raised : Error → Result A

pub record Cluster : Type 0 where
  pub leader : Option Name
  pub leader_timeline : Option ℕ
  pub members : List Name
  pub failover : Option Failover

pub data Event : Type 0 where
  asked : Query → Result Bool → Event
  called : Call → Event
  loaded : Result Cluster → Event

pub data MgrAction : Type 0 where
  no_action yields_lock gtid_fork other_action : MgrAction

-- The configuration, which the round does not change, and what is answered after each trace.
pub record World : Type 0 where
  pub name : Name
  pub is_paused : Bool
  pub is_standby_cluster : Bool
  pub is_synchronous_mode : Bool
  pub is_quorum_commit_mode : Bool
  pub is_failsafe_mode : Bool
  pub is_mysql : Bool
  pub nofailover : Bool
  pub nostream : Bool
  pub replicatefrom : Option Name
  pub ttl : ℕ
  pub loop_wait : ℕ
  pub has_conn_url : Option Name → Bool
  pub time : List Event → ℕ
  pub answer : Query → List Event → Result Bool
  pub get_cluster : List Event → Result Cluster
  pub role : List Event → Role
  pub failsafe_leader : List Event → Option Name
  pub last_timeline : List Event → Option ℕ
  pub run_mgr_cycle : Bool → List Event → Result MgrAction
  pub failsafe : Option (List Name)
  pub accepts : Name → List Event → Bool
  pub scheduled_in : List Event → Option ℤ
  pub view : List Event → Ha
  pub fetch : List Event → Fetch
  pub checkpoint_location : List Event → ℕ

-- The attributes of `Ha` that the round changes, and the trace, the last event first.
pub record State : Type 0 where
  pub cluster : Cluster
  pub leader_expiry : ℕ
  pub promote_timestamp : ℕ
  pub trace : List Event

abbrev pub Action : Type 0 → Type 0
Action A = State → Result A × State

module _ {A : Type 0} where
  unfoldable pub pure : A → Action A
  pure a s = (ok a, s)

abbrev pub continue : {A B : Type 0} → Result A × State → (A → Action B) → Result B × State
continue (ok a, s) f = f a s
continue (raised e, s) f = (raised e, s)

infixl 5 ◌>>=◌ ◌>>◌
unfoldable pub ◌>>=◌ : {A B : Type 0} → Action A → (A → Action B) → Action B
◌>>=◌ m f s = continue (m s) f

abbrev pub ◌>>◌ : {A B : Type 0} → Action A → Action B → Action B
m >> k = m >>= λ _. k

abbrev pub log : Event → State → State
log e s = record s { trace = e ∷ s.trace }

unfoldable pub ask : World → Query → Action Bool
ask w q s = let a = w.answer q s.trace in (a, log (asked q a) s)

-- A call whose result is not used.
abbrev pub perform : World → Query → Action (Unit {0})
perform w q = ask w q >>= λ _. pure tt

unfoldable pub tell : Call → Action (Unit {0})
tell c s = (ok tt, log (called c) s)

-- What is read of the state and of the world.
unfoldable pub reads : {A : Type 0} → (State → A) → Action A
reads f s = (ok (f s), s)

abbrev pub when : Bool → Action (Unit {0}) → Action (Unit {0})
when b m = if b then m else pure tt

-- A value that is `None`, or not.
unfoldable pub on_option : {A B : Type 0} → Option A → Action B → (A → Action B) → Action B
on_option none m f = m
on_option (some a) m f = f a

-- `m and n`
abbrev pub and_also : Action Bool → Action Bool → Action Bool
and_also m n = m >>= λ b. if b then n else pure false

-- `m or n`
abbrev pub or_else : Action Bool → Action Bool → Action Bool
or_else m n = m >>= λ b. if b then pure true else n

-- `Cluster.is_unlocked`
unfoldable pub is_unlocked : Cluster → Bool
is_unlocked c = not (is_set c.leader)

-- `Ha.has_lock`
unfoldable pub has_lock : World → Cluster → Bool
has_lock w c = elim c.leader [ none ↦ false | some owner ↦ name_eq owner w.name ]
