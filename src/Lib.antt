-- ===== src/Lib.antt =====
-- A verification library for metatroni, a Patroni that manages PostgreSQL and MySQL clusters.
--
-- The program keeps one primary per cluster. Every node runs the HA loop (patroni/ha.py) against a
-- distributed store (patroni/dcs). With quorum commit, two places decide what may be lost: the
-- database setting `synchronous_standby_names` says who acknowledges a commit, and the `/sync` key
-- of the store says who may vote for a new primary. `QuorumStateResolver` (patroni/quorum.py) says
-- in which order to change the two, and the leader race of the HA loop counts the votes.
--
-- The parts, and the files that model them:
--   Names, Names.Text, Names.Scan, Names.Decimal: names of nodes as lists of character codes, lower
--     case, the methods of `str` that the sources use, runs of characters as a regular expression
--     takes them, and `str` and `int` on numbers that are not negative.
--   Collections: `CaseInsensitiveSet` of patroni/collections.py, a list in the order of
--     insertion with no name twice; Collections.Laws and Collections.Size are about membership and
--     size. Collections.Dict: `CaseInsensitiveDict`.
--   Quorum: patroni/quorum.py. Kinds and State hold the attributes, the transitions and a
--     monad for the generator, in which a raise keeps what was assigned and yielded before;
--     Updates has `check_invariants`, `quorum_update` and `sync_update`; Stages the four private
--     generators that they are called from; Resolver `_generate_transitions` and `__iter__`.
--     Overlap and Trace say what PostgreSQL and the other nodes see of the transitions, and
--     Quorum.Sound holds the proofs; Quorum.Live follows a run that returns.
--   Dcs.SyncState: `SyncState`, `AbstractDCS.sync_state` and `AbstractDCS.write_sync_state` of
--     patroni/dcs/__init__.py. The parser of JSON and the client of the store are parameters.
--   Dcs.Slots: `slot_name_from_member_name`, `Cluster.get_slot_name_on_primary` and
--     `Cluster.should_enforce_hot_standby_feedback` of the same file, and in Members
--     `Cluster._get_members_slots`. `str.lower` and whether a node has permanent logical slots are
--     parameters; Valid, Walk and Found hold the proofs.
--   Ha.Race: `_MemberStatus.failover_limitation`, `Ha.is_lagging` and
--     `Ha._is_healthiest_node` of patroni/ha.py. What the methods ask the database for is a field
--     of `Race`, and the answers of the other nodes are a parameter.
--   Ha.Election: `Ha.is_healthiest_node`, `Ha.manual_failover_process_no_leader`,
--     `Ha.is_failover_possible` and `Ha.get_failover_candidates` of patroni/ha.py, which decide who
--     enters the race and whom a leader steps down for. What the node, the cluster view and the
--     configuration say is a field of `Ha`, and the requests to other nodes are a parameter.
--     Racers, Standby and Candidates hold the proofs.
--   Ha.Replication: one round of `Ha._process_quorum_replication` of patroni/ha.py, which carries the
--     transitions of a resolver out. The time and the write to the store are parameters.
--   Ha.Multisync: `Ha._maybe_enable_synchronous_mode` and `Ha._process_multisync_replication` of
--     patroni/ha.py, as the list of the states of key and setting that the primary goes through; what
--     `current_state` says is a field of `Seen`. Order has the proofs.
--   Ha.Prepromote: `Ha.process_sync_replication_prepromote` of patroni/ha.py, with the call that it ends
--     in as its result; Overlaps has the proofs.
--   Ha.Cycle: a round of the loop in patroni/ha.py with a database that is up, as actions that leave
--     a trace of questions and calls. Lock has `load_cluster_from_dcs`, `acquire_lock`, `update_lock`
--     and `_delete_leader`, Demote `demote` and `_get_node_to_follow`, Follow `follow`, Primary
--     `enforce_primary_role`, Process `process_healthy_cluster`, `process_unhealthy_cluster` and
--     `process_manual_failover_from_leader`, Outage `_handle_dcs_error` and
--     `check_failsafe_topology`. What the database, the watchdog, the rewind state machine and the
--     store answer is a function of the trace, and may be a raise; the configuration does not change
--     in a round. Keeps has the rules for actions, Parts, Guards, Promotes, HasLock and Rounds
--     the proofs about promotions, Debts, Held and NoSplit those about demotions, Accepts and
--     Failsafe those about the loss of the store.
--   Postgresql.Sync: patroni/postgresql/sync.py. Lexer and Parser are `SYNC_REP_PARSER_RE` and
--     `parse_sync_standby_names`, Writer is `quote_standby_name` and the text that
--     `set_synchronous_standby_names` builds; Names, List and RoundTrip read what Writer wrote, and
--     Keywords what cannot be read. Replicas is `_ReplicaList`, Handler the rest of `SyncHandler`;
--     Cascade, Ready, Choice and Confirmed hold their proofs. What the database, the cluster view and
--     the configuration say are records that the functions take.
--   Watchdog: patroni/watchdog/base.py. Config is `WatchdogConfig`, Device the operations of an
--     implementation, which may raise, and `NullWatchdog`, Facade the methods of `Watchdog`. A device
--     that is let go of is remembered as it was left. Activation and Modes hold the proofs.
--   Async: patroni/async_executor.py. Executor is `CriticalTask` and `AsyncExecutor`, Threads the
--     interleaved steps of the threads that use them, where a task may complete the critical task
--     whether or not it was cancelled; Alone and Critical hold the proofs, and say what they ask of the
--     callers.
--   Values: `patch_config` of patroni/utils.py, on values whose dictionaries are lists of items.
--     What `str` gives of a dictionary is a parameter.
--   Prelude: shared names, integers and the lemmas on lists and Booleans.
--   Tests: runs at concrete inputs, among them those of tests/test_quorum.py.
--
-- Five functions run on fuel. The tokens of a text are cut with its length as the fuel, which is
-- enough since each match takes a character; the digits of a number are written with a fuel above the
-- number; the fuel of `should_cascade` is the depth that Python allows a recursion, and running out of
-- it is a `RecursionError`; the loop of `get_slot_name_on_primary` has one round more than there are
-- members, which is enough as it comes to no node twice; the fuel of
-- `should_enforce_hot_standby_feedback` is again the depth of its recursion. All other recursion is on data. Numbers are unbounded, as in Python, and
-- differences that may be negative are integers. Lower case and the letters and digits of a regular
-- expression are those of ASCII, and the names of nodes are compared by character codes. Logging and
-- the texts of exceptions are left out. Not modelled are the clients of the stores, the processes,
-- files and queries of the databases, the watchdog device of Linux, the REST API and the command line.
pub mod Prelude
pub mod Names
pub mod Collections
pub mod Quorum
pub mod Dcs
pub mod Postgresql
pub mod Watchdog
pub mod Async
pub mod Values
pub mod Ha
mod Tests
