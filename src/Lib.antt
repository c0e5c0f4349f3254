-- ===== src/Lib.antt =====
-- PersistHotStuff: a replica of a HotStuff-style consensus protocol with a write-ahead log,
-- snapshots and recovery.
--
-- The parts. A replica (src/replica.rs) keeps a tree of blocks, a pool of votes, the highest quorum
-- certificate, the committed blocks, and the set of active validators. It checks signatures with its
-- key store (src/crypto.rs), appends an entry to its log (src/wal.rs) at most changes of state,
-- writes its state to snapshot files (src/snapshot.rs), and is rebuilt from both (src/recovery.rs).
-- It hands committed commands to an application (src/app.rs), which may be behind gRPC
-- (src/grpc.rs). A simulation (src/simulation.rs) runs several replicas over a message queue
-- (src/network.rs), with crashes and recoveries.
--
-- The files.
--   Base        tests on numbers, lists, and the lemmas on them
--   BTree       BTreeMap and BTreeSet as ascending lists
--   Types       src/types.rs, src/config.rs
--   Crypto      src/crypto.rs: KeyStore::{sign, verify, verify_qc, add_public_key, ...}
--   Wal         src/wal.rs: WAL::{create, open, append, append_batch, read_all,
--               truncate_after_snapshot}; `open_wal` is WAL::open
--   Snapshot    src/snapshot.rs: Snapshot::{capture, save, load_latest, cleanup_old, exists}
--   App         src/app.rs: the trait App and NoOpApp; its children KeyValue (KeyValueApp) and Remote
--               (src/grpc.rs: the conversions, AppServiceImpl and GrpcAppClient)
--   Replica     src/replica.rs: the struct, quorum and leader; its children Votes (handle_vote,
--               try_form_qc, apply_high_qc_from_network), Proposals (propose_*,
--               validate_and_insert_proposal), Commit (find_committed_block, execute_and_commit,
--               apply_membership_command, commit_all) and Pacemaker (views, queue, dummy blocks)
--   Recovery    src/recovery.rs: recover, replay_entry
--   Persistence src/replica.rs: take_snapshot, attach_app, export_catchup_state,
--               import_catchup_state, and the restart from a snapshot
--   Network     src/network.rs: the simulated message queue
--   Machine     the handlers as events in any order, and what the application has executed then
--   Lifetime    one replica over all its lifetimes: events, snapshots and restarts in any order on one
--               data directory (start_persistent of src/simulation.rs with attach_app). The process dies
--               between them; Interrupted is a death inside take_snapshot
--   Simulation  src/simulation.rs: the state of a cluster; its children Start, Crash, Election (leader),
--               Check (verify_safety), Messages (what a replica does with a message), Round
--               (run_one_round, run_one_round_with_pacemaker, run) and Rejoin (recover_replica,
--               run_crash_recover_rejoin_scenario). Of the others, Actions is the operations in any
--               order, Deeds the operations and recoveries in any order, and the rest are theorems
--   Examples    a small instance, on which the theorems are applied
--
-- Conventions. A method that takes `&mut self` returns the new replica, paired with its result. The
-- clock is an argument `now` of a handler, read once per call. `let _ = wal.append(..)` is
-- `record_entry`: a failed append is ignored. Numbers are natural numbers, with the wrap-around and
-- the saturation of the source written out where it has them. ed25519_dalek, sha2, bincode, crc32fast
-- and the application are the parameters `Ed25519`, `SnapLib`, `WalLib` and `App`, gathered in `Env`.
-- bincode on the key-value store is `StoreLib`; the random numbers of the key generation are an
-- argument `draw`. What becomes of a gRPC call is an argument `Fate`.
-- In a cluster the data directory of a replica is its snapshots and the bytes of its log; a crash
-- leaves both. A panic of the source by an index out of range is the outcome `panicked`;
-- a message in a round for a replica that is not there is passed over.
--
-- Fuel. `read_loop` gets one round more than the file has bytes, and `commit_loop` one round more
-- than the tree has blocks. Reading takes 8 bytes of the file in each round but the last, and each
-- commit adds a block of the tree that was not committed, so neither runs out. `reach_view` gets one
-- round more than the views that are missing, each of which raises the view by one below 2^64.
--
-- The assumption that no payload of the log reaches 4 GiB, which its 4-byte length prefix makes, is in
-- `WalLaws`. A byte is a number without an upper bound, so the libraries of the examples can be total.
--
-- Not modelled: a death of the process inside a handler, between two of its appends (a torn append is
-- in Wal.Faults, a death inside a snapshot in Lifetime.Interrupted); what the data directories hold
-- when new_with_options fails; printing, the visualiser, the examples, connecting to and starting a
-- gRPC server, the names of files, and failures of the operating system other than the ones that the
-- source provokes.
mod Base
pub mod BTree
pub mod Types
pub mod Crypto
pub mod Wal
pub mod App
pub mod Snapshot
pub mod Replica
pub mod Recovery
pub mod Lifetime
pub mod Machine
pub mod Network
pub mod Persistence
pub mod Simulation
pub mod Examples
