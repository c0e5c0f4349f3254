-- ===== src/Recovery.antt =====
-- src/recovery.rs: rebuilding a replica from the latest snapshot and the log.
pub mod Replay
pub mod Durability
pub mod Crash
use persisthotstuff_rst.Base.{
  ℕ, zero, suc, ◌+◌, ◌-◌, ◌%◌, ◌^◌, Bool, true, false, Option, none, some, List, [], ◌∷◌, ◌++◌, map,
  length, ltb, leb, not, ◌==◌, if◌then◌else◌, max,
}
use mathlib.Core.Option
use persisthotstuff_rst.BTree.{BTreeMap, BTreeSet, insert_key}
use persisthotstuff_rst.BTree
use persisthotstuff_rst.Types.{
  Hash, ReplicaId, Bytes, Block, QuorumCert, Config, ConsensusCommand, no_op, wrapping_suc,
}
use persisthotstuff_rst.Crypto.{KeyStore}
use persisthotstuff_rst.Wal
use persisthotstuff_rst.Wal.{Wal, WalError, WalResult, create, open_wal, read_all}
use persisthotstuff_rst.Wal.Entry.{
  LogEntry, block_inserted, vote_received, qc_formed, high_qc_updated, block_committed,
  view_changed, snapshot_taken,
}
use persisthotstuff_rst.Snapshot
use persisthotstuff_rst.Snapshot.{
  Snapshot, SerializableBlock, SerializableQc, SnapshotError, SnapDir, qc_stub, to_block, to_qc,
  load_latest,
}
use persisthotstuff_rst.Replica.{Env, Replica, insert_ids}

pub data RecoveryError : Type 0 where
  wal : WalError → RecoveryError
  snapshot : SnapshotError → RecoveryError
  out_of_order_commit : (expected_index found_index : ℕ) → RecoveryError

pub data RecResult (A : Type 0) : Type 0 where
  ok : A → RecResult A
  err : RecoveryError → RecResult A

-- The variables that `replay_entry` mutates.
pub record Base : Type 0 where
  pub block_tree : BTreeMap Block
  pub committed_log : List Block
  pub committed_up_to : Option Hash
  pub high_qc : Option QuorumCert
  pub current_view : ℕ
  pub next_hash : Hash
  pub config_epoch : ℕ

-- A certificate as the log keeps it, without signatures.
abbrev pub unsigned_qc : Hash → ℕ → ℕ → QuorumCert
unsigned_qc block_hash view epoch = record {
  block_hash = block_hash;
  view = view;
  epoch = epoch;
  signatures = [];
}

-- `match high_qc` of the replay of `QCFormed`.
unfoldable pub dominated : Option QuorumCert → ℕ → Bool
dominated none view = true
dominated (some hq) view = ltb hq.view view

-- `*hash + 1` is the arithmetic of a release build, which wraps.
unfoldable pub replay_entry : Base → LogEntry → RecResult Base
unfolding dominated
replay_entry s (block_inserted hash parent view epoch proposer qc_block_hash qc_view command t) =
    ok (record s {
      block_tree =
          BTree.insert hash
            (record {
              hash = hash;
              parent = parent;
              view = view;
              epoch = epoch;
              proposer = proposer;
              qc = qc_stub qc_block_hash qc_view epoch;
              command = no_op;
            })
            s.block_tree;
      next_hash = if leb s.next_hash hash then wrapping_suc hash else s.next_hash;
    })
replay_entry s (vote_received block_hash view signer t) = ok s
replay_entry s (qc_formed block_hash view epoch count t) = ok (record s {
  high_qc =
      if dominated s.high_qc view then some (unsigned_qc block_hash view epoch) else s.high_qc;
  config_epoch = max s.config_epoch epoch;
})
replay_entry s (high_qc_updated block_hash view epoch t) = ok (record s {
  high_qc = some (unsigned_qc block_hash view epoch);
  config_epoch = max s.config_epoch epoch;
})
replay_entry s (block_committed hash parent view epoch proposer command commit_index t) =
    if not (commit_index == length s.committed_log)
    then err (out_of_order_commit (length s.committed_log) commit_index)
    else ok (record s {
      committed_log =
          s.committed_log
          ++ record {
            hash = hash;
            parent = parent;
            view = view;
            epoch = epoch;
            proposer = proposer;
            qc = none;
            command = no_op;
          }
            ∷ [];
      committed_up_to = some hash;
      config_epoch = max s.config_epoch epoch;
    })
replay_entry s (view_changed old_view new_view reason t) = ok (record s { current_view = new_view })
replay_entry s (snapshot_taken id last t) = ok s

-- The loop over the entries, which stops at the first error.
unfoldable pub replay : Base → List LogEntry → RecResult Base
unfolding replay_entry
replay s [] = ok s
replay s (e ∷ es) = elim (replay_entry s e) [ err x ↦ err x | ok s' ↦ replay s' es ]

-- The state with nothing recovered yet.
abbrev pub fresh : Base
fresh = record {
  block_tree = [];
  committed_log = [];
  committed_up_to = none;
  high_qc = none;
  current_view = 0;
  next_hash = 1;
  config_epoch = 0;
}

-- What step 1 of `recover` returns: the base state, the validators, the application state and the
-- next snapshot number.
pub record Start : Type 0 where
  pub base : Base
  pub active_validators : BTreeSet
  pub pending_app_state : Option Bytes
  pub snapshot_counter : ℕ

-- `into_iter().collect::<BTreeSet<_>>()` and `collect::<BTreeMap<_, _>>()`.
unfoldable pub collect_set : List ReplicaId → BTreeSet → BTreeSet
collect_set [] s = s
collect_set (id ∷ ids) s = collect_set ids (insert_key id s)

unfoldable pub collect_tree : List SerializableBlock → BTreeMap Block → BTreeMap Block
collect_tree [] tree = tree
collect_tree (b ∷ bs) tree = collect_tree bs (BTree.insert b.hash (to_block b) tree)

unfoldable pub start_from_snapshot : Snapshot → Start
unfolding collect_set collect_tree to_block to_qc
start_from_snapshot snap = record {
  base = record {
    block_tree = collect_tree snap.block_tree [];
    committed_log = map to_block snap.committed_log;
    committed_up_to = snap.committed_up_to;
    high_qc = Option.map to_qc snap.high_qc;
    current_view = snap.current_view;
    next_hash = snap.next_hash;
    config_epoch = snap.config_epoch;
  };
  active_validators = collect_set snap.active_validators [];
  pending_app_state = snap.app_state;
  snapshot_counter = wrapping_suc snap.snapshot_id;
}

unfoldable pub start_fresh : Config → Start
unfolding insert_ids
start_fresh c = record {
  base = fresh;
  active_validators = insert_ids c.n 0 [];
  pending_app_state = none;
  snapshot_counter = 0;
}

abbrev pub genesis_block : Block
genesis_block = record {
  hash = 0;
  parent = none;
  view = 0;
  epoch = 0;
  proposer = 0;
  qc = none;
  command = no_op;
}

unfoldable pub with_genesis : BTreeMap Block → BTreeMap Block
with_genesis [] = BTree.insert 0 genesis_block []
with_genesis (b ∷ tree) = b ∷ tree

-- The files of one replica in its data directory.
pub record DataDir : Type 0 where
  pub snapshots : SnapDir
  pub wal_file : Option Bytes

module _ (env : Env) where
  unfoldable pub build : Config → KeyStore env.crypto → Start → Base → ℕ → Replica env
  unfolding with_genesis
  build c ks start s now = record {
    config = c;
    current_view = s.current_view;
    block_tree = with_genesis s.block_tree;
    high_qc = s.high_qc;
    vote_pool = [];
    next_hash = s.next_hash;
    committed_log = s.committed_log;
    committed_up_to = s.committed_up_to;
    timeout_ms = c.timeout_ms;
    view_start_time = now;
    active_validators = start.active_validators;
    config_epoch = s.config_epoch;
    keystore = ks;
    wal = none;
    snapshot_counter = start.snapshot_counter;
    app = none;
    pending_app_state = start.pending_app_state;
    client_queue = [];
    dummy_proposal_enabled = false;
    last_proposed_time = 0;
    dummy_timeout_ms = 0;
  }

  unfoldable pub start_of : Config → SnapDir → RecResult Start
  unfolding start_from_snapshot start_fresh
  start_of c dir = elim (load_latest env.snap_lib dir) [
    | Snapshot.ok snap ↦ ok (start_from_snapshot snap)
    | Snapshot.err e ↦ elim e [
      | Snapshot.not_found ↦ ok (start_fresh c)
      | other ↦ err (snapshot other)
    ]
  ]

  -- `WAL::open` and `read_all`; the outer `none` is fuel that ran out.
  unfoldable pub open_and_read : ReplicaId → Bytes → Option (RecResult (Wal × List LogEntry))
  open_and_read id bs = elim (open_wal env.wal_lib id (some bs)) [
    | none ↦ none
    | some (Wal.err e) ↦ some (err (wal e))
    | some (Wal.ok w) ↦ elim (read_all env.wal_lib w) [
      | none ↦ none
      | some (Wal.err e) ↦ some (err (wal e))
      | some (Wal.ok es) ↦ some (ok (w, es))
    ]
  ]

  unfoldable pub recover_from_log :
      Config → KeyStore env.crypto → Start → Wal × List LogEntry → ℕ → RecResult (Replica env × Wal)
  unfolding build replay
  recover_from_log c ks start (w, es) now = elim (replay start.base es) [
    | err e ↦ err e
    | ok s ↦ ok (build c ks start s now, w)
  ]

  unfoldable pub create_log :
      Config → KeyStore env.crypto → Start → ℕ → RecResult (Replica env × Wal)
  unfolding build
  create_log c ks start now = elim (create none c.id now) [
    | Wal.err e ↦ err (wal e)
    | Wal.ok w ↦ ok (build c ks start start.base now, w)
  ]

  unfoldable pub recover :
      Config → KeyStore env.crypto → DataDir → ℕ → Option (RecResult (Replica env × Wal))
  unfolding start_of open_and_read recover_from_log create_log
  recover c ks dir now = elim (start_of c dir.snapshots) [
    | err e ↦ some (err e)
    | ok start ↦ elim dir.wal_file [
      | none ↦ some (create_log c ks start now)
      | some bs ↦ elim (open_and_read c.id bs) [
        | none ↦ none
        | some (err e) ↦ some (err e)
        | some (ok l) ↦ some (recover_from_log c ks start l now)
      ]
    ]
  ]
