-- ===== src/Persistence.antt =====
-- src/replica.rs: snapshots of a replica, the attached application, and the state that a replica
-- hands to a validator that joins. The errors of the source are texts; here they are what the text
-- is made from.
pub mod Forgotten
pub mod Restored
pub mod Restart
pub mod CatchUp
use persisthotstuff_rst.Base.{
  ℕ, ◌+◌, ◌%◌, Bool, true, false, Option, none, some, List, [], ◌∷◌, ◌++◌, map, length, not, ◌==◌,
  ◌&&◌, if◌then◌else◌,
}
use mathlib.Core.Option
use persisthotstuff_rst.BTree
use persisthotstuff_rst.Types.{Bytes, Block, QuorumCert, no_op, wrapping_suc}
use persisthotstuff_rst.Wal
use persisthotstuff_rst.Wal.{Wal, WalError, append, truncate_after_snapshot}
use persisthotstuff_rst.Wal.Entry.{
  LogEntry, block_inserted, vote_received, qc_formed, high_qc_updated, block_committed,
  view_changed, snapshot_taken,
}
use persisthotstuff_rst.App
use persisthotstuff_rst.Snapshot
use persisthotstuff_rst.Snapshot.{
  Snapshot, SnapshotError, SnapDir, capture, save, load_latest, cleanup_old, qc_stub, to_block,
  to_qc,
}
use persisthotstuff_rst.Replica.{Env, Replica}
use persisthotstuff_rst.Recovery
use persisthotstuff_rst.Recovery.{RecResult, DataDir, open_and_read, collect_tree, unsigned_qc}

pub data SnapshotFailure : Type 0 where
  not_saved : SnapshotError → SnapshotFailure
  not_truncated : WalError → SnapshotFailure

module _ (env : Env) where
  unfoldable pub attach_wal : Replica env → Wal → Replica env
  attach_wal r w = record r { wal = some w }

  -- An application that refuses the state is attached all the same.
  unfoldable pub attach_app : Replica env → env.app.State → Replica env
  attach_app r a = elim r.pending_app_state [
    | none ↦ record r { pending_app_state = none; app = some a }
    | some state ↦ record r { pending_app_state = none; app = some (env.app.restore a state).0 }
  ]

  unfoldable pub should_snapshot : Replica env → Bool
  should_snapshot r = not (length r.committed_log == 0) && length r.committed_log % 100 == 0

  -- `self.app.as_ref().and_then(|app| app.snapshot().ok())`
  unfoldable pub app_state_of : Replica env → Option Bytes
  app_state_of r = elim r.app [
    | none ↦ none
    | some a ↦ elim (env.app.snapshot a) [ App.ok bs ↦ some bs | App.err e ↦ none ]
  ]

  unfoldable pub snapshot_of : Replica env → ℕ → Snapshot
  unfolding app_state_of
  snapshot_of r now =
      capture r.snapshot_counter r.config.id r.current_view r.config_epoch r.active_validators
        r.block_tree r.committed_log r.committed_up_to r.high_qc r.next_hash (app_state_of r) now

  -- The entry `SnapshotTaken`, whose failure is ignored, and the truncation. `temporary` says that
  -- a truncation left its temporary file behind.
  unfoldable pub close_log : Option Wal → LogEntry → Bool → ℕ → Option Wal × Option WalError
  close_log none e temporary now = (none, none)
  close_log (some w) e temporary now =
      let w1 = elim (append env.wal_lib w e) as (λ _. Wal) [ Wal.ok v ↦ v | Wal.err x ↦ w ] in
      elim (truncate_after_snapshot temporary w1 now) [
        | Wal.ok w2 ↦ (some w2, none)
        | Wal.err x ↦ (some w1, some x)
      ]

  unfoldable pub take_snapshot :
      Replica env → SnapDir → Bool → ℕ → Replica env × SnapDir × Option SnapshotFailure
  unfolding snapshot_of close_log
  take_snapshot r dir temporary now = elim (save env.snap_lib (snapshot_of r now) dir) [
    | Snapshot.err e ↦ (r, dir, some (not_saved e))
    | Snapshot.ok dir' ↦
        let closed =
          close_log r.wal (snapshot_taken r.snapshot_counter r.committed_up_to now) temporary now in
        elim closed.1 [
          | some x ↦ (record r { wal = closed.0 }, dir', some (not_truncated x))
          | none ↦ (
            record r { wal = closed.0; snapshot_counter = wrapping_suc r.snapshot_counter },
            cleanup_old dir' 3,
            none,
          )
        ]
  ]

  -- `WAL::open` and `read_all` if there is a log.
  unfoldable pub exported_entries : Replica env → Option Bytes → Option (RecResult (List LogEntry))
  exported_entries r none = some (Recovery.ok [])
  exported_entries r (some bs) = elim (open_and_read env r.config.id bs) [
    | none ↦ none
    | some (Recovery.err e) ↦ some (Recovery.err e)
    | some (Recovery.ok l) ↦ some (Recovery.ok (l.1))
  ]

  unfoldable pub export_with :
      Replica env
      → Option Bytes
      → Option Snapshot
      → Option (RecResult (Option Snapshot × List LogEntry))
  unfolding exported_entries
  export_with r wal_file snap = elim (exported_entries r wal_file) [
    | none ↦ none
    | some (Recovery.err e) ↦ some (Recovery.err e)
    | some (Recovery.ok es) ↦ some (Recovery.ok (snap, es))
  ]

  unfoldable pub export_catchup_state :
      Replica env → DataDir → Option (RecResult (Option Snapshot × List LogEntry))
  unfolding export_with
  export_catchup_state r dir = elim (load_latest env.snap_lib dir.snapshots) [
    | Snapshot.ok s ↦ export_with r dir.wal_file (some s)
    | Snapshot.err e ↦ elim e [
      | Snapshot.not_found ↦ export_with r dir.wal_file none
      | other ↦ some (Recovery.err (Recovery.snapshot other))
    ]
  ]

  -- One round of the loop of `import_catchup_state`. All blocks and certificates get the epoch of
  -- the replica.
  unfoldable pub import_entry : Replica env → LogEntry → Replica env
  import_entry r (block_inserted hash parent view epoch proposer qc_block_hash qc_view command t) =
      record r {
        block_tree =
            BTree.insert hash
              (record {
                hash = hash;
                parent = parent;
                view = view;
                epoch = r.config_epoch;
                proposer = proposer;
                qc = qc_stub qc_block_hash qc_view r.config_epoch;
                command = no_op;
              })
              r.block_tree;
      }
  import_entry r (block_committed hash parent view epoch proposer command index t) = record r {
    committed_log =
        r.committed_log
        ++ record {
          hash = hash;
          parent = parent;
          view = view;
          epoch = r.config_epoch;
          proposer = proposer;
          qc = none;
          command = no_op;
        }
          ∷ [];
    committed_up_to = some hash;
  }
  import_entry r (high_qc_updated block_hash view epoch t) = record r {
    high_qc = some (unsigned_qc block_hash view r.config_epoch);
  }
  import_entry r (view_changed old_view new_view reason t) = record r { current_view = new_view }
  import_entry r (vote_received block_hash view signer t) = r
  import_entry r (qc_formed block_hash view epoch count t) = r
  import_entry r (snapshot_taken id last t) = r

  unfoldable pub import_entries : Replica env → List LogEntry → Replica env
  unfolding import_entry
  import_entries r [] = r
  import_entries r (e ∷ es) = import_entries (import_entry r e) es

  unfoldable pub import_snapshot : Replica env → Option Snapshot → Replica env
  import_snapshot r none = r
  import_snapshot r (some snap) = record r {
    current_view = snap.current_view;
    block_tree = collect_tree snap.block_tree [];
    committed_log = map to_block snap.committed_log;
    committed_up_to = snap.committed_up_to;
    high_qc = Option.map to_qc snap.high_qc;
    next_hash = snap.next_hash;
  }

  -- It always returns `Ok(())`.
  unfoldable pub import_catchup_state : Replica env → Option Snapshot → List LogEntry → Replica env
  unfolding import_snapshot import_entries
  import_catchup_state r snap entries = import_entries (import_snapshot r snap) entries
