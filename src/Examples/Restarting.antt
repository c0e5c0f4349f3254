-- ===== src/Examples/Restarting.antt =====
-- The theorems on snapshots of a replica and restarts from them, applied.
use persisthotstuff_rst.Base.{◌≡◌, refl, false, Option, none, some, List, [], ◌∷◌, arith}
use mathlib.Core.Option
use persisthotstuff_rst.BTree
use persisthotstuff_rst.Wal.{Wal, truncate_after_snapshot}
use persisthotstuff_rst.Wal.Entry.{LogEntry}
use persisthotstuff_rst.Snapshot.{Snapshot, SnapDir, save, capture}
use persisthotstuff_rst.Replica.{Replica}
use persisthotstuff_rst.Recovery
use persisthotstuff_rst.Recovery.{recover}
use persisthotstuff_rst.Persistence.{
  take_snapshot, snapshot_of, app_state_of, close_log, export_catchup_state, import_catchup_state,
}
use persisthotstuff_rst.Persistence.CatchUp.{CaughtUp, take_snapshot-CaughtUp}
use persisthotstuff_rst.Examples.{toy_env, toy_wal-WalLaws, toy_snap-ReadsBack, replica4, file4}

-- A replica that `toy_snap` can write: without blocks and application.
abbrev bare : Replica toy_env
bare = record replica4 {
  block_tree = [];
  app = none;
  current_view = 6;
  config_epoch = 2;
  snapshot_counter = 7;
  next_hash = 12;
}

abbrev older : SnapDir
older = (3, record { payload = 1 ∷ []; sidecar = none }) ∷ []

take_snapshot-CaughtUp_example :
    (snap : Option Snapshot) × (es : List LogEntry) × (export_catchup_state toy_env
        (take_snapshot toy_env bare older false 50).0
        (record {
          snapshots = (take_snapshot toy_env bare older false 50).1;
          wal_file =
              Option.map (λ (v : Wal). v.content) (take_snapshot toy_env bare older false 50).0.wal;
        })
      ≡ some (Recovery.ok (snap, es)))
    × CaughtUp toy_env bare replica4 (import_catchup_state toy_env replica4 snap es)
unfolding take_snapshot save snapshot_of app_state_of capture close_log truncate_after_snapshot
    BTree.values
take_snapshot-CaughtUp_example =
    take_snapshot-CaughtUp toy_env toy_wal-WalLaws toy_snap-ReadsBack bare replica4 file4 older 50
      refl refl (omega arith, tt) tt refl
