-- ===== src/Persistence/CatchUp.antt =====
-- A joining validator that imports the state which another replica exports after a snapshot.
use persisthotstuff_rst.Base.{
  ℕ, ◌≡◌, refl, sym, ap, ◌∙◌, false, Option, none, some, List, [], map, arith,
}
use mathlib.Core.Option
use persisthotstuff_rst.Types.{wrapping_suc}
use persisthotstuff_rst.Snapshot.{Snapshot, SerializableBlock, from_block, to_block, from_qc, to_qc}
use persisthotstuff_rst.Snapshot.{
  SnapDir, SnapResult, ReadsBack, capture, save, load_latest, cleanup_old,
}
use persisthotstuff_rst.Snapshot
use persisthotstuff_rst.Snapshot.Files.{OlderThan, load_latest-save, cleanup_old-load_latest}
use persisthotstuff_rst.Wal.{Wal, WalLaws}
use persisthotstuff_rst.Wal.Entry.{LogEntry}
use persisthotstuff_rst.Wal.RoundTrip.{IsLog}
use persisthotstuff_rst.Replica.{Env, Replica}
use persisthotstuff_rst.Recovery
use persisthotstuff_rst.Recovery.{
  collect_set, collect_tree, with_genesis, start_of, start_from_snapshot, recover, recover_from_log,
  replay, build, open_and_read,
}
use persisthotstuff_rst.Recovery.Durability.{unsigned}
use persisthotstuff_rst.Recovery.Crash.{open_and_read-IsLog}
use persisthotstuff_rst.Persistence.{
  take_snapshot, snapshot_of, exported_entries, export_with, export_catchup_state,
  import_catchup_state, import_snapshot, import_entries,
}
use persisthotstuff_rst.Persistence.Restored.{
  restored, restored_entry, TreeIsKeyed, IsBelow-nil, collect_tree_keyed, restored_log, restored_qc,
}
use persisthotstuff_rst.Persistence.Restart.{Taken, take_snapshot-Taken}

module _ (env : Env) where
  -- What a joining validator has after it imported another replica's state.
  pub record CaughtUp (from joiner after : Replica env) : Type 0 where
    pub view : after.current_view ≡ from.current_view
    pub tree : after.block_tree ≡ map restored_entry from.block_tree
    pub committed : after.committed_log ≡ map restored from.committed_log
    pub up_to : after.committed_up_to ≡ from.committed_up_to
    pub certificate : after.high_qc ≡ Option.map unsigned from.high_qc
    pub next_hash : after.next_hash ≡ from.next_hash
    pub own_validators : after.active_validators ≡ joiner.active_validators
    pub own_epoch : after.config_epoch ≡ joiner.config_epoch

  exported_nothing :
      (laws : WalLaws env.wal_lib) (r : Replica env) (file : Wal)
      → IsLog env.wal_lib file []
      → file.replica_id ≡ r.config.id
      → exported_entries env r (some file.content) ≡ some (Recovery.ok [])
  unfolding exported_entries
  exported_nothing laws r file l i =
      let opened : open_and_read env r.config.id file.content ≡ some (Recovery.ok (file, [])) =
        ap (λ k. open_and_read env k file.content) (sym i)
        ∙ open_and_read-IsLog env laws file [] l in
      rw (opened, exported_entries) refl

  -- The state that a replica exports right after a snapshot that succeeded, and a joining
  -- validator imports, if the libraries keep what they document, the handle has the replica's id,
  -- all other snapshots have smaller numbers and the blocks are in the order of their hashes: the
  -- export succeeds, and the joiner gets the view, the tree, the committed blocks, the high QC
  -- and the next hash, but keeps its own set of validators and its own epoch.
  pub take_snapshot-CaughtUp :
      (laws : WalLaws env.wal_lib) (reads : ReadsBack env.snap_lib) (r joiner : Replica env)
      (w : Wal) (dir : SnapDir) (now : ℕ)
      → r.wal ≡ some w
      → w.replica_id ≡ r.config.id
      → OlderThan r.snapshot_counter dir
      → TreeIsKeyed r.block_tree
      → (take_snapshot env r dir false now).2 ≡ none
      → (snap : Option Snapshot) × (es : List LogEntry) × (export_catchup_state env
            (take_snapshot env r dir false now).0
            (record {
              snapshots = (take_snapshot env r dir false now).1;
              wal_file =
                  Option.map (λ (v : Wal). v.content) (take_snapshot env r dir false now).0.wal;
            })
          ≡ some (Recovery.ok (snap, es)))
        × CaughtUp r joiner (import_catchup_state env joiner snap es)
  unfolding export_catchup_state export_with import_catchup_state import_snapshot import_entries
      snapshot_of capture
  take_snapshot-CaughtUp laws reads r joiner w dir now a i older keyed h = (
    some snap,
    [],
    ap
          (λ x.
            export_catchup_state env x.0
              (record { snapshots = x.1; wal_file = Option.map (λ (v : Wal). v.content) x.0.wal }))
          taken.result
        ∙ exported,
    record {
      view = refl;
      tree = collect_tree_keyed r.block_tree [] keyed (IsBelow-nil r.block_tree);
      committed = restored_log r.committed_log;
      up_to = refl;
      certificate = restored_qc r.high_qc;
      next_hash = refl;
      own_validators = refl;
      own_epoch = refl;
    },
  )
    where
      taken : Taken env r w dir now
      taken = take_snapshot-Taken env r w dir now a h

      snap : Snapshot
      snap = snapshot_of env r now

      after : Replica env
      after = record r { wal = some taken.file; snapshot_counter = wrapping_suc r.snapshot_counter }

      loaded : load_latest env.snap_lib (cleanup_old taken.saved 3) ≡ Snapshot.ok snap
      loaded =
          (cleanup_old-load_latest env.snap_lib taken.saved 3 (omega arith)).1
          ∙ load_latest-save env.snap_lib snap dir taken.saved reads older taken.is_saved

      exported :
          export_catchup_state env after
            (record { snapshots = cleanup_old taken.saved 3; wal_file = some taken.file.content })
          ≡ some (Recovery.ok (some snap, []))
      exported =
          rw (loaded, export_catchup_state)
            (rw
              (
                exported_nothing laws after taken.file taken.is_empty (taken.same_id ∙ i),
                export_with,
              )
              refl)
