-- ===== src/Persistence/Restart.antt =====
-- A snapshot, and the restart of the replica from it.
use persisthotstuff_rst.Base.{ℕ, ◌≡◌, refl, sym, ap, ◌∙◌, false, none, some, [], map, length, arith}
use mathlib.Core.Option
use mathlib.Core.Path.{subst}
use persisthotstuff_rst.BTree.SetLaws.{IsAscending}
use persisthotstuff_rst.Types.{Config, wrapping_suc}
use persisthotstuff_rst.Crypto.{KeyStore}
use persisthotstuff_rst.Snapshot.{Snapshot, SerializableBlock, from_block, to_block, from_qc, to_qc}
use persisthotstuff_rst.Snapshot.{
  SnapDir, SnapResult, ReadsBack, capture, save, load_latest, cleanup_old,
}
use persisthotstuff_rst.Snapshot
use persisthotstuff_rst.Snapshot.Files.{OlderThan, load_latest-save, cleanup_old-load_latest}
use persisthotstuff_rst.Wal.{Wal, WalLaws, append, write_all, header, truncate_after_snapshot}
use persisthotstuff_rst.Wal.Entry.{LogEntry, snapshot_taken}
use persisthotstuff_rst.Wal
use persisthotstuff_rst.Wal.RoundTrip.{IsLog, truncate-IsLog}
use persisthotstuff_rst.Replica.{Env, Replica}
use persisthotstuff_rst.Recovery
use persisthotstuff_rst.Recovery.{
  collect_set, collect_tree, with_genesis, start_of, start_from_snapshot, recover, recover_from_log,
  replay, build, open_and_read,
}
use persisthotstuff_rst.Recovery.Durability.{unsigned}
use persisthotstuff_rst.Recovery.Crash.{open_and_read-IsLog}
use persisthotstuff_rst.Persistence.{take_snapshot, snapshot_of, app_state_of, close_log}
use persisthotstuff_rst.Persistence.Restored.{
  collect_set_ascending, restored, restored_entry, TreeIsKeyed, IsBelow-nil, collect_tree_keyed,
  restored_log, restored_qc,
}

module _ (env : Env) where
  -- What a restart from a snapshot brings back of the replica that took it.
  pub record IsRestored (r s : Replica env) : Type 0 where
    pub view : s.current_view ≡ r.current_view
    pub epoch : s.config_epoch ≡ r.config_epoch
    pub validators : s.active_validators ≡ r.active_validators
    pub tree : s.block_tree ≡ with_genesis (map restored_entry r.block_tree)
    pub committed : s.committed_log ≡ map restored r.committed_log
    pub up_to : s.committed_up_to ≡ r.committed_up_to
    pub certificate : s.high_qc ≡ Option.map unsigned r.high_qc
    pub next_hash : s.next_hash ≡ r.next_hash
    pub counter : s.snapshot_counter ≡ r.snapshot_counter
    pub app_state : s.pending_app_state ≡ app_state_of env r

  pub start_of_snapshot :
      (c : Config) (dir : SnapDir) (snap : Snapshot)
      → load_latest env.snap_lib dir ≡ Snapshot.ok snap
      → start_of env c dir ≡ Recovery.ok (start_from_snapshot snap)
  unfolding start_of
  start_of_snapshot c dir snap l = rw (l, start_of) refl

  -- A snapshot that succeeds, with its file and the emptied log.
  pub record Taken (r : Replica env) (w : Wal) (dir : SnapDir) (now : ℕ) : Type 0 where
    pub saved : SnapDir
    pub file : Wal
    pub is_saved : save env.snap_lib (snapshot_of env r now) dir ≡ Snapshot.ok saved
    pub is_empty : IsLog env.wal_lib file []
    pub same_id : file.replica_id ≡ w.replica_id
    pub result : take_snapshot env r dir false now ≡ (
      record r { wal = some file; snapshot_counter = wrapping_suc r.snapshot_counter },
      cleanup_old saved 3,
      none,
    )

  marked_id :
      (w : Wal) (e : LogEntry)
      → (elim (append env.wal_lib w e) as (λ _. Wal) [ Wal.ok v ↦ v | Wal.err x ↦ w ]).replica_id
        ≡ w.replica_id
  unfolding append write_all
  marked_id w e = ground arith

  pub take_snapshot-Taken :
      (r : Replica env) (w : Wal) (dir : SnapDir) (now : ℕ)
      → r.wal ≡ some w
      → (take_snapshot env r dir false now).2 ≡ none
      → Taken r w dir now
  unfolding take_snapshot close_log truncate_after_snapshot
  take_snapshot-Taken r w dir now a h =
      by_result (save env.snap_lib (snapshot_of env r now) dir) refl
    where
      marked : Wal
      marked =
          elim (append env.wal_lib w (snapshot_taken r.snapshot_counter r.committed_up_to now))
            as (λ _. Wal) [ Wal.ok v ↦ v | Wal.err x ↦ w ]

      emptied : Wal
      emptied = record marked {
        content = header marked.replica_id now;
        cursor = length (header marked.replica_id now);
        entry_count = 0;
      }

      closed :
          close_log env r.wal (snapshot_taken r.snapshot_counter r.committed_up_to now) false now
          ≡ (some emptied, none)
      closed = rw (a, close_log) refl

      by_result :
          (x : SnapResult SnapDir)
          → save env.snap_lib (snapshot_of env r now) dir ≡ x
          → Taken r w dir now
      by_result (Snapshot.err e) s = ground arith
      by_result (Snapshot.ok d) s = record {
        saved = d;
        file = emptied;
        is_saved = s;
        is_empty = truncate-IsLog env.wal_lib marked emptied now refl;
        same_id = marked_id w (snapshot_taken r.snapshot_counter r.committed_up_to now);
        result = rw (s, take_snapshot) (rw (ap (λ x. x.1) closed) (rw (ap (λ x. x.0) closed) refl));
      }

  -- A snapshot that succeeds, in a directory where all others have smaller numbers, and a restart
  -- from the files that it leaves, if the libraries keep what they document, the handle has the
  -- id of the configuration, and the validators and the blocks are in the order of their ids and
  -- hashes: the recovery succeeds with the emptied log, and brings back the view, the epoch, the
  -- validators, the tree (with the genesis block if it was empty), the committed blocks, the last
  -- committed hash, the high QC, the next hash, the next snapshot number and the application's
  -- state. Only the signatures of certificates are lost, and the certificates in blocks get the
  -- epochs of their blocks.
  pub take_snapshot-recover :
      (laws : WalLaws env.wal_lib) (reads : ReadsBack env.snap_lib) (c : Config)
      (ks : KeyStore env.crypto) (r : Replica env) (w : Wal) (dir : SnapDir) (now later : ℕ)
      → r.wal ≡ some w
      → w.replica_id ≡ c.id
      → OlderThan r.snapshot_counter dir
      → IsAscending r.active_validators
      → TreeIsKeyed r.block_tree
      → (take_snapshot env r dir false now).2 ≡ none
      → (s : Replica env) × (v : Wal) × ((take_snapshot env r dir false now).0.wal ≡ some v)
        × (recover env c ks
              (record {
                snapshots = (take_snapshot env r dir false now).1;
                wal_file = some v.content;
              })
              later
            ≡ some (Recovery.ok (s, v)))
        × IsRestored (take_snapshot env r dir false now).0 s
  unfolding recover recover_from_log replay build start_from_snapshot snapshot_of capture
  take_snapshot-recover laws reads c ks r w dir now later a i older asc keyed h = (
    after,
    taken.file,
    ap (λ x. x.0.wal) taken.result,
    ap (λ d. recover env c ks (record { snapshots = d; wal_file = some taken.file.content }) later)
          (ap (λ x. x.1) taken.result)
        ∙ recovered,
    subst (λ x. IsRestored x after) (sym (ap (λ x. x.0) taken.result)) is_restored,
  )
    where
      taken : Taken r w dir now
      taken = take_snapshot-Taken r w dir now a h

      snap : Snapshot
      snap = snapshot_of env r now

      after : Replica env
      after = build env c ks (start_from_snapshot snap) (start_from_snapshot snap).base later

      loaded : load_latest env.snap_lib (cleanup_old taken.saved 3) ≡ Snapshot.ok snap
      loaded =
          (cleanup_old-load_latest env.snap_lib taken.saved 3 (omega arith)).1
          ∙ load_latest-save env.snap_lib snap dir taken.saved reads older taken.is_saved

      opened : open_and_read env c.id taken.file.content ≡ some (Recovery.ok (taken.file, []))
      opened =
          ap (λ k. open_and_read env k taken.file.content) (sym (taken.same_id ∙ i))
          ∙ open_and_read-IsLog env laws taken.file [] taken.is_empty

      recovered :
          recover env c ks
            (record { snapshots = cleanup_old taken.saved 3; wal_file = some taken.file.content })
            later
          ≡ some (Recovery.ok (after, taken.file))
      recovered =
          rw (start_of_snapshot c (cleanup_old taken.saved 3) snap loaded, recover) (rw opened refl)

      is_restored :
          IsRestored
            (record r { wal = some taken.file; snapshot_counter = wrapping_suc r.snapshot_counter })
            after
      is_restored = record {
        view = refl;
        epoch = refl;
        validators = collect_set_ascending r.active_validators [] asc;
        tree =
            ap with_genesis (collect_tree_keyed r.block_tree [] keyed (IsBelow-nil r.block_tree));
        committed = restored_log r.committed_log;
        up_to = refl;
        certificate = restored_qc r.high_qc;
        next_hash = refl;
        counter = refl;
        app_state = refl;
      }
