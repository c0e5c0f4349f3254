-- ===== src/Lifetime/Interrupted.antt =====
-- A process that dies inside a snapshot: after the snapshot is saved, before the log is emptied.
use persisthotstuff_rst.Base.{
  ℕ, suc, List, [], ◌∷◌, ◌≡◌, ◌≢◌, ◌<◌, refl, sym, ap, ◌∙◌, Bool, true, false, none, some, map,
  length, arith,
}
use persisthotstuff_rst.Types.{Block, Config}
use persisthotstuff_rst.Crypto.{KeyStore}
use persisthotstuff_rst.Wal.{Wal, WalLaws, append, write_all}
use persisthotstuff_rst.Wal.Entry.{LogEntry, snapshot_taken}
use persisthotstuff_rst.Snapshot.{SnapDir, ReadsBack, save, capture}
use persisthotstuff_rst.Snapshot
use persisthotstuff_rst.Snapshot.Files.{OlderThan, load_latest-save}
use persisthotstuff_rst.Replica.{Env, Replica, record_entry}
use persisthotstuff_rst.Recovery
use persisthotstuff_rst.Recovery.{
  Start, DataDir, recover, recover_from_log, start_of, start_from_snapshot, out_of_order_commit,
  replay_entry, open_and_read,
}
use persisthotstuff_rst.Recovery.Replay.{replay_elsewhere}
use persisthotstuff_rst.Recovery.Durability.{
  AlwaysSerializes, Logged, record_entry-Logged, length-map_stub,
}
use persisthotstuff_rst.Recovery.Crash.{open_and_read-IsLog}
use persisthotstuff_rst.Persistence.{snapshot_of}
use persisthotstuff_rst.Persistence.Restored.{restored, restored_log}
use persisthotstuff_rst.Persistence.Restart.{start_of_snapshot}
use persisthotstuff_rst.Simulation.Start.{start_persistent}
use persisthotstuff_rst.Lifetime.{Node, boot}
use persisthotstuff_rst.Lifetime.Restarts.{IsKept}

same_size : (bs : List Block) → length (map restored bs) ≡ length bs
same_size [] = refl
same_size (b ∷ bs) = ap suc (same_size bs)

module _ (env : Env) where
  -- The log when `take_snapshot` has saved its file: as it was, or with the entry `SnapshotTaken`.
  unfoldable pub log_then : Replica env → Bool → ℕ → Replica env
  unfolding record_entry
  log_then r false now = r
  log_then r true now = record r {
    wal = record_entry env r.wal (snapshot_taken r.snapshot_counter r.committed_up_to now);
  }

  -- What the process leaves behind that dies then: the new snapshot file, and the old log.
  unfoldable pub left_in_snapshot : Node env → SnapDir → Bool → ℕ → DataDir
  unfolding log_then
  left_in_snapshot n saved marked now = elim (log_then n.replica marked now).wal [
    | none ↦ record { snapshots = saved; wal_file = none }
    | some w ↦ record { snapshots = saved; wal_file = some w.content }
  ]

  same_id :
      (w v : Wal) (e : LogEntry)
      → record_entry env (some w) e ≡ some v
      → v.replica_id ≡ w.replica_id
  unfolding record_entry append write_all
  same_id w v e h = ground arith

  log_then-Logged :
      (serializes : AlwaysSerializes env.wal_lib) (c : Config) (n : Node env) (k : IsKept env c n)
      (marked : Bool) (now : ℕ)
      → (l : Logged env k.start.base (log_then n.replica marked now).wal k.durable.base)
        × (l.file.replica_id ≡ c.id)
  unfolding log_then replay_entry
  log_then-Logged serializes c n k false now =
      (k.durable.logged, ground (arith, k.own_log, k.durable.logged.attached))
  log_then-Logged serializes c n k true now =
      let r = n.replica in
      let l = k.durable.logged in
      let e = snapshot_taken r.snapshot_counter r.committed_up_to now in
      let m =
        record_entry-Logged env k.start.base serializes r.wal k.durable.base k.durable.base e l
          refl in
      let own : l.file.replica_id ≡ c.id = ground (arith, k.own_log, l.attached) in
      (
        m,
        same_id l.file m.file e (ap (λ w. record_entry env w e) (sym l.attached) ∙ m.attached)
            ∙ own,
      )

  length-snapshot_of :
      (r : Replica env) (now : ℕ)
      → length (start_from_snapshot (snapshot_of env r now)).base.committed_log
        ≡ length r.committed_log
  unfolding start_from_snapshot snapshot_of capture
  length-snapshot_of r now = ap length (restored_log r.committed_log) ∙ same_size r.committed_log

  snapshot_older :
      (n : Node env) (now : ℕ)
      → OlderThan n.replica.snapshot_counter n.snapshots
      → OlderThan (snapshot_of env n.replica now).snapshot_id n.snapshots
  unfolding snapshot_of capture
  snapshot_older n now o = o

  -- A log that does not belong to the latest snapshot is refused.
  recover_elsewhere :
      (laws : WalLaws env.wal_lib) (c : Config) (ks : KeyStore env.crypto) (start other : Start)
      (wal : _) (s : Recovery.Base) (dir : SnapDir) (now : ℕ)
      → start_of env c dir ≡ Recovery.ok other
      → (l : Logged env start.base wal s) → l.file.replica_id ≡ c.id
      → length start.base.committed_log < length s.committed_log
      → length other.base.committed_log ≢ length start.base.committed_log
      → recover env c ks (record { snapshots = dir; wal_file = some l.file.content }) now
        ≡ some (
            Recovery.err (
              out_of_order_commit
                (length other.base.committed_log)
                (length start.base.committed_log)))
  unfolding recover
  recover_elsewhere laws c ks start other wal s dir now from l own more ne =
      let opened : open_and_read env c.id l.file.content ≡ some (Recovery.ok (l.file, l.entries)) =
        ap (λ k. open_and_read env k l.file.content) (sym own)
        ∙ open_and_read-IsLog env laws l.file l.entries l.holds in
      let refused = replay_elsewhere l.entries start.base other.base s l.replays more ne in
      rw (from, recover) (rw (opened, recover) (rw (refused, recover_from_log) refl))

  -- A replica that its files bring back has committed blocks since its last snapshot, and its
  -- process dies inside the next one: the new snapshot is saved, and the log is not yet emptied,
  -- with the entry `SnapshotTaken` or without. Then its recovery fails, at the first commit of the
  -- log, which is out of order for the new snapshot, and so does every restart. The libraries keep
  -- what they document and can serialise every entry.
  pub interrupted_snapshot :
      (laws : WalLaws env.wal_lib) (reads : ReadsBack env.snap_lib)
      (serializes : AlwaysSerializes env.wal_lib) (c : Config) (ks : KeyStore env.crypto)
      (a : env.app.State) (n : Node env) (saved : SnapDir) (marked : Bool) (now later : ℕ)
      → (k : IsKept env c n)
      → save env.snap_lib (snapshot_of env n.replica now) n.snapshots ≡ Snapshot.ok saved
      → length k.start.base.committed_log < length n.replica.committed_log
      → (recover env c ks (left_in_snapshot n saved marked now) later
          ≡ some (
              Recovery.err (
                out_of_order_commit
                  (length n.replica.committed_log)
                  (length k.start.base.committed_log))))
        × (boot env c ks a (left_in_snapshot n saved marked now) later ≡ none)
  unfolding boot start_persistent left_in_snapshot
  interrupted_snapshot laws reads serializes c ks a n saved marked now later k s more =
      let snap = snapshot_of env n.replica now in
      let from = start_of_snapshot env c saved snap (
        load_latest-save env.snap_lib snap n.snapshots saved reads (snapshot_older n now k.older)
          s) in
      let l = log_then-Logged serializes c n k marked now in
      let kept : length k.durable.base.committed_log ≡ length n.replica.committed_log = omega (
        arith,
        ap length k.durable.mirrors.committed,
        length-map_stub k.durable.base.committed_log,
        length-map_stub n.replica.committed_log,
      ) in
      let size = length-snapshot_of n.replica now in
      let files : left_in_snapshot n saved marked now
          ≡ record { snapshots = saved; wal_file = some (l.0.file).content } =
        rw ((l.0).attached, left_in_snapshot) refl in
      let refused =
        ap (λ d. recover env c ks d later) files
        ∙ recover_elsewhere laws c ks k.start (start_from_snapshot snap)
            (log_then n.replica marked now).wal k.durable.base saved later from l.0 l.1
            (omega (arith, kept, more)) (omega (arith, size, more))
        ∙ ap (λ i. some (Recovery.err (out_of_order_commit i (length k.start.base.committed_log))))
            size in
      (refused, rw (refused, boot) refl)
