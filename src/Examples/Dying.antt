-- ===== src/Examples/Dying.antt =====
-- The theorem on a death inside a snapshot, applied.
use persisthotstuff_rst.Base.{
  ◌≡◌, refl, true, false, none, some, [], length, ◌≢◌, inl, inr, Option-cases, arith,
}
use persisthotstuff_rst.Recovery.{DataDir}
use persisthotstuff_rst.BTree.{insert}
use persisthotstuff_rst.Snapshot
use persisthotstuff_rst.Snapshot.{SnapDir, SnapLib, hex_digest, save, load_latest}
use persisthotstuff_rst.Recovery
use persisthotstuff_rst.Recovery.{recover, start_of, start_fresh, out_of_order_commit}
use persisthotstuff_rst.Persistence.{snapshot_of}
use persisthotstuff_rst.Lifetime.{Node, boot}
use persisthotstuff_rst.Lifetime.Restarts.{IsKept}
use persisthotstuff_rst.Lifetime.Interrupted.{left_in_snapshot, interrupted_snapshot}
use persisthotstuff_rst.Lifetime.Survival.{empty_disk}
use persisthotstuff_rst.Examples.{keys4}
use persisthotstuff_rst.Examples.Lifetimes.{member}
use persisthotstuff_rst.Examples.Total.{total_wal-WalLaws, total_wal-AlwaysSerializes}
use persisthotstuff_rst.Examples.TotalSnap.{total_env, total_snap-ReadsBack, total_snap-AlwaysPacks}
use persisthotstuff_rst.Examples.Founding.{
  work, veteran, veteran_has_committed, run-IsDependable, member-IsUp,
}

-- Replica 0 with its data directory, after its work.
abbrev worker : Node total_env
worker = record { replica = veteran; snapshots = [] }

saves :
    (lib : SnapLib) (s : Snapshot.Snapshot) (dir : SnapDir)
    → lib.serialize s ≢ none
    → (saved : SnapDir) × (save lib s dir ≡ Snapshot.ok saved)
unfolding save
saves lib s dir n = elim (Option-cases (lib.serialize s)) [
  | inl e ↦ absurd (n e)
  | inr (p, e) ↦ (
    insert s.snapshot_id (record { payload = p; sidecar = some (hex_digest lib p) }) dir,
    rw (e, save) refl,
  )
]

worker-IsKept : IsKept total_env veteran.config worker
worker-IsKept =
    (run-IsDependable work (member 0) (empty_disk total_env) false (λ b. member-IsUp 0)
      (omega arith)).kept

starts_empty : length worker-IsKept.start.base.committed_log ≡ 0
unfolding start_of start_fresh load_latest
starts_empty = ground (arith, worker-IsKept.from)

saved_worker :
    (saved : SnapDir) × (save total_env.snap_lib (snapshot_of total_env veteran 50) []
      ≡ Snapshot.ok saved)
saved_worker =
    saves total_env.snap_lib (snapshot_of total_env veteran 50) []
      (total_snap-AlwaysPacks (snapshot_of total_env veteran 50))

interrupted_snapshot_example :
    (recover total_env veteran.config keys4
        (left_in_snapshot total_env worker saved_worker.0 true 50)
        60
      ≡ some (
          Recovery.err (
            out_of_order_commit
              (length veteran.committed_log)
              (length worker-IsKept.start.base.committed_log))))
    × (boot total_env veteran.config keys4 5
          (left_in_snapshot total_env worker saved_worker.0 true 50)
          60
        ≡ none)
interrupted_snapshot_example =
    interrupted_snapshot total_env total_wal-WalLaws total_snap-ReadsBack total_wal-AlwaysSerializes
      veteran.config keys4 5 worker saved_worker.0 true 50 60 worker-IsKept saved_worker.1
      (omega (arith, starts_empty, veteran_has_committed))
