-- ===== src/Lifetime.antt =====
-- One replica over its lifetimes: the handlers and snapshots of src/replica.rs, and the restarts by
-- src/recovery.rs as src/simulation.rs does them, in any order on one data directory.
pub mod Kept
pub mod Views
pub mod Quiet
pub mod Restarts
pub mod Steps
pub mod Survival
pub mod Interrupted
use persisthotstuff_rst.Base.{ℕ, false, Option, none, some, List, [], ◌∷◌}
use persisthotstuff_rst.Types.{Config}
use persisthotstuff_rst.Crypto.{KeyStore}
use persisthotstuff_rst.Snapshot.{SnapDir}
use persisthotstuff_rst.Replica.{Env, Replica}
use persisthotstuff_rst.Recovery.{DataDir}
use persisthotstuff_rst.Persistence.{take_snapshot, attach_app}
use persisthotstuff_rst.Machine.{Event, step}
use persisthotstuff_rst.Simulation.Start.{start_persistent}
use persisthotstuff_rst.Simulation.Crash.{closed_disk}

module _ (env : Env) where
  -- A running replica and the snapshots in its data directory. The log file is the one that its
  -- handle has written.
  pub record Node : Type 0 where
    pub replica : Replica env
    pub snapshots : SnapDir

  -- What happens to it. A restart is given the keys and the state of the new application. The
  -- process dies only between two other incidents, each of which runs to its end: a death inside
  -- `WAL::append` or inside `take_snapshot` is none of these.
  pub data Incident : Type 0 where
    handles : Event → Incident
    snapshot_due : (now : ℕ) → Incident
    dies : KeyStore env.crypto → env.app.State → (now : ℕ) → Incident

  unfoldable pub boot : Config → KeyStore env.crypto → env.app.State → DataDir → ℕ → Option Node
  unfolding start_persistent attach_app
  boot c ks a disk now = elim (start_persistent env c ks disk now).1 [
    | none ↦ none
    | some r ↦ some (record { replica = attach_app env r a; snapshots = disk.snapshots })
  ]

  -- The files that a process which dies leaves behind.
  unfoldable pub left_behind : Node → DataDir
  unfolding closed_disk
  left_behind n = closed_disk env n.replica (record { snapshots = n.snapshots; wal_file = none })

  -- `none` is a restart that fails.
  unfoldable pub live : Config → Node → Incident → Option Node
  unfolding step take_snapshot boot left_behind
  live c n (handles e) = some (record n { replica = step env n.replica e })
  live c n (snapshot_due now) =
      let taken = take_snapshot env n.replica n.snapshots false now in
      some (record { replica = taken.0; snapshots = taken.1 })
  live c n (dies ks a now) = boot c ks a (left_behind n) now

  unfoldable pub live_all : Config → Node → List Incident → Option Node
  unfolding live
  live_all c n [] = some n
  live_all c n (i ∷ is) = elim (live c n i) [ none ↦ none | some m ↦ live_all c m is ]
