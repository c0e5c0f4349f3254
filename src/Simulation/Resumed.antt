-- ===== src/Simulation/Resumed.antt =====
-- What the files of a replica keep of it, when it rejoins the cluster.
use persisthotstuff_rst.Base.{
  ℕ, zero, suc, ◌+◌, ◌-◌, ◌^◌, ◌<◌, ◌≡◌, ◌≢◌, refl, ◌∙◌, inl, inr, false, Option, none, some, ltb,
  Bool-cases, Option-cases, arith,
}
use mathlib.Core.Path.{subst}
use persisthotstuff_rst.BTree.{insert_key}
use persisthotstuff_rst.Types.{Config}
use persisthotstuff_rst.Wal.{Wal, truncate_after_snapshot}
use persisthotstuff_rst.Wal.Entry.{timeout}
use persisthotstuff_rst.Snapshot.{Snapshot, SnapDir, SnapLib, ReadsBack, save}
use persisthotstuff_rst.Snapshot.Files.{OlderThan}
use persisthotstuff_rst.Replica.{Env, Replica, log}
use persisthotstuff_rst.Replica.Pacemaker.{advance_view_with_reason}
use persisthotstuff_rst.Persistence.{take_snapshot, snapshot_of, close_log}
use persisthotstuff_rst.Persistence.Restart.{take_snapshot-Taken}
use persisthotstuff_rst.Machine.{view_ends, step}
use persisthotstuff_rst.Simulation.{Simulation}
use persisthotstuff_rst.Simulation.Check.{first_not_crashed}
use persisthotstuff_rst.Simulation.Election.{max_view}
use persisthotstuff_rst.Simulation.Rejoin.{
  rejoining, sync_from, adopt_log, adopt_high_qc, raise_next_hash, reach_view,
}
use persisthotstuff_rst.Lifetime.{Node, live}
use persisthotstuff_rst.Lifetime.Kept.{log_id, step-Continues}
use persisthotstuff_rst.Lifetime.Restarts.{IsKept}
use persisthotstuff_rst.Lifetime.Steps.{Taken-Survives}

-- bincode can serialise every snapshot.
abbrev pub AlwaysPacks : SnapLib → Type 0
AlwaysPacks lib = (s : Snapshot) → lib.serialize s ≢ none

module _ (env : Env) where
  -- The same log file, the same next snapshot number, the same configuration.
  pub record SamePlace (r s : Replica env) : Type 0 where
    pub log_kept : log_id env s.wal ≡ log_id env r.wal
    pub counter : s.snapshot_counter ≡ r.snapshot_counter
    pub config : s.config ≡ r.config

  SamePlace-trans : (r s t : Replica env) → SamePlace r s → SamePlace s t → SamePlace r t
  SamePlace-trans r s t a b = record {
    log_kept = b.log_kept ∙ a.log_kept;
    counter = b.counter ∙ a.counter;
    config = b.config ∙ a.config;
  }

  sync_from-SamePlace : (donor r : Replica env) → SamePlace r (sync_from env donor r)
  unfolding sync_from adopt_log adopt_high_qc raise_next_hash
  sync_from-SamePlace donor r = record {
    log_kept = ground arith;
    counter = ground arith;
    config = ground arith;
  }

  view-SamePlace :
      (r : Replica env) (now : ℕ) → SamePlace r (advance_view_with_reason env r timeout now)
  unfolding step advance_view_with_reason log
  view-SamePlace r now =
      let c = step-Continues env r (view_ends timeout now) in
      record { log_kept = c.log_kept; counter = c.counter; config = refl }

  reach_view-SamePlace :
      (fuel target : ℕ) (r t : Replica env) (now : ℕ)
      → reach_view env fuel target r now ≡ some t
      → SamePlace r t
  unfolding reach_view
  reach_view-SamePlace zero target r t now h = cc
  reach_view-SamePlace (suc fuel) target r t now h = elim (Bool-cases (ltb r.current_view target)) [
    | inr f ↦
        let e : r ≡ t = ground arith in
        subst (SamePlace r) e (record { log_kept = refl; counter = refl; config = refl })
    | inl y ↦
        let v = advance_view_with_reason env r timeout now in
        SamePlace-trans r v t (view-SamePlace r now)
          (reach_view-SamePlace fuel target v t now (ground arith))
  ]

  abbrev pub synced_with : Option (ℕ × Replica env) → Replica env → Replica env
  synced_with donor r = elim donor as (λ _. Replica env) [
    | none ↦ r
    | some (i, d) ↦ sync_from env d r
  ]

  synced_with-SamePlace :
      (donor : Option (ℕ × Replica env)) (r : Replica env) → SamePlace r (synced_with donor r)
  synced_with-SamePlace none r = record { log_kept = refl; counter = refl; config = refl }
  synced_with-SamePlace (some (i, d)) r = sync_from-SamePlace d r

  -- The catch-up leaves the files alone, but for the changes of view.
  pub rejoining-SamePlace :
      (s : Simulation env) (id now : ℕ) (r t : Replica env)
      → rejoining env s id r now ≡ some t
      → SamePlace r t
  unfolding rejoining
  rejoining-SamePlace s id now r t h =
      let donor = first_not_crashed env (insert_key id s.crashed_replicas) 0 s.replicas in
      let synced = synced_with donor r in
      let target =
        elim (max_view env (insert_key id s.crashed_replicas) 0 s.replicas none) as (λ _. ℕ) [
          | none ↦ synced.current_view
          | some v ↦ v
        ] in
      SamePlace-trans r synced t (synced_with-SamePlace donor r)
        (reach_view-SamePlace (suc (target - synced.current_view)) target synced t now h)

  saved_lem :
      (packs : AlwaysPacks env.snap_lib) (r : Replica env) (w : Wal) (dir : SnapDir) (now : ℕ)
      → r.wal ≡ some w
      → (take_snapshot env r dir false now).2 ≡ none
  unfolding take_snapshot close_log truncate_after_snapshot save
  saved_lem packs r w dir now a =
      elim (Option-cases (env.snap_lib.serialize (snapshot_of env r now))) [
        | inl n ↦ absurd (packs (snapshot_of env r now) n)
        | inr (p, e) ↦ ground arith
      ]

  -- A snapshot of a replica with a log of its own, in a directory of older ones, keeps all of it, if
  -- the libraries keep what they document and can serialise every snapshot.
  pub take_snapshot-IsKept :
      (reads : ReadsBack env.snap_lib) (packs : AlwaysPacks env.snap_lib) (c : Config)
      (r : Replica env) (w : Wal) (dir : SnapDir) (now : ℕ)
      → r.wal ≡ some w
      → w.replica_id ≡ c.id
      → r.snapshot_counter + 1 < 2 ^ 64
      → OlderThan r.snapshot_counter dir
      → IsKept env c (record {
        replica = (take_snapshot env r dir false now).0;
        snapshots = (take_snapshot env r dir false now).1;
      })
  unfolding live
  take_snapshot-IsKept reads packs c r w dir now a own bound older =
      let n : Node env = record { replica = r; snapshots = dir } in
      let s =
        Taken-Survives env reads c n w now bound own older
          (take_snapshot-Taken env r w dir now a (saved_lem packs r w dir now a)) in
      let e : s.node ≡ record {
        replica = (take_snapshot env r dir false now).0;
        snapshots = (take_snapshot env r dir false now).1;
      } =
        cc (s.lives) in
      subst (IsKept env c) e s.kept

  pub take_snapshot_config :
      (r : Replica env) (dir : SnapDir) (now : ℕ)
      → (take_snapshot env r dir false now).0.config ≡ r.config
  unfolding take_snapshot
  take_snapshot_config r dir now = ground arith
