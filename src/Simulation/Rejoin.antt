-- ===== src/Simulation/Rejoin.antt =====
-- src/simulation.rs: a crashed replica recovers from its files, catches up with a live replica and
-- rejoins.
use persisthotstuff_rst.Base.{
  ℕ, zero, suc, ◌-◌, true, false, Option, none, some, List, [], ◌∷◌, length, get_elem?, set, ltb,
  leb, not, ◌&&◌, if◌then◌else◌,
}
use persisthotstuff_rst.BTree
use persisthotstuff_rst.BTree.{BTreeMap, BTreeSet, insert_key, remove_key, contains}
use persisthotstuff_rst.Types.{Hash, Block, wrapping_suc}
use persisthotstuff_rst.Wal.Entry.{timeout}
use persisthotstuff_rst.Replica.{Env, Replica}
use persisthotstuff_rst.Replica.Votes.{should_update}
use persisthotstuff_rst.Replica.Pacemaker.{advance_view_with_reason}
use persisthotstuff_rst.Recovery.{DataDir}
use persisthotstuff_rst.Persistence.{take_snapshot}
use persisthotstuff_rst.Simulation.{
  Simulation, Outcome, done, panicked, unfinished, failed, persistence_disabled, invalid_replica,
  not_crashed, missing_dir, not_timed_out, is_crashed, mark_responded,
}
use persisthotstuff_rst.Simulation.Start.{start_persistent, left_by_start}
use persisthotstuff_rst.Simulation.Check.{first_not_crashed, logs_agree}
use persisthotstuff_rst.Simulation.Election.{max_view}
use persisthotstuff_rst.Simulation.Crash.{set_replica_unresponsive}
use persisthotstuff_rst.Simulation.Round.{run_one_round, run}

-- The blocks of the first tree that the second lacks are put into it.
unfoldable pub import_missing : BTreeMap Block → BTreeMap Block → BTreeMap Block
import_missing [] tree = tree
import_missing ((hash, b) ∷ donor) tree =
    import_missing donor (if BTree.contains_key hash tree then tree else BTree.insert hash b tree)

-- `keys().max()`
unfoldable pub max_key : BTreeMap Block → Option Hash
max_key [] = none
max_key ((hash, b) ∷ []) = some hash
max_key ((hash, b) ∷ e ∷ tree) = max_key (e ∷ tree)

module _ (env : Env) where
  unfoldable pub adopt_log : Replica env → Replica env → Replica env
  adopt_log donor r =
      if ltb (length r.committed_log) (length donor.committed_log)
        && logs_agree env r.committed_log donor.committed_log
      then record r { committed_log = donor.committed_log; committed_up_to = donor.committed_up_to }
      else r

  unfoldable pub adopt_high_qc : Replica env → Replica env → Replica env
  adopt_high_qc donor r = elim donor.high_qc [
    | none ↦ r
    | some qc ↦ if should_update r.high_qc qc then record r { high_qc = some qc } else r
  ]

  unfoldable pub raise_next_hash : Replica env → Replica env
  unfolding max_key
  raise_next_hash r = elim (max_key r.block_tree) [
    | none ↦ r
    | some h ↦ if leb r.next_hash h then record r { next_hash = wrapping_suc h } else r
  ]

  -- The four steps of the state sync from a live replica.
  unfoldable pub sync_from : Replica env → Replica env → Replica env
  unfolding import_missing adopt_log adopt_high_qc raise_next_hash
  sync_from donor r = raise_next_hash (
      adopt_high_qc donor
        (adopt_log donor (record r { block_tree = import_missing donor.block_tree r.block_tree })))

  -- `while recovered.current_view < target_view { … }`; `none` is fuel that ran out.
  unfoldable pub reach_view : ℕ → ℕ → Replica env → ℕ → Option (Replica env)
  reach_view zero target r now = none
  reach_view (suc fuel) target r now = elim (ltb r.current_view target) [
    | false ↦ some r
    | true ↦ reach_view fuel target (advance_view_with_reason env r timeout now) now
  ]

  -- The replica that takes the place of the crashed one, before its snapshot.
  unfoldable pub rejoining : Simulation env → ℕ → Replica env → ℕ → Option (Replica env)
  unfolding sync_from reach_view
  rejoining s id recovered now =
      let others = insert_key id s.crashed_replicas in
      let synced = elim (first_not_crashed env others 0 s.replicas) as (λ _. Replica env) [
        | none ↦ recovered
        | some (idx, donor) ↦ sync_from donor recovered
      ] in
      let target = elim (max_view env others 0 s.replicas none) as (λ _. ℕ) [
        | none ↦ synced.current_view
        | some v ↦ v
      ] in
      reach_view (suc (target - synced.current_view)) target synced now

  -- The end of `recover_replica`: the replica takes its place, and a snapshot is forced, of which
  -- a failure is ignored.
  unfoldable pub take_place : Simulation env → ℕ → Replica env → DataDir → ℕ → Simulation env
  unfolding mark_responded
  take_place s id r disk now =
      let s1 =
        mark_responded env
          (record s {
            crashed_replicas = remove_key id s.crashed_replicas;
            unresponsive_replicas = remove_key id s.unresponsive_replicas;
          })
          id in
      let taken = take_snapshot env r disk.snapshots false now in
      record s1 {
        replicas = set s.replicas id taken.0;
        disks = set s.disks id (record disk { snapshots = taken.1 });
      }

  unfoldable pub recover_replica : Simulation env → ℕ → ℕ → Simulation env × Outcome
  unfolding is_crashed start_persistent left_by_start rejoining take_place
  recover_replica s id now =
      if not s.persistence_enabled
      then (s, failed persistence_disabled)
      else if leb (length s.replicas) id
      then (s, failed (invalid_replica id))
      else if not (is_crashed env s id)
      then (s, failed (not_crashed id))
      else elim (get_elem? s.replicas id) [
        | none ↦ (s, panicked)
        | some r ↦ elim (get_elem? s.replica_keystores id) [
          | none ↦ (s, panicked)
          | some keystore ↦ elim (get_elem? s.disks id) [
            | none ↦ (s, failed (missing_dir id))
            | some disk ↦
                let started = start_persistent env r.config keystore disk now in
                elim started.1 [
                  | none ↦ (
                    record s {
                      disks = set s.disks id (left_by_start env r.config keystore disk now);
                    },
                    started.0,
                  )
                  | some recovered ↦ elim (rejoining s id recovered now) [
                    | none ↦ (s, unfinished)
                    | some rejoined ↦ (take_place s id rejoined disk now, done)
                  ]
                ]
          ]
        ]
      ]

  -- The rounds in which the victim does not respond; `clock` has the time of each.
  unfoldable pub run_until_crashed : Simulation env → ℕ → List ℕ → Simulation env
  unfolding is_crashed
  run_until_crashed s id [] = s
  run_until_crashed s id (now ∷ clock) =
      let r = run_one_round env s now in
      elim r.1 [
        | false ↦ r.0
        | true ↦ elim (is_crashed env r.0 id) [
          | true ↦ r.0
          | false ↦ run_until_crashed r.0 id clock
        ]
      ]

  -- The `?` after an operation: the next is done only if this one was.
  unfoldable pub and_then :
      Simulation env × Outcome
      → (Simulation env → Simulation env × Outcome)
      → Simulation env × Outcome
  and_then (s, done) f = f s
  and_then (s, panicked) f = (s, panicked)
  and_then (s, unfinished) f = (s, unfinished)
  and_then (s, failed e) f = (s, failed e)

  -- The clocks are of the rounds before the crash, in it, and after the recovery.
  unfoldable pub run_crash_recover_rejoin_scenario :
      Simulation env → ℕ → (before during after : List ℕ) → (now : ℕ) → Simulation env × Outcome
  unfolding is_crashed and_then run_until_crashed
  run_crash_recover_rejoin_scenario s id before during after now =
      and_then (if is_crashed env s id then recover_replica s id now else (s, done)) λ s1.
        and_then (set_replica_unresponsive env (run env s1 before) id true) λ s2.
          let s3 = run_until_crashed s2 id during in
          if not (is_crashed env s3 id)
          then (s3, failed (not_timed_out id))
          else and_then (recover_replica s3 id now) λ s4. (run env s4 after, done)
