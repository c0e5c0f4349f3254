-- ===== src/Simulation/Crash.antt =====
-- src/simulation.rs: a replica that crashes, on demand or after it did not respond for too long.
use persisthotstuff_rst.Base.{
  ℕ, ◌+◌, ◌-◌, Bool, false, none, some, List, [], ◌∷◌, length, get_elem?, set, leb, not, ◌||◌,
  if◌then◌else◌,
}
use persisthotstuff_rst.BTree.{insert_key, remove_key}
use persisthotstuff_rst.Replica.{Env, Replica}
use persisthotstuff_rst.Recovery.{DataDir}
use persisthotstuff_rst.Simulation.{
  Outcome, Simulation, done, panicked, failed, persistence_disabled, invalid_replica,
  already_crashed, is_crashed, is_unresponsive, mark_responded,
}
use persisthotstuff_rst.Simulation.Start.{fresh_replica}

module _ (env : Env) where
  -- What is in the data directory of a replica that stops: the content of its log's handle.
  unfoldable pub closed_disk : Replica env → DataDir → DataDir
  closed_disk r d = elim r.wal [ none ↦ d | some w ↦ record d { wal_file = some w.content } ]

  unfoldable pub close_disk : List DataDir → ℕ → Replica env → List DataDir
  unfolding closed_disk
  close_disk disks id r = elim (get_elem? disks id) [
    | none ↦ disks
    | some d ↦ set disks id (closed_disk r d)
  ]

  unfoldable pub crash_replica : Simulation env → ℕ → ℕ → Simulation env × Outcome
  unfolding is_crashed fresh_replica close_disk
  crash_replica s id now =
      if not s.persistence_enabled
      then (s, failed persistence_disabled)
      else if leb (length s.replicas) id
      then (s, failed (invalid_replica id))
      else if is_crashed env s id
      then (s, failed (already_crashed id))
      else elim (get_elem? s.replicas id) [
        | none ↦ (s, panicked)
        | some r ↦ elim (get_elem? s.replica_keystores id) [
          | none ↦ (s, panicked)
          | some keystore ↦ (
            record s {
              replicas = set s.replicas id (fresh_replica env r.config keystore now);
              disks = close_disk s.disks id r;
              crashed_replicas = insert_key id s.crashed_replicas;
              unresponsive_replicas = remove_key id s.unresponsive_replicas;
            },
            done,
          )
        ]
      ]

  -- The test in the first loop of `process_timeout_crashes`.
  unfoldable pub has_timed_out : Simulation env → ℕ → Replica env → Bool
  unfolding is_crashed is_unresponsive
  has_timed_out s id r =
      if is_crashed env s id || not (is_unresponsive env s id)
      then false
      else leb r.timeout_ms (
          s.simulated_time_ms
          - (elim (get_elem? s.last_response_ms id) as (λ _. ℕ) [ none ↦ 0 | some t ↦ t ]))

  unfoldable pub timed_out : Simulation env → ℕ → List (Replica env) → List ℕ
  unfolding has_timed_out
  timed_out s id [] = []
  timed_out s id (r ∷ rs) =
      let rest = timed_out s (id + 1) rs in if has_timed_out s id r then id ∷ rest else rest

  -- The second loop, in which the result of `crash_replica` is ignored.
  unfoldable pub crash_each : Simulation env → List ℕ → ℕ → Simulation env
  crash_each s [] now = s
  crash_each s (id ∷ ids) now = crash_each (crash_replica s id now).0 ids now

  unfoldable pub process_timeout_crashes : Simulation env → ℕ → Simulation env
  unfolding timed_out crash_each
  process_timeout_crashes s now = crash_each s (timed_out s 0 s.replicas) now

  unfoldable pub set_replica_unresponsive : Simulation env → ℕ → Bool → Simulation env × Outcome
  unfolding is_crashed mark_responded
  set_replica_unresponsive s id unresponsive =
      if leb (length s.replicas) id
      then (s, failed (invalid_replica id))
      else if is_crashed env s id
      then (s, failed (already_crashed id))
      else if unresponsive
      then (record s { unresponsive_replicas = insert_key id s.unresponsive_replicas }, done)
      else (
        mark_responded env
            (record s { unresponsive_replicas = remove_key id s.unresponsive_replicas }) id,
        done,
      )
