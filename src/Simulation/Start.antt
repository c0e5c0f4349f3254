-- ===== src/Simulation/Start.antt =====
-- src/simulation.rs: the replicas that a cluster starts with.
use persisthotstuff_rst.Base.{
  ℕ, zero, suc, ◌+◌, Bool, false, Option, none, some, List, [], ◌∷◌, ◌++◌, length, get_elem?,
  replicate, not, ◌==◌, ◌&&◌, if◌then◌else◌,
}
use persisthotstuff_rst.BTree
use persisthotstuff_rst.BTree.{BTreeSet, insert_key, remove_key, contains}
use persisthotstuff_rst.Types.{Config}
use persisthotstuff_rst.Crypto.{KeyStore}
use persisthotstuff_rst.Wal
use persisthotstuff_rst.Wal.{Wal, WalError, WalResult, append}
use persisthotstuff_rst.Wal.Entry.{from_block}
use persisthotstuff_rst.Replica.{Env, Replica, insert_ids, ensure_default_validators}
use persisthotstuff_rst.Recovery
use persisthotstuff_rst.Recovery.{RecoveryError, DataDir, genesis_block, recover}
use persisthotstuff_rst.Network.{new}
use persisthotstuff_rst.Simulation.{
  Outcome, Simulation, done, panicked, unfinished, failed, not_recovered, not_logged,
}

module _ (env : Env) where
  unfoldable pub fresh_replica : Config → KeyStore env.crypto → ℕ → Replica env
  unfolding ensure_default_validators insert_ids
  fresh_replica config keystore now =
      let r = ensure_default_validators env (record {
        config = config;
        current_view = 0;
        block_tree = [];
        high_qc = none;
        vote_pool = [];
        next_hash = 1;
        committed_log = [];
        committed_up_to = none;
        timeout_ms = 5000;
        view_start_time = now;
        active_validators = insert_ids config.n 0 [];
        config_epoch = 0;
        keystore = keystore;
        wal = none;
        snapshot_counter = 0;
        app = none;
        pending_app_state = none;
        client_queue = [];
        dummy_proposal_enabled = false;
        last_proposed_time = 0;
        dummy_timeout_ms = 0;
      }) in
      record r { block_tree = BTree.insert 0 genesis_block r.block_tree }

  -- The genesis block is logged by a replica that recovered nothing else.
  unfoldable pub log_genesis : Replica env → Wal → ℕ → WalResult Wal
  log_genesis r w now =
      if w.entry_count == 0 && (length r.block_tree == 1 && BTree.contains_key 0 r.block_tree)
      then append env.wal_lib w
          (from_block (elim (BTree.get 0 r.block_tree) [ none ↦ genesis_block | some b ↦ b ]) now)
      else Wal.ok w

  -- The data directory after a start that fails. A log file that `recover` has created stays there
  -- when logging the genesis block fails; no other failure changes a file.
  unfoldable pub left_by_start : Config → KeyStore env.crypto → DataDir → ℕ → DataDir
  left_by_start config keystore disk now = elim (recover env config keystore disk now) [
    | none ↦ disk
    | some (Recovery.err e) ↦ disk
    | some (Recovery.ok (r, w)) ↦ record disk { wal_file = some w.content }
  ]

  -- The replica that `recover` returns, with the log attached. The data directory after a failure
  -- is `left_by_start`.
  unfoldable pub start_persistent :
      Config → KeyStore env.crypto → DataDir → ℕ → Outcome × Option (Replica env)
  unfolding log_genesis
  start_persistent config keystore disk now = elim (recover env config keystore disk now) [
    | none ↦ (unfinished, none)
    | some (Recovery.err e) ↦ (failed (not_recovered e), none)
    | some (Recovery.ok (r, w)) ↦ elim (log_genesis r w now) [
      | Wal.err e ↦ (failed (not_logged e), none)
      | Wal.ok w' ↦ (done, some (record r { wal = some w' }))
    ]
  ]

  -- The loop of `new_with_options` over the ids that are left, of which `id` is the next. With
  -- persistence each replica has its data directory in `disks`.
  unfoldable pub start_replicas :
      (n f : ℕ)
      → Bool
      → (left id : ℕ) → List (KeyStore env.crypto)
      → List DataDir
      → ℕ
      → List (Replica env)
      → Outcome × List (Replica env)
  start_replicas n f persistent zero id keystores disks now replicas = (done, replicas)
  start_replicas n f persistent (suc left) id keystores disks now replicas =
      let config : Config = record { n = n; f = f; id = id; timeout_ms = 5000 } in
      let next = start_replicas n f persistent left (id + 1) keystores disks now in
      elim (get_elem? keystores id) [
        | none ↦ (panicked, replicas)
        | some keystore ↦
            if not persistent
            then next (replicas ++ fresh_replica config keystore now ∷ [])
            else elim (get_elem? disks id) [
              | none ↦ (panicked, replicas)
              | some disk ↦
                  let started = start_persistent config keystore disk now in
                  elim started.1 [
                    | none ↦ (started.0, replicas)
                    | some r ↦ next (replicas ++ r ∷ [])
                  ]
            ]
      ]

  -- `new_with_options`. The generated keys and the data directories on disk are arguments. Of a
  -- failure only the error is returned, not what the started replicas left in their directories.
  unfoldable pub new_with_options :
      (n f max_steps : ℕ)
      → Bool
      → List (KeyStore env.crypto)
      → List DataDir
      → ℕ
      → Outcome × Option (Simulation env)
  unfolding start_replicas start_persistent fresh_replica
  new_with_options n f max_steps persistent keystores disks now =
      let started = start_replicas n f persistent n 0 keystores disks now [] in
      elim started.0 [
        | done ↦ (
          done,
          some (record {
            replicas = started.1;
            network = new n;
            step = 0;
            max_steps = max_steps;
            persistence_enabled = persistent;
            disks = if persistent then disks else [];
            replica_keystores = keystores;
            crashed_replicas = [];
            unresponsive_replicas = [];
            last_response_ms = replicate n 0;
            simulated_time_ms = 0;
            round_time_ms = 1000;
          }),
        )
        | other ↦ (other, none)
      ]
