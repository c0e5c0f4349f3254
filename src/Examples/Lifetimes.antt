-- ===== src/Examples/Lifetimes.antt =====
-- The theorems on the lifetimes of a replica, applied.
use persisthotstuff_rst.Base.{
  ℕ, ◌+◌, ◌≤◌, ◌≡◌, refl, true, false, none, some, ◌++◌, List, [], ◌∷◌, length, arith,
}
use persisthotstuff_rst.Types.{QuorumCert, no_op, client_tx}
use persisthotstuff_rst.Wal.Entry.{timeout}
use persisthotstuff_rst.Machine.{certificate_arrives, leads, commits, view_ends}
use persisthotstuff_rst.Lifetime.{Node, Incident, handles, snapshot_due, dies, boot, live, live_all}
use persisthotstuff_rst.Lifetime.Restarts.{IsKept, IsBroughtBack}
use persisthotstuff_rst.Lifetime.Steps.{Grows}
use persisthotstuff_rst.Lifetime.Survival.{
  empty_disk, dies_and_restarts, live_all-IsKept, first_boot, no_commit_is_lost,
}
use persisthotstuff_rst.BTree.{contains}
use persisthotstuff_rst.Wal.{Wal, header}
use persisthotstuff_rst.Snapshot.{load_latest}
use persisthotstuff_rst.Replica.{Replica}
use persisthotstuff_rst.Recovery.{fresh, start_of, start_fresh, replay}
use persisthotstuff_rst.Network.{new}
use persisthotstuff_rst.Simulation.{Simulation, done, is_crashed}
use persisthotstuff_rst.Simulation.Crash.{crash_replica}
use persisthotstuff_rst.Simulation.Rejoin.{recover_replica}
use persisthotstuff_rst.Simulation.Rejoined.{IsBack, crash_then_recover}
use persisthotstuff_rst.Examples.{config4, keys4, plain_block}
use persisthotstuff_rst.Examples.Total.{total_wal-WalLaws, total_wal-AlwaysSerializes}
use persisthotstuff_rst.Examples.TotalSnap.{total_env, total_snap-ReadsBack, total_snap-AlwaysPacks}

abbrev pub certified : ℕ → ℕ → QuorumCert
certified hash view = record { block_hash = hash; view = view; epoch = 0; signatures = [] }

-- Replica 0 leads in three views, and commits the genesis block and the block of the first.
abbrev first_day : List (Incident total_env)
first_day =
    handles (certificate_arrives (certified 0 0) 1)
    ∷ handles (leads 4 no_op 2)
    ∷ handles (certificate_arrives (certified 1 4) 3)
    ∷ handles (leads 8 (client_tx (104 ∷ 105 ∷ [])) 4)
    ∷ handles (certificate_arrives (certified 2 8) 5)
    ∷ handles (leads 12 no_op 6)
    ∷ handles (commits 7)
    ∷ snapshot_due 8
    ∷ handles (view_ends timeout 9)
    ∷ dies keys4 5 10
    ∷ []

-- After a restart, one more block, and a death and a snapshot.
abbrev second_day : List (Incident total_env)
second_day =
    handles (certificate_arrives (certified 3 12) 11)
    ∷ handles (leads 16 no_op 12)
    ∷ handles (commits 13)
    ∷ dies keys4 5 14
    ∷ snapshot_due 15
    ∷ dies keys4 6 16
    ∷ []

no_commit_is_lost_example :
    (born n m : Node total_env) × (boot total_env config4 keys4 5 (empty_disk total_env) 0
      ≡ some born)
    × (live_all total_env config4 born first_day ≡ some n)
    × (live_all total_env config4 n second_day ≡ some m)
    × Grows total_env n m
no_commit_is_lost_example =
    no_commit_is_lost total_env total_wal-WalLaws total_snap-ReadsBack total_wal-AlwaysSerializes
      config4 keys4 5 0 first_day second_day (omega arith)

-- The replica after its very first start.
abbrev newborn : Node total_env
newborn = (first_boot total_env total_wal-AlwaysSerializes config4 keys4 5 0).0

newborn-IsKept : IsKept total_env config4 newborn
newborn-IsKept = (first_boot total_env total_wal-AlwaysSerializes config4 keys4 5 0).2

live_all-IsKept_example :
    (m : Node total_env) × (live_all total_env config4 newborn first_day ≡ some m)
    × IsKept total_env config4 m
    × Grows total_env newborn m
    × (m.replica.snapshot_counter ≤ newborn.replica.snapshot_counter + length first_day)
live_all-IsKept_example =
    live_all-IsKept total_env total_wal-WalLaws total_snap-ReadsBack total_wal-AlwaysSerializes
      config4 newborn first_day
      (omega (arith, (first_boot total_env total_wal-AlwaysSerializes config4 keys4 5 0).3))
      newborn-IsKept

dies_and_restarts_example :
    (m : Node total_env) × (live total_env config4 newborn (dies keys4 6 20) ≡ some m)
    × IsKept total_env config4 m
    × IsBroughtBack total_env newborn.replica m.replica
dies_and_restarts_example =
    dies_and_restarts total_env total_wal-WalLaws total_wal-AlwaysSerializes config4 newborn keys4 6
      20 newborn-IsKept

abbrev new_log : ℕ → Wal
new_log id = record {
  content = header id 7 ++ [];
  cursor = length (header id 7 ++ []);
  replica_id = id;
  entry_count = 0;
}

-- A replica of a cluster of four with persistence, as it starts.
abbrev pub member : ℕ → Replica total_env
member id = record {
  config = record config4 { id = id };
  current_view = 0;
  block_tree = (0, plain_block 0 none 0 none) ∷ [];
  high_qc = none;
  vote_pool = [];
  next_hash = 1;
  committed_log = [];
  committed_up_to = none;
  timeout_ms = 1000;
  view_start_time = 0;
  active_validators = 0 ∷ 1 ∷ 2 ∷ 3 ∷ [];
  config_epoch = 0;
  keystore = keys4;
  wal = some (new_log id);
  snapshot_counter = 0;
  app = none;
  pending_app_state = none;
  client_queue = [];
  dummy_proposal_enabled = false;
  last_proposed_time = 0;
  dummy_timeout_ms = 0;
}

pub member-IsKept :
    (id : ℕ)
    → IsKept total_env (record config4 { id = id }) (record { replica = member id; snapshots = [] })
unfolding start_of start_fresh load_latest replay
member-IsKept id = record {
  start = start_fresh (record config4 { id = id });
  from = refl;
  durable = record {
    base = fresh;
    logged = record {
      file = new_log id;
      entries = [];
      attached = refl;
      holds = record {
        created_ts = 7;
        body = [];
        layout = refl;
        frames = refl;
        at_eof = refl;
        counted = refl;
      };
      replays = refl;
    };
    mirrors = record { committed = refl; up_to = refl; certificate = refl; view = refl };
  };
  own_log = refl;
  counter = refl;
  older = tt;
}

-- Replica 3 is crashed.
abbrev persistent_cluster : Simulation total_env
persistent_cluster = record {
  replicas = member 0 ∷ member 1 ∷ member 2 ∷ member 3 ∷ [];
  network = new 4;
  step = 0;
  max_steps = 100;
  persistence_enabled = true;
  disks =
      empty_disk total_env
      ∷ empty_disk total_env
      ∷ empty_disk total_env
      ∷ empty_disk total_env
      ∷ [];
  replica_keystores = keys4 ∷ keys4 ∷ keys4 ∷ keys4 ∷ [];
  crashed_replicas = 3 ∷ [];
  unresponsive_replicas = [];
  last_response_ms = 0 ∷ 0 ∷ 0 ∷ 0 ∷ [];
  simulated_time_ms = 0;
  round_time_ms = 1000;
}

crash_then_recover_example :
    ((crash_replica total_env persistent_cluster 2 10).1 ≡ done)
    × ((recover_replica total_env (crash_replica total_env persistent_cluster 2 10).0 2 20).1
        ≡ done)
    × IsBack total_env persistent_cluster 2
        (member 2)
        (recover_replica total_env (crash_replica total_env persistent_cluster 2 10).0 2 20).0
unfolding is_crashed contains
crash_then_recover_example =
    crash_then_recover total_env total_wal-WalLaws total_wal-AlwaysSerializes total_snap-ReadsBack
      total_snap-AlwaysPacks persistent_cluster 2 (member 2) keys4 (empty_disk total_env) 10 20 refl
      refl refl refl refl (member-IsKept 2) (omega arith)
      (omega arith, (omega arith, (omega arith, (omega arith, tt))))
