-- ===== src/Examples/Chains.antt =====
-- The theorems on proposals, commits, membership and runs, applied.
use persisthotstuff_rst.Base.{
  ℕ, ◌≡◌, ◌↔◌, refl, true, false, none, some, [], ◌∷◌, ◌++◌, length, arith,
}
use persisthotstuff_rst.BTree
use persisthotstuff_rst.Types.{QuorumCert, Block, client_tx, join_validator, remove_validator}
use persisthotstuff_rst.Wal.{Wal, WalLib, header}
use persisthotstuff_rst.Wal.Entry.{timeout}
use persisthotstuff_rst.Replica.{
  Env, Replica, dynamic_leader_for_view, leader_among, is_leader, fault_threshold,
}
use persisthotstuff_rst.Replica.Proposals.{
  propose_command, validate_and_insert_proposal, parent_for_proposal, new_block,
}
use persisthotstuff_rst.Replica.Proposals.Acceptance.{
  IsAcceptable, TreeIsLinked, validate_and_insert_proposal_iff, propose_command_stale,
}
use persisthotstuff_rst.Replica.Commit.{
  find_committed_block, in_log, commit_all, apply_membership_command,
}
use persisthotstuff_rst.Replica.Commit.Chain.{
  ThreeChain, HasNoForks, find_committed_block_sound, find_committed_block_complete,
}
use persisthotstuff_rst.Replica.Commit.Membership.{
  ConfigIsSynced, Change, apply_membership_command-Change, apply_membership_command_frozen,
}
use persisthotstuff_rst.Replica.Commit.Termination.{CommitsFrom, commit_all_ends}
use persisthotstuff_rst.Replica.Pacemaker.{propose_next, enqueue_command}
use persisthotstuff_rst.Replica.Pacemaker.Proposing.{propose_next_newest}
use persisthotstuff_rst.Recovery.{fresh, replay}
use persisthotstuff_rst.Recovery.Durability.{IsDurable}
use persisthotstuff_rst.Machine.{
  certificate_arrives, leads, commits, view_ends, run, run-IsDurable, run-IsConsistent,
  IsConsistent,
}
use persisthotstuff_rst.Examples.{
  toy_env, toy_crypto, toy_snap, toy_app, replica4, keys4, config4, plain_block,
}

abbrev qc_for : ℕ → ℕ → QuorumCert
qc_for hash view = record { block_hash = hash; view = view; epoch = 0; signatures = [] }

-- Genesis and three blocks that each carry a certificate.
abbrev pub chained : Replica toy_env
chained = record replica4 {
  next_hash = 4;
  block_tree =
      (0, plain_block 0 none 0 none)
      ∷ (1, plain_block 1 (some 0) 1 (some (qc_for 0 0)))
      ∷ (2, plain_block 2 (some 1) 2 (some (qc_for 1 1)))
      ∷ (3, plain_block 3 (some 2) 3 (some (qc_for 2 2)))
      ∷ [];
}

find_committed_block_sound_example :
    (in_log [] 0 ≡ false) × ThreeChain (BTree.values chained.block_tree) (plain_block 0 none 0 none)
unfolding find_committed_block BTree.values
find_committed_block_sound_example =
    find_committed_block_sound toy_env chained (plain_block 0 none 0 none) refl

-- A child of the genesis block without a certificate hides the chain.
abbrev forked : Replica toy_env
forked = record chained {
  block_tree =
      (0, plain_block 0 none 0 none)
      ∷ (1, plain_block 1 (some 0) 4 none)
      ∷ (2, plain_block 2 (some 0) 1 (some (qc_for 0 0)))
      ∷ (3, plain_block 3 (some 2) 2 (some (qc_for 2 1)))
      ∷ [];
}

commit_all_ends_example :
    (s : Replica toy_env) × (commit_all toy_env chained 60 ≡ some s)
    × (find_committed_block toy_env s ≡ none)
    × CommitsFrom toy_env chained s
commit_all_ends_example = commit_all_ends toy_env chained 60

chained-ConfigIsSynced : ConfigIsSynced toy_env chained
unfolding fault_threshold
chained-ConfigIsSynced = record {
  ascending = ground arith;
  n_is_active = refl;
  f_is_threshold = refl;
}

chained-IsConsistent : IsConsistent toy_env chained
chained-IsConsistent = record {
  log_valid = record { distinct = tt; last = refl };
  config_synced = chained-ConfigIsSynced;
}

run-IsConsistent_example : IsConsistent toy_env (
    run toy_env chained (commits 60 ∷ leads 4 (client_tx (65 ∷ [])) 61 ∷ view_ends timeout 62 ∷ []))
run-IsConsistent_example =
    run-IsConsistent toy_env chained
      (commits 60 ∷ leads 4 (client_tx (65 ∷ [])) 61 ∷ view_ends timeout 62 ∷ [])
      chained-IsConsistent

-- Entries that are never refused.
abbrev eager_wal : WalLib
eager_wal = record { serialize = λ e. some []; deserialize = λ bs. none; crc32 = λ bs. 0 }

abbrev eager_env : Env
eager_env = record { crypto = toy_crypto; wal_lib = eager_wal; snap_lib = toy_snap; app = toy_app }

abbrev new_file : Wal
new_file = record {
  content = header 0 7 ++ [];
  cursor = length (header 0 7 ++ []);
  replica_id = 0;
  entry_count = 0;
}

abbrev eager4 : Replica eager_env
eager4 = record {
  config = config4;
  current_view = 0;
  block_tree = chained.block_tree;
  high_qc = none;
  vote_pool = [];
  next_hash = 4;
  committed_log = [];
  committed_up_to = none;
  timeout_ms = 1000;
  view_start_time = 0;
  active_validators = 0 ∷ 1 ∷ 2 ∷ 3 ∷ [];
  config_epoch = 0;
  keystore = keys4;
  wal = some new_file;
  snapshot_counter = 0;
  app = some 0;
  pending_app_state = none;
  client_queue = [];
  dummy_proposal_enabled = false;
  last_proposed_time = 0;
  dummy_timeout_ms = 0;
}

eager4-IsDurable : IsDurable eager_env fresh eager4
unfolding replay
eager4-IsDurable = record {
  base = fresh;
  logged = record {
    file = new_file;
    entries = [];
    attached = refl;
    holds = record {
      created_ts = 7;
      body = [];
      layout = refl;
      frames = refl;
      at_eof = refl;
      counted = refl;
    };
    replays = refl;
  };
  mirrors = record { committed = refl; up_to = refl; certificate = refl; view = refl };
}

run-IsDurable_example : IsDurable eager_env fresh (
    run eager_env eager4
      (commits 60 ∷ certificate_arrives (qc_for 3 3) 61 ∷ view_ends timeout 62 ∷ []))
run-IsDurable_example =
    run-IsDurable eager_env fresh (λ e. ground arith) eager4
      (commits 60 ∷ certificate_arrives (qc_for 3 3) 61 ∷ view_ends timeout 62 ∷ [])
      eager4-IsDurable

chained_links : HasNoForks (BTree.values chained.block_tree)
unfolding BTree.values
chained_links b b' h i j p q = ground arith

-- All blocks but the last two are committed.
abbrev settled : Replica toy_env
settled = record chained {
  committed_log = plain_block 0 none 0 none ∷ plain_block 1 (some 0) 1 (some (qc_for 0 0)) ∷ [];
}

find_committed_block_complete_example :
    ¬ ThreeChain (BTree.values chained.block_tree) (plain_block 2 (some 1) 2 (some (qc_for 1 1)))
unfolding find_committed_block BTree.values
find_committed_block_complete_example =
    find_committed_block_complete toy_env settled (plain_block 2 (some 1) 2 (some (qc_for 1 1)))
      chained_links refl refl

-- A set of three may grow to four.
abbrev three : Replica toy_env
three = record chained {
  active_validators = 0 ∷ 1 ∷ 2 ∷ [];
  config = record config4 { n = 3; f = 0 };
}

three-ConfigIsSynced : ConfigIsSynced toy_env three
unfolding fault_threshold
three-ConfigIsSynced = record {
  ascending = ground arith;
  n_is_active = refl;
  f_is_threshold = refl;
}

apply_membership_command-Change_example :
    Change toy_env three
      (apply_membership_command toy_env three (join_validator 3 []))
      (join_validator 3 [])
apply_membership_command-Change_example =
    apply_membership_command-Change toy_env three (join_validator 3 [])
      (three-ConfigIsSynced.ascending)

apply_membership_command_frozen_example :
    apply_membership_command toy_env chained (remove_validator 3) ≡ chained
apply_membership_command_frozen_example =
    apply_membership_command_frozen toy_env chained (remove_validator 3) refl

abbrev from_two : Block
from_two = record (plain_block 9 (some 3) 6 none) { proposer = 2 }

validate_and_insert_proposal_iff_example :
    ((validate_and_insert_proposal toy_env chained from_two 70).1 ≡ true)
    ↔ IsAcceptable toy_env chained from_two
validate_and_insert_proposal_iff_example =
    validate_and_insert_proposal_iff toy_env chained from_two 70

chained-TreeIsLinked : TreeIsLinked toy_env chained
unfolding BTree.contains_key
chained-TreeIsLinked = ((refl, tt), ((refl, refl), ((refl, refl), ((refl, refl), tt))))

abbrev own_block : Block
own_block = record (plain_block 4 (some 3) 8 none) { command = client_tx [] }

-- The leader of view 8 after a change of epoch, with a high QC of the epoch before.
abbrev reconfigured : Replica toy_env
reconfigured = record chained { config_epoch = 1; high_qc = some (qc_for 3 3) }

abbrev stale_block : Block
stale_block = record own_block { epoch = 1; qc = some (qc_for 3 3) }

propose_command_stale_example :
    validate_and_insert_proposal toy_env chained stale_block 71 ≡ (chained, false)
unfolding propose_command new_block is_leader dynamic_leader_for_view leader_among
    parent_for_proposal
propose_command_stale_example =
    propose_command_stale toy_env reconfigured chained 8 (client_tx []) stale_block (qc_for 3 3) 70
      71 refl refl (omega arith)

propose_next_newest_example :
    ((propose_next toy_env (enqueue_command toy_env chained (client_tx [])) 8 70).1
      ≡ some (new_block toy_env chained 8 4 (client_tx [])))
    × ((propose_next toy_env (enqueue_command toy_env chained (client_tx [])) 8 70).0.client_queue
        ≡ [])
unfolding is_leader dynamic_leader_for_view leader_among
propose_next_newest_example = propose_next_newest toy_env chained 8 (client_tx []) 70 refl
