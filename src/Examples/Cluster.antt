-- ===== src/Examples/Cluster.antt =====
-- The theorems on the cluster, applied to one of four replicas.
use persisthotstuff_rst.Base.{
  ℕ, ◌<◌, ◌≡◌, ◌≢◌, ◌↔◌, refl, true, false, none, some, List, [], ◌∷◌, ◌++◌, length, get_elem?, All,
  ◌==◌, arith,
}
use persisthotstuff_rst.BTree.{contains, contains_key, get}
use persisthotstuff_rst.Types.{no_op}
use persisthotstuff_rst.Replica.{Replica, dynamic_quorum_size, fault_threshold}
use persisthotstuff_rst.Replica.Votes.{pooled}
use persisthotstuff_rst.Types.{Block}
use persisthotstuff_rst.Replica.{leader_among}
use persisthotstuff_rst.Replica.Proposals.{validate_and_insert_proposal}
use persisthotstuff_rst.Network.{proposal, vote}
use persisthotstuff_rst.Simulation.Messages.{deliver_proposals, vote_for}
use persisthotstuff_rst.Simulation.Equivocation.{votes_twice}
use persisthotstuff_rst.Recovery.{DataDir}
use persisthotstuff_rst.Network.{new}
use persisthotstuff_rst.Machine.{IsConsistent}
use persisthotstuff_rst.Simulation.{Simulation, done, is_crashed}
use persisthotstuff_rst.Simulation.Crash.{crash_replica, set_replica_unresponsive}
use persisthotstuff_rst.Simulation.Check.{verify_safety, first_not_crashed}
use persisthotstuff_rst.Simulation.Round.{voting, collecting}
use persisthotstuff_rst.Simulation.Rejoin.{recover_replica}
use persisthotstuff_rst.Simulation.Actions.{
  Action, round, pacemaker_round, crash, set_unresponsive, enqueue, enable_dummies, play_all,
}
use persisthotstuff_rst.Simulation.Consistent.{play_all-IsConsistent}
use persisthotstuff_rst.Simulation.Safety.{LogsAgree, verify_safety_iff}
use persisthotstuff_rst.Simulation.Failures.{IsLeft, failed_unchanged}
use persisthotstuff_rst.Simulation.Ballots.{voters}
use persisthotstuff_rst.Simulation.Quorum.{no_certificate}
use persisthotstuff_rst.Examples.{toy_env, replica4, config4, keys4, plain_block}
use persisthotstuff_rst.Examples.Storage.{later4}

abbrev member4 : ℕ → Replica toy_env
member4 id = record replica4 { config = record config4 { id = id } }

abbrev empty_disk : DataDir
empty_disk = record { snapshots = []; wal_file = none }

-- Replica 0 has logged two entries, and replica 3 is crashed.
abbrev cluster4 : Simulation toy_env
cluster4 = record {
  replicas = later4 ∷ member4 1 ∷ member4 2 ∷ member4 3 ∷ [];
  network = new 4;
  step = 0;
  max_steps = 100;
  persistence_enabled = true;
  disks = empty_disk ∷ empty_disk ∷ empty_disk ∷ empty_disk ∷ [];
  replica_keystores = keys4 ∷ keys4 ∷ keys4 ∷ keys4 ∷ [];
  crashed_replicas = 3 ∷ [];
  unresponsive_replicas = [];
  last_response_ms = 0 ∷ 0 ∷ 0 ∷ 0 ∷ [];
  simulated_time_ms = 0;
  round_time_ms = 1000;
}

abbrev some_actions : List Action
some_actions =
    enqueue no_op
    ∷ pacemaker_round 10
    ∷ set_unresponsive 2 true
    ∷ round 20
    ∷ crash 1 30
    ∷ enable_dummies 5
    ∷ round 40
    ∷ []

member4-IsConsistent : (id : ℕ) → IsConsistent toy_env (member4 id)
unfolding fault_threshold
member4-IsConsistent id = record {
  log_valid = record { distinct = tt; last = refl };
  config_synced = record { ascending = ground arith; n_is_active = refl; f_is_threshold = refl };
}

later4-IsConsistent : IsConsistent toy_env later4
unfolding fault_threshold
later4-IsConsistent = record {
  log_valid = record { distinct = tt; last = refl };
  config_synced = record { ascending = ground arith; n_is_active = refl; f_is_threshold = refl };
}

play_all-IsConsistent_example :
    All (IsConsistent toy_env) (play_all toy_env cluster4 some_actions).replicas
play_all-IsConsistent_example = play_all-IsConsistent toy_env cluster4 some_actions (
  later4-IsConsistent,
  (member4-IsConsistent 1, (member4-IsConsistent 2, (member4-IsConsistent 3, tt))),
)

verify_safety_iff_example : (verify_safety toy_env cluster4 ≡ true) ↔ (
    (j : ℕ) (q : Replica toy_env)
    → get_elem? cluster4.replicas j ≡ some q
    → is_crashed toy_env cluster4 j ≡ false
    → LogsAgree later4.committed_log q.committed_log)
unfolding first_not_crashed contains
verify_safety_iff_example = verify_safety_iff toy_env cluster4 0 later4 refl

failed_unchanged_example :
    ((crash_replica toy_env cluster4 3 10).1 ≢ done
      → (crash_replica toy_env cluster4 3 10).0 ≡ cluster4)
    × ((recover_replica toy_env cluster4 3 10).1 ≢ done
        → IsLeft toy_env cluster4 3 10 (recover_replica toy_env cluster4 3 10).0)
    × ((set_replica_unresponsive toy_env cluster4 3 true).1 ≢ done
        → (set_replica_unresponsive toy_env cluster4 3 true).0 ≡ cluster4)
    × (((crash_replica toy_env cluster4 3 10).1 ≡ done) ↔ (
        (cluster4.persistence_enabled ≡ true)
        × (3 < length cluster4.replicas)
        × (is_crashed toy_env cluster4 3 ≡ false)
        × (get_elem? cluster4.replicas 3 ≢ none)
        × (get_elem? cluster4.replica_keystores 3 ≢ none)))
    × (is_crashed toy_env cluster4 3 ≡ false → (recover_replica toy_env cluster4 3 10).1 ≢ done)
failed_unchanged_example = failed_unchanged toy_env cluster4 3 10 true

-- Replica 3 takes no part, and two voters are left beside the leader.
no_certificate_example :
    (collecting toy_env
      (λ i. i == 3)
      10
      (voting toy_env (λ i. i == 3) 10 cluster4 1 (plain_block 1 (some 0) 1 none))).1
    ≡ none
unfolding voters dynamic_quorum_size fault_threshold pooled new get
no_certificate_example =
    no_certificate toy_env (λ i. i == 3) 10 1 (plain_block 1 (some 0) 1 none) cluster4 (member4 1)
      refl refl refl (omega arith)

-- Two blocks of view 4 on the genesis block.
abbrev left : Block
left = plain_block 8 (some 0) 4 none

abbrev right : Block
right = plain_block 9 (some 0) 4 none

left_accepted : (validate_and_insert_proposal toy_env (member4 1) left 10).1 ≡ true
unfolding validate_and_insert_proposal leader_among contains_key
left_accepted = refl

right_accepted : (validate_and_insert_proposal toy_env (member4 1) right 10).1 ≡ true
unfolding validate_and_insert_proposal leader_among contains_key
right_accepted = refl

votes_twice_example :
    (deliver_proposals toy_env
      (λ i. false)
      10
      cluster4
      (proposal 0 1 left ∷ proposal 0 1 right ∷ [])).network.message_queue
    ≡ cluster4.network.message_queue
      ++ vote 1 0 (vote_for toy_env (member4 1) left)
        ∷ vote 1 0 (vote_for toy_env (member4 1) right)
        ∷ []
votes_twice_example =
    votes_twice toy_env (λ i. false) 10 0 1 left right cluster4 (member4 1) refl refl left_accepted
      right_accepted
