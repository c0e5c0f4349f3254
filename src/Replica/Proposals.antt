-- ===== src/Replica/Proposals.antt =====
-- src/replica.rs: building a block as the leader, and checking a block that was received.
pub mod Acceptance
use persisthotstuff_rst.Base.{
  ℕ, Bool, true, false, Option, none, some, List, [], ◌∷◌, find, leb, not, ◌==◌, if◌then◌else◌,
}
use persisthotstuff_rst.BTree
use persisthotstuff_rst.Types.{
  Hash, ReplicaId, Bytes, Block, QuorumCert, ConsensusCommand, no_op, join_validator,
  remove_validator, wrapping_suc,
}
use persisthotstuff_rst.Crypto.{verify_qc}
use persisthotstuff_rst.Wal.Entry.{from_block}
use persisthotstuff_rst.Replica.{
  Env, Replica, dynamic_leader_for_view, dynamic_quorum_size, is_leader, log,
}
use mathlib.Core.Option

-- `max_by_key(|b| b.view)`: of the blocks with the greatest view, the last.
unfoldable pub max_by_view : Option Block → List Block → Option Block
max_by_view best [] = best
max_by_view none (b ∷ bs) = max_by_view (some b) bs
max_by_view (some best) (b ∷ bs) = max_by_view (some (if leb best.view b.view then b else best)) bs

-- `current_time_ms() ` at a proposal is the argument `now`.
module _ (env : Env) where
  unfoldable pub latest_block_hash : Replica env → Option Hash
  unfolding max_by_view
  latest_block_hash r =
      Option.map (λ (b : Block). b.hash) (max_by_view none (BTree.values r.block_tree))

  unfoldable pub get_block_at_view : Replica env → ℕ → Option Block
  get_block_at_view r view = find (λ (b : Block). b.view == view) (BTree.values r.block_tree)

  -- The parent of a new block: the block of the high QC, or the latest block.
  unfoldable pub parent_for_proposal : Replica env → Option Hash
  unfolding latest_block_hash
  parent_for_proposal r = elim r.high_qc [
    | none ↦ latest_block_hash r
    | some qc ↦ some qc.block_hash
  ]

  -- `Block { … }` of the four functions that propose.
  unfoldable pub new_block : Replica env → ℕ → Hash → ConsensusCommand → Block
  unfolding parent_for_proposal
  new_block r view hash command = record {
    hash = hash;
    parent = parent_for_proposal r;
    view = view;
    epoch = r.config_epoch;
    proposer = r.config.id;
    qc = r.high_qc;
    command = command;
  }

  unfoldable pub insert_own : Replica env → Block → ℕ → Replica env
  insert_own r b now = record r {
    block_tree = BTree.insert b.hash b r.block_tree;
    last_proposed_time = now;
  }

  unfoldable pub propose_command :
      Replica env → ℕ → ConsensusCommand → ℕ → Replica env × Option Block
  unfolding new_block insert_own is_leader
  propose_command r view command now =
      if not (is_leader env r view)
      then (r, none)
      else (let b = new_block r view r.next_hash command in
          (insert_own (record r { next_hash = wrapping_suc r.next_hash }) b now, some b))

  unfoldable pub propose : Replica env → ℕ → ℕ → Replica env × Option Block
  unfolding new_block insert_own is_leader
  propose r view now =
      if not (is_leader env r view)
      then (r, none)
      else (let b = new_block r view r.next_hash no_op in
          (insert_own (record r { next_hash = wrapping_suc r.next_hash }) b now, some b))

  unfoldable pub propose_with_hash : Replica env → ℕ → Hash → ℕ → Replica env × Option Block
  unfolding new_block insert_own is_leader
  propose_with_hash r view unique_hash now =
      if not (is_leader env r view)
      then (r, none)
      else (let b = new_block r view unique_hash no_op in (insert_own r b now, some b))

  unfoldable pub propose_join_validator :
      Replica env → ℕ → ReplicaId → Bytes → ℕ → Replica env × Option Block
  unfolding propose_command
  propose_join_validator r view replica_id public_key now =
      propose_command r view (join_validator replica_id public_key) now

  unfoldable pub propose_remove_validator :
      Replica env → ℕ → ReplicaId → ℕ → Replica env × Option Block
  unfolding propose_command
  propose_remove_validator r view replica_id now =
      propose_command r view (remove_validator replica_id) now

  -- The check of an embedded certificate.
  unfoldable pub is_valid_embedded_qc : Replica env → Option QuorumCert → Bool
  unfolding dynamic_quorum_size
  is_valid_embedded_qc r none = true
  is_valid_embedded_qc r (some qc) =
      if not (qc.epoch == r.config_epoch)
      then false
      else if not (verify_qc env.crypto r.keystore qc (dynamic_quorum_size env r))
      then false
      else BTree.contains_key qc.block_hash r.block_tree

  unfoldable pub is_known_parent : Replica env → Option Hash → Bool
  is_known_parent r none = true
  is_known_parent r (some parent_hash) = BTree.contains_key parent_hash r.block_tree

  unfoldable pub on_inserting_block_proposal : Replica env → ℕ → Replica env
  on_inserting_block_proposal r now = record r { view_start_time = now }

  unfoldable pub validate_and_insert_proposal : Replica env → Block → ℕ → Replica env × Bool
  unfolding is_valid_embedded_qc is_known_parent on_inserting_block_proposal dynamic_leader_for_view
  validate_and_insert_proposal r b now =
      if not (b.proposer == dynamic_leader_for_view env r b.view)
      then (r, false)
      else if not (b.epoch == r.config_epoch)
      then (r, false)
      else if not (is_known_parent r b.parent)
      then (r, false)
      else if not (is_valid_embedded_qc r b.qc)
      then (r, false)
      else (let r1 = log env r (from_block b now) in
          (
            on_inserting_block_proposal
                (record r1 { block_tree = BTree.insert b.hash b r1.block_tree }) now,
            true,
          ))
