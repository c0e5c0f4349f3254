-- ===== src/Replica/Commit.antt =====
-- src/replica.rs: the 3-chain rule, commits, and the membership changes that a commit applies.
pub mod Chain
pub mod Membership
pub mod Termination
pub mod Execution
use persisthotstuff_rst.Base.{
  ℕ, zero, suc, ◌+◌, ◌-◌, Bool, true, false, Option, none, some, List, [], ◌∷◌, ◌++◌, length, any,
  find, is_some, not, ◌==◌, if◌then◌else◌,
}
use persisthotstuff_rst.BTree
use persisthotstuff_rst.Types.{
  Hash, ReplicaId, Block, ConsensusCommand, no_op, client_tx, join_validator, remove_validator,
  saturating_suc, Bytes,
}
use persisthotstuff_rst.Crypto.{add_public_key, remove_public_key}
use persisthotstuff_rst.Wal.Entry.{from_committed_block}
use persisthotstuff_rst.App.{CommittedCommand}
use persisthotstuff_rst.Replica.{Env, Replica, dynamic_f, can_apply_new_validator_count, log}

-- `b.parent == Some(hash)`
abbrev pub is_child_of : Hash → Block → Bool
is_child_of hash b = elim b.parent [ none ↦ false | some p ↦ p == hash ]

abbrev pub in_log : List Block → Hash → Bool
in_log committed hash = any (λ (b : Block). b.hash == hash) committed

-- The body of the loop of `find_committed_block` for one `b0`: `true` is `return Some(b0)`.
unfoldable pub heads_three_chain : List Block → List Block → Block → Bool
heads_three_chain committed blocks b0 =
    if in_log committed b0.hash then false else elim (find (is_child_of b0.hash) blocks) [
      | none ↦ false
      | some b1 ↦
          if not (is_some b1.qc)
          then false
          else elim (find (is_child_of b1.hash) blocks) [ none ↦ false | some b2 ↦ is_some b2.qc ]
    ]

module _ (env : Env) where
  -- The blocks are visited in ascending order of their hashes.
  unfoldable pub find_committed_block : Replica env → Option Block
  unfolding heads_three_chain
  find_committed_block r =
      find (heads_three_chain r.committed_log (BTree.values r.block_tree))
        (BTree.values r.block_tree)

  -- The end of both branches of `apply_membership_command`.
  unfoldable pub reconfigure : Replica env → Replica env
  unfolding dynamic_f
  reconfigure r = record r {
    config_epoch = saturating_suc r.config_epoch;
    config = record (r.config) { n = length r.active_validators; f = dynamic_f env r };
    vote_pool = [];
  }

  unfoldable pub join : Replica env → ReplicaId → Bytes → Replica env
  unfolding reconfigure can_apply_new_validator_count
  join r replica_id public_key =
      if BTree.contains replica_id r.active_validators
      then r
      else if not (can_apply_new_validator_count (length r.active_validators + 1))
      then r
      else (let (ks, added) = add_public_key env.crypto r.keystore replica_id public_key in
          if not added
          then r
          else reconfigure (record r {
            keystore = ks;
            active_validators = BTree.insert_key replica_id r.active_validators;
          }))

  unfoldable pub leave : Replica env → ReplicaId → Replica env
  unfolding reconfigure can_apply_new_validator_count
  leave r replica_id =
      if not (BTree.contains replica_id r.active_validators)
      then r
      else if not (can_apply_new_validator_count (length r.active_validators - 1))
      then r
      else reconfigure (record r {
        active_validators = BTree.remove_key replica_id r.active_validators;
        keystore = remove_public_key env.crypto r.keystore replica_id;
      })

  unfoldable pub apply_membership_command : Replica env → ConsensusCommand → Replica env
  unfolding join leave
  apply_membership_command r no_op = r
  apply_membership_command r (client_tx payload) = r
  apply_membership_command r (join_validator replica_id public_key) = join r replica_id public_key
  apply_membership_command r (remove_validator replica_id) = leave r replica_id

  unfoldable pub on_commit : Replica env → ℕ → Replica env
  on_commit r now = record r { view_start_time = now }

  -- `app.apply(&cmd)`, whose error is only printed.
  unfoldable pub execute : Replica env → Block → Replica env
  execute r b = elim r.app [
    | none ↦ r
    | some a ↦ record r {
      app =
          some
            (env.app.apply a (record {
              block_hash = b.hash;
              view = b.view;
              epoch = b.epoch;
              proposer = b.proposer;
              command = b.command;
              commit_index = length r.committed_log - 1;
            })).0;
    }
  ]

  -- `committed_log.push(block)` and `committed_up_to = Some(block.hash)`.
  unfoldable pub push_committed : Replica env → Block → Replica env
  push_committed r b = record r {
    committed_log = r.committed_log ++ b ∷ [];
    committed_up_to = some b.hash;
  }

  unfoldable pub execute_and_commit : Replica env → Block → ℕ → Replica env
  unfolding push_committed apply_membership_command execute on_commit
  execute_and_commit r b now =
      let r1 = log env r (from_committed_block b (length r.committed_log) now) in
      let r2 = push_committed r1 b in
      let r3 = apply_membership_command r2 b.command in let r4 = execute r3 b in on_commit r4 now

  unfoldable pub try_commit_once : Replica env → ℕ → Replica env × Bool
  unfolding find_committed_block execute_and_commit
  try_commit_once r now = elim (find_committed_block r) [
    | none ↦ (r, false)
    | some b ↦ (execute_and_commit r b now, true)
  ]

  -- `while self.try_commit_once() {}` with fuel; `none` is no result of the source.
  unfoldable pub commit_loop : ℕ → Replica env → ℕ → Option (Replica env)
  commit_loop zero r now = none
  commit_loop (suc fuel) r now =
      let t = try_commit_once r now in
      elim t.1 [ true ↦ commit_loop fuel t.0 now | false ↦ some t.0 ]

  -- A round commits a block of the tree that was not committed, so one round more than there are
  -- blocks is enough.
  unfoldable pub commit_all : Replica env → ℕ → Option (Replica env)
  unfolding commit_loop
  commit_all r now = commit_loop (suc (length r.block_tree)) r now
