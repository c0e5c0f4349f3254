-- ===== src/Replica/Pacemaker.antt =====
-- src/replica.rs: views, timeouts, the client queue and dummy proposals.
pub mod Proposing
use persisthotstuff_rst.Base.{
  ℕ, ◌-◌, Bool, true, false, Option, none, some, List, [], ◌∷◌, ◌++◌, length, ltb, leb, not, ◌==◌,
  is_some, if◌then◌else◌,
}
use persisthotstuff_rst.BTree
use persisthotstuff_rst.Types.{Hash, ReplicaId, Block, ConsensusCommand, saturating_suc}
use persisthotstuff_rst.Wal.Entry.{ViewChangeReason, timeout, view_changed}
use persisthotstuff_rst.Replica.{Env, Replica, dynamic_leader_for_view, is_leader, log}
use persisthotstuff_rst.Replica.Proposals.{
  propose, propose_command, propose_with_hash, new_block, insert_own,
}
use persisthotstuff_rst.Replica.Commit.{find_committed_block}

-- `Vec::pop`: the last item, and the others.
unfoldable pub pop : List ConsensusCommand → Option (ConsensusCommand × List ConsensusCommand)
pop [] = none
pop (c ∷ cs) = elim (pop cs) [ none ↦ some (c, []) | some (last, rest) ↦ some (last, c ∷ rest) ]

module _ (env : Env) where
  unfoldable pub start_view : Replica env → ℕ → ℕ → Replica env
  start_view r view now = record r { current_view = view; view_start_time = now }

  unfoldable pub is_view_timeout : Replica env → ℕ → Bool
  is_view_timeout r now = leb r.timeout_ms (now - r.view_start_time)

  unfoldable pub advance_view_with_reason : Replica env → ViewChangeReason → ℕ → Replica env
  advance_view_with_reason r reason now =
      let next = saturating_suc r.current_view in
      let r1 =
        log env (record r { current_view = next }) (view_changed r.current_view next reason now) in
      record r1 { view_start_time = now; vote_pool = [] }

  unfoldable pub on_view_timeout : Replica env → ℕ → Replica env
  unfolding advance_view_with_reason
  on_view_timeout r now = advance_view_with_reason r timeout now

  unfoldable pub current_leader : Replica env → ReplicaId
  current_leader r = dynamic_leader_for_view env r r.current_view

  unfoldable pub am_i_leader : Replica env → Bool
  am_i_leader r = dynamic_leader_for_view env r r.current_view == r.config.id

  unfoldable pub enable_dummy_proposals : Replica env → ℕ → Replica env
  enable_dummy_proposals r timeout_ms = record r {
    dummy_proposal_enabled = true;
    dummy_timeout_ms = timeout_ms;
  }

  unfoldable pub disable_dummy_proposals : Replica env → Replica env
  disable_dummy_proposals r = record r { dummy_proposal_enabled = false }

  unfoldable pub enqueue_command : Replica env → ConsensusCommand → Replica env
  enqueue_command r cmd = record r { client_queue = r.client_queue ++ cmd ∷ [] }

  -- The subtraction saturates at 0.
  unfoldable pub pending_uncommitted_count : Replica env → ℕ
  pending_uncommitted_count r = length r.block_tree - length r.committed_log

  unfoldable pub should_propose_dummy : Replica env → ℕ → Bool
  unfolding am_i_leader
  should_propose_dummy r now =
      if not r.dummy_proposal_enabled
      then false
      else if not (am_i_leader r)
      then false
      else if not (length r.client_queue == 0)
      then false
      else if ltb (now - r.last_proposed_time) r.dummy_timeout_ms
      then false
      else not (is_some (find_committed_block env r))

  unfoldable pub propose_next : Replica env → ℕ → ℕ → Replica env × Option Block
  unfolding pop should_propose_dummy is_leader
  propose_next r view now =
      if not (is_leader env r view) then (r, none) else elim (pop r.client_queue) [
        | some (cmd, rest) ↦ propose_command env (record r { client_queue = rest }) view cmd now
        | none ↦ if should_propose_dummy r now then propose env r view now else (r, none)
      ]

  unfoldable pub propose_next_with_hash : Replica env → ℕ → Hash → ℕ → Replica env × Option Block
  unfolding pop should_propose_dummy is_leader new_block insert_own
  propose_next_with_hash r view unique_hash now =
      if not (is_leader env r view) then (r, none) else elim (pop r.client_queue) [
        | some (cmd, rest) ↦
            let r1 = record r { client_queue = rest } in
            let b = new_block env r1 view unique_hash cmd in (insert_own env r1 b now, some b)
        | none ↦
            if should_propose_dummy r now
            then propose_with_hash env r view unique_hash now
            else (r, none)
      ]
