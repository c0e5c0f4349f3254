-- ===== src/Lifetime/Views.antt =====
-- The view of a replica never reaches 2^64.
use persisthotstuff_rst.Base.{ℕ, suc, ◌^◌, ◌<◌, ◌≡◌, length, arith}
use persisthotstuff_rst.Types.{
  Block, QuorumCert, Vote, ConsensusCommand, no_op, client_tx, join_validator, remove_validator,
}
use persisthotstuff_rst.Crypto.{add_public_key}
use persisthotstuff_rst.Wal.Entry.{ViewChangeReason, from_committed_block}
use persisthotstuff_rst.Replica.{Env, Replica, log}
use persisthotstuff_rst.Replica.Votes.{handle_vote, apply_high_qc_from_network, try_form_qc}
use persisthotstuff_rst.Replica.Proposals.{validate_and_insert_proposal, propose_command}
use persisthotstuff_rst.Replica.Commit.{
  execute_and_commit, push_committed, apply_membership_command, commit_all,
}
use persisthotstuff_rst.Replica.Pacemaker.{advance_view_with_reason}
use persisthotstuff_rst.Machine.{
  Event, step, vote_arrives, proposal_arrives, certificate_arrives, leads, commits, view_ends,
  commit_loop_inv, step_commits,
}

module _ (env : Env) where
  abbrev pub IsLow : Replica env → Type 0
  IsLow r = r.current_view < 2 ^ 64

  vote_lem :
      (r : Replica env) (v : Vote) (now : ℕ)
      → (handle_vote env r v now).0.current_view ≡ r.current_view
  unfolding handle_vote try_form_qc log
  vote_lem r v now = ground arith

  proposal_lem :
      (r : Replica env) (b : Block) (now : ℕ)
      → (validate_and_insert_proposal env r b now).0.current_view ≡ r.current_view
  unfolding validate_and_insert_proposal log
  proposal_lem r b now = ground arith

  certificate_lem :
      (r : Replica env) (qc : QuorumCert) (now : ℕ)
      → (apply_high_qc_from_network env r qc now).0.current_view ≡ r.current_view
  unfolding apply_high_qc_from_network log
  certificate_lem r qc now = ground arith

  propose_lem :
      (r : Replica env) (view : ℕ) (c : ConsensusCommand) (now : ℕ)
      → (propose_command env r view c now).0.current_view ≡ r.current_view
  unfolding propose_command
  propose_lem r view c now = ground arith

  membership_lem :
      (r : Replica env) (c : ConsensusCommand)
      → (apply_membership_command env r c).current_view ≡ r.current_view
  unfolding apply_membership_command add_public_key
  membership_lem r no_op = ground arith
  membership_lem r (client_tx t) = ground arith
  membership_lem r (join_validator id key) = ground arith
  membership_lem r (remove_validator id) = ground arith

  commit_lem :
      (r : Replica env) (b : Block) (now : ℕ)
      → (execute_and_commit env r b now).current_view ≡ r.current_view
  unfolding execute_and_commit log
  commit_lem r b now =
      let e = from_committed_block b (length r.committed_log) now in
      ground (arith, membership_lem (push_committed env (log env r e) b) b.command)

  pub advance_view-IsLow :
      (r : Replica env) (reason : ViewChangeReason) (now : ℕ)
      → IsLow (advance_view_with_reason env r reason now)
  unfolding advance_view_with_reason log
  advance_view-IsLow r reason now = omega arith

  pub step-IsLow : (r : Replica env) (e : Event) → IsLow r → IsLow (step env r e)
  unfolding step commit_all
  step-IsLow r (vote_arrives v now) h = omega (arith, vote_lem r v now)
  step-IsLow r (proposal_arrives b now) h = omega (arith, proposal_lem r b now)
  step-IsLow r (certificate_arrives qc now) h = omega (arith, certificate_lem r qc now)
  step-IsLow r (leads view c now) h = omega (arith, propose_lem r view c now)
  step-IsLow r (commits now) h =
      step_commits env IsLow r now
        (λ s e.
          commit_loop_inv env IsLow now (λ x b l. omega (arith, commit_lem x b now))
            (suc (length r.block_tree)) r s h e)
        h
  step-IsLow r (view_ends reason now) h = advance_view-IsLow r reason now
