-- ===== src/Machine/Executed.antt =====
-- The application of a replica after any sequence of events, and after a restart.
use persisthotstuff_rst.Base.{ℕ, suc, ◌≡◌, List, [], ◌∷◌, length, arith}
use persisthotstuff_rst.Types.{Block, QuorumCert, Vote, ConsensusCommand}
use persisthotstuff_rst.Wal.Entry.{ViewChangeReason}
use persisthotstuff_rst.Replica.{Env, Replica, log}
use persisthotstuff_rst.Replica.Votes.{handle_vote, apply_high_qc_from_network, try_form_qc}
use persisthotstuff_rst.Replica.Proposals.{validate_and_insert_proposal, propose_command}
use persisthotstuff_rst.Replica.Commit.{commit_all}
use persisthotstuff_rst.Replica.Commit.Execution.{
  HasExecuted, SameExecution, SameExecution-HasExecuted, execute_and_commit-HasExecuted,
}
use persisthotstuff_rst.Replica.Pacemaker.{advance_view_with_reason}
use persisthotstuff_rst.Machine.{
  Event, step, run, vote_arrives, proposal_arrives, certificate_arrives, leads, commits, view_ends,
  commit_loop_inv, step_commits,
}

module _ (env : Env) where
  handle_vote-SameExecution :
      (r : Replica env) (v : Vote) (now : ℕ) → SameExecution env r (handle_vote env r v now).0
  unfolding handle_vote try_form_qc log
  handle_vote-SameExecution r v now = ground arith

  proposal-SameExecution :
      (r : Replica env) (b : Block) (now : ℕ)
      → SameExecution env r (validate_and_insert_proposal env r b now).0
  unfolding validate_and_insert_proposal log
  proposal-SameExecution r b now = ground arith

  certificate-SameExecution :
      (r : Replica env) (qc : QuorumCert) (now : ℕ)
      → SameExecution env r (apply_high_qc_from_network env r qc now).0
  unfolding apply_high_qc_from_network log
  certificate-SameExecution r qc now = ground arith

  propose-SameExecution :
      (r : Replica env) (view : ℕ) (c : ConsensusCommand) (now : ℕ)
      → SameExecution env r (propose_command env r view c now).0
  unfolding propose_command
  propose-SameExecution r view c now = ground arith

  view-SameExecution :
      (r : Replica env) (reason : ViewChangeReason) (now : ℕ)
      → SameExecution env r (advance_view_with_reason env r reason now)
  unfolding advance_view_with_reason log
  view-SameExecution r reason now = ground arith

  module _ (a : env.app.State) where
    step-HasExecuted :
        (r : Replica env) (e : Event) → HasExecuted env a r → HasExecuted env a (step env r e)
    unfolding step commit_all
    step-HasExecuted r (vote_arrives v now) h =
        SameExecution-HasExecuted env a r (handle_vote env r v now).0
          (handle_vote-SameExecution r v now) h
    step-HasExecuted r (proposal_arrives b now) h =
        SameExecution-HasExecuted env a r (validate_and_insert_proposal env r b now).0
          (proposal-SameExecution r b now) h
    step-HasExecuted r (certificate_arrives qc now) h =
        SameExecution-HasExecuted env a r (apply_high_qc_from_network env r qc now).0
          (certificate-SameExecution r qc now) h
    step-HasExecuted r (leads view c now) h =
        SameExecution-HasExecuted env a r (propose_command env r view c now).0
          (propose-SameExecution r view c now) h
    step-HasExecuted r (commits now) h =
        step_commits env (HasExecuted env a) r now
          (λ s e.
            commit_loop_inv env (HasExecuted env a) now
              (λ x b p. execute_and_commit-HasExecuted env a x b now p) (suc (length r.block_tree))
              r s h e)
          h
    step-HasExecuted r (view_ends reason now) h =
        SameExecution-HasExecuted env a r (advance_view_with_reason env r reason now)
          (view-SameExecution r reason now) h

    -- If the application of a replica has executed exactly its committed blocks from the state `a`,
    -- each once, in order and with its place, it has after every sequence of events.
    pub run-HasExecuted :
        (r : Replica env) (es : List Event) → HasExecuted env a r → HasExecuted env a (run env r es)
    unfolding run
    run-HasExecuted r [] h = h
    run-HasExecuted r (e ∷ es) h = run-HasExecuted (step env r e) es (step-HasExecuted r e h)

    -- Two replicas whose applications started in the same state and have executed their committed
    -- blocks: whatever different events they see, if their committed logs are the same afterwards,
    -- so are the states of their applications.
    pub run_same_state :
        (r s : Replica env) (es fs : List Event)
        → HasExecuted env a r
        → HasExecuted env a s
        → (run env r es).committed_log ≡ (run env s fs).committed_log
        → (run env r es).app ≡ (run env s fs).app
    run_same_state r s es fs h k e = cc (run-HasExecuted r es h, run-HasExecuted s fs k, e)
