-- ===== src/Replica/Commit/Execution.antt =====
-- What the application of a replica has executed.
use persisthotstuff_rst.Base.{
  ℕ, ◌+◌, ◌-◌, ◌≡◌, sym, ap, ◌∙◌, some, List, [], ◌∷◌, ◌++◌, length, length-append, arith,
}
use persisthotstuff_rst.Types.{
  Block, ConsensusCommand, no_op, client_tx, join_validator, remove_validator,
}
use persisthotstuff_rst.Crypto.{add_public_key}
use persisthotstuff_rst.Wal.Entry.{from_committed_block}
use persisthotstuff_rst.App.{CommittedCommand}
use persisthotstuff_rst.Replica.{Env, Replica, log}
use persisthotstuff_rst.Replica.Commit.{
  execute_and_commit, execute, push_committed, apply_membership_command, on_commit,
}

-- The command that the application gets for the block at a place of the committed log.
abbrev pub command_at : Block → ℕ → CommittedCommand
command_at b i = record {
  block_hash = b.hash;
  view = b.view;
  epoch = b.epoch;
  proposer = b.proposer;
  command = b.command;
  commit_index = i;
}

module _ (env : Env) where
  -- An application that executes some blocks in order, the first of which is at place `i`.
  abbrev pub execute_all : env.app.State → ℕ → List Block → env.app.State
  execute_all a i [] = a
  execute_all a i (b ∷ bs) = execute_all (env.app.apply a (command_at b i)).0 (i + 1) bs

  execute_all-append :
      (a : env.app.State) (i : ℕ) (bs : List Block) (b : Block)
      → execute_all a i (bs ++ b ∷ [])
        ≡ (env.app.apply (execute_all a i bs) (command_at b (i + length bs))).0
  execute_all-append a i [] b = ap (λ k. (env.app.apply a (command_at b k)).0) (omega arith)
  execute_all-append a i (x ∷ bs) b =
      execute_all-append (env.app.apply a (command_at x i)).0 (i + 1) bs b
      ∙ ap (λ k. (env.app.apply (execute_all a i (x ∷ bs)) (command_at b k)).0) (omega arith)

  -- The application has executed exactly the committed blocks, each once and in order.
  abbrev pub HasExecuted : env.app.State → Replica env → Type 0
  HasExecuted a r = r.app ≡ some (execute_all a 0 r.committed_log)

  pub record SameExecution (r s : Replica env) : Type 0 where
    pub app : s.app ≡ r.app
    pub committed : s.committed_log ≡ r.committed_log

  membership-SameExecution :
      (r : Replica env) (c : ConsensusCommand) → SameExecution r (apply_membership_command env r c)
  unfolding apply_membership_command add_public_key
  membership-SameExecution r no_op = ground arith
  membership-SameExecution r (client_tx t) = ground arith
  membership-SameExecution r (join_validator id key) = ground arith
  membership-SameExecution r (remove_validator id) = ground arith

  execute_lem :
      (r : Replica env) (b : Block) (x : env.app.State)
      → r.app ≡ some x
      → ((execute env r b).app
          ≡ some (env.app.apply x (command_at b (length r.committed_log - 1))).0)
        × ((execute env r b).committed_log ≡ r.committed_log)
  unfolding execute
  execute_lem r b x e = ground (arith, e)

  pub execute_and_commit-HasExecuted :
      (a : env.app.State) (r : Replica env) (b : Block) (now : ℕ)
      → HasExecuted a r
      → HasExecuted a (execute_and_commit env r b now)
  unfolding execute_and_commit push_committed on_commit log
  execute_and_commit-HasExecuted a r b now h =
      let r1 = log env r (from_committed_block b (length r.committed_log) now) in
      let r2 = push_committed env r1 b in
      let r3 = apply_membership_command env r2 b.command in
      let m = membership-SameExecution r2 b.command in
      let x = execute_all a 0 r.committed_log in
      let e = execute_lem r3 b x (m.app ∙ h) in
      let same_log : (execute env r3 b).committed_log ≡ r.committed_log ++ b ∷ [] =
        e.1 ∙ m.committed in
      let place : length r3.committed_log - 1 ≡ 0 + length r.committed_log =
        omega (arith, ap length m.committed, length-append r.committed_log (b ∷ [])) in
      e.0
      ∙ ap (λ k. some (env.app.apply x (command_at b k)).0) place
      ∙ ap some (sym (execute_all-append a 0 r.committed_log b))
      ∙ ap (λ l. some (execute_all a 0 l)) (sym same_log)

  pub SameExecution-HasExecuted :
      (a : env.app.State) (r s : Replica env)
      → SameExecution r s
      → HasExecuted a r
      → HasExecuted a s
  SameExecution-HasExecuted a r s m h =
      m.app ∙ h ∙ ap (λ l. some (execute_all a 0 l)) (sym (m.committed))
