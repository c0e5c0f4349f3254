-- ===== src/Replica/Pacemaker/Proposing.antt =====
-- What the pacemaker proposes, and when.
use persisthotstuff_rst.Base.{
  ℕ, ◌-◌, ◌≤◌, ◌≡◌, ◌↔◌, refl, true, none, some, List, [], ◌∷◌, ◌++◌, length, arith,
}
use persisthotstuff_rst.Types.{ConsensusCommand}
use persisthotstuff_rst.Replica.{Env, Replica, dynamic_leader_for_view, is_leader}
use persisthotstuff_rst.Replica.Proposals.{propose_command, new_block}
use persisthotstuff_rst.Replica.Commit.{find_committed_block}
use persisthotstuff_rst.Replica.Pacemaker.{pop, enqueue_command, should_propose_dummy, propose_next}

pop-append : (cs : List ConsensusCommand) (c : ConsensusCommand) → pop (cs ++ c ∷ []) ≡ some (c, cs)
unfolding pop
pop-append [] c = refl
pop-append (d ∷ cs) c = rw (pop-append cs c)

module _ (env : Env) where
  -- A dummy block is due exactly when dummies are enabled, this replica leads its current view, no
  -- command waits, the idle time has passed, and no block can be committed.
  pub should_propose_dummy_iff :
      (r : Replica env) (now : ℕ)
      → (should_propose_dummy env r now ≡ true) ↔ (
          (r.dummy_proposal_enabled ≡ true)
          × (dynamic_leader_for_view env r r.current_view ≡ r.config.id)
          × (length r.client_queue ≡ 0)
          × (r.dummy_timeout_ms ≤ now - r.last_proposed_time)
          × (find_committed_block env r ≡ none))
  unfolding should_propose_dummy
  should_propose_dummy_iff r now = (
    λ h. (ground arith, ground arith, ground arith, ground arith, ground arith),
    λ h. ground arith,
  )

  -- The newest waiting command is proposed first: right after a command was queued, the leader's
  -- next block carries that command, and the ones queued before it go on waiting.
  pub propose_next_newest :
      (r : Replica env) (view : ℕ) (cmd : ConsensusCommand) (now : ℕ)
      → is_leader env r view ≡ true
      → ((propose_next env (enqueue_command env r cmd) view now).1
          ≡ some (new_block env r view r.next_hash cmd))
        × ((propose_next env (enqueue_command env r cmd) view now).0.client_queue ≡ r.client_queue)
  unfolding propose_next enqueue_command propose_command new_block
  propose_next_newest r view cmd now l =
      let p = pop-append r.client_queue cmd in (ground (arith, p), ground (arith, p))
