-- ===== src/Machine.antt =====
-- A replica as a state machine: the handlers of src/replica.rs as events in any order, and the
-- invariants that hold after every sequence of them.
pub mod Executed
use persisthotstuff_rst.Base.{
  ℕ, zero, suc, ◌≡◌, sym, ◌∙◌, inl, inr, none, some, List, [], ◌∷◌, length, arith, Option-cases,
}
use mathlib.Core.Path.{subst}
use persisthotstuff_rst.Types.{Block, QuorumCert, Vote, ConsensusCommand}
use persisthotstuff_rst.Wal.Entry.{ViewChangeReason, from_committed_block}
use persisthotstuff_rst.Replica.{Env, Replica, log}
use persisthotstuff_rst.Replica.Votes.{handle_vote, apply_high_qc_from_network, try_form_qc}
use persisthotstuff_rst.Replica.Proposals.{validate_and_insert_proposal, propose_command}
use persisthotstuff_rst.Replica.Commit.{
  find_committed_block, execute_and_commit, push_committed, commit_loop, commit_all,
}
use persisthotstuff_rst.Replica.Commit.Membership.{
  ConfigIsSynced, apply_membership_command-ConfigIsSynced,
}
use persisthotstuff_rst.Replica.Commit.Termination.{
  LogIsValid, commit_all-LogIsValid, commit_loop_stop, commit_loop_next,
}
use persisthotstuff_rst.Replica.Pacemaker.{advance_view_with_reason}
use persisthotstuff_rst.Recovery.{Base}
use persisthotstuff_rst.Recovery.Durability.{IsDurable, AlwaysSerializes}
use persisthotstuff_rst.Recovery.Durability.Handlers.{
  apply_high_qc_from_network-IsDurable, validate_and_insert_proposal-IsDurable,
  advance_view_with_reason-IsDurable, propose_command-IsDurable, handle_vote-IsDurable,
}
use persisthotstuff_rst.Recovery.Durability.Commits.{commit_all-IsDurable}

-- What a replica is called with. The clock is part of the event.
pub data Event : Type 0 where
  vote_arrives : Vote → ℕ → Event
  proposal_arrives : Block → ℕ → Event
  certificate_arrives : QuorumCert → ℕ → Event
  leads : (view : ℕ) → ConsensusCommand → ℕ → Event
  commits : ℕ → Event
  view_ends : ViewChangeReason → ℕ → Event

module _ (env : Env) where
  -- `commit_all` always has a result: the other case does not arise.
  unfoldable pub step : Replica env → Event → Replica env
  step r (vote_arrives vote now) = (handle_vote env r vote now).0
  step r (proposal_arrives b now) = (validate_and_insert_proposal env r b now).0
  step r (certificate_arrives qc now) = (apply_high_qc_from_network env r qc now).0
  step r (leads view command now) = (propose_command env r view command now).0
  step r (commits now) = elim (commit_all env r now) [ none ↦ r | some s ↦ s ]
  step r (view_ends reason now) = advance_view_with_reason env r reason now

  unfoldable pub run : Replica env → List Event → Replica env
  unfolding step
  run r [] = r
  run r (e ∷ es) = run (step r e) es

  -- An invariant of every commit is one of `commit_all`.
  pub commit_loop_inv :
      (P : Replica env → Type 0) (now : ℕ)
      → ((r : Replica env) (b : Block) → P r → P (execute_and_commit env r b now))
      → (fuel : ℕ) (r s : Replica env) → P r
      → commit_loop env fuel r now ≡ some s
      → P s
  unfolding commit_loop
  commit_loop_inv P now keep zero r s p h = cc
  commit_loop_inv P now keep (suc fuel) r s p h = elim (Option-cases (find_committed_block env r)) [
    | inl n ↦ subst P (cc (commit_loop_stop env fuel r now n)) p
    | inr (b, f) ↦
        commit_loop_inv P now keep fuel (execute_and_commit env r b now) s (keep r b p)
          (sym (commit_loop_next env fuel r b now f) ∙ h)
  ]

  pub step_commits :
      (P : Replica env → Type 0) (r : Replica env) (now : ℕ)
      → ((s : Replica env) → commit_all env r now ≡ some s → P s)
      → P r
      → P (step r (commits now))
  unfolding step
  step_commits P r now f p = elim (Option-cases (commit_all env r now)) [
    | inl n ↦ rw (n, step) p
    | inr (s, e) ↦ rw (e, step) (f s e)
  ]

  pub step-IsDurable :
      (start : Base) (serializes : AlwaysSerializes env.wal_lib) (r : Replica env) (e : Event)
      → IsDurable env start r
      → IsDurable env start (step r e)
  unfolding step
  step-IsDurable start serializes r (vote_arrives v now) d =
      handle_vote-IsDurable env start serializes r v now d
  step-IsDurable start serializes r (proposal_arrives b now) d =
      validate_and_insert_proposal-IsDurable env start serializes r b now d
  step-IsDurable start serializes r (certificate_arrives qc now) d =
      apply_high_qc_from_network-IsDurable env start serializes r qc now d
  step-IsDurable start serializes r (leads view c now) d =
      propose_command-IsDurable env start r view c now d
  step-IsDurable start serializes r (commits now) d =
      step_commits (IsDurable env start) r now
        (λ s e. commit_all-IsDurable env start serializes r s now d e) d
  step-IsDurable start serializes r (view_ends reason now) d =
      advance_view_with_reason-IsDurable env start serializes r reason now d

  -- If every entry can be serialised, then after every sequence of events the log of a durable
  -- replica still replays, from the same state of a snapshot or from the empty one, to its
  -- committed blocks, its last committed hash, its high QC and its view.
  pub run-IsDurable :
      (start : Base) (serializes : AlwaysSerializes env.wal_lib) (r : Replica env) (es : List Event)
      → IsDurable env start r
      → IsDurable env start (run r es)
  unfolding run
  run-IsDurable start serializes r [] d = d
  run-IsDurable start serializes r (e ∷ es) d =
      run-IsDurable start serializes (step r e) es (step-IsDurable start serializes r e d)

  -- What the commit log and the configuration depend on, left alone by all but commits.
  pub record SameLog (r s : Replica env) : Type 0 where
    pub committed : s.committed_log ≡ r.committed_log
    pub up_to : s.committed_up_to ≡ r.committed_up_to
    pub active : s.active_validators ≡ r.active_validators
    pub config : s.config ≡ r.config

  handle_vote-SameLog :
      (r : Replica env) (v : Vote) (now : ℕ) → SameLog r (handle_vote env r v now).0
  unfolding handle_vote try_form_qc log
  handle_vote-SameLog r v now = ground arith

  proposal-SameLog :
      (r : Replica env) (b : Block) (now : ℕ)
      → SameLog r (validate_and_insert_proposal env r b now).0
  unfolding validate_and_insert_proposal log
  proposal-SameLog r b now = ground arith

  certificate-SameLog :
      (r : Replica env) (qc : QuorumCert) (now : ℕ)
      → SameLog r (apply_high_qc_from_network env r qc now).0
  unfolding apply_high_qc_from_network log
  certificate-SameLog r qc now = ground arith

  propose-SameLog :
      (r : Replica env) (view : ℕ) (c : ConsensusCommand) (now : ℕ)
      → SameLog r (propose_command env r view c now).0
  unfolding propose_command
  propose-SameLog r view c now = ground arith

  view-SameLog :
      (r : Replica env) (reason : ViewChangeReason) (now : ℕ)
      → SameLog r (advance_view_with_reason env r reason now)
  unfolding advance_view_with_reason log
  view-SameLog r reason now = ground arith

  pub record IsConsistent (r : Replica env) : Type 0 where
    pub log_valid : LogIsValid env r
    pub config_synced : ConfigIsSynced env r

  pub SameLog-IsConsistent : (r s : Replica env) → SameLog r s → IsConsistent r → IsConsistent s
  SameLog-IsConsistent r s m c = record {
    log_valid = record {
      distinct = rw (m.committed) c.log_valid.distinct;
      last = rw (m.up_to, m.committed) c.log_valid.last;
    };
    config_synced = record {
      ascending = rw (m.active) c.config_synced.ascending;
      n_is_active = rw (m.active, m.config) c.config_synced.n_is_active;
      f_is_threshold = rw (m.active, m.config) c.config_synced.f_is_threshold;
    };
  }

  commit-ConfigIsSynced :
      (r : Replica env) (b : Block) (now : ℕ)
      → ConfigIsSynced env r
      → ConfigIsSynced env (execute_and_commit env r b now)
  unfolding execute_and_commit log
  commit-ConfigIsSynced r b now c =
      let r2 =
        push_committed env (log env r (from_committed_block b (length r.committed_log) now)) b in
      ground (arith, apply_membership_command-ConfigIsSynced env r2 b.command (ground arith))

  pub step-IsConsistent : (r : Replica env) (e : Event) → IsConsistent r → IsConsistent (step r e)
  unfolding step commit_all
  step-IsConsistent r (vote_arrives v now) c =
      SameLog-IsConsistent r (handle_vote env r v now).0 (handle_vote-SameLog r v now) c
  step-IsConsistent r (proposal_arrives b now) c =
      SameLog-IsConsistent r (validate_and_insert_proposal env r b now).0 (proposal-SameLog r b now)
        c
  step-IsConsistent r (certificate_arrives qc now) c =
      SameLog-IsConsistent r (apply_high_qc_from_network env r qc now).0
        (certificate-SameLog r qc now) c
  step-IsConsistent r (leads view k now) c =
      SameLog-IsConsistent r (propose_command env r view k now).0 (propose-SameLog r view k now) c
  step-IsConsistent r (commits now) c =
      step_commits IsConsistent r now
        (λ s e. record {
          log_valid = commit_all-LogIsValid env r s now c.log_valid e;
          config_synced =
              commit_loop_inv (ConfigIsSynced env) now (λ x b y. commit-ConfigIsSynced x b now y)
                (suc (length r.block_tree)) r s c.config_synced e;
        })
        c
  step-IsConsistent r (view_ends reason now) c =
      SameLog-IsConsistent r (advance_view_with_reason env r reason now) (view-SameLog r reason now)
        c

  -- If it holds at first, then after every sequence of events, membership changes included: the
  -- committed log has no hash twice, `committed_up_to` names its last block, the validator ids
  -- are ascending, and n and f are those of the active set.
  pub run-IsConsistent :
      (r : Replica env) (es : List Event) → IsConsistent r → IsConsistent (run r es)
  unfolding run
  run-IsConsistent r [] c = c
  run-IsConsistent r (e ∷ es) c = run-IsConsistent (step r e) es (step-IsConsistent r e c)
