-- ===== src/Lifetime/Kept.antt =====
-- What the files of a replica keep of it, whatever happens.
use persisthotstuff_rst.Base.{
  ℕ, suc, ◌≡◌, refl, sym, ap, ◌∙◌, none, some, Option, List, [], ◌∷◌, ◌++◌, length, arith,
}
use mathlib.Core.List.{append-nil, append_assoc}
use mathlib.Core.Option
use persisthotstuff_rst.Types.{
  Block, QuorumCert, Vote, ConsensusCommand, no_op, client_tx, join_validator, remove_validator,
}
use persisthotstuff_rst.Crypto.{add_public_key}
use persisthotstuff_rst.Wal.{Wal, append, write_all}
use persisthotstuff_rst.Wal.Entry.{LogEntry, ViewChangeReason, from_committed_block}
use persisthotstuff_rst.Replica.{Env, Replica, log, record_entry}
use persisthotstuff_rst.Replica.Votes.{handle_vote, apply_high_qc_from_network, try_form_qc}
use persisthotstuff_rst.Replica.Proposals.{validate_and_insert_proposal, propose_command}
use persisthotstuff_rst.Replica.Commit.{
  execute_and_commit, push_committed, apply_membership_command, commit_all,
}
use persisthotstuff_rst.Replica.Pacemaker.{advance_view_with_reason}
use persisthotstuff_rst.Machine.{
  Event, step, vote_arrives, proposal_arrives, certificate_arrives, leads, commits, view_ends,
  commit_loop_inv, step_commits,
}

module _ (env : Env) where
  abbrev pub log_id : Option Wal → Option ℕ
  log_id = Option.map (λ (w : Wal). w.replica_id)

  record_entry_id : (w : Option Wal) (e : LogEntry) → log_id (record_entry env w e) ≡ log_id w
  unfolding record_entry append write_all
  record_entry_id none e = refl
  record_entry_id (some w) e = ground arith

  -- What a handler does to the files' names and to the committed blocks: a log entry goes to the same
  -- log, the next snapshot number stays, and blocks are added at the end.
  pub record Continues (r s : Replica env) : Type 0 where
    pub log_kept : log_id s.wal ≡ log_id r.wal
    pub counter : s.snapshot_counter ≡ r.snapshot_counter
    pub own_id : s.config.id ≡ r.config.id
    pub since : List Block
    pub grown : s.committed_log ≡ r.committed_log ++ since

  Continues-refl : (r : Replica env) → Continues r r
  Continues-refl r = record {
    log_kept = refl;
    counter = refl;
    own_id = refl;
    since = [];
    grown = sym (append-nil r.committed_log);
  }

  Continues-trans : (r s t : Replica env) → Continues r s → Continues s t → Continues r t
  Continues-trans r s t c d = record {
    log_kept = d.log_kept ∙ c.log_kept;
    counter = d.counter ∙ c.counter;
    own_id = d.own_id ∙ c.own_id;
    since = c.since ++ d.since;
    grown = d.grown ∙ ap (λ l. l ++ d.since) c.grown ∙ append_assoc r.committed_log c.since d.since;
  }

  -- A handler that commits nothing.
  record SameFiles (r s : Replica env) : Type 0 where
    log_kept : log_id s.wal ≡ log_id r.wal
    counter : s.snapshot_counter ≡ r.snapshot_counter
    own_id : s.config.id ≡ r.config.id
    committed : s.committed_log ≡ r.committed_log

  SameFiles-Continues : (r s : Replica env) → SameFiles r s → Continues r s
  SameFiles-Continues r s m = record {
    log_kept = m.log_kept;
    counter = m.counter;
    own_id = m.own_id;
    since = [];
    grown = m.committed ∙ sym (append-nil r.committed_log);
  }

  handle_vote-SameFiles :
      (r : Replica env) (v : Vote) (now : ℕ) → SameFiles r (handle_vote env r v now).0
  unfolding handle_vote try_form_qc log
  handle_vote-SameFiles r v now = grind (arith, record_entry_id)

  proposal-SameFiles :
      (r : Replica env) (b : Block) (now : ℕ)
      → SameFiles r (validate_and_insert_proposal env r b now).0
  unfolding validate_and_insert_proposal log
  proposal-SameFiles r b now = grind (arith, record_entry_id)

  certificate-SameFiles :
      (r : Replica env) (qc : QuorumCert) (now : ℕ)
      → SameFiles r (apply_high_qc_from_network env r qc now).0
  unfolding apply_high_qc_from_network log
  certificate-SameFiles r qc now = grind (arith, record_entry_id)

  propose-SameFiles :
      (r : Replica env) (view : ℕ) (c : ConsensusCommand) (now : ℕ)
      → SameFiles r (propose_command env r view c now).0
  unfolding propose_command
  propose-SameFiles r view c now = ground arith

  view-SameFiles :
      (r : Replica env) (reason : ViewChangeReason) (now : ℕ)
      → SameFiles r (advance_view_with_reason env r reason now)
  unfolding advance_view_with_reason log
  view-SameFiles r reason now = grind (arith, record_entry_id)

  membership-SameFiles :
      (r : Replica env) (c : ConsensusCommand) → SameFiles r (apply_membership_command env r c)
  unfolding apply_membership_command add_public_key
  membership-SameFiles r no_op = ground arith
  membership-SameFiles r (client_tx t) = ground arith
  membership-SameFiles r (join_validator id key) = ground arith
  membership-SameFiles r (remove_validator id) = ground arith

  commit-Continues :
      (r : Replica env) (b : Block) (now : ℕ) → Continues r (execute_and_commit env r b now)
  unfolding execute_and_commit log
  commit-Continues r b now =
      let e = from_committed_block b (length r.committed_log) now in
      let m = membership-SameFiles (push_committed env (log env r e) b) b.command in
      let i = record_entry_id r.wal e in
      record {
        log_kept = ground arith;
        counter = ground arith;
        own_id = ground arith;
        since = b ∷ [];
        grown = ground arith;
      }

  pub step-Continues : (r : Replica env) (e : Event) → Continues r (step env r e)
  unfolding step commit_all
  step-Continues r (vote_arrives v now) =
      SameFiles-Continues r (handle_vote env r v now).0 (handle_vote-SameFiles r v now)
  step-Continues r (proposal_arrives b now) =
      SameFiles-Continues r (validate_and_insert_proposal env r b now).0
        (proposal-SameFiles r b now)
  step-Continues r (certificate_arrives qc now) =
      SameFiles-Continues r (apply_high_qc_from_network env r qc now).0
        (certificate-SameFiles r qc now)
  step-Continues r (leads view k now) =
      SameFiles-Continues r (propose_command env r view k now).0 (propose-SameFiles r view k now)
  step-Continues r (commits now) =
      step_commits env (Continues r) r now
        (λ s e.
          commit_loop_inv env (Continues r) now
            (λ x b c.
              Continues-trans r x (execute_and_commit env x b now) c (commit-Continues x b now))
            (suc (length r.block_tree)) r s (Continues-refl r) e)
        (Continues-refl r)
  step-Continues r (view_ends reason now) =
      SameFiles-Continues r (advance_view_with_reason env r reason now)
        (view-SameFiles r reason now)
