-- ===== src/Recovery/Durability/Handlers.antt =====
-- The handlers of votes, proposals, certificates and views, and the log entries that they leave.
use persisthotstuff_rst.Base.{
  ℕ, ◌≡◌, refl, sym, ap, ◌∙◌, map, inl, inr, some, List, [], ◌∷◌, ◌++◌, length, leb, if◌then◌else◌,
  arith, Bool-cases, Option-cases, max,
}
use mathlib.Core.Path.{subst}
use mathlib.Core.Option
use persisthotstuff_rst.BTree
use persisthotstuff_rst.Types.{
  Hash, Block, QuorumCert, Vote, Signature, ConsensusCommand, saturating_suc,
}
use persisthotstuff_rst.Wal.Entry.{
  LogEntry, ViewChangeReason, qc_formed, high_qc_updated, view_changed, from_block,
}
use persisthotstuff_rst.Replica.{Env, Replica, log, record_entry, dynamic_quorum_size}
use persisthotstuff_rst.Replica.Votes.{
  handle_vote, is_rejected, pooled, has_signed, try_form_qc, apply_high_qc_from_network,
  should_update,
}
use persisthotstuff_rst.Replica.Proposals.{validate_and_insert_proposal, propose_command}
use persisthotstuff_rst.Replica.Pacemaker.{advance_view_with_reason}
use persisthotstuff_rst.Recovery.{Base, ok, unsigned_qc, dominated, replay_entry}
use persisthotstuff_rst.Recovery.Durability.{
  unsigned, commit_stub, AlwaysSerializes, inserted, Mirrors, Logged, IsDurable,
  record_entry-Logged, unlogged-IsDurable, logged-IsDurable,
}

module _ (env : Env) (start : Base) where
  -- A certificate from the network.
  pub apply_high_qc_from_network-IsDurable :
      (serializes : AlwaysSerializes env.wal_lib) (r : Replica env) (qc : QuorumCert) (now : ℕ)
      → IsDurable env start r
      → IsDurable env start (apply_high_qc_from_network env r qc now).0
  unfolding apply_high_qc_from_network log replay_entry
  apply_high_qc_from_network-IsDurable serializes r qc now d =
      elim (Bool-cases (should_update r.high_qc qc)) [
        | inr n ↦
            subst (IsDurable env start) {x = r} {y = (apply_high_qc_from_network env r qc now).0}
              (ground arith) d
        | inl t ↦
            logged-IsDurable env start serializes r (apply_high_qc_from_network env r qc now).0
              (high_qc_updated qc.block_hash qc.view qc.epoch now) d
              (record (d.base) {
                high_qc = some (unsigned qc);
                config_epoch = max d.base.config_epoch qc.epoch;
              })
              refl (ground arith)
              (record {
                committed = ground (arith, d.mirrors.committed);
                up_to = ground (arith, d.mirrors.up_to);
                certificate = ground arith;
                view = ground (arith, d.mirrors.view);
              })
      ]

  -- A received proposal.
  pub validate_and_insert_proposal-IsDurable :
      (serializes : AlwaysSerializes env.wal_lib) (r : Replica env) (b : Block) (now : ℕ)
      → IsDurable env start r
      → IsDurable env start (validate_and_insert_proposal env r b now).0
  unfolding validate_and_insert_proposal log
  validate_and_insert_proposal-IsDurable serializes r b now d =
      elim (Bool-cases (validate_and_insert_proposal env r b now).1) [
        | inr n ↦
            subst (IsDurable env start) {x = r} {y = (validate_and_insert_proposal env r b now).0}
              (ground arith) d
        | inl t ↦
            let k = inserted d.base b now in
            logged-IsDurable env start serializes r (validate_and_insert_proposal env r b now).0
              (from_block b now) d k.0 k.1 (ground arith)
              (record {
                committed = ap (map commit_stub) k.2.committed ∙ d.mirrors.committed ∙ ground arith;
                up_to = k.2.up_to ∙ d.mirrors.up_to ∙ ground arith;
                certificate =
                    ap (Option.map unsigned) k.2.certificate ∙ d.mirrors.certificate ∙ ground arith;
                view = k.2.view ∙ d.mirrors.view ∙ ground arith;
              })
      ]

  -- A timeout, or any other advance of the view.
  pub advance_view_with_reason-IsDurable :
      (serializes : AlwaysSerializes env.wal_lib) (r : Replica env) (reason : ViewChangeReason)
      (now : ℕ)
      → IsDurable env start r
      → IsDurable env start (advance_view_with_reason env r reason now)
  unfolding advance_view_with_reason log replay_entry
  advance_view_with_reason-IsDurable serializes r reason now d =
      logged-IsDurable env start serializes r (advance_view_with_reason env r reason now)
        (view_changed r.current_view (saturating_suc r.current_view) reason now) d
        (record (d.base) { current_view = saturating_suc r.current_view }) refl refl
        (record {
          committed = d.mirrors.committed;
          up_to = d.mirrors.up_to;
          certificate = d.mirrors.certificate;
          view = refl;
        })

  -- The leader's own proposal.
  pub propose_command-IsDurable :
      (r : Replica env) (view : ℕ) (command : ConsensusCommand) (now : ℕ)
      → IsDurable env start r
      → IsDurable env start (propose_command env r view command now).0
  unfolding propose_command
  propose_command-IsDurable r view command now d =
      unlogged-IsDurable env start r (propose_command env r view command now).0 (ground arith)
        (ground arith) d

  twice_logged-IsDurable :
      (serializes : AlwaysSerializes env.wal_lib) (r s : Replica env) (e e' : LogEntry)
      → (d : IsDurable env start r) → (t t' : Base) → replay_entry d.base e ≡ ok t
      → replay_entry t e' ≡ ok t'
      → s.wal ≡ record_entry env (record_entry env r.wal e) e'
      → Mirrors env start s t'
      → IsDurable env start s
  twice_logged-IsDurable serializes r s e e' d t t' k k' w m = record {
    base = t';
    logged =
        subst (λ x. Logged env start x t') (sym w)
          (record_entry-Logged env start serializes (record_entry env r.wal e) t t' e'
            (record_entry-Logged env start serializes r.wal d.base t e d.logged k) k');
    mirrors = m;
  }

  try_form_qc-IsDurable :
      (serializes : AlwaysSerializes env.wal_lib) (r : Replica env) (h : Hash) (view epoch now : ℕ)
      → IsDurable env start r
      → IsDurable env start (try_form_qc env r h view epoch now).0
  unfolding try_form_qc log replay_entry
  try_form_qc-IsDurable serializes r h view epoch now d =
      elim (Option-cases (BTree.get h r.vote_pool)) [
        | inl n ↦
            subst (IsDurable env start) {x = r} {y = (try_form_qc env r h view epoch now).0}
              (ground arith) d
        | inr (sigs, e) ↦ elim (Bool-cases (leb (dynamic_quorum_size env r) (length sigs))) [
          | inr n ↦
              subst (IsDurable env start) {x = r} {y = (try_form_qc env r h view epoch now).0}
                (ground arith) d
          | inl t ↦
              twice_logged-IsDurable serializes r (try_form_qc env r h view epoch now).0
                (qc_formed h view epoch (length sigs) now) (high_qc_updated h view epoch now) d
                (record (d.base) {
                  high_qc =
                      if dominated d.base.high_qc view
                      then some (unsigned_qc h view epoch)
                      else d.base.high_qc;
                  config_epoch = max d.base.config_epoch epoch;
                })
                (record (d.base) {
                  high_qc = some (unsigned_qc h view epoch);
                  config_epoch = max (max d.base.config_epoch epoch) epoch;
                })
                refl refl (ground arith)
                (record {
                  committed = d.mirrors.committed ∙ ground arith;
                  up_to = d.mirrors.up_to ∙ ground arith;
                  certificate = ground arith;
                  view = d.mirrors.view ∙ ground arith;
                })
        ]
      ]

  with_pool-IsDurable :
      (r : Replica env) (pool : BTree.BTreeMap (List Signature))
      → IsDurable env start r
      → IsDurable env start (record r { vote_pool = pool })
  with_pool-IsDurable r pool d =
      unlogged-IsDurable env start r (record r { vote_pool = pool })
        (record { committed = refl; up_to = refl; certificate = refl; view = refl }) refl d

  -- A vote, accepted or not.
  pub handle_vote-IsDurable :
      (serializes : AlwaysSerializes env.wal_lib) (r : Replica env) (vote : Vote) (now : ℕ)
      → IsDurable env start r
      → IsDurable env start (handle_vote env r vote now).0
  unfolding handle_vote
  handle_vote-IsDurable serializes r vote now d = elim (Bool-cases (is_rejected env r vote)) [
    | inl t ↦ rw (t, handle_vote) d
    | inr n ↦
        let h = vote.block_hash in
        let sigs = pooled r.vote_pool h in
        rw (n, handle_vote)
          (elim (Bool-cases (has_signed vote.signature.signer sigs)) [
            | inl t ↦ rw t (with_pool-IsDurable r (BTree.insert h sigs r.vote_pool) d)
            | inr f ↦ rw f (
                let pool = BTree.insert h (sigs ++ vote.signature ∷ []) r.vote_pool in
                try_form_qc-IsDurable serializes (record r { vote_pool = pool }) h vote.view
                  vote.epoch now (with_pool-IsDurable r pool d))
          ])
  ]
