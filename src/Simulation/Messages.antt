-- ===== src/Simulation/Messages.antt =====
-- src/simulation.rs: what a replica of the cluster does with a message in a round. Messages are for
-- replicas of the cluster; one that is not would be a panic of the source, and is passed over here.
use persisthotstuff_rst.Base.{
  ℕ, Bool, Option, none, some, List, [], ◌∷◌, get_elem?, set, ◌||◌, if◌then◌else◌,
}
use persisthotstuff_rst.BTree.{contains}
use persisthotstuff_rst.Types.{Block, QuorumCert, Vote}
use persisthotstuff_rst.Crypto.{sign}
use persisthotstuff_rst.Replica.{Env, Replica}
use persisthotstuff_rst.Replica.Votes.{handle_vote, apply_high_qc_from_network}
use persisthotstuff_rst.Replica.Proposals.{validate_and_insert_proposal}
use persisthotstuff_rst.Network.{
  Message, proposal, vote, quorum_cert_broadcast, new_view, send_vote,
}
use persisthotstuff_rst.Simulation.{Simulation, mark_responded}

module _ (env : Env) where
  unfoldable pub put_replica : Simulation env → ℕ → Replica env → Simulation env
  put_replica s id r = record s { replicas = set s.replicas id r }

  -- `crashed.contains(&id) || unresponsive.contains(&id)`, of the sets at the start of the round.
  unfoldable pub is_out : Simulation env → ℕ → Bool
  is_out s id = contains id s.crashed_replicas || contains id s.unresponsive_replicas

  -- The vote of a replica that accepted a block.
  unfoldable pub vote_for : Replica env → Block → Vote
  vote_for r b = record {
    block_hash = b.hash;
    view = b.view;
    epoch = b.epoch;
    signature = sign env.crypto r.keystore b.hash b.view b.epoch;
  }

  unfoldable pub deliver_proposal : (ℕ → Bool) → ℕ → Simulation env → Message → Simulation env
  unfolding put_replica vote_for mark_responded
  deliver_proposal out now s (proposal from to b) =
      if out to then s else elim (get_elem? s.replicas to) [
        | none ↦ s
        | some r ↦
            let checked = validate_and_insert_proposal env r b now in
            let s1 = put_replica s to checked.0 in
            if checked.1
            then (let s2 = mark_responded env s1 to in
                record s2 { network = send_vote s2.network to from (vote_for checked.0 b) })
            else s1
      ]
  deliver_proposal out now s (vote from to v) = s
  deliver_proposal out now s (quorum_cert_broadcast from to qc h) = s
  deliver_proposal out now s (new_view from to view qc) = s

  unfoldable pub deliver_proposals : (ℕ → Bool) → ℕ → Simulation env → List Message → Simulation env
  unfolding deliver_proposal
  deliver_proposals out now s [] = s
  deliver_proposals out now s (m ∷ ms) = deliver_proposals out now (deliver_proposal out now s m) ms

  -- The second result is `qc_formed`.
  unfoldable pub deliver_vote :
      (ℕ → Bool)
      → ℕ
      → Simulation env × Option QuorumCert
      → Message
      → Simulation env × Option QuorumCert
  unfolding put_replica mark_responded
  deliver_vote out now (s, qc_formed) (vote from to v) =
      if out to then (s, qc_formed) else elim (get_elem? s.replicas to) [
        | none ↦ (s, qc_formed)
        | some r ↦
            let handled = handle_vote env r v now in
            (
              mark_responded env (put_replica s to handled.0) to,
              elim handled.1 [ none ↦ qc_formed | some qc ↦ some qc ],
            )
      ]
  deliver_vote out now acc (proposal from to b) = acc
  deliver_vote out now acc (quorum_cert_broadcast from to qc h) = acc
  deliver_vote out now acc (new_view from to view qc) = acc

  unfoldable pub deliver_votes :
      (ℕ → Bool)
      → ℕ
      → Simulation env × Option QuorumCert
      → List Message
      → Simulation env × Option QuorumCert
  unfolding deliver_vote
  deliver_votes out now acc [] = acc
  deliver_votes out now acc (m ∷ ms) = deliver_votes out now (deliver_vote out now acc m) ms

  -- `run_one_round` marks a replica only if its high QC advanced; the pacemaker's round marks it
  -- always (`mark_all`).
  unfoldable pub deliver_qc : Bool → (ℕ → Bool) → ℕ → Simulation env → Message → Simulation env
  unfolding put_replica mark_responded
  deliver_qc mark_all out now s (quorum_cert_broadcast from to qc h) =
      if out to then s else elim (get_elem? s.replicas to) [
        | none ↦ s
        | some r ↦
            let applied = apply_high_qc_from_network env r qc now in
            let s1 = put_replica s to applied.0 in
            if mark_all || applied.1 then mark_responded env s1 to else s1
      ]
  deliver_qc mark_all out now s (proposal from to b) = s
  deliver_qc mark_all out now s (vote from to v) = s
  deliver_qc mark_all out now s (new_view from to view qc) = s

  unfoldable pub deliver_qcs :
      Bool → (ℕ → Bool) → ℕ → Simulation env → List Message → Simulation env
  unfolding deliver_qc
  deliver_qcs mark_all out now s [] = s
  deliver_qcs mark_all out now s (m ∷ ms) =
      deliver_qcs mark_all out now (deliver_qc mark_all out now s m) ms
