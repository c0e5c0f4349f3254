-- ===== src/Simulation/Held/Delivery.antt =====
-- The deliveries, commits, view changes and crashes of a round keep what they should of the cluster.
use persisthotstuff_rst.Base.{
  ℕ, inl, inr, Bool, Option, List, [], ◌∷◌, get_elem?, arith, Option-cases,
}
use persisthotstuff_rst.Types.{QuorumCert}
use persisthotstuff_rst.BTree.{BTreeSet}
use persisthotstuff_rst.Crypto.{KeyStore}
use persisthotstuff_rst.Wal.Entry.{ViewChangeReason}
use persisthotstuff_rst.Replica.{Env}
use persisthotstuff_rst.Network.{Message, proposal, vote, quorum_cert_broadcast, new_view}
use persisthotstuff_rst.Machine.{
  step, vote_arrives, proposal_arrives, certificate_arrives, view_ends,
}
use persisthotstuff_rst.Simulation.{Simulation}
use persisthotstuff_rst.Simulation.Round.{advance_at, advance_unmarked_at}
use persisthotstuff_rst.Simulation.Messages.{
  deliver_proposal, deliver_proposals, deliver_vote, deliver_votes, deliver_qc, deliver_qcs,
}
use persisthotstuff_rst.Simulation.Held.{Held, Keeps, Stands, handled-Stands}

module _ (env : Env) (P : Held env) (n : ℕ) (keys : List (KeyStore env.crypto))
    (keeps : Keeps env P) (k : ℕ) (crashed : BTreeSet) where
  deliver_proposal-Stands :
      (out : ℕ → Bool) (now : ℕ) (s : Simulation env) (m : Message)
      → Stands env P k crashed n keys s
      → Stands env P k crashed n keys (deliver_proposal env out now s m)
  unfolding deliver_proposal step
  deliver_proposal-Stands out now s (proposal from to b) h =
      elim (Option-cases (get_elem? s.replicas to)) [
        | inl none_there ↦ ground arith
        | inr (r, g) ↦
            ground (
              arith,
              handled-Stands env P n keys keeps k crashed s to r (proposal_arrives b now) g h,
            )
      ]
  deliver_proposal-Stands out now s (vote from to v) h = h
  deliver_proposal-Stands out now s (quorum_cert_broadcast from to qc hash) h = h
  deliver_proposal-Stands out now s (new_view from to view qc) h = h

  pub deliver_proposals-Stands :
      (out : ℕ → Bool) (now : ℕ) (s : Simulation env) (ms : List Message)
      → Stands env P k crashed n keys s
      → Stands env P k crashed n keys (deliver_proposals env out now s ms)
  unfolding deliver_proposals
  deliver_proposals-Stands out now s [] h = h
  deliver_proposals-Stands out now s (m ∷ ms) h =
      deliver_proposals-Stands out now (deliver_proposal env out now s m) ms
        (deliver_proposal-Stands out now s m h)

  deliver_vote-Stands :
      (out : ℕ → Bool) (now : ℕ) (s : Simulation env × Option QuorumCert) (m : Message)
      → Stands env P k crashed n keys s.0
      → Stands env P k crashed n keys (deliver_vote env out now s m).0
  unfolding deliver_vote step
  deliver_vote-Stands out now (s, qc) (vote from to v) h =
      elim (Option-cases (get_elem? s.replicas to)) [
        | inl none_there ↦ ground arith
        | inr (r, g) ↦
            ground
              (arith, handled-Stands env P n keys keeps k crashed s to r (vote_arrives v now) g h)
      ]
  deliver_vote-Stands out now s (proposal from to b) h = h
  deliver_vote-Stands out now s (quorum_cert_broadcast from to qc hash) h = h
  deliver_vote-Stands out now s (new_view from to view qc) h = h

  pub deliver_votes-Stands :
      (out : ℕ → Bool) (now : ℕ) (s : Simulation env × Option QuorumCert) (ms : List Message)
      → Stands env P k crashed n keys s.0
      → Stands env P k crashed n keys (deliver_votes env out now s ms).0
  unfolding deliver_votes
  deliver_votes-Stands out now s [] h = h
  deliver_votes-Stands out now s (m ∷ ms) h =
      deliver_votes-Stands out now (deliver_vote env out now s m) ms
        (deliver_vote-Stands out now s m h)

  deliver_qc-Stands :
      (mark_all : Bool) (out : ℕ → Bool) (now : ℕ) (s : Simulation env) (m : Message)
      → Stands env P k crashed n keys s
      → Stands env P k crashed n keys (deliver_qc env mark_all out now s m)
  unfolding deliver_qc step
  deliver_qc-Stands mark_all out now s (quorum_cert_broadcast from to qc hash) h =
      elim (Option-cases (get_elem? s.replicas to)) [
        | inl none_there ↦ ground arith
        | inr (r, g) ↦ ground (
          arith,
          handled-Stands env P n keys keeps k crashed s to r (certificate_arrives qc now) g h,
        )
      ]
  deliver_qc-Stands mark_all out now s (proposal from to b) h = h
  deliver_qc-Stands mark_all out now s (vote from to v) h = h
  deliver_qc-Stands mark_all out now s (new_view from to view qc) h = h

  pub deliver_qcs-Stands :
      (mark_all : Bool) (out : ℕ → Bool) (now : ℕ) (s : Simulation env) (ms : List Message)
      → Stands env P k crashed n keys s
      → Stands env P k crashed n keys (deliver_qcs env mark_all out now s ms)
  unfolding deliver_qcs
  deliver_qcs-Stands mark_all out now s [] h = h
  deliver_qcs-Stands mark_all out now s (m ∷ ms) h =
      deliver_qcs-Stands mark_all out now (deliver_qc env mark_all out now s m) ms
        (deliver_qc-Stands mark_all out now s m h)

  pub advance_at-Stands :
      (reason : ViewChangeReason) (now : ℕ) (s : Simulation env) (id : ℕ)
      → Stands env P k crashed n keys s
      → Stands env P k crashed n keys (advance_at env reason now s id)
  unfolding advance_at step
  advance_at-Stands reason now s id h = elim (Option-cases (get_elem? s.replicas id)) [
    | inl none_there ↦ ground arith
    | inr (r, g) ↦
        ground
          (arith, handled-Stands env P n keys keeps k crashed s id r (view_ends reason now) g h)
  ]

  pub advance_unmarked_at-Stands :
      (reason : ViewChangeReason) (now : ℕ) (s : Simulation env) (id : ℕ)
      → Stands env P k crashed n keys s
      → Stands env P k crashed n keys (advance_unmarked_at env reason now s id)
  unfolding advance_unmarked_at step
  advance_unmarked_at-Stands reason now s id h = elim (Option-cases (get_elem? s.replicas id)) [
    | inl none_there ↦ ground arith
    | inr (r, g) ↦
        ground
          (arith, handled-Stands env P n keys keeps k crashed s id r (view_ends reason now) g h)
  ]
