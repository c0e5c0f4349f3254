-- ===== src/Simulation/Delivered.antt =====
-- The deliveries, commits, view changes and crashes of a round, as moves of the replicas.
use persisthotstuff_rst.Base.{
  ℕ, zero, suc, ◌+◌, inl, inr, Bool, false, Option, List, [], ◌∷◌, get_elem?, arith, ◌&&◌,
  Bool-cases, Option-cases,
}
use persisthotstuff_rst.Types.{QuorumCert}
use persisthotstuff_rst.Wal.Entry.{ViewChangeReason}
use persisthotstuff_rst.Replica.{Env, Replica}
use persisthotstuff_rst.Persistence.{take_snapshot, should_snapshot}
use persisthotstuff_rst.Network.{Message, proposal, vote, quorum_cert_broadcast, new_view}
use persisthotstuff_rst.Machine.{
  step, vote_arrives, proposal_arrives, certificate_arrives, commits, view_ends,
}
use persisthotstuff_rst.Simulation.{Simulation}
use persisthotstuff_rst.Simulation.Start.{fresh_replica}
use persisthotstuff_rst.Simulation.Crash.{
  crash_replica, timed_out, crash_each, process_timeout_crashes,
}
use persisthotstuff_rst.Simulation.Round.{for_each_live, commit_at, advance_at, advance_unmarked_at}
use persisthotstuff_rst.Simulation.Messages.{
  deliver_proposal, deliver_proposals, deliver_vote, deliver_votes, deliver_qc, deliver_qcs,
}
use persisthotstuff_rst.Simulation.Reached.{
  Reached, handles, snapshots, crashes, set-Reached, handled-Reached,
}

module _ (env : Env) (rs : List (Replica env)) where
  deliver_proposal-Reached :
      (out : ℕ → Bool) (now : ℕ) (s : Simulation env) (m : Message)
      → Reached env rs s.replicas
      → Reached env rs (deliver_proposal env out now s m).replicas
  unfolding deliver_proposal step
  deliver_proposal-Reached out now s (proposal from to b) h =
      elim (Option-cases (get_elem? s.replicas to)) [
        | inl n ↦ ground arith
        | inr (r, g) ↦
            ground (arith, handled-Reached env rs s.replicas to r (proposal_arrives b now) g h)
      ]
  deliver_proposal-Reached out now s (vote from to v) h = h
  deliver_proposal-Reached out now s (quorum_cert_broadcast from to qc hash) h = h
  deliver_proposal-Reached out now s (new_view from to view qc) h = h

  pub deliver_proposals-Reached :
      (out : ℕ → Bool) (now : ℕ) (s : Simulation env) (ms : List Message)
      → Reached env rs s.replicas
      → Reached env rs (deliver_proposals env out now s ms).replicas
  unfolding deliver_proposals
  deliver_proposals-Reached out now s [] h = h
  deliver_proposals-Reached out now s (m ∷ ms) h =
      deliver_proposals-Reached out now (deliver_proposal env out now s m) ms
        (deliver_proposal-Reached out now s m h)

  deliver_vote-Reached :
      (out : ℕ → Bool) (now : ℕ) (s : Simulation env × Option QuorumCert) (m : Message)
      → Reached env rs s.0.replicas
      → Reached env rs (deliver_vote env out now s m).0.replicas
  unfolding deliver_vote step
  deliver_vote-Reached out now (s, qc) (vote from to v) h =
      elim (Option-cases (get_elem? s.replicas to)) [
        | inl n ↦ ground arith
        | inr (r, g) ↦
            ground (arith, handled-Reached env rs s.replicas to r (vote_arrives v now) g h)
      ]
  deliver_vote-Reached out now s (proposal from to b) h = h
  deliver_vote-Reached out now s (quorum_cert_broadcast from to qc hash) h = h
  deliver_vote-Reached out now s (new_view from to view qc) h = h

  pub deliver_votes-Reached :
      (out : ℕ → Bool) (now : ℕ) (s : Simulation env × Option QuorumCert) (ms : List Message)
      → Reached env rs s.0.replicas
      → Reached env rs (deliver_votes env out now s ms).0.replicas
  unfolding deliver_votes
  deliver_votes-Reached out now s [] h = h
  deliver_votes-Reached out now s (m ∷ ms) h =
      deliver_votes-Reached out now (deliver_vote env out now s m) ms
        (deliver_vote-Reached out now s m h)

  deliver_qc-Reached :
      (mark_all : Bool) (out : ℕ → Bool) (now : ℕ) (s : Simulation env) (m : Message)
      → Reached env rs s.replicas
      → Reached env rs (deliver_qc env mark_all out now s m).replicas
  unfolding deliver_qc step
  deliver_qc-Reached mark_all out now s (quorum_cert_broadcast from to qc hash) h =
      elim (Option-cases (get_elem? s.replicas to)) [
        | inl n ↦ ground arith
        | inr (r, g) ↦
            ground (arith, handled-Reached env rs s.replicas to r (certificate_arrives qc now) g h)
      ]
  deliver_qc-Reached mark_all out now s (proposal from to b) h = h
  deliver_qc-Reached mark_all out now s (vote from to v) h = h
  deliver_qc-Reached mark_all out now s (new_view from to view qc) h = h

  pub deliver_qcs-Reached :
      (mark_all : Bool) (out : ℕ → Bool) (now : ℕ) (s : Simulation env) (ms : List Message)
      → Reached env rs s.replicas
      → Reached env rs (deliver_qcs env mark_all out now s ms).replicas
  unfolding deliver_qcs
  deliver_qcs-Reached mark_all out now s [] h = h
  deliver_qcs-Reached mark_all out now s (m ∷ ms) h =
      deliver_qcs-Reached mark_all out now (deliver_qc env mark_all out now s m) ms
        (deliver_qc-Reached mark_all out now s m h)

  pub for_each_live-Reached :
      (body : Simulation env → ℕ → Simulation env) (out : ℕ → Bool) (left id : ℕ)
      (s : Simulation env)
      → ((s : Simulation env) (id : ℕ)
          → Reached env rs s.replicas
          → Reached env rs (body s id).replicas)
      → Reached env rs s.replicas
      → Reached env rs (for_each_live env body out left id s).replicas
  unfolding for_each_live
  for_each_live-Reached body out zero id s keep h = h
  for_each_live-Reached body out (suc left) id s keep h = elim (Bool-cases (out id)) [
    | inl t ↦ rw (t, for_each_live) (for_each_live-Reached body out left (id + 1) s keep h)
    | inr t ↦
        rw (t, for_each_live)
          (for_each_live-Reached body out left (id + 1) (body s id) keep (keep s id h))
  ]

  pub commit_at-Reached :
      (now : ℕ) (s : Simulation env) (id : ℕ)
      → Reached env rs s.replicas
      → Reached env rs (commit_at env now s id).replicas
  unfolding commit_at step
  commit_at-Reached now s id h = elim (Option-cases (get_elem? s.replicas id)) [
    | inl n ↦ ground arith
    | inr (r, g) ↦
        let r1 = step env r (commits now) in
        let committed = handled-Reached env rs s.replicas id r (commits now) g h in
        elim (Bool-cases (s.persistence_enabled && should_snapshot env r1)) [
          | inr f ↦ ground (arith, committed)
          | inl t ↦ elim (Option-cases (get_elem? s.disks id)) [
            | inl n ↦ ground (arith, committed)
            | inr (d, k) ↦ ground (
              arith,
              set-Reached env rs s.replicas id r (take_snapshot env r1 d.snapshots false now).0 g
                  (λ x p. snapshots r1 d.snapshots now (handles r (commits now) p)) h,
            )
          ]
        ]
  ]

  pub advance_at-Reached :
      (reason : ViewChangeReason) (now : ℕ) (s : Simulation env) (id : ℕ)
      → Reached env rs s.replicas
      → Reached env rs (advance_at env reason now s id).replicas
  unfolding advance_at step
  advance_at-Reached reason now s id h = elim (Option-cases (get_elem? s.replicas id)) [
    | inl n ↦ ground arith
    | inr (r, g) ↦ ground (arith, handled-Reached env rs s.replicas id r (view_ends reason now) g h)
  ]

  pub advance_unmarked_at-Reached :
      (reason : ViewChangeReason) (now : ℕ) (s : Simulation env) (id : ℕ)
      → Reached env rs s.replicas
      → Reached env rs (advance_unmarked_at env reason now s id).replicas
  unfolding advance_unmarked_at step
  advance_unmarked_at-Reached reason now s id h = elim (Option-cases (get_elem? s.replicas id)) [
    | inl n ↦ ground arith
    | inr (r, g) ↦ ground (arith, handled-Reached env rs s.replicas id r (view_ends reason now) g h)
  ]

  pub crash_replica-Reached :
      (s : Simulation env) (id now : ℕ)
      → Reached env rs s.replicas
      → Reached env rs (crash_replica env s id now).0.replicas
  unfolding crash_replica
  crash_replica-Reached s id now h = elim (Option-cases (get_elem? s.replicas id)) [
    | inl n ↦ ground arith
    | inr (r, g) ↦ elim (Option-cases (get_elem? s.replica_keystores id)) [
      | inl n ↦ ground arith
      | inr (keystore, k) ↦ ground (
        arith,
        set-Reached env rs s.replicas id r (fresh_replica env r.config keystore now) g
            (λ x p. crashes r keystore now p) h,
      )
    ]
  ]

  crash_each-Reached :
      (s : Simulation env) (ids : List ℕ) (now : ℕ)
      → Reached env rs s.replicas
      → Reached env rs (crash_each env s ids now).replicas
  unfolding crash_each
  crash_each-Reached s [] now h = h
  crash_each-Reached s (id ∷ ids) now h =
      crash_each-Reached (crash_replica env s id now).0 ids now (crash_replica-Reached s id now h)

  pub process_timeout_crashes-Reached :
      (s : Simulation env) (now : ℕ)
      → Reached env rs s.replicas
      → Reached env rs (process_timeout_crashes env s now).replicas
  unfolding process_timeout_crashes
  process_timeout_crashes-Reached s now h =
      crash_each-Reached s (timed_out env s 0 s.replicas) now h
