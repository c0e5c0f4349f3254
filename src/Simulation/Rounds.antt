-- ===== src/Simulation/Rounds.antt =====
-- A round of the cluster is made of handlers of its replicas, of their snapshots and their crashes.
use persisthotstuff_rst.Base.{
  ℕ, inl, inr, Bool, true, false, Option, none, some, List, length, get_elem?, arith, Option-cases,
}
use persisthotstuff_rst.Types.{Block, QuorumCert}
use persisthotstuff_rst.Wal.Entry.{ViewChangeReason, timeout, commit}
use persisthotstuff_rst.Replica.{Env, Replica}
use persisthotstuff_rst.Replica.Proposals.{propose_with_hash}
use persisthotstuff_rst.Replica.Pacemaker.{propose_next_with_hash}
use persisthotstuff_rst.Network.{broadcast_proposal, broadcast_qc, generate_unique_hash}
use persisthotstuff_rst.Simulation.{Simulation, advance_simulated_time, mark_responded}
use persisthotstuff_rst.Simulation.Crash.{process_timeout_crashes}
use persisthotstuff_rst.Simulation.Election.{current_leader}
use persisthotstuff_rst.Simulation.Round.{
  for_each_live, commit_at, advance_at, advance_unmarked_at, emptied, voting, collecting, spreading,
  finishing, next_step, after_proposal, run_one_round, run_one_round_with_pacemaker,
}
use persisthotstuff_rst.Simulation.Messages.{put_replica, is_out}
use persisthotstuff_rst.Simulation.Reached.{Reached, proposes, proposes_next, set-Reached}
use persisthotstuff_rst.Simulation.Delivered.{
  deliver_proposals-Reached, deliver_votes-Reached, deliver_qcs-Reached, for_each_live-Reached,
  commit_at-Reached, advance_at-Reached, advance_unmarked_at-Reached,
  process_timeout_crashes-Reached,
}

module _ (env : Env) (rs : List (Replica env)) where
  spreading-Reached :
      (mark_all : Bool) (out : ℕ → Bool) (now : ℕ) (s : Simulation env × Option QuorumCert)
      (leader_id : ℕ)
      → Reached env rs s.0.replicas
      → Reached env rs (spreading env mark_all out now s leader_id).replicas
  unfolding spreading emptied
  spreading-Reached mark_all out now (s, none) leader_id h = h
  spreading-Reached mark_all out now (s, some qc) leader_id h =
      let sent = record s { network = broadcast_qc s.network leader_id qc qc.block_hash } in
      deliver_qcs-Reached env rs mark_all out now (emptied env sent) sent.network.message_queue h

  voting-Reached :
      (out : ℕ → Bool) (now : ℕ) (s : Simulation env) (leader_id : ℕ) (b : Block)
      → Reached env rs s.replicas
      → Reached env rs (voting env out now s leader_id b).replicas
  unfolding voting emptied
  voting-Reached out now s leader_id b h =
      let sent = record s { network = broadcast_proposal s.network leader_id b } in
      deliver_proposals-Reached env rs out now (emptied env sent) sent.network.message_queue h

  collecting-Reached :
      (out : ℕ → Bool) (now : ℕ) (s : Simulation env)
      → Reached env rs s.replicas
      → Reached env rs (collecting env out now s).0.replicas
  unfolding collecting emptied
  collecting-Reached out now s h =
      deliver_votes-Reached env rs out now (emptied env s, none) s.network.message_queue h

  finishing-Reached :
      (out : ℕ → Bool) (now : ℕ) (s : Simulation env)
      → Reached env rs s.replicas
      → Reached env rs (finishing env out now s).replicas
  unfolding finishing
  finishing-Reached out now s h =
      let s1 = for_each_live env (commit_at env now) out (length s.replicas) 0 s in
      for_each_live-Reached env rs (advance_at env commit now) out (length s1.replicas) 0 s1
        (advance_at-Reached env rs commit now)
        (for_each_live-Reached env rs (commit_at env now) out (length s.replicas) 0 s
          (commit_at-Reached env rs now) h)

  after_proposal-Reached :
      (mark_all : Bool) (out : ℕ → Bool) (now : ℕ) (s : Simulation env) (leader_id : ℕ) (b : Block)
      → Reached env rs s.replicas
      → Reached env rs (after_proposal env mark_all out now s leader_id b).replicas
  unfolding after_proposal mark_responded next_step
  after_proposal-Reached mark_all out now s leader_id b h =
      let voted = voting env out now (mark_responded env s leader_id) leader_id b in
      finishing-Reached out now
        (spreading env mark_all out now (collecting env out now voted) leader_id)
        (spreading-Reached mark_all out now (collecting env out now voted) leader_id (
          collecting-Reached out now voted
            (voting-Reached out now (mark_responded env s leader_id) leader_id b h)))

  skipped-Reached :
      (reason : ViewChangeReason) (out : ℕ → Bool) (now : ℕ) (s : Simulation env)
      → Reached env rs s.replicas
      → Reached env rs
          (for_each_live env (advance_at env reason now) out (length s.replicas) 0 s).replicas
  skipped-Reached reason out now s h =
      for_each_live-Reached env rs (advance_at env reason now) out (length s.replicas) 0 s
        (advance_at-Reached env rs reason now) h

  skipped_unmarked-Reached :
      (reason : ViewChangeReason) (out : ℕ → Bool) (now : ℕ) (s : Simulation env)
      → Reached env rs s.replicas
      → Reached env rs
          (for_each_live env
            (advance_unmarked_at env reason now)
            out
            (length s.replicas)
            0
            s).replicas
  skipped_unmarked-Reached reason out now s h =
      for_each_live-Reached env rs (advance_unmarked_at env reason now) out (length s.replicas) 0 s
        (advance_unmarked_at-Reached env rs reason now) h

  -- After a round that is skipped, or one with a proposal, the replicas out of time crash.
  skipped_crashed-Reached :
      (out : ℕ → Bool) (now : ℕ) (s : Simulation env)
      → Reached env rs s.replicas
      → Reached env rs
          (process_timeout_crashes env
            (next_step env
              (for_each_live env (advance_at env timeout now) out (length s.replicas) 0 s))
            now).replicas
  unfolding next_step
  skipped_crashed-Reached out now s h =
      process_timeout_crashes-Reached env rs
        (next_step env (for_each_live env (advance_at env timeout now) out (length s.replicas) 0 s))
        now (skipped-Reached timeout out now s h)

  pub run_one_round-Reached :
      (s : Simulation env) (now : ℕ)
      → Reached env rs s.replicas
      → Reached env rs (run_one_round env s now).0.replicas
  unfolding run_one_round advance_simulated_time next_step put_replica
  run_one_round-Reached s now h =
      let s1 = process_timeout_crashes env (advance_simulated_time env s) now in
      let h1 = process_timeout_crashes-Reached env rs (advance_simulated_time env s) now h in
      let out = is_out env s1 in
      let leader_id = current_leader env s1 in
      elim (Option-cases (get_elem? s1.replicas leader_id)) [
        | inl n ↦ ground (arith, h1)
        | inr (leader, g) ↦
            let hashed = generate_unique_hash s1.network in
            let p = propose_with_hash env leader leader.current_view hashed.1 now in
            let s2 = put_replica env (record s1 { network = hashed.0 }) leader_id p.0 in
            let h2 =
              set-Reached env rs s1.replicas leader_id leader p.0 g
                (λ x m. proposes leader leader.current_view hashed.1 now m) h1 in
            elim (Option-cases p.1) [
              | inl n ↦ ground (
                arith,
                skipped_crashed-Reached out now s1 h1,
                skipped_crashed-Reached out now s2 h2,
              )
              | inr (b, e) ↦ ground (
                arith,
                skipped_crashed-Reached out now s1 h1,
                process_timeout_crashes-Reached env rs
                    (after_proposal env false out now s2 leader_id b) now
                    (after_proposal-Reached false out now s2 leader_id b h2),
              )
            ]
      ]

  pub run_one_round_with_pacemaker-Reached :
      (s : Simulation env) (now : ℕ)
      → Reached env rs s.replicas
      → Reached env rs (run_one_round_with_pacemaker env s now).0.replicas
  unfolding run_one_round_with_pacemaker advance_simulated_time next_step put_replica
  run_one_round_with_pacemaker-Reached s now h =
      let s1 = process_timeout_crashes env (advance_simulated_time env s) now in
      let h1 = process_timeout_crashes-Reached env rs (advance_simulated_time env s) now h in
      let out = is_out env s1 in
      let leader_id = current_leader env s1 in
      elim (Option-cases (get_elem? s1.replicas leader_id)) [
        | inl n ↦ ground (arith, h1)
        | inr (leader, g) ↦
            let hashed = generate_unique_hash s1.network in
            let p = propose_next_with_hash env leader leader.current_view hashed.1 now in
            let s2 = put_replica env (record s1 { network = hashed.0 }) leader_id p.0 in
            let h2 =
              set-Reached env rs s1.replicas leader_id leader p.0 g
                (λ x m. proposes_next leader leader.current_view hashed.1 now m) h1 in
            elim (Option-cases p.1) [
              | inl n ↦ ground (
                arith,
                skipped_unmarked-Reached timeout out now s1 h1,
                skipped_unmarked-Reached commit out now s2 h2,
              )
              | inr (b, e) ↦ ground (
                arith,
                skipped_unmarked-Reached timeout out now s1 h1,
                after_proposal-Reached true out now s2 leader_id b h2,
              )
            ]
      ]
