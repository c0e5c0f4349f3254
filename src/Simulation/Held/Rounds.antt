-- ===== src/Simulation/Held/Rounds.antt =====
-- A round keeps what it should of the cluster, at the cost of one step for each replica.
use persisthotstuff_rst.Base.{
  ℕ, zero, suc, ◌+◌, ◌≡◌, inl, inr, Bool, true, false, Option, none, some, List, length, get_elem?,
  arith, Option-cases,
}
use mathlib.Core.Path.{subst}
use persisthotstuff_rst.Types.{Block, QuorumCert}
use persisthotstuff_rst.Wal.Entry.{ViewChangeReason, timeout, commit}
use persisthotstuff_rst.Replica.{Env}
use persisthotstuff_rst.Replica.Proposals.{propose_with_hash}
use persisthotstuff_rst.Replica.Pacemaker.{propose_next_with_hash}
use persisthotstuff_rst.Network.{broadcast_proposal, broadcast_qc, generate_unique_hash}
use persisthotstuff_rst.Simulation.{Simulation, advance_simulated_time, mark_responded}
use persisthotstuff_rst.Simulation.Crash.{process_timeout_crashes}
use persisthotstuff_rst.Simulation.Election.{current_leader}
use persisthotstuff_rst.Simulation.Round.{
  for_each_live, commit_at, advance_at, advance_unmarked_at, emptied, voting, collecting, spreading,
  finishing, next_step, after_proposal, run_one_round, run_one_round_with_pacemaker,
}
use persisthotstuff_rst.Simulation.Messages.{put_replica, is_out}
use persisthotstuff_rst.BTree.{BTreeSet, contains}
use persisthotstuff_rst.Crypto.{KeyStore}
use persisthotstuff_rst.Simulation.Held.{Held, Keeps, Stands, set-Stands, waits-Stands}
use persisthotstuff_rst.Simulation.Held.Delivery.{
  deliver_proposals-Stands, deliver_votes-Stands, deliver_qcs-Stands, advance_at-Stands,
  advance_unmarked_at-Stands,
}
use persisthotstuff_rst.Simulation.Held.Crashes.{
  for_each_live-keeps, commit_at-Stands, StandsNow, process_timeout_crashes-StandsNow,
  now-StandsNow,
}

module _ (env : Env) (P : Held env) (n : ℕ) (keys : List (KeyStore env.crypto))
    (keeps : Keeps env P) where
  module _ (k : ℕ) (crashed : BTreeSet) where
    spreading-Stands :
        (mark_all : Bool) (out : ℕ → Bool) (now : ℕ) (s : Simulation env × Option QuorumCert)
        (leader_id : ℕ)
        → Stands env P k crashed n keys s.0
        → Stands env P k crashed n keys (spreading env mark_all out now s leader_id)
    unfolding spreading emptied
    spreading-Stands mark_all out now (s, none) leader_id h = h
    spreading-Stands mark_all out now (s, some qc) leader_id h =
        let sent = record s { network = broadcast_qc s.network leader_id qc qc.block_hash } in
        deliver_qcs-Stands env P n keys keeps k crashed mark_all out now (emptied env sent)
          sent.network.message_queue h

    voting-Stands :
        (out : ℕ → Bool) (now : ℕ) (s : Simulation env) (leader_id : ℕ) (b : Block)
        → Stands env P k crashed n keys s
        → Stands env P k crashed n keys (voting env out now s leader_id b)
    unfolding voting emptied
    voting-Stands out now s leader_id b h =
        let sent = record s { network = broadcast_proposal s.network leader_id b } in
        deliver_proposals-Stands env P n keys keeps k crashed out now (emptied env sent)
          sent.network.message_queue h

    collecting-Stands :
        (out : ℕ → Bool) (now : ℕ) (s : Simulation env)
        → Stands env P k crashed n keys s
        → Stands env P k crashed n keys (collecting env out now s).0
    unfolding collecting emptied
    collecting-Stands out now s h =
        deliver_votes-Stands env P n keys keeps k crashed out now (emptied env s, none)
          s.network.message_queue h

    -- A loop whose body keeps the cluster at no cost.
    free_loop-Stands :
        (body : Simulation env → ℕ → Simulation env) (out : ℕ → Bool) (left id : ℕ)
        (s : Simulation env)
        → ((s : Simulation env) (id : ℕ)
            → Stands env P k crashed n keys s
            → Stands env P k crashed n keys (body s id))
        → Stands env P k crashed n keys s
        → Stands env P k crashed n keys (for_each_live env body out left id s)
    free_loop-Stands body out left id s keep h =
        for_each_live-keeps env (λ j. Stands env P k crashed n keys) body out left id 0 s
          (λ j x p. p) (λ j x i f p. keep x i p) h

    committed-Stands :
        (out : ℕ → Bool) (now left id : ℕ) (s : Simulation env)
        → ((i : ℕ) → out i ≡ false → contains i crashed ≡ false)
        → Stands env P k crashed n keys s
        → Stands env P
            (left + k)
            crashed
            n
            keys
            (for_each_live env (commit_at env now) out left id s)
    committed-Stands out now left id s live h =
        for_each_live-keeps env (λ j. Stands env P j crashed n keys) (commit_at env now) out left id
          k s (λ j x p. waits-Stands env P n keys keeps j crashed x p)
          (λ j x i f p. commit_at-Stands env P n keys keeps now j crashed x i (live i f) p) h

  finishing-Stands :
      (k : ℕ) (crashed : BTreeSet) (out : ℕ → Bool) (now : ℕ) (s : Simulation env)
      → ((i : ℕ) → out i ≡ false → contains i crashed ≡ false)
      → Stands env P k crashed n keys s
      → Stands env P (n + k) crashed n keys (finishing env out now s)
  unfolding finishing
  finishing-Stands k crashed out now s live h =
      let s1 = for_each_live env (commit_at env now) out (length s.replicas) 0 s in
      let h1 : Stands env P (n + k) crashed n keys s1 =
        subst (λ m. Stands env P (m + k) crashed n keys s1) h.size
          (committed-Stands k crashed out now (length s.replicas) 0 s live h) in
      free_loop-Stands (n + k) crashed (advance_at env commit now) out (length s1.replicas) 0 s1
        (advance_at-Stands env P n keys keeps (n + k) crashed commit now) h1

  after_proposal-Stands :
      (k : ℕ) (crashed : BTreeSet) (mark_all : Bool) (out : ℕ → Bool) (now : ℕ) (s : Simulation env)
      (leader_id : ℕ) (b : Block)
      → ((i : ℕ) → out i ≡ false → contains i crashed ≡ false)
      → Stands env P k crashed n keys s
      → Stands env P (n + k) crashed n keys (after_proposal env mark_all out now s leader_id b)
  unfolding after_proposal mark_responded next_step
  after_proposal-Stands k crashed mark_all out now s leader_id b live h =
      let voted = voting env out now (mark_responded env s leader_id) leader_id b in
      finishing-Stands k crashed out now
        (spreading env mark_all out now (collecting env out now voted) leader_id) live
        (spreading-Stands k crashed mark_all out now (collecting env out now voted) leader_id (
          collecting-Stands k crashed out now voted
            (voting-Stands k crashed out now (mark_responded env s leader_id) leader_id b h)))

  pub more-Stands :
      (m k : ℕ) (crashed : BTreeSet) (s : Simulation env)
      → Stands env P k crashed n keys s
      → Stands env P (m + k) crashed n keys s
  more-Stands zero k crashed s h =
      subst (λ x. Stands env P x crashed n keys s) {x = k} (omega arith) h
  more-Stands (suc m) k crashed s h =
      subst (λ x. Stands env P x crashed n keys s) {x = suc (m + k)} (omega arith)
        (waits-Stands env P n keys keeps (m + k) crashed s (more-Stands m k crashed s h))

  -- A round that is skipped.
  skipped-Stands :
      (body : Simulation env → ℕ → Simulation env) (k : ℕ) (crashed : BTreeSet) (out : ℕ → Bool)
      (s : Simulation env)
      → ((s : Simulation env) (id : ℕ)
          → Stands env P k crashed n keys s
          → Stands env P k crashed n keys (body s id))
      → Stands env P k crashed n keys s
      → Stands env P
          (n + k)
          crashed
          n
          keys
          (next_step env (for_each_live env body out (length s.replicas) 0 s))
  unfolding next_step
  skipped-Stands body k crashed out s keep h =
      more-Stands n k crashed (next_step env (for_each_live env body out (length s.replicas) 0 s))
        (free_loop-Stands k crashed body out (length s.replicas) 0 s keep h)

  live_of :
      (s : Simulation env) (i : ℕ) → is_out env s i ≡ false → contains i s.crashed_replicas ≡ false
  unfolding is_out
  live_of s i h = ground (arith, h)

  crashed_after :
      (k : ℕ) (crashed : BTreeSet) (s : Simulation env) (now : ℕ)
      → Stands env P (n + k) crashed n keys s
      → StandsNow env P n keys keeps (n + k) (process_timeout_crashes env s now)
  crashed_after k crashed s now h =
      process_timeout_crashes-StandsNow env P n keys keeps (n + k) s now
        (now-StandsNow env P n keys keeps (n + k) crashed s h)

  pub run_one_round-StandsNow :
      (k : ℕ) (s : Simulation env) (now : ℕ)
      → StandsNow env P n keys keeps k s
      → StandsNow env P n keys keeps (n + k) (run_one_round env s now).0
  unfolding run_one_round advance_simulated_time put_replica
  run_one_round-StandsNow k s now h =
      let s1 = process_timeout_crashes env (advance_simulated_time env s) now in
      let h1 =
        process_timeout_crashes-StandsNow env P n keys keeps k (advance_simulated_time env s) now
          h in
      let out = is_out env s1 in
      let c = s1.crashed_replicas in
      let leader_id = current_leader env s1 in
      let idle = more-Stands n k c s1 h1 in
      elim (Option-cases (get_elem? s1.replicas leader_id)) [
        | inl nobody ↦ ground (arith, idle)
        | inr (leader, g) ↦
            let hashed = generate_unique_hash s1.network in
            let p = propose_with_hash env leader leader.current_view hashed.1 now in
            let s2 = put_replica env (record s1 { network = hashed.0 }) leader_id p.0 in
            let h2 =
              set-Stands env P n keys k c s1 leader_id leader p.0 g
                (λ d x m. keeps.proposes k leader_id leader d x leader.current_view hashed.1 now m)
                h1 in
            let skip : (x : Simulation env)
                → Stands env P k c n keys x
                → StandsNow env P n keys keeps (n + k) (
                    process_timeout_crashes env
                      (next_step env (
                        for_each_live env (advance_at env timeout now) out (length x.replicas) 0 x))
                      now) =
              λ x m.
                crashed_after k c
                  (next_step env
                    (for_each_live env (advance_at env timeout now) out (length x.replicas) 0 x))
                  now
                  (skipped-Stands (advance_at env timeout now) k c out x
                    (advance_at-Stands env P n keys keeps k c timeout now) m) in
            elim (Option-cases p.1) [
              | inl no_block ↦ ground (arith, idle, skip s1 h1, skip s2 h2)
              | inr (b, e) ↦ ground (
                arith,
                idle,
                skip s1 h1,
                crashed_after k c (after_proposal env false out now s2 leader_id b) now
                    (after_proposal-Stands k c false out now s2 leader_id b (live_of s1) h2),
              )
            ]
      ]

  pub run_one_round_with_pacemaker-StandsNow :
      (k : ℕ) (s : Simulation env) (now : ℕ)
      → StandsNow env P n keys keeps k s
      → StandsNow env P n keys keeps (n + k) (run_one_round_with_pacemaker env s now).0
  unfolding run_one_round_with_pacemaker advance_simulated_time put_replica
  run_one_round_with_pacemaker-StandsNow k s now h =
      let s1 = process_timeout_crashes env (advance_simulated_time env s) now in
      let h1 =
        process_timeout_crashes-StandsNow env P n keys keeps k (advance_simulated_time env s) now
          h in
      let out = is_out env s1 in
      let c = s1.crashed_replicas in
      let leader_id = current_leader env s1 in
      let idle = more-Stands n k c s1 h1 in
      elim (Option-cases (get_elem? s1.replicas leader_id)) [
        | inl nobody ↦ ground (arith, idle)
        | inr (leader, g) ↦
            let hashed = generate_unique_hash s1.network in
            let p = propose_next_with_hash env leader leader.current_view hashed.1 now in
            let s2 = put_replica env (record s1 { network = hashed.0 }) leader_id p.0 in
            let h2 =
              set-Stands env P n keys k c s1 leader_id leader p.0 g
                (λ d x m.
                  keeps.proposes_next k leader_id leader d x leader.current_view hashed.1 now m)
                h1 in
            let skip : (reason : ViewChangeReason) (x : Simulation env)
                → Stands env P k c n keys x
                → StandsNow env P n keys keeps (n + k) (
                    next_step env (
                      for_each_live env (advance_unmarked_at env reason now) out (length x.replicas)
                        0 x)) =
              λ reason x m.
                now-StandsNow env P n keys keeps (n + k) c
                  (next_step env (
                    for_each_live env (advance_unmarked_at env reason now) out (length x.replicas) 0
                      x))
                  (skipped-Stands (advance_unmarked_at env reason now) k c out x
                    (advance_unmarked_at-Stands env P n keys keeps k c reason now) m) in
            elim (Option-cases p.1) [
              | inl no_block ↦ ground (arith, idle, skip timeout s1 h1, skip commit s2 h2)
              | inr (b, e) ↦ ground (
                arith,
                idle,
                skip timeout s1 h1,
                now-StandsNow env P n keys keeps (n + k) c
                    (after_proposal env true out now s2 leader_id b)
                    (after_proposal-Stands k c true out now s2 leader_id b (live_of s1) h2),
              )
            ]
      ]
