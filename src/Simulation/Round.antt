-- ===== src/Simulation/Round.antt =====
-- src/simulation.rs: a round of the cluster: propose, vote, form a certificate, broadcast it,
-- commit, and move to the next view. A loop that empties the network runs over the messages that
-- wait at its start: what it does with them sends none.
use persisthotstuff_rst.Base.{
  ℕ, zero, suc, ◌+◌, Bool, true, false, Option, none, some, List, [], ◌∷◌, length, get_elem?, set,
  leb, ◌==◌, ◌&&◌, ◌||◌, if◌then◌else◌,
}
use persisthotstuff_rst.Types.{Block, QuorumCert}
use persisthotstuff_rst.Wal.Entry.{ViewChangeReason, timeout, commit}
use persisthotstuff_rst.Replica.{Env, Replica}
use persisthotstuff_rst.Replica.Proposals.{propose_with_hash}
use persisthotstuff_rst.Replica.Commit.{commit_all}
use persisthotstuff_rst.Replica.Pacemaker.{advance_view_with_reason, propose_next_with_hash}
use persisthotstuff_rst.Persistence.{should_snapshot, take_snapshot}
use persisthotstuff_rst.Network.{clear, broadcast_proposal, broadcast_qc, generate_unique_hash}
use persisthotstuff_rst.Simulation.{Simulation, mark_responded, advance_simulated_time}
use persisthotstuff_rst.Simulation.Crash.{process_timeout_crashes}
use persisthotstuff_rst.Simulation.Election.{current_leader}
use persisthotstuff_rst.Simulation.Messages.{
  put_replica, is_out, deliver_proposals, deliver_votes, deliver_qcs,
}

module _ (env : Env) where
  -- `for (idx, replica) in self.replicas.iter_mut().enumerate()` with the `continue` for replicas
  -- that are out; `left` are left, of which `id` is the next.
  unfoldable pub for_each_live :
      (Simulation env → ℕ → Simulation env)
      → (ℕ → Bool)
      → (left id : ℕ) → Simulation env
      → Simulation env
  for_each_live body out zero id s = s
  for_each_live body out (suc left) id s =
      for_each_live body out left (id + 1) (if out id then s else body s id)

  -- The body of step 6: commit, and take a snapshot if one is due.
  unfoldable pub commit_at : ℕ → Simulation env → ℕ → Simulation env
  unfolding put_replica mark_responded
  commit_at now s id = elim (get_elem? s.replicas id) [
    | none ↦ s
    | some r ↦
        let r1 = elim (commit_all env r now) as (λ _. Replica env) [ none ↦ r | some x ↦ x ] in
        elim (if s.persistence_enabled && should_snapshot env r1
          then get_elem? s.disks id
          else none) [
            | none ↦ mark_responded env (put_replica env s id r1) id
            | some d ↦
                let taken = take_snapshot env r1 d.snapshots false now in
                mark_responded env
                  (record (put_replica env s id taken.0) {
                    disks = set s.disks id (record d { snapshots = taken.1 });
                  })
                  id
          ]
  ]

  unfoldable pub advance_at : ViewChangeReason → ℕ → Simulation env → ℕ → Simulation env
  unfolding put_replica mark_responded
  advance_at reason now s id = elim (get_elem? s.replicas id) [
    | none ↦ s
    | some r ↦
        mark_responded env (put_replica env s id (advance_view_with_reason env r reason now)) id
  ]

  -- The loops of the pacemaker's round that do not mark a response.
  unfoldable pub advance_unmarked_at : ViewChangeReason → ℕ → Simulation env → ℕ → Simulation env
  unfolding put_replica
  advance_unmarked_at reason now s id = elim (get_elem? s.replicas id) [
    | none ↦ s
    | some r ↦ put_replica env s id (advance_view_with_reason env r reason now)
  ]

  unfoldable pub emptied : Simulation env → Simulation env
  emptied s = record s { network = clear s.network }

  -- Steps 2 and 3: broadcast the proposal, and let each replica check it and vote.
  unfoldable pub voting : (ℕ → Bool) → ℕ → Simulation env → ℕ → Block → Simulation env
  unfolding deliver_proposals emptied
  voting out now s leader_id b =
      let sent = record s { network = broadcast_proposal s.network leader_id b } in
      deliver_proposals env out now (emptied sent) sent.network.message_queue

  -- Step 4: the leader collects the votes.
  unfoldable pub collecting : (ℕ → Bool) → ℕ → Simulation env → Simulation env × Option QuorumCert
  unfolding deliver_votes emptied
  collecting out now s = deliver_votes env out now (emptied s, none) s.network.message_queue

  -- Step 5: a certificate goes to all replicas.
  unfoldable pub spreading :
      Bool → (ℕ → Bool) → ℕ → Simulation env × Option QuorumCert → ℕ → Simulation env
  unfolding deliver_qcs emptied
  spreading mark_all out now (s, none) leader_id = s
  spreading mark_all out now (s, some qc) leader_id =
      let sent = record s { network = broadcast_qc s.network leader_id qc qc.block_hash } in
      deliver_qcs env mark_all out now (emptied sent) sent.network.message_queue

  -- Steps 6 and 7.
  unfoldable pub finishing : (ℕ → Bool) → ℕ → Simulation env → Simulation env
  unfolding for_each_live commit_at advance_at
  finishing out now s =
      let s1 = for_each_live (commit_at now) out (length s.replicas) 0 s in
      for_each_live (advance_at commit now) out (length s1.replicas) 0 s1

  unfoldable pub next_step : Simulation env → Simulation env
  next_step s = record s { step = s.step + 1 }

  -- A round from the broadcast on.
  unfoldable pub after_proposal :
      Bool → (ℕ → Bool) → ℕ → Simulation env → ℕ → Block → Simulation env
  unfolding voting collecting spreading finishing next_step
  after_proposal mark_all out now s leader_id b =
      let voted = voting out now (mark_responded env s leader_id) leader_id b in
      next_step
        (finishing out now (spreading mark_all out now (collecting out now voted) leader_id))

  -- The guards at the start of a round.
  unfoldable pub is_over : Simulation env → Bool
  is_over s = leb s.max_steps s.step || length s.crashed_replicas == length s.replicas

  unfoldable pub run_one_round : Simulation env → ℕ → Simulation env × Bool
  unfolding is_over is_out for_each_live advance_at next_step after_proposal put_replica
  run_one_round s now =
      let s1 = process_timeout_crashes env (advance_simulated_time env s) now in
      if is_over s1 then (s1, false) else elim (get_elem? s1.replicas (current_leader env s1)) [
        | none ↦ (s1, false)
        | some leader ↦
            let out = is_out env s1 in
            let leader_id = current_leader env s1 in
            let skipped = λ (x : Simulation env).
              process_timeout_crashes env
                (next_step (for_each_live (advance_at timeout now) out (length x.replicas) 0 x))
                now in
            if out leader_id
            then (skipped s1, true)
            else (let hashed = generate_unique_hash s1.network in
                let p = propose_with_hash env leader leader.current_view hashed.1 now in
                let s2 = put_replica env (record s1 { network = hashed.0 }) leader_id p.0 in
                elim p.1 [
                  | none ↦ (skipped s2, true)
                  | some b ↦ (
                    process_timeout_crashes env (after_proposal false out now s2 leader_id b) now,
                    true,
                  )
                ])
      ]

  unfoldable pub run_one_round_with_pacemaker : Simulation env → ℕ → Simulation env × Bool
  unfolding is_over is_out for_each_live advance_unmarked_at next_step after_proposal put_replica
  run_one_round_with_pacemaker s now =
      let s1 = process_timeout_crashes env (advance_simulated_time env s) now in
      if is_over s1 then (s1, false) else elim (get_elem? s1.replicas (current_leader env s1)) [
        | none ↦ (s1, false)
        | some leader ↦
            let out = is_out env s1 in
            let leader_id = current_leader env s1 in
            let skipped = λ (reason : ViewChangeReason) (x : Simulation env).
              next_step
                (for_each_live (advance_unmarked_at reason now) out (length x.replicas) 0 x) in
            if out leader_id
            then (skipped timeout s1, true)
            else (let hashed = generate_unique_hash s1.network in
                let p = propose_next_with_hash env leader leader.current_view hashed.1 now in
                let s2 = put_replica env (record s1 { network = hashed.0 }) leader_id p.0 in
                elim p.1 [
                  | none ↦ (skipped commit s2, true)
                  | some b ↦ (after_proposal true out now s2 leader_id b, true)
                ])
      ]

  -- `run` over the rounds that are left, with the clock of each. Its first line, which is printed,
  -- panics in a simulation without replicas.
  unfoldable pub run : Simulation env → List ℕ → Simulation env
  unfolding run_one_round
  run s [] = s
  run s (now ∷ clock) =
      let r = run_one_round s now in elim r.1 [ true ↦ run r.0 clock | false ↦ r.0 ]
