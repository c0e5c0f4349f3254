-- ===== src/Simulation/Election.antt =====
-- src/simulation.rs: the leader of a round, and the calls that go to it or to all replicas.
use persisthotstuff_rst.Base.{
  ℕ, zero, suc, ◌+◌, ◌%◌, Option, none, some, List, [], ◌∷◌, length, get_elem?, set, ◌==◌,
  if◌then◌else◌, max, map,
}
use persisthotstuff_rst.BTree.{BTreeSet, contains}
use persisthotstuff_rst.Types.{ConsensusCommand}
use persisthotstuff_rst.Replica.{Env, Replica}
use persisthotstuff_rst.Replica.Pacemaker
use persisthotstuff_rst.Simulation.{Outcome, Simulation, done, panicked}

module _ (env : Env) where
  -- The greatest view of the replicas that are not in `excluded`, from index `id` on.
  unfoldable pub max_view : BTreeSet → ℕ → List (Replica env) → Option ℕ → Option ℕ
  max_view excluded id [] best = best
  max_view excluded id (r ∷ rs) best = max_view excluded (id + 1) rs (
      if contains id excluded
      then best
      else some (elim best as (λ _. ℕ) [ none ↦ r.current_view | some v ↦ max v r.current_view ]))

  -- `for offset in 0..n`, of which `left` are left.
  unfoldable pub first_live : BTreeSet → (n base left offset : ℕ) → ℕ
  first_live crashed n base zero offset = 0
  first_live crashed n base (suc left) offset =
      let rest = first_live crashed n base left (offset + 1) in
      let candidate = (base + offset) % n in if contains candidate crashed then rest else candidate

  unfoldable pub current_leader : Simulation env → ℕ
  unfolding max_view first_live
  current_leader s =
      if length s.replicas == 0
      then 0
      else first_live s.crashed_replicas (length s.replicas)
          (elim (max_view s.crashed_replicas 0 s.replicas none) as (λ _. ℕ) [
            | none ↦ 0
            | some v ↦ v
          ])
          (length s.replicas) 0

  unfoldable pub map_replicas : (Replica env → Replica env) → Simulation env → Simulation env
  map_replicas f s = record s { replicas = map f s.replicas }

  unfoldable pub enable_dummy_proposals : Simulation env → ℕ → Simulation env
  unfolding map_replicas
  enable_dummy_proposals s timeout_ms =
      map_replicas (λ r. Pacemaker.enable_dummy_proposals env r timeout_ms) s

  unfoldable pub disable_dummy_proposals : Simulation env → Simulation env
  unfolding map_replicas
  disable_dummy_proposals s = map_replicas (Pacemaker.disable_dummy_proposals env) s

  -- `self.replicas[leader]` panics in a simulation without replicas.
  unfoldable pub enqueue_client_command :
      Simulation env → ConsensusCommand → Simulation env × Outcome
  unfolding current_leader
  enqueue_client_command s cmd = elim (get_elem? s.replicas (current_leader s)) [
    | none ↦ (s, panicked)
    | some r ↦ (
      record s {
        replicas = set s.replicas (current_leader s) (Pacemaker.enqueue_command env r cmd);
      },
      done,
    )
  ]
