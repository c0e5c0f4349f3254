-- ===== src/Simulation/Actions.antt =====
-- The operations of the cluster as actions in any order.
use persisthotstuff_rst.Base.{ℕ, inl, inr, Bool, List, [], ◌∷◌, get_elem?, arith, Option-cases}
use persisthotstuff_rst.Types.{ConsensusCommand}
use persisthotstuff_rst.Replica.{Env, Replica}
use persisthotstuff_rst.Replica.Pacemaker
use persisthotstuff_rst.Simulation.{Simulation, mark_responded}
use persisthotstuff_rst.Simulation.Crash.{crash_replica, set_replica_unresponsive}
use persisthotstuff_rst.Simulation.Election.{
  enqueue_client_command, enable_dummy_proposals, disable_dummy_proposals, map_replicas,
  current_leader,
}
use persisthotstuff_rst.Simulation.Round.{run_one_round, run_one_round_with_pacemaker}
use persisthotstuff_rst.Simulation.Reached.{
  Reached, Reached-refl, queues, enables, disables, set-Reached, map-Reached,
}
use persisthotstuff_rst.Simulation.Delivered.{crash_replica-Reached}
use persisthotstuff_rst.Simulation.Rounds.{
  run_one_round-Reached, run_one_round_with_pacemaker-Reached,
}

-- What is done with a cluster, but for a recovery.
pub data Action : Type 0 where
  round pacemaker_round : (now : ℕ) → Action
  crash : (id now : ℕ) → Action
  set_unresponsive : (id : ℕ) → Bool → Action
  enqueue : ConsensusCommand → Action
  enable_dummies : (ms : ℕ) → Action
  disable_dummies : Action

module _ (env : Env) where
  unfoldable pub play : Simulation env → Action → Simulation env
  play s (round now) = (run_one_round env s now).0
  play s (pacemaker_round now) = (run_one_round_with_pacemaker env s now).0
  play s (crash id now) = (crash_replica env s id now).0
  play s (set_unresponsive id u) = (set_replica_unresponsive env s id u).0
  play s (enqueue command) = (enqueue_client_command env s command).0
  play s (enable_dummies ms) = enable_dummy_proposals env s ms
  play s disable_dummies = disable_dummy_proposals env s

  unfoldable pub play_all : Simulation env → List Action → Simulation env
  unfolding play
  play_all s [] = s
  play_all s (a ∷ as') = play_all (play s a) as'

  module _ (rs : List (Replica env)) where
    enqueue_client_command-Reached :
        (s : Simulation env) (command : ConsensusCommand)
        → Reached env rs s.replicas
        → Reached env rs (enqueue_client_command env s command).0.replicas
    unfolding enqueue_client_command
    enqueue_client_command-Reached s command h =
        elim (Option-cases (get_elem? s.replicas (current_leader env s))) [
          | inl n ↦ ground (arith, h)
          | inr (r, g) ↦ ground (
            arith,
            set-Reached env rs s.replicas (current_leader env s) r
                (Pacemaker.enqueue_command env r command) g (λ x m. queues r command m) h,
          )
        ]

    set_replica_unresponsive-Reached :
        (s : Simulation env) (id : ℕ) (u : Bool)
        → Reached env rs s.replicas
        → Reached env rs (set_replica_unresponsive env s id u).0.replicas
    unfolding set_replica_unresponsive mark_responded
    set_replica_unresponsive-Reached s id u h = ground (arith, h)

    play-Reached :
        (s : Simulation env) (a : Action)
        → Reached env rs s.replicas
        → Reached env rs (play s a).replicas
    unfolding play enable_dummy_proposals disable_dummy_proposals map_replicas
    play-Reached s (round now) h = run_one_round-Reached env rs s now h
    play-Reached s (pacemaker_round now) h = run_one_round_with_pacemaker-Reached env rs s now h
    play-Reached s (crash id now) h = crash_replica-Reached env rs s id now h
    play-Reached s (set_unresponsive id u) h = set_replica_unresponsive-Reached s id u h
    play-Reached s (enqueue command) h = enqueue_client_command-Reached s command h
    play-Reached s (enable_dummies ms) h =
        map-Reached env rs s.replicas (λ r. Pacemaker.enable_dummy_proposals env r ms)
          (λ r x m. enables r ms m) h
    play-Reached s disable_dummies h =
        map-Reached env rs s.replicas (Pacemaker.disable_dummy_proposals env)
          (λ r x m. disables r m) h

    from-Reached :
        (s : Simulation env) (as' : List Action)
        → Reached env rs s.replicas
        → Reached env rs (play_all s as').replicas
    unfolding play_all
    from-Reached s [] h = h
    from-Reached s (a ∷ as') h = from-Reached (play s a) as' (play-Reached s a h)

  -- Whatever rounds, crashes and changes of the cluster come in whatever order, each replica at the
  -- end comes from the one at its place at the start by handlers of a replica, proposals, snapshots
  -- and crashes alone; and none is lost or added.
  pub play_all-Reached :
      (s : Simulation env) (as' : List Action) → Reached env s.replicas (play_all s as').replicas
  play_all-Reached s as' = from-Reached s.replicas s as' (Reached-refl env s.replicas)
