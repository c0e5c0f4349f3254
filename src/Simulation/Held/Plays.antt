-- ===== src/Simulation/Held/Plays.antt =====
-- Every action keeps what it should of the cluster.
use persisthotstuff_rst.Base.{
  ℕ, zero, suc, ◌+◌, ◌≡◌, refl, sym, ap, ◌∙◌, inl, inr, Bool, some, List, [], ◌∷◌, map, length,
  get_elem?, arith, Option-cases,
}
use mathlib.Core.Path.{subst}
use persisthotstuff_rst.BTree.{contains}
use persisthotstuff_rst.Types.{ConsensusCommand}
use persisthotstuff_rst.Crypto.{KeyStore}
use persisthotstuff_rst.Replica.{Env, Replica}
use persisthotstuff_rst.Replica.Pacemaker
use persisthotstuff_rst.Recovery.{DataDir}
use persisthotstuff_rst.Simulation.{Simulation, mark_responded}
use persisthotstuff_rst.Simulation.Crash.{crash_replica, set_replica_unresponsive}
use persisthotstuff_rst.Simulation.Election.{
  enqueue_client_command, enable_dummy_proposals, disable_dummy_proposals, map_replicas,
  current_leader,
}
use persisthotstuff_rst.Simulation.Actions.{
  Action, round, pacemaker_round, crash, set_unresponsive, enqueue, enable_dummies, disable_dummies,
  play,
}
use persisthotstuff_rst.Simulation.Held.{Held, Keeps, set-Stands}
use persisthotstuff_rst.Simulation.Held.Crashes.{StandsNow, crash_replica-StandsNow}
use persisthotstuff_rst.Simulation.Held.Rounds.{
  more-Stands, run_one_round-StandsNow, run_one_round_with_pacemaker-StandsNow,
}

length-map : {A : Type 0} (f : A → A) (xs : List A) → length (map f xs) ≡ length xs
length-map f [] = refl
length-map f (x ∷ xs) = ap suc (length-map f xs)

get_elem?-map :
    {A : Type 0} (f : A → A) (xs : List A) (i : ℕ) (y : A)
    → get_elem? (map f xs) i ≡ some y
    → (x : A) × (get_elem? xs i ≡ some x) × (f x ≡ y)
get_elem?-map f [] i y g = cc
get_elem?-map f (x ∷ xs) zero y g = (x, refl, ground arith)
get_elem?-map f (x ∷ xs) (suc i) y g = get_elem?-map f xs i y g

module _ (env : Env) (P : Held env) (n : ℕ) (keys : List (KeyStore env.crypto))
    (keeps : Keeps env P) where
  map-StandsNow :
      (k : ℕ) (s : Simulation env) (f : Replica env → Replica env)
      → ((id : ℕ) (r : Replica env) (d : DataDir) (c : Bool) → P k id r d c → P k id (f r) d c)
      → StandsNow env P n keys keeps k s
      → StandsNow env P n keys keeps k (record s { replicas = map f s.replicas })
  map-StandsNow k s f keep h = record {
    is_on = h.is_on;
    same_keys = h.same_keys;
    same_crashed = h.same_crashed;
    size = length-map f s.replicas ∙ h.size;
    cells = record {
      same_length = h.cells.same_length ∙ sym (length-map f s.replicas);
      cell = λ id r d g y.
          let x = get_elem?-map f s.replicas id r g in
          subst (λ q. P k id q d (contains id s.crashed_replicas)) x.2
            (keep id x.0 d (contains id s.crashed_replicas) (h.cells.cell id x.0 d x.1 y));
    };
  }

  enqueue-StandsNow :
      (k : ℕ) (s : Simulation env) (command : ConsensusCommand)
      → StandsNow env P n keys keeps k s
      → StandsNow env P n keys keeps k (enqueue_client_command env s command).0
  unfolding enqueue_client_command
  enqueue-StandsNow k s command h =
      elim (Option-cases (get_elem? s.replicas (current_leader env s))) [
        | inl nobody ↦ ground (arith, h)
        | inr (r, g) ↦ ground (
          arith,
          set-Stands env P n keys k s.crashed_replicas s (current_leader env s) r
              (Pacemaker.enqueue_command env r command) g
              (λ d c p. keeps.queues k (current_leader env s) r d c command p) h,
        )
      ]

  unresponsive-StandsNow :
      (k : ℕ) (s : Simulation env) (id : ℕ) (u : Bool)
      → StandsNow env P n keys keeps k s
      → StandsNow env P n keys keeps k (set_replica_unresponsive env s id u).0
  unfolding set_replica_unresponsive mark_responded
  unresponsive-StandsNow k s id u h = ground (arith, h)

  -- An action takes as many snapshots as there are replicas, at most.
  pub play-StandsNow :
      (k : ℕ) (s : Simulation env) (a : Action)
      → StandsNow env P n keys keeps k s
      → StandsNow env P n keys keeps (n + k) (play env s a)
  unfolding play enable_dummy_proposals disable_dummy_proposals map_replicas
  play-StandsNow k s (round now) h = run_one_round-StandsNow env P n keys keeps k s now h
  play-StandsNow k s (pacemaker_round now) h =
      run_one_round_with_pacemaker-StandsNow env P n keys keeps k s now h
  play-StandsNow k s (crash id now) h =
      let t = (crash_replica env s id now).0 in
      more-Stands env P n keys keeps n k t.crashed_replicas t
        (crash_replica-StandsNow env P n keys keeps k s id now h)
  play-StandsNow k s (set_unresponsive id u) h =
      let t = (set_replica_unresponsive env s id u).0 in
      more-Stands env P n keys keeps n k t.crashed_replicas t (unresponsive-StandsNow k s id u h)
  play-StandsNow k s (enqueue command) h =
      let t = (enqueue_client_command env s command).0 in
      more-Stands env P n keys keeps n k t.crashed_replicas t (enqueue-StandsNow k s command h)
  play-StandsNow k s (enable_dummies ms) h =
      let f = λ (r : Replica env). Pacemaker.enable_dummy_proposals env r ms in
      more-Stands env P n keys keeps n k s.crashed_replicas
        (record s { replicas = map f s.replicas })
        (map-StandsNow k s f (λ i r d c p. keeps.enables k i r d c ms p) h)
  play-StandsNow k s disable_dummies h =
      let f = Pacemaker.disable_dummy_proposals env in
      more-Stands env P n keys keeps n k s.crashed_replicas
        (record s { replicas = map f s.replicas })
        (map-StandsNow k s f (λ i r d c p. keeps.disables k i r d c p) h)
