-- ===== src/Simulation/Reached.antt =====
-- What an operation of the cluster does to each replica, in terms of the handlers of one replica.
use persisthotstuff_rst.Base.{
  ℕ, zero, suc, ◌≡◌, refl, false, some, List, [], ◌∷◌, length, map, get_elem?, set, arith,
}
use persisthotstuff_rst.Types.{Hash, ConsensusCommand}
use persisthotstuff_rst.Crypto.{KeyStore}
use persisthotstuff_rst.Snapshot.{SnapDir}
use persisthotstuff_rst.Replica.{Env, Replica}
use persisthotstuff_rst.Replica.Proposals.{propose_with_hash}
use persisthotstuff_rst.Replica.Pacemaker.{
  propose_next_with_hash, enqueue_command, enable_dummy_proposals, disable_dummy_proposals,
}
use persisthotstuff_rst.Persistence.{take_snapshot}
use persisthotstuff_rst.Machine.{Event, step}
use persisthotstuff_rst.Simulation.Start.{fresh_replica}

module _ (env : Env) where
  -- The states that a replica gets to by its handlers, its snapshots and its crashes.
  pub data Moves (r : Replica env) : Replica env → Type 0 where
    stays : Moves r r
    handles : (s : Replica env) (e : Event) → Moves r s → Moves r (step env s e)
    proposes :
        (s : Replica env) (view : ℕ) (hash : Hash) (now : ℕ)
        → Moves r s
        → Moves r (propose_with_hash env s view hash now).0
    proposes_next :
        (s : Replica env) (view : ℕ) (hash : Hash) (now : ℕ)
        → Moves r s
        → Moves r (propose_next_with_hash env s view hash now).0
    snapshots :
        (s : Replica env) (dir : SnapDir) (now : ℕ)
        → Moves r s
        → Moves r (take_snapshot env s dir false now).0
    crashes :
        (s : Replica env) (keystore : KeyStore env.crypto) (now : ℕ)
        → Moves r s
        → Moves r (fresh_replica env s.config keystore now)
    queues :
        (s : Replica env) (command : ConsensusCommand)
        → Moves r s
        → Moves r (enqueue_command env s command)
    enables : (s : Replica env) (ms : ℕ) → Moves r s → Moves r (enable_dummy_proposals env s ms)
    disables : (s : Replica env) → Moves r s → Moves r (disable_dummy_proposals env s)

  -- The replicas of a cluster before and after, each at its place.
  abbrev pub Reached : List (Replica env) → List (Replica env) → Type 0
  Reached [] [] = Unit {0}
  Reached (r ∷ rs) (s ∷ ss) = Moves r s × Reached rs ss
  Reached _ _ = ⊥

  pub Reached-refl : (rs : List (Replica env)) → Reached rs rs
  Reached-refl [] = tt
  Reached-refl (r ∷ rs) = (stays, Reached-refl rs)

  pub length-Reached : (rs ss : List (Replica env)) → Reached rs ss → length ss ≡ length rs
  length-Reached [] [] m = refl
  length-Reached [] (s ∷ ss) m = absurd m
  length-Reached (r ∷ rs) [] m = absurd m
  length-Reached (r ∷ rs) (s ∷ ss) m = ground (arith, length-Reached rs ss)

  abbrev pub Follows : Replica env → Replica env → Type 0
  Follows s s' = (r : Replica env) → Moves r s → Moves r s'

  -- One replica moves on, the others stay.
  pub set-Reached :
      (rs ss : List (Replica env)) (id : ℕ) (s s' : Replica env)
      → get_elem? ss id ≡ some s
      → Follows s s'
      → Reached rs ss
      → Reached rs (set ss id s')
  set-Reached [] [] id s s' g f m = tt
  set-Reached [] (x ∷ ss) id s s' g f m = absurd m
  set-Reached (r ∷ rs) [] id s s' g f m = absurd m
  set-Reached (r ∷ rs) (x ∷ ss) zero s s' g f m =
      let e : x ≡ s = ground arith in (f r (rw (← e) m.0), m.1)
  set-Reached (r ∷ rs) (x ∷ ss) (suc id) s s' g f m = (m.0, set-Reached rs ss id s s' g f m.1)

  pub map-Reached :
      (rs ss : List (Replica env)) (f : Replica env → Replica env)
      → ((s : Replica env) → Follows s (f s))
      → Reached rs ss
      → Reached rs (map f ss)
  map-Reached [] [] f k m = tt
  map-Reached [] (s ∷ ss) f k m = absurd m
  map-Reached (r ∷ rs) [] f k m = absurd m
  map-Reached (r ∷ rs) (s ∷ ss) f k m = (k s r m.0, map-Reached rs ss f k m.1)

  pub handled-Reached :
      (rs ss : List (Replica env)) (id : ℕ) (s : Replica env) (e : Event)
      → get_elem? ss id ≡ some s
      → Reached rs ss
      → Reached rs (set ss id (step env s e))
  handled-Reached rs ss id s e g m =
      set-Reached rs ss id s (step env s e) g (λ r p. handles s e p) m
