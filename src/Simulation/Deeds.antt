-- ===== src/Simulation/Deeds.antt =====
-- Actions and recoveries of a cluster with persistence, in any order.
use persisthotstuff_rst.Base.{
  ℕ, suc, ◌+◌, ◌*◌, ◌^◌, ◌<◌, ◌≤◌, ◌≡◌, sym, inl, inr, true, false, some, get_elem?, List, [], ◌∷◌,
  length, leb, arith, Bool-cases,
}
use mathlib.Core.Path.{subst}
use persisthotstuff_rst.Types.{Block}
use persisthotstuff_rst.Crypto.{KeyStore}
use persisthotstuff_rst.Wal.{WalLaws}
use persisthotstuff_rst.Snapshot.{ReadsBack}
use persisthotstuff_rst.Replica.{Env, Replica}
use persisthotstuff_rst.Recovery.Durability.{AlwaysSerializes}
use persisthotstuff_rst.Simulation.{Simulation, done, is_crashed}
use persisthotstuff_rst.Simulation.Rejoin.{recover_replica}
use persisthotstuff_rst.Simulation.Actions.{Action, play}
use persisthotstuff_rst.Simulation.Resumed.{AlwaysPacks}
use persisthotstuff_rst.Simulation.Held.Rounds.{more-Stands}
use persisthotstuff_rst.Simulation.Held.Plays.{play-StandsNow}
use persisthotstuff_rst.Simulation.Dependable.{IsDependable, IsDependable-Keeps}
use persisthotstuff_rst.Simulation.Catchup.{Extends}
use persisthotstuff_rst.Simulation.Rebased.{logs_of, logs_of_live, rebased, live-Extends}
use persisthotstuff_rst.Simulation.Recoverable.{IsReady, recovers-IsReady}

pub data Deed : Type 0 where
  acts : Action → Deed
  recovers : (id now : ℕ) → Deed

cost_lem : (n m k : ℕ) → suc n * m + (suc n + k) ≡ suc n * suc m + k
cost_lem n m k = grind arith

module _ (env : Env) where
  unfoldable pub perform : Simulation env → Deed → Simulation env
  unfolding play
  perform s (acts a) = play env s a
  perform s (recovers id now) = (recover_replica env s id now).0

  unfoldable pub perform_all : Simulation env → List Deed → Simulation env
  unfolding perform
  perform_all s [] = s
  perform_all s (d ∷ ds) = perform_all (perform s d) ds

module _ (env : Env) (base : ℕ → List Block) where
  module _ (laws : WalLaws env.wal_lib) (reads : ReadsBack env.snap_lib)
      (packs : AlwaysPacks env.snap_lib) (serializes : AlwaysSerializes env.wal_lib) (n : ℕ)
      (keys : List (KeyStore env.crypto)) where
    abbrev Ready : ℕ → Simulation env → Type 0
    Ready k s = IsReady env base laws reads packs serializes n keys k s

    more-Ready : (m k : ℕ) (s : Simulation env) → Ready k s → Ready (m + k) s
    more-Ready m k s h =
        more-Stands env (IsDependable env base) n keys
          (IsDependable-Keeps env base laws reads serializes) m k s.crashed_replicas s h

    -- A recovery that is refused changes nothing.
    refused_lem :
        (s : Simulation env) (id now : ℕ)
        → s.persistence_enabled ≡ true
        → is_crashed env s id ≡ false
        → (recover_replica env s id now).0 ≡ s
    unfolding recover_replica
    refused_lem s id now p c = ground arith

    outside_lem :
        (s : Simulation env) (id now : ℕ)
        → s.persistence_enabled ≡ true
        → length s.replicas ≤ id
        → (recover_replica env s id now).0 ≡ s
    unfolding recover_replica
    outside_lem s id now p l = ground arith

    perform-IsReady :
        (k : ℕ) (s : Simulation env) (d : Deed)
        → length keys ≡ n
        → suc k < 2 ^ 64
        → Ready k s
        → Ready (suc n + k) (perform env s d)
    unfolding perform
    perform-IsReady k s (acts a) all bound h =
        subst (λ x. Ready x (play env s a)) {x = 1 + (n + k)} {y = suc n + k} (omega arith)
          (more-Ready 1 (n + k) (play env s a) (
            play-StandsNow env (IsDependable env base) n keys
              (IsDependable-Keeps env base laws reads serializes) k s a h))
    perform-IsReady k s (recovers id now) all bound h =
        let t = (recover_replica env s id now).0 in
        elim (Bool-cases (is_crashed env s id)) [
          | inr c ↦
              subst (Ready (suc n + k)) (sym (refused_lem s id now h.is_on c))
                (more-Ready (suc n) k s h)
          | inl c ↦ elim (Bool-cases (leb (length s.replicas) id)) [
            | inl l ↦
                subst (Ready (suc n + k)) (sym (outside_lem s id now h.is_on (ground arith)))
                  (more-Ready (suc n) k s h)
            | inr l ↦
                let r =
                  recovers-IsReady env base laws reads packs serializes n keys k s id now bound all
                    (ground (arith, h.size)) c h in
                subst (λ x. Ready x t) {x = n + suc k} {y = suc n + k} (omega arith)
                  (more-Ready n (suc k) t r.2)
          ]
        ]

    perform_all-IsReady :
        (k : ℕ) (s : Simulation env) (ds : List Deed)
        → length keys ≡ n
        → suc n * length ds + k < 2 ^ 64
        → Ready k s
        → Ready (suc n * length ds + k) (perform_all env s ds)
    unfolding perform_all
    perform_all-IsReady k s [] all bound h =
        subst (λ x. Ready x s) {x = k} {y = suc n * 0 + k} (grind arith) h
    perform_all-IsReady k s (d ∷ ds) all bound h =
        let c = cost_lem n (length ds) k in
        subst (λ x. Ready x (perform_all env (perform env s d) ds)) c
          (perform_all-IsReady (suc n + k) (perform env s d) ds all
            (subst (λ x. x < 2 ^ 64) (sym c) bound)
            (perform-IsReady k s d all (omega (arith, c, bound)) h))

    -- A cluster with persistence, all of whose data directories bring back their replicas (with at
    -- least the blocks that `base` names as committed there), goes through rounds, crashes,
    -- recoveries and changes in whatever order. Then each replica that is crashed in the end is
    -- recovered successfully: it is not crashed any more, and all data directories bring back their
    -- replicas again, with at least these blocks. The libraries keep what they document and can
    -- serialise everything, every replica has its key store, and so few things happen that no
    -- snapshot number can reach 2^64.
    pub crashed_are_recoverable :
        (k : ℕ) (s : Simulation env) (ds : List Deed) (id now : ℕ)
        → length keys ≡ n
        → suc (suc n * length ds + k) < 2 ^ 64
        → Ready k s
        → id < n
        → is_crashed env (perform_all env s ds) id ≡ true
        → ((recover_replica env (perform_all env s ds) id now).1 ≡ done)
          × (is_crashed env (recover_replica env (perform_all env s ds) id now).0 id ≡ false)
          × Ready
              (suc (suc n * length ds + k))
              (recover_replica env (perform_all env s ds) id now).0
    crashed_are_recoverable k s ds id now all bound h below c =
        recovers-IsReady env base laws reads packs serializes n keys (suc n * length ds + k)
          (perform_all env s ds) id now bound all below c
          (perform_all-IsReady k s ds all (omega arith) h)

module _ (env : Env) (laws : WalLaws env.wal_lib) (reads : ReadsBack env.snap_lib)
    (packs : AlwaysPacks env.snap_lib) (serializes : AlwaysSerializes env.wal_lib) (n : ℕ)
    (keys : List (KeyStore env.crypto)) where
  -- In a cluster with persistence, all of whose data directories bring back their replicas, a
  -- replica that is not crashed has a committed log. After rounds, crashes, recoveries and changes
  -- in whatever order, if it is again not crashed, its log begins with the hashes of that log, in
  -- the same order: no committed hash is lost or moved. The libraries
  -- keep what they document and can serialise everything, every replica has its key store, and so
  -- few things happen that no snapshot number can reach 2^64.
  pub committed_stays_committed :
      (base : ℕ → List Block) (k : ℕ) (s : Simulation env) (ds : List Deed) (id : ℕ)
      (r t : Replica env)
      → length keys ≡ n
      → suc n * length ds + k < 2 ^ 64
      → IsReady env base laws reads packs serializes n keys k s
      → get_elem? s.replicas id ≡ some r
      → is_crashed env s id ≡ false
      → get_elem? (perform_all env s ds).replicas id ≡ some t
      → is_crashed env (perform_all env s ds) id ≡ false
      → Extends r.committed_log t.committed_log
  committed_stays_committed base k s ds id r t all bound h g c g' c' =
      subst (λ x. Extends x t.committed_log)
        (logs_of_live env laws reads packs serializes n keys base s id r g c)
        (live-Extends env laws reads packs serializes n keys (logs_of base s)
          (suc n * length ds + k) (perform_all env s ds) id t bound g' c'
          (perform_all-IsReady env (logs_of base s) laws reads packs serializes n keys k s ds all
            bound (rebased env laws reads packs serializes n keys base k s h)))
