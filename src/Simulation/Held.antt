-- ===== src/Simulation/Held.antt =====
-- Invariants of a replica with its data directory, over the whole cluster.
pub mod Delivery
pub mod Crashes
pub mod Rounds
pub mod Plays
use persisthotstuff_rst.Base.{
  ℕ, zero, suc, ◌+◌, ◌≡◌, refl, sym, ap, ◌∙◌, inl, inr, Bool, true, false, Option, none, some, List,
  [], ◌∷◌, length, get_elem?, set, ◌==◌, Bool-cases, arith,
}
use mathlib.Core.Path.{subst}
use mathlib.Core.Option
use persisthotstuff_rst.BTree.{BTreeSet, contains, insert_key}
use persisthotstuff_rst.BTree.SetLaws.{contains-insert_key}
use persisthotstuff_rst.Types.{Hash, ConsensusCommand}
use persisthotstuff_rst.Crypto.{KeyStore}
use persisthotstuff_rst.Replica.{Env, Replica}
use persisthotstuff_rst.Replica.Proposals.{propose_with_hash}
use persisthotstuff_rst.Replica.Pacemaker.{
  propose_next_with_hash, enqueue_command, enable_dummy_proposals, disable_dummy_proposals,
}
use persisthotstuff_rst.Recovery.{DataDir}
use persisthotstuff_rst.Persistence.{take_snapshot}
use persisthotstuff_rst.Machine.{Event, step}
use persisthotstuff_rst.Simulation.{Simulation}
use persisthotstuff_rst.Simulation.Start.{fresh_replica}
use persisthotstuff_rst.Simulation.Crash.{closed_disk, close_disk}
use persisthotstuff_rst.Simulation.Recovered.{get_elem?-set, get_elem?-set_other}

pub length-set : {A : Type 0} → (xs : List A) (i : ℕ) (x : A) → length (set xs i x) ≡ length xs
length-set [] i x = refl
length-set (y ∷ xs) zero x = refl
length-set (y ∷ xs) (suc i) x = ap suc (length-set xs i x)

module _ (env : Env) where
  -- What holds of a replica at its place, its data directory and the flag that says whether it is crashed. The first
  -- number bounds the snapshots that were taken.
  abbrev pub Held : Type 1
  Held = ℕ → ℕ → Replica env → DataDir → Bool → Type 0

  -- What the operations of a cluster do to one replica keeps it.
  pub record Keeps (P : Held) : Type 0 where
    pub handles :
        (k id : ℕ) (r : Replica env) (d : DataDir) (c : Bool) (e : Event)
        → P k id r d c
        → P k id (step env r e) d c
    pub proposes :
        (k id : ℕ) (r : Replica env) (d : DataDir) (c : Bool) (view : ℕ) (hash : Hash) (now : ℕ)
        → P k id r d c
        → P k id (propose_with_hash env r view hash now).0 d c
    pub proposes_next :
        (k id : ℕ) (r : Replica env) (d : DataDir) (c : Bool) (view : ℕ) (hash : Hash) (now : ℕ)
        → P k id r d c
        → P k id (propose_next_with_hash env r view hash now).0 d c
    pub queues :
        (k id : ℕ) (r : Replica env) (d : DataDir) (c : Bool) (command : ConsensusCommand)
        → P k id r d c
        → P k id (enqueue_command env r command) d c
    pub enables :
        (k id : ℕ) (r : Replica env) (d : DataDir) (c : Bool) (ms : ℕ)
        → P k id r d c
        → P k id (enable_dummy_proposals env r ms) d c
    pub disables :
        (k id : ℕ) (r : Replica env) (d : DataDir) (c : Bool)
        → P k id r d c
        → P k id (disable_dummy_proposals env r) d c
    pub waits :
        (k id : ℕ) (r : Replica env) (d : DataDir) (c : Bool) → P k id r d c → P (suc k) id r d c
    pub snapshots :
        (k id : ℕ) (r : Replica env) (d : DataDir) (now : ℕ)
        → P k id r d false
        → P
            (suc k)
            id
            (take_snapshot env r d.snapshots false now).0
            (record d { snapshots = (take_snapshot env r d.snapshots false now).1 })
            false
    pub crashes :
        (k id : ℕ) (r : Replica env) (d : DataDir) (ks : KeyStore env.crypto) (now : ℕ)
        → P k id r d false
        → P k id (fresh_replica env r.config ks now) (closed_disk env r d) true

  module _ (P : Held) where
    -- Every replica has a data directory, and what is claimed holds of both.
    pub record Cells (k : ℕ) (crashed : BTreeSet) (rs : List (Replica env)) (ds : List DataDir)
        : Type 0 where
      pub same_length : length ds ≡ length rs
      pub cell :
          (id : ℕ) (r : Replica env) (d : DataDir)
          → get_elem? rs id ≡ some r
          → get_elem? ds id ≡ some d
          → P k id r d (contains id crashed)

    -- One replica moves on, the others stay.
    pub set-Cells :
        (k : ℕ) (crashed : BTreeSet) (rs : List (Replica env)) (ds : List DataDir) (id : ℕ)
        (s s' : Replica env)
        → get_elem? rs id ≡ some s
        → ((d : DataDir) (c : Bool) → P k id s d c → P k id s' d c)
        → Cells k crashed rs ds
        → Cells k crashed (set rs id s') ds
    set-Cells k crashed rs ds id s s' g f h = record {
      same_length = h.same_length ∙ sym (length-set rs id s');
      cell = λ j r d m n. elim (Bool-cases (j == id)) [
        | inl t ↦
            let e : j ≡ id = ground arith in
            let q : s' ≡ r = ground (arith, get_elem?-set rs id s s' g) in
            subst (λ x. P k x r d (contains x crashed)) (sym e)
              (subst (λ x. P k id x d (contains id crashed)) q
                (f d (contains id crashed) (h.cell id s d g (ap (get_elem? ds) (sym e) ∙ n))))
        | inr x ↦ h.cell j r d (sym (get_elem?-set_other rs id j s' x) ∙ m) n
      ];
    }

    pub waits-Cells :
        (keeps : Keeps P) (k : ℕ) (crashed : BTreeSet) (rs : List (Replica env)) (ds : List DataDir)
        → Cells k crashed rs ds
        → Cells (suc k) crashed rs ds
    waits-Cells keeps k crashed rs ds h = record {
      same_length = h.same_length;
      cell = λ j r d m n. keeps.waits k j r d (contains j crashed) (h.cell j r d m n);
    }

    -- One replica and its data directory change, and perhaps whether it counts as crashed.
    pub both-Cells :
        (k : ℕ) (crashed crashed' : BTreeSet) (rs : List (Replica env)) (ds : List DataDir) (id : ℕ)
        (s' : Replica env) (d' : DataDir) (s : Replica env) (d : DataDir)
        → get_elem? rs id ≡ some s
        → get_elem? ds id ≡ some d
        → ((j : ℕ) → (j == id) ≡ false → contains j crashed' ≡ contains j crashed)
        → P k id s' d' (contains id crashed')
        → Cells k crashed rs ds
        → Cells k crashed' (set rs id s') (set ds id d')
    both-Cells k crashed crashed' rs ds id s' d' s d g y other f h = record {
      same_length = length-set ds id d' ∙ h.same_length ∙ sym (length-set rs id s');
      cell = λ j r e m n. elim (Bool-cases (j == id)) [
        | inl t ↦
            let i : j ≡ id = ground arith in
            let q : s' ≡ r = ground (arith, get_elem?-set rs id s s' g) in
            let o : d' ≡ e = ground (arith, get_elem?-set ds id d d' y) in rw (← q, ← o, i) f
        | inr x ↦ rw (other j x) (
            h.cell j r e (sym (get_elem?-set_other rs id j s' x) ∙ m)
              (sym (get_elem?-set_other ds id j d' x) ∙ n))
      ];
    }

    -- A cluster with persistence, `n` replicas, the key stores `keys` and the crashed replicas `out`.
    pub record Persists (k : ℕ) (out : BTreeSet) (n : ℕ) (keys : List (KeyStore env.crypto))
        (persistent : Bool) (keystores : List (KeyStore env.crypto)) (crashed : BTreeSet)
        (rs : List (Replica env)) (ds : List DataDir) : Type 0 where
      pub is_on : persistent ≡ true
      pub same_keys : keystores ≡ keys
      pub same_crashed : crashed ≡ out
      pub size : length rs ≡ n
      pub cells : Cells k crashed rs ds

    abbrev pub Stands : ℕ → BTreeSet → ℕ → List (KeyStore env.crypto) → Simulation env → Type 0
    Stands k out n keys s =
        Persists k out n keys s.persistence_enabled s.replica_keystores s.crashed_replicas
          s.replicas s.disks

    module _ (n : ℕ) (keys : List (KeyStore env.crypto)) where
      pub set-Stands :
          (k : ℕ) (out : BTreeSet) (s : Simulation env) (id : ℕ) (r r' : Replica env)
          → get_elem? s.replicas id ≡ some r
          → ((d : DataDir) (c : Bool) → P k id r d c → P k id r' d c)
          → Stands k out n keys s
          → Persists k out n keys s.persistence_enabled s.replica_keystores s.crashed_replicas
              (set s.replicas id r')
              s.disks
      set-Stands k out s id r r' g f h = record {
        is_on = h.is_on;
        same_keys = h.same_keys;
        same_crashed = h.same_crashed;
        size = length-set s.replicas id r' ∙ h.size;
        cells = set-Cells k s.crashed_replicas s.replicas s.disks id r r' g f h.cells;
      }

      pub handled-Stands :
          (keeps : Keeps P) (k : ℕ) (out : BTreeSet) (s : Simulation env) (id : ℕ) (r : Replica env)
          (e : Event)
          → get_elem? s.replicas id ≡ some r
          → Stands k out n keys s
          → Persists k out n keys s.persistence_enabled s.replica_keystores s.crashed_replicas
              (set s.replicas id (step env r e))
              s.disks
      handled-Stands keeps k out s id r e g h =
          set-Stands k out s id r (step env r e) g (λ d c p. keeps.handles k id r d c e p) h

      pub waits-Stands :
          (keeps : Keeps P) (k : ℕ) (out : BTreeSet) (s : Simulation env)
          → Stands k out n keys s
          → Stands (suc k) out n keys s
      waits-Stands keeps k out s h = record {
        is_on = h.is_on;
        same_keys = h.same_keys;
        same_crashed = h.same_crashed;
        size = h.size;
        cells = waits-Cells keeps k s.crashed_replicas s.replicas s.disks h.cells;
      }
