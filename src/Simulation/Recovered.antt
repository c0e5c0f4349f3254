-- ===== src/Simulation/Recovered.antt =====
-- A replica of the cluster that crashes and is recovered.
use persisthotstuff_rst.Base.{
  ℕ, zero, suc, ◌<◌, ◌≡◌, refl, sym, ap, ◌∙◌, true, false, some, List, [], ◌∷◌, length, map,
  get_elem?, set, All, ◌==◌, arith,
}
use mathlib.Core.Path.{subst}
use persisthotstuff_rst.BTree.{insert_key, remove_key}
use persisthotstuff_rst.Types.{Block, Config}
use persisthotstuff_rst.Crypto.{KeyStore}
use persisthotstuff_rst.Replica.{Env, Replica, ensure_default_validators}
use persisthotstuff_rst.Recovery.{DataDir}
use persisthotstuff_rst.Recovery.Durability.{commit_stub, length-map_stub}
use persisthotstuff_rst.Persistence.{take_snapshot}
use persisthotstuff_rst.Simulation.{Simulation, done, is_crashed}
use persisthotstuff_rst.Simulation.Start.{fresh_replica, start_persistent}
use persisthotstuff_rst.Simulation.Crash.{closed_disk, close_disk, crash_replica}
use persisthotstuff_rst.Simulation.Rejoin.{rejoining, take_place, recover_replica}
use persisthotstuff_rst.Simulation.Catchup.{Extends, Advances}
use persisthotstuff_rst.Lifetime.Restarts.{IsBroughtBack}

pub get_elem?-set :
    {A : Type 0}
    → (xs : List A) (i : ℕ) (x v : A) → get_elem? xs i ≡ some x
    → get_elem? (set xs i v) i ≡ some v
get_elem?-set [] i x v g = cc
get_elem?-set (y ∷ xs) zero x v g = refl
get_elem?-set (y ∷ xs) (suc i) x v g = get_elem?-set xs i x v g

pub get_elem?-set_other :
    {A : Type 0}
    → (xs : List A) (i j : ℕ) (v : A) → (j == i) ≡ false
    → get_elem? (set xs i v) j ≡ get_elem? xs j
get_elem?-set_other [] i j v n = refl
get_elem?-set_other (y ∷ xs) zero zero v n = cc
get_elem?-set_other (y ∷ xs) zero (suc j) v n = refl
get_elem?-set_other (y ∷ xs) (suc i) zero v n = refl
get_elem?-set_other (y ∷ xs) (suc i) (suc j) v n = get_elem?-set_other xs i j v (ground arith)

pub All-set :
    {A : Type 0}
    → (P : A → Type 0) (xs : List A) (i : ℕ) (v : A) → All P xs
    → P v
    → All P (set xs i v)
All-set P [] i v h p = tt
All-set P (y ∷ xs) zero v h p = (p, h.1)
All-set P (y ∷ xs) (suc i) v h p = (h.0, All-set P xs i v h.1 p)

pub below_length :
    {A : Type 0} → (xs : List A) (i : ℕ) (x : A) → get_elem? xs i ≡ some x → i < length xs
below_length [] i x g = cc
below_length (y ∷ xs) zero x g = omega arith
below_length (y ∷ xs) (suc i) x g = omega (arith, below_length xs i x g)

pub get_below :
    {A : Type 0} (xs : List A) (i : ℕ) → i < length xs → (x : A) × (get_elem? xs i ≡ some x)
get_below [] i h = absurd (omega arith)
get_below (x ∷ xs) zero h = (x, refl)
get_below (x ∷ xs) (suc i) h = get_below xs i (omega arith)

module _ (env : Env) where
  pub fresh_replica_lem :
      (c : Config) (ks : KeyStore env.crypto) (now : ℕ)
      → ((fresh_replica env c ks now).config ≡ c) × ((fresh_replica env c ks now).current_view ≡ 0)
  unfolding fresh_replica ensure_default_validators
  fresh_replica_lem c ks now = (ground arith, ground arith)

  -- A crash that is carried out, and all it leaves.
  pub crash_replica_lem :
      (s : Simulation env) (id now : ℕ) (r : Replica env) (ks : KeyStore env.crypto) (d : DataDir)
      → s.persistence_enabled ≡ true
      → get_elem? s.replicas id ≡ some r
      → get_elem? s.replica_keystores id ≡ some ks
      → get_elem? s.disks id ≡ some d
      → is_crashed env s id ≡ false
      → crash_replica env s id now ≡ (
        record s {
          replicas = set s.replicas id (fresh_replica env r.config ks now);
          disks = set s.disks id (closed_disk env r d);
          crashed_replicas = insert_key id s.crashed_replicas;
          unresponsive_replicas = remove_key id s.unresponsive_replicas;
        },
        done,
      )
  unfolding crash_replica close_disk
  crash_replica_lem s id now r ks d p g k h c = ground (arith, below_length s.replicas id r g)

  -- A log with an entry is not given the genesis block again.
  pub take_snapshot_lem :
      (q : Replica env) (d : DataDir) (now : ℕ)
      → ((take_snapshot env q d.snapshots false now).0.committed_log ≡ q.committed_log)
        × ((take_snapshot env q d.snapshots false now).0.current_view ≡ q.current_view)
  unfolding take_snapshot
  take_snapshot_lem q d now = ground arith

  -- A recovery that is carried out.
  pub recover_replica_lem :
      (s : Simulation env) (id now : ℕ) (r q t : Replica env) (ks : KeyStore env.crypto)
      (d : DataDir)
      → s.persistence_enabled ≡ true
      → get_elem? s.replicas id ≡ some r
      → get_elem? s.replica_keystores id ≡ some ks
      → get_elem? s.disks id ≡ some d
      → is_crashed env s id ≡ true
      → start_persistent env r.config ks d now ≡ (done, some q)
      → rejoining env s id q now ≡ some t
      → recover_replica env s id now ≡ (take_place env s id t d now, done)
  unfolding recover_replica
  recover_replica_lem s id now r q t ks d p g k h c e j =
      ground (arith, below_length s.replicas id r g, e, j)

  get_elem?-stub :
      (xs : List Block) (i : ℕ) (a : Block)
      → get_elem? xs i ≡ some a
      → get_elem? (map commit_stub xs) i ≡ some (commit_stub a)
  get_elem?-stub [] i a g = cc
  get_elem?-stub (x ∷ xs) zero a g =
      let e : x ≡ a = ground arith in ap (λ (y : Block). some (commit_stub y)) e
  get_elem?-stub (x ∷ xs) (suc i) a g = get_elem?-stub xs i a g

  Extends-stub : (xs ys : List Block) → Extends (map commit_stub xs) ys → Extends xs ys
  Extends-stub xs ys e = (
    omega (arith, e.0, length-map_stub xs),
    λ i a b g k. e.1 i (commit_stub a) b (get_elem?-stub xs i a g) k,
  )

  stub-get_elem? :
      (xs : List Block) (i : ℕ) (a : Block)
      → get_elem? (map commit_stub xs) i ≡ some a
      → (b : Block) × (get_elem? xs i ≡ some b) × (b.hash ≡ a.hash)
  stub-get_elem? [] i a g = cc
  stub-get_elem? (x ∷ xs) zero a g =
      let e : commit_stub x ≡ a = ground arith in
      (x, refl, ap (λ (y : Block). y.hash) {x = commit_stub x} e)
  stub-get_elem? (x ∷ xs) (suc i) a g = stub-get_elem? xs i a g

  stub-Extends : (xs ys : List Block) → Extends xs ys → Extends (map commit_stub xs) ys
  stub-Extends xs ys e = (
    omega (arith, e.0, length-map_stub xs),
    λ i a b g k. let x = stub-get_elem? xs i a g in sym x.2 ∙ e.1 i x.0 b x.1 k,
  )

  -- A replica that was recovered from its files and advanced has all that it had at the crash.
  pub recovered-Advances :
      (r q t : Replica env) → IsBroughtBack env r q → Advances env q t → Advances env r t
  recovered-Advances r q t i a = record {
    log = Extends-stub r.committed_log t.committed_log (
        subst (λ x. Extends x t.committed_log) i.committed
          (stub-Extends q.committed_log t.committed_log a.log));
    view = omega (arith, i.view, a.view);
  }

  pub snapshot-Advances :
      (r t : Replica env) (d : DataDir) (now : ℕ)
      → Advances env r t
      → Advances env r (take_snapshot env t d.snapshots false now).0
  snapshot-Advances r t d now a =
      let e = take_snapshot_lem t d now in
      record {
        log = subst (λ x. Extends r.committed_log x) (sym (e.0)) a.log;
        view = omega (arith, e.1, a.view);
      }
