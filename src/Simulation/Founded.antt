-- ===== src/Simulation/Founded.antt =====
-- A new cluster with persistence, on empty data directories.
use persisthotstuff_rst.Base.{
  ℕ, zero, suc, ◌+◌, ◌<◌, ◌≡◌, refl, sym, ap, ◌∙◌, ◌⊎◌, inl, inr, true, some, List, [], ◌∷◌, ◌++◌,
  length, length-append, get_elem?, replicate, arith,
}
use mathlib.Core.Path.{subst}
use persisthotstuff_rst.BTree.{contains}
use persisthotstuff_rst.Types.{Block, Config}
use persisthotstuff_rst.Crypto.{KeyStore}
use persisthotstuff_rst.Wal.{Wal, WalLaws, create, header}
use persisthotstuff_rst.Snapshot.{ReadsBack, load_latest}
use persisthotstuff_rst.Network.{new}
use persisthotstuff_rst.Replica.{Env, Replica}
use persisthotstuff_rst.Recovery.{recover, start_of, start_fresh, build, fresh}
use persisthotstuff_rst.Recovery.Durability.{AlwaysSerializes}
use persisthotstuff_rst.Recovery.Crash.{with_wal, recover_empty-IsDurable}
use persisthotstuff_rst.Simulation.{Simulation, done}
use persisthotstuff_rst.Simulation.Start.{start_persistent, start_replicas, new_with_options}
use persisthotstuff_rst.Simulation.Resumed.{AlwaysPacks}
use persisthotstuff_rst.Simulation.Dependable.{IsUp}
use persisthotstuff_rst.Simulation.Recoverable.{IsReady}
use persisthotstuff_rst.Simulation.Recovered.{get_below}
use persisthotstuff_rst.Lifetime.Restarts.{started-IsKept}
use persisthotstuff_rst.Lifetime.Survival.{empty_disk}

length-replicate : {A : Type 0} (n : ℕ) (x : A) → length (replicate n x) ≡ n
length-replicate zero x = refl
length-replicate (suc n) x = ap suc (length-replicate n x)

get_elem?-replicate : {A : Type 0} (n i : ℕ) (x : A) → i < n → get_elem? (replicate n x) i ≡ some x
get_elem?-replicate zero i x h = absurd (omega arith)
get_elem?-replicate (suc n) zero x h = refl
get_elem?-replicate (suc n) (suc i) x h = get_elem?-replicate n i x (omega arith)

replicate_only : {A : Type 0} (n i : ℕ) (x y : A) → get_elem? (replicate n x) i ≡ some y → x ≡ y
replicate_only zero i x y g = cc
replicate_only (suc n) zero x y g = ground arith
replicate_only (suc n) (suc i) x y g = replicate_only n i x y g

get_elem?-append_one :
    {A : Type 0} (xs : List A) (x y : A) (i : ℕ)
    → get_elem? (xs ++ x ∷ []) i ≡ some y
    → (get_elem? xs i ≡ some y) ⊎ ((x ≡ y) × (length xs ≡ i))
get_elem?-append_one [] x y zero g = inr (ground arith, refl)
get_elem?-append_one [] x y (suc i) g = cc
get_elem?-append_one (z ∷ xs) x y zero g = inl g
get_elem?-append_one (z ∷ xs) x y (suc i) g = elim (get_elem?-append_one xs x y i g) [
  | inl old ↦ inl old
  | inr (same, at) ↦ inr (same, ap suc at)
]

-- Nothing is committed yet.
abbrev pub nothing : ℕ → List Block
nothing id = []

module _ (env : Env) where
  first_started :
      (serializes : AlwaysSerializes env.wal_lib) (c : Config) (ks : KeyStore env.crypto) (now : ℕ)
      → (q : Replica env) × (start_persistent env c ks (empty_disk env) now ≡ (done, some q))
        × IsUp env nothing 0 c.id q (empty_disk env)
  unfolding recover start_of create load_latest build start_fresh
  first_started serializes c ks now =
      let w : Wal = record {
        content = header c.id now;
        cursor = length (header c.id now);
        replica_id = c.id;
        entry_count = 0;
      } in
      let r = build env c ks (start_fresh c) fresh now in
      let q =
        started-IsKept env serializes c ks (empty_disk env) now (start_fresh c) r w refl refl
          (recover_empty-IsDurable env c ks now r w refl) refl refl tt in
      (
        with_wal env r q.0,
        q.1,
        record {
          kept = q.2;
          few = omega arith;
          low = omega arith;
          grown = (omega arith, λ i a b g k. cc);
        },
      )

  -- All replicas of the list are as they started.
  AreUp : List (Replica env) → Type 0
  AreUp rs =
      (j : ℕ) (r : Replica env) → get_elem? rs j ≡ some r → IsUp env nothing 0 j r (empty_disk env)

  start_replicas_lem :
      (serializes : AlwaysSerializes env.wal_lib) (n f left id : ℕ)
      (keystores : List (KeyStore env.crypto)) (now : ℕ) (rs : List (Replica env))
      → left + id ≡ n
      → length keystores ≡ n
      → length rs ≡ id
      → AreUp rs
      → (ss : List (Replica env)) × (start_replicas env n f true left id keystores
            (replicate n (empty_disk env))
            now
            rs
          ≡ (done, ss))
        × (length ss ≡ n)
        × AreUp ss
  unfolding start_replicas AreUp
  start_replicas_lem serializes n f zero id keystores now rs e l s up = (rs, refl, omega arith, up)
  start_replicas_lem serializes n f (suc left) id keystores now rs e l s up =
      let ks = get_below keystores id (omega arith) in
      let d = get_elem?-replicate n id (empty_disk env) (omega arith) in
      let c : Config = record { n = n; f = f; id = id; timeout_ms = 5000 } in
      let q = first_started serializes c ks.0 now in
      let rest =
        start_replicas_lem serializes n f left (id + 1) keystores now (rs ++ q.0 ∷ []) (omega arith)
          l (length-append rs (q.0 ∷ []) ∙ omega arith)
          (λ j r g. elim (get_elem?-append_one rs q.0 r j g) [
            | inl old ↦ up j r old
            | inr (same, at) ↦
                subst (λ x. IsUp env nothing 0 j x (empty_disk env)) same
                  (subst (λ i. IsUp env nothing 0 i q.0 (empty_disk env)) (sym s ∙ at) q.2)
          ]) in
      (rest.0, ground (arith, ks.1, d, q.1, rest.1), rest.2, rest.3)

  -- A new cluster with persistence starts successfully on empty data directories, if there is a
  -- key store for each replica and the libraries keep what they document and can serialise
  -- everything; and every data directory brings its replica back.
  pub new_with_options-IsReady :
      (laws : WalLaws env.wal_lib) (reads : ReadsBack env.snap_lib)
      (packs : AlwaysPacks env.snap_lib) (serializes : AlwaysSerializes env.wal_lib)
      (n f max_steps : ℕ) (keystores : List (KeyStore env.crypto)) (now : ℕ)
      → length keystores ≡ n
      → (s : Simulation env) × (new_with_options env n f max_steps true keystores
            (replicate n (empty_disk env))
            now
          ≡ (done, some s))
        × IsReady env nothing laws reads packs serializes n keystores 0 s
  unfolding new_with_options AreUp contains
  new_with_options-IsReady laws reads packs serializes n f max_steps keystores now l =
      let disks = replicate n (empty_disk env) in
      let started =
        start_replicas_lem serializes n f n 0 keystores now [] (omega arith) l refl
          (λ j r g. absurd (ground arith)) in
      let s : Simulation env = record {
        replicas = started.0;
        network = new n;
        step = 0;
        max_steps = max_steps;
        persistence_enabled = true;
        disks = disks;
        replica_keystores = keystores;
        crashed_replicas = [];
        unresponsive_replicas = [];
        last_response_ms = replicate n 0;
        simulated_time_ms = 0;
        round_time_ms = 1000;
      } in
      (
        s,
        ground (arith, started.1),
        record {
          is_on = refl;
          same_keys = refl;
          same_crashed = refl;
          size = started.2;
          cells = record {
            same_length = length-replicate n (empty_disk env) ∙ sym started.2;
            cell = λ id r d g y b.
                subst (λ x. IsUp env nothing 0 id r x) (replicate_only n id (empty_disk env) d y)
                  (started.3 id r g);
          };
        },
      )
