-- ===== src/Simulation/Rebased.antt =====
-- What a cluster with persistence has committed stays committed, in the replicas that are not crashed.
use persisthotstuff_rst.Base.{
  ℕ, ◌<◌, ◌^◌, ◌≡◌, sym, inl, inr, true, false, none, some, List, get_elem?, arith, Bool-cases,
  Option-cases, if◌then◌else◌,
}
use mathlib.Core.Path.{subst}
use persisthotstuff_rst.BTree.{contains}
use persisthotstuff_rst.Types.{Block}
use persisthotstuff_rst.Crypto.{KeyStore}
use persisthotstuff_rst.Wal.{WalLaws}
use persisthotstuff_rst.Snapshot.{ReadsBack}
use persisthotstuff_rst.Replica.{Env, Replica}
use persisthotstuff_rst.Recovery.Durability.{AlwaysSerializes}
use persisthotstuff_rst.Simulation.{Simulation, is_crashed}
use persisthotstuff_rst.Simulation.Catchup.{Extends, Extends-refl}
use persisthotstuff_rst.Simulation.Resumed.{AlwaysPacks}
use persisthotstuff_rst.Simulation.Held.Crashes.{disk_of}
use persisthotstuff_rst.Simulation.Dependable.{
  IsUp, IsDown, IsSafe, IsDependable, IsDependable-Keeps,
}
use persisthotstuff_rst.Simulation.Recoverable.{IsReady}

-- What the live replicas have committed in this state, and what was known of the crashed ones.
abbrev pub logs_of : {env : Env} → (ℕ → List Block) → Simulation env → ℕ → List Block
logs_of base s id = elim (get_elem? s.replicas id) [
  | none ↦ base id
  | some r ↦ if contains id s.crashed_replicas then base id else r.committed_log
]

module _ (env : Env) (laws : WalLaws env.wal_lib) (reads : ReadsBack env.snap_lib)
    (packs : AlwaysPacks env.snap_lib) (serializes : AlwaysSerializes env.wal_lib) (n : ℕ)
    (keys : List (KeyStore env.crypto)) where
  pub logs_of_live :
      (base : ℕ → List Block) (s : Simulation env) (id : ℕ) (r : Replica env)
      → get_elem? s.replicas id ≡ some r
      → is_crashed env s id ≡ false
      → logs_of base s id ≡ r.committed_log
  unfolding is_crashed
  logs_of_live base s id r g c = ground arith

  logs_of_crashed :
      (base : ℕ → List Block) (s : Simulation env) (id : ℕ)
      → is_crashed env s id ≡ true
      → logs_of base s id ≡ base id
  unfolding is_crashed
  logs_of_crashed base s id c = elim (Option-cases (get_elem? s.replicas id)) [
    | inl e ↦ ground arith
    | inr (r, e) ↦ ground arith
  ]

  -- What is committed now may be what is kept from now on.
  pub rebased :
      (base : ℕ → List Block) (k : ℕ) (s : Simulation env)
      → IsReady env base laws reads packs serializes n keys k s
      → IsReady env (logs_of base s) laws reads packs serializes n keys k s
  unfolding is_crashed
  rebased base k s h = record {
    is_on = h.is_on;
    same_keys = h.same_keys;
    same_crashed = h.same_crashed;
    size = h.size;
    cells = record {
      same_length = h.cells.same_length;
      cell = λ id r d g y b.
          let u = h.cells.cell id r d g y b in
          elim (Bool-cases (contains id s.crashed_replicas)) [
            | inr c ↦
                let v : IsUp env base k id r d = subst (IsSafe env base k id r d) c u in
                subst (IsSafe env (logs_of base s) k id r d) (sym c) (record {
                  kept = v.kept;
                  few = v.few;
                  low = v.low;
                  grown =
                      subst (λ x. Extends x r.committed_log) (sym (logs_of_live base s id r g c))
                        (Extends-refl env r.committed_log);
                })
            | inl c ↦
                let v : IsDown env base k id r d = subst (IsSafe env base k id r d) c u in
                subst (IsSafe env (logs_of base s) k id r d) (sym c) (record {
                  before = v.before;
                  kept = v.kept;
                  closed = v.closed;
                  few = v.few;
                  low = v.low;
                  low_before = v.low_before;
                  grown =
                      subst (λ x. Extends x v.before.committed_log)
                        (sym (logs_of_crashed base s id c)) v.grown;
                })
          ];
    };
  }

  -- A live replica has what it should have kept.
  pub live-Extends :
      (base : ℕ → List Block) (k : ℕ) (s : Simulation env) (id : ℕ) (r : Replica env)
      → k < 2 ^ 64
      → get_elem? s.replicas id ≡ some r
      → is_crashed env s id ≡ false
      → IsReady env base laws reads packs serializes n keys k s
      → Extends (base id) r.committed_log
  unfolding is_crashed
  live-Extends base k s id r bound g c h =
      let d =
        disk_of env (IsDependable env base) n keys
          (IsDependable-Keeps env base laws reads serializes) s.replicas s.disks id r
          h.cells.same_length g in
      let u : IsUp env base k id r d.0 =
        subst (IsSafe env base k id r d.0) c (h.cells.cell id r d.0 g d.1 bound) in
      u.grown
