-- ===== src/Simulation/Held/Crashes.antt =====
-- The loops, commits and crashes of a round keep what they should of the cluster.
use persisthotstuff_rst.Base.{
  ℕ, zero, suc, ◌+◌, ◌≡◌, refl, ap, ◌∙◌, inl, inr, Bool, true, false, some, List, [], ◌∷◌, length,
  get_elem?, set, arith, ◌&&◌, Bool-cases, Option-cases,
}
use mathlib.Core.Path.{subst}
use persisthotstuff_rst.BTree.{BTreeSet, contains, insert_key}
use persisthotstuff_rst.BTree.SetLaws.{contains-insert_key}
use persisthotstuff_rst.Crypto.{KeyStore}
use persisthotstuff_rst.Replica.{Env, Replica}
use persisthotstuff_rst.Recovery.{DataDir}
use persisthotstuff_rst.Persistence.{take_snapshot, should_snapshot}
use persisthotstuff_rst.Machine.{step, commits}
use persisthotstuff_rst.Simulation.{Simulation, is_crashed}
use persisthotstuff_rst.Simulation.Start.{fresh_replica}
use persisthotstuff_rst.Simulation.Crash.{
  closed_disk, close_disk, crash_replica, timed_out, crash_each, process_timeout_crashes,
}
use persisthotstuff_rst.Simulation.Round.{for_each_live, commit_at}
use persisthotstuff_rst.Simulation.Held.{
  Held, Keeps, Stands, Persists, handled-Stands, waits-Stands, waits-Cells, both-Cells, length-set,
}

up : (i j : ℕ) → i + suc j ≡ suc i + j
up i j = omega arith

module _ (env : Env) where
  -- A loop over the replicas keeps what its body keeps, at the cost of one step for each.
  pub for_each_live-keeps :
      (Q : ℕ → Simulation env → Type 0) (body : Simulation env → ℕ → Simulation env)
      (out : ℕ → Bool) (left id j : ℕ) (s : Simulation env)
      → ((j : ℕ) (s : Simulation env) → Q j s → Q (suc j) s)
      → ((j : ℕ) (s : Simulation env) (id : ℕ) → out id ≡ false → Q j s → Q (suc j) (body s id))
      → Q j s
      → Q (left + j) (for_each_live env body out left id s)
  unfolding for_each_live
  for_each_live-keeps Q body out zero id j s skip keep h =
      subst (λ x. Q x s) {x = j} (omega arith) h
  for_each_live-keeps Q body out (suc left) id j s skip keep h = elim (Bool-cases (out id)) [
    | inl t ↦
        rw (t, for_each_live)
          (subst (λ x. Q x (for_each_live env body out left (id + 1) s)) (up left j)
            (for_each_live-keeps Q body out left (id + 1) (suc j) s skip keep (skip j s h)))
    | inr f ↦
        rw (f, for_each_live)
          (subst (λ x. Q x (for_each_live env body out left (id + 1) (body s id))) (up left j)
            (for_each_live-keeps Q body out left (id + 1) (suc j) (body s id) skip keep
              (keep j s id f h)))
  ]

module _ (env : Env) (P : Held env) (n : ℕ) (keys : List (KeyStore env.crypto))
    (keeps : Keeps env P) where
  -- A replica that is there has a data directory.
  pub disk_of :
      (rs : List (Replica env)) (ds : List DataDir) (id : ℕ) (r : Replica env)
      → length ds ≡ length rs
      → get_elem? rs id ≡ some r
      → (d : DataDir) × (get_elem? ds id ≡ some d)
  disk_of [] ds id r e g = cc
  disk_of (x ∷ rs) [] id r e g = absurd (omega arith)
  disk_of (x ∷ rs) (d ∷ ds) zero r e g = (d, refl)
  disk_of (x ∷ rs) (d ∷ ds) (suc id) r e g = disk_of rs ds id r (omega arith) g

  pub commit_at-Stands :
      (now k : ℕ) (crashed : BTreeSet) (s : Simulation env) (id : ℕ)
      → contains id crashed ≡ false
      → Stands env P k crashed n keys s
      → Stands env P (suc k) crashed n keys (commit_at env now s id)
  unfolding commit_at step
  commit_at-Stands now k crashed s id live h = elim (Option-cases (get_elem? s.replicas id)) [
    | inl nobody ↦ ground (arith, waits-Stands env P n keys keeps k crashed s h)
    | inr (r, g) ↦
        let r1 = step env r (commits now) in
        let committed =
          waits-Stands env P n keys keeps k crashed (record s { replicas = set s.replicas id r1 })
            (handled-Stands env P n keys keeps k crashed s id r (commits now) g h) in
        elim (Bool-cases (s.persistence_enabled && should_snapshot env r1)) [
          | inr f ↦ ground (arith, committed)
          | inl t ↦
              let d = disk_of s.replicas s.disks id r h.cells.same_length g in
              let taken = take_snapshot env r1 (d.0).snapshots false now in
              let both : Persists env P (suc k) crashed n keys s.persistence_enabled
                  s.replica_keystores s.crashed_replicas (set s.replicas id taken.0)
                  (set s.disks id (record (d.0) { snapshots = taken.1 })) =
                record {
                  is_on = h.is_on;
                  same_keys = h.same_keys;
                  same_crashed = h.same_crashed;
                  size = length-set s.replicas id taken.0 ∙ h.size;
                  cells =
                      both-Cells env P (suc k) s.crashed_replicas s.crashed_replicas s.replicas
                        s.disks id taken.0 (record (d.0) { snapshots = taken.1 }) r d.0 g d.1
                        (λ j x. refl)
                        (let f : contains id s.crashed_replicas ≡ false =
                            ap (contains id) h.same_crashed ∙ live in
                          rw f (
                            keeps.snapshots k id r1 d.0 now (
                              keeps.handles k id r d.0 false (commits now)
                                (subst (P k id r d.0) f (h.cells.cell id r d.0 g d.1)))))
                        (waits-Cells env P keeps k s.crashed_replicas s.replicas s.disks h.cells);
                } in
              ground (arith, d.1, both)
        ]
  ]

  -- A crash, of which the set of crashed replicas learns.
  abbrev pub StandsNow : ℕ → Simulation env → Type 0
  StandsNow k s = Stands env P k s.crashed_replicas n keys s

  pub crash_replica-StandsNow :
      (k : ℕ) (s : Simulation env) (id now : ℕ)
      → StandsNow k s
      → StandsNow k (crash_replica env s id now).0
  unfolding crash_replica close_disk is_crashed
  crash_replica-StandsNow k s id now h = elim (Bool-cases (contains id s.crashed_replicas)) [
    | inl t ↦ ground (arith, h)
    | inr live ↦ elim (Option-cases (get_elem? s.replicas id)) [
      | inl nobody ↦ ground (arith, h)
      | inr (r, g) ↦ elim (Option-cases (get_elem? s.replica_keystores id)) [
        | inl no_key ↦ ground (arith, h)
        | inr (ks, y) ↦
            let d = disk_of s.replicas s.disks id r h.cells.same_length g in
            let fresh = fresh_replica env r.config ks now in
            let out = insert_key id s.crashed_replicas in
            let gone : Persists env P k out n keys s.persistence_enabled s.replica_keystores out
                (set s.replicas id fresh) (set s.disks id (closed_disk env r d.0)) =
              record {
                is_on = h.is_on;
                same_keys = h.same_keys;
                same_crashed = refl;
                size = length-set s.replicas id fresh ∙ h.size;
                cells =
                    both-Cells env P k s.crashed_replicas out s.replicas s.disks id fresh
                      (closed_disk env r d.0) r d.0 g d.1
                      (λ j x. ground (arith, contains-insert_key id j s.crashed_replicas))
                      (let f : contains id out ≡ true =
                          ground (arith, contains-insert_key id id s.crashed_replicas) in
                        rw f (
                          keeps.crashes k id r d.0 ks now
                            (subst (P k id r d.0) live (h.cells.cell id r d.0 g d.1))))
                      h.cells;
              } in
            ground (arith, d.1, gone)
      ]
    ]
  ]

  crash_each-StandsNow :
      (k : ℕ) (s : Simulation env) (ids : List ℕ) (now : ℕ)
      → StandsNow k s
      → StandsNow k (crash_each env s ids now)
  unfolding crash_each
  crash_each-StandsNow k s [] now h = h
  crash_each-StandsNow k s (id ∷ ids) now h =
      crash_each-StandsNow k (crash_replica env s id now).0 ids now
        (crash_replica-StandsNow k s id now h)

  pub process_timeout_crashes-StandsNow :
      (k : ℕ) (s : Simulation env) (now : ℕ)
      → StandsNow k s
      → StandsNow k (process_timeout_crashes env s now)
  unfolding process_timeout_crashes
  process_timeout_crashes-StandsNow k s now h =
      crash_each-StandsNow k s (timed_out env s 0 s.replicas) now h

  pub now-StandsNow :
      (k : ℕ) (out : BTreeSet) (s : Simulation env) → Stands env P k out n keys s → StandsNow k s
  now-StandsNow k out s h = record {
    is_on = h.is_on;
    same_keys = h.same_keys;
    same_crashed = refl;
    size = h.size;
    cells = h.cells;
  }
