-- ===== src/Simulation/Dependable.antt =====
-- In a cluster with persistence the data directories keep every replica, crashed or not.
use persisthotstuff_rst.Base.{
  ℕ, suc, ◌^◌, ◌<◌, ◌≤◌, ◌≡◌, refl, sym, ap, Bool, true, false, List, arith,
}
use mathlib.Core.Path.{subst}
use persisthotstuff_rst.Types.{Block, Config}
use persisthotstuff_rst.Crypto.{KeyStore}
use persisthotstuff_rst.Wal.{WalLaws}
use persisthotstuff_rst.Snapshot.{ReadsBack}
use persisthotstuff_rst.Replica.{Env, Replica}
use persisthotstuff_rst.Replica.Proposals.{propose_with_hash}
use persisthotstuff_rst.Replica.Pacemaker.{
  propose_next_with_hash, enqueue_command, enable_dummy_proposals, disable_dummy_proposals,
}
use persisthotstuff_rst.Recovery.{DataDir}
use persisthotstuff_rst.Recovery.Durability.{AlwaysSerializes}
use persisthotstuff_rst.Persistence.{take_snapshot}
use persisthotstuff_rst.Machine.{Event, step}
use persisthotstuff_rst.Simulation.Start.{fresh_replica}
use persisthotstuff_rst.Simulation.Crash.{closed_disk}
use persisthotstuff_rst.Simulation.Catchup.{Extends}
use persisthotstuff_rst.Simulation.Recovered.{fresh_replica_lem, take_snapshot_lem}
use persisthotstuff_rst.Simulation.Resumed.{take_snapshot_config}
use persisthotstuff_rst.Simulation.Held.{Held, Keeps}
use persisthotstuff_rst.Lifetime.{Node, live, snapshot_due}
use persisthotstuff_rst.Lifetime.Kept.{step-Continues}
use persisthotstuff_rst.Lifetime.Views.{IsLow, step-IsLow}
use persisthotstuff_rst.Lifetime.Restarts.{IsKept}
use persisthotstuff_rst.Lifetime.Steps.{handles-Survives}
use persisthotstuff_rst.Lifetime.Survival.{live-Survives}
use persisthotstuff_rst.Lifetime.Quiet.{
  config-IsKept, IsQuiet, quiet-IsKept, propose-IsQuiet, propose_next-IsQuiet, enqueue-IsQuiet,
  enable-IsQuiet, disable-IsQuiet,
}
use persisthotstuff_rst.Simulation.Extension.{Extends-trans, Extends-append}

-- The blocks `base id` were committed by the replica at place `id` at some time.
module _ (env : Env) (base : ℕ → List Block) where
  -- A live replica, and a crashed one with the state that it had before. At most `k` snapshots
  -- were taken.
  pub record IsUp (k id : ℕ) (r : Replica env) (d : DataDir) : Type 0 where
    pub kept : IsKept env r.config (record { replica = r; snapshots = d.snapshots })
    pub few : r.snapshot_counter ≤ k
    pub low : IsLow env r
    pub grown : Extends (base id) r.committed_log

  pub record IsDown (k id : ℕ) (r : Replica env) (d : DataDir) : Type 0 where
    pub before : Replica env
    pub kept : IsKept env r.config (record { replica = before; snapshots = d.snapshots })
    pub closed : closed_disk env before d ≡ d
    pub few : before.snapshot_counter ≤ k
    pub low : IsLow env r
    pub low_before : IsLow env before
    pub grown : Extends (base id) before.committed_log

  abbrev pub IsSafe : Held env
  IsSafe k id r d false = IsUp k id r d
  IsSafe k id r d true = IsDown k id r d

  quiet-IsSafe :
      (k id : ℕ) (r s : Replica env) (d : DataDir) (c : Bool)
      → IsQuiet env r s
      → IsSafe k id r d c
      → IsSafe k id s d c
  quiet-IsSafe k id r s d false q u = record {
    kept =
        config-IsKept env r.config s.config (record { replica = s; snapshots = d.snapshots })
          (ap (λ (x : Config). x.id) q.config) (quiet-IsKept env r.config r s d.snapshots q u.kept);
    few = omega (arith, u.few, q.counter);
    low = omega (arith, u.low, q.memory.view);
    grown = subst (Extends (base id)) (sym q.memory.committed) u.grown;
  }
  quiet-IsSafe k id r s d true q u = record {
    before = u.before;
    kept =
        config-IsKept env r.config s.config (record { replica = u.before; snapshots = d.snapshots })
          (ap (λ (x : Config). x.id) q.config) u.kept;
    closed = u.closed;
    few = u.few;
    low = omega (arith, u.low, q.memory.view);
    low_before = u.low_before;
    grown = u.grown;
  }

  handles-IsSafe :
      (serializes : AlwaysSerializes env.wal_lib) (k id : ℕ) (r : Replica env) (d : DataDir)
      (c : Bool) (e : Event)
      → IsSafe k id r d c
      → IsSafe k id (step env r e) d c
  unfolding live
  handles-IsSafe serializes k id r d false e u =
      let n : Node env = record { replica = r; snapshots = d.snapshots } in
      let x = step-Continues env r e in
      let s = handles-Survives env serializes r.config n e u.kept in
      let same : s.node ≡ record { replica = step env r e; snapshots = d.snapshots } =
        cc (s.lives) in
      record {
        kept =
            config-IsKept env r.config (step env r e).config
              (record { replica = step env r e; snapshots = d.snapshots }) x.own_id
              (subst (IsKept env r.config) same s.kept);
        few = omega (arith, u.few, x.counter);
        low = step-IsLow env r e u.low;
        grown =
            Extends-trans (base id) r.committed_log (step env r e).committed_log u.grown
              (Extends-append r.committed_log (step env r e).committed_log x.since x.grown);
      }
  handles-IsSafe serializes k id r d true e u = record {
    before = u.before;
    kept =
        config-IsKept env r.config (step env r e).config
          (record { replica = u.before; snapshots = d.snapshots }) (step-Continues env r e).own_id
          u.kept;
    closed = u.closed;
    few = u.few;
    low = step-IsLow env r e u.low;
    low_before = u.low_before;
    grown = u.grown;
  }

  waits-IsSafe :
      (k id : ℕ) (r : Replica env) (d : DataDir) (c : Bool)
      → IsSafe k id r d c
      → IsSafe (suc k) id r d c
  waits-IsSafe k id r d false u = record {
    kept = u.kept;
    few = omega (arith, u.few);
    low = u.low;
    grown = u.grown;
  }
  waits-IsSafe k id r d true u = record {
    before = u.before;
    kept = u.kept;
    closed = u.closed;
    few = omega (arith, u.few);
    low = u.low;
    low_before = u.low_before;
    grown = u.grown;
  }

  snapshots-IsSafe :
      (laws : WalLaws env.wal_lib) (reads : ReadsBack env.snap_lib)
      (serializes : AlwaysSerializes env.wal_lib) (k id : ℕ) (r : Replica env) (d : DataDir)
      (now : ℕ)
      → suc k < 2 ^ 64
      → IsUp k id r d
      → IsUp
          (suc k)
          id
          (take_snapshot env r d.snapshots false now).0
          (record d { snapshots = (take_snapshot env r d.snapshots false now).1 })
  unfolding live
  snapshots-IsSafe laws reads serializes k id r d now bound u =
      let n : Node env = record { replica = r; snapshots = d.snapshots } in
      let t = take_snapshot env r d.snapshots false now in
      let s =
        live-Survives env laws reads serializes r.config n (snapshot_due now) (omega (arith, u.few))
          u.kept in
      let e : s.node ≡ record { replica = t.0; snapshots = t.1 } = cc (s.lives) in
      let c = take_snapshot_config env r d.snapshots now in
      record {
        kept =
            config-IsKept env r.config (t.0).config (record { replica = t.0; snapshots = t.1 })
              (ap (λ (x : Config). x.id) c) (subst (IsKept env r.config) e s.kept);
        few = omega (arith, u.few, s.numbered, ap (λ (x : Node env). x.replica.snapshot_counter) e);
        low = omega (arith, u.low, (take_snapshot_lem env r d now).1);
        grown = subst (Extends (base id)) (sym (take_snapshot_lem env r d now).0) u.grown;
      }

  closed_twice :
      (r : Replica env) (d : DataDir)
      → closed_disk env r (closed_disk env r d) ≡ closed_disk env r d
  unfolding closed_disk
  closed_twice r d = ground arith

  crashes-IsSafe :
      (k id : ℕ) (r : Replica env) (d : DataDir) (ks : KeyStore env.crypto) (now : ℕ)
      → IsUp k id r d
      → IsDown k id (fresh_replica env r.config ks now) (closed_disk env r d)
  unfolding closed_disk
  crashes-IsSafe k id r d ks now u =
      let f = fresh_replica_lem env r.config ks now in
      let a = u.kept.durable.logged.attached in
      record {
        before = r;
        kept =
            config-IsKept env r.config (fresh_replica env r.config ks now).config
              (record { replica = r; snapshots = (closed_disk env r d).snapshots })
              (ap (λ (x : Config). x.id) f.0)
              (subst (λ x. IsKept env r.config (record { replica = r; snapshots = x }))
                {x = d.snapshots} {y = (closed_disk env r d).snapshots} (rw (a, closed_disk) refl)
                u.kept);
        closed = closed_twice r d;
        few = u.few;
        low = omega (arith, f.1);
        low_before = u.low;
        grown = u.grown;
      }

  -- What the files keep, as long as fewer than 2^64 snapshots were taken.
  abbrev pub IsDependable : Held env
  IsDependable k id r d c = k < 2 ^ 64 → IsSafe k id r d c

  pub IsDependable-Keeps :
      (laws : WalLaws env.wal_lib) (reads : ReadsBack env.snap_lib)
      (serializes : AlwaysSerializes env.wal_lib)
      → Keeps env IsDependable
  IsDependable-Keeps laws reads serializes = record {
    handles = λ k id r d c e u b. handles-IsSafe serializes k id r d c e (u b);
    proposes = λ k id r d c view hash now u b.
        quiet-IsSafe k id r (propose_with_hash env r view hash now).0 d c
          (propose-IsQuiet env r view hash now) (u b);
    proposes_next = λ k id r d c view hash now u b.
        quiet-IsSafe k id r (propose_next_with_hash env r view hash now).0 d c
          (propose_next-IsQuiet env r view hash now) (u b);
    queues = λ k id r d c command u b.
        quiet-IsSafe k id r (enqueue_command env r command) d c (enqueue-IsQuiet env r command)
          (u b);
    enables = λ k id r d c ms u b.
        quiet-IsSafe k id r (enable_dummy_proposals env r ms) d c (enable-IsQuiet env r ms) (u b);
    disables = λ k id r d c u b.
        quiet-IsSafe k id r (disable_dummy_proposals env r) d c (disable-IsQuiet env r) (u b);
    waits = λ k id r d c u b. waits-IsSafe k id r d c (u (omega arith));
    snapshots =
        λ k id r d now u b. snapshots-IsSafe laws reads serializes k id r d now b (u (omega arith));
    crashes = λ k id r d ks now u b. crashes-IsSafe k id r d ks now (u b);
  }
