-- ===== src/Simulation/Recoverable.antt =====
-- Whatever a cluster with persistence went through, a crashed replica can be recovered.
use persisthotstuff_rst.Base.{
  ℕ, zero, suc, ◌+◌, ◌-◌, ◌^◌, ◌<◌, ◌≤◌, ◌≡◌, refl, sym, ap, ◌∙◌, inl, inr, Bool, true, false,
  Option, none, some, List, [], ◌∷◌, length, get_elem?, All, ltb, arith, Bool-cases,
}
use mathlib.Core.Path.{subst}
use persisthotstuff_rst.BTree.{contains, insert_key, remove_key}
use persisthotstuff_rst.BTree.SetLaws.{contains-remove_key}
use persisthotstuff_rst.Types.{Block, Config}
use persisthotstuff_rst.Crypto.{KeyStore}
use persisthotstuff_rst.Wal.{WalLaws}
use persisthotstuff_rst.Wal.Entry.{timeout}
use persisthotstuff_rst.Snapshot.{SnapDir, ReadsBack}
use persisthotstuff_rst.Replica.{Env, Replica}
use persisthotstuff_rst.Replica.Pacemaker.{advance_view_with_reason}
use persisthotstuff_rst.Recovery.{DataDir}
use persisthotstuff_rst.Recovery.Durability.{AlwaysSerializes}
use persisthotstuff_rst.Persistence.{take_snapshot}
use persisthotstuff_rst.Simulation.{Simulation, done, is_crashed, mark_responded}
use persisthotstuff_rst.Simulation.Start.{start_persistent}
use persisthotstuff_rst.Simulation.Check.{first_not_crashed}
use persisthotstuff_rst.Simulation.Election.{max_view}
use persisthotstuff_rst.Simulation.Rejoin.{rejoining, reach_view, take_place, recover_replica}
use persisthotstuff_rst.Simulation.Catchup.{rejoining_lem, sync_from_lem}
use persisthotstuff_rst.Simulation.Recovered.{
  get_below, recovered-Advances, snapshot-Advances, take_snapshot_lem, recover_replica_lem,
}
use persisthotstuff_rst.Simulation.Resumed.{
  AlwaysPacks, rejoining-SamePlace, take_snapshot_config, synced_with,
}
use persisthotstuff_rst.Simulation.Rejoined.{closed_disk_lem, rejoined-IsKept}
use persisthotstuff_rst.Simulation.Held.{Keeps, both-Cells, waits-Cells, length-set}
use persisthotstuff_rst.Simulation.Held.Crashes.{StandsNow, disk_of}
use persisthotstuff_rst.Lifetime.Quiet.{config-IsKept}
use persisthotstuff_rst.Simulation.Extension.{Extends-trans}
use persisthotstuff_rst.Simulation.Dependable.{
  IsUp, IsDown, IsSafe, IsDependable, IsDependable-Keeps,
}
use persisthotstuff_rst.Lifetime.Views.{IsLow, advance_view-IsLow}
use persisthotstuff_rst.Lifetime.Restarts.{IsKept, IsBroughtBack, restarts}

All_of_get :
    {A : Type 0} (Q : A → Type 0) (xs : List A)
    → ((i : ℕ) (x : A) → get_elem? xs i ≡ some x → Q x)
    → All Q xs
All_of_get Q [] f = tt
All_of_get Q (x ∷ xs) f = (f 0 x refl, All_of_get Q xs (λ i y g. f (suc i) y g))

module _ (env : Env) where
  reach_view-IsLow :
      (fuel target : ℕ) (r t : Replica env) (now : ℕ)
      → reach_view env fuel target r now ≡ some t
      → IsLow env r
      → IsLow env t
  unfolding reach_view
  reach_view-IsLow zero target r t now h low = cc
  reach_view-IsLow (suc fuel) target r t now h low = elim (Bool-cases (ltb r.current_view target)) [
    | inr f ↦ let e : r ≡ t = ground arith in subst (IsLow env) e low
    | inl y ↦
        let v = advance_view_with_reason env r timeout now in
        reach_view-IsLow fuel target v t now (ground arith) (advance_view-IsLow env r timeout now)
  ]

  synced_with-IsLow :
      (donor : Option (ℕ × Replica env)) (r : Replica env)
      → IsLow env r
      → IsLow env (synced_with env donor r)
  synced_with-IsLow none r low = low
  synced_with-IsLow (some (i, d)) r low = omega (arith, (sync_from_lem env d r).1)

  rejoining-IsLow :
      (s : Simulation env) (id now : ℕ) (r t : Replica env)
      → rejoining env s id r now ≡ some t
      → IsLow env r
      → IsLow env t
  unfolding rejoining
  rejoining-IsLow s id now r t h low =
      let donor = first_not_crashed env (insert_key id s.crashed_replicas) 0 s.replicas in
      let synced = synced_with env donor r in
      let target =
        elim (max_view env (insert_key id s.crashed_replicas) 0 s.replicas none) as (λ _. ℕ) [
          | none ↦ synced.current_view
          | some v ↦ v
        ] in
      reach_view-IsLow (suc (target - synced.current_view)) target synced t now h
        (synced_with-IsLow donor r low)

  snapshot_counter_lem :
      (r : Replica env) (dir : SnapDir) (now : ℕ)
      → (take_snapshot env r dir false now).0.snapshot_counter ≤ r.snapshot_counter + 1
  unfolding take_snapshot
  snapshot_counter_lem r dir now = ground arith

-- The blocks `base id` were committed by the replica at place `id` at some time.
module _ (env : Env) (base : ℕ → List Block) where
  safe-IsLow :
      (k id : ℕ) (r : Replica env) (d : DataDir) (c : Bool)
      → IsSafe env base k id r d c
      → IsLow env r
  safe-IsLow k id r d false u = u.low
  safe-IsLow k id r d true u = u.low

  module _ (laws : WalLaws env.wal_lib) (reads : ReadsBack env.snap_lib)
      (packs : AlwaysPacks env.snap_lib) (serializes : AlwaysSerializes env.wal_lib) (n : ℕ)
      (keys : List (KeyStore env.crypto)) where
    abbrev pub keeps : Keeps env (IsDependable env base)
    keeps = IsDependable-Keeps env base laws reads serializes

    -- The persistence is on, and the files of every replica bring it back.
    abbrev pub IsReady : ℕ → Simulation env → Type 0
    IsReady k s = StandsNow env (IsDependable env base) n keys keeps k s

    low_views :
        (k : ℕ) (s : Simulation env)
        → k < 2 ^ 64
        → IsReady k s
        → All (λ (q : Replica env). q.current_view < 2 ^ 64) s.replicas
    low_views k s bound h =
        All_of_get (λ (q : Replica env). q.current_view < 2 ^ 64) s.replicas
          (λ i r g.
            let d =
              disk_of env (IsDependable env base) n keys keeps s.replicas s.disks i r
                h.cells.same_length g in
            safe-IsLow k i r d.0 (contains i s.crashed_replicas) (h.cells.cell i r d.0 g d.1 bound))

    -- What a recovery makes of the files of a crashed replica.
    record Returns (k : ℕ) (s : Simulation env) (id now : ℕ) (r : Replica env) (d : DataDir)
        (ks : KeyStore env.crypto) : Type 0 where
      recovered : Replica env
      goal : Replica env
      started : start_persistent env r.config ks d now ≡ (done, some recovered)
      caught_up : rejoining env s id recovered now ≡ some goal
      up :
          IsUp env base
            (suc k)
            id
            (take_snapshot env goal d.snapshots false now).0
            (record d { snapshots = (take_snapshot env goal d.snapshots false now).1 })

    recovered_lem :
        (id : ℕ) (r : Replica env) (d : DataDir) (ks : KeyStore env.crypto) (k now : ℕ)
        → (u : IsDown env base k id r d)
        → (q : Replica env) × (start_persistent env r.config ks d now ≡ (done, some q))
          × IsKept env r.config (record { replica = q; snapshots = d.snapshots })
          × IsBroughtBack env u.before q
          × (q.config ≡ r.config)
    recovered_lem id r d ks k now u =
        let file = u.kept.durable.logged.file in
        let held = u.kept.durable.logged.attached in
        let empty : DataDir = record { snapshots = d.snapshots; wal_file = none } in
        let q =
          restarts env laws serializes r.config
            (record { replica = u.before; snapshots = d.snapshots }) ks d now u.kept
            (closed_disk_lem env u.before d file held
              ∙ sym (closed_disk_lem env u.before empty file held)) in
        (q.0, ap (λ x. start_persistent env r.config ks x now) (sym u.closed) ∙ q.1, q.2, q.3, q.4)

    returns :
        (k : ℕ) (s : Simulation env) (id now : ℕ) (r : Replica env) (d : DataDir)
        (ks : KeyStore env.crypto)
        → suc k < 2 ^ 64
        → All (λ (q : Replica env). q.current_view < 2 ^ 64) s.replicas
        → IsDown env base k id r d
        → Returns k s id now r d ks
    returns k s id now r d ks bound views u =
        let q = recovered_lem id r d ks k now u in
        let low : IsLow env q.0 = omega (arith, u.low_before, q.3.view) in
        let t = rejoining_lem env s id q.0 now views low in
        let place = rejoining-SamePlace env s id now q.0 t.0 t.1 in
        let taken = take_snapshot env t.0 d.snapshots false now in
        let conf = take_snapshot_config env t.0 d.snapshots now ∙ place.config ∙ q.4 in
        record {
          recovered = q.0;
          goal = t.0;
          started = q.1;
          caught_up = t.1;
          up = record {
            kept =
                config-IsKept env r.config (taken.0).config
                  (record { replica = taken.0; snapshots = taken.1 })
                  (ap (λ (x : Config). x.id) conf)
                  (rejoined-IsKept env reads packs r.config r q.0 t.0 d.snapshots now q.2 place
                    (omega (arith, u.few, q.3.counter)));
            few = omega (
              arith,
              snapshot_counter_lem env t.0 d.snapshots now,
              place.counter,
              q.3.counter,
              u.few,
            );
            low = omega (
              arith,
              rejoining-IsLow env s id now q.0 t.0 t.1 low,
              (take_snapshot_lem env t.0 d now).1,
            );
            grown =
                Extends-trans (base id) u.before.committed_log (taken.0).committed_log u.grown
                  (snapshot-Advances env u.before t.0 d now
                    (recovered-Advances env u.before q.0 t.0 q.3 t.2)).log;
          };
        }

    placed-IsReady :
        (k : ℕ) (s : Simulation env) (id now : ℕ) (r t : Replica env) (d : DataDir)
        → get_elem? s.replicas id ≡ some r
        → get_elem? s.disks id ≡ some d
        → IsUp env base
            (suc k)
            id
            (take_snapshot env t d.snapshots false now).0
            (record d { snapshots = (take_snapshot env t d.snapshots false now).1 })
        → IsReady k s
        → IsReady (suc k) (take_place env s id t d now)
    unfolding take_place mark_responded
    placed-IsReady k s id now r t d g y up h =
        let taken = take_snapshot env t d.snapshots false now in
        let out = remove_key id s.crashed_replicas in
        let gone : contains id out ≡ false =
          ground (arith, contains-remove_key id id s.crashed_replicas) in
        record {
          is_on = h.is_on;
          same_keys = h.same_keys;
          same_crashed = refl;
          size = length-set s.replicas id taken.0 ∙ h.size;
          cells =
              both-Cells env (IsDependable env base) (suc k) s.crashed_replicas out s.replicas
                s.disks id taken.0 (record d { snapshots = taken.1 }) r d g y
                (λ j x. ground (arith, contains-remove_key id j s.crashed_replicas))
                (λ b. rw gone up)
                (waits-Cells env (IsDependable env base) keeps k s.crashed_replicas s.replicas
                  s.disks h.cells);
        }

    placed_lem :
        (s : Simulation env) (id now : ℕ) (t : Replica env) (d : DataDir)
        → is_crashed env (take_place env s id t d now) id ≡ false
    unfolding is_crashed take_place mark_responded
    placed_lem s id now t d = ground (arith, contains-remove_key id id s.crashed_replicas)

    -- A crashed replica is recovered.
    pub recovers-IsReady :
        (k : ℕ) (s : Simulation env) (id now : ℕ)
        → suc k < 2 ^ 64
        → length keys ≡ n
        → id < n
        → is_crashed env s id ≡ true
        → IsReady k s
        → ((recover_replica env s id now).1 ≡ done)
          × (is_crashed env (recover_replica env s id now).0 id ≡ false)
          × IsReady (suc k) (recover_replica env s id now).0
    unfolding is_crashed
    recovers-IsReady k s id now bound all below crashed h =
        let r = get_below s.replicas id (omega (arith, h.size)) in
        let ks = get_below s.replica_keystores id (omega (arith, ap length h.same_keys)) in
        let d =
          disk_of env (IsDependable env base) n keys keeps s.replicas s.disks id r.0
            h.cells.same_length r.1 in
        let u : IsDown env base k id r.0 d.0 =
          subst (IsSafe env base k id r.0 d.0) crashed
            (h.cells.cell id r.0 d.0 r.1 d.1 (omega arith)) in
        let b = returns k s id now r.0 d.0 ks.0 bound (low_views k s (omega arith) h) u in
        let e : recover_replica env s id now ≡ (take_place env s id b.goal d.0 now, done) =
          recover_replica_lem env s id now r.0 b.recovered b.goal ks.0 d.0 h.is_on r.1 ks.1 d.1
            crashed b.started b.caught_up in
        (
          ap (λ x. x.1) e,
          ap (λ x. is_crashed env x.0 id) e ∙ placed_lem s id now b.goal d.0,
          subst (IsReady (suc k)) (sym (ap (λ x. x.0) e))
              (placed-IsReady k s id now r.0 b.goal d.0 r.1 d.1 b.up h),
        )
