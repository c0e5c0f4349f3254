-- ===== src/Simulation/Rejoined.antt =====
-- The cluster after a crash and the recovery that follows it.
use persisthotstuff_rst.Base.{
  ℕ, zero, suc, ◌^◌, ◌<◌, ◌≤◌, ◌≡◌, refl, sym, ap, ◌∙◌, true, false, some, List, [], ◌∷◌, get_elem?,
  set, Option, none, All, ◌+◌, ◌==◌, arith,
}
use mathlib.Core.Path.{subst}
use persisthotstuff_rst.BTree.{insert_key, remove_key}
use persisthotstuff_rst.BTree.SetLaws.{contains-insert_key, contains-remove_key}
use persisthotstuff_rst.Crypto.{KeyStore}
use persisthotstuff_rst.Wal.{Wal, WalLaws}
use persisthotstuff_rst.Types.{Config}
use persisthotstuff_rst.Snapshot.{SnapDir, ReadsBack}
use persisthotstuff_rst.Snapshot.Files.{OlderThan}
use persisthotstuff_rst.Replica.{Env, Replica}
use persisthotstuff_rst.Recovery.{DataDir}
use persisthotstuff_rst.Recovery.Durability.{AlwaysSerializes}
use persisthotstuff_rst.Persistence.{take_snapshot}
use persisthotstuff_rst.Simulation.{Simulation, done, is_crashed, is_unresponsive, mark_responded}
use persisthotstuff_rst.Simulation.Start.{fresh_replica, start_persistent}
use persisthotstuff_rst.Simulation.Crash.{closed_disk, crash_replica}
use persisthotstuff_rst.Simulation.Rejoin.{rejoining, take_place, recover_replica}
use persisthotstuff_rst.Simulation.Catchup.{Advances, rejoining_lem}
use persisthotstuff_rst.Simulation.Recovered.{
  take_snapshot_lem, get_elem?-set, get_elem?-set_other, All-set, fresh_replica_lem,
  crash_replica_lem, recover_replica_lem, recovered-Advances, snapshot-Advances,
}
use persisthotstuff_rst.Simulation.Resumed.{
  AlwaysPacks, SamePlace, rejoining-SamePlace, take_snapshot-IsKept, take_snapshot_config,
}
use persisthotstuff_rst.Lifetime.{Node}
use persisthotstuff_rst.Lifetime.Kept.{log_id}
use persisthotstuff_rst.Lifetime.Restarts.{IsKept, IsBroughtBack, restarts}

All-get :
    {A : Type 0}
    → (P : A → Type 0) (xs : List A) (i : ℕ) (x : A) → All P xs
    → get_elem? xs i ≡ some x
    → P x
All-get P [] i x h g = cc
All-get P (y ∷ xs) zero x h g = let e : y ≡ x = ground arith in subst P e h.0
All-get P (y ∷ xs) (suc i) x h g = All-get P xs i x h.1 g

module _ (env : Env) where
  -- What the cluster has after the recovery of a replica that was `r`: the replica takes part again
  -- and has advanced; the others are the same, and none that takes part has a higher view.
  pub record IsBack (s : Simulation env) (id : ℕ) (r : Replica env) (back : Simulation env)
      : Type 0 where
    pub replica : Replica env
    pub in_place : get_elem? back.replicas id ≡ some replica
    pub advanced : Advances env r replica
    pub same_config : replica.config ≡ r.config
    pub disk : DataDir
    pub on_disk : get_elem? back.disks id ≡ some disk
    pub kept : IsKept env r.config (record { replica = replica; snapshots = disk.snapshots })
    pub not_crashed : is_crashed env back id ≡ false
    pub not_unresponsive : is_unresponsive env back id ≡ false
    pub others :
        (j : ℕ) (q : Replica env)
        → get_elem? s.replicas j ≡ some q
        → (j == id) ≡ false
        → get_elem? back.replicas j ≡ some q
    pub in_step :
        (j : ℕ) (q : Replica env)
        → get_elem? s.replicas j ≡ some q
        → (j == id) ≡ false
        → is_crashed env s j ≡ false
        → q.current_view ≤ replica.current_view

  -- What the log brings back, and where the catch-up takes it.
  record Restarted (s : Simulation env) (id : ℕ) (r : Replica env) (now : ℕ) (started : Replica env)
      : Type 0 where
    goal : Replica env
    caught_up : rejoining env s id started now ≡ some goal
    progress : Advances env r goal
    place : SamePlace env started goal
    reaches :
        (j : ℕ) (q : Replica env)
        → get_elem? s.replicas j ≡ some q
        → is_crashed env s j ≡ false
        → (j == id) ≡ false
        → q.current_view ≤ goal.current_view

  restarted_lem :
      (s : Simulation env) (id : ℕ) (r q : Replica env) (now : ℕ)
      → IsBroughtBack env r q
      → All (λ (x : Replica env). x.current_view < 2 ^ 64) s.replicas
      → r.current_view < 2 ^ 64
      → Restarted s id r now q
  restarted_lem s id r q now i views v =
      let t = rejoining_lem env s id q now views (omega (arith, i.view)) in
      record {
        goal = t.0;
        caught_up = t.1;
        progress = recovered-Advances env r q t.0 i t.2;
        place = rejoining-SamePlace env s id now q t.0 t.1;
        reaches = t.3;
      }

  pub closed_disk_lem :
      (r : Replica env) (d : DataDir) (w : Wal)
      → r.wal ≡ some w
      → closed_disk env r d ≡ record { snapshots = d.snapshots; wal_file = some w.content }
  unfolding closed_disk
  closed_disk_lem r d w e = rw (e, closed_disk) refl

  own_log_lem :
      (wal : Option Wal) (id : ℕ)
      → log_id env wal ≡ some id
      → (w : Wal) × (wal ≡ some w) × (w.replica_id ≡ id)
  own_log_lem none id h = cc
  own_log_lem (some w) id h = (w, refl, ground arith)

  -- The cluster right after the crash.
  module _ (s : Simulation env) (id : ℕ) (r : Replica env) (ks : KeyStore env.crypto) (d : DataDir)
      (t1 t2 : ℕ) where
    abbrev crashed : Simulation env
    crashed = record s {
      replicas = set s.replicas id (fresh_replica env r.config ks t1);
      disks = set s.disks id (closed_disk env r d);
      crashed_replicas = insert_key id s.crashed_replicas;
      unresponsive_replicas = remove_key id s.unresponsive_replicas;
    }

    crashed_lem : is_crashed env crashed id ≡ true
    unfolding is_crashed
    crashed_lem = ground (arith, contains-insert_key id id s.crashed_replicas)

    taken_place-IsBack :
        (u : Replica env) (e : DataDir)
        → get_elem? s.replicas id ≡ some r
        → get_elem? s.disks id ≡ some d
        → u.config ≡ r.config
        → (x : Restarted crashed id r t2 u)
        → IsKept env r.config (record {
          replica = (take_snapshot env x.goal e.snapshots false t2).0;
          snapshots = (take_snapshot env x.goal e.snapshots false t2).1;
        })
        → IsBack s id r (take_place env crashed id x.goal e t2)
    unfolding take_place mark_responded is_crashed is_unresponsive
    taken_place-IsBack u e g h c x k = record {
      replica = (take_snapshot env x.goal e.snapshots false t2).0;
      in_place =
          get_elem?-set crashed.replicas id (fresh_replica env r.config ks t1)
            (take_snapshot env x.goal e.snapshots false t2).0
            (get_elem?-set s.replicas id r (fresh_replica env r.config ks t1) g);
      advanced = snapshot-Advances env r x.goal e t2 x.progress;
      same_config = take_snapshot_config env x.goal e.snapshots t2 ∙ x.place.config ∙ c;
      disk = record e { snapshots = (take_snapshot env x.goal e.snapshots false t2).1 };
      on_disk =
          get_elem?-set crashed.disks id (closed_disk env r d)
            (record e { snapshots = (take_snapshot env x.goal e.snapshots false t2).1 })
            (get_elem?-set s.disks id d (closed_disk env r d) h);
      kept = k;
      not_crashed = ground (arith, contains-remove_key id id (insert_key id s.crashed_replicas));
      not_unresponsive =
          ground (arith, contains-remove_key id id (remove_key id s.unresponsive_replicas));
      others = λ j q f n.
          get_elem?-set_other crashed.replicas id j
            (take_snapshot env x.goal e.snapshots false t2).0 n
          ∙ get_elem?-set_other s.replicas id j (fresh_replica env r.config ks t1) n
          ∙ f;
      in_step = λ j q f n c. omega (
        arith,
        (take_snapshot_lem env x.goal e t2).1,
        x.reaches j q (get_elem?-set_other s.replicas id j (fresh_replica env r.config ks t1) n ∙ f)
            (ground (arith, contains-insert_key id j s.crashed_replicas)) n,
      );
    }

  -- The snapshot that ends the recovery keeps the replica that rejoins.
  pub rejoined-IsKept :
      (reads : ReadsBack env.snap_lib) (packs : AlwaysPacks env.snap_lib) (c : Config)
      (r q t : Replica env) (dir : SnapDir) (now : ℕ)
      → IsKept env c (record { replica = q; snapshots = dir })
      → SamePlace env q t
      → q.snapshot_counter + 1 < 2 ^ 64
      → IsKept env c (record {
        replica = (take_snapshot env t dir false now).0;
        snapshots = (take_snapshot env t dir false now).1;
      })
  rejoined-IsKept reads packs c r q t dir now k p bound =
      let w = own_log_lem t.wal c.id (p.log_kept ∙ k.own_log) in
      take_snapshot-IsKept env reads packs c t w.0 dir now w.1 w.2 (omega (arith, p.counter))
        (subst (λ i. OlderThan i dir) (sym p.counter) k.older)

  -- With persistence on, a live replica that its files bring back, with snapshots or without,
  -- crashes and is recovered successfully, if the libraries keep what they document and can
  -- serialise every entry and snapshot, and no view and no snapshot number reaches 2^64. It is back
  -- at its place, neither crashed nor unresponsive, with every block that it had committed at the
  -- place where it was, with no lower view than before or than any live replica; its files bring it
  -- back again; and the other replicas are as they were.
  pub crash_then_recover :
      (laws : WalLaws env.wal_lib) (serializes : AlwaysSerializes env.wal_lib)
      (reads : ReadsBack env.snap_lib) (packs : AlwaysPacks env.snap_lib) (s : Simulation env)
      (id : ℕ) (r : Replica env) (ks : KeyStore env.crypto) (d : DataDir) (t1 t2 : ℕ)
      → s.persistence_enabled ≡ true
      → get_elem? s.replicas id ≡ some r
      → get_elem? s.replica_keystores id ≡ some ks
      → get_elem? s.disks id ≡ some d
      → is_crashed env s id ≡ false
      → IsKept env r.config (record { replica = r; snapshots = d.snapshots })
      → r.snapshot_counter + 1 < 2 ^ 64
      → All (λ (q : Replica env). q.current_view < 2 ^ 64) s.replicas
      → ((crash_replica env s id t1).1 ≡ done)
        × ((recover_replica env (crash_replica env s id t1).0 id t2).1 ≡ done)
        × IsBack s id r (recover_replica env (crash_replica env s id t1).0 id t2).0
  crash_then_recover laws serializes reads packs s id r ks d t1 t2 p g k h c kept bound views =
      let fresh = fresh_replica env r.config ks t1 in
      let s1 = crashed s id r ks d t1 t2 in
      let n : Node env = record { replica = r; snapshots = d.snapshots } in
      let file = kept.durable.logged.file in
      let e = closed_disk env r d in
      let closed = closed_disk_lem r d file kept.durable.logged.attached in
      let q = restarts env laws serializes r.config n ks d t2 kept (
        closed
        ∙ sym (
            closed_disk_lem r (record { snapshots = d.snapshots; wal_file = none }) file
              kept.durable.logged.attached)) in
      let x =
        restarted_lem s1 id r q.0 t2 q.3
          (All-set (λ (q : Replica env). q.current_view < 2 ^ 64) s.replicas id fresh views
            (ground (arith, (fresh_replica_lem env r.config ks t1).1)))
          (All-get (λ (q : Replica env). q.current_view < 2 ^ 64) s.replicas id r views g) in
      let started : start_persistent env fresh.config ks e t2 ≡ (done, some q.0) =
        ap (λ f. start_persistent env f ks e t2) (fresh_replica_lem env r.config ks t1).0 ∙ q.1 in
      let crash = crash_replica_lem env s id t1 r ks d p g k h c in
      let back =
        recover_replica_lem env s1 id t2 fresh q.0 x.goal ks e p
          (get_elem?-set s.replicas id r fresh g) k (get_elem?-set s.disks id d e h)
          (crashed_lem s id r ks d t1 t2) started x.caught_up in
      let all : recover_replica env (crash_replica env s id t1).0 id t2
          ≡ (take_place env s1 id x.goal e t2, done) =
        ap (λ y. recover_replica env y.0 id t2) crash ∙ back in
      let again =
        rejoined-IsKept reads packs r.config r q.0 x.goal d.snapshots t2 q.2 x.place
          (omega (arith, q.3.counter)) in
      (
        ap (λ y. y.1) crash,
        ap (λ y. y.1) all,
        subst (IsBack s id r) (sym (ap (λ y. y.0) all)) (
            taken_place-IsBack s id r ks d t1 t2 q.0 e g h q.4 x (
              subst
                (λ f. IsKept env r.config (record {
                  replica = (take_snapshot env x.goal f false t2).0;
                  snapshots = (take_snapshot env x.goal f false t2).1;
                }))
                (ap (λ (y : DataDir). y.snapshots) (sym closed)) again)),
      )
