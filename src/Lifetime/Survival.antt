-- ===== src/Lifetime/Survival.antt =====
-- A replica is brought back by its files, in whatever order events, snapshots and restarts come.
use persisthotstuff_rst.Base.{
  ℕ, ◌+◌, ◌^◌, ◌<◌, ◌≤◌, ◌≡◌, refl, sym, ap, ◌∙◌, inl, inr, false, none, some, List, [], ◌∷◌,
  length, arith, Option-cases,
}
use mathlib.Core.Path.{subst}
use persisthotstuff_rst.Types.{Config}
use persisthotstuff_rst.Crypto.{KeyStore}
use persisthotstuff_rst.Wal.{Wal, WalLaws, create, header}
use persisthotstuff_rst.Snapshot.{ReadsBack, load_latest}
use persisthotstuff_rst.Replica.{Env}
use persisthotstuff_rst.Recovery.{DataDir, recover, start_of, start_fresh, build, fresh}
use persisthotstuff_rst.Recovery.Durability.{AlwaysSerializes}
use persisthotstuff_rst.Recovery.Crash.{with_wal, recover_empty-IsDurable}
use persisthotstuff_rst.Persistence.{take_snapshot}
use persisthotstuff_rst.Persistence.Restart.{take_snapshot-Taken}
use persisthotstuff_rst.Simulation.Crash.{closed_disk}
use persisthotstuff_rst.Lifetime.{
  Node, Incident, handles, snapshot_due, dies, boot, left_behind, live, live_all,
}
use persisthotstuff_rst.Lifetime.Restarts.{
  IsKept, IsBroughtBack, IsBroughtBack-trans, restarts, started-IsKept, boot-IsKept,
}
use persisthotstuff_rst.Lifetime.Steps.{
  Grows, same-Grows, Grows-trans, Survives, handles-Survives, take_snapshot_failed, Taken-Survives,
}

module _ (env : Env) where
  -- A replica whose process dies between two events, with snapshots or without, is started again from its files, if
  -- they bring it back: with all committed blocks in order (without their certificates and
  -- commands), the last committed hash, the high QC (without signatures), the view and the next
  -- snapshot number. The files bring the new one back in turn.
  pub dies_and_restarts :
      (laws : WalLaws env.wal_lib) (serializes : AlwaysSerializes env.wal_lib) (c : Config)
      (n : Node env) (ks : KeyStore env.crypto) (a : env.app.State) (now : ℕ)
      → IsKept env c n
      → (m : Node env) × (live env c n (dies ks a now) ≡ some m)
        × IsKept env c m
        × IsBroughtBack env n.replica m.replica
  unfolding live left_behind closed_disk
  dies_and_restarts laws serializes c n ks a now k =
      let q =
        restarts env laws serializes c n ks (record { snapshots = n.snapshots; wal_file = none })
          now k refl in
      let kept : (closed_disk env n.replica
            (record { snapshots = n.snapshots; wal_file = none })).snapshots
          ≡ n.snapshots =
        ground arith in
      let b =
        boot-IsKept env c ks a (left_behind env n) now q.0 q.1
          (subst (λ d. IsKept env c (record { replica = q.0; snapshots = d })) (sym kept) q.2) in
      (b.0, b.1, b.2, IsBroughtBack-trans env n.replica q.0 b.0.replica q.3 b.3)

  pub live-Survives :
      (laws : WalLaws env.wal_lib) (reads : ReadsBack env.snap_lib)
      (serializes : AlwaysSerializes env.wal_lib) (c : Config) (n : Node env) (i : Incident env)
      → n.replica.snapshot_counter + 1 < 2 ^ 64
      → IsKept env c n
      → Survives env c n (live env c n i)
  unfolding live
  live-Survives laws reads serializes c n (handles e) bound k =
      handles-Survives env serializes c n e k
  live-Survives laws reads serializes c n (dies ks a now) bound k =
      let d = dies_and_restarts laws serializes c n ks a now k in
      record {
        node = d.0;
        lives = d.1;
        kept = d.2;
        grows = same-Grows env n d.0 d.3.committed;
        numbered = omega (arith, d.3.counter);
      }
  live-Survives laws reads serializes c n (snapshot_due now) bound k =
      let w = k.durable.logged.file in
      let own : w.replica_id ≡ c.id = ground (arith, k.own_log, k.durable.logged.attached) in
      let t = take_snapshot env n.replica n.snapshots false now in
      elim (Option-cases t.2) [
        | inl h ↦
            Taken-Survives env reads c n w now bound own k.older
              (take_snapshot-Taken env n.replica w n.snapshots now k.durable.logged.attached h)
        | inr (x, h) ↦
            let f =
              take_snapshot_failed env n.replica w n.snapshots now x k.durable.logged.attached h in
            record {
              node = n;
              lives =
                  ap (λ q. some (record { replica = q; snapshots = t.1 })) f.0
                  ∙ ap (λ q. some (record { replica = n.replica; snapshots = q })) f.1;
              kept = k;
              grows = same-Grows env n n refl;
              numbered = omega arith;
            }
      ]

  -- Whatever happens to a replica that its files bring back, in whatever order, events, snapshots
  -- and deaths of its process between them: every restart succeeds, its files bring back the replica that it has
  -- become, and that has committed the same blocks in the same order, and perhaps more, up to
  -- certificates and commands. Its snapshot number grows by one per incident at most. The libraries
  -- keep what they document and can serialise every entry, and the number stays below 2^64.
  pub live_all-IsKept :
      (laws : WalLaws env.wal_lib) (reads : ReadsBack env.snap_lib)
      (serializes : AlwaysSerializes env.wal_lib) (c : Config) (n : Node env)
      (is : List (Incident env))
      → n.replica.snapshot_counter + length is < 2 ^ 64
      → IsKept env c n
      → (m : Node env) × (live_all env c n is ≡ some m)
        × IsKept env c m
        × Grows env n m
        × (m.replica.snapshot_counter ≤ n.replica.snapshot_counter + length is)
  unfolding live_all
  live_all-IsKept laws reads serializes c n [] bound k =
      (n, refl, k, same-Grows env n n refl, omega arith)
  live_all-IsKept laws reads serializes c n (i ∷ is) bound k =
      let s = live-Survives laws reads serializes c n i (omega arith) k in
      let r =
        live_all-IsKept laws reads serializes c s.node is (omega (arith, s.numbered)) s.kept in
      (
        r.0,
        rw (s.lives, live_all) r.1,
        r.2,
        Grows-trans env n s.node r.0 s.grows r.3,
        omega (arith, r.4, s.numbered),
      )

  abbrev pub empty_disk : DataDir
  empty_disk = record { snapshots = []; wal_file = none }

  -- The first start of all succeeds, and leaves files that bring the replica back.
  pub first_boot :
      (serializes : AlwaysSerializes env.wal_lib) (c : Config) (ks : KeyStore env.crypto)
      (a : env.app.State) (now : ℕ)
      → (n : Node env) × (boot env c ks a empty_disk now ≡ some n)
        × IsKept env c n
        × (n.replica.snapshot_counter ≡ 0)
  unfolding recover start_of create load_latest build start_fresh
  first_boot serializes c ks a now =
      let w : Wal = record {
        content = header c.id now;
        cursor = length (header c.id now);
        replica_id = c.id;
        entry_count = 0;
      } in
      let r = build env c ks (start_fresh c) fresh now in
      let q =
        started-IsKept env serializes c ks empty_disk now (start_fresh c) r w refl refl
          (recover_empty-IsDurable env c ks now r w refl) refl refl tt in
      let b = boot-IsKept env c ks a empty_disk now (with_wal env r q.0) q.1 q.2 in
      (b.0, b.1, b.2, b.3.counter)

  -- A replica is started on an empty directory. Any number of events, snapshots and deaths of its
  -- process later, and at any later time again, no restart has failed, and the blocks that it had
  -- committed at the first of the two times are still its first committed blocks, in the same
  -- order, up to certificates and commands. The process dies only between events, snapshots and
  -- starts, each of which has run to its end: not inside one of them, and so not while an entry is
  -- written to the log or between the saving of a snapshot and the emptying of the log. The
  -- libraries keep what they document and can serialise every entry, and fewer than 2^64 things
  -- happen.
  pub no_commit_is_lost :
      (laws : WalLaws env.wal_lib) (reads : ReadsBack env.snap_lib)
      (serializes : AlwaysSerializes env.wal_lib) (c : Config) (ks : KeyStore env.crypto)
      (a : env.app.State) (now : ℕ) (before after : List (Incident env))
      → length before + length after < 2 ^ 64
      → (born n m : Node env) × (boot env c ks a empty_disk now ≡ some born)
        × (live_all env c born before ≡ some n)
        × (live_all env c n after ≡ some m)
        × Grows env n m
  no_commit_is_lost laws reads serializes c ks a now before after bound =
      let b = first_boot serializes c ks a now in
      let p = live_all-IsKept laws reads serializes c b.0 before (omega (arith, b.3)) b.2 in
      let q = live_all-IsKept laws reads serializes c p.0 after (omega (arith, b.3, p.4)) p.2 in
      (b.0, p.0, q.0, b.1, p.1, q.1, q.3)
