-- ===== src/Lifetime/Steps.antt =====
-- What an event, and a snapshot, leave in the files of a replica.
use persisthotstuff_rst.Base.{
  ℕ, zero, suc, ◌+◌, ◌^◌, ◌<◌, ◌≡◌, ◌-◌, drop, ltb, Bool-cases, refl, sym, ap, ◌∙◌, inl, inr, false,
  none, some, Option, List, [], ◌∷◌, ◌++◌, map, length, arith, Option-cases,
}
use mathlib.Core.Path.{subst}
use mathlib.Core.List.{append-nil, append_assoc, map-append}
use mathlib.Core.Option
use persisthotstuff_rst.BTree
use persisthotstuff_rst.Types.{Block, Config, QuorumCert, wrapping_suc}
use persisthotstuff_rst.Wal.{Wal, truncate_after_snapshot}
use persisthotstuff_rst.Snapshot
use persisthotstuff_rst.Snapshot.{
  SnapDir, Snapshot, ReadsBack, cleanup_old, save, load_latest, capture,
}
use persisthotstuff_rst.Snapshot.Files.{OlderThan, load_latest-save, cleanup_old-load_latest}
use persisthotstuff_rst.Replica.{Env, Replica}
use persisthotstuff_rst.Recovery
use persisthotstuff_rst.Recovery.{
  Start, DataDir, recover, start_of, start_fresh, start_from_snapshot, build, fresh,
}
use persisthotstuff_rst.Recovery.Durability.{AlwaysSerializes, unsigned, commit_stub}
use persisthotstuff_rst.Persistence.{take_snapshot, snapshot_of, close_log, SnapshotFailure}
use persisthotstuff_rst.Persistence.Restored.{restored, restored_log, restored_qc}
use persisthotstuff_rst.Persistence.Restart.{Taken, start_of_snapshot}
use persisthotstuff_rst.Machine.{Event, step, step-IsDurable}
use persisthotstuff_rst.Lifetime.{Node, handles, snapshot_due, live}
use persisthotstuff_rst.Lifetime.Kept.{step-Continues}
use persisthotstuff_rst.Lifetime.Restarts.{IsKept}

stub_restored : (bs : List Block) → map commit_stub (map restored bs) ≡ map commit_stub bs
stub_restored [] = refl
stub_restored (b ∷ bs) = ap (λ l. commit_stub b ∷ l) (stub_restored bs)

unsigned_twice :
    (q : Option QuorumCert) → Option.map unsigned (Option.map unsigned q) ≡ Option.map unsigned q
unsigned_twice none = refl
unsigned_twice (some qc) = refl

OlderThan-weaken : (k n : ℕ) (dir : SnapDir) → OlderThan k dir → k < n → OlderThan n dir
OlderThan-weaken k n [] o lt = tt
OlderThan-weaken k n ((seq, f) ∷ dir) o lt =
    let l = o.0 in (omega arith, OlderThan-weaken k n dir o.1 lt)

OlderThan-insert :
    (k n : ℕ) (f : Snapshot.SnapFile) (dir : SnapDir)
    → OlderThan k dir
    → k < n
    → OlderThan n (BTree.insert k f dir)
unfolding BTree.insert
OlderThan-insert k n f [] o lt = (lt, tt)
OlderThan-insert k n f ((seq, g) ∷ dir) o lt =
    let l = o.0 in
    let w = OlderThan-weaken k n dir o.1 lt in ground (arith, OlderThan-insert k n f dir o.1 lt)

OlderThan-drop : (n k : ℕ) (dir : SnapDir) → OlderThan n dir → OlderThan n (drop k dir)
OlderThan-drop n zero dir o = o
OlderThan-drop n (suc k) [] o = tt
OlderThan-drop n (suc k) (f ∷ dir) o = OlderThan-drop n k dir o.1

OlderThan-cleanup_old :
    (n keep : ℕ) (dir : SnapDir) → OlderThan n dir → OlderThan n (cleanup_old dir keep)
unfolding cleanup_old
OlderThan-cleanup_old n keep dir o = elim (Bool-cases (ltb keep (length dir))) [
  | inr f ↦ rw f o
  | inl t ↦ rw t (OlderThan-drop n (length dir - keep) dir o)
]

module _ (env : Env) where
  -- The committed blocks of the first node are the first ones of the second, but for the
  -- certificates and commands, which a log does not keep.
  pub record Grows (n m : Node env) : Type 0 where
    pub since : List Block
    pub grown :
        map commit_stub m.replica.committed_log ≡ map commit_stub n.replica.committed_log ++ since

  pub same-Grows :
      (n m : Node env)
      → map commit_stub m.replica.committed_log ≡ map commit_stub n.replica.committed_log
      → Grows n m
  same-Grows n m e = record {
    since = [];
    grown = e ∙ sym (append-nil (map commit_stub n.replica.committed_log));
  }

  pub Grows-trans : (n m k : Node env) → Grows n m → Grows m k → Grows n k
  Grows-trans n m k a b = record {
    since = a.since ++ b.since;
    grown =
        b.grown
        ∙ ap (λ l. l ++ b.since) a.grown
        ∙ append_assoc (map commit_stub n.replica.committed_log) a.since b.since;
  }

  -- What an incident leads to.
  pub record Survives (c : Config) (n : Node env) (next : Option (Node env)) : Type 0 where
    pub node : Node env
    pub lives : next ≡ some node
    pub kept : IsKept env c node
    pub grows : Grows n node
    pub numbered : node.replica.snapshot_counter < n.replica.snapshot_counter + 2

  pub handles-Survives :
      (serializes : AlwaysSerializes env.wal_lib) (c : Config) (n : Node env) (e : Event)
      → IsKept env c n
      → Survives c n (live env c n (handles e))
  unfolding live
  handles-Survives serializes c n e k =
      let x = step-Continues env n.replica e in
      record {
        node = record n { replica = step env n.replica e };
        lives = refl;
        kept = record {
          start = k.start;
          from = k.from;
          durable = step-IsDurable env k.start.base serializes n.replica e k.durable;
          own_log = x.log_kept ∙ k.own_log;
          counter = x.counter ∙ k.counter;
          older = subst (λ i. OlderThan i n.snapshots) (sym x.counter) k.older;
        };
        grows = record {
          since = map commit_stub x.since;
          grown =
              ap (map commit_stub) x.grown ∙ map-append commit_stub n.replica.committed_log x.since;
        };
        numbered = omega (arith, x.counter);
      }

  save_lem :
      (snap : Snapshot) (dir saved : SnapDir)
      → save env.snap_lib snap dir ≡ Snapshot.ok saved
      → (f : Snapshot.SnapFile) × (saved ≡ BTree.insert snap.snapshot_id f dir)
  unfolding save
  save_lem snap dir saved h = elim (Option-cases (env.snap_lib.serialize snap)) [
    | inl n ↦ absurd (ground arith)
    | inr (p, e) ↦
        (record { payload = p; sidecar = some (Snapshot.hex_digest env.snap_lib p) }, ground arith)
  ]

  -- A snapshot that fails changes nothing.
  pub take_snapshot_failed :
      (r : Replica env) (w : Wal) (dir : SnapDir) (now : ℕ) (x : SnapshotFailure)
      → r.wal ≡ some w
      → (take_snapshot env r dir false now).2 ≡ some x
      → ((take_snapshot env r dir false now).0 ≡ r) × ((take_snapshot env r dir false now).1 ≡ dir)
  unfolding take_snapshot close_log truncate_after_snapshot
  take_snapshot_failed r w dir now x a h = ground arith

  pub Taken-Survives :
      (reads : ReadsBack env.snap_lib) (c : Config) (n : Node env) (w : Wal) (now : ℕ)
      → n.replica.snapshot_counter + 1 < 2 ^ 64
      → w.replica_id ≡ c.id
      → OlderThan n.replica.snapshot_counter n.snapshots
      → Taken env n.replica w n.snapshots now
      → Survives c n (live env c n (snapshot_due now))
  unfolding live start_from_snapshot snapshot_of capture Recovery.replay
  Taken-Survives reads c n w now bound own older t =
      let r = n.replica in
      let snap = snapshot_of env r now in
      let start = start_from_snapshot snap in
      let dir = cleanup_old t.saved 3 in
      let q = record r { wal = some t.file; snapshot_counter = wrapping_suc r.snapshot_counter } in
      let f = save_lem snap n.snapshots t.saved t.is_saved in
      record {
        node = record { replica = q; snapshots = dir };
        lives = ap (λ x. some (record { replica = x.0; snapshots = x.1 })) t.result;
        kept = record {
          start = start;
          from = start_of_snapshot env c dir snap (
              (cleanup_old-load_latest env.snap_lib t.saved 3 (omega arith)).1
              ∙ load_latest-save env.snap_lib snap n.snapshots t.saved reads older t.is_saved);
          durable = record {
            base = start.base;
            logged = record {
              file = t.file;
              entries = [];
              attached = refl;
              holds = t.is_empty;
              replays = refl;
            };
            mirrors = record {
              committed =
                  ap (map commit_stub) (restored_log r.committed_log)
                  ∙ stub_restored r.committed_log;
              up_to = refl;
              certificate =
                  ap (Option.map unsigned) (restored_qc r.high_qc) ∙ unsigned_twice r.high_qc;
              view = refl;
            };
          };
          own_log = ap some (t.same_id ∙ own);
          counter = refl;
          older = OlderThan-cleanup_old (wrapping_suc r.snapshot_counter) 3 t.saved (
              subst (OlderThan (wrapping_suc r.snapshot_counter)) (sym f.1) (
                OlderThan-insert r.snapshot_counter (wrapping_suc r.snapshot_counter) f.0
                  n.snapshots older (omega arith)));
        };
        grows = same-Grows n (record { replica = q; snapshots = dir }) refl;
        numbered = omega arith;
      }
