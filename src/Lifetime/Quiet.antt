-- ===== src/Lifetime/Quiet.antt =====
-- What a replica does without its files, and a change of its configuration that keeps its id.
use persisthotstuff_rst.Base.{ℕ, ◌≡◌, refl, sym, ap, ◌∙◌, inl, inr, ◌⊎◌, some, arith}
use mathlib.Core.Path.{subst}
use persisthotstuff_rst.Types.{Config, Hash, ConsensusCommand}
use persisthotstuff_rst.Snapshot.{Snapshot, SnapResult, SnapDir, ReadsBack, load_latest}
use persisthotstuff_rst.Snapshot
use persisthotstuff_rst.Snapshot.Files.{OlderThan}
use persisthotstuff_rst.Replica.{Env, Replica}
use persisthotstuff_rst.Replica.Proposals.{propose_with_hash}
use persisthotstuff_rst.Replica.Pacemaker.{
  propose_next_with_hash, enqueue_command, enable_dummy_proposals, disable_dummy_proposals,
}
use persisthotstuff_rst.Recovery
use persisthotstuff_rst.Recovery.{DataDir, Start, start_of, start_fresh, start_from_snapshot}
use persisthotstuff_rst.Recovery.Durability.{IsDurable, SameMemory, unlogged-IsDurable}
use persisthotstuff_rst.Lifetime.{Node}
use persisthotstuff_rst.Lifetime.Kept.{log_id}
use persisthotstuff_rst.Lifetime.Restarts.{IsKept}

SnapResult-cases :
    (x : SnapResult Snapshot)
    → ((e : _) × (x ≡ Snapshot.err e)) ⊎ ((s : Snapshot) × (x ≡ Snapshot.ok s))
SnapResult-cases (Snapshot.ok s) = inr (s, refl)
SnapResult-cases (Snapshot.err e) = inl (e, refl)

module _ (env : Env) where
  -- Where a recovery starts depends on the configuration for the validators only.
  start_of_config :
      (c c' : Config) (dir : SnapDir) (start : Start)
      → start_of env c dir ≡ Recovery.ok start
      → (start' : Start) × (start_of env c' dir ≡ Recovery.ok start')
        × (start'.base ≡ start.base)
        × (start'.snapshot_counter ≡ start.snapshot_counter)
  unfolding start_of start_fresh
  start_of_config c c' dir start h = elim (SnapResult-cases (load_latest env.snap_lib dir)) [
    | inr (s, e) ↦
        let q : start_from_snapshot s ≡ start = ground arith in
        (
          start_from_snapshot s,
          rw (e, start_of) refl,
          ap (λ (x : Start). x.base) q,
          ap (λ (x : Start). x.snapshot_counter) q,
        )
    | inl (x, e) ↦ by_error x e
  ]
    where
      by_error :
          (x : Snapshot.SnapshotError)
          → load_latest env.snap_lib dir ≡ Snapshot.err x
          → (start' : Start) × (start_of env c' dir ≡ Recovery.ok start')
            × (start'.base ≡ start.base)
            × (start'.snapshot_counter ≡ start.snapshot_counter)
      by_error Snapshot.not_found e =
          let q : start_fresh c ≡ start = ground arith in
          (
            start_fresh c',
            rw (e, start_of) refl,
            ap (λ (x : Start). x.base) q,
            ap (λ (x : Start). x.snapshot_counter) q,
          )
      by_error Snapshot.io e = absurd (ground arith)
      by_error Snapshot.serialization e = absurd (ground arith)
      by_error (Snapshot.checksum_mismatch a b) e = absurd (ground arith)

  pub config-IsKept :
      (c c' : Config) (n : Node env) → c'.id ≡ c.id → IsKept env c n → IsKept env c' n
  config-IsKept c c' n i k =
      let s = start_of_config c c' n.snapshots k.start k.from in
      record {
        start = s.0;
        from = s.1;
        durable = subst (λ b. IsDurable env b n.replica) (sym s.2) k.durable;
        own_log = k.own_log ∙ ap some (sym i);
        counter = k.counter ∙ sym s.3;
        older = k.older;
      }

  -- What does not touch the files leaves them as good as they were.
  pub record IsQuiet (r s : Replica env) : Type 0 where
    pub memory : SameMemory env r s
    pub wal : s.wal ≡ r.wal
    pub counter : s.snapshot_counter ≡ r.snapshot_counter
    pub config : s.config ≡ r.config

  pub quiet-IsKept :
      (c : Config) (r s : Replica env) (dir : SnapDir)
      → IsQuiet r s
      → IsKept env c (record { replica = r; snapshots = dir })
      → IsKept env c (record { replica = s; snapshots = dir })
  quiet-IsKept c r s dir q k = record {
    start = k.start;
    from = k.from;
    durable = unlogged-IsDurable env k.start.base r s q.memory q.wal k.durable;
    own_log = ap (log_id env) q.wal ∙ k.own_log;
    counter = q.counter ∙ k.counter;
    older = subst (λ i. OlderThan i dir) (sym q.counter) k.older;
  }

  pub propose-IsQuiet :
      (r : Replica env) (view : ℕ) (hash : Hash) (now : ℕ)
      → IsQuiet r (propose_with_hash env r view hash now).0
  unfolding propose_with_hash
  propose-IsQuiet r view hash now = ground arith

  pub propose_next-IsQuiet :
      (r : Replica env) (view : ℕ) (hash : Hash) (now : ℕ)
      → IsQuiet r (propose_next_with_hash env r view hash now).0
  unfolding propose_next_with_hash propose_with_hash
  propose_next-IsQuiet r view hash now = ground arith

  pub enqueue-IsQuiet :
      (r : Replica env) (command : ConsensusCommand) → IsQuiet r (enqueue_command env r command)
  unfolding enqueue_command
  enqueue-IsQuiet r command = ground arith

  pub enable-IsQuiet : (r : Replica env) (ms : ℕ) → IsQuiet r (enable_dummy_proposals env r ms)
  unfolding enable_dummy_proposals
  enable-IsQuiet r ms = ground arith

  pub disable-IsQuiet : (r : Replica env) → IsQuiet r (disable_dummy_proposals env r)
  unfolding disable_dummy_proposals
  disable-IsQuiet r = ground arith
