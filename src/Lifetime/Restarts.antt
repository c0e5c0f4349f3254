-- ===== src/Lifetime/Restarts.antt =====
-- A start of the process, on the files that an earlier one left behind or on none.
use persisthotstuff_rst.Base.{
  ℕ, ◌≡◌, refl, sym, ap, ◌∙◌, inl, inr, ◌⊎◌, none, some, map, length, ◌==◌, ◌&&◌, arith, Bool-cases,
}
use mathlib.Core.Path.{subst}
use mathlib.Core.Option
use persisthotstuff_rst.BTree
use persisthotstuff_rst.Types.{Block, Config}
use persisthotstuff_rst.Crypto.{KeyStore}
use persisthotstuff_rst.Wal.{Wal, WalLaws, append, write_all}
use persisthotstuff_rst.Wal
use persisthotstuff_rst.Wal.Entry.{LogEntry, from_block}
use persisthotstuff_rst.Snapshot.Files.{OlderThan}
use persisthotstuff_rst.Replica.{Env, Replica, record_entry}
use persisthotstuff_rst.Recovery
use persisthotstuff_rst.Recovery.{Start, DataDir, recover, start_of, build}
use persisthotstuff_rst.Recovery.Durability.{
  AlwaysSerializes, IsDurable, SameMemory, append_total, inserted, unlogged-IsDurable,
  logged-IsDurable, unsigned, commit_stub,
}
use persisthotstuff_rst.Recovery.Crash.{with_wal, recover-IsDurable}
use persisthotstuff_rst.Persistence.{attach_app}
use persisthotstuff_rst.Simulation.{done}
use persisthotstuff_rst.Simulation.Crash.{closed_disk}
use persisthotstuff_rst.Simulation.Start.{start_persistent, log_genesis}
use persisthotstuff_rst.Lifetime.{Node, boot}
use persisthotstuff_rst.Lifetime.Kept.{log_id}

module _ (env : Env) where
  -- The files of a node bring back what it has committed, its high QC and its view, and its next
  -- snapshot number is above those of its snapshots.
  pub record IsKept (c : Config) (n : Node env) : Type 0 where
    pub start : Start
    pub from : start_of env c n.snapshots ≡ Recovery.ok start
    pub durable : IsDurable env start.base n.replica
    pub own_log : log_id env n.replica.wal ≡ some c.id
    pub counter : n.replica.snapshot_counter ≡ start.snapshot_counter
    pub older : OlderThan n.replica.snapshot_counter n.snapshots

  -- The log after the start: as it was, or with the genesis block.
  log_genesis_lem :
      (serializes : AlwaysSerializes env.wal_lib) (r : Replica env) (w : Wal) (now : ℕ)
      → (v : Wal) × (log_genesis env r w now ≡ Wal.ok v)
        × ((v ≡ w) ⊎ ((b : Block) × (append env.wal_lib w (from_block b now) ≡ Wal.ok v)))
  unfolding log_genesis
  log_genesis_lem serializes r w now =
      elim (Bool-cases
        (w.entry_count == 0 && (length r.block_tree == 1 && BTree.contains_key 0 r.block_tree))) [
          | inr n ↦ rw n (w, refl, inl refl)
          | inl t ↦
              let b : Block = elim (BTree.get 0 r.block_tree) [
                | none ↦ Recovery.genesis_block
                | some b ↦ b
              ] in
              let a =
                append_total env.wal_lib w (from_block b now) (serializes (from_block b now)) in
              rw t (a.0, a.1, inr (b, a.1))
        ]

  append_id :
      (w v : Wal) (e : LogEntry) → append env.wal_lib w e ≡ Wal.ok v → v.replica_id ≡ w.replica_id
  unfolding append write_all
  append_id w v e h = ground arith

  logged_genesis-IsDurable :
      (serializes : AlwaysSerializes env.wal_lib) (base : Recovery.Base) (r : Replica env)
      (w v : Wal) (now : ℕ)
      → IsDurable env base (with_wal env r w)
      → (v ≡ w) ⊎ ((b : Block) × (append env.wal_lib w (from_block b now) ≡ Wal.ok v))
      → IsDurable env base (with_wal env r v) × (v.replica_id ≡ w.replica_id)
  unfolding record_entry
  logged_genesis-IsDurable serializes base r w v now d (inl e) = (
    subst (λ x. IsDurable env base (with_wal env r x)) (sym e) d,
    ap (λ (x : Wal). x.replica_id) e,
  )
  logged_genesis-IsDurable serializes base r w v now d (inr (b, e)) =
      let k = inserted d.base b now in
      (
        logged-IsDurable env base serializes (with_wal env r w) (with_wal env r v)
            (from_block b now) d k.0 k.1 (rw (e, record_entry) refl)
            (record {
              committed = ap (map commit_stub) k.2.committed ∙ d.mirrors.committed;
              up_to = k.2.up_to ∙ d.mirrors.up_to;
              certificate = ap (Option.map unsigned) k.2.certificate ∙ d.mirrors.certificate;
              view = k.2.view ∙ d.mirrors.view;
            }),
        append_id w v (from_block b now) e,
      )

  -- What a restart brings back.
  pub record IsBroughtBack (r s : Replica env) : Type 0 where
    pub committed : map commit_stub s.committed_log ≡ map commit_stub r.committed_log
    pub up_to : s.committed_up_to ≡ r.committed_up_to
    pub certificate : Option.map unsigned s.high_qc ≡ Option.map unsigned r.high_qc
    pub view : s.current_view ≡ r.current_view
    pub counter : s.snapshot_counter ≡ r.snapshot_counter

  -- A process that recovers a durable replica.
  pub started-IsKept :
      (serializes : AlwaysSerializes env.wal_lib) (c : Config) (ks : KeyStore env.crypto)
      (disk : DataDir) (now : ℕ) (start : Start) (r : Replica env) (w : Wal)
      → start_of env c disk.snapshots ≡ Recovery.ok start
      → recover env c ks disk now ≡ some (Recovery.ok (r, w))
      → IsDurable env start.base (with_wal env r w)
      → w.replica_id ≡ c.id
      → r.snapshot_counter ≡ start.snapshot_counter
      → OlderThan start.snapshot_counter disk.snapshots
      → (v : Wal) × (start_persistent env c ks disk now ≡ (done, some (with_wal env r v)))
        × IsKept c (record { replica = with_wal env r v; snapshots = disk.snapshots })
  unfolding start_persistent
  started-IsKept serializes c ks disk now start r w from recovered durable own counter older =
      let g = log_genesis_lem serializes r w now in
      let l = logged_genesis-IsDurable serializes start.base r w g.0 now durable g.2 in
      (
        g.0,
        rw (recovered, start_persistent) (rw (g.1) refl),
        record {
          start = start;
          from = from;
          durable = l.0;
          own_log = ap some (l.1 ∙ own);
          counter = counter;
          older = subst (λ k. OlderThan k disk.snapshots) (sym counter) older;
        },
      )

  -- A node whose process dies is started again from what it left behind.
  pub restarts :
      (laws : WalLaws env.wal_lib) (serializes : AlwaysSerializes env.wal_lib) (c : Config)
      (n : Node env) (ks : KeyStore env.crypto) (disk : DataDir) (now : ℕ)
      → IsKept c n
      → closed_disk env n.replica disk
        ≡ closed_disk env n.replica (record { snapshots = n.snapshots; wal_file = none })
      → (q : Replica env) × (start_persistent env c ks (closed_disk env n.replica disk) now
          ≡ (done, some q))
        × IsKept c (record { replica = q; snapshots = n.snapshots })
        × IsBroughtBack n.replica q
        × (q.config ≡ c)
  unfolding closed_disk build
  restarts laws serializes c n ks disk now k same =
      let w = k.durable.logged.file in
      let own : w.replica_id ≡ c.id = ground (arith, k.own_log, k.durable.logged.attached) in
      let files : closed_disk env n.replica disk
          ≡ record { snapshots = n.snapshots; wal_file = some w.content } =
        same ∙ rw (k.durable.logged.attached, closed_disk) refl in
      let r = build env c ks k.start k.durable.base now in
      let b =
        started-IsKept serializes c ks
          (record { snapshots = n.snapshots; wal_file = some w.content }) now k.start r w k.from
          (recover-IsDurable env laws c ks n.replica w n.snapshots k.start now k.from k.durable
            k.durable.logged.attached own)
          (record {
            base = k.durable.base;
            logged = record {
              file = w;
              entries = k.durable.logged.entries;
              attached = refl;
              holds = k.durable.logged.holds;
              replays = k.durable.logged.replays;
            };
            mirrors = record { committed = refl; up_to = refl; certificate = refl; view = refl };
          })
          own refl (subst (λ i. OlderThan i n.snapshots) k.counter k.older) in
      (
        with_wal env r b.0,
        ap (λ d. start_persistent env c ks d now) files ∙ b.1,
        b.2,
        record {
          committed = k.durable.mirrors.committed;
          up_to = k.durable.mirrors.up_to;
          certificate = k.durable.mirrors.certificate;
          view = k.durable.mirrors.view;
          counter = sym k.counter;
        },
        refl,
      )

  -- What the attached application leaves alone.
  attach_app_lem :
      (r : Replica env) (a : env.app.State)
      → SameMemory env r (attach_app env r a)
        × ((attach_app env r a).wal ≡ r.wal)
        × ((attach_app env r a).snapshot_counter ≡ r.snapshot_counter)
  unfolding attach_app
  attach_app_lem r a = (
    record {
      committed = ground arith;
      up_to = ground arith;
      certificate = ground arith;
      view = ground arith;
    },
    ground arith,
    ground arith,
  )

  -- With the application attached, the process is up.
  pub boot-IsKept :
      (c : Config) (ks : KeyStore env.crypto) (a : env.app.State) (disk : DataDir) (now : ℕ)
      (q : Replica env)
      → start_persistent env c ks disk now ≡ (done, some q)
      → IsKept c (record { replica = q; snapshots = disk.snapshots })
      → (m : Node env) × (boot env c ks a disk now ≡ some m)
        × IsKept c m
        × IsBroughtBack q m.replica
  unfolding boot
  boot-IsKept c ks a disk now q started k =
      let s = attach_app_lem q a in
      (
        record { replica = attach_app env q a; snapshots = disk.snapshots },
        rw (started, boot) refl,
        record {
          start = k.start;
          from = k.from;
          durable = unlogged-IsDurable env k.start.base q (attach_app env q a) s.0 s.1 k.durable;
          own_log = ap (log_id env) s.1 ∙ k.own_log;
          counter = s.2 ∙ k.counter;
          older = subst (λ i. OlderThan i disk.snapshots) (sym (s.2)) k.older;
        },
        record {
          committed = ap (map commit_stub) s.0.committed;
          up_to = s.0.up_to;
          certificate = ap (Option.map unsigned) s.0.certificate;
          view = s.0.view;
          counter = s.2;
        },
      )

  pub IsBroughtBack-trans :
      (r s t : Replica env) → IsBroughtBack r s → IsBroughtBack s t → IsBroughtBack r t
  IsBroughtBack-trans r s t a b = record {
    committed = b.committed ∙ a.committed;
    up_to = b.up_to ∙ a.up_to;
    certificate = b.certificate ∙ a.certificate;
    view = b.view ∙ a.view;
    counter = b.counter ∙ a.counter;
  }
