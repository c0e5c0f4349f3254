-- ===== src/Recovery/Crash.antt =====
-- `recover` on the files that a crash leaves behind.
use persisthotstuff_rst.Base.{
  ℕ, ◌≡◌, refl, sym, ap, ◌∙◌, inl, inr, none, some, List, [], ◌∷◌, ◌++◌, map, length, ◌==◌, arith,
  Bool-cases,
}
use mathlib.Core.Path.{subst}
use mathlib.Core.List.{map-append}
use mathlib.Core.Option
use persisthotstuff_rst.Types.{Block, Config, no_op}
use persisthotstuff_rst.Crypto.{KeyStore}
use persisthotstuff_rst.Wal
use persisthotstuff_rst.Wal.{Wal, WalLib, WalLaws, create, open_wal, read_all}
use persisthotstuff_rst.Wal.RoundTrip.{IsLog, create-IsLog, read_all-IsLog, open_wal-IsLog}
use persisthotstuff_rst.Wal.Entry.{
  LogEntry, block_inserted, vote_received, qc_formed, high_qc_updated, block_committed,
  view_changed, snapshot_taken,
}
use persisthotstuff_rst.Snapshot.{SnapDir, load_latest}
use persisthotstuff_rst.Replica.{Env, Replica}
use persisthotstuff_rst.Recovery.{
  Base, Start, RecResult, ok, err, fresh, recover, build, start_fresh, start_of, open_and_read,
  recover_from_log, replay_entry, replay,
}
use persisthotstuff_rst.Recovery.Replay.{RecResult-cases}
use persisthotstuff_rst.Recovery.Durability.{IsDurable, Mirrors, commit_stub, unsigned}

-- A state that holds only what a log keeps.
record IsBare (s : Base) : Type 0 where
  committed : map commit_stub s.committed_log ≡ s.committed_log
  certificate : Option.map unsigned s.high_qc ≡ s.high_qc

abbrev ok_or : Base → RecResult Base → Base
ok_or s (ok t) = t
ok_or s (err e) = s

commit-IsBare :
    (log : List Block) (b : Block)
    → map commit_stub log ≡ log
    → map commit_stub (log ++ commit_stub b ∷ []) ≡ log ++ commit_stub b ∷ []
commit-IsBare log b h =
    map-append commit_stub log (commit_stub b ∷ []) ∙ ap (λ l. l ++ commit_stub b ∷ []) h

replay_entry-IsBare : (s : Base) (e : LogEntry) → IsBare s → IsBare (ok_or s (replay_entry s e))
unfolding replay_entry
replay_entry-IsBare s (block_inserted hash p v e pr qh qv c t) b = record {
  committed = b.committed;
  certificate = b.certificate;
}
replay_entry-IsBare s (vote_received h v id t) b = b
replay_entry-IsBare s (qc_formed h v e n t) b = record {
  committed = b.committed;
  certificate = let q = b.certificate in ground arith;
}
replay_entry-IsBare s (high_qc_updated h v e t) b = record {
  committed = b.committed;
  certificate = refl;
}
replay_entry-IsBare s (block_committed hash p v e pr c index t) b =
    elim (Bool-cases (index == length s.committed_log)) [
      | inl y ↦ rw y (record {
        committed =
            commit-IsBare s.committed_log
              (record {
                hash = hash;
                parent = p;
                view = v;
                epoch = e;
                proposer = pr;
                qc = none;
                command = no_op;
              })
              b.committed;
        certificate = b.certificate;
      })
      | inr n ↦ rw n b
    ]
replay_entry-IsBare s (view_changed o n r t) b = record {
  committed = b.committed;
  certificate = b.certificate;
}
replay_entry-IsBare s (snapshot_taken id l t) b = b

replay-IsBare : (s t : Base) (es : List LogEntry) → IsBare s → replay s es ≡ ok t → IsBare t
unfolding replay
replay-IsBare s t [] b h = subst IsBare (ap (ok_or s) h) b
replay-IsBare s t (e ∷ es) b h = elim (RecResult-cases (replay_entry s e)) [
  | inl (x, n) ↦ absurd (ground arith)
  | inr (u, k) ↦
      replay-IsBare u t es (subst IsBare (ap (ok_or s) k) (replay_entry-IsBare s e b))
        (ground arith)
]

module _ (env : Env) where
  abbrev pub with_wal : Replica env → Wal → Replica env
  with_wal r w = record r { wal = some w }

  start_of_empty : (c : Config) → start_of env c [] ≡ ok (start_fresh c)
  unfolding start_of load_latest
  start_of_empty c = refl

  -- The first start of a replica, on an empty directory, makes it durable.
  pub recover_empty-IsDurable :
      (c : Config) (ks : KeyStore env.crypto) (now : ℕ) (r : Replica env) (w : Wal)
      → recover env c ks (record { snapshots = []; wal_file = none }) now ≡ some (ok (r, w))
      → IsDurable env fresh (with_wal r w)
  unfolding recover create load_latest
  recover_empty-IsDurable c ks now r w h =
      let built : build env c ks (start_fresh c) fresh now ≡ r = ground arith in
      let made : create none c.id now ≡ Wal.ok w = ground arith in
      record {
        base = fresh;
        logged = record {
          file = w;
          entries = [];
          attached = refl;
          holds = create-IsLog env.wal_lib c.id now w made;
          replays = refl;
        };
        mirrors =
            subst (λ x. Mirrors env fresh (with_wal x w) fresh) built
              (record { committed = refl; up_to = refl; certificate = refl; view = refl });
      }

  -- What a recovery brings back.
  pub record IsRecovered (before after : Replica env) : Type 0 where
    pub committed : after.committed_log ≡ map commit_stub before.committed_log
    pub up_to : after.committed_up_to ≡ before.committed_up_to
    pub certificate : after.high_qc ≡ Option.map unsigned before.high_qc
    pub view : after.current_view ≡ before.current_view

  pub open_and_read-IsLog :
      (laws : WalLaws env.wal_lib) (w : Wal) (es : List LogEntry)
      → IsLog env.wal_lib w es
      → open_and_read env w.replica_id w.content ≡ some (ok (w, es))
  unfolding open_and_read
  open_and_read-IsLog laws w es l =
      rw (open_wal-IsLog env.wal_lib laws w es l, open_and_read)
        (rw (read_all-IsLog env.wal_lib laws w es l) refl)

  -- A replica whose log is durable from the state of its latest snapshot, or from nothing, is
  -- recovered from both.
  pub recover-IsDurable :
      (laws : WalLaws env.wal_lib) (c : Config) (ks : KeyStore env.crypto) (r : Replica env)
      (w : Wal) (dir : SnapDir) (start : Start) (now : ℕ)
      → start_of env c dir ≡ ok start
      → (d : IsDurable env start.base r) → r.wal ≡ some w
      → w.replica_id ≡ c.id
      → recover env c ks (record { snapshots = dir; wal_file = some w.content }) now
        ≡ some (ok (build env c ks start d.base now, w))
  unfolding recover
  recover-IsDurable laws c ks r w dir start now from d a i =
      rw (from, recover) (rw (opened, recover) (rw (d.logged.replays, recover_from_log) refl))
    where
      same : d.logged.file ≡ w
      same = ground (arith, d.logged.attached)

      opened : open_and_read env c.id w.content ≡ some (ok (w, d.logged.entries))
      opened =
          ap (λ k. open_and_read env k w.content) (sym i)
          ∙ open_and_read-IsLog laws w d.logged.entries
              (subst (λ f. IsLog env.wal_lib f d.logged.entries) same d.logged.holds)

  -- A durable replica whose process dies is recovered from its log file alone, if the libraries
  -- keep what they document and the handle has the id of the configuration: the recovery
  -- succeeds, with the same log handle, all committed blocks in order, the last committed hash,
  -- the high QC and the view. Of the blocks the certificates and commands are lost, of the high
  -- QC the signatures.
  pub recover_after_crash :
      (laws : WalLaws env.wal_lib) (c : Config) (ks : KeyStore env.crypto) (r : Replica env)
      (w : Wal) (now : ℕ)
      → IsDurable env fresh r
      → r.wal ≡ some w
      → w.replica_id ≡ c.id
      → (s : Replica env) × (recover env c ks
            (record { snapshots = []; wal_file = some w.content })
            now
          ≡ some (ok (s, w)))
        × IsRecovered r s
  unfolding start_fresh build
  recover_after_crash laws c ks r w now d a i = (
    build env c ks (start_fresh c) d.base now,
    recover-IsDurable laws c ks r w [] (start_fresh c) now (start_of_empty c) d a i,
    record {
      committed = sym bare.committed ∙ d.mirrors.committed;
      up_to = d.mirrors.up_to;
      certificate = sym bare.certificate ∙ d.mirrors.certificate;
      view = d.mirrors.view;
    },
  )
    where
      bare : IsBare d.base
      bare =
          replay-IsBare fresh d.base d.logged.entries
            (record { committed = refl; certificate = refl }) d.logged.replays
