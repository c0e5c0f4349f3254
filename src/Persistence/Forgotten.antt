-- ===== src/Persistence/Forgotten.antt =====
-- The application after a restart without a snapshot.
use persisthotstuff_rst.Base.{ℕ, ◌≡◌, Option, none, some, [], map, arith}
use persisthotstuff_rst.Types.{Config, Bytes}
use persisthotstuff_rst.Crypto.{KeyStore}
use persisthotstuff_rst.Wal.{Wal, WalLaws}
use persisthotstuff_rst.Snapshot.{load_latest}
use persisthotstuff_rst.Replica.{Env, Replica}
use persisthotstuff_rst.Recovery
use persisthotstuff_rst.Recovery.{
  fresh, recover, build, start_fresh, start_of, recover_from_log, create_log,
}
use persisthotstuff_rst.Recovery.Durability.{IsDurable, commit_stub}
use persisthotstuff_rst.Recovery.Crash.{recover_after_crash}
use persisthotstuff_rst.Persistence.{attach_app}

module _ (env : Env) where
  no_pending :
      (c : Config) (ks : KeyStore env.crypto) (f : Option Bytes) (now : ℕ) (s : Replica env)
      (w : Wal)
      → recover env c ks (record { snapshots = []; wal_file = f }) now ≡ some (Recovery.ok (s, w))
      → s.pending_app_state ≡ none
  unfolding recover load_latest build start_fresh start_of recover_from_log create_log
  no_pending c ks f now s w h = ground (arith, h)

  -- A durable replica that dies before its first snapshot gets its committed blocks back from the
  -- log, if the libraries keep what they document and the handle has the id of the configuration;
  -- but an application attached to it afterwards is left in its own starting state, whatever it
  -- had executed of these blocks before: none of them is executed again.
  pub recover_forgets_app :
      (laws : WalLaws env.wal_lib) (c : Config) (ks : KeyStore env.crypto) (r : Replica env)
      (w : Wal) (now : ℕ) (a : env.app.State)
      → IsDurable env fresh r
      → r.wal ≡ some w
      → w.replica_id ≡ c.id
      → (s : Replica env) × (recover env c ks
            (record { snapshots = []; wal_file = some w.content })
            now
          ≡ some (Recovery.ok (s, w)))
        × (s.committed_log ≡ map commit_stub r.committed_log)
        × ((attach_app env s a).app ≡ some a)
  unfolding attach_app
  recover_forgets_app laws c ks r w now a d e i =
      let p = recover_after_crash env laws c ks r w now d e i in
      (p.0, p.1, p.2.committed, ground (arith, no_pending c ks (some w.content) now p.0 w p.1))
