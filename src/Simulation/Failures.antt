-- ===== src/Simulation/Failures.antt =====
-- Operations of the cluster that are refused.
use persisthotstuff_rst.Base.{
  ℕ, zero, suc, ◌≡◌, ◌≢◌, ◌<◌, ◌↔◌, ◌⊎◌, refl, sym, ap, ◌∙◌, inl, inr, Bool, true, false, none,
  some, List, [], ◌∷◌, length, get_elem?, set, leb, arith, Bool-cases, Option-cases,
}
use mathlib.Core.Path.{subst}
use persisthotstuff_rst.Types.{Bytes, Config}
use persisthotstuff_rst.Crypto.{KeyStore}
use persisthotstuff_rst.Wal.{Wal, header, create, open_wal, open_entries}
use persisthotstuff_rst.Wal.Entry.{LogEntry}
use persisthotstuff_rst.Recovery
use persisthotstuff_rst.Recovery.{DataDir, recover, create_log, recover_from_log, open_and_read}
use persisthotstuff_rst.Simulation.Start.{start_persistent, left_by_start}
use persisthotstuff_rst.Replica.{Env, Replica}
use persisthotstuff_rst.Simulation.{Simulation, done, is_crashed}
use persisthotstuff_rst.Simulation.Crash.{crash_replica, set_replica_unresponsive}
use persisthotstuff_rst.Simulation.Rejoin.{recover_replica, rejoining}

set_same : {A : Type 0} (xs : List A) (i : ℕ) (x : A) → get_elem? xs i ≡ some x → set xs i x ≡ xs
set_same [] i x g = refl
set_same (y ∷ xs) zero x g = ground arith
set_same (y ∷ xs) (suc i) x g = ap (λ l. y ∷ l) (set_same xs i x g)

module _ (env : Env) where
  crash_unchanged :
      (s : Simulation env) (id now : ℕ)
      → (crash_replica env s id now).1 ≢ done
      → (crash_replica env s id now).0 ≡ s
  unfolding crash_replica
  crash_unchanged s id now n = ground (arith, n)

  open_and_read_content :
      (id : ℕ) (bs : Bytes) (w : Wal) (es : List LogEntry)
      → open_and_read env id bs ≡ some (Recovery.ok (w, es))
      → w.content ≡ bs
  unfolding open_and_read open_wal open_entries
  open_and_read_content id bs w es h = ground arith

  recover_content :
      (c : Config) (ks : KeyStore env.crypto) (d : DataDir) (now : ℕ) (r : Replica env) (w : Wal)
      → recover env c ks d now ≡ some (Recovery.ok (r, w))
      → (d.wal_file ≡ some w.content) ⊎ ((d.wal_file ≡ none) × (w.content ≡ header c.id now))
  unfolding recover create_log create recover_from_log
  recover_content c ks d now r w h = elim (Option-cases d.wal_file) [
    | inl n ↦ inr (n, ground arith)
    | inr (bs, e) ↦ elim (Option-cases (open_and_read env c.id bs)) [
      | inl n ↦ absurd (ground arith)
      | inr (Recovery.err x, o) ↦ absurd (ground arith)
      | inr (Recovery.ok (v, es), o) ↦ inl (ground (arith, open_and_read_content c.id bs v es o))
    ]
  ]

  -- What a start that fails leaves: the directory as it was, or with a log file where there was
  -- none, which has the header only.
  left_by_start_lem :
      (c : Config) (ks : KeyStore env.crypto) (d : DataDir) (now : ℕ)
      → (left_by_start env c ks d now ≡ d)
        ⊎ ((d.wal_file ≡ none)
            × (left_by_start env c ks d now ≡ record d { wal_file = some (header c.id now) }))
  unfolding left_by_start
  left_by_start_lem c ks d now = elim (Option-cases (recover env c ks d now)) [
    | inl n ↦ inl (rw (n, left_by_start) refl)
    | inr (Recovery.err e, h) ↦ inl (rw (h, left_by_start) refl)
    | inr (Recovery.ok (r, w), h) ↦
        let l : left_by_start env c ks d now ≡ record d { wal_file = some w.content } =
          rw (h, left_by_start) refl in
        elim (recover_content c ks d now r w h) [
          | inl e ↦ inl (l ∙ ap (λ f. record d { wal_file = f }) (sym e))
          | inr (n, e) ↦ inr (n, l ∙ ap (λ f. record d { wal_file = some f }) e)
        ]
  ]

  -- The cluster as it was, or with a log file, of the header only, in the directory of the replica,
  -- where there was none.
  abbrev pub IsLeft : Simulation env → ℕ → ℕ → Simulation env → Type 0
  IsLeft s id now t =
      (t ≡ s)
      ⊎ ((r : Replica env) × (d : DataDir) × (get_elem? s.replicas id ≡ some r)
          × (get_elem? s.disks id ≡ some d)
          × (d.wal_file ≡ none)
          × (t ≡ record s {
            disks = set s.disks id (record d { wal_file = some (header r.config.id now) });
          }))

  left_lem :
      (s : Simulation env) (id now : ℕ) (r : Replica env) (ks : KeyStore env.crypto) (d : DataDir)
      → get_elem? s.replicas id ≡ some r
      → get_elem? s.disks id ≡ some d
      → IsLeft s id now (record s { disks = set s.disks id (left_by_start env r.config ks d now) })
  left_lem s id now r ks d g h = elim (left_by_start_lem r.config ks d now) [
    | inl e ↦ inl (
        ap (λ x. record s { disks = set s.disks id x }) e
        ∙ ap (λ x. record s { disks = x }) (set_same s.disks id d h))
    | inr (n, e) ↦ inr (r, d, g, h, n, ap (λ x. record s { disks = set s.disks id x }) e)
  ]

  recover_left :
      (s : Simulation env) (id now : ℕ) (r : Replica env) (ks : KeyStore env.crypto) (d : DataDir)
      → get_elem? s.replicas id ≡ some r
      → get_elem? s.replica_keystores id ≡ some ks
      → get_elem? s.disks id ≡ some d
      → (recover_replica env s id now).1 ≢ done
      → ((recover_replica env s id now).0 ≡ s)
        ⊎ ((recover_replica env s id now).0
            ≡ record s { disks = set s.disks id (left_by_start env r.config ks d now) })
  unfolding recover_replica
  recover_left s id now r ks d g k h n = elim (Bool-cases s.persistence_enabled) [
    | inr p ↦ inl (ground arith)
    | inl p ↦ elim (Bool-cases (leb (length s.replicas) id)) [
      | inl l ↦ inl (ground arith)
      | inr l ↦ elim (Bool-cases (is_crashed env s id)) [
        | inr c ↦ inl (ground arith)
        | inl c ↦ elim (Option-cases (start_persistent env r.config ks d now).1) [
          | inl x ↦ inr (ground arith)
          | inr (q, x) ↦ elim (Option-cases (rejoining env s id q now)) [
            | inl y ↦ inl (ground arith)
            | inr (z, y) ↦ absurd (n (ground arith))
          ]
        ]
      ]
    ]
  ]

  recover-IsLeft :
      (s : Simulation env) (id now : ℕ)
      → (recover_replica env s id now).1 ≢ done
      → IsLeft s id now (recover_replica env s id now).0
  unfolding recover_replica
  recover-IsLeft s id now n = elim (Option-cases (get_elem? s.replicas id)) [
    | inl x ↦ inl (ground arith)
    | inr (r, g) ↦ elim (Option-cases (get_elem? s.replica_keystores id)) [
      | inl x ↦ inl (ground arith)
      | inr (ks, k) ↦ elim (Option-cases (get_elem? s.disks id)) [
        | inl x ↦ inl (ground arith)
        | inr (d, h) ↦ elim (recover_left s id now r ks d g k h n) [
          | inl e ↦ inl e
          | inr e ↦ subst (IsLeft s id now) (sym e) (left_lem s id now r ks d g h)
        ]
      ]
    ]
  ]

  set_unchanged :
      (s : Simulation env) (id : ℕ) (u : Bool)
      → (set_replica_unresponsive env s id u).1 ≢ done
      → (set_replica_unresponsive env s id u).0 ≡ s
  unfolding set_replica_unresponsive
  set_unchanged s id u n = ground (arith, n)

  -- A crash or a change of responsiveness that ends in anything but success leaves the cluster
  -- exactly as it was. So does a recovery, except that it may leave a log file, with its header
  -- only, in the directory of the replica, if there was none: the replica stays crashed, and
  -- nothing else on disk or in memory is replaced. A crash succeeds exactly with persistence on, an
  -- id of the cluster with a key store, and the replica not crashed already; and a replica that is
  -- not crashed is never recovered.
  pub failed_unchanged :
      (s : Simulation env) (id now : ℕ) (u : Bool)
      → ((crash_replica env s id now).1 ≢ done → (crash_replica env s id now).0 ≡ s)
        × ((recover_replica env s id now).1 ≢ done
            → IsLeft s id now (recover_replica env s id now).0)
        × ((set_replica_unresponsive env s id u).1 ≢ done
            → (set_replica_unresponsive env s id u).0 ≡ s)
        × (((crash_replica env s id now).1 ≡ done) ↔ (
            (s.persistence_enabled ≡ true)
            × (id < length s.replicas)
            × (is_crashed env s id ≡ false)
            × (get_elem? s.replicas id ≢ none)
            × (get_elem? s.replica_keystores id ≢ none)))
        × (is_crashed env s id ≡ false → (recover_replica env s id now).1 ≢ done)
  unfolding crash_replica recover_replica
  failed_unchanged s id now u = (
    crash_unchanged s id now,
    recover-IsLeft s id now,
    set_unchanged s id u,
    ((λ h. ground (arith, h)), (λ h. ground (arith, h))),
    (λ c h. ground (arith, c, h)),
  )
