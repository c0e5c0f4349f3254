-- ===== src/Simulation/Consistent.antt =====
-- Invariants of one replica as invariants of the cluster.
use persisthotstuff_rst.Base.{
  ℕ, zero, suc, ◌+◌, ◌<◌, ◌≡◌, refl, false, List, [], ◌∷◌, length, All, arith,
}
use persisthotstuff_rst.BTree.{BTreeSet, insert_key, contains}
use persisthotstuff_rst.BTree.SetLaws.{IsAscending, insert_key-IsAscending, length-insert_key}
use persisthotstuff_rst.Types.{Hash, Config}
use persisthotstuff_rst.Crypto.{KeyStore}
use persisthotstuff_rst.Snapshot.{SnapDir}
use persisthotstuff_rst.Replica.{
  Env, Replica, insert_ids, ensure_default_validators, fault_threshold,
}
use persisthotstuff_rst.Replica.Proposals.{propose_with_hash, insert_own}
use persisthotstuff_rst.Replica.Pacemaker.{
  propose_next_with_hash, enqueue_command, enable_dummy_proposals, disable_dummy_proposals,
}
use persisthotstuff_rst.Persistence.{take_snapshot}
use persisthotstuff_rst.Machine.{SameLog, SameLog-IsConsistent, IsConsistent, step-IsConsistent}
use persisthotstuff_rst.Simulation.{Simulation}
use persisthotstuff_rst.Simulation.Start.{fresh_replica}
use persisthotstuff_rst.Simulation.Reached.{
  Moves, Reached, stays, handles, proposes, proposes_next, snapshots, crashes, queues, enables,
  disables,
}
use persisthotstuff_rst.Simulation.Actions.{Action, play_all, play_all-Reached}

abbrev IsBelow : ℕ → BTreeSet → Type 0
IsBelow n s = All (λ j. j < n) s

contains_below : (n : ℕ) (s : BTreeSet) → IsBelow n s → contains n s ≡ false
unfolding contains
contains_below n [] h = refl
contains_below n (i ∷ s) h = ground (arith, contains_below n s)

insert_key-IsBelow : (n : ℕ) (s : BTreeSet) → IsBelow n s → IsBelow (n + 1) (insert_key n s)
unfolding insert_key
insert_key-IsBelow n [] h = (omega arith, tt)
insert_key-IsBelow n (i ∷ s) h = ground (arith, insert_key-IsBelow n s)

insert_ids_lem :
    (k id : ℕ) (s : BTreeSet)
    → IsAscending s
    → IsBelow id s
    → IsAscending (insert_ids k id s) × (length (insert_ids k id s) ≡ length s + k)
unfolding insert_ids
insert_ids_lem zero id s a b = (a, omega arith)
insert_ids_lem (suc k) id s a b =
    let r =
      insert_ids_lem k (id + 1) (insert_key id s) (insert_key-IsAscending id s a)
        (insert_key-IsBelow id s b) in
    (r.0, ground (arith, length-insert_key id s a, contains_below id s b))

module _ (env : Env) where
  pub ensured-SameLog :
      (r : Replica env)
      → r.active_validators ≡ insert_ids r.config.n 0 []
      → SameLog env r (ensure_default_validators env r)
  unfolding ensure_default_validators
  ensured-SameLog r h = ground (arith, h)

  -- A replica that starts anew is consistent if n and f of its configuration are.
  fresh_replica-IsConsistent :
      (c : Config) (keystore : KeyStore env.crypto) (now : ℕ)
      → c.f ≡ fault_threshold c.n
      → IsConsistent env (fresh_replica env c keystore now)
  unfolding fresh_replica ensure_default_validators
  fresh_replica-IsConsistent c keystore now h =
      let ids = insert_ids_lem c.n 0 [] tt tt in
      record {
        log_valid = record { distinct = ground arith; last = ground arith };
        config_synced = record {
          ascending = ground (arith, ids.0);
          n_is_active = ground (arith, ids.1);
          f_is_threshold = ground (arith, ids.1, h);
        };
      }

  same : (s t : Replica env) → SameLog env s t → IsConsistent env s → IsConsistent env t
  same s t = SameLog-IsConsistent env s t

  with_hash-SameLog :
      (s : Replica env) (view : ℕ) (hash : Hash) (now : ℕ)
      → SameLog env s (propose_with_hash env s view hash now).0
  unfolding propose_with_hash insert_own
  with_hash-SameLog s view hash now = ground arith

  next_with_hash-SameLog :
      (s : Replica env) (view : ℕ) (hash : Hash) (now : ℕ)
      → SameLog env s (propose_next_with_hash env s view hash now).0
  unfolding propose_next_with_hash insert_own
  next_with_hash-SameLog s view hash now = ground (arith, with_hash-SameLog s view hash now)

  pub take_snapshot-SameLog :
      (s : Replica env) (dir : SnapDir) (now : ℕ)
      → SameLog env s (take_snapshot env s dir false now).0
  unfolding take_snapshot
  take_snapshot-SameLog s dir now = ground arith

  Moves-IsConsistent : (r s : Replica env) → Moves env r s → IsConsistent env r → IsConsistent env s
  unfolding enqueue_command enable_dummy_proposals disable_dummy_proposals
  Moves-IsConsistent r s stays c = c
  Moves-IsConsistent r t (handles s e m) c = step-IsConsistent env s e (Moves-IsConsistent r s m c)
  Moves-IsConsistent r t (proposes s view hash now m) c =
      same s t (with_hash-SameLog s view hash now) (Moves-IsConsistent r s m c)
  Moves-IsConsistent r t (proposes_next s view hash now m) c =
      same s t (next_with_hash-SameLog s view hash now) (Moves-IsConsistent r s m c)
  Moves-IsConsistent r t (snapshots s dir now m) c =
      same s t (take_snapshot-SameLog s dir now) (Moves-IsConsistent r s m c)
  Moves-IsConsistent r t (crashes s keystore now m) c =
      let d = (Moves-IsConsistent r s m c).config_synced in
      fresh_replica-IsConsistent s.config keystore now
        (ground (arith, d.n_is_active, d.f_is_threshold))
  Moves-IsConsistent r t (queues s command m) c =
      same s t (ground arith) (Moves-IsConsistent r s m c)
  Moves-IsConsistent r t (enables s ms m) c = same s t (ground arith) (Moves-IsConsistent r s m c)
  Moves-IsConsistent r t (disables s m) c = same s t (ground arith) (Moves-IsConsistent r s m c)

  Reached-IsConsistent :
      (rs ss : List (Replica env))
      → Reached env rs ss
      → All (IsConsistent env) rs
      → All (IsConsistent env) ss
  Reached-IsConsistent [] [] m c = tt
  Reached-IsConsistent [] (s ∷ ss) m c = absurd m
  Reached-IsConsistent (r ∷ rs) [] m c = absurd m
  Reached-IsConsistent (r ∷ rs) (s ∷ ss) m c =
      (Moves-IsConsistent r s m.0 c.0, Reached-IsConsistent rs ss m.1 c.1)

  -- If every replica of the cluster is consistent at first, every one is after any sequence of
  -- rounds, crashes and changes of the cluster: no committed log has a hash twice,
  -- `committed_up_to` names its last block, and n and f are those of the active set.
  pub play_all-IsConsistent :
      (s : Simulation env) (as' : List Action)
      → All (IsConsistent env) s.replicas
      → All (IsConsistent env) (play_all env s as').replicas
  play_all-IsConsistent s as' c =
      Reached-IsConsistent s.replicas (play_all env s as').replicas (play_all-Reached env s as') c
