-- ===== src/Replica/Votes.antt =====
-- src/replica.rs: votes, the vote pool and the quorum certificate that a full pool forms.
pub mod Pool
pub mod Certificate
pub mod Gathering
use persisthotstuff_rst.Base.{
  ℕ, ◌+◌, Bool, true, false, Option, none, some, List, [], ◌∷◌, ◌++◌, length, any, ltb, leb, not,
  ◌==◌, ◌&&◌, ◌||◌, if◌then◌else◌,
}
use persisthotstuff_rst.BTree
use persisthotstuff_rst.Types.{Hash, ReplicaId, Signature, Block, QuorumCert, Vote}
use persisthotstuff_rst.Crypto.{verify, sign}
use persisthotstuff_rst.Wal.Entry.{qc_formed, high_qc_updated}
use persisthotstuff_rst.Replica.{Env, Replica, dynamic_quorum_size, log}

-- `vote_pool.entry(hash).or_insert_with(Vec::new)`, read.
unfoldable pub pooled : BTree.BTreeMap (List Signature) → Hash → List Signature
pooled pool hash = elim (BTree.get hash pool) [ none ↦ [] | some sigs ↦ sigs ]

-- `entry.iter().any(|s| s.signer == id)`
abbrev pub has_signed : ReplicaId → List Signature → Bool
has_signed id sigs = any (λ (s : Signature). s.signer == id) sigs

-- `(qc.epoch, qc.view) > (current.epoch, current.view)`
unfoldable pub is_newer : QuorumCert → QuorumCert → Bool
is_newer qc current =
    ltb current.epoch qc.epoch || (qc.epoch == current.epoch && ltb current.view qc.view)

-- `match &self.high_qc` of `apply_high_qc_from_network`.
unfoldable pub should_update : Option QuorumCert → QuorumCert → Bool
unfolding is_newer
should_update none qc = true
should_update (some current) qc = is_newer qc current

abbrev pub certificate : Hash → ℕ → ℕ → List Signature → QuorumCert
certificate block_hash view epoch sigs = record {
  block_hash = block_hash;
  view = view;
  epoch = epoch;
  signatures = sigs;
}

module _ (env : Env) where
  unfoldable pub try_form_qc : Replica env → Hash → ℕ → ℕ → ℕ → Replica env × Option QuorumCert
  unfolding dynamic_quorum_size
  try_form_qc r block_hash view epoch now = elim (BTree.get block_hash r.vote_pool) [
    | none ↦ (r, none)
    | some sigs ↦
        if leb (dynamic_quorum_size env r) (length sigs)
        then (let qc = certificate block_hash view epoch sigs in
            let r1 = record r { high_qc = some qc } in
            let r2 = log env r1 (qc_formed block_hash view epoch (length sigs) now) in
            (log env r2 (high_qc_updated block_hash view epoch now), some qc))
        else (r, none)
  ]

  -- The checks of `handle_vote` before the pool, in order; `true` is an early `return None`.
  unfoldable pub is_rejected : Replica env → Vote → Bool
  is_rejected r vote =
      if not (vote.epoch == r.config_epoch)
      then true
      else if not (BTree.contains vote.signature.signer r.active_validators)
      then true
      else if not (verify env.crypto r.keystore vote.signature vote.block_hash vote.view vote.epoch)
      then true
      else if leb r.config.n vote.signature.signer
      then true
      else if not (BTree.contains_key vote.block_hash r.block_tree)
      then true
      else elim (BTree.get vote.block_hash r.block_tree) [
        | none ↦ false
        | some b ↦ not (b.epoch == vote.epoch)
      ]

  unfoldable pub handle_vote : Replica env → Vote → ℕ → Replica env × Option QuorumCert
  unfolding is_rejected pooled
  handle_vote r vote now =
      if is_rejected r vote
      then (r, none)
      else (let sigs = pooled r.vote_pool vote.block_hash in
          if has_signed vote.signature.signer sigs
          then (record r { vote_pool = BTree.insert vote.block_hash sigs r.vote_pool }, none)
          else try_form_qc
              (record r {
                vote_pool = BTree.insert vote.block_hash (sigs ++ vote.signature ∷ []) r.vote_pool;
              })
              vote.block_hash vote.view vote.epoch now)

  unfoldable pub receive_vote_from_replica :
      Replica env → ReplicaId → Hash → ℕ → ℕ → Replica env × Option QuorumCert
  unfolding handle_vote
  receive_vote_from_replica r replica_id block_hash view now =
      if not (replica_id == r.config.id)
      then (r, none)
      else handle_vote r
          (record {
            block_hash = block_hash;
            view = view;
            epoch = r.config_epoch;
            signature = sign env.crypto r.keystore block_hash view r.config_epoch;
          })
          now

  unfoldable pub apply_high_qc_from_network : Replica env → QuorumCert → ℕ → Replica env × Bool
  unfolding should_update
  apply_high_qc_from_network r qc now =
      if should_update r.high_qc qc
      then (
        log env (record r { high_qc = some qc })
            (high_qc_updated qc.block_hash qc.view qc.epoch now),
        true,
      )
      else (r, false)
