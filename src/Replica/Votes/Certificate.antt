-- ===== src/Replica/Votes/Certificate.antt =====
-- The certificate that `handle_vote` returns, and when other replicas will accept it.
use persisthotstuff_rst.Base.{
  ℕ, suc, ◌+◌, ◌≤◌, ◌<◌, ◌≡◌, ◌↔◌, ◌⊎◌, refl, ap, ◌∙◌, inl, inr, true, false, none, some, List, [],
  ◌∷◌, ◌++◌, length, ltb, leb, sym, ◌==◌, if◌then◌else◌, arith, Bool-cases, length-append, member,
}
use persisthotstuff_rst.BTree.MapLaws.{get-insert}
use persisthotstuff_rst.Types.{ReplicaId, Signature, QuorumCert, Vote}
use persisthotstuff_rst.Crypto.{Ed25519, KeyStore, verify, valid_signers, verify_qc, insert_signer}
use persisthotstuff_rst.Replica.{Env, Replica, log, dynamic_quorum_size}
use persisthotstuff_rst.Replica.Votes.{
  pooled, has_signed, certificate, try_form_qc, is_rejected, handle_vote, is_newer,
  apply_high_qc_from_network,
}
use persisthotstuff_rst.Replica.Votes.Pool.{SignersDistinct, SignersDistinct-append, PoolIsValid}
use mathlib.Core.Path.{subst}

-- The signatures that are valid for a block, a view and an epoch.
unfoldable pub number_valid :
    (lib : Ed25519) → KeyStore lib → (hash view epoch : ℕ) → List Signature → ℕ
number_valid lib ks hash view epoch [] = 0
number_valid lib ks hash view epoch (s ∷ sigs) =
    let rest = number_valid lib ks hash view epoch sigs in
    if verify lib ks s hash view epoch then suc rest else rest

module _ (lib : Ed25519) (ks : KeyStore lib) (qc : QuorumCert) where
  -- None of the signers is in the list.
  abbrev AreNew : List Signature → List ReplicaId → Type 0
  AreNew [] ids = Unit {0}
  AreNew (s ∷ sigs) ids = (member s.signer ids ≡ false) × AreNew sigs ids

  AreNew-insert :
      (id : ReplicaId) (sigs : List Signature) (ids : List ReplicaId)
      → has_signed id sigs ≡ false
      → AreNew sigs ids
      → AreNew sigs (id ∷ ids)
  AreNew-insert id [] ids n a = tt
  AreNew-insert id (s ∷ sigs) ids n a = (ground arith, AreNew-insert id sigs ids (ground arith) a.1)

  length-valid_signers :
      (sigs : List Signature) (ids : List ReplicaId)
      → SignersDistinct sigs
      → AreNew sigs ids
      → length (valid_signers lib ks qc sigs ids)
        ≡ number_valid lib ks qc.block_hash qc.view qc.epoch sigs + length ids
  unfolding valid_signers number_valid insert_signer
  length-valid_signers [] ids d a = omega arith
  length-valid_signers (s ∷ sigs) ids d a =
      elim (Bool-cases (verify lib ks s qc.block_hash qc.view qc.epoch)) [
        | inl t ↦ rw t (
            rw (a.0) (
              omega (
                arith,
                length-valid_signers sigs (s.signer ∷ ids) d.1
                    (AreNew-insert s.signer sigs ids d.0 a.1),
              )))
        | inr n ↦ rw n (length-valid_signers sigs ids d.1 a.1)
      ]

  AreNew-nil : (sigs : List Signature) → AreNew sigs []
  AreNew-nil [] = tt
  AreNew-nil (s ∷ sigs) = (refl, AreNew-nil sigs)

  -- A certificate with different signers passes the check exactly when enough of its signatures
  -- are valid.
  pub verify_qc_count :
      (quorum : ℕ)
      → SignersDistinct qc.signatures
      → (verify_qc lib ks qc quorum ≡ true)
        ↔ (quorum ≤ number_valid lib ks qc.block_hash qc.view qc.epoch qc.signatures)
  unfolding verify_qc
  verify_qc_count quorum d =
      let n = length-valid_signers qc.signatures [] d (AreNew-nil qc.signatures) in
      (λ h. ground (arith, n), λ h. ground (arith, n))

-- `a` is at most `b` in the order of (epoch, view).
abbrev pub NotNewer : QuorumCert → QuorumCert → Type 0
NotNewer a b = (a.epoch < b.epoch) ⊎ ((a.epoch ≡ b.epoch) × (a.view ≤ b.view))

module _ (env : Env) where
  -- When a vote completes a certificate: it is accepted, its signer is new to the pool of the
  -- block, and with it the pool has a quorum.
  abbrev pub ReachesQuorum : Replica env → Vote → Type 0
  ReachesQuorum r vote =
      (is_rejected env r vote ≡ false)
      × (has_signed vote.signature.signer (pooled r.vote_pool vote.block_hash) ≡ false)
      × (dynamic_quorum_size env r ≤ length (pooled r.vote_pool vote.block_hash) + 1)

  -- The certificate then formed.
  abbrev pub formed : Replica env → Vote → QuorumCert
  formed r vote =
      certificate vote.block_hash vote.view vote.epoch
        (pooled r.vote_pool vote.block_hash ++ vote.signature ∷ [])

  -- A vote that completes a certificate returns it and makes it the high QC, whatever the high QC
  -- was before.
  pub handle_vote_completes :
      (r : Replica env) (vote : Vote) (now : ℕ)
      → ReachesQuorum r vote
      → ((handle_vote env r vote now).1 ≡ some (formed r vote))
        × ((handle_vote env r vote now).0.high_qc ≡ some (formed r vote))
  unfolding handle_vote try_form_qc log dynamic_quorum_size
  handle_vote_completes r vote now (a, n, q) =
      let h = vote.block_hash in
      let sigs = pooled r.vote_pool h in
      let l = length-append sigs (vote.signature ∷ []) in
      let g = get-insert h h (sigs ++ vote.signature ∷ []) r.vote_pool in
      (ground (arith, l, g), ground (arith, l, g))

  -- Any other vote returns nothing and leaves the high QC alone.
  pub handle_vote_incomplete :
      (r : Replica env) (vote : Vote) (now : ℕ)
      → ¬ ReachesQuorum r vote
      → ((handle_vote env r vote now).1 ≡ none)
        × ((handle_vote env r vote now).0.high_qc ≡ r.high_qc)
  unfolding handle_vote try_form_qc log dynamic_quorum_size
  handle_vote_incomplete r vote now c =
      let h = vote.block_hash in
      let sigs = pooled r.vote_pool h in
      let l = length-append sigs (vote.signature ∷ []) in
      let g = get-insert h h (sigs ++ vote.signature ∷ []) r.vote_pool in
      elim (Bool-cases (is_rejected env r vote)) [
        | inl t ↦ rw (t, handle_vote) (refl, refl)
        | inr f ↦ elim (Bool-cases (has_signed vote.signature.signer sigs)) [
          | inl t ↦ (ground arith, ground arith)
          | inr n ↦
              let small : ¬ (dynamic_quorum_size env r ≤ length sigs + 1) = λ q. c (f, n, q) in
              (ground (arith, l, g), ground (arith, l, g))
        ]
      ]

  -- A certificate comes from a vote that completes it.
  returned-ReachesQuorum :
      (r : Replica env) (vote : Vote) (now : ℕ) (qc : QuorumCert)
      → (handle_vote env r vote now).1 ≡ some qc
      → ReachesQuorum r vote
  returned-ReachesQuorum r vote now qc h =
      let sigs = pooled r.vote_pool vote.block_hash in
      let refused : ¬ ReachesQuorum r vote → ReachesQuorum r vote =
        λ n. absurd (cc (h, (handle_vote_incomplete r vote now n).0)) in
      elim (Bool-cases (is_rejected env r vote)) [
        | inl t ↦ refused (λ q. cc (t, q.0))
        | inr a ↦ elim (Bool-cases (has_signed vote.signature.signer sigs)) [
          | inl t ↦ refused (λ q. cc (t, q.1))
          | inr n ↦ elim (Bool-cases (leb (dynamic_quorum_size env r) (length sigs + 1))) [
            | inl t ↦ (a, n, ground arith)
            | inr t ↦ refused (λ q. absurd (ground (arith, q.2)))
          ]
        ]
      ]

  -- A certificate that `handle_vote` returns becomes the high QC. It is for the block and the view
  -- of the last vote and the epoch of the replica, with the signatures pooled for the block in any
  -- view and that of the last vote, which are at least a quorum. A replica with the key store `ks`
  -- and the quorum `quorum` accepts it exactly when that many of these signatures are valid, by its
  -- keys, for the view of the last vote.
  pub handle_vote-verify_qc_iff :
      (r : Replica env) (vote : Vote) (now : ℕ) (qc : QuorumCert) (ks : KeyStore env.crypto)
      (quorum : ℕ)
      → PoolIsValid env r
      → (handle_vote env r vote now).1 ≡ some qc
      → ((handle_vote env r vote now).0.high_qc ≡ some qc)
        × (qc.block_hash ≡ vote.block_hash)
        × (qc.view ≡ vote.view)
        × (qc.epoch ≡ r.config_epoch)
        × (qc.signatures ≡ pooled r.vote_pool vote.block_hash ++ vote.signature ∷ [])
        × (dynamic_quorum_size env r ≤ length qc.signatures)
        × ((verify_qc env.crypto ks qc quorum ≡ true) ↔ (
            quorum
            ≤ number_valid env.crypto ks vote.block_hash vote.view r.config_epoch
                (pooled r.vote_pool vote.block_hash ++ vote.signature ∷ [])))
  unfolding is_rejected
  handle_vote-verify_qc_iff r vote now qc ks quorum v h =
      let c = returned-ReachesQuorum r vote now qc h in
      let d = handle_vote_completes r vote now c in
      let e : formed r vote ≡ qc = ground (arith, h, d.0) in
      let epoch : vote.epoch ≡ r.config_epoch = ground (arith, c.0) in
      let sigs = pooled r.vote_pool vote.block_hash ++ vote.signature ∷ [] in
      let size = length-append (pooled r.vote_pool vote.block_hash) (vote.signature ∷ []) in
      let count = verify_qc_count env.crypto ks (formed r vote) quorum (
        SignersDistinct-append (pooled r.vote_pool vote.block_hash) vote.signature
          (v vote.block_hash).0 c.1) in
      (
        d.1 ∙ ap some e,
        sym (ap (λ (x : QuorumCert). x.block_hash) e),
        sym (ap (λ (x : QuorumCert). x.view) e),
        sym (ap (λ (x : QuorumCert). x.epoch) e) ∙ epoch,
        sym (ap (λ (x : QuorumCert). x.signatures) e),
        subst (λ (x : QuorumCert). dynamic_quorum_size env r ≤ length x.signatures) e
            (omega (arith, size, c.2)),
        subst
            (λ x.
              (verify_qc env.crypto ks x quorum ≡ true)
              ↔ (quorum ≤ number_valid env.crypto ks vote.block_hash vote.view r.config_epoch sigs))
            e
            (subst
              (λ k.
                (verify_qc env.crypto ks (formed r vote) quorum ≡ true)
                ↔ (quorum ≤ number_valid env.crypto ks vote.block_hash vote.view k sigs))
              epoch count),
      )

  -- A certificate from the network never makes the high QC older.
  pub apply_high_qc_from_network_monotone :
      (r : Replica env) (qc current : QuorumCert) (now : ℕ)
      → r.high_qc ≡ some current
      → (next : QuorumCert) × ((apply_high_qc_from_network env r qc now).0.high_qc ≡ some next)
        × NotNewer current next
        × NotNewer qc next
  unfolding apply_high_qc_from_network log
  apply_high_qc_from_network_monotone r qc current now h = elim (Bool-cases (is_newer qc current)) [
    | inl t ↦ (qc, ground arith, newer t, inr (refl, omega arith))
    | inr f ↦ (current, ground arith, inr (refl, omega arith), older f)
  ]
    where
      newer : is_newer qc current ≡ true → NotNewer current qc
      newer t = elim (Bool-cases (ltb current.epoch qc.epoch)) [
        | inl l ↦ inl (ground arith)
        | inr l ↦ inr (ground arith, ground arith)
      ]

      older : is_newer qc current ≡ false → NotNewer qc current
      older f = elim (Bool-cases (qc.epoch == current.epoch)) [
        | inl l ↦ inr (ground arith, ground arith)
        | inr l ↦ inl (ground arith)
      ]

  -- A validator whose id is not below the number of validators cannot vote, although it is active
  -- and counted in the quorum: each of its votes leaves the replica as it was.
  pub handle_vote_high_id :
      (r : Replica env) (vote : Vote) (now : ℕ)
      → r.config.n ≡ length r.active_validators
      → length r.active_validators ≤ vote.signature.signer
      → handle_vote env r vote now ≡ (r, none)
  unfolding handle_vote
  handle_vote_high_id r vote now s h = rw (rejected, handle_vote) refl
    where
      rejected : is_rejected env r vote ≡ true
      rejected = ground arith
