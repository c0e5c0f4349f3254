-- ===== src/Crypto/Quorum.antt =====
-- `KeyStore::verify_qc` against its independent description, and the overlap of two quorums.
use persisthotstuff_rst.Base.{
  ℕ, ◌+◌, ◌*◌, ◌≤◌, ◌≡◌, refl, inl, inr, ◌↔◌, some, Bool, true, false, List, [], ◌∷◌, arith, length,
  Bool-cases, ◌==◌, ◌||◌, ◌&&◌, member, Distinct, common, length-Within-le, common-length-le,
  member-common,
}
use persisthotstuff_rst.BTree
use persisthotstuff_rst.Types.{Signature, QuorumCert}
use persisthotstuff_rst.Crypto.{
  Ed25519, KeyStore, insert_signer, verify, valid_signers, verify_qc, sign, SignsCorrectly,
}

member-insert_signer :
    (i id : ℕ) (ids : List ℕ) → member i (insert_signer id ids) ≡ (i == id || member i ids)
unfolding insert_signer
member-insert_signer i id ids = elim (Bool-cases (member id ids)) [
  | inl t ↦ rw t (elim (Bool-cases (i == id)) [
    | inl e ↦ let p : i ≡ id = ground arith in rw p (ground arith)
    | inr e ↦ rw e
  ])
  | inr t ↦ rw t
]

insert_signer-Distinct : (id : ℕ) (ids : List ℕ) → Distinct ids → Distinct (insert_signer id ids)
unfolding insert_signer
insert_signer-Distinct id ids d = ground arith

module _ (lib : Ed25519) (ks : KeyStore lib) where
  -- The signers of a certificate whose signature over its own hash, view and epoch is valid.
  unfoldable pub signed_by : QuorumCert → List Signature → ℕ → Bool
  signed_by qc [] i = false
  signed_by qc (s ∷ sigs) i =
      (i == s.signer && verify lib ks s qc.block_hash qc.view qc.epoch) || signed_by qc sigs i

  member-valid_signers :
      (qc : QuorumCert) (sigs : List Signature) (acc : List ℕ) (i : ℕ)
      → member i (valid_signers lib ks qc sigs acc) ≡ (signed_by qc sigs i || member i acc)
  unfolding valid_signers signed_by
  member-valid_signers qc [] acc i = refl
  member-valid_signers qc (s ∷ sigs) acc i =
      elim (Bool-cases (verify lib ks s qc.block_hash qc.view qc.epoch)) [
        | inl t ↦ rw t (
            ground (
              arith,
              member-valid_signers qc sigs (insert_signer s.signer acc) i,
              member-insert_signer i s.signer acc,
            ))
        | inr t ↦ rw t (ground (arith, member-valid_signers qc sigs acc i))
      ]

  valid_signers-Distinct :
      (qc : QuorumCert) (sigs : List Signature) (acc : List ℕ)
      → Distinct acc
      → Distinct (valid_signers lib ks qc sigs acc)
  unfolding valid_signers
  valid_signers-Distinct qc [] acc d = d
  valid_signers-Distinct qc (s ∷ sigs) acc d =
      elim (Bool-cases (verify lib ks s qc.block_hash qc.view qc.epoch)) [
        | inl t ↦ rw t (valid_signers-Distinct qc sigs _ (insert_signer-Distinct s.signer acc d))
        | inr t ↦ rw t (valid_signers-Distinct qc sigs acc d)
      ]

  -- A group of different replicas, each with a valid signature in the certificate.
  abbrev pub Signers : QuorumCert → List ℕ → Type 0
  Signers qc ids =
      Distinct ids × ((i : ℕ) → member i ids ≡ true → signed_by qc qc.signatures i ≡ true)

  -- A certificate is accepted for a quorum exactly when some group of at least that many different
  -- replicas has valid signatures in it.
  pub verify_qc_iff :
      (qc : QuorumCert) (quorum : ℕ)
      → (verify_qc lib ks qc quorum ≡ true)
        ↔ ((ids : List ℕ) × Signers qc ids × (quorum ≤ length ids))
  unfolding verify_qc
  verify_qc_iff qc quorum = (
    λ h. (
      valid_signers lib ks qc qc.signatures [],
      (
        valid_signers-Distinct qc qc.signatures [] tt,
        λ i m. ground (arith, member-valid_signers qc qc.signatures [] i),
      ),
      ground arith,
    ),
    λ g. ground (
      arith,
      length-Within-le g.0 (valid_signers lib ks qc qc.signatures []) (g.1).0
          λ i m. ground (arith, member-valid_signers qc qc.signatures [] i, (g.1).1 i m),
    ),
  )

  -- Two certificates that pass the check for a quorum of 2f + 1, with signers among 3f + 1
  -- validators, have at least f + 1 replicas in common that signed both.
  pub quorums_overlap :
      (qc qc' : QuorumCert) (f : ℕ) (validators : List ℕ)
      → length validators ≡ 3 * f + 1
      → ((i : ℕ) → signed_by qc qc.signatures i ≡ true → member i validators ≡ true)
      → ((i : ℕ) → signed_by qc' qc'.signatures i ≡ true → member i validators ≡ true)
      → verify_qc lib ks qc (2 * f + 1) ≡ true
      → verify_qc lib ks qc' (2 * f + 1) ≡ true
      → (ids : List ℕ) × (f + 1 ≤ length ids)
        × ((i : ℕ)
            → member i ids ≡ true
            → (signed_by qc qc.signatures i ≡ true) × (signed_by qc' qc'.signatures i ≡ true))
  quorums_overlap qc qc' f validators size w w' h h' = (
    common a.0 b.0,
    omega (
      arith,
      common-length-le a.0 b.0 validators (a.1).0 (b.1).0 (λ i m. w i ((a.1).1 i m))
          (λ i m. w' i ((b.1).1 i m)),
      a.2,
      b.2,
    ),
    λ i m. let both = member-common i a.0 b.0 m in ((a.1).1 i both.0, (b.1).1 i both.1),
  )
    where
      a : (ids : List ℕ) × Signers qc ids × (2 * f + 1 ≤ length ids)
      a = (verify_qc_iff qc (2 * f + 1)).0 h

      b : (ids : List ℕ) × Signers qc' ids × (2 * f + 1 ≤ length ids)
      b = (verify_qc_iff qc' (2 * f + 1)).0 h'

  -- A signature made by the key store of a replica whose public key it holds is accepted.
  pub verify-sign :
      SignsCorrectly lib
      → (block_hash view epoch : ℕ)
      → BTree.get ks.my_id ks.public_keys ≡ some (lib.verifying_key ks.my_signing_key)
      → verify lib ks (sign lib ks block_hash view epoch) block_hash view epoch ≡ true
  unfolding verify sign
  verify-sign correct block_hash view epoch known = rw (known, verify) (correct _ _)
