-- ===== src/Examples/Voting.antt =====
-- The theorems on keys, leaders, votes and certificates, applied.
use persisthotstuff_rst.Base.{
  ℕ, ◌+◌, ◌%◌, ◌≤◌, ◌<◌, ◌≡◌, ◌↔◌, refl, true, some, List, [], ◌∷◌, length, All, In, list_eq_refl,
  member, common, ◌++◌, ◌==◌, Bool-cases, ==_iff, sym, inl, inr, arith,
}
use mathlib.Core.Path.{subst}
use persisthotstuff_rst.BTree
use persisthotstuff_rst.Types.{Signature, QuorumCert, Vote}
use persisthotstuff_rst.Crypto.{
  sign, generate_keys, distribute_keys, verify, verify_qc, vote_message, to_le_bytes, insert_signer,
}
use persisthotstuff_rst.Crypto.Keys.{distribute_keys-verify}
use persisthotstuff_rst.Crypto.Quorum.{Signers, signed_by, verify_qc_iff, quorums_overlap}
use persisthotstuff_rst.Replica.{
  Replica, dynamic_n, dynamic_f, dynamic_quorum_size, dynamic_leader_for_view,
}
use persisthotstuff_rst.Replica.Leader.{leader_is_active, leader_rotates}
use persisthotstuff_rst.Replica.Overlap.{IsQuorum, quorums_share_iff}
use persisthotstuff_rst.Replica.Votes.{handle_vote, certificate, pooled, is_rejected}
use persisthotstuff_rst.Replica.Votes.Pool.{
  PoolIsValid, Counts, SignersDistinct, handle_vote-PoolIsValid,
}
use persisthotstuff_rst.Replica.Votes.Certificate.{
  ReachesQuorum, number_valid, handle_vote_completes, handle_vote-verify_qc_iff,
}
use persisthotstuff_rst.Replica.Votes.Gathering.{IsBallot, collect, quorum_makes_certificate}
use persisthotstuff_rst.Examples.{toy_env, toy_crypto, replica4, keys4}

-- The vote of a replica for the genesis block.
abbrev signature_of : ℕ → ℕ → Signature
signature_of id view = record { signer = id; bytes = (10 + id) ∷ vote_message toy_crypto 0 view 0 }

abbrev vote_of : ℕ → ℕ → Vote
vote_of id view = record {
  block_hash = 0;
  view = view;
  epoch = 0;
  signature = signature_of id view;
}

abbrev two_votes : Replica toy_env
two_votes = record replica4 { vote_pool = (0, signature_of 1 0 ∷ signature_of 2 0 ∷ []) ∷ [] }

abbrev qc3 : QuorumCert
qc3 = certificate 0 0 0 (signature_of 1 0 ∷ signature_of 2 0 ∷ signature_of 3 0 ∷ [])

abbrev qc3' : QuorumCert
qc3' = certificate 0 1 0 (signature_of 0 1 ∷ signature_of 1 1 ∷ signature_of 3 1 ∷ [])

verify_qc_iff_example :
    (verify_qc toy_crypto keys4 qc3 3 ≡ true)
    ↔ ((ids : List ℕ) × Signers toy_crypto keys4 qc3 ids × (3 ≤ length ids))
verify_qc_iff_example = verify_qc_iff toy_crypto keys4 qc3 3

quorums_overlap_example :
    (ids : List ℕ) × (2 ≤ length ids)
    × ((i : ℕ)
        → member i ids ≡ true
        → (signed_by toy_crypto keys4 qc3 qc3.signatures i ≡ true)
          × (signed_by toy_crypto keys4 qc3' qc3'.signatures i ≡ true))
unfolding verify_qc verify vote_message to_le_bytes BTree.get insert_signer signed_by
quorums_overlap_example =
    quorums_overlap toy_crypto keys4 qc3 qc3' 1 (0 ∷ 1 ∷ 2 ∷ 3 ∷ []) refl (λ i h. ground arith)
      (λ i h. ground arith) refl refl

leader_is_active_example :
    BTree.contains (dynamic_leader_for_view toy_env replica4 6) replica4.active_validators ≡ true
leader_is_active_example = leader_is_active toy_env replica4 6 (ground arith)

leader_rotates_example :
    (view : ℕ) × (9 ≤ view) × (view < 13) × (dynamic_leader_for_view toy_env replica4 view ≡ 2)
unfolding BTree.contains
leader_rotates_example = leader_rotates toy_env replica4 2 9 refl

quorums_share_iff_example :
    ((xs ys : List ℕ)
      → IsQuorum toy_env replica4 xs
      → IsQuorum toy_env replica4 ys
      → dynamic_f toy_env replica4 < length (common xs ys))
    ↔ (dynamic_n toy_env replica4 % 3 ≡ 1)
quorums_share_iff_example =
    quorums_share_iff toy_env replica4 (ground arith) (refl, (refl, (refl, (refl, tt))))

two_signers_count :
    (h : ℕ) → h ≡ 0 → All (Counts toy_env two_votes h) (signature_of 1 0 ∷ signature_of 2 0 ∷ [])
unfolding verify vote_message to_le_bytes BTree.get BTree.contains BTree.contains_key
two_signers_count h z =
    subst (λ k. All (Counts toy_env two_votes k) (signature_of 1 0 ∷ signature_of 2 0 ∷ [])) (sym z)
      (
        record {
          is_active = refl;
          in_range = omega arith;
          block_known = refl;
          for_view = 0;
          is_signed = refl;
        },
        (
          record {
            is_active = refl;
            in_range = omega arith;
            block_known = refl;
            for_view = 0;
            is_signed = refl;
          },
          tt,
        ),
      )

two_votes-PoolIsValid : PoolIsValid toy_env two_votes
unfolding pooled BTree.get
two_votes-PoolIsValid h = elim (Bool-cases (h == 0)) [
  | inl e ↦
      let q : pooled two_votes.vote_pool h ≡ signature_of 1 0 ∷ signature_of 2 0 ∷ [] =
        ground (arith, e) in
      subst Fine (sym q) ((refl, (refl, tt)), two_signers_count h ((==_iff h 0).0 e))
  | inr n ↦
      let q : pooled two_votes.vote_pool h ≡ [] = ground (arith, n) in subst Fine (sym q) (tt, tt)
]
  where
    Fine : List Signature → Type 0
    Fine sigs = SignersDistinct sigs × All (Counts toy_env two_votes h) sigs

handle_vote-PoolIsValid_example :
    PoolIsValid toy_env (handle_vote toy_env two_votes (vote_of 3 0) 50).0
handle_vote-PoolIsValid_example =
    handle_vote-PoolIsValid toy_env two_votes (vote_of 3 0) 50 two_votes-PoolIsValid

third_vote-ReachesQuorum : ReachesQuorum toy_env two_votes (vote_of 3 0)
unfolding is_rejected pooled verify vote_message to_le_bytes BTree.get BTree.contains
    BTree.contains_key dynamic_quorum_size
third_vote-ReachesQuorum = (refl, refl, omega arith)

third_vote_returns : (handle_vote toy_env two_votes (vote_of 3 0) 50).1 ≡ some qc3
unfolding pooled BTree.get
third_vote_returns =
    (handle_vote_completes toy_env two_votes (vote_of 3 0) 50 third_vote-ReachesQuorum).0

handle_vote-verify_qc_iff_example :
    ((handle_vote toy_env two_votes (vote_of 3 0) 50).0.high_qc ≡ some qc3)
    × (qc3.block_hash ≡ 0)
    × (qc3.view ≡ 0)
    × (qc3.epoch ≡ 0)
    × (qc3.signatures ≡ pooled two_votes.vote_pool 0 ++ signature_of 3 0 ∷ [])
    × (dynamic_quorum_size toy_env two_votes ≤ 3)
    × ((verify_qc toy_crypto keys4 qc3 3 ≡ true) ↔ (
        3
        ≤ number_valid toy_crypto keys4 0 0 0
            (pooled two_votes.vote_pool 0 ++ signature_of 3 0 ∷ [])))
handle_vote-verify_qc_iff_example =
    handle_vote-verify_qc_iff toy_env two_votes (vote_of 3 0) 50 qc3 keys4 3 two_votes-PoolIsValid
      third_vote_returns

vote_of-IsBallot :
    (id : ℕ)
    → BTree.contains id replica4.active_validators ≡ true
    → id < 4
    → verify toy_crypto keys4 (signature_of id 0) 0 0 0 ≡ true
    → IsBallot toy_env replica4 0 0 (vote_of id 0)
vote_of-IsBallot id active range signed = record {
  for_block = refl;
  in_view = refl;
  in_epoch = refl;
  is_active = active;
  in_range = range;
  is_signed = signed;
}

quorum_makes_certificate_example :
    (qc : QuorumCert) × ((handle_vote toy_env
        (collect toy_env replica4 (vote_of 3 0 ∷ vote_of 1 0 ∷ []) 50)
        (vote_of 2 0)
        50).1
      ≡ some qc)
    × ((handle_vote toy_env
          (collect toy_env replica4 (vote_of 3 0 ∷ vote_of 1 0 ∷ []) 50)
          (vote_of 2 0)
          50).0.high_qc
        ≡ some qc)
    × (qc.block_hash ≡ 0)
    × (qc.view ≡ 0)
    × (qc.epoch ≡ 0)
    × (verify_qc toy_crypto keys4 qc (dynamic_quorum_size toy_env replica4) ≡ true)
unfolding pooled BTree.get BTree.contains dynamic_quorum_size verify vote_message to_le_bytes
quorum_makes_certificate_example =
    quorum_makes_certificate toy_env replica4 0 0 (vote_of 3 0 ∷ vote_of 1 0 ∷ []) (vote_of 2 0) 50
      (_, refl, refl) refl
      (vote_of-IsBallot 3 refl (omega arith) refl, (vote_of-IsBallot 1 refl (omega arith) refl, tt))
      (vote_of-IsBallot 2 refl (omega arith) refl) (refl, (refl, (refl, tt))) refl

-- Four validators, of which one has the id 7.
abbrev gap : Replica toy_env
gap = record replica4 { active_validators = 0 ∷ 1 ∷ 2 ∷ 7 ∷ [] }

-- The keys of two replicas, visited in descending order of the ids.
abbrev two_keys : List (ℕ × (ℕ × ℕ))
two_keys = (1, (11, 11)) ∷ (0, (10, 10)) ∷ []

abbrev drawn : ℕ → ℕ
drawn id = 10 + id

two_keys_generated : (k : ℕ × (ℕ × ℕ)) → In k two_keys → In k (generate_keys toy_crypto drawn 2)
unfolding generate_keys BTree.insert
two_keys_generated k (inl e) = inr (inl e)
two_keys_generated k (inr (inl e)) = inl e
two_keys_generated k (inr (inr m)) = absurd m

distribute_keys-verify_example :
    verify toy_crypto
      (record { my_id = 0; my_signing_key = 10; public_keys = (0, 10) ∷ (1, 11) ∷ [] })
      (sign toy_crypto
        (record { my_id = 1; my_signing_key = 11; public_keys = (0, 10) ∷ (1, 11) ∷ [] })
        5
        4
        0)
      5
      4
      0
    ≡ true
unfolding distribute_keys BTree.insert
distribute_keys-verify_example =
    distribute_keys-verify toy_crypto drawn (λ sk msg. list_eq_refl (sk ∷ msg)) 2 two_keys
      two_keys_generated
      (record { my_id = 1; my_signing_key = 11; public_keys = (0, 10) ∷ (1, 11) ∷ [] })
      (record { my_id = 0; my_signing_key = 10; public_keys = (0, 10) ∷ (1, 11) ∷ [] }) (inl refl)
      (inr (inl refl)) 5 4 0
