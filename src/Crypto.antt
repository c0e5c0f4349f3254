-- ===== src/Crypto.antt =====
-- src/crypto.rs: the key store, vote signatures and the check of a quorum certificate.
-- ed25519_dalek and sha2 are not part of the repository: they are the parameter `Ed25519`.
pub mod Quorum
pub mod Keys
use persisthotstuff_rst.Base.{
  ℕ, zero, suc, ◌+◌, ◌/◌, ◌%◌, ◌≡◌, Bool, true, false, Option, none, some, List, [], ◌∷◌, ◌++◌, map,
  any, length, leb, not, ◌==◌, if◌then◌else◌,
}
use persisthotstuff_rst.BTree.{BTreeMap}
use persisthotstuff_rst.BTree
use persisthotstuff_rst.Types.{ReplicaId, Hash, Bytes, Signature, QuorumCert}

-- `SigningKey`, `VerifyingKey`, `SigningKey::{verifying_key, sign}`, `VerifyingKey::{verify,
-- from_bytes, to_bytes}` and `Sha256`.
pub record Ed25519 : Type 1 where
  pub SigningKey : Type 0
  pub VerifyingKey : Type 0
  pub verifying_key : SigningKey → VerifyingKey
  pub sign_message : SigningKey → Bytes → Bytes
  pub verify_message : VerifyingKey → Bytes → Bytes → Bool
  pub from_bytes : Bytes → Option VerifyingKey
  pub to_bytes : VerifyingKey → Bytes
  pub sha256 : Bytes → Bytes

-- What the library documents: a signature verifies under the matching public key.
abbrev pub SignsCorrectly : Ed25519 → Type 0
SignsCorrectly lib =
    (sk : lib.SigningKey) (msg : Bytes)
    → lib.verify_message (lib.verifying_key sk) msg (lib.sign_message sk msg) ≡ true

pub record KeyStore (lib : Ed25519) : Type 0 where
  pub my_id : ReplicaId
  pub my_signing_key : lib.SigningKey
  pub public_keys : BTreeMap lib.VerifyingKey

-- `n.to_le_bytes()` for a number of `k` bytes.
unfoldable pub to_le_bytes : ℕ → ℕ → Bytes
to_le_bytes zero n = []
to_le_bytes (suc k) n = n % 256 ∷ to_le_bytes k (n / 256)

-- `HashSet::insert` on a set of which only the size is read.
unfoldable pub insert_signer : ReplicaId → List ReplicaId → List ReplicaId
insert_signer id ids = if any (λ i. id == i) ids then ids else id ∷ ids

-- Legacy `verify_qc` of crypto.rs: counts the distinct signers.
unfoldable pub distinct_signers : List Signature → List ReplicaId
distinct_signers [] = []
distinct_signers (s ∷ sigs) = insert_signer s.signer (distinct_signers sigs)

unfoldable pub legacy_verify_qc : QuorumCert → ℕ → Bool
unfolding distinct_signers
legacy_verify_qc qc quorum = leb quorum (length (distinct_signers qc.signatures))

-- The legacy `sign` with zeroed bytes.
abbrev pub legacy_sign : ReplicaId → Signature
legacy_sign id = record { signer = id; bytes = zeroes 64 }
  where
    zeroes : ℕ → Bytes
    zeroes zero = []
    zeroes (suc k) = 0 ∷ zeroes k

module _ (lib : Ed25519) where
  unfoldable pub vote_message : Hash → ℕ → ℕ → Bytes
  vote_message block_hash view epoch =
      lib.sha256 (to_le_bytes 8 block_hash ++ (to_le_bytes 8 view ++ to_le_bytes 8 epoch))

  unfoldable pub sign : KeyStore lib → Hash → ℕ → ℕ → Signature
  sign ks block_hash view epoch = record {
    signer = ks.my_id;
    bytes = lib.sign_message ks.my_signing_key (vote_message block_hash view epoch);
  }

  -- An unknown signer is rejected.
  unfoldable pub verify : KeyStore lib → Signature → Hash → ℕ → ℕ → Bool
  verify ks sig block_hash view epoch = elim (BTree.get sig.signer ks.public_keys) [
    | none ↦ false
    | some vk ↦ lib.verify_message vk (vote_message block_hash view epoch) sig.bytes
  ]

  -- The loop of `KeyStore::verify_qc`, from an accumulated set.
  unfoldable pub valid_signers :
      KeyStore lib → QuorumCert → List Signature → List ReplicaId → List ReplicaId
  valid_signers ks qc [] acc = acc
  valid_signers ks qc (s ∷ sigs) acc =
      valid_signers ks qc sigs
        (if verify ks s qc.block_hash qc.view qc.epoch then insert_signer s.signer acc else acc)

  unfoldable pub verify_qc : KeyStore lib → QuorumCert → ℕ → Bool
  unfolding valid_signers
  verify_qc ks qc quorum = leb quorum (length (valid_signers ks qc qc.signatures []))

  unfoldable pub add_public_key : KeyStore lib → ReplicaId → Bytes → KeyStore lib × Bool
  add_public_key ks id key =
      if not (length key == 32) then (ks, false) else elim (lib.from_bytes key) [
        | none ↦ (ks, false)
        | some vk ↦ (record ks { public_keys = BTree.insert id vk ks.public_keys }, true)
      ]

  unfoldable pub remove_public_key : KeyStore lib → ReplicaId → KeyStore lib
  remove_public_key ks id = record ks { public_keys = BTree.remove id ks.public_keys }

  unfoldable pub my_public_key_bytes : KeyStore lib → Bytes
  my_public_key_bytes ks = lib.to_bytes (lib.verifying_key ks.my_signing_key)

  unfoldable pub new_for_replica :
      ReplicaId → lib.SigningKey → BTreeMap lib.VerifyingKey → KeyStore lib
  new_for_replica my_id my_signing_key public_keys = record {
    my_id = my_id;
    my_signing_key = my_signing_key;
    public_keys = public_keys;
  }

  -- The loop of `generate_keys` over the ids that are left, of which `id` is the next. The random
  -- key that is drawn for an id is the argument `draw`.
  unfoldable pub draw_keys :
      (ReplicaId → lib.SigningKey)
      → (left id : ℕ) → BTreeMap (lib.SigningKey × lib.VerifyingKey)
      → BTreeMap (lib.SigningKey × lib.VerifyingKey)
  draw_keys draw zero id keys = keys
  draw_keys draw (suc left) id keys =
      draw_keys draw left (id + 1) (BTree.insert id (draw id, lib.verifying_key (draw id)) keys)

  unfoldable pub generate_keys :
      (ReplicaId → lib.SigningKey) → ℕ → BTreeMap (lib.SigningKey × lib.VerifyingKey)
  unfolding draw_keys
  generate_keys draw n = draw_keys draw n 0 []

  -- `distribute_keys`: every replica gets all public keys and its own private key. The source
  -- visits a `HashMap`, whose order is not specified: the list is the order of the visit.
  unfoldable pub public_key_map :
      List (ReplicaId × (lib.SigningKey × lib.VerifyingKey)) → BTreeMap lib.VerifyingKey
  public_key_map [] = []
  public_key_map ((id, (sk, vk)) ∷ all_keys) = BTree.insert id vk (public_key_map all_keys)

  unfoldable pub distribute_keys :
      List (ReplicaId × (lib.SigningKey × lib.VerifyingKey)) → List (KeyStore lib)
  unfolding public_key_map new_for_replica
  distribute_keys all_keys =
      map (λ k. new_for_replica k.0 (k.1).0 (public_key_map all_keys)) all_keys
