-- ===== src/Examples.antt =====
-- A small instance of the libraries, and replicas of a cluster of four, on which the theorems are
-- applied. The child modules hold the applications.
pub mod Coding
pub mod Total
pub mod TotalSnap
pub mod Lifetimes
pub mod Founding
pub mod Dying
pub mod Storage
pub mod Voting
pub mod Chains
pub mod Restarting
pub mod Cluster
pub mod Commands
pub mod Executing
use persisthotstuff_rst.Base.{
  ℕ, ◌+◌, ◌%◌, ◌^◌, ◌<◌, ◌≡◌, refl, Bool, true, false, Option, none, some, List, [], ◌∷◌, ◌++◌,
  length, list_eq, arith,
}
use persisthotstuff_rst.BTree.{BTreeMap}
use persisthotstuff_rst.Types.{Bytes, Signature, QuorumCert, Block, Config, no_op}
use persisthotstuff_rst.Crypto.{Ed25519, KeyStore}
use persisthotstuff_rst.Wal.{Wal, WalLib, WalLaws, header, frame}
use persisthotstuff_rst.Wal.Entry.{
  LogEntry, block_inserted, vote_received, qc_formed, high_qc_updated, block_committed,
  view_changed, snapshot_taken, ViewChangeReason, timeout, commit,
}
use persisthotstuff_rst.Snapshot.{Snapshot, SnapLib, ReadsBack}
use persisthotstuff_rst.App.{App, ok, err, internal}
use persisthotstuff_rst.Replica.{Env, Replica}

-- A signature is the key and the message.
abbrev pub toy_crypto : Ed25519
toy_crypto = record {
  SigningKey = ℕ;
  VerifyingKey = ℕ;
  verifying_key = λ sk. sk;
  sign_message = λ sk msg. sk ∷ msg;
  verify_message = λ vk msg sig. list_eq sig (vk ∷ msg);
  from_bytes = λ bs. elim bs [ [] ↦ none | b ∷ rest ↦ some b ];
  to_bytes = λ vk. vk ∷ [];
  sha256 = λ bs. bs;
}

-- Three kinds of entries, told apart by their lengths.
abbrev pub toy_serialize : LogEntry → Option Bytes
toy_serialize (view_changed old_view new_view timeout t) = some (old_view ∷ new_view ∷ t ∷ [])
toy_serialize (high_qc_updated block_hash view epoch t) = some (block_hash ∷ view ∷ epoch ∷ t ∷ [])
toy_serialize (block_committed hash none view epoch proposer no_op index t) =
    some (hash ∷ view ∷ epoch ∷ proposer ∷ index ∷ t ∷ [])
toy_serialize e = none

abbrev pub toy_deserialize : Bytes → Option LogEntry
toy_deserialize (o ∷ n ∷ t ∷ []) = some (view_changed o n timeout t)
toy_deserialize (h ∷ v ∷ e ∷ t ∷ []) = some (high_qc_updated h v e t)
toy_deserialize (h ∷ v ∷ e ∷ p ∷ i ∷ t ∷ []) = some (block_committed h none v e p no_op i t)
toy_deserialize bs = none

abbrev pub byte_sum : Bytes → ℕ
byte_sum [] = 0
byte_sum (b ∷ bs) = b + byte_sum bs

abbrev pub toy_wal : WalLib
toy_wal = record {
  serialize = toy_serialize;
  deserialize = toy_deserialize;
  crc32 = λ bs. byte_sum bs % 2 ^ 32;
}

toy_reads_back : (e : LogEntry) (p : Bytes) → toy_serialize e ≡ some p → toy_deserialize p ≡ some e
toy_reads_back e p h = ground arith

toy_payload_size : (e : LogEntry) (p : Bytes) → toy_serialize e ≡ some p → length p < 2 ^ 32
toy_payload_size e p h = ground arith

pub toy_wal-WalLaws : WalLaws toy_wal
toy_wal-WalLaws = record {
  reads_back = toy_reads_back;
  crc32_bits = λ p. omega arith;
  payload_size = toy_payload_size;
}

-- Only a snapshot without blocks is written.
abbrev pub pack_fields : Option ℕ → Option Bytes → Bytes → Option Bytes
pack_fields none none bs = some bs
pack_fields up_to app_state bs = none

abbrev pub toy_pack : Snapshot → Option Bytes
toy_pack s = elim s.high_qc [
  | some qc ↦ none
  | none ↦ elim s.committed_log [
    | b ∷ bs ↦ none
    | [] ↦ elim s.block_tree [
      | b ∷ bs ↦ none
      | [] ↦ pack_fields s.committed_up_to s.app_state (
          s.snapshot_id ∷ s.timestamp ∷ s.replica_id ∷ s.current_view ∷ s.config_epoch ∷ s.next_hash
          ∷ s.active_validators)
    ]
  ]
]

abbrev pub toy_unpack : Bytes → Option Snapshot
toy_unpack (id ∷ t ∷ r ∷ v ∷ e ∷ h ∷ ids) = some (record {
  snapshot_id = id;
  timestamp = t;
  replica_id = r;
  current_view = v;
  config_epoch = e;
  active_validators = ids;
  committed_log = [];
  committed_up_to = none;
  high_qc = none;
  block_tree = [];
  next_hash = h;
  app_state = none;
})
toy_unpack bs = none

abbrev pub toy_snap : SnapLib
toy_snap = record { serialize = toy_pack; deserialize = toy_unpack; sha256 = λ bs. bs }

pub toy_snap-ReadsBack : ReadsBack toy_snap
toy_snap-ReadsBack s p h = ground arith

-- An application that counts commands.
abbrev pub toy_app : App
toy_app = record {
  State = ℕ;
  apply = λ s c. (s + 1, ok []);
  snapshot = λ s. ok (s ∷ []);
  restore = λ s bs. elim bs [ [] ↦ (s, err (internal [])) | b ∷ rest ↦ (b, ok tt) ];
}

abbrev pub toy_env : Env
toy_env = record { crypto = toy_crypto; wal_lib = toy_wal; snap_lib = toy_snap; app = toy_app }

abbrev pub config4 : Config
config4 = record { n = 4; f = 1; id = 0; timeout_ms = 1000 }

abbrev pub keys4 : KeyStore toy_crypto
keys4 = record {
  my_id = 0;
  my_signing_key = 10;
  public_keys = (0, 10) ∷ (1, 11) ∷ (2, 12) ∷ (3, 13) ∷ [];
}

abbrev pub plain_block : ℕ → Option ℕ → ℕ → Option QuorumCert → Block
plain_block hash parent view qc = record {
  hash = hash;
  parent = parent;
  view = view;
  epoch = 0;
  proposer = 0;
  qc = qc;
  command = no_op;
}

-- The file of replica 0 with two entries.
abbrev pub file4 : Wal
file4 = record {
  content =
      header 0 7 ++ (frame toy_wal (5 ∷ 4 ∷ 0 ∷ 8 ∷ []) ++ (frame toy_wal (3 ∷ 4 ∷ 9 ∷ []) ++ []));
  cursor = length (
      header 0 7 ++ (frame toy_wal (5 ∷ 4 ∷ 0 ∷ 8 ∷ []) ++ (frame toy_wal (3 ∷ 4 ∷ 9 ∷ []) ++ [])));
  replica_id = 0;
  entry_count = 2;
}

abbrev pub entries4 : List LogEntry
entries4 = high_qc_updated 5 4 0 8 ∷ view_changed 3 4 timeout 9 ∷ []

-- Replica 0 as it starts, with the genesis block.
abbrev pub replica4 : Replica toy_env
replica4 = record {
  config = config4;
  current_view = 0;
  block_tree = (0, plain_block 0 none 0 none) ∷ [];
  high_qc = none;
  vote_pool = [];
  next_hash = 1;
  committed_log = [];
  committed_up_to = none;
  timeout_ms = 1000;
  view_start_time = 0;
  active_validators = 0 ∷ 1 ∷ 2 ∷ 3 ∷ [];
  config_epoch = 0;
  keystore = keys4;
  wal = some file4;
  snapshot_counter = 0;
  app = some 0;
  pending_app_state = none;
  client_queue = [];
  dummy_proposal_enabled = false;
  last_proposed_time = 0;
  dummy_timeout_ms = 0;
}
