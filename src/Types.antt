-- ===== src/Types.antt =====
-- src/types.rs and src/config.rs: blocks, votes, quorum certificates, and the static configuration.
-- A `u64`, a `usize` and a `u128` are natural numbers; where the source wraps or saturates, the
-- operation says so. A `Vec<u8>` and a `[u8; N]` are lists of numbers.
use persisthotstuff_rst.Base.{ℕ, ◌+◌, ◌*◌, ◌^◌, ◌%◌, ◌-◌, Option, List, [], min}

abbrev pub Hash : Type 0
Hash = ℕ

abbrev pub ReplicaId : Type 0
ReplicaId = ℕ

abbrev pub Bytes : Type 0
Bytes = List ℕ

-- A `String` is its list of code points.
abbrev pub Text : Type 0
Text = List ℕ

-- u64::MAX
abbrev pub u64_max : ℕ
u64_max = 2 ^ 64 - 1

-- `saturating_add(1)` and `wrapping_add(1)` on u64.
abbrev pub saturating_suc : ℕ → ℕ
saturating_suc n = min (n + 1) u64_max

abbrev pub wrapping_suc : ℕ → ℕ
wrapping_suc n = (n + 1) % 2 ^ 64

pub data ConsensusCommand : Type 0 where
  no_op : ConsensusCommand
  client_tx : Text → ConsensusCommand
  join_validator : ReplicaId → Bytes → ConsensusCommand
  remove_validator : ReplicaId → ConsensusCommand

-- crypto.rs
pub record Signature : Type 0 where
  pub signer : ReplicaId
  pub bytes : Bytes

pub record QuorumCert : Type 0 where
  pub block_hash : Hash
  pub view : ℕ
  pub epoch : ℕ
  pub signatures : List Signature

pub record Block : Type 0 where
  pub hash : Hash
  pub parent : Option Hash
  pub view : ℕ
  pub epoch : ℕ
  pub proposer : ReplicaId
  pub qc : Option QuorumCert
  pub command : ConsensusCommand

pub record Vote : Type 0 where
  pub block_hash : Hash
  pub view : ℕ
  pub epoch : ℕ
  pub signature : Signature

pub record Config : Type 0 where
  pub n : ℕ
  pub f : ℕ
  pub id : ReplicaId
  pub timeout_ms : ℕ

abbrev pub dummy_qc : Hash → ℕ → QuorumCert
dummy_qc hash view = record { block_hash = hash; view = view; epoch = 0; signatures = [] }

unfoldable pub quorum_size : Config → ℕ
quorum_size c = 2 * c.f + 1

unfoldable pub leader_for_view : Config → ℕ → ReplicaId
leader_for_view c view = view % c.n
