-- ===== src/Wal/Entry.antt =====
-- src/wal.rs: the log entries, and their constructors from a block.
use persisthotstuff_rst.Base.{ℕ, Option}
use persisthotstuff_rst.Types.{Hash, ReplicaId, ConsensusCommand, Block, QuorumCert}
use mathlib.Core.Option

pub data ViewChangeReason : Type 0 where
  timeout commit : ViewChangeReason

pub data LogEntry : Type 0 where
  block_inserted :
      (hash : Hash) (parent : Option Hash) (view epoch : ℕ) (proposer : ReplicaId)
      (qc_block_hash : Option Hash) (qc_view : Option ℕ) (command : ConsensusCommand)
      (timestamp : ℕ)
      → LogEntry
  vote_received : (block_hash : Hash) (view : ℕ) (signer : ReplicaId) (timestamp : ℕ) → LogEntry
  qc_formed : (block_hash : Hash) (view epoch signer_count timestamp : ℕ) → LogEntry
  high_qc_updated : (block_hash : Hash) (view epoch timestamp : ℕ) → LogEntry
  block_committed :
      (hash : Hash) (parent : Option Hash) (view epoch : ℕ) (proposer : ReplicaId)
      (command : ConsensusCommand) (commit_index timestamp : ℕ)
      → LogEntry
  view_changed : (old_view new_view : ℕ) (reason : ViewChangeReason) (timestamp : ℕ) → LogEntry
  snapshot_taken : (snapshot_id : ℕ) (last_committed_hash : Option Hash) (timestamp : ℕ) → LogEntry

-- `now` is the clock, `WAL::now_ms()`.
abbrev pub from_block : Block → ℕ → LogEntry
from_block b now =
    block_inserted b.hash b.parent b.view b.epoch b.proposer
      (Option.map (λ (qc : QuorumCert). qc.block_hash) b.qc)
      (Option.map (λ (qc : QuorumCert). qc.view) b.qc) b.command now

abbrev pub from_committed_block : Block → ℕ → ℕ → LogEntry
from_committed_block b commit_index now =
    block_committed b.hash b.parent b.view b.epoch b.proposer b.command commit_index now
