-- ===== src/App.antt =====
-- src/app.rs: the interface of the replicated application, which the replica takes as a parameter,
-- and the application that ignores everything. The key-value store is in `KeyValue`; `Remote` is
-- the adapter of src/grpc.rs.
pub mod KeyValue
pub mod Remote
use persisthotstuff_rst.Base.{ℕ, [], ◌++◌, codes}
use persisthotstuff_rst.Types.{Hash, ReplicaId, ConsensusCommand, Bytes, Text}

pub data AppError : Type 0 where
  invalid_command execution_failed snapshot_error internal connection_failed : Text → AppError

pub data AppResult (A : Type 0) : Type 0 where
  ok : A → AppResult A
  err : AppError → AppResult A

-- `to_string`
unfoldable pub to_string : AppError → Text
to_string (invalid_command msg) = codes "invalid command: " ++ msg
to_string (execution_failed msg) = codes "execution failed: " ++ msg
to_string (snapshot_error msg) = codes "snapshot error: " ++ msg
to_string (internal msg) = codes "internal error: " ++ msg
to_string (connection_failed msg) = codes "connection failed: " ++ msg

pub record CommittedCommand : Type 0 where
  pub block_hash : Hash
  pub view : ℕ
  pub epoch : ℕ
  pub proposer : ReplicaId
  pub command : ConsensusCommand
  pub commit_index : ℕ

-- The trait `App`: `apply` and `restore` also return the new state of the application.
pub record App : Type 1 where
  pub State : Type 0
  pub apply : State → CommittedCommand → State × AppResult Bytes
  pub snapshot : State → AppResult Bytes
  pub restore : State → Bytes → State × AppResult (Unit {0})

-- `NoOpApp`
abbrev pub no_op_app : App
no_op_app = record {
  State = Unit {0};
  apply = λ s c. (s, ok []);
  snapshot = λ s. ok [];
  restore = λ s bs. (s, ok tt);
}
