-- ===== src/App/Remote.antt =====
-- src/grpc.rs: an application behind gRPC. The messages are those of src/proto/app_service.proto.
-- tonic and tokio are not part of the repository: what becomes of a call is its argument `Fate`.
-- The server's lock is never poisoned here: an application that panics is not modelled.
pub mod Calls
use persisthotstuff_rst.Base.{
  ℕ, Bool, true, false, Option, none, some, List, [], ◌∷◌, ◌++◌, codes, if◌then◌else◌,
}
use persisthotstuff_rst.Types.{Hash, ReplicaId, Bytes, Text, ConsensusCommand}
use persisthotstuff_rst.App.{
  App, AppResult, AppError, CommittedCommand, ok, err, internal, execution_failed, snapshot_error,
  to_string,
}

pub record ProtoJoinValidator : Type 0 where
  pub replica_id : ReplicaId
  pub public_key : Bytes

pub record ProtoRemoveValidator : Type 0 where
  pub replica_id : ReplicaId

-- `proto::command_payload::Kind`
pub data Kind : Type 0 where
  no_op : Kind
  client_tx : Text → Kind
  join_validator : ProtoJoinValidator → Kind
  remove_validator : ProtoRemoveValidator → Kind

pub record CommandPayload : Type 0 where
  pub kind : Option Kind

pub record ExecuteRequest : Type 0 where
  pub block_hash : Hash
  pub view : ℕ
  pub epoch : ℕ
  pub proposer : ReplicaId
  pub commit_index : ℕ
  pub command : Option CommandPayload

pub record ExecuteResponse : Type 0 where
  pub success : Bool
  pub result : Bytes
  pub error : Text

pub record RestoreResponse : Type 0 where
  pub success : Bool
  pub error : Text

unfoldable pub consensus_command_to_proto : ConsensusCommand → Option CommandPayload
consensus_command_to_proto ConsensusCommand.no_op = some (record { kind = some Kind.no_op })
consensus_command_to_proto (ConsensusCommand.client_tx payload) =
    some (record { kind = some (Kind.client_tx payload) })
consensus_command_to_proto (ConsensusCommand.join_validator replica_id public_key) = some (record {
  kind = some (Kind.join_validator (record { replica_id = replica_id; public_key = public_key }));
})
consensus_command_to_proto (ConsensusCommand.remove_validator replica_id) =
    some (record { kind = some (Kind.remove_validator (record { replica_id = replica_id })) })

unfoldable pub kind_to_command : Kind → ConsensusCommand
kind_to_command Kind.no_op = ConsensusCommand.no_op
kind_to_command (Kind.client_tx s) = ConsensusCommand.client_tx s
kind_to_command (Kind.join_validator j) = ConsensusCommand.join_validator j.replica_id j.public_key
kind_to_command (Kind.remove_validator r) = ConsensusCommand.remove_validator r.replica_id

unfoldable pub proto_to_consensus_command : Option CommandPayload → ConsensusCommand
unfolding kind_to_command
proto_to_consensus_command none = ConsensusCommand.no_op
proto_to_consensus_command (some payload) = elim payload.kind [
  | none ↦ ConsensusCommand.no_op
  | some kind ↦ kind_to_command kind
]

-- `usize` and `u64` are the same numbers.
unfoldable pub committed_command_to_request : CommittedCommand → ExecuteRequest
unfolding consensus_command_to_proto
committed_command_to_request cmd = record {
  block_hash = cmd.block_hash;
  view = cmd.view;
  epoch = cmd.epoch;
  proposer = cmd.proposer;
  commit_index = cmd.commit_index;
  command = consensus_command_to_proto cmd.command;
}

-- What becomes of a call: it arrives and so does the answer; or it fails with a status, of which
-- the text is given, before the server sees it or after.
pub data Fate : Type 0 where
  delivered : Fate
  not_sent not_answered : Text → Fate

-- The answer of `take_snapshot`: the state, or an internal status with a message.
pub data Answer : Type 0 where
  answered : Bytes → Answer
  status : Text → Answer

-- `show_status` is how tonic prints an internal status with a message.
module _ (app : App) (show_status : Text → Text) where
  -- The server, `AppServiceImpl`, over the state of the application that it holds.
  unfoldable pub execute : app.State → ExecuteRequest → app.State × ExecuteResponse
  unfolding proto_to_consensus_command
  execute s req =
      let applied = app.apply s (record {
        block_hash = req.block_hash;
        view = req.view;
        epoch = req.epoch;
        proposer = req.proposer;
        command = proto_to_consensus_command req.command;
        commit_index = req.commit_index;
      }) in
      elim applied.1 [
        | ok result ↦ (applied.0, record { success = true; result = result; error = [] })
        | err e ↦ (applied.0, record { success = false; result = []; error = to_string e })
      ]

  unfoldable pub take_snapshot : app.State → Answer
  take_snapshot s = elim (app.snapshot s) [
    | ok state ↦ answered state
    | err e ↦ status (to_string e)
  ]

  unfoldable pub restore_snapshot : app.State → Bytes → app.State × RestoreResponse
  restore_snapshot s bs =
      let restored = app.restore s bs in
      elim restored.1 [
        | ok u ↦ (restored.0, record { success = true; error = [] })
        | err e ↦ (restored.0, record { success = false; error = to_string e })
      ]

  -- The client, `GrpcAppClient`, with the state of the application at the server.
  unfoldable pub remote_apply : Fate → app.State → CommittedCommand → app.State × AppResult Bytes
  unfolding execute committed_command_to_request
  remote_apply (not_sent text) s cmd = (s, err (internal (codes "gRPC execute: " ++ text)))
  remote_apply (not_answered text) s cmd = (
    (execute s (committed_command_to_request cmd)).0,
    err (internal (codes "gRPC execute: " ++ text)),
  )
  remote_apply delivered s cmd =
      let answer = execute s (committed_command_to_request cmd) in
      (
        answer.0,
        if answer.1.success then ok answer.1.result else err (execution_failed answer.1.error),
      )

  unfoldable pub remote_snapshot : Fate → app.State → AppResult Bytes
  unfolding take_snapshot
  remote_snapshot (not_sent text) s = err (internal (codes "gRPC snapshot: " ++ text))
  remote_snapshot (not_answered text) s = err (internal (codes "gRPC snapshot: " ++ text))
  remote_snapshot delivered s = elim (take_snapshot s) [
    | answered state ↦ ok state
    | status msg ↦ err (internal (codes "gRPC snapshot: " ++ show_status msg))
  ]

  unfoldable pub remote_restore : Fate → app.State → Bytes → app.State × AppResult (Unit {0})
  unfolding restore_snapshot
  remote_restore (not_sent text) s bs = (s, err (internal (codes "gRPC restore: " ++ text)))
  remote_restore (not_answered text) s bs =
      ((restore_snapshot s bs).0, err (internal (codes "gRPC restore: " ++ text)))
  remote_restore delivered s bs =
      let answer = restore_snapshot s bs in
      (answer.0, if answer.1.success then ok tt else err (snapshot_error answer.1.error))

  -- The application as the replica sees it, as long as calls do not fail.
  unfoldable pub remote_app : App
  unfolding remote_apply remote_snapshot remote_restore
  remote_app = record {
    State = app.State;
    apply = remote_apply delivered;
    snapshot = remote_snapshot delivered;
    restore = remote_restore delivered;
  }
