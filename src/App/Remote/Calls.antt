-- ===== src/App/Remote/Calls.antt =====
-- A remote application does what the same application does in the process, as long as the calls
-- arrive.
use persisthotstuff_rst.Base.{◌≡◌, refl, ◌↔◌, List, [], ◌∷◌, arith}
use persisthotstuff_rst.Types.{Bytes, Text, ConsensusCommand}
use persisthotstuff_rst.App.{App, AppResult, CommittedCommand, ok, err, execution_failed, to_string}
use persisthotstuff_rst.App.Remote.{
  Fate, delivered, not_sent, not_answered, consensus_command_to_proto, proto_to_consensus_command,
  committed_command_to_request, execute, remote_apply, remote_restore, remote_snapshot,
  take_snapshot, restore_snapshot,
}

-- Each command comes out of its message as it went in.
pub proto_to_consensus_command_inverse :
    (c : ConsensusCommand) → proto_to_consensus_command (consensus_command_to_proto c) ≡ c
unfolding consensus_command_to_proto proto_to_consensus_command
proto_to_consensus_command_inverse c = ground arith

module _ (app : App) (show_status : Text → Text) where
  -- What the client makes of a result of the application.
  abbrev pub as_remote : AppResult Bytes → AppResult Bytes
  as_remote (ok bs) = ok bs
  as_remote (err e) = err (execution_failed (to_string e))

  execute_lem :
      (s : app.State) (c : CommittedCommand)
      → (execute app show_status s (committed_command_to_request c)).0 ≡ (app.apply s c).0
  unfolding execute committed_command_to_request
  execute_lem s c = ground (arith, proto_to_consensus_command_inverse c.command)

  apply_delivered :
      (s : app.State) (c : CommittedCommand)
      → (remote_apply app show_status delivered s c).1 ≡ as_remote (app.apply s c).1
  unfolding remote_apply execute committed_command_to_request
  apply_delivered s c = ground (arith, proto_to_consensus_command_inverse c.command)

  -- The application in the process.
  unfoldable pub apply_all : app.State → List CommittedCommand → app.State
  apply_all s [] = s
  apply_all s (c ∷ cs) = apply_all (app.apply s c).0 cs

  unfoldable pub remote_apply_all : app.State → List (Fate × CommittedCommand) → app.State
  remote_apply_all s [] = s
  remote_apply_all s ((f, c) ∷ cs) = remote_apply_all (remote_apply app show_status f s c).0 cs

  -- The commands of which the request reached the server.
  abbrev pub arrived : List (Fate × CommittedCommand) → List CommittedCommand
  arrived [] = []
  arrived ((delivered, c) ∷ cs) = c ∷ arrived cs
  arrived ((not_answered text, c) ∷ cs) = c ∷ arrived cs
  arrived ((not_sent text, c) ∷ cs) = arrived cs

  -- After any sequence of calls the server's application is where the application in the process
  -- would be after the commands that arrived, those without an answer included. A command that
  -- was not sent is skipped for good.
  pub remote_apply_all-arrived :
      (s : app.State) (cs : List (Fate × CommittedCommand))
      → remote_apply_all s cs ≡ apply_all s (arrived cs)
  unfolding remote_apply_all apply_all remote_apply
  remote_apply_all-arrived s [] = refl
  remote_apply_all-arrived s ((delivered, c) ∷ cs) =
      rw (execute_lem s c) (remote_apply_all-arrived (app.apply s c).0 cs)
  remote_apply_all-arrived s ((not_answered text, c) ∷ cs) =
      rw (execute_lem s c) (remote_apply_all-arrived (app.apply s c).0 cs)
  remote_apply_all-arrived s ((not_sent text, c) ∷ cs) = remote_apply_all-arrived s cs

  -- A call that is delivered has the result of the application, each error as `ExecutionFailed` with
  -- its text. A restore that is delivered has its effect, and succeeds exactly when the application
  -- does; a snapshot that is delivered succeeds with the same bytes exactly when the application's
  -- does.
  pub delivered_lem :
      (s : app.State) (c : CommittedCommand) (bs : Bytes)
      → ((remote_apply app show_status delivered s c).1 ≡ as_remote (app.apply s c).1)
        × ((remote_restore app show_status delivered s bs).0 ≡ (app.restore s bs).0)
        × (((remote_restore app show_status delivered s bs).1 ≡ ok tt)
            ↔ ((app.restore s bs).1 ≡ ok tt))
        × ((remote_snapshot app show_status delivered s ≡ ok bs) ↔ (app.snapshot s ≡ ok bs))
  unfolding remote_restore restore_snapshot remote_snapshot take_snapshot
  delivered_lem s c bs = (
    apply_delivered s c,
    ground arith,
    ((λ h. ground arith), (λ h. ground arith)),
    ((λ h. ground arith), (λ h. ground arith)),
  )
