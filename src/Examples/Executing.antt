-- ===== src/Examples/Executing.antt =====
-- The theorems on the application of a replica, applied.
use persisthotstuff_rst.Base.{◌≡◌, refl, some, List, [], ◌∷◌, map}
use persisthotstuff_rst.BTree
use persisthotstuff_rst.Wal.Entry.{timeout}
use persisthotstuff_rst.Replica.{Replica, log}
use persisthotstuff_rst.Replica.Commit.{
  find_committed_block, heads_three_chain, commit_all, commit_loop, try_commit_once,
  execute_and_commit, push_committed, apply_membership_command, execute, on_commit,
}
use persisthotstuff_rst.Replica.Commit.Execution.{HasExecuted}
use persisthotstuff_rst.Replica.Pacemaker.{advance_view_with_reason}
use persisthotstuff_rst.Recovery
use persisthotstuff_rst.Recovery.{recover}
use persisthotstuff_rst.Recovery.Durability.{commit_stub}
use persisthotstuff_rst.Persistence.{attach_app}
use persisthotstuff_rst.Persistence.Forgotten.{recover_forgets_app}
use persisthotstuff_rst.Machine.{Event, step, run, commits, view_ends}
use persisthotstuff_rst.Machine.Executed.{run-HasExecuted, run_same_state}
use persisthotstuff_rst.Examples.{toy_env, toy_wal-WalLaws, config4, keys4, file4}
use persisthotstuff_rst.Examples.Chains.{chained}
use persisthotstuff_rst.Examples.Storage.{later4, later4-IsDurable}

abbrev early : List Event
early = commits 60 ∷ view_ends timeout 61 ∷ []

abbrev late : List Event
late = view_ends timeout 7 ∷ commits 80 ∷ []

run-HasExecuted_example : HasExecuted toy_env 0 (run toy_env chained early)
run-HasExecuted_example = run-HasExecuted toy_env 0 chained early refl

same_log : (run toy_env chained early).committed_log ≡ (run toy_env chained late).committed_log
unfolding run step commit_all commit_loop try_commit_once find_committed_block heads_three_chain
    execute_and_commit push_committed apply_membership_command execute on_commit log
    advance_view_with_reason BTree.values
same_log = refl

run_same_state_example : (run toy_env chained early).app ≡ (run toy_env chained late).app
run_same_state_example = run_same_state toy_env 0 chained chained early late refl refl same_log

recover_forgets_app_example :
    (s : Replica toy_env) × (recover toy_env config4 keys4
        (record { snapshots = []; wal_file = some file4.content })
        20
      ≡ some (Recovery.ok (s, file4)))
    × (s.committed_log ≡ map commit_stub later4.committed_log)
    × ((attach_app toy_env s 7).app ≡ some 7)
recover_forgets_app_example =
    recover_forgets_app toy_env toy_wal-WalLaws config4 keys4 later4 file4 20 7 later4-IsDurable
      refl refl
