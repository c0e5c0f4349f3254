-- ===== src/Simulation/Check.antt =====
-- src/simulation.rs: the comparison of the committed logs, `verify_safety`.
use persisthotstuff_rst.Base.{
  ℕ, ◌+◌, Bool, true, Option, none, some, List, [], ◌∷◌, ◌==◌, ◌&&◌, ◌||◌, if◌then◌else◌,
}
use persisthotstuff_rst.BTree.{BTreeSet, contains}
use persisthotstuff_rst.Types.{Block}
use persisthotstuff_rst.Replica.{Env, Replica}
use persisthotstuff_rst.Simulation.{Simulation}

module _ (env : Env) where
  -- The comparison of two committed logs up to the length of the shorter one.
  unfoldable pub logs_agree : List Block → List Block → Bool
  logs_agree [] bs = true
  logs_agree (a ∷ as') [] = true
  logs_agree (a ∷ as') (b ∷ bs) = a.hash == b.hash && logs_agree as' bs

  unfoldable pub first_not_crashed : BTreeSet → ℕ → List (Replica env) → Option (ℕ × Replica env)
  first_not_crashed crashed id [] = none
  first_not_crashed crashed id (r ∷ rs) =
      let rest = first_not_crashed crashed (id + 1) rs in
      if contains id crashed then rest else some (id, r)

  -- The loop of `verify_safety` from index `id` on.
  unfoldable pub agree_with :
      BTreeSet → (reference_idx : ℕ) → List Block → ℕ → List (Replica env) → Bool
  unfolding logs_agree
  agree_with crashed reference_idx reference id [] = true
  agree_with crashed reference_idx reference id (r ∷ rs) =
      let rest = agree_with crashed reference_idx reference (id + 1) rs in
      if id == reference_idx || contains id crashed
      then rest
      else logs_agree reference r.committed_log && rest

  -- `skip(1)` leaves out the replica at index 0.
  unfoldable pub check_logs : BTreeSet → List (Replica env) → Bool
  unfolding first_not_crashed agree_with
  check_logs crashed [] = true
  check_logs crashed (first ∷ others) = elim (first_not_crashed crashed 0 (first ∷ others)) [
    | none ↦ true
    | some (id, r) ↦ agree_with crashed id r.committed_log 1 others
  ]

  unfoldable pub verify_safety : Simulation env → Bool
  unfolding check_logs
  verify_safety s = check_logs s.crashed_replicas s.replicas
