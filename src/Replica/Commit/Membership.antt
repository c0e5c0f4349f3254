-- ===== src/Replica/Commit/Membership.antt =====
-- Validator set, quorum and leader, and the membership commands that change them.
use persisthotstuff_rst.Base.{
  ◌+◌, ◌-◌, ◌%◌, ◌≡◌, refl, inl, inr, true, false, [], length, arith, Bool-cases,
}
use persisthotstuff_rst.BTree.{contains, insert_key, remove_key}
use persisthotstuff_rst.BTree.SetLaws.{
  IsAscending, length-insert_key, length-remove_key, insert_key-IsAscending, remove_key-IsAscending,
}
use persisthotstuff_rst.Types.{
  ReplicaId, Bytes, ConsensusCommand, no_op, client_tx, join_validator, remove_validator,
  saturating_suc,
}
use persisthotstuff_rst.Crypto.{add_public_key}
use persisthotstuff_rst.Replica.{
  Env, Replica, fault_threshold, can_apply_new_validator_count, dynamic_n, dynamic_f,
}
use persisthotstuff_rst.Replica.Commit.{join, leave, apply_membership_command}

module _ (env : Env) where
  -- The configuration says what the active set says.
  pub record ConfigIsSynced (r : Replica env) : Type 0 where
    pub ascending : IsAscending r.active_validators
    pub n_is_active : r.config.n ≡ length r.active_validators
    pub f_is_threshold : r.config.f ≡ fault_threshold (length r.active_validators)

  -- What a membership command does, as one of three cases.
  pub data Change (r : Replica env) : Replica env → ConsensusCommand → Type 0 where
    unchanged : (s : Replica env) (c : ConsensusCommand) → s ≡ r → Change r s c
    joined :
        (s : Replica env) (id : ReplicaId) (key : Bytes)
        → contains id r.active_validators ≡ false
        → s.active_validators ≡ insert_key id r.active_validators
        → length s.active_validators ≡ length r.active_validators + 1
        → s.config_epoch ≡ saturating_suc r.config_epoch
        → s.vote_pool ≡ []
        → Change r s (join_validator id key)
    left :
        (s : Replica env) (id : ReplicaId)
        → contains id r.active_validators ≡ true
        → s.active_validators ≡ remove_key id r.active_validators
        → length s.active_validators + 1 ≡ length r.active_validators
        → s.config_epoch ≡ saturating_suc r.config_epoch
        → s.vote_pool ≡ []
        → Change r s (remove_validator id)

  join-Change :
      (r : Replica env) (id : ReplicaId) (key : Bytes)
      → IsAscending r.active_validators
      → Change r (join env r id key) (join_validator id key)
  unfolding join
  join-Change r id key a = elim (Bool-cases (contains id r.active_validators)) [
    | inl t ↦ unchanged _ _ (rw (t, join))
    | inr n ↦ elim (Bool-cases (can_apply_new_validator_count (length r.active_validators + 1))) [
      | inr t ↦ unchanged _ _ (rw (n, t, join))
      | inl c ↦ elim (Bool-cases (add_public_key env.crypto r.keystore id key).1) [
        | inr t ↦ unchanged _ _ (ground arith)
        | inl k ↦
            joined _ _ _ n (ground arith)
              (ground (arith, length-insert_key id r.active_validators a)) (ground arith)
              (ground arith)
      ]
    ]
  ]

  leave-Change :
      (r : Replica env) (id : ReplicaId)
      → IsAscending r.active_validators
      → Change r (leave env r id) (remove_validator id)
  unfolding leave
  leave-Change r id a = elim (Bool-cases (contains id r.active_validators)) [
    | inr t ↦ unchanged _ _ (rw (t, leave))
    | inl n ↦ elim (Bool-cases (can_apply_new_validator_count (length r.active_validators - 1))) [
      | inr t ↦ unchanged _ _ (rw (n, t, leave))
      | inl c ↦
          left _ _ n (ground arith) (ground (arith, length-remove_key id r.active_validators a))
            (ground arith) (ground arith)
    ]
  ]

  -- On ascending validator ids, a command either changes nothing at all, or moves exactly one
  -- validator, enters a new epoch and empties the vote pool.
  pub apply_membership_command-Change :
      (r : Replica env) (c : ConsensusCommand)
      → IsAscending r.active_validators
      → Change r (apply_membership_command env r c) c
  unfolding apply_membership_command
  apply_membership_command-Change r no_op a = unchanged _ _ refl
  apply_membership_command-Change r (client_tx t) a = unchanged _ _ refl
  apply_membership_command-Change r (join_validator id key) a = join-Change r id key a
  apply_membership_command-Change r (remove_validator id) a = leave-Change r id a

  -- Every command keeps the ids ascending and the configuration in step with the active set.
  pub apply_membership_command-ConfigIsSynced :
      (r : Replica env) (c : ConsensusCommand)
      → ConfigIsSynced r
      → ConfigIsSynced (apply_membership_command env r c)
  unfolding apply_membership_command add_public_key dynamic_f dynamic_n
  apply_membership_command-ConfigIsSynced r no_op v = v
  apply_membership_command-ConfigIsSynced r (client_tx t) v = v
  apply_membership_command-ConfigIsSynced r (join_validator id key) v =
      ground (arith, insert_key-IsAscending id r.active_validators v.ascending)
  apply_membership_command-ConfigIsSynced r (remove_validator id) v =
      ground (arith, remove_key-IsAscending id r.active_validators v.ascending)

  -- A validator set of 3f + 1 members is frozen: since a change must lead to 3f' + 1 members again
  -- and moves one validator only, no membership command has any effect.
  pub apply_membership_command_frozen :
      (r : Replica env) (c : ConsensusCommand)
      → length r.active_validators % 3 ≡ 1
      → apply_membership_command env r c ≡ r
  unfolding apply_membership_command can_apply_new_validator_count
  apply_membership_command_frozen r no_op h = refl
  apply_membership_command_frozen r (client_tx t) h = refl
  apply_membership_command_frozen r (join_validator id key) h = ground arith
  apply_membership_command_frozen r (remove_validator id) h = ground arith
