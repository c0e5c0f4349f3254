-- ===== src/Recovery/Durability/Commits.antt =====
-- Commits, and the log entries that they leave.
use persisthotstuff_rst.Base.{
  ℕ, zero, suc, ◌≡◌, sym, ap, ◌∙◌, inl, inr, some, [], ◌∷◌, ◌++◌, map, length, arith, Option-cases,
  max,
}
use mathlib.Core.Path.{subst}
use mathlib.Core.List.{map-append}
use mathlib.Core.Option
use persisthotstuff_rst.Types.{
  Block, ConsensusCommand, no_op, client_tx, join_validator, remove_validator,
}
use persisthotstuff_rst.Crypto.{add_public_key}
use persisthotstuff_rst.Wal.Entry.{from_committed_block}
use persisthotstuff_rst.Replica.{Env, Replica, log, record_entry}
use persisthotstuff_rst.Replica.Commit.{
  execute_and_commit, push_committed, apply_membership_command, commit_loop, commit_all,
  find_committed_block,
}
use persisthotstuff_rst.Replica.Commit.Termination.{commit_loop_stop, commit_loop_next}
use persisthotstuff_rst.Recovery.{Base, ok, replay_entry}
use persisthotstuff_rst.Recovery.Durability.{
  commit_stub, unsigned, length-map_stub, AlwaysSerializes, IsDurable, SameMemory, logged-IsDurable,
}

module _ (env : Env) (start : Base) where
  replay_commit :
      (s : Base) (b : Block) (index now : ℕ)
      → index ≡ length s.committed_log
      → replay_entry s (from_committed_block b index now)
        ≡ ok (record s {
          committed_log = s.committed_log ++ commit_stub b ∷ [];
          committed_up_to = some b.hash;
          config_epoch = max s.config_epoch b.epoch;
        })
  unfolding replay_entry
  replay_commit s b index now h = ground arith

  record MembershipKeeps (r s : Replica env) : Type 0 where
    wal : s.wal ≡ r.wal
    memory : SameMemory env r s

  membership-MembershipKeeps :
      (r : Replica env) (c : ConsensusCommand)
      → MembershipKeeps r (apply_membership_command env r c)
  unfolding apply_membership_command add_public_key
  membership-MembershipKeeps r no_op = ground arith
  membership-MembershipKeeps r (client_tx t) = ground arith
  membership-MembershipKeeps r (join_validator id key) = ground arith
  membership-MembershipKeeps r (remove_validator id) = ground arith

  committed_memory :
      (r : Replica env) (b : Block) (now : ℕ)
      → ((execute_and_commit env r b now).wal
          ≡ record_entry env r.wal (from_committed_block b (length r.committed_log) now))
        × ((execute_and_commit env r b now).committed_log ≡ r.committed_log ++ b ∷ [])
        × ((execute_and_commit env r b now).committed_up_to ≡ some b.hash)
        × ((execute_and_commit env r b now).high_qc ≡ r.high_qc)
        × ((execute_and_commit env r b now).current_view ≡ r.current_view)
  unfolding execute_and_commit log
  committed_memory r b now =
      let m =
        membership-MembershipKeeps
          (push_committed env (log env r (from_committed_block b (length r.committed_log) now)) b)
          b.command in
      ground (arith, m)

  -- A commit, with the membership change and the execution that it brings about.
  pub execute_and_commit-IsDurable :
      (serializes : AlwaysSerializes env.wal_lib) (r : Replica env) (b : Block) (now : ℕ)
      → IsDurable env start r
      → IsDurable env start (execute_and_commit env r b now)
  execute_and_commit-IsDurable serializes r b now d =
      let c = committed_memory r b now in
      let in_order : length r.committed_log ≡ length d.base.committed_log =
        sym (length-map_stub r.committed_log)
        ∙ ap length (sym d.mirrors.committed)
        ∙ length-map_stub d.base.committed_log in
      logged-IsDurable env start serializes r (execute_and_commit env r b now)
        (from_committed_block b (length r.committed_log) now) d
        (record (d.base) {
          committed_log = d.base.committed_log ++ commit_stub b ∷ [];
          committed_up_to = some b.hash;
          config_epoch = max d.base.config_epoch b.epoch;
        })
        (replay_commit d.base b (length r.committed_log) now in_order) c.0
        (record {
          committed =
              map-append commit_stub d.base.committed_log (commit_stub b ∷ [])
              ∙ ap (λ l. l ++ commit_stub b ∷ []) d.mirrors.committed
              ∙ sym (map-append commit_stub r.committed_log (b ∷ []))
              ∙ ap (map commit_stub) (sym c.1);
          up_to = sym c.2;
          certificate = d.mirrors.certificate ∙ ap (Option.map unsigned) (sym c.3);
          view = d.mirrors.view ∙ sym c.4;
        })

  commit_loop-IsDurable :
      (serializes : AlwaysSerializes env.wal_lib) (fuel : ℕ) (r s : Replica env) (now : ℕ)
      → IsDurable env start r
      → commit_loop env fuel r now ≡ some s
      → IsDurable env start s
  unfolding commit_loop
  commit_loop-IsDurable serializes zero r s now d h = cc
  commit_loop-IsDurable serializes (suc fuel) r s now d h =
      elim (Option-cases (find_committed_block env r)) [
        | inl n ↦ subst (IsDurable env start) (cc (commit_loop_stop env fuel r now n)) d
        | inr (b, f) ↦
            commit_loop-IsDurable serializes fuel (execute_and_commit env r b now) s now
              (execute_and_commit-IsDurable serializes r b now d)
              (sym (commit_loop_next env fuel r b now f) ∙ h)
      ]

  -- All commits that are possible.
  pub commit_all-IsDurable :
      (serializes : AlwaysSerializes env.wal_lib) (r s : Replica env) (now : ℕ)
      → IsDurable env start r
      → commit_all env r now ≡ some s
      → IsDurable env start s
  unfolding commit_all
  commit_all-IsDurable serializes r s now d h =
      commit_loop-IsDurable serializes (suc (length r.block_tree)) r s now d h
