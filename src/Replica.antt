-- ===== src/Replica.antt =====
-- src/replica.rs: the state of a replica, its validator set, quorum and leader. The handlers are
-- in the child modules. The clock is an argument `now` of each handler that reads it.
pub mod Leader
pub mod Overlap
pub mod Votes
pub mod Proposals
pub mod Commit
pub mod Pacemaker
use persisthotstuff_rst.Base.{
  ℕ, zero, suc, ◌+◌, ◌-◌, ◌*◌, ◌/◌, ◌%◌, Bool, true, false, Option, none, some, List, [], ◌∷◌,
  length, get_elem?, ltb, ◌==◌, not, ◌&&◌, if◌then◌else◌,
}
use persisthotstuff_rst.BTree.{BTreeMap, BTreeSet, insert_key}
use persisthotstuff_rst.Types.{
  Hash, ReplicaId, Bytes, Signature, Block, QuorumCert, ConsensusCommand, Config,
}
use persisthotstuff_rst.Crypto.{Ed25519, KeyStore}
use persisthotstuff_rst.Wal.{Wal, WalLib, append, ok, err}
use persisthotstuff_rst.Wal.Entry.{LogEntry}
use persisthotstuff_rst.Snapshot.{SnapLib}
use persisthotstuff_rst.App.{App}

-- The libraries and the application that a replica is linked with.
pub record Env : Type 1 where
  pub crypto : Ed25519
  pub wal_lib : WalLib
  pub snap_lib : SnapLib
  pub app : App

pub record Replica (env : Env) : Type 0 where
  pub config : Config
  pub current_view : ℕ
  pub block_tree : BTreeMap Block
  pub high_qc : Option QuorumCert
  pub vote_pool : BTreeMap (List Signature)
  pub next_hash : Hash
  pub committed_log : List Block
  pub committed_up_to : Option Hash
  pub timeout_ms : ℕ
  pub view_start_time : ℕ
  pub active_validators : BTreeSet
  pub config_epoch : ℕ
  pub keystore : KeyStore env.crypto
  pub wal : Option Wal
  pub snapshot_counter : ℕ
  pub app : Option env.app.State
  pub pending_app_state : Option Bytes
  pub client_queue : List ConsensusCommand
  pub dummy_proposal_enabled : Bool
  pub last_proposed_time : ℕ
  pub dummy_timeout_ms : ℕ

-- The ids 0 to n - 1, inserted in turn.
unfoldable pub insert_ids : ℕ → ℕ → BTreeSet → BTreeSet
insert_ids zero id s = s
insert_ids (suc k) id s = insert_ids k (id + 1) (insert_key id s)

-- `dynamic_f` of a number of validators.
unfoldable pub fault_threshold : ℕ → ℕ
fault_threshold n = if n == 0 then 0 else (n - 1) / 3

-- `iter().nth(view % len)` over the ascending ids, or the replica's own id.
unfoldable pub leader_among : BTreeSet → ReplicaId → ℕ → ReplicaId
leader_among validators own view = elim validators [
  | [] ↦ own
  | id ∷ ids ↦ elim (get_elem? (id ∷ ids) (view % length (id ∷ ids))) [ none ↦ own | some l ↦ l ]
]

unfoldable pub can_apply_new_validator_count : ℕ → Bool
can_apply_new_validator_count new_n = if ltb new_n 4 then false else new_n % 3 == 1

module _ (env : Env) where
  unfoldable pub dynamic_n : Replica env → ℕ
  dynamic_n r = length r.active_validators

  unfoldable pub dynamic_f : Replica env → ℕ
  unfolding fault_threshold dynamic_n
  dynamic_f r = fault_threshold (dynamic_n r)

  unfoldable pub dynamic_quorum_size : Replica env → ℕ
  unfolding dynamic_f
  dynamic_quorum_size r = 2 * dynamic_f r + 1

  unfoldable pub dynamic_leader_for_view : Replica env → ℕ → ReplicaId
  unfolding leader_among
  dynamic_leader_for_view r view = leader_among r.active_validators r.config.id view

  unfoldable pub is_leader : Replica env → ℕ → Bool
  unfolding dynamic_leader_for_view
  is_leader r view = dynamic_leader_for_view r view == r.config.id

  unfoldable pub ensure_default_validators : Replica env → Replica env
  unfolding insert_ids
  ensure_default_validators r = elim r.active_validators [
    | [] ↦ record r { active_validators = insert_ids r.config.n 0 [] }
    | id ∷ ids ↦ r
  ]

  -- `if let Some(ref mut wal) = self.wal { let _ = wal.append(&entry); }`: without a log, or when
  -- the entry cannot be serialised, nothing is recorded.
  unfoldable pub record_entry : Option Wal → LogEntry → Option Wal
  record_entry none e = none
  record_entry (some w) e = elim (append env.wal_lib w e) [ ok w' ↦ some w' | err x ↦ some w ]

  unfoldable pub log : Replica env → LogEntry → Replica env
  unfolding record_entry
  log r e = record r { wal = record_entry r.wal e }
