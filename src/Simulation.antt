-- ===== src/Simulation.antt =====
-- src/simulation.rs: a cluster of replicas with a network and a logical clock. Printing, the flag
-- `verbose` and the base path of the data directories are left out. A replica's data directory is
-- its snapshots and the bytes of its log. While a replica has its log open, these bytes are the
-- content of its handle; `disks` has the bytes that a crash leaves. The real clock is an argument
-- `now` of an operation that reads it, read once per call. An index out of range is a panic of the
-- source.
pub mod Messages
pub mod Round
pub mod Rejoin
pub mod Reached
pub mod Delivered
pub mod Rounds
pub mod Actions
pub mod Consistent
pub mod Leader
pub mod Safety
pub mod Catchup
pub mod Recovered
pub mod Held
pub mod Dependable
pub mod Recoverable
pub mod Rebased
pub mod Extension
pub mod Deeds
pub mod Founded
pub mod Resumed
pub mod Rejoined
pub mod Failures
pub mod Ballots
pub mod Quorum
pub mod Equivocation
pub mod Start
pub mod Crash
pub mod Election
pub mod Check
use persisthotstuff_rst.Base.{
  ℕ, zero, suc, ◌+◌, ◌-◌, ◌*◌, ◌%◌, ◌^◌, Bool, true, false, Option, none, some, List, [], ◌∷◌, ◌++◌,
  length, get_elem?, set, replicate, leb, not, ◌==◌, ◌&&◌, ◌||◌, if◌then◌else◌, min, max, map,
}
use mathlib.Core.Option
use persisthotstuff_rst.BTree
use persisthotstuff_rst.BTree.{BTreeSet, insert_key, remove_key, contains}
use persisthotstuff_rst.Types.{Hash, Block, QuorumCert, Config, ConsensusCommand}
use persisthotstuff_rst.Crypto.{KeyStore}
use persisthotstuff_rst.Wal
use persisthotstuff_rst.Wal.{Wal, WalError, WalResult, append}
use persisthotstuff_rst.Wal.Entry.{from_block}
use persisthotstuff_rst.Replica.{Env, Replica, insert_ids, ensure_default_validators}
use persisthotstuff_rst.Replica.Pacemaker
use persisthotstuff_rst.Recovery
use persisthotstuff_rst.Recovery.{RecoveryError, DataDir, genesis_block, recover}
use persisthotstuff_rst.Network.{Network, new}

pub data SimError : Type 0 where
  persistence_disabled : SimError
  invalid_replica already_crashed not_crashed missing_dir not_timed_out : ℕ → SimError
  not_recovered : RecoveryError → SimError
  not_logged : WalError → SimError

-- The end of an operation that returns `Result<(), String>`: `unfinished` is fuel that ran out.
pub data Outcome : Type 0 where
  done panicked unfinished : Outcome
  failed : SimError → Outcome

pub record Simulation (env : Env) : Type 0 where
  pub replicas : List (Replica env)
  pub network : Network
  pub step : ℕ
  pub max_steps : ℕ
  pub persistence_enabled : Bool
  pub disks : List DataDir
  pub replica_keystores : List (KeyStore env.crypto)
  pub crashed_replicas : BTreeSet
  pub unresponsive_replicas : BTreeSet
  pub last_response_ms : List ℕ
  pub simulated_time_ms : ℕ
  pub round_time_ms : ℕ

module _ (env : Env) where
  unfoldable pub is_crashed : Simulation env → ℕ → Bool
  is_crashed s id = contains id s.crashed_replicas

  unfoldable pub is_unresponsive : Simulation env → ℕ → Bool
  is_unresponsive s id = contains id s.unresponsive_replicas

  -- A write out of range changes nothing, as the test in the source says.
  unfoldable pub mark_responded : Simulation env → ℕ → Simulation env
  mark_responded s id = record s {
    last_response_ms = set s.last_response_ms id s.simulated_time_ms;
  }

  -- Saturating on u128.
  unfoldable pub advance_simulated_time : Simulation env → Simulation env
  advance_simulated_time s = record s {
    simulated_time_ms = min (s.simulated_time_ms + s.round_time_ms) (2 ^ 128 - 1);
  }
