-- ===== src/Examples/Total.antt =====
-- Libraries that write and read back every log entry and every snapshot.
use persisthotstuff_rst.Base.{
  ℕ, zero, suc, ◌%◌, ◌^◌, ◌<◌, ◌≡◌, refl, sym, ap, ◌∙◌, Option, none, some, List, [], ◌∷◌, length,
  arith,
}
use persisthotstuff_rst.Types.{
  Bytes, ConsensusCommand, no_op, client_tx, join_validator, remove_validator,
}
use persisthotstuff_rst.Wal.{WalLib, WalLaws}
use persisthotstuff_rst.Wal.Entry.{
  LogEntry, ViewChangeReason, timeout, commit, block_inserted, vote_received, qc_formed,
  high_qc_updated, block_committed, view_changed, snapshot_taken,
}
use persisthotstuff_rst.Recovery.Durability.{AlwaysSerializes}
use persisthotstuff_rst.Examples.{byte_sum}
use persisthotstuff_rst.Examples.Coding.{pack, unpack, unpack-pack}

abbrev pub pack_option : Option ℕ → ℕ
pack_option none = 0
pack_option (some n) = suc n

abbrev pub unpack_option : ℕ → Option ℕ
unpack_option zero = none
unpack_option (suc n) = some n

pub unpack-pack_option : (o : Option ℕ) → unpack_option (pack_option o) ≡ o
unpack-pack_option none = refl
unpack-pack_option (some n) = refl

abbrev command_fields : ConsensusCommand → List ℕ
command_fields no_op = []
command_fields (client_tx t) = pack t ∷ []
command_fields (join_validator id key) = id ∷ pack key ∷ []
command_fields (remove_validator id) = id ∷ 0 ∷ 0 ∷ []

abbrev pub command_of : List ℕ → ConsensusCommand
command_of (t ∷ []) = client_tx (unpack t)
command_of (id ∷ key ∷ []) = join_validator id (unpack key)
command_of (id ∷ x ∷ y ∷ []) = remove_validator id
command_of fields = no_op

command_of-command_fields : (c : ConsensusCommand) → command_of (command_fields c) ≡ c
command_of-command_fields no_op = refl
command_of-command_fields (client_tx t) = ap client_tx (unpack-pack t)
command_of-command_fields (join_validator id key) = ap (join_validator id) (unpack-pack key)
command_of-command_fields (remove_validator id) = refl

abbrev pub pack_command : ConsensusCommand → ℕ
pack_command c = pack (command_fields c)

pub unpack-pack_command : (c : ConsensusCommand) → command_of (unpack (pack_command c)) ≡ c
unpack-pack_command c = ap command_of (unpack-pack (command_fields c)) ∙ command_of-command_fields c

abbrev pack_reason : ViewChangeReason → ℕ
pack_reason timeout = 0
pack_reason commit = 1

abbrev reason_of : ℕ → ViewChangeReason
reason_of zero = timeout
reason_of (suc n) = commit

abbrev entry_fields : LogEntry → Bytes
entry_fields (block_inserted hash parent view epoch proposer qc_hash qc_view command t) =
    hash
    ∷ pack_option parent
    ∷ view
    ∷ epoch
    ∷ proposer
    ∷ pack_option qc_hash
    ∷ pack_option qc_view
    ∷ pack_command command
    ∷ t
    ∷ []
entry_fields (vote_received hash view signer t) = hash ∷ view ∷ signer ∷ t ∷ []
entry_fields (qc_formed hash view epoch count t) = hash ∷ view ∷ epoch ∷ count ∷ t ∷ []
entry_fields (high_qc_updated hash view epoch t) = hash ∷ view ∷ epoch ∷ t ∷ 0 ∷ 0 ∷ []
entry_fields (block_committed hash parent view epoch proposer command index t) =
    hash ∷ pack_option parent ∷ view ∷ epoch ∷ proposer ∷ pack_command command ∷ index ∷ t ∷ []
entry_fields (view_changed old_view new_view reason t) =
    old_view ∷ new_view ∷ pack_reason reason ∷ t ∷ 0 ∷ 0 ∷ 0 ∷ []
entry_fields (snapshot_taken id last t) = id ∷ pack_option last ∷ t ∷ []

abbrev entry_of : Bytes → Option LogEntry
entry_of (h ∷ p ∷ v ∷ e ∷ r ∷ qh ∷ qv ∷ c ∷ t ∷ []) = some (
    block_inserted h (unpack_option p) v e r (unpack_option qh) (unpack_option qv)
      (command_of (unpack c)) t)
entry_of (h ∷ v ∷ s ∷ t ∷ []) = some (vote_received h v s t)
entry_of (h ∷ v ∷ e ∷ n ∷ t ∷ []) = some (qc_formed h v e n t)
entry_of (h ∷ v ∷ e ∷ t ∷ x ∷ y ∷ []) = some (high_qc_updated h v e t)
entry_of (h ∷ p ∷ v ∷ e ∷ r ∷ c ∷ i ∷ t ∷ []) =
    some (block_committed h (unpack_option p) v e r (command_of (unpack c)) i t)
entry_of (o ∷ n ∷ r ∷ t ∷ x ∷ y ∷ z ∷ []) = some (view_changed o n (reason_of r) t)
entry_of (id ∷ l ∷ t ∷ []) = some (snapshot_taken id (unpack_option l) t)
entry_of bs = none

entry_of-entry_fields : (e : LogEntry) → entry_of (entry_fields e) ≡ some e
entry_of-entry_fields (block_inserted hash parent view epoch proposer qc_hash qc_view command t) =
    ground (
      arith,
      unpack-pack_option parent,
      unpack-pack_option qc_hash,
      unpack-pack_option qc_view,
      unpack-pack_command command,
    )
entry_of-entry_fields (vote_received hash view signer t) = refl
entry_of-entry_fields (qc_formed hash view epoch count t) = refl
entry_of-entry_fields (high_qc_updated hash view epoch t) = refl
entry_of-entry_fields (block_committed hash parent view epoch proposer command index t) =
    ground (arith, unpack-pack_option parent, unpack-pack_command command)
entry_of-entry_fields (view_changed old_view new_view timeout t) = refl
entry_of-entry_fields (view_changed old_view new_view commit t) = refl
entry_of-entry_fields (snapshot_taken id last t) = ground (arith, unpack-pack_option last)

abbrev pub total_wal : WalLib
total_wal = record {
  serialize = λ e. some (entry_fields e);
  deserialize = entry_of;
  crc32 = λ bs. byte_sum bs % 2 ^ 32;
}

total_reads_back :
    (e : LogEntry) (p : Bytes) → total_wal.serialize e ≡ some p → total_wal.deserialize p ≡ some e
total_reads_back e p h =
    let q : entry_fields e ≡ p = ground arith in ap entry_of (sym q) ∙ entry_of-entry_fields e

total_payload_size : (e : LogEntry) (p : Bytes) → total_wal.serialize e ≡ some p → length p < 2 ^ 32
total_payload_size e p h = ground arith

pub total_wal-WalLaws : WalLaws total_wal
total_wal-WalLaws = record {
  reads_back = total_reads_back;
  crc32_bits = λ p. omega arith;
  payload_size = total_payload_size;
}

pub total_wal-AlwaysSerializes : AlwaysSerializes total_wal
total_wal-AlwaysSerializes e h = ground arith
