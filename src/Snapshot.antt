-- ===== src/Snapshot.antt =====
-- src/snapshot.rs: the snapshot of a replica, its conversions, and the snapshot files of a data
-- directory. bincode and SHA-256 are the parameter `SnapLib`. A directory is the
-- ordered map from the sequence number in a file name to the `.bin` payload and the text of the
-- `.sha256` sidecar, if it is there; file names are not modelled.
pub mod Files
use persisthotstuff_rst.Base.{
  ℕ, zero, suc, ◌+◌, ◌-◌, ◌/◌, ◌%◌, ◌≡◌, Bool, true, false, Option, none, some, List, [], ◌∷◌, ◌++◌,
  map, length, drop, list_eq, ltb, leb, not, ◌==◌, ◌&&◌, ◌||◌, if◌then◌else◌,
}
use mathlib.Core.List.{reverse}
use mathlib.Core.Option
use persisthotstuff_rst.BTree.{BTreeMap}
use persisthotstuff_rst.BTree
use persisthotstuff_rst.Types.{Hash, ReplicaId, Bytes, Text, Block, QuorumCert, ConsensusCommand}

pub record SerializableBlock : Type 0 where
  pub hash : Hash
  pub parent : Option Hash
  pub view : ℕ
  pub epoch : ℕ
  pub proposer : ReplicaId
  pub qc_block_hash : Option Hash
  pub qc_view : Option ℕ
  pub command : ConsensusCommand

pub record SerializableQc : Type 0 where
  pub block_hash : Hash
  pub view : ℕ
  pub epoch : ℕ

pub record Snapshot : Type 0 where
  pub snapshot_id : ℕ
  pub timestamp : ℕ
  pub replica_id : ReplicaId
  pub current_view : ℕ
  pub config_epoch : ℕ
  pub active_validators : List ReplicaId
  pub committed_log : List SerializableBlock
  pub committed_up_to : Option Hash
  pub high_qc : Option SerializableQc
  pub block_tree : List SerializableBlock
  pub next_hash : Hash
  pub app_state : Option Bytes

pub data SnapshotError : Type 0 where
  io serialization not_found : SnapshotError
  checksum_mismatch : (expected actual : Text) → SnapshotError

pub data SnapResult (A : Type 0) : Type 0 where
  ok : A → SnapResult A
  err : SnapshotError → SnapResult A

-- `bincode::serialize` and `bincode::deserialize` of a snapshot; `none` is an error.
pub record SnapLib : Type 0 where
  pub serialize : Snapshot → Option Bytes
  pub deserialize : Bytes → Option Snapshot
  pub sha256 : Bytes → Bytes

-- What bincode documents.
abbrev pub ReadsBack : SnapLib → Type 0
ReadsBack lib = (s : Snapshot) (p : Bytes) → lib.serialize s ≡ some p → lib.deserialize p ≡ some s

-- The certificate that a block's stored hash and view stand for: no signatures, and the epoch of
-- the block.
abbrev pub qc_stub : Option Hash → Option ℕ → ℕ → Option QuorumCert
qc_stub none v epoch = none
qc_stub (some bh) none epoch = none
qc_stub (some bh) (some v) epoch =
    some (record { block_hash = bh; view = v; epoch = epoch; signatures = [] })

-- `SerializableBlock::from_block`
unfoldable pub from_block : Block → SerializableBlock
from_block b = record {
  hash = b.hash;
  parent = b.parent;
  view = b.view;
  epoch = b.epoch;
  proposer = b.proposer;
  qc_block_hash = Option.map (λ (qc : QuorumCert). qc.block_hash) b.qc;
  qc_view = Option.map (λ (qc : QuorumCert). qc.view) b.qc;
  command = b.command;
}

unfoldable pub to_block : SerializableBlock → Block
to_block s = record {
  hash = s.hash;
  parent = s.parent;
  view = s.view;
  epoch = s.epoch;
  proposer = s.proposer;
  qc = qc_stub s.qc_block_hash s.qc_view s.epoch;
  command = s.command;
}

unfoldable pub from_qc : QuorumCert → SerializableQc
from_qc qc = record { block_hash = qc.block_hash; view = qc.view; epoch = qc.epoch }

unfoldable pub to_qc : SerializableQc → QuorumCert
to_qc s = record { block_hash = s.block_hash; view = s.view; epoch = s.epoch; signatures = [] }

unfoldable pub capture :
    (snapshot_id : ℕ) (replica_id : ReplicaId) (current_view config_epoch : ℕ)
    (active_validators : List ReplicaId) (block_tree : BTreeMap Block) (committed_log : List Block)
    (committed_up_to : Option Hash) (high_qc : Option QuorumCert) (next_hash : Hash)
    (app_state : Option Bytes) (now : ℕ)
    → Snapshot
unfolding from_block from_qc
capture id replica_id view epoch validators tree log up_to high_qc next_hash app_state now =
    record {
      snapshot_id = id;
      timestamp = now;
      replica_id = replica_id;
      current_view = view;
      config_epoch = epoch;
      active_validators = validators;
      committed_log = map from_block log;
      committed_up_to = up_to;
      high_qc = Option.map from_qc high_qc;
      block_tree = map from_block (BTree.values tree);
      next_hash = next_hash;
      app_state = app_state;
    }

-- `format!("{:02x}", byte)` for each byte.
unfoldable pub hex_digit : ℕ → ℕ
hex_digit d = if ltb d 10 then 48 + d else 87 + d

unfoldable pub hex : Bytes → Text
unfolding hex_digit
hex [] = []
hex (b ∷ bs) = hex_digit (b / 16 % 16) ∷ hex_digit (b % 16) ∷ hex bs

-- `char::is_whitespace`
unfoldable pub is_whitespace : ℕ → Bool
is_whitespace c =
    (leb 9 c && leb c 13)
    || c == 32
    || c == 0x85
    || c == 0xa0
    || c == 0x1680
    || (leb 0x2000 c && leb c 0x200a)
    || c == 0x2028
    || c == 0x2029
    || c == 0x202f
    || c == 0x205f
    || c == 0x3000

unfoldable pub trim_start : Text → Text
unfolding is_whitespace
trim_start [] = []
trim_start (c ∷ cs) = let rest = trim_start cs in if is_whitespace c then rest else c ∷ cs

-- `trim().to_lowercase()`, of which only the letters A to F matter for the comparison with a hex
-- digest: no other character has one of its characters as its lower case.
unfoldable pub to_lowercase : Text → Text
to_lowercase [] = []
to_lowercase (c ∷ cs) = (if leb 65 c && leb c 90 then c + 32 else c) ∷ to_lowercase cs

unfoldable pub trim_lower : Text → Text
unfolding trim_start to_lowercase
trim_lower t = to_lowercase (reverse (trim_start (reverse (trim_start t))))

pub record SnapFile : Type 0 where
  pub payload : Bytes
  pub sidecar : Option Text

abbrev pub SnapDir : Type 0
SnapDir = BTreeMap SnapFile

-- The candidate that stands last after the sort by sequence number.
unfoldable pub last_file : SnapDir → Option SnapFile
last_file [] = none
last_file ((seq, f) ∷ []) = some f
last_file ((seq, f) ∷ g ∷ dir) = last_file (g ∷ dir)

-- `Snapshot::cleanup_old`: the files before the last `keep`, in ascending order, are removed.
unfoldable pub cleanup_old : SnapDir → ℕ → SnapDir
cleanup_old dir keep = if ltb keep (length dir) then drop (length dir - keep) dir else dir

unfoldable pub exists : SnapDir → Bool
exists [] = false
exists (f ∷ dir) = true

module _ (lib : SnapLib) where
  unfoldable pub hex_digest : Bytes → Text
  unfolding hex
  hex_digest payload = hex (lib.sha256 payload)

  unfoldable pub save : Snapshot → SnapDir → SnapResult SnapDir
  unfolding hex_digest
  save s dir = elim (lib.serialize s) [
    | none ↦ err serialization
    | some payload ↦ ok (
        BTree.insert s.snapshot_id
          (record { payload = payload; sidecar = some (hex_digest payload) }) dir)
  ]

  unfoldable pub decode : Bytes → SnapResult Snapshot
  decode payload = elim (lib.deserialize payload) [ none ↦ err serialization | some s ↦ ok s ]

  unfoldable pub load_file : SnapFile → SnapResult Snapshot
  unfolding decode hex_digest trim_lower
  load_file f = elim f.sidecar [
    | none ↦ decode f.payload
    | some text ↦
        if not (list_eq (trim_lower text) (hex_digest f.payload))
        then err (checksum_mismatch (trim_lower text) (hex_digest f.payload))
        else decode f.payload
  ]

  unfoldable pub load_latest : SnapDir → SnapResult Snapshot
  unfolding last_file load_file
  load_latest dir = elim (last_file dir) [ none ↦ err not_found | some f ↦ load_file f ]
