-- ===== src/Examples/TotalSnap.antt =====
-- A library that writes and reads back every snapshot, and an instance with it.
use persisthotstuff_rst.Base.{
  ℕ, zero, suc, ◌≡◌, refl, sym, ap, ◌∙◌, Option, none, some, List, [], ◌∷◌, map, arith,
}
use persisthotstuff_rst.Types.{Bytes}
use persisthotstuff_rst.Snapshot.{Snapshot, SnapLib, ReadsBack, SerializableBlock, SerializableQc}
use persisthotstuff_rst.Replica.{Env}
use persisthotstuff_rst.Simulation.Resumed.{AlwaysPacks}
use persisthotstuff_rst.Examples.{toy_env}
use persisthotstuff_rst.Examples.Coding.{pack, unpack, unpack-pack}
use persisthotstuff_rst.Examples.Total.{
  total_wal, pack_option, unpack_option, unpack-pack_option, pack_command, command_of,
  unpack-pack_command,
}

abbrev block_fields : SerializableBlock → List ℕ
block_fields b =
    b.hash
    ∷ pack_option b.parent
    ∷ b.view
    ∷ b.epoch
    ∷ b.proposer
    ∷ pack_option b.qc_block_hash
    ∷ pack_option b.qc_view
    ∷ pack_command b.command
    ∷ []

abbrev empty_block : SerializableBlock
empty_block = record {
  hash = 0;
  parent = none;
  view = 0;
  epoch = 0;
  proposer = 0;
  qc_block_hash = none;
  qc_view = none;
  command = command_of [];
}

abbrev block_of : List ℕ → SerializableBlock
block_of (h ∷ p ∷ v ∷ e ∷ r ∷ qh ∷ qv ∷ c ∷ []) = record {
  hash = h;
  parent = unpack_option p;
  view = v;
  epoch = e;
  proposer = r;
  qc_block_hash = unpack_option qh;
  qc_view = unpack_option qv;
  command = command_of (unpack c);
}
block_of fields = empty_block

block_of-block_fields : (b : SerializableBlock) → block_of (block_fields b) ≡ b
block_of-block_fields b = ground (
  arith,
  unpack-pack_option b.parent,
  unpack-pack_option b.qc_block_hash,
  unpack-pack_option b.qc_view,
  unpack-pack_command b.command,
)

abbrev pack_blocks : List SerializableBlock → ℕ
pack_blocks bs = pack (map (λ b. pack (block_fields b)) bs)

abbrev blocks_of : List ℕ → List SerializableBlock
blocks_of [] = []
blocks_of (n ∷ ns) = block_of (unpack n) ∷ blocks_of ns

blocks_of-map : (bs : List SerializableBlock) → blocks_of (map (λ b. pack (block_fields b)) bs) ≡ bs
blocks_of-map [] = refl
blocks_of-map (b ∷ bs) =
    ap (λ x. block_of x ∷ blocks_of (map (λ c. pack (block_fields c)) bs))
      (unpack-pack (block_fields b))
    ∙ ap (λ x. x ∷ blocks_of (map (λ c. pack (block_fields c)) bs)) (block_of-block_fields b)
    ∙ ap (λ l. b ∷ l) (blocks_of-map bs)

unpack-pack_blocks : (bs : List SerializableBlock) → blocks_of (unpack (pack_blocks bs)) ≡ bs
unpack-pack_blocks bs =
    ap blocks_of (unpack-pack (map (λ b. pack (block_fields b)) bs)) ∙ blocks_of-map bs

abbrev qc_fields : Option SerializableQc → List ℕ
qc_fields none = []
qc_fields (some qc) = qc.block_hash ∷ qc.view ∷ qc.epoch ∷ []

abbrev qc_of : List ℕ → Option SerializableQc
qc_of (h ∷ v ∷ e ∷ []) = some (record { block_hash = h; view = v; epoch = e })
qc_of fields = none

unpack-pack_qc : (q : Option SerializableQc) → qc_of (unpack (pack (qc_fields q))) ≡ q
unpack-pack_qc none = ap qc_of (unpack-pack [])
unpack-pack_qc (some qc) = ap qc_of (unpack-pack (qc_fields (some qc)))

abbrev pack_state : Option Bytes → ℕ
pack_state none = 0
pack_state (some bs) = suc (pack bs)

abbrev state_of : ℕ → Option Bytes
state_of zero = none
state_of (suc n) = some (unpack n)

state_of-pack_state : (o : Option Bytes) → state_of (pack_state o) ≡ o
state_of-pack_state none = refl
state_of-pack_state (some bs) = ap (λ x. some x) (unpack-pack bs)

abbrev snapshot_fields : Snapshot → Bytes
snapshot_fields s =
    s.snapshot_id
    ∷ s.timestamp
    ∷ s.replica_id
    ∷ s.current_view
    ∷ s.config_epoch
    ∷ pack s.active_validators
    ∷ pack_blocks s.committed_log
    ∷ pack_option s.committed_up_to
    ∷ pack (qc_fields s.high_qc)
    ∷ pack_blocks s.block_tree
    ∷ s.next_hash
    ∷ pack_state s.app_state
    ∷ []

abbrev snapshot_of_fields : Bytes → Option Snapshot
snapshot_of_fields (id ∷ t ∷ r ∷ v ∷ e ∷ ids ∷ log ∷ up ∷ qc ∷ tree ∷ h ∷ a ∷ []) = some (record {
  snapshot_id = id;
  timestamp = t;
  replica_id = r;
  current_view = v;
  config_epoch = e;
  active_validators = unpack ids;
  committed_log = blocks_of (unpack log);
  committed_up_to = unpack_option up;
  high_qc = qc_of (unpack qc);
  block_tree = blocks_of (unpack tree);
  next_hash = h;
  app_state = state_of a;
})
snapshot_of_fields bs = none

snapshot_of_fields-snapshot_fields :
    (s : Snapshot) → snapshot_of_fields (snapshot_fields s) ≡ some s
snapshot_of_fields-snapshot_fields s = ground (
  arith,
  unpack-pack s.active_validators,
  unpack-pack_blocks s.committed_log,
  unpack-pack_option s.committed_up_to,
  unpack-pack_qc s.high_qc,
  unpack-pack_blocks s.block_tree,
  state_of-pack_state s.app_state,
)

abbrev pub total_snap : SnapLib
total_snap = record {
  serialize = λ s. some (snapshot_fields s);
  deserialize = snapshot_of_fields;
  sha256 = λ bs. bs;
}

pub total_snap-ReadsBack : ReadsBack total_snap
total_snap-ReadsBack s p h =
    let q : snapshot_fields s ≡ p = ground arith in
    ap snapshot_of_fields (sym q) ∙ snapshot_of_fields-snapshot_fields s

abbrev pub total_env : Env
total_env = record toy_env { wal_lib = total_wal; snap_lib = total_snap }

pub total_snap-AlwaysPacks : AlwaysPacks total_snap
total_snap-AlwaysPacks s h = ground arith
