-- ===== src/Wal.antt =====
-- src/wal.rs: the write-ahead log as a file of bytes. bincode and crc32fast are not part of the
-- repository: they are the parameter `WalLib`. A call of the operating system does not fail except
-- where the source provokes it: opening a missing file, creating one that exists, reading past the
-- end. The file's directory entry is `Option Bytes`; the temporary file of a truncation, a flag.
pub mod Entry
pub mod Reading
pub mod RoundTrip
pub mod Faults
use persisthotstuff_rst.Base.{
  ℕ, zero, suc, ◌+◌, ◌-◌, ◌*◌, ◌%◌, ◌^◌, ◌<◌, ◌≡◌, Bool, true, false, not, ◌&&◌, Option, none, some,
  List, [], ◌∷◌, ◌++◌, length, take, drop, list_eq, ◌==◌, if◌then◌else◌,
}
use mathlib.Core.Option
use persisthotstuff_rst.Types.{ReplicaId, Bytes}
use persisthotstuff_rst.Crypto.{to_le_bytes}
use Entry.{LogEntry}

pub record WalLib : Type 0 where
  -- `bincode::serialize` and `bincode::deserialize`; `none` is an error.
  pub serialize : LogEntry → Option Bytes
  pub deserialize : Bytes → Option LogEntry
  -- `crc32fast::hash`
  pub crc32 : Bytes → ℕ

-- What the code relies on. The libraries document that bincode reads back what it wrote and that a
-- checksum has 32 bits. That a payload is below 4 GiB is no law of bincode: it is an assumption on
-- the entries, which the 4-byte length prefix of the format makes, and which a command of a client
-- of 4 GiB would break.
pub record WalLaws (lib : WalLib) : Type 0 where
  pub reads_back :
      (e : LogEntry) (p : Bytes) → lib.serialize e ≡ some p → lib.deserialize p ≡ some e
  pub crc32_bits : (p : Bytes) → lib.crc32 p < 2 ^ 32
  pub payload_size : (e : LogEntry) (p : Bytes) → lib.serialize e ≡ some p → length p < 2 ^ 32

pub data WalError : Type 0 where
  io serialization invalid_magic : WalError
  corrupted_entry : (offset expected actual : ℕ) → WalError
  unsupported_version : ℕ → WalError

pub data WalResult (A : Type 0) : Type 0 where
  ok : A → WalResult A
  err : WalError → WalResult A

infixl 5 ◌>>=◌
abbrev pub ◌>>=◌ : {A B : Type 0} → WalResult A → (A → WalResult B) → WalResult B
ok a >>= f = f a
err e >>= f = err e

abbrev pub or_fail : {A : Type 0} → Option A → WalError → WalResult A
or_fail none e = err e
or_fail (some a) e = ok a

abbrev pub wal_magic : Bytes
wal_magic = 0x48 ∷ 0x53 ∷ 0x4c ∷ 0x57 ∷ []

abbrev pub wal_version : ℕ
wal_version = 1

abbrev pub header_size : ℕ
header_size = 30

-- `u32::from_le_bytes`, `u16::from_le_bytes`
unfoldable pub from_le_bytes : Bytes → ℕ
from_le_bytes [] = 0
from_le_bytes (b ∷ bs) = b + 256 * from_le_bytes bs

unfoldable pub header : ReplicaId → ℕ → Bytes
header replica_id created_ts =
    wal_magic
    ++ (to_le_bytes 2 wal_version ++ (to_le_bytes 8 replica_id ++ to_le_bytes 16 created_ts))

-- The handle: the file's bytes, the position of its cursor, and the fields of `WAL`.
pub record Wal : Type 0 where
  pub content : Bytes
  pub cursor : ℕ
  pub replica_id : ReplicaId
  pub entry_count : ℕ

-- `write_all` at the cursor, which it advances.
unfoldable pub write_all : Wal → Bytes → Wal
write_all w bs = record w {
  content = take w.cursor w.content ++ (bs ++ drop (w.cursor + length bs) w.content);
  cursor = w.cursor + length bs;
}

-- `read_exact`: the bytes and what is left, or `none` at the end of the file.
unfoldable pub read_exact : ℕ → Bytes → Option (Bytes × Bytes)
read_exact zero bs = some ([], bs)
read_exact (suc n) [] = none
read_exact (suc n) (b ∷ bs) = elim (read_exact n bs) [
  | none ↦ none
  | some (p, rest) ↦ some (b ∷ p, rest)
]

-- `WAL::create`
unfoldable pub create : Option Bytes → ReplicaId → ℕ → WalResult Wal
create (some bs) replica_id now = err io
create none replica_id now =
    let bs = header replica_id now in
    ok (record { content = bs; cursor = length bs; replica_id = replica_id; entry_count = 0 })

-- `WAL::truncate_after_snapshot`; it fails if the temporary file is there already.
unfoldable pub truncate_after_snapshot : Bool → Wal → ℕ → WalResult Wal
truncate_after_snapshot true w now = err io
truncate_after_snapshot false w now =
    let bs = header w.replica_id now in
    ok (record w { content = bs; cursor = length bs; entry_count = 0 })

-- One round of the loop of `read_entries_from_file`.
pub data Round : Type 0 where
  at_end : Round
  entry : (e : LogEntry) (offset : ℕ) (rest : Bytes) → Round
  failed : WalError → Round

-- `WAL::open`, of the header's parts in turn.
unfoldable pub open_entries : ReplicaId → Bytes → WalResult (List LogEntry) → WalResult Wal
open_entries replica_id bs (err e) = err e
open_entries replica_id bs (ok entries) = ok (record {
  content = bs;
  cursor = length bs;
  replica_id = replica_id;
  entry_count = length entries;
})

unfoldable pub check_header : Bytes → WalResult Bytes
check_header bs = do
  (magic, bs1) ← or_fail (read_exact 4 bs) io
  if not (list_eq magic wal_magic) then err invalid_magic else do
    (ver_bytes, bs2) ← or_fail (read_exact 2 bs1) io
    if not (from_le_bytes ver_bytes == wal_version)
        then err (unsupported_version (from_le_bytes ver_bytes))
        else do
          (rid_bytes, bs3) ← or_fail (read_exact 8 bs2) io
          (ts_bytes, bs4) ← or_fail (read_exact 16 bs3) io
          ok bs4

module _ (lib : WalLib) where
  -- The three parts that `append` writes for an entry.
  unfoldable pub frame : Bytes → Bytes
  frame payload =
      to_le_bytes 4 (length payload % 2 ^ 32) ++ (to_le_bytes 4 (lib.crc32 payload) ++ payload)

  -- `WAL::append`
  unfoldable pub append : Wal → LogEntry → WalResult Wal
  append w e = do
    payload ← or_fail (lib.serialize e) serialization
    let w' = write_all w (frame payload)
    ok (record w' { entry_count = w.entry_count + 1 })

  -- `WAL::append_batch`; the handle keeps what was written before an error.
  unfoldable pub append_batch : Wal → List LogEntry → Wal × WalResult (Unit {0})
  append_batch w [] = (w, ok tt)
  append_batch w (e ∷ es) = elim (append w e) [ err x ↦ (w, err x) | ok w' ↦ append_batch w' es ]

  unfoldable pub check_payload : ℕ → ℕ → Bytes → Bytes → Round
  check_payload offset stored payload rest =
      if not (lib.crc32 payload == stored)
      then failed (corrupted_entry offset stored (lib.crc32 payload))
      else elim (lib.deserialize payload) [
        | none ↦ failed serialization
        | some e ↦ entry e (offset + 8 + length payload) rest
      ]

  unfoldable pub read_entry : ℕ → Bytes → Round
  unfolding check_payload
  read_entry offset bs = elim (read_exact 4 bs) [
    | none ↦ at_end
    | some (len_bytes, bs1) ↦ elim (read_exact 4 bs1) [
      | none ↦ failed io
      | some (crc_bytes, bs2) ↦ elim (read_exact (from_le_bytes len_bytes) bs2) [
        | none ↦ failed io
        | some (payload, rest) ↦ check_payload offset (from_le_bytes crc_bytes) payload rest
      ]
    ]
  ]

  -- The loop; `none` is no result of the source, the fuel ran out.
  unfoldable pub read_loop : ℕ → ℕ → Bytes → List LogEntry → Option (WalResult (List LogEntry))
  read_loop zero offset bs entries = none
  read_loop (suc fuel) offset bs entries = elim (read_entry offset bs) [
    | at_end ↦ some (ok entries)
    | failed e ↦ some (err e)
    | entry e offset' rest ↦ read_loop fuel offset' rest (entries ++ e ∷ [])
  ]

  -- A round takes 8 bytes at least, so one round more than there are bytes is enough.
  unfoldable pub read_entries_from_file : ℕ → Bytes → Option (WalResult (List LogEntry))
  read_entries_from_file offset bs = read_loop (suc (length bs)) offset bs []

  -- `WAL::read_all`
  unfoldable pub read_all : Wal → Option (WalResult (List LogEntry))
  read_all w = read_entries_from_file header_size (drop header_size w.content)

  unfoldable pub open_wal : ReplicaId → Option Bytes → Option (WalResult Wal)
  unfolding check_header open_entries
  open_wal replica_id none = some (err io)
  open_wal replica_id (some bs) = elim (check_header bs) [
    | err e ↦ some (err e)
    | ok rest ↦ Option.map (open_entries replica_id bs) (read_entries_from_file header_size rest)
  ]
