-- ===== src/Examples/Storage.antt =====
-- The theorems on files, applied.
use persisthotstuff_rst.Base.{ℕ, ◌%◌, ◌^◌, ◌≡◌, refl, none, some, [], ◌∷◌, ◌++◌, length, arith}
use persisthotstuff_rst.Types.{Bytes}
use persisthotstuff_rst.Crypto.{to_le_bytes}
use persisthotstuff_rst.Snapshot.{SnapDir, Snapshot, hex_digest}
use persisthotstuff_rst.Wal.{Wal, header, frame, open_wal, read_all, ok, err, io}
use persisthotstuff_rst.Wal.Entry.{view_changed, timeout}
use persisthotstuff_rst.Wal.RoundTrip.{IsLog, read_all-IsLog}
use persisthotstuff_rst.Wal.Faults.{HasTail, open_torn}
use persisthotstuff_rst.Replica.{Replica}
use persisthotstuff_rst.Recovery.{Base, DataDir, recover, fresh, replay}
use persisthotstuff_rst.Recovery
use persisthotstuff_rst.Recovery.Durability.{IsDurable}
use persisthotstuff_rst.Recovery.Crash.{IsRecovered, recover_after_crash}
use persisthotstuff_rst.Examples.{
  toy_snap, toy_env, toy_wal, toy_wal-WalLaws, file4, entries4, replica4, config4, keys4,
}

file4-IsLog : IsLog toy_wal file4 entries4
file4-IsLog = record {
  created_ts = 7;
  body = frame toy_wal (5 ∷ 4 ∷ 0 ∷ 8 ∷ []) ++ (frame toy_wal (3 ∷ 4 ∷ 9 ∷ []) ++ []);
  layout = refl;
  frames = (
    5 ∷ 4 ∷ 0 ∷ 8 ∷ [],
    frame toy_wal (3 ∷ 4 ∷ 9 ∷ []) ++ [],
    refl,
    refl,
    (3 ∷ 4 ∷ 9 ∷ [], [], refl, refl, refl),
  );
  at_eof = refl;
  counted = refl;
}

-- Replica 0 after the two entries.
abbrev pub later4 : Replica toy_env
later4 = record replica4 {
  current_view = 4;
  high_qc = some (record {
    block_hash = 5;
    view = 4;
    epoch = 0;
    signatures = record { signer = 1; bytes = [] } ∷ [];
  });
}

pub later4-IsDurable : IsDurable toy_env fresh later4
unfolding replay
later4-IsDurable = record {
  base = record fresh {
    current_view = 4;
    high_qc = some (record { block_hash = 5; view = 4; epoch = 0; signatures = [] });
  };
  logged = record {
    file = file4;
    entries = entries4;
    attached = refl;
    holds = file4-IsLog;
    replays = refl;
  };
  mirrors = record { committed = refl; up_to = refl; certificate = refl; view = refl };
}

recover_after_crash_example :
    (s : Replica toy_env) × (recover toy_env config4 keys4
        (record { snapshots = []; wal_file = some file4.content })
        20
      ≡ some (Recovery.ok (s, file4)))
    × IsRecovered toy_env later4 s
recover_after_crash_example =
    recover_after_crash toy_env toy_wal-WalLaws config4 keys4 later4 file4 20 later4-IsDurable refl
      refl

read_all-IsLog_example : read_all toy_wal file4 ≡ some (ok entries4)
read_all-IsLog_example = read_all-IsLog toy_wal toy_wal-WalLaws file4 entries4 file4-IsLog

-- A file with one whole entry and some bytes behind it.
abbrev with_tail : Bytes → Wal
with_tail tail = record {
  content = header 0 7 ++ ((frame toy_wal (3 ∷ 4 ∷ 9 ∷ []) ++ []) ++ tail);
  cursor = 0;
  replica_id = 0;
  entry_count = 0;
}

abbrev has_tail :
    (tail : Bytes) → HasTail toy_wal (with_tail tail) (view_changed 3 4 timeout 9 ∷ []) tail
has_tail tail = record {
  created_ts = 7;
  body = frame toy_wal (3 ∷ 4 ∷ 9 ∷ []) ++ [];
  layout = refl;
  frames = (3 ∷ 4 ∷ 9 ∷ [], [], refl, refl, refl);
}

abbrev flipped : Bytes
flipped =
    to_le_bytes 4 (length {A = ℕ} (4 ∷ 5 ∷ 6 ∷ []) % 2 ^ 32)
    ++ (to_le_bytes 4 (toy_wal.crc32 (4 ∷ 5 ∷ 6 ∷ [])) ++ ((4 ∷ 5 ∷ 7 ∷ []) ++ []))

open_torn_example :
    open_wal toy_wal 0 (some (with_tail (3 ∷ 0 ∷ 0 ∷ 0 ∷ 20 ∷ [])).content) ≡ some (err io)
unfolding frame to_le_bytes
open_torn_example =
    open_torn toy_wal toy_wal-WalLaws (with_tail (3 ∷ 0 ∷ 0 ∷ 0 ∷ 20 ∷ []))
      (view_changed 3 4 timeout 9 ∷ []) (view_changed 4 5 timeout 11) (4 ∷ 5 ∷ 11 ∷ [])
      (3 ∷ 0 ∷ 0 ∷ 0 ∷ 20 ∷ []) (0 ∷ 0 ∷ 0 ∷ 4 ∷ 5 ∷ 11 ∷ []) refl refl (omega arith) (omega arith)
      (has_tail (3 ∷ 0 ∷ 0 ∷ 0 ∷ 20 ∷ []))

abbrev snap7 : Snapshot
snap7 = record {
  snapshot_id = 7;
  timestamp = 1;
  replica_id = 0;
  current_view = 9;
  config_epoch = 2;
  active_validators = [];
  committed_log = [];
  committed_up_to = none;
  high_qc = none;
  block_tree = [];
  next_hash = 12;
  app_state = none;
}

abbrev dir2 : SnapDir
dir2 =
    (3, record { payload = 1 ∷ []; sidecar = none })
    ∷ (5, record { payload = 2 ∷ []; sidecar = none })
    ∷ []

abbrev dir3 : SnapDir
dir3 =
    dir2
    ++ (
      7,
      record {
        payload = 7 ∷ 1 ∷ 0 ∷ 9 ∷ 2 ∷ 12 ∷ [];
        sidecar = some (hex_digest toy_snap (7 ∷ 1 ∷ 0 ∷ 9 ∷ 2 ∷ 12 ∷ []));
      },
    )
      ∷ []

abbrev spoilt : SnapDir
spoilt =
    dir2 ++ (7, record { payload = 8 ∷ []; sidecar = some (hex_digest toy_snap (9 ∷ [])) }) ∷ []
