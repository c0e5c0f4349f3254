-- ===== src/Wal/Faults.antt =====
-- Damaged and torn logs: what reading makes of them.
use persisthotstuff_rst.Base.{
  ℕ, zero, suc, ◌+◌, ◌-◌, ◌%◌, ◌^◌, ◌≤◌, ◌<◌, ◌≡◌, ◌≢◌, refl, ap, sym, ◌∙◌, none, some, List, [],
  ◌∷◌, ◌++◌, arith, length, length-append, drop,
}
use persisthotstuff_rst.Types.{Bytes}
use persisthotstuff_rst.Crypto.{to_le_bytes}
use persisthotstuff_rst.Wal.Entry.{LogEntry}
use persisthotstuff_rst.Wal.{
  Wal, WalLib, WalLaws, WalResult, ok, err, Round, at_end, entry, failed, io, corrupted_entry,
  header_size, header, frame, check_payload, read_entry, read_loop, read_entries_from_file,
  read_all, check_header, open_entries, open_wal,
}
use persisthotstuff_rst.Wal.Reading.{
  read_exact-append, read_exact_short, length-to_le_bytes, read_entry_parts, read_entry_takes,
  from_le_bytes-to_le_bytes,
}
use persisthotstuff_rst.Wal.RoundTrip.{
  Frames, check_header-header, read_loop-Frames, length-Frames-le,
}
use native.Mathlib.Decide.{dec_lt}

data RoundCases (r : Round) : Type 0 where
  ends : r ≡ at_end → RoundCases r
  goes_on : (e : LogEntry) (o : ℕ) (rest : Bytes) → r ≡ entry e o rest → RoundCases r
  fails : (x : _) → r ≡ failed x → RoundCases r

Round-cases : (r : Round) → RoundCases r
Round-cases at_end = ends refl
Round-cases (entry e o rest) = goes_on e o rest refl
Round-cases (failed x) = fails x refl

module _ (lib : WalLib) where
  read_loop_total :
      (fuel offset : ℕ) (bs : Bytes) (acc : List LogEntry)
      → length bs < fuel
      → read_loop lib fuel offset bs acc ≢ none
  unfolding read_loop
  read_loop_total zero offset bs acc h = absurd (omega arith)
  read_loop_total (suc fuel) offset bs acc h = elim (Round-cases (read_entry lib offset bs)) [
    | ends e ↦ rw (e, read_loop) (λ q. cc)
    | fails x e ↦ rw (e, read_loop) (λ q. cc)
    | goes_on x o rest e ↦
        rw (e, read_loop)
          (read_loop_total fuel o rest (acc ++ x ∷ [])
            (omega (arith, read_entry_takes lib offset bs x o rest e)))
  ]

  -- Reading ends on every file, whatever its bytes: the rounds allowed are enough.
  pub read_all_total : (w : Wal) → read_all lib w ≢ none
  unfolding read_all read_entries_from_file
  read_all_total w =
      read_loop_total (suc (length (drop header_size w.content))) header_size _ [] (omega arith)

  -- What reading makes of the bytes behind the last whole entry.
  pub read_entries_tail :
      (laws : WalLaws lib) (es : List LogEntry) (offset : ℕ) (bs tail : Bytes)
      → Frames lib es bs
      → (fuel : ℕ) × (length tail < fuel)
        × (read_entries_from_file lib offset (bs ++ tail)
            ≡ read_loop lib fuel (offset + length bs) tail es)
  unfolding read_entries_from_file
  read_entries_tail laws es offset bs tail h = (
    suc (length (bs ++ tail) - length es),
    omega (arith, length-append bs tail, length-Frames-le lib es bs h),
    ap (λ f. read_loop lib f offset (bs ++ tail) [])
          (omega (arith, length-append bs tail, length-Frames-le lib es bs h))
        ∙ read_loop-Frames lib laws es [] (suc (length (bs ++ tail) - length es)) offset bs tail h,
  )

  read_loop_failed :
      (fuel offset : ℕ) (bs : Bytes) (acc : List LogEntry) (x : _)
      → length bs < fuel
      → read_entry lib offset bs ≡ failed x
      → read_loop lib fuel offset bs acc ≡ some (err x)
  unfolding read_loop
  read_loop_failed zero offset bs acc x h e = absurd (omega arith)
  read_loop_failed (suc fuel) offset bs acc x h e = rw (e, read_loop)

  read_loop_at_end :
      (fuel offset : ℕ) (bs : Bytes) (acc : List LogEntry)
      → length bs < fuel
      → read_entry lib offset bs ≡ at_end
      → read_loop lib fuel offset bs acc ≡ some (ok acc)
  unfolding read_loop
  read_loop_at_end zero offset bs acc h e = absurd (omega arith)
  read_loop_at_end (suc fuel) offset bs acc h e = rw (e, read_loop)

  -- A log of whole entries with some more bytes behind them.
  pub record HasTail (w : Wal) (es : List LogEntry) (tail : Bytes) : Type 0 where
    pub created_ts : ℕ
    pub body : Bytes
    pub layout : w.content ≡ header w.replica_id created_ts ++ (body ++ tail)
    pub frames : Frames lib es body

  open_wal_tail :
      (w : Wal) (es : List LogEntry) (tail : Bytes) (t : HasTail w es tail)
      → (r : WalResult (List LogEntry))
      → read_entries_from_file lib header_size (t.body ++ tail) ≡ some r
      → open_wal lib w.replica_id (some w.content) ≡ some (open_entries w.replica_id w.content r)
  unfolding open_wal
  open_wal_tail w es tail t r e =
      rw
        (
          ap check_header t.layout ∙ check_header-header w.replica_id t.created_ts (t.body ++ tail),
          open_wal,
        )
        (rw e refl)

  -- A payload that no longer has the stored checksum: reading stops there with the offset of that
  -- entry and both checksums, although the entries before it are whole.
  pub open_corrupted :
      (laws : WalLaws lib) (w : Wal) (es : List LogEntry) (p p' rest : Bytes)
      → length p' ≡ length p
      → length p < 2 ^ 32
      → lib.crc32 p' ≢ lib.crc32 p
      → (t : HasTail w es
          (to_le_bytes 4 (length p % 2 ^ 32) ++ (to_le_bytes 4 (lib.crc32 p) ++ (p' ++ rest))))
      → open_wal lib w.replica_id (some w.content)
        ≡ some (err (corrupted_entry (header_size + length t.body) (lib.crc32 p) (lib.crc32 p')))
  unfolding open_entries check_payload
  open_corrupted laws w es p p' rest same small differ t =
      let tail =
        to_le_bytes 4 (length p % 2 ^ 32) ++ (to_le_bytes 4 (lib.crc32 p) ++ (p' ++ rest)) in
      let r = read_entries_tail laws es header_size t.body tail t.frames in
      open_wal_tail w es _ t (err _) (
        r.2
        ∙ read_loop_failed r.0 (header_size + length t.body) _ es _ r.1 (
            ap
              (λ n.
                read_entry lib (header_size + length t.body)
                  (to_le_bytes 4 (n % 2 ^ 32) ++ (to_le_bytes 4 (lib.crc32 p) ++ (p' ++ rest))))
              (sym same)
            ∙ read_entry_parts lib (header_size + length t.body) (lib.crc32 p) p' rest (omega arith)
                (laws.crc32_bits p)
            ∙ ground arith))

  read_entry_no_length :
      (offset : ℕ) (bs : Bytes) → length bs < 4 → read_entry lib offset bs ≡ at_end
  unfolding read_entry
  read_entry_no_length offset bs h = rw (read_exact_short 4 bs h, read_entry)

  read_entry_no_checksum :
      (offset n : ℕ) (bs : Bytes)
      → length bs < 4
      → read_entry lib offset (to_le_bytes 4 n ++ bs) ≡ failed io
  unfolding read_entry
  read_entry_no_checksum offset n bs h = ground (
    arith,
    read_exact-append 4 (to_le_bytes 4 n) bs (length-to_le_bytes 4 n),
    read_exact_short 4 bs h,
  )

  read_entry_no_payload :
      (offset n c : ℕ) (bs : Bytes)
      → n < 2 ^ 32
      → length bs < n
      → read_entry lib offset (to_le_bytes 4 n ++ (to_le_bytes 4 c ++ bs)) ≡ failed io
  unfolding read_entry
  read_entry_no_payload offset n c bs m h = ground (
    arith,
    read_exact-append 4 (to_le_bytes 4 n) (to_le_bytes 4 c ++ bs) (length-to_le_bytes 4 n),
    read_exact-append 4 (to_le_bytes 4 c) bs (length-to_le_bytes 4 c),
    from_le_bytes-to_le_bytes n m,
    read_exact_short n bs h,
  )

  prefix_split :
      (as' bs xs ys : Bytes)
      → as' ++ bs ≡ xs ++ ys
      → length as' ≤ length xs
      → (rest : Bytes) × (xs ≡ as' ++ rest) × (rest ++ ys ≡ bs)
  prefix_split [] bs xs ys e h = (xs, refl, sym e)
  prefix_split (a ∷ as') bs [] ys e h = absurd (omega arith)
  prefix_split (a ∷ as') bs (x ∷ xs) ys e h =
      let r = prefix_split as' bs xs ys (ground arith) (omega arith) in (r.0, ground arith, r.2)

  -- A strict prefix of a frame, of 4 bytes at least, is no entry and no end of the file.
  read_entry_torn :
      (offset : ℕ) (p tail missing : Bytes)
      → length p < 2 ^ 32
      → frame lib p ≡ tail ++ missing
      → 4 ≤ length tail
      → 0 < length missing
      → read_entry lib offset tail ≡ failed io
  unfolding frame
  read_entry_torn offset p tail missing m e h k =
      let len = to_le_bytes 4 (length p % 2 ^ 32) in
      let crc = to_le_bytes 4 (lib.crc32 p) in
      let a =
        prefix_split len (crc ++ p) tail missing e
          (omega (arith, length-to_le_bytes 4 (length p % 2 ^ 32))) in
      elim (dec_lt (length a.0) 4) [
        | yes short ↦ rw (a.1) (read_entry_no_checksum offset _ a.0 short)
        | no long ↦
            let b =
              prefix_split crc p a.0 missing (sym a.2)
                (omega (arith, length-to_le_bytes 4 (lib.crc32 p))) in
            rw (a.1) (
              rw (b.1) (
                read_entry_no_payload offset (length p % 2 ^ 32) (lib.crc32 p) b.0 (omega arith)
                  (omega (arith, ap length b.2, length-append b.0 missing))))
      ]

  -- A crash in the middle of `append`, after 4 bytes of the entry or more and before the last one:
  -- the log cannot be opened any more, although all entries before the torn one are whole.
  pub open_torn :
      (laws : WalLaws lib) (w : Wal) (es : List LogEntry) (e : LogEntry) (p tail missing : Bytes)
      → lib.serialize e ≡ some p
      → frame lib p ≡ tail ++ missing
      → 4 ≤ length tail
      → 0 < length missing
      → HasTail w es tail
      → open_wal lib w.replica_id (some w.content) ≡ some (err io)
  unfolding open_entries
  open_torn laws w es e p tail missing s cut four more t =
      let r = read_entries_tail laws es header_size t.body tail t.frames in
      open_wal_tail w es tail t (err io) (
        r.2
        ∙ read_loop_failed r.0 (header_size + length t.body) tail es io r.1
            (read_entry_torn _ p tail missing (laws.payload_size e p s) cut four more))

  -- A crash in the first 3 bytes of an entry is taken for the end of the log: the entries before
  -- it are read, and the handle's cursor stands behind the torn bytes, which stay in the file.
  pub open_torn_length :
      (laws : WalLaws lib) (w : Wal) (es : List LogEntry) (tail : Bytes)
      → length tail < 4
      → HasTail w es tail
      → open_wal lib w.replica_id (some w.content)
        ≡ some (
            ok (record {
              content = w.content;
              cursor = length w.content;
              replica_id = w.replica_id;
              entry_count = length es;
            }))
  unfolding open_entries
  open_torn_length laws w es tail short t =
      let r = read_entries_tail laws es header_size t.body tail t.frames in
      open_wal_tail w es tail t (ok es) (
        r.2
        ∙ read_loop_at_end r.0 (header_size + length t.body) tail es r.1
            (read_entry_no_length _ tail short))
