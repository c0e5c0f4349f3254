-- ===== src/Wal/RoundTrip.antt =====
-- The log read back: what `create`, `append` and a truncation wrote is what `read_all` and `open`
-- return. `IsLog w es` describes a file that holds the entries `es`, byte for byte.
use persisthotstuff_rst.Base.{
  ℕ, zero, suc, ◌+◌, ◌-◌, ◌≤◌, ◌≡◌, refl, ap, sym, ◌∙◌, false, none, some, List, [], ◌∷◌, ◌++◌,
  arith, length, length-append, take, drop, Option-cases, inl, inr,
}
use persisthotstuff_rst.Types.{Bytes}
use persisthotstuff_rst.Crypto.{to_le_bytes}
use persisthotstuff_rst.Wal.Entry.{LogEntry}
use persisthotstuff_rst.Wal.{
  Wal, WalLib, WalLaws, ok, entry, header_size, wal_magic, wal_version, header, from_le_bytes,
  write_all, read_exact, create, truncate_after_snapshot, frame, append, check_payload, read_entry,
  read_loop, read_entries_from_file, read_all, check_header, open_entries, open_wal,
}
use persisthotstuff_rst.Wal.Reading.{
  length-to_le_bytes, length-frame, read_entry_parts, frame-append,
}
use mathlib.Core.Path.{subst, ap₂}
use mathlib.Core.List.{append_assoc, append-nil}

pub take-append : (xs ys : Bytes) (n : ℕ) → n ≡ length xs → take n (xs ++ ys) ≡ xs
take-append [] ys zero h = refl
take-append [] ys (suc n) h = absurd (omega arith)
take-append (x ∷ xs) ys zero h = absurd (omega arith)
take-append (x ∷ xs) ys (suc n) h = ap (◌∷◌ x) (take-append xs ys n (omega arith))

pub drop-append : (xs ys : Bytes) (n : ℕ) → n ≡ length xs → drop n (xs ++ ys) ≡ ys
drop-append [] ys zero h = refl
drop-append [] ys (suc n) h = absurd (omega arith)
drop-append (x ∷ xs) ys zero h = absurd (omega arith)
drop-append (x ∷ xs) ys (suc n) h = drop-append xs ys n (omega arith)

drop_past : (xs : Bytes) (n : ℕ) → length xs ≤ n → drop n xs ≡ []
drop_past [] zero h = refl
drop_past [] (suc n) h = refl
drop_past (x ∷ xs) zero h = absurd (omega arith)
drop_past (x ∷ xs) (suc n) h = drop_past xs n (omega arith)

take_all : (xs : Bytes) (n : ℕ) → n ≡ length xs → take n xs ≡ xs
take_all [] zero h = refl
take_all [] (suc n) h = refl
take_all (x ∷ xs) zero h = absurd (omega arith)
take_all (x ∷ xs) (suc n) h = ap (◌∷◌ x) (take_all xs n (omega arith))

pub length-header : (id ts : ℕ) → length (header id ts) ≡ header_size
unfolding header
length-header id ts = omega (
  arith,
  length-append wal_magic (to_le_bytes 2 wal_version ++ (to_le_bytes 8 id ++ to_le_bytes 16 ts)),
  length-append (to_le_bytes 2 wal_version) (to_le_bytes 8 id ++ to_le_bytes 16 ts),
  length-append (to_le_bytes 8 id) (to_le_bytes 16 ts),
  length-to_le_bytes 2 wal_version,
  length-to_le_bytes 8 id,
  length-to_le_bytes 16 ts,
)

-- The header is accepted, whatever follows it.
pub check_header-header : (id ts : ℕ) (bs : Bytes) → check_header (header id ts ++ bs) ≡ ok bs
unfolding check_header header to_le_bytes read_exact from_le_bytes
check_header-header id ts bs = refl

module _ (lib : WalLib) where
  -- The bytes are the frames of the entries, in order.
  abbrev pub Frames : List LogEntry → Bytes → Type 0
  Frames [] bs = bs ≡ []
  Frames (e ∷ es) bs =
      (p : Bytes) × (rest : Bytes) × (lib.serialize e ≡ some p)
      × (bs ≡ frame lib p ++ rest)
      × Frames es rest

  pub record IsLog (w : Wal) (es : List LogEntry) : Type 0 where
    pub created_ts : ℕ
    pub body : Bytes
    pub layout : w.content ≡ header w.replica_id created_ts ++ body
    pub frames : Frames es body
    pub at_eof : w.cursor ≡ length w.content
    pub counted : w.entry_count ≡ length es

  Frames-append :
      (es : List LogEntry) (e : LogEntry) (bs p : Bytes)
      → Frames es bs
      → lib.serialize e ≡ some p
      → Frames (es ++ e ∷ []) (bs ++ frame lib p)
  Frames-append [] e bs p h s = (p, [], s, rw (h, append-nil), refl)
  Frames-append (x ∷ es) e bs p (q, rest, hq, hb, hr) s = (
    q,
    rest ++ frame lib p,
    hq,
    rw hb (append_assoc (frame lib q) rest (frame lib p)),
    Frames-append es e rest p hr s,
  )

  pub create-IsLog : (replica_id now : ℕ) (w : Wal) → create none replica_id now ≡ ok w → IsLog w []
  unfolding create
  create-IsLog replica_id now w h =
      subst (λ v. IsLog v []) (ground arith)
        (record {
          created_ts = now;
          body = [];
          layout = sym (append-nil (header replica_id now));
          frames = refl;
          at_eof = refl;
          counted = refl;
        })

  pub truncate-IsLog :
      (w v : Wal) (now : ℕ) → truncate_after_snapshot false w now ≡ ok v → IsLog v []
  unfolding truncate_after_snapshot
  truncate-IsLog w v now h =
      subst (λ u. IsLog u []) (ground arith)
        (record {
          created_ts = now;
          body = [];
          layout = sym (append-nil (header w.replica_id now));
          frames = refl;
          at_eof = refl;
          counted = refl;
        })

  -- A write at the end of the file adds to its content.
  pub content-write_all :
      (w : Wal) (bs : Bytes)
      → w.cursor ≡ length w.content
      → (write_all w bs).content ≡ w.content ++ bs
  unfolding write_all
  content-write_all w bs h =
      rw (take_all w.content w.cursor h, drop_past w.content (w.cursor + length bs) (omega arith))
        (ap (◌++◌ w.content) (append-nil bs))

  -- Appending an entry to a log of some entries makes it a log of these and that one.
  pub append-IsLog :
      (w v : Wal) (es : List LogEntry) (e : LogEntry)
      → IsLog w es
      → append lib w e ≡ ok v
      → IsLog v (es ++ e ∷ [])
  unfolding append write_all
  append-IsLog w v es e l h = elim (Option-cases (lib.serialize e)) [
    | inl n ↦ absurd (ground arith)
    | inr (p, s) ↦ subst (λ u. IsLog u (es ++ e ∷ [])) (ground arith) (written p s)
  ]
    where
      after : Bytes → Wal
      after p = record (write_all w (frame lib p)) { entry_count = w.entry_count + 1 }

      written : (p : Bytes) → lib.serialize e ≡ some p → IsLog (after p) (es ++ e ∷ [])
      written p s = record {
        created_ts = l.created_ts;
        body = l.body ++ frame lib p;
        layout =
            content-write_all w (frame lib p) l.at_eof
            ∙ ap (λ c. c ++ frame lib p) l.layout
            ∙ append_assoc (header w.replica_id l.created_ts) l.body (frame lib p);
        frames = Frames-append es e l.body p l.frames s;
        at_eof = omega (
          arith,
          ap length (content-write_all w (frame lib p) l.at_eof),
          length-append w.content (frame lib p),
          l.at_eof,
        );
        counted = omega (arith, length-append es (e ∷ []), l.counted);
      }

  check_payload_good :
      (laws : WalLaws lib) (offset : ℕ) (e : LogEntry) (p rest : Bytes)
      → lib.serialize e ≡ some p
      → check_payload lib offset (lib.crc32 p) p rest ≡ entry e (offset + 8 + length p) rest
  unfolding check_payload
  check_payload_good laws offset e p rest s = ground (arith, laws.reads_back e p s)

  -- A round over the frame of an entry returns the entry and goes on behind it.
  pub read_entry-frame :
      (laws : WalLaws lib) (offset : ℕ) (e : LogEntry) (p rest : Bytes)
      → lib.serialize e ≡ some p
      → read_entry lib offset (frame lib p ++ rest) ≡ entry e (offset + 8 + length p) rest
  read_entry-frame laws offset e p rest s = rw (frame-append lib p rest) (
      read_entry_parts lib offset (lib.crc32 p) p rest (laws.payload_size e p s) (laws.crc32_bits p)
      ∙ check_payload_good laws offset e p rest s)

  pub read_loop_entry :
      (fuel offset offset' : ℕ) (bs rest : Bytes) (e : LogEntry) (acc : List LogEntry)
      → read_entry lib offset bs ≡ entry e offset' rest
      → read_loop lib (suc fuel) offset bs acc ≡ read_loop lib fuel offset' rest (acc ++ e ∷ [])
  unfolding read_loop
  read_loop_entry fuel offset offset' bs rest e acc h = rw (h, read_loop)

  -- The loop over frames, with bytes behind them: it goes on at those bytes.
  pub read_loop-Frames :
      (laws : WalLaws lib) (es acc : List LogEntry) (fuel offset : ℕ) (bs tail : Bytes)
      → Frames es bs
      → read_loop lib (length es + fuel) offset (bs ++ tail) acc
        ≡ read_loop lib fuel (offset + length bs) tail (acc ++ es)
  read_loop-Frames laws [] acc fuel offset bs tail h =
      let e0 : 0 + fuel ≡ fuel = omega arith in
      let e1 : offset + 0 ≡ offset = omega arith in rw (h, append-nil acc, e0, e1)
  read_loop-Frames laws (e ∷ es) acc fuel offset bs tail (p, rest, s, hb, h) =
      fuel_suc
      ∙ at_front
      ∙ read_loop_entry (length es + fuel) offset _ _ (rest ++ tail) e acc
          (read_entry-frame laws offset e p (rest ++ tail) s)
      ∙ read_loop-Frames laws es (acc ++ e ∷ []) fuel (offset + 8 + length p) rest tail h
      ∙ ap₂ (λ o a. read_loop lib fuel o tail a) end_offset (append_assoc acc (e ∷ []) es)
    where
      fuel_suc :
          read_loop lib (suc (length es) + fuel) offset (bs ++ tail) acc
          ≡ read_loop lib (suc (length es + fuel)) offset (bs ++ tail) acc
      fuel_suc = ap (λ f. read_loop lib f offset (bs ++ tail) acc) (omega arith)

      at_front :
          read_loop lib (suc (length es + fuel)) offset (bs ++ tail) acc
          ≡ read_loop lib (suc (length es + fuel)) offset (frame lib p ++ (rest ++ tail)) acc
      at_front =
          ap (λ b. read_loop lib (suc (length es + fuel)) offset b acc)
            (ap (λ b. b ++ tail) hb ∙ append_assoc (frame lib p) rest tail)

      end_offset : offset + 8 + length p + length rest ≡ offset + length bs
      end_offset = omega (arith, ap length hb, length-append (frame lib p) rest, length-frame lib p)

  -- Each frame takes 8 bytes at least.
  pub length-Frames-le : (es : List LogEntry) (bs : Bytes) → Frames es bs → length es ≤ length bs
  length-Frames-le [] bs h = omega arith
  length-Frames-le (e ∷ es) bs (p, rest, s, hb, h) = omega (
    arith,
    ap length hb,
    length-append (frame lib p) rest,
    length-frame lib p,
    length-Frames-le es rest h,
  )

  read_loop_end :
      (fuel offset : ℕ) (acc : List LogEntry)
      → read_loop lib (suc fuel) offset [] acc ≡ some (ok acc)
  unfolding read_loop read_entry read_exact
  read_loop_end fuel offset acc = refl

  pub read_entries-Frames :
      (laws : WalLaws lib) (es : List LogEntry) (offset : ℕ) (bs : Bytes)
      → Frames es bs
      → read_entries_from_file lib offset bs ≡ some (ok es)
  unfolding read_entries_from_file
  read_entries-Frames laws es offset bs h =
      ap₂ (λ f b. read_loop lib f offset b []) fuel_enough (sym (append-nil bs))
      ∙ read_loop-Frames laws es [] (suc (length bs - length es)) offset bs [] h
      ∙ read_loop_end (length bs - length es) (offset + length bs) es
    where
      fuel_enough : suc (length bs) ≡ length es + suc (length bs - length es)
      fuel_enough = omega (arith, length-Frames-le es bs h)

  -- If the libraries keep what they document, `read_all` on a log of some entries returns these
  -- entries, in order.
  pub read_all-IsLog :
      (laws : WalLaws lib) (w : Wal) (es : List LogEntry)
      → IsLog w es
      → read_all lib w ≡ some (ok es)
  unfolding read_all
  read_all-IsLog laws w es l =
      ap (λ bs. read_entries_from_file lib header_size bs)
        (ap (drop header_size) l.layout
          ∙ drop-append (header w.replica_id l.created_ts) l.body header_size
              (sym (length-header w.replica_id l.created_ts)))
      ∙ read_entries-Frames laws es header_size l.body l.frames

  -- If the libraries keep what they document, reopening the file of a log gives back the handle,
  -- the cursor and the entry count included.
  pub open_wal-IsLog :
      (laws : WalLaws lib) (w : Wal) (es : List LogEntry)
      → IsLog w es
      → open_wal lib w.replica_id (some w.content) ≡ some (ok w)
  unfolding open_wal open_entries
  open_wal-IsLog laws w es l =
      rw (ap check_header l.layout ∙ check_header-header w.replica_id l.created_ts l.body, open_wal)
        (rw (read_entries-Frames laws es header_size l.body l.frames)
          (ground (arith, l.at_eof, l.counted)))
