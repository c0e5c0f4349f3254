-- ===== src/Snapshot/Files.antt =====
-- Saving and loading snapshots, and what the conversions of blocks keep.
use persisthotstuff_rst.Base.{
  ℕ, zero, suc, ◌⊎◌, ◌-◌, ◌/◌, ◌%◌, ◌≤◌, ◌<◌, ◌≡◌, ◌≢◌, refl, sym, ap, ◌∙◌, inl, inr, Option, none,
  some, [], ◌∷◌, length, drop, list_eq, list_eq_refl, eq_of_list_eq, ltb, arith, All, All-append,
  Bool-cases, Option-cases, min,
}
use mathlib.Core.List.{reverse, reverse-cons, reverse-reverse}
use mathlib.Core.Path.{subst}
use persisthotstuff_rst.BTree
use persisthotstuff_rst.BTree.{BTreeMap}
use persisthotstuff_rst.Types.{Bytes, Text, Block, QuorumCert}
use persisthotstuff_rst.Snapshot.{
  Snapshot, SnapLib, SnapFile, SnapDir, ReadsBack, ok, err, checksum_mismatch, from_block, to_block,
  hex, hex_digit, is_whitespace, trim_start, to_lowercase, trim_lower, last_file, cleanup_old,
  hex_digest, save, decode, load_file, load_latest,
}

-- A block without what a snapshot leaves out: the signatures of its certificate.
abbrev pub strip_qc : ℕ → Option QuorumCert → Option QuorumCert
strip_qc epoch none = none
strip_qc epoch (some qc) =
    some (record { block_hash = qc.block_hash; view = qc.view; epoch = epoch; signatures = [] })

-- A block that went through a snapshot is the block again, except for its certificate: that has
-- lost its signatures, and its epoch is the block's.
pub to_block-from_block :
    (b : Block) → to_block (from_block b) ≡ record b { qc = strip_qc b.epoch b.qc }
unfolding to_block from_block
to_block-from_block b = ground arith

-- Lower-case hex digits: what `hex` writes.
abbrev IsHexDigit : ℕ → Type 0
IsHexDigit c = (48 ≤ c) × (c ≤ 102) × ((c ≤ 57) ⊎ (97 ≤ c))

hex_digit-IsHexDigit : (d : ℕ) → d < 16 → IsHexDigit (hex_digit d)
unfolding hex_digit
hex_digit-IsHexDigit d h = elim (Bool-cases (ltb d 10)) [
  | inl t ↦ rw t (omega arith, ground arith, inl (ground arith))
  | inr n ↦ rw n (omega arith, omega arith, inr (ground arith))
]

hex-IsHexDigit : (bs : Bytes) → All IsHexDigit (hex bs)
unfolding hex
hex-IsHexDigit [] = tt
hex-IsHexDigit (b ∷ bs) = (
  hex_digit-IsHexDigit (b / 16 % 16) (omega arith),
  (hex_digit-IsHexDigit (b % 16) (omega arith), hex-IsHexDigit bs),
)

trim_start_id : (t : Text) → All IsHexDigit t → trim_start t ≡ t
unfolding trim_start is_whitespace
trim_start_id [] a = refl
trim_start_id (c ∷ cs) a = let d = a.0 in ground arith

to_lowercase_id : (t : Text) → All IsHexDigit t → to_lowercase t ≡ t
unfolding to_lowercase
to_lowercase_id [] a = refl
to_lowercase_id (c ∷ cs) a = let d = a.0 in ground (arith, to_lowercase_id cs a.1)

All-reverse : (t : Text) → All IsHexDigit t → All IsHexDigit (reverse t)
All-reverse [] a = tt
All-reverse (c ∷ cs) a =
    subst (All IsHexDigit) (sym (reverse-cons c cs))
      (All-append IsHexDigit (reverse cs) (c ∷ []) (All-reverse cs a.1) (a.0, tt))

trim_lower-hex : (bs : Bytes) → trim_lower (hex bs) ≡ hex bs
unfolding trim_lower
trim_lower-hex bs =
    let a = hex-IsHexDigit bs in
    ap (λ t. to_lowercase (reverse (trim_start (reverse t)))) (trim_start_id (hex bs) a)
    ∙ ap (λ t. to_lowercase (reverse t)) (trim_start_id (reverse (hex bs)) (All-reverse (hex bs) a))
    ∙ ap to_lowercase (reverse-reverse (hex bs))
    ∙ to_lowercase_id (hex bs) a

-- All sequence numbers of the directory are below the given one.
abbrev pub OlderThan : ℕ → SnapDir → Type 0
OlderThan id [] = Unit {0}
OlderThan id ((seq, f) ∷ dir) = (seq < id) × OlderThan id dir

last_file-insert :
    (id : ℕ) (f : SnapFile) (dir : SnapDir)
    → OlderThan id dir
    → last_file (BTree.insert id f dir) ≡ some f
unfolding last_file BTree.insert
last_file-insert id f [] o = refl
last_file-insert id f ((s, g) ∷ []) o = let l = o.0 in ground arith
last_file-insert id f ((s, g) ∷ (t, h) ∷ dir) o =
    let l = o.0 in let m = (o.1).0 in ground (arith, last_file-insert id f ((t, h) ∷ dir) o.1)

length-drop : (n : ℕ) (dir : SnapDir) → length (drop n dir) ≡ length dir - n
length-drop zero dir = omega arith
length-drop (suc n) [] = omega arith
length-drop (suc n) (f ∷ dir) = omega (arith, length-drop n dir)

last_file-drop : (n : ℕ) (dir : SnapDir) → n < length dir → last_file (drop n dir) ≡ last_file dir
unfolding last_file
last_file-drop zero dir h = refl
last_file-drop (suc n) [] h = absurd (omega arith)
last_file-drop (suc n) (f ∷ []) h = absurd (omega arith)
last_file-drop (suc n) (f ∷ g ∷ dir) h = last_file-drop n (g ∷ dir) (omega arith)

module _ (lib : SnapLib) where
  -- If bincode reads back what it wrote, a snapshot that was saved under a number above all
  -- others is the one that is loaded.
  pub load_latest-save :
      (s : Snapshot) (dir dir' : SnapDir)
      → ReadsBack lib
      → OlderThan s.snapshot_id dir
      → save lib s dir ≡ ok dir'
      → load_latest lib dir' ≡ ok s
  unfolding save load_latest load_file decode hex_digest
  load_latest-save s dir dir' laws o h = elim (Option-cases (lib.serialize s)) [
    | inl n ↦ absurd (ground arith)
    | inr (p, e) ↦
        let f : SnapFile = record { payload = p; sidecar = some (hex (lib.sha256 p)) } in
        let d : BTree.insert s.snapshot_id f dir ≡ dir' = ground arith in
        ground (
          arith,
          last_file-insert s.snapshot_id f dir o,
          trim_lower-hex (lib.sha256 p),
          list_eq_refl (hex (lib.sha256 p)),
          laws s p e,
        )
  ]

  -- The latest snapshot with a payload whose digest is not the one in its sidecar is refused, and
  -- no older snapshot is tried.
  pub load_latest_corrupted :
      (dir : SnapDir) (p p' : Bytes)
      → last_file dir ≡ some (record { payload = p'; sidecar = some (hex_digest lib p) })
      → hex_digest lib p' ≢ hex_digest lib p
      → load_latest lib dir ≡ err (checksum_mismatch (hex_digest lib p) (hex_digest lib p'))
  unfolding load_latest load_file hex_digest
  load_latest_corrupted dir p p' l ne =
      elim (Bool-cases (list_eq (hex (lib.sha256 p)) (hex (lib.sha256 p')))) [
        | inl t ↦ absurd (ne (sym (eq_of_list_eq _ _ t)))
        | inr n ↦ ground (arith, trim_lower-hex (lib.sha256 p))
      ]

  -- Cleaning up to some `keep` > 0 leaves at most that many files, and never the latest.
  pub cleanup_old-load_latest :
      (dir : SnapDir) (keep : ℕ)
      → 0 < keep
      → (length (cleanup_old dir keep) ≡ min keep (length dir))
        × (load_latest lib (cleanup_old dir keep) ≡ load_latest lib dir)
  unfolding cleanup_old load_latest
  cleanup_old-load_latest dir keep h = elim (Bool-cases (ltb keep (length dir))) [
    | inr n ↦ rw n (ground arith, refl)
    | inl t ↦
        let e = last_file-drop (length dir - keep) dir (ground arith) in
        let l = length-drop (length dir - keep) dir in rw t (ground (arith, l), rw (e, load_latest))
  ]
