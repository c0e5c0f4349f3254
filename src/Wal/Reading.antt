-- ===== src/Wal/Reading.antt =====
-- The pieces of the file format: exact reads, little-endian numbers, one round of the read loop.
use persisthotstuff_rst.Base.{
  ℕ, zero, suc, ◌+◌, ◌/◌, ◌%◌, ◌^◌, ◌≤◌, ◌<◌, ◌≡◌, refl, ap, none, some, [], ◌∷◌, ◌++◌, arith,
  length, length-append, Option-cases, inl, inr,
}
use persisthotstuff_rst.Types.{Bytes}
use persisthotstuff_rst.Crypto.{to_le_bytes}
use persisthotstuff_rst.Wal.Entry.{LogEntry}
use persisthotstuff_rst.Wal.{
  WalLib, entry, from_le_bytes, read_exact, frame, check_payload, read_entry,
}
use mathlib.Core.List.{append_assoc}

pub read_exact-append :
    (n : ℕ) (xs ys : Bytes) → length xs ≡ n → read_exact n (xs ++ ys) ≡ some (xs, ys)
unfolding read_exact
read_exact-append zero [] ys h = refl
read_exact-append zero (x ∷ xs) ys h = absurd (omega arith)
read_exact-append (suc n) [] ys h = absurd (omega arith)
read_exact-append (suc n) (x ∷ xs) ys h = rw (read_exact-append n xs ys (omega arith))

pub read_exact_short : (n : ℕ) (bs : Bytes) → length bs < n → read_exact n bs ≡ none
unfolding read_exact
read_exact_short zero bs h = absurd (omega arith)
read_exact_short (suc n) [] h = refl
read_exact_short (suc n) (b ∷ bs) h = rw (read_exact_short n bs (omega arith))

-- What a successful read took is gone from the rest.
pub length-read_exact :
    (n : ℕ) (bs p rest : Bytes) → read_exact n bs ≡ some (p, rest) → length rest + n ≡ length bs
unfolding read_exact
length-read_exact zero bs p rest h = ground arith
length-read_exact (suc n) [] p rest h = cc
length-read_exact (suc n) (b ∷ bs) p rest h = elim (Option-cases (read_exact n bs)) [
  | inl e ↦ absurd (ground arith)
  | inr ((q, r), e) ↦ ground (arith, length-read_exact n bs q r e)
]

pub length-to_le_bytes : (k n : ℕ) → length (to_le_bytes k n) ≡ k
unfolding to_le_bytes
length-to_le_bytes zero n = refl
length-to_le_bytes (suc k) n = ap suc (length-to_le_bytes k (n / 256))

-- A 32-bit number is read back from its four bytes, a 16-bit number from its two.
pub from_le_bytes-to_le_bytes : (n : ℕ) → n < 2 ^ 32 → from_le_bytes (to_le_bytes 4 n) ≡ n
unfolding from_le_bytes to_le_bytes
from_le_bytes-to_le_bytes n h = omega arith

module _ (lib : WalLib) where
  pub length-frame : (p : Bytes) → length (frame lib p) ≡ 8 + length p
  unfolding frame
  length-frame p = omega (
    arith,
    length-append (to_le_bytes 4 (length p % 2 ^ 32)) (to_le_bytes 4 (lib.crc32 p) ++ p),
    length-append (to_le_bytes 4 (lib.crc32 p)) p,
    length-to_le_bytes 4 (length p % 2 ^ 32),
    length-to_le_bytes 4 (lib.crc32 p),
  )

  -- A round over a length, a checksum and a payload of that length checks the payload.
  pub read_entry_parts :
      (offset stored : ℕ) (p rest : Bytes)
      → length p < 2 ^ 32
      → stored < 2 ^ 32
      → read_entry lib offset
          (to_le_bytes 4 (length p % 2 ^ 32) ++ (to_le_bytes 4 stored ++ (p ++ rest)))
        ≡ check_payload lib offset stored p rest
  unfolding read_entry
  read_entry_parts offset stored p rest hp hs = ground (
    arith,
    read_exact-append 4 (to_le_bytes 4 (length p % 2 ^ 32)) (to_le_bytes 4 stored ++ (p ++ rest))
        (length-to_le_bytes 4 (length p % 2 ^ 32)),
    read_exact-append 4 (to_le_bytes 4 stored) (p ++ rest) (length-to_le_bytes 4 stored),
    from_le_bytes-to_le_bytes (length p % 2 ^ 32),
    from_le_bytes-to_le_bytes stored hs,
    read_exact-append (length p % 2 ^ 32) p rest,
  )

  pub frame-append :
      (p rest : Bytes)
      → frame lib p ++ rest
        ≡ to_le_bytes 4 (length p % 2 ^ 32) ++ (to_le_bytes 4 (lib.crc32 p) ++ (p ++ rest))
  unfolding frame
  frame-append p rest = simp append_assoc

  -- Every round that goes on has taken 8 bytes at least.
  pub read_entry_takes :
      (offset : ℕ) (bs : Bytes) (e : LogEntry) (offset' : ℕ) (rest : Bytes)
      → read_entry lib offset bs ≡ entry e offset' rest
      → length rest + 8 ≤ length bs
  unfolding read_entry check_payload
  read_entry_takes offset bs e offset' rest h = elim (Option-cases (read_exact 4 bs)) [
    | inl e0 ↦ absurd (ground arith)
    | inr ((l, b1), e1) ↦ elim (Option-cases (read_exact 4 b1)) [
      | inl e0 ↦ absurd (ground arith)
      | inr ((c, b2), e2) ↦ elim (Option-cases (read_exact (from_le_bytes l) b2)) [
        | inl e0 ↦ absurd (ground arith)
        | inr ((p, b3), e3) ↦ ground (
          arith,
          length-read_exact 4 bs l b1 e1,
          length-read_exact 4 b1 c b2 e2,
          length-read_exact (from_le_bytes l) b2 p b3 e3,
        )
      ]
    ]
  ]
