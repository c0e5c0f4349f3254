-- ===== src/Examples/Coding.antt =====
-- Lists of numbers as numbers, and entries of the log and snapshots as short lists of numbers: what
-- libraries can do that write and read back every value.
use persisthotstuff_rst.Base.{
  ℕ, zero, suc, ◌+◌, ◌*◌, ◌/◌, ◌%◌, ◌<◌, ◌≤◌, ◌≡◌, refl, ap, ◌∙◌, List, [], ◌∷◌, ◌==◌,
  if◌then◌else◌, arith,
}

-- The number with `x` binary zeros behind it.
abbrev shifted : ℕ → ℕ → ℕ
shifted zero m = m
shifted (suc x) m = 2 * shifted x m

abbrev pub pack : List ℕ → ℕ
pack [] = 0
pack (x ∷ xs) = shifted x (2 * pack xs + 1)

unfoldable unpack_from : (fuel count n : ℕ) → List ℕ
unpack_from zero count n = []
unpack_from (suc fuel) count n =
    let rest = unpack_from fuel (if n % 2 == 0 then count + 1 else 0) (n / 2) in
    if n == 0 then [] else if n % 2 == 0 then rest else count ∷ rest

unfoldable pub unpack : ℕ → List ℕ
unfolding unpack_from
unpack n = unpack_from n 0 n

shifted-pos : (x m : ℕ) → 0 < m → 0 < shifted x m
shifted-pos zero m h = h
shifted-pos (suc x) m h = omega (arith, shifted-pos x m h)

unpack_from-shifted :
    (x fuel count m : ℕ) (xs : List ℕ)
    → shifted x (2 * m + 1) ≤ fuel
    → ((f : ℕ) → m ≤ f → unpack_from f 0 m ≡ xs)
    → unpack_from fuel count (shifted x (2 * m + 1)) ≡ (count + x) ∷ xs
unfolding unpack_from
unpack_from-shifted zero zero count m xs h k = absurd (omega arith)
unpack_from-shifted zero (suc fuel) count m xs h k = ground (arith, k fuel (omega arith))
unpack_from-shifted (suc x) zero count m xs h k = absurd (omega (arith, shifted-pos x (2 * m + 1)))
unpack_from-shifted (suc x) (suc fuel) count m xs h k =
    let p = shifted-pos x (2 * m + 1) (omega arith) in
    ground (arith, unpack_from-shifted x fuel (count + 1) m xs (omega arith) k)

unpack_from-pack : (xs : List ℕ) (fuel : ℕ) → pack xs ≤ fuel → unpack_from fuel 0 (pack xs) ≡ xs
unfolding unpack_from
unpack_from-pack [] zero h = refl
unpack_from-pack [] (suc fuel) h = refl
unpack_from-pack (x ∷ xs) fuel h =
    unpack_from-shifted x fuel 0 (pack xs) xs h (λ f l. unpack_from-pack xs f l)
    ∙ ap (λ n. n ∷ xs) {x = 0 + x} {y = x} (omega arith)

pub unpack-pack : (xs : List ℕ) → unpack (pack xs) ≡ xs
unfolding unpack
unpack-pack xs = unpack_from-pack xs (pack xs) (omega arith)
