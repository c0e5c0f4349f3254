-- ===== src/Base/Overlap.antt =====
-- Lists of identifiers without repetition, counted: a distinct list inside another is no longer,
-- and two distinct lists inside a third overlap.
use persisthotstuff_rst.Base.Tests.{◌==◌, if◌then◌else◌, Bool-cases}
use persisthotstuff_rst.Base.Lists.{length, any, length-append}
use Prim.Native.Nat.{ℕ, zero, suc, ◌+◌, ◌≤◌}
use mathlib.Core.Bool.{Bool, true, false, ◌||◌}
use mathlib.Core.List.{List, [], ◌∷◌, ◌++◌}
use mathlib.Core.Logic.{inl, inr}
use mathlib.Core.Path.{◌≡◌, refl, ap, ◌∙◌}
use native.Mathlib.Omega.{arith}

abbrev pub member : ℕ → List ℕ → Bool
member k xs = any (λ i. k == i) xs

abbrev pub Distinct : List ℕ → Type 0
Distinct [] = Unit {0}
Distinct (x ∷ xs) = (member x xs ≡ false) × Distinct xs

abbrev pub Within : List ℕ → List ℕ → Type 0
Within xs ys = (i : ℕ) → member i xs ≡ true → member i ys ≡ true

drop_first : ℕ → List ℕ → List ℕ
drop_first k [] = []
drop_first k (x ∷ xs) = if k == x then xs else x ∷ drop_first k xs

length-drop_first :
    (k : ℕ) (xs : List ℕ) → member k xs ≡ true → length (drop_first k xs) + 1 ≡ length xs
unfolding drop_first
length-drop_first k [] h = absurd (ground arith)
length-drop_first k (x ∷ xs) h = ground (arith, length-drop_first k xs)

member-drop_first :
    (k i : ℕ) (xs : List ℕ)
    → (i == k) ≡ false
    → member i xs ≡ true
    → member i (drop_first k xs) ≡ true
unfolding drop_first
member-drop_first k i [] ne h = h
member-drop_first k i (x ∷ xs) ne h = ground (arith, member-drop_first k i xs)

member_ne : (k i : ℕ) (xs : List ℕ) → member k xs ≡ false → member i xs ≡ true → (i == k) ≡ false
member_ne k i [] a h = absurd (ground arith)
member_ne k i (x ∷ xs) a h = ground (arith, member_ne k i xs)

pub length-Within-le : (xs ys : List ℕ) → Distinct xs → Within xs ys → length xs ≤ length ys
length-Within-le [] ys d w = omega arith
length-Within-le (x ∷ xs) ys d w = ground (
  arith,
  w x,
  length-drop_first x ys,
  length-Within-le xs (drop_first x ys) d.1
      λ i h. let ne = member_ne x i xs d.0 h in member-drop_first x i ys ne (w i (ground arith)),
)

-- The items of the first list that are in the second, and the others.
unfoldable pub common : List ℕ → List ℕ → List ℕ
common [] ys = []
common (x ∷ xs) ys = let rest = common xs ys in if member x ys then x ∷ rest else rest

rest_of : List ℕ → List ℕ → List ℕ
rest_of [] ys = []
rest_of (x ∷ xs) ys = let rest = rest_of xs ys in if member x ys then rest else x ∷ rest

length-common : (xs ys : List ℕ) → length (common xs ys) + length (rest_of xs ys) ≡ length xs
unfolding common rest_of
length-common [] ys = refl
length-common (x ∷ xs) ys = ground (arith, length-common xs ys)

member-rest_of : (i : ℕ) (xs ys : List ℕ) → member i (rest_of xs ys) ≡ true → member i xs ≡ true
unfolding rest_of
member-rest_of i [] ys h = h
member-rest_of i (x ∷ xs) ys h = ground (arith, member-rest_of i xs ys)

pub member-append : (i : ℕ) (xs ys : List ℕ) → member i (xs ++ ys) ≡ (member i xs || member i ys)
member-append i [] ys = refl
member-append i (x ∷ xs) ys = ground (arith, member-append i xs ys)

rest_of-Distinct : (xs ys : List ℕ) → Distinct xs → Distinct ys → Distinct (rest_of xs ys ++ ys)
unfolding rest_of
rest_of-Distinct [] ys d e = e
rest_of-Distinct (x ∷ xs) ys d e = elim (Bool-cases (member x ys)) [
  | inl t ↦ rw t (rest_of-Distinct xs ys d.1 e)
  | inr t ↦ rw t (
    elim (Bool-cases (member x (rest_of xs ys))) [
      | inl u ↦ absurd (ground (arith, member-rest_of x xs ys u))
      | inr u ↦ ground (arith, member-append x (rest_of xs ys) ys)
    ],
    rest_of-Distinct xs ys d.1 e,
  )
]

-- Inclusion and exclusion.
pub common-length-le :
    (xs ys all : List ℕ)
    → Distinct xs
    → Distinct ys
    → Within xs all
    → Within ys all
    → length xs + length ys ≤ length all + length (common xs ys)
common-length-le xs ys all dx dy wx wy = omega (
  arith,
  length-common xs ys,
  length-append (rest_of xs ys) ys,
  length-Within-le (rest_of xs ys ++ ys) all (rest_of-Distinct xs ys dx dy)
      λ i h. ground (arith, member-append i (rest_of xs ys) ys, member-rest_of i xs ys, wx i, wy i),
)

pub member-common :
    (i : ℕ) (xs ys : List ℕ)
    → member i (common xs ys) ≡ true
    → (member i xs ≡ true) × (member i ys ≡ true)
unfolding common
member-common i [] ys h = absurd (ground arith)
member-common i (x ∷ xs) ys h = ground (arith, member-common i xs ys)

pub split_at :
    (k : ℕ) (xs : List ℕ)
    → k ≤ length xs
    → (ys : List ℕ) × (zs : List ℕ) × (xs ≡ ys ++ zs) × (length ys ≡ k)
split_at zero xs h = ([], xs, refl, refl)
split_at (suc k) [] h = absurd (omega arith)
split_at (suc k) (x ∷ xs) h =
    let s = split_at k xs (omega arith) in (x ∷ s.0, s.1, ap (λ l. x ∷ l) s.2, ap suc s.3)

member_eq : (i x : ℕ) (xs : List ℕ) → (i == x) ≡ true → member i xs ≡ member x xs
member_eq i x xs e = let q : i ≡ x = ground arith in ap (λ k. member k xs) q

-- The parts of a list without repetition.
pub Distinct-parts :
    (xs ys : List ℕ)
    → Distinct (xs ++ ys)
    → Distinct xs × Distinct ys × ((i : ℕ) → member i xs ≡ true → member i ys ≡ false)
Distinct-parts [] ys d = (tt, d, λ i h. absurd (ground arith))
Distinct-parts (x ∷ xs) ys d =
    let p = Distinct-parts xs ys d.1 in
    let m = member-append x xs ys in
    (
      (ground (arith, m, d.0), p.0),
      p.1,
      λ i h. elim (Bool-cases (i == x)) [
        | inl e ↦ member_eq i x ys e ∙ ground (arith, m, d.0)
        | inr n ↦ p.2 i (ground arith)
      ],
    )

pub Distinct-append :
    (xs ys : List ℕ)
    → Distinct xs
    → Distinct ys
    → ((i : ℕ) → member i xs ≡ true → member i ys ≡ false)
    → Distinct (xs ++ ys)
Distinct-append [] ys d e f = e
Distinct-append (x ∷ xs) ys d e f = (
  ground (arith, member-append x xs ys, f x, d.0),
  Distinct-append xs ys d.1 e (λ i h. f i (ground arith)),
)

pub common-Distinct : (xs ys : List ℕ) → Distinct xs → Distinct (common xs ys)
unfolding common
common-Distinct [] ys d = tt
common-Distinct (x ∷ xs) ys d = elim (Bool-cases (member x ys)) [
  | inr n ↦ rw n (common-Distinct xs ys d.1)
  | inl t ↦ rw t (
    elim (Bool-cases (member x (common xs ys))) [
      | inr n ↦ n
      | inl u ↦ absurd (ground (arith, (member-common x xs ys u).0, d.0))
    ],
    common-Distinct xs ys d.1,
  )
]
