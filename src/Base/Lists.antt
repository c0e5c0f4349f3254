-- ===== src/Base/Lists.antt =====
-- Sequences measured by native numbers, under the library's names, and predicates on their items.
use Prim.Native.Nat.{ℕ, zero, suc, ◌+◌}
use mathlib.Core.Path.{◌≡◌, refl, sym}
use mathlib.Core.Logic.{◌⊎◌, inl, inr}
use mathlib.Core.Bool.{Bool, true, false, ◌||◌, ◌&&◌}
use mathlib.Core.List.{List, [], ◌∷◌, ◌++◌}
use mathlib.Core.Option.{Option, none, some}
use native.Mathlib.Omega.{arith}
use persisthotstuff_rst.Base.Tests.{Bool-cases, if◌then◌else◌, ◌==◌}

module _ {ℓ} {A : Type ℓ} where
  abbrev pub length : List A → ℕ
  length [] = 0
  length (x ∷ xs) = suc (length xs)

  abbrev pub get_elem? : List A → ℕ → Option A
  get_elem? [] i = none
  get_elem? (x ∷ xs) zero = some x
  get_elem? (x ∷ xs) (suc i) = get_elem? xs i

  abbrev pub take : ℕ → List A → List A
  take zero xs = []
  take (suc n) [] = []
  take (suc n) (x ∷ xs) = x ∷ take n xs

  abbrev pub drop : ℕ → List A → List A
  drop zero xs = xs
  drop (suc n) [] = []
  drop (suc n) (x ∷ xs) = drop n xs

  -- A write out of range changes nothing.
  abbrev pub set : List A → ℕ → A → List A
  set [] i v = []
  set (x ∷ xs) zero v = v ∷ xs
  set (x ∷ xs) (suc i) v = x ∷ set xs i v

  -- `vec![v; n]`
  abbrev pub replicate : ℕ → A → List A
  replicate zero v = []
  replicate (suc n) v = v ∷ replicate n v

  pub length-append : (xs ys : List A) → length (xs ++ ys) ≡ length xs + length ys
  length-append [] ys = omega arith
  length-append (x ∷ xs) ys = omega (arith, length-append xs ys)

  -- `iter().any(p)`
  abbrev pub any : (A → Bool) → List A → Bool
  any p [] = false
  any p (x ∷ xs) = p x || any p xs

  -- `iter().find(p)`
  abbrev pub find : (A → Bool) → List A → Option A
  find p [] = none
  find p (x ∷ xs) = if p x then some x else find p xs

  -- A property of every item.
  abbrev pub All {κ} : (A → Type κ) → List A → Type κ
  All P [] = Unit {κ}
  All P (x ∷ xs) = P x × All P xs

-- The item stands at some place of the list.
abbrev pub In : {A : Type 0} → A → List A → Type 0
In a [] = ⊥
In a (x ∷ xs) = (a ≡ x) ⊎ In a xs

module _ {A : Type 0} where
  pub All-append {κ} : (P : A → Type κ) (xs ys : List A) → All P xs → All P ys → All P (xs ++ ys)
  All-append P [] ys hx hy = hy
  All-append P (x ∷ xs) ys hx hy = (hx.0, All-append P xs ys hx.1 hy)

  pub All-In {κ} : (P : A → Type κ) (xs : List A) (a : A) → All P xs → In a xs → P a
  All-In P [] a h m = absurd m
  All-In P (x ∷ xs) a h (inl e) = rw e h.0
  All-In P (x ∷ xs) a h (inr m) = All-In P xs a h.1 m

  pub find-some : (p : A → Bool) (xs : List A) (a : A) → find p xs ≡ some a → In a xs × (p a ≡ true)
  find-some p [] a h = cc
  find-some p (x ∷ xs) a h = elim (Bool-cases (p x)) [
    | inl t ↦ let e : x ≡ a = ground arith in (inl (sym e), ground arith)
    | inr t ↦ let r = find-some p xs a (ground arith) in (inr r.0, r.1)
  ]

  pub find-none : (p : A → Bool) (xs : List A) (a : A) → find p xs ≡ none → In a xs → p a ≡ false
  find-none p [] a h m = absurd m
  find-none p (x ∷ xs) a h (inl e) = rw e (ground arith)
  find-none p (x ∷ xs) a h (inr m) = find-none p xs a (ground arith) m

  pub any-true : (p : A → Bool) (xs : List A) (a : A) → In a xs → p a ≡ true → any p xs ≡ true
  any-true p [] a m t = absurd m
  any-true p (x ∷ xs) a (inl e) t = rw (← e, t)
  any-true p (x ∷ xs) a (inr m) t = ground (arith, any-true p xs a m t)

  pub any-false : (p : A → Bool) (xs : List A) (a : A) → any p xs ≡ false → In a xs → p a ≡ false
  any-false p [] a h m = absurd m
  any-false p (x ∷ xs) a h (inl e) = rw e (ground arith)
  any-false p (x ∷ xs) a h (inr m) = any-false p xs a (ground arith) m

  pub In-append_right : (xs ys : List A) (a : A) → In a ys → In a (xs ++ ys)
  In-append_right [] ys a m = m
  In-append_right (x ∷ xs) ys a m = inr (In-append_right xs ys a m)

-- `==` on two vectors of numbers, or on two texts.
abbrev pub list_eq : List ℕ → List ℕ → Bool
list_eq [] [] = true
list_eq (a ∷ as') (b ∷ bs) = a == b && list_eq as' bs
list_eq _ _ = false

pub list_eq_refl : (xs : List ℕ) → list_eq xs xs ≡ true
list_eq_refl [] = refl
list_eq_refl (x ∷ xs) = ground (arith, list_eq_refl xs)

pub eq_of_list_eq : (xs ys : List ℕ) → list_eq xs ys ≡ true → xs ≡ ys
eq_of_list_eq [] [] h = refl
eq_of_list_eq [] (y ∷ ys) h = cc
eq_of_list_eq (x ∷ xs) [] h = cc
eq_of_list_eq (x ∷ xs) (y ∷ ys) h = ground (arith, eq_of_list_eq xs ys)
