-- ===== src/BTree/SetLaws.antt =====
-- Laws of the ordered set.
use persisthotstuff_rst.Base.{
  ℕ, ◌+◌, ◌<◌, ◌≤◌, ◌≡◌, refl, false, [], ◌∷◌, arith, length, All, ◌==◌, ◌||◌, if◌then◌else◌,
}
use persisthotstuff_rst.BTree.{BTreeSet, insert_key, contains, remove_key}

pub contains-insert_key :
    (k j : ℕ) (s : BTreeSet) → contains j (insert_key k s) ≡ (j == k || contains j s)
unfolding contains insert_key
contains-insert_key k j [] = refl
contains-insert_key k j (i ∷ s) = ground (arith, contains-insert_key k j s)

pub contains-remove_key :
    (k j : ℕ) (s : BTreeSet)
    → contains j (remove_key k s) ≡ (if j == k then false else contains j s)
unfolding contains remove_key
contains-remove_key k j [] = ground arith
contains-remove_key k j (i ∷ s) = ground (arith, contains-remove_key k j s)

-- The order of iteration: strictly ascending.
abbrev pub IsAscending : BTreeSet → Type 0
IsAscending [] = Unit {0}
IsAscending (k ∷ s) = All (λ j. k < j) s × IsAscending s

All-lt_trans : (k j : ℕ) (s : BTreeSet) → k < j → All (λ i. j < i) s → All (λ i. k < i) s
All-lt_trans k j [] h a = tt
All-lt_trans k j (i ∷ s) h a = (omega arith, All-lt_trans k j s h a.1)

All-insert_key :
    (n k : ℕ) (s : BTreeSet) → n < k → All (λ i. n < i) s → All (λ i. n < i) (insert_key k s)
unfolding insert_key
All-insert_key n k [] h a = (h, tt)
All-insert_key n k (i ∷ s) h a = ground (arith, All-insert_key n k s h)

All-remove_key : (n k : ℕ) (s : BTreeSet) → All (λ i. n < i) s → All (λ i. n < i) (remove_key k s)
unfolding remove_key
All-remove_key n k [] a = tt
All-remove_key n k (i ∷ s) a = ground (arith, All-remove_key n k s)

pub insert_key-IsAscending : (k : ℕ) (s : BTreeSet) → IsAscending s → IsAscending (insert_key k s)
unfolding insert_key
insert_key-IsAscending k [] a = (tt, tt)
insert_key-IsAscending k (i ∷ s) a =
    ground (arith, All-insert_key i k s, All-lt_trans k i s, insert_key-IsAscending k s)

pub remove_key-IsAscending : (k : ℕ) (s : BTreeSet) → IsAscending s → IsAscending (remove_key k s)
unfolding remove_key
remove_key-IsAscending k [] a = tt
remove_key-IsAscending k (i ∷ s) a =
    ground (arith, All-remove_key i k s, remove_key-IsAscending k s)

pub contains_above : (n k : ℕ) (s : BTreeSet) → All (λ i. n < i) s → k ≤ n → contains k s ≡ false
unfolding contains
contains_above n k [] a h = refl
contains_above n k (i ∷ s) a h = ground (arith, contains_above n k s)

pub length-insert_key :
    (k : ℕ) (s : BTreeSet)
    → IsAscending s
    → length (insert_key k s) ≡ (if contains k s then length s else length s + 1)
unfolding contains insert_key
length-insert_key k [] a = omega arith
length-insert_key k (i ∷ s) a = ground (arith, length-insert_key k s, contains_above i k s)

remove_key_absent : (k : ℕ) (s : BTreeSet) → contains k s ≡ false → remove_key k s ≡ s
unfolding contains remove_key
remove_key_absent k [] h = refl
remove_key_absent k (i ∷ s) h = ground (arith, remove_key_absent k s)

pub length-remove_key :
    (k : ℕ) (s : BTreeSet)
    → IsAscending s
    → (if contains k s then length (remove_key k s) + 1 else length (remove_key k s)) ≡ length s
unfolding contains remove_key
length-remove_key k [] a = omega arith
length-remove_key k (i ∷ s) a =
    ground (arith, length-remove_key k s, contains_above i k s, remove_key_absent k s)
