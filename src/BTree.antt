-- ===== src/BTree.antt =====
-- `BTreeMap<u64, V>` and `BTreeSet<u64>` of the standard library, which the replica iterates in
-- ascending key order. A map is its list of entries in that order; the laws are in the children.
-- `HashMap<ReplicaId, VerifyingKey>` is never iterated by the replica and uses the same type.
pub mod MapLaws
pub mod SetLaws
use persisthotstuff_rst.Base.{
  ℕ, Bool, true, false, Option, none, some, List, [], ◌∷◌, map, length, ltb, ◌==◌, ◌||◌,
  if◌then◌else◌,
}

abbrev pub BTreeMap : Type 0 → Type 0
BTreeMap V = List (ℕ × V)

module _ {V : Type 0} where
  -- `insert`: replaces the value of a key that is present.
  unfoldable pub insert : ℕ → V → BTreeMap V → BTreeMap V
  insert k v [] = (k, v) ∷ []
  insert k v ((j, w) ∷ m) =
      if ltb k j then (k, v) ∷ (j, w) ∷ m else if k == j then (k, v) ∷ m else (j, w) ∷ insert k v m

  unfoldable pub get : ℕ → BTreeMap V → Option V
  get k [] = none
  get k ((j, w) ∷ m) = if k == j then some w else get k m

  unfoldable pub contains_key : ℕ → BTreeMap V → Bool
  contains_key k [] = false
  contains_key k ((j, w) ∷ m) = k == j || contains_key k m

  unfoldable pub remove : ℕ → BTreeMap V → BTreeMap V
  remove k [] = []
  remove k ((j, w) ∷ m) = let rest = remove k m in if k == j then rest else (j, w) ∷ rest

  -- In ascending order of the keys.
  unfoldable pub values : BTreeMap V → List V
  values [] = []
  values ((j, w) ∷ m) = w ∷ values m

  unfoldable pub keys : BTreeMap V → List ℕ
  keys [] = []
  keys ((j, w) ∷ m) = j ∷ keys m

-- `BTreeSet<u64>`: the members in ascending order.
abbrev pub BTreeSet : Type 0
BTreeSet = List ℕ

unfoldable pub insert_key : ℕ → BTreeSet → BTreeSet
insert_key k [] = k ∷ []
insert_key k (j ∷ s) = if ltb k j then k ∷ j ∷ s else if k == j then j ∷ s else j ∷ insert_key k s

unfoldable pub contains : ℕ → BTreeSet → Bool
contains k [] = false
contains k (j ∷ s) = k == j || contains k s

unfoldable pub remove_key : ℕ → BTreeSet → BTreeSet
remove_key k [] = []
remove_key k (j ∷ s) = let rest = remove_key k s in if k == j then rest else j ∷ rest
