-- ===== src/BTree/MapLaws.antt =====
-- Laws of the ordered map: what lookups and iteration see after an insertion or a removal.
use persisthotstuff_rst.Base.{
  ℕ, ◌≡◌, refl, inl, inr, true, false, none, some, [], ◌∷◌, arith, length, In, All, Bool-cases,
  is_some, ltb, ◌==◌, ◌||◌, if◌then◌else◌,
}
use persisthotstuff_rst.BTree.{BTreeMap, insert, get, contains_key, remove, values}

module _ {V : Type 0} where
  pub get-insert :
      (k j : ℕ) (v : V) (m : BTreeMap V)
      → get j (insert k v m) ≡ (if j == k then some v else get j m)
  unfolding get insert
  get-insert k j v [] = refl
  get-insert k j v ((i, w) ∷ m) = ground (arith, get-insert k j v m)

  pub get-remove :
      (k j : ℕ) (m : BTreeMap V) → get j (remove k m) ≡ (if j == k then none else get j m)
  unfolding get remove
  get-remove k j [] = ground arith
  get-remove k j ((i, w) ∷ m) = ground (arith, get-remove k j m)

  pub contains_key-insert :
      (k j : ℕ) (v : V) (m : BTreeMap V)
      → contains_key j (insert k v m) ≡ (j == k || contains_key j m)
  unfolding contains_key insert
  contains_key-insert k j v [] = refl
  contains_key-insert k j v ((i, w) ∷ m) = ground (arith, contains_key-insert k j v m)

  pub contains_key-remove :
      (k j : ℕ) (m : BTreeMap V)
      → contains_key j (remove k m) ≡ (if j == k then false else contains_key j m)
  unfolding contains_key remove
  contains_key-remove k j [] = ground arith
  contains_key-remove k j ((i, w) ∷ m) = ground (arith, contains_key-remove k j m)

  pub contains_key-get : (k : ℕ) (m : BTreeMap V) → contains_key k m ≡ is_some (get k m)
  unfolding contains_key get
  contains_key-get k [] = refl
  contains_key-get k ((i, w) ∷ m) = ground (arith, contains_key-get k m)

  -- A value found under a key is one of the values.
  pub In-values_of_get : (k : ℕ) (m : BTreeMap V) (v : V) → get k m ≡ some v → In v (values m)
  unfolding get values
  In-values_of_get k [] v h = cc
  In-values_of_get k ((i, w) ∷ m) v h = ground (arith, In-values_of_get k m v)

  pub length-values : (m : BTreeMap V) → length (values m) ≡ length m
  unfolding values
  length-values [] = refl
  length-values ((i, w) ∷ m) = omega (arith, length-values m)

  -- A property of all entries is kept by an insertion whose entry has it.
  pub All-insert :
      (P : ℕ × V → Type 0) (k : ℕ) (v : V) (m : BTreeMap V)
      → All P m
      → P (k, v)
      → All P (insert k v m)
  unfolding insert
  All-insert P k v [] a p = (p, tt)
  All-insert P k v ((i, w) ∷ m) a p = elim (Bool-cases (ltb k i)) [
    | inl t ↦ rw t (p, (a.0, a.1))
    | inr n ↦ rw n (elim (Bool-cases (k == i)) [
      | inl t ↦ rw t (p, a.1)
      | inr e ↦ rw e (a.0, All-insert P k v m a.1 p)
    ])
  ]

  pub All-map_entries :
      (P Q : ℕ × V → Type 0) (m : BTreeMap V) → ((e : ℕ × V) → P e → Q e) → All P m → All Q m
  All-map_entries P Q [] f a = tt
  All-map_entries P Q (e ∷ m) f a = (f e a.0, All-map_entries P Q m f a.1)

  -- Where each value holds its own key, the key of a value is in the map.
  pub contains_key_of_value :
      (key_of : V → ℕ) (m : BTreeMap V) (v : V)
      → All (λ e. key_of e.1 ≡ e.0) m
      → In v (values m)
      → contains_key (key_of v) m ≡ true
  unfolding values contains_key
  contains_key_of_value key_of [] v a h = absurd h
  contains_key_of_value key_of ((i, w) ∷ m) v a (inl e) = let k = a.0 in rw e (ground arith)
  contains_key_of_value key_of ((i, w) ∷ m) v a (inr h) =
      ground (arith, contains_key_of_value key_of m v a.1 h)
