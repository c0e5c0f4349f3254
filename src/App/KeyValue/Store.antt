-- ===== src/App/KeyValue/Store.antt =====
-- The laws of the store: what a lookup returns after each operation, and the order of its keys.
use Prim.Native.Nat.{Ordering}
use persisthotstuff_rst.Base.{
  ◌≡◌, refl, ◌↔◌, true, none, some, [], ◌∷◌, list_eq, list_eq_refl, eq_of_list_eq, All,
  if◌then◌else◌, arith,
}
use persisthotstuff_rst.Types.{Text}
use persisthotstuff_rst.App.KeyValue.{StoreMap, text_order, store_insert, store_get, store_remove}

pub text_order-eq : (a b : Text) → (text_order a b ≡ Ordering.eq) ↔ (list_eq a b ≡ true)
unfolding text_order
text_order-eq [] [] = ((λ h. refl), (λ h. refl))
text_order-eq [] (b ∷ bs) = ((λ h. cc), (λ h. cc))
text_order-eq (a ∷ as') [] = ((λ h. cc), (λ h. cc))
text_order-eq (a ∷ as') (b ∷ bs) =
    let r = text_order-eq as' bs in ((λ h. ground (arith, r.0)), (λ h. ground (arith, r.1)))

pub text_order_refl : (a : Text) → text_order a a ≡ Ordering.eq
text_order_refl a = (text_order-eq a a).1 (list_eq_refl a)

text_order_trans :
    (a b c : Text)
    → text_order a b ≡ Ordering.lt
    → text_order b c ≡ Ordering.lt
    → text_order a c ≡ Ordering.lt
unfolding text_order
text_order_trans [] [] [] h k = cc
text_order_trans [] (y ∷ b) [] h k = cc
text_order_trans [] b (z ∷ c) h k = refl
text_order_trans (x ∷ a) [] c h k = cc
text_order_trans (x ∷ a) (y ∷ b) [] h k = cc
text_order_trans (x ∷ a) (y ∷ b) (z ∷ c) h k = ground (arith, text_order_trans a b c)

text_order_flip : (a b : Text) → text_order a b ≡ Ordering.gt → text_order b a ≡ Ordering.lt
unfolding text_order
text_order_flip [] [] h = cc
text_order_flip [] (b ∷ bs) h = cc
text_order_flip (a ∷ as') [] h = refl
text_order_flip (a ∷ as') (b ∷ bs) h = ground (arith, text_order_flip as' bs)

pub store_get-insert :
    (k j v : Text) (m : StoreMap)
    → store_get j (store_insert k v m) ≡ (if list_eq j k then some v else store_get j m)
unfolding store_get store_insert
store_get-insert k j v [] = refl
store_get-insert k j v ((i, w) ∷ m) =
    let e = text_order-eq k i in
    ground (
      arith,
      e.0,
      eq_of_list_eq k i,
      eq_of_list_eq j k,
      eq_of_list_eq j i,
      text_order_refl k,
      store_get-insert k j v m,
    )

pub store_get-remove :
    (k j : Text) (m : StoreMap)
    → store_get j (store_remove k m) ≡ (if list_eq j k then none else store_get j m)
unfolding store_get store_remove
store_get-remove k j [] = ground arith
store_get-remove k j ((i, w) ∷ m) = ground (
  arith,
  eq_of_list_eq k i,
  eq_of_list_eq j k,
  eq_of_list_eq j i,
  list_eq_refl i,
  store_get-remove k j m,
)

-- A key that stands before all keys of the store.
abbrev pub IsBefore : Text → StoreMap → Type 0
IsBefore k m = All (λ (e : Text × Text). text_order k e.0 ≡ Ordering.lt) m

abbrev pub IsSorted : StoreMap → Type 0
IsSorted [] = Unit {0}
IsSorted ((k, v) ∷ m) = IsBefore k m × IsSorted m

IsBefore-trans :
    (k j : Text) (m : StoreMap) → text_order k j ≡ Ordering.lt → IsBefore j m → IsBefore k m
IsBefore-trans k j [] h b = tt
IsBefore-trans k j ((i, w) ∷ m) h b = (text_order_trans k j i h b.0, IsBefore-trans k j m h b.1)

IsBefore-insert :
    (i k v : Text) (m : StoreMap)
    → text_order i k ≡ Ordering.lt
    → IsBefore i m
    → IsBefore i (store_insert k v m)
unfolding store_insert
IsBefore-insert i k v [] h b = (h, tt)
IsBefore-insert i k v ((j, w) ∷ m) h b = ground (arith, IsBefore-insert i k v m)

IsBefore-remove : (i k : Text) (m : StoreMap) → IsBefore i m → IsBefore i (store_remove k m)
unfolding store_remove
IsBefore-remove i k [] b = tt
IsBefore-remove i k ((j, w) ∷ m) b = ground (arith, IsBefore-remove i k m)

pub store_insert-IsSorted : (k v : Text) (m : StoreMap) → IsSorted m → IsSorted (store_insert k v m)
unfolding store_insert
store_insert-IsSorted k v [] s = (tt, tt)
store_insert-IsSorted k v ((j, w) ∷ m) s = ground (
  arith,
  IsBefore-trans k j m,
  IsBefore-insert j k v m,
  text_order_flip k j,
  (text_order-eq k j).0,
  eq_of_list_eq k j,
  store_insert-IsSorted k v m,
)

pub store_remove-IsSorted : (k : Text) (m : StoreMap) → IsSorted m → IsSorted (store_remove k m)
unfolding store_remove
store_remove-IsSorted k [] s = tt
store_remove-IsSorted k ((j, w) ∷ m) s =
    ground (arith, IsBefore-remove j k m, store_remove-IsSorted k m)
