-- ===== src/App/KeyValue.antt =====
-- src/app.rs: `KeyValueApp`, a key-value store that reads its commands from texts. The store is a
-- `BTreeMap<String, String>`: its entries in ascending order of their keys, which compares UTF-8
-- texts as it compares their code points. bincode is the parameter `StoreLib`.
pub mod Commands
pub mod Store
use Prim.Native.Nat.{compare, Ordering}
use persisthotstuff_rst.Base.{
  ℕ, zero, suc, ◌+◌, ◌-◌, ◌/◌, ◌%◌, ◌≡◌, Bool, true, false, Option, none, some, List, [], ◌∷◌, ◌++◌,
  length, ltb, leb, list_eq, codes, ◌==◌, ◌&&◌, ◌||◌, if◌then◌else◌,
}
use persisthotstuff_rst.Types.{
  Bytes, Text, ConsensusCommand, no_op, client_tx, join_validator, remove_validator,
}
use persisthotstuff_rst.App.{
  App, AppResult, AppError, CommittedCommand, ok, err, invalid_command, snapshot_error,
}

-- The order of texts: the first difference decides, and a prefix comes first.
unfoldable pub text_order : Text → Text → Ordering
text_order [] [] = Ordering.eq
text_order [] (b ∷ bs) = Ordering.lt
text_order (a ∷ as') [] = Ordering.gt
text_order (a ∷ as') (b ∷ bs) = elim (compare a b) [
  | Ordering.lt ↦ Ordering.lt
  | Ordering.eq ↦ text_order as' bs
  | Ordering.gt ↦ Ordering.gt
]

abbrev pub StoreMap : Type 0
StoreMap = List (Text × Text)

unfoldable pub store_insert : Text → Text → StoreMap → StoreMap
unfolding text_order
store_insert k v [] = (k, v) ∷ []
store_insert k v ((j, w) ∷ m) = elim (text_order k j) [
  | Ordering.lt ↦ (k, v) ∷ (j, w) ∷ m
  | Ordering.eq ↦ (k, v) ∷ m
  | Ordering.gt ↦ (j, w) ∷ store_insert k v m
]

unfoldable pub store_get : Text → StoreMap → Option Text
store_get k [] = none
store_get k ((j, w) ∷ m) = if list_eq k j then some w else store_get k m

unfoldable pub store_remove : Text → StoreMap → StoreMap
store_remove k [] = []
store_remove k ((j, w) ∷ m) =
    let rest = store_remove k m in if list_eq k j then rest else (j, w) ∷ rest

-- `splitn(parts, ' ')`, for one part or more: at the first spaces, as long as parts are left.
unfoldable pub split_at_space : Text → Text × Option Text
split_at_space [] = ([], none)
split_at_space (c ∷ cs) =
    let rest = split_at_space cs in if c == 32 then ([], some cs) else (c ∷ rest.0, rest.1)

unfoldable pub splitn : ℕ → Text → List Text
unfolding split_at_space
splitn zero t = []
splitn (suc zero) t = t ∷ []
splitn (suc (suc k)) t =
    let s = split_at_space t in elim s.1 [ none ↦ s.0 ∷ [] | some rest ↦ s.0 ∷ splitn (suc k) rest ]

-- `to_uppercase`, as far as a comparison with a word of the letters S, E, T, G, D and L needs it:
-- besides the small letters only the long s, U+017F, has one of these as its upper case, and no
-- character has two letters of such a word in a row.
unfoldable pub to_upper : ℕ → ℕ
to_upper c = if leb 97 c && leb c 122 then c - 32 else if c == 0x17f then 83 else c

unfoldable pub is_verb : Text → Text → Bool
unfolding to_upper
is_verb [] [] = true
is_verb [] (w ∷ ws) = false
is_verb (c ∷ cs) [] = false
is_verb (c ∷ cs) (w ∷ ws) = to_upper c == w && is_verb cs ws

abbrev pub set_word : Text
set_word = codes "SET"

abbrev pub get_word : Text
get_word = codes "GET"

abbrev pub del_word : Text
del_word = codes "DEL"

-- `b"OK".to_vec()`
abbrev pub ok_bytes : Bytes
ok_bytes = codes "OK"

abbrev pub set_usage : AppError
set_usage = invalid_command (codes "SET requires <key> <value>")

abbrev pub get_usage : AppError
get_usage = invalid_command (codes "GET requires <key>")

abbrev pub del_usage : AppError
del_usage = invalid_command (codes "DEL requires <key>")

-- `String::into_bytes`: the UTF-8 code of a text.
unfoldable pub utf8_char : ℕ → Bytes
utf8_char c =
    if ltb c 0x80
    then c ∷ []
    else if ltb c 0x800
    then (0xc0 + c / 64) ∷ (0x80 + c % 64) ∷ []
    else if ltb c 0x10000
    then (0xe0 + c / 4096) ∷ (0x80 + c / 64 % 64) ∷ (0x80 + c % 64) ∷ []
    else (0xf0 + c / 262144) ∷ (0x80 + c / 4096 % 64) ∷ (0x80 + c / 64 % 64) ∷ (0x80 + c % 64) ∷ []

unfoldable pub into_bytes : Text → Bytes
unfolding utf8_char
into_bytes [] = []
into_bytes (c ∷ cs) = utf8_char c ++ into_bytes cs

unfoldable pub run_set : StoreMap → List Text → StoreMap × AppResult Bytes
unfolding store_insert
run_set m [] = (m, err set_usage)
run_set m (verb ∷ []) = (m, err set_usage)
run_set m (verb ∷ key ∷ []) = (m, err set_usage)
run_set m (verb ∷ key ∷ value ∷ rest) = (store_insert key value m, ok ok_bytes)

unfoldable pub run_get : StoreMap → List Text → StoreMap × AppResult Bytes
unfolding store_get into_bytes
run_get m [] = (m, err get_usage)
run_get m (verb ∷ []) = (m, err get_usage)
run_get m (verb ∷ key ∷ rest) =
    (m, ok (elim (store_get key m) as (λ _. Bytes) [ none ↦ [] | some value ↦ into_bytes value ]))

unfoldable pub run_del : StoreMap → List Text → StoreMap × AppResult Bytes
unfolding store_remove
run_del m [] = (m, err del_usage)
run_del m (verb ∷ []) = (m, err del_usage)
run_del m (verb ∷ key ∷ rest) = (store_remove key m, ok ok_bytes)

-- A text has at least one part, the first of which is the verb.
unfoldable pub run_parts : StoreMap → List Text → StoreMap × AppResult Bytes
unfolding run_set run_get run_del is_verb
run_parts m [] = (m, ok [])
run_parts m (verb ∷ rest) =
    if is_verb verb set_word
    then run_set m (verb ∷ rest)
    else if is_verb verb get_word
    then run_get m (verb ∷ rest)
    else if is_verb verb del_word
    then run_del m (verb ∷ rest)
    else (m, ok [])

unfoldable pub apply_command : StoreMap → ConsensusCommand → StoreMap × AppResult Bytes
unfolding run_parts splitn
apply_command m no_op = (m, ok [])
apply_command m (client_tx payload) = run_parts m (splitn 3 payload)
apply_command m (join_validator id key) = (m, ok [])
apply_command m (remove_validator id) = (m, ok [])

-- `bincode::serialize` and `deserialize` of the store, with the text of an error.
pub record StoreLib : Type 0 where
  pub serialize : StoreMap → AppResult Bytes
  pub deserialize : Bytes → AppResult StoreMap

module _ (lib : StoreLib) where
  unfoldable pub restore_store : StoreMap → Bytes → StoreMap × AppResult (Unit {0})
  restore_store m bs = elim (lib.deserialize bs) [ err e ↦ (m, err e) | ok m' ↦ (m', ok tt) ]

  unfoldable pub key_value_app : App
  unfolding apply_command restore_store
  key_value_app = record {
    State = StoreMap;
    apply = λ m c. apply_command m c.command;
    snapshot = λ m. lib.serialize m;
    restore = restore_store;
  }
