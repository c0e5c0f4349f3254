-- ===== src/App/KeyValue/Commands.antt =====
-- What the texts of commands do to the store, against a dictionary as a function from keys to values.
use persisthotstuff_rst.Base.{
  ◌≡◌, refl, ap, inl, inr, true, false, Option, none, some, List, [], ◌∷◌, ◌++◌, list_eq,
  Bool-cases, All, ◌==◌, if◌then◌else◌, arith,
}
use persisthotstuff_rst.Types.{
  Text, Bytes, ConsensusCommand, client_tx, no_op, join_validator, remove_validator,
}
use persisthotstuff_rst.App.{AppResult, AppError, ok, err}
use persisthotstuff_rst.App.KeyValue.{
  StoreMap, store_get, split_at_space, splitn, is_verb, set_word, get_word, del_word, ok_bytes,
  into_bytes, run_set, run_get, run_del, run_parts, apply_command,
}
use persisthotstuff_rst.App.KeyValue.Store.{
  store_get-insert, store_get-remove, IsSorted, store_insert-IsSorted, store_remove-IsSorted,
}

-- A text without spaces.
abbrev pub IsWord : Text → Type 0
IsWord t = All (λ c. (c == 32) ≡ false) t

split_at_space_word : (w : Text) → IsWord w → split_at_space w ≡ (w, none)
unfolding split_at_space
split_at_space_word [] h = refl
split_at_space_word (c ∷ w) h = ground (arith, split_at_space_word w)

split_at_space-append :
    (w rest : Text) → IsWord w → split_at_space (w ++ 32 ∷ rest) ≡ (w, some rest)
unfolding split_at_space
split_at_space-append [] rest h = refl
split_at_space-append (c ∷ w) rest h = ground (arith, split_at_space-append w rest)

is_verb-IsWord : (t w : Text) → IsWord w → is_verb t w ≡ true → IsWord t
unfolding is_verb
is_verb-IsWord [] w h v = tt
is_verb-IsWord (c ∷ t) [] h v = cc
is_verb-IsWord (c ∷ t) (d ∷ w) h v = (ground arith, is_verb-IsWord t w h.1 (ground arith))

is_verb_unique : (t v w : Text) → is_verb t v ≡ true → is_verb t w ≡ true → list_eq v w ≡ true
unfolding is_verb
is_verb_unique [] [] [] h k = refl
is_verb_unique [] [] (w ∷ ws) h k = cc
is_verb_unique [] (v ∷ vs) w h k = cc
is_verb_unique (c ∷ t) [] w h k = cc
is_verb_unique (c ∷ t) (v ∷ vs) [] h k = cc
is_verb_unique (c ∷ t) (v ∷ vs) (w ∷ ws) h k = ground (arith, is_verb_unique t vs ws)

-- The operations that a text can ask for.
pub data Operation : Type 0 where
  set : (key value : Text) → Operation
  get del : (key : Text) → Operation

abbrev pub verb_of : Operation → Text
verb_of (set key value) = set_word
verb_of (get key) = get_word
verb_of (del key) = del_word

abbrev pub key_of : Operation → Text
key_of (set key value) = key
key_of (get key) = key
key_of (del key) = key

-- The text of an operation, with the verb as it was written.
abbrev pub line : Text → Operation → Text
line verb (set key value) = verb ++ 32 ∷ (key ++ 32 ∷ value)
line verb (get key) = verb ++ 32 ∷ key
line verb (del key) = verb ++ 32 ∷ key

-- What the operation means for a dictionary, and what it answers.
abbrev pub effect : Operation → (Text → Option Text) → Text → Option Text
effect (set key value) d j = if list_eq j key then some value else d j
effect (get key) d j = d j
effect (del key) d j = if list_eq j key then none else d j

abbrev pub value_bytes : Option Text → Bytes
value_bytes none = []
value_bytes (some value) = into_bytes value

abbrev pub answer : Operation → (Text → Option Text) → Bytes
answer (set key value) d = ok_bytes
answer (get key) d = value_bytes (d key)
answer (del key) d = ok_bytes

parts_set :
    (verb key value : Text)
    → IsWord verb
    → IsWord key
    → splitn 3 (line verb (set key value)) ≡ verb ∷ key ∷ value ∷ []
unfolding splitn
parts_set verb key value v k =
    let e = split_at_space-append verb (key ++ 32 ∷ value) v in
    let f = split_at_space-append key value k in
    rw (ap (λ x. x.1) e, splitn)
      (rw (ap (λ x. x.0) e) (rw (ap (λ x. x.1) f, splitn) (rw (ap (λ x. x.0) f) refl)))

parts_key :
    (verb key : Text) → IsWord verb → IsWord key → splitn 3 (verb ++ 32 ∷ key) ≡ verb ∷ key ∷ []
unfolding splitn
parts_key verb key v k =
    let e = split_at_space-append verb key v in
    let f = split_at_space_word key k in
    rw (ap (λ x. x.1) e, splitn)
      (rw (ap (λ x. x.0) e) (rw (ap (λ x. x.1) f, splitn) (rw (ap (λ x. x.0) f) refl)))

set_word-IsWord : IsWord set_word
set_word-IsWord = (refl, (refl, (refl, tt)))

get_word-IsWord : IsWord get_word
get_word-IsWord = (refl, (refl, (refl, tt)))

del_word-IsWord : IsWord del_word
del_word-IsWord = (refl, (refl, (refl, tt)))

other_verb : (t v w : Text) → is_verb t v ≡ true → list_eq v w ≡ false → is_verb t w ≡ false
other_verb t v w h n = elim (Bool-cases (is_verb t w)) [
  | inl k ↦ ground (arith, is_verb_unique t v w)
  | inr k ↦ k
]

-- The text of an operation, its verb in letters of either case and its key without spaces, has the
-- effect of the operation on every key, and its answer.
pub apply_command-effect :
    (m : StoreMap) (verb : Text) (op : Operation)
    → is_verb verb (verb_of op) ≡ true
    → IsWord (key_of op)
    → ((j : Text)
        → store_get j (apply_command m (client_tx (line verb op))).0
          ≡ effect op (λ k. store_get k m) j)
      × ((apply_command m (client_tx (line verb op))).1 ≡ ok (answer op (λ k. store_get k m)))
unfolding apply_command run_parts run_set run_get run_del
apply_command-effect m verb (set key value) v k =
    rw (parts_set verb key value (is_verb-IsWord verb set_word set_word-IsWord v) k)
      (rw v ((λ j. store_get-insert key j value m), refl))
apply_command-effect m verb (get key) v k =
    rw (parts_key verb key (is_verb-IsWord verb get_word get_word-IsWord v) k)
      (rw (other_verb verb get_word set_word v refl) (rw v ((λ j. refl), ground arith)))
apply_command-effect m verb (del key) v k =
    rw (parts_key verb key (is_verb-IsWord verb del_word del_word-IsWord v) k) (
      rw (other_verb verb del_word set_word v refl) (
        rw (other_verb verb del_word get_word v refl)
          (rw v ((λ j. store_get-remove key j m), refl))))

-- A result that keeps the keys in order, and that leaves the store as it was if it is an error.
abbrev KeepsStore : StoreMap → StoreMap × AppResult Bytes → Type 0
KeepsStore m r = IsSorted r.0 × ((e : AppError) → r.1 ≡ err e → r.0 ≡ m)

unchanged : (m : StoreMap) (r : AppResult Bytes) → IsSorted m → KeepsStore m (m, r)
unchanged m r s = (s, λ e h. refl)

run_set_keeps : (m : StoreMap) (parts : List Text) → IsSorted m → KeepsStore m (run_set m parts)
unfolding run_set
run_set_keeps m [] s = unchanged m _ s
run_set_keeps m (verb ∷ []) s = unchanged m _ s
run_set_keeps m (verb ∷ key ∷ []) s = unchanged m _ s
run_set_keeps m (verb ∷ key ∷ value ∷ rest) s = (store_insert-IsSorted key value m s, λ e h. cc)

run_get_keeps : (m : StoreMap) (parts : List Text) → IsSorted m → KeepsStore m (run_get m parts)
unfolding run_get
run_get_keeps m [] s = unchanged m _ s
run_get_keeps m (verb ∷ []) s = unchanged m _ s
run_get_keeps m (verb ∷ key ∷ rest) s = unchanged m _ s

run_del_keeps : (m : StoreMap) (parts : List Text) → IsSorted m → KeepsStore m (run_del m parts)
unfolding run_del
run_del_keeps m [] s = unchanged m _ s
run_del_keeps m (verb ∷ []) s = unchanged m _ s
run_del_keeps m (verb ∷ key ∷ rest) s = (store_remove-IsSorted key m s, λ e h. cc)

run_parts_keeps : (m : StoreMap) (parts : List Text) → IsSorted m → KeepsStore m (run_parts m parts)
unfolding run_parts
run_parts_keeps m [] s = unchanged m _ s
run_parts_keeps m (verb ∷ rest) s = ground (
  arith,
  run_set_keeps m (verb ∷ rest),
  run_get_keeps m (verb ∷ rest),
  run_del_keeps m (verb ∷ rest),
)

-- Whatever the command, a store whose keys are in order keeps them so; and a command that fails
-- leaves the store as it was.
pub apply_command-IsSorted :
    (m : StoreMap) (c : ConsensusCommand)
    → IsSorted m
    → IsSorted (apply_command m c).0
      × ((e : AppError) → (apply_command m c).1 ≡ err e → (apply_command m c).0 ≡ m)
unfolding apply_command
apply_command-IsSorted m no_op s = unchanged m _ s
apply_command-IsSorted m (client_tx payload) s = run_parts_keeps m (splitn 3 payload) s
apply_command-IsSorted m (join_validator id key) s = unchanged m _ s
apply_command-IsSorted m (remove_validator id) s = unchanged m _ s
