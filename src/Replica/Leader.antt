-- ===== src/Replica/Leader.antt =====
-- Leader election and quorum size over the active validator set.
use persisthotstuff_rst.Base.{
  ℕ, zero, suc, ◌+◌, ◌-◌, ◌*◌, ◌/◌, ◌%◌, ◌≤◌, ◌<◌, ◌≡◌, ◌≢◌, ◌↔◌, refl, sym, ap, ◌∙◌, true, some,
  List, [], ◌∷◌, length, get_elem?, arith,
}
use native.Mathlib.Decide.{dec_lt, ℕ_discrete as dec_eq}
use native.Mathlib.Nat.{mul-add-mod_self_left, mod-eq_of_lt, mod-lt, div-add-mod}
use persisthotstuff_rst.BTree.{BTreeSet, contains}
use persisthotstuff_rst.Types.{ReplicaId}
use persisthotstuff_rst.Replica.{
  Env, Replica, leader_among, dynamic_n, dynamic_f, dynamic_quorum_size, dynamic_leader_for_view,
}

pub get_elem?_in :
    (s : List ℕ) (i : ℕ)
    → i < length s
    → (id : ℕ) × (get_elem? s i ≡ some id) × (contains id s ≡ true)
unfolding contains
get_elem?_in [] i h = absurd (omega arith)
get_elem?_in (x ∷ s) zero h = (x, refl, ground arith)
get_elem?_in (x ∷ s) (suc i) h = let r = get_elem?_in s i (omega arith) in (r.0, r.1, ground arith)

position_of :
    (s : List ℕ) (id : ℕ)
    → contains id s ≡ true
    → (i : ℕ) × (i < length s) × (get_elem? s i ≡ some id)
unfolding contains
position_of [] id h = cc
position_of (x ∷ s) id h = elim (dec_eq id x) [
  | yes e ↦ (0, omega arith, ap some (sym e))
  | no n ↦ let r = position_of s id (ground arith) in (suc r.0, omega arith, r.2)
]

pub offset_mod : (n q i : ℕ) → i < n → (n * q + i) % n ≡ i
offset_mod n q i h = mul-add-mod_self_left n q i ∙ mod-eq_of_lt h

-- Among any n consecutive views there is one of the given remainder.
pub reach_view : (start n i : ℕ) → i < n → (v : ℕ) × (start ≤ v) × (v < start + n) × (v % n ≡ i)
reach_view start n i h = elim (dec_lt i (start % n)) [
  | yes below ↦ (
    start + (n - start % n) + i,
    omega (arith, mod-lt start {m = n}),
    omega (arith, mod-lt start {m = n}),
    ap (λ v. v % n) (wrapped below) ∙ offset_mod n (start / n + 1) i h,
  )
  | no above ↦ (
    start + (i - start % n),
    omega arith,
    omega arith,
    ap (λ v. v % n) (same above) ∙ offset_mod n (start / n) i h,
  )
]
  where
    split : n * (start / n) + start % n ≡ start
    split = div-add-mod start n

    wrapped : i < start % n → start + (n - start % n) + i ≡ n * (start / n + 1) + i
    wrapped below = omega (arith, split, mod-lt start {m = n} (omega arith))

    same : ¬ (i < start % n) → start + (i - start % n) ≡ n * (start / n) + i
    same above = omega (arith, split)

length-pos : (s : List ℕ) → s ≢ [] → 0 < length s
length-pos [] h = absurd (h refl)
length-pos (x ∷ s) h = omega arith

pub leader_at :
    (s : BTreeSet) (own view i id : ℕ)
    → view % length s ≡ i
    → get_elem? s i ≡ some id
    → leader_among s own view ≡ id
unfolding leader_among
leader_at [] own view i id m g = cc
leader_at (x ∷ s) own view i id m g = rw (m, leader_among) (rw g)

leader_among_active :
    (s : BTreeSet) (own view : ℕ) → s ≢ [] → contains (leader_among s own view) s ≡ true
leader_among_active [] own view h = absurd (h refl)
leader_among_active (x ∷ s) own view h =
    let g = get_elem?_in (x ∷ s) (view % length (x ∷ s)) (mod-lt view (omega arith)) in
    rw (leader_at (x ∷ s) own view _ g.0 refl g.1) g.2

module _ (env : Env) where
  -- The leader of every view is an active validator.
  pub leader_is_active :
      (r : Replica env) (view : ℕ)
      → r.active_validators ≢ []
      → contains (dynamic_leader_for_view env r view) r.active_validators ≡ true
  unfolding dynamic_leader_for_view leader_among
  leader_is_active r view h = leader_among_active r.active_validators r.config.id view h

  -- The election is fair: among any n consecutive views, n the number of active validators, every
  -- active validator leads one.
  pub leader_rotates :
      (r : Replica env) (id : ReplicaId) (start : ℕ)
      → contains id r.active_validators ≡ true
      → (view : ℕ) × (start ≤ view)
        × (view < start + length r.active_validators)
        × (dynamic_leader_for_view env r view ≡ id)
  unfolding dynamic_leader_for_view
  leader_rotates r id start h =
      let p = position_of r.active_validators id h in
      let v = reach_view start (length r.active_validators) p.0 p.1 in
      (v.0, v.1, v.2, leader_at r.active_validators r.config.id v.0 p.0 id v.3 p.2)

  -- Of n > 0 validators the threshold f is the greatest number with 3f + 1 ≤ n, and a quorum can be
  -- had without f of them.
  pub dynamic_quorum_bounds :
      (r : Replica env)
      → r.active_validators ≢ []
      → (3 * dynamic_f env r + 1 ≤ dynamic_n env r)
        × (dynamic_n env r < 3 * (dynamic_f env r + 1) + 1)
        × (dynamic_quorum_size env r + dynamic_f env r ≤ dynamic_n env r)
  unfolding dynamic_quorum_size
  dynamic_quorum_bounds r h =
      let n = length-pos r.active_validators h in
      (ground (arith, n), ground (arith, n), ground (arith, n))

  -- Two quorums of the n > 0 validators always share more than f of them exactly when n is 3f + 1.
  pub dynamic_quorum_overlap_iff :
      (r : Replica env)
      → r.active_validators ≢ []
      → (dynamic_n env r + dynamic_f env r < 2 * dynamic_quorum_size env r)
        ↔ (dynamic_n env r % 3 ≡ 1)
  unfolding dynamic_quorum_size
  dynamic_quorum_overlap_iff r h =
      let n = length-pos r.active_validators h in
      (λ p. ground (arith, n, p), λ p. ground (arith, n, p))
