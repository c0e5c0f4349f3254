-- ===== src/Simulation/Leader.antt =====
-- The leader that a round of the cluster is given.
use persisthotstuff_rst.Base.{
  ℕ, zero, suc, ◌+◌, ◌-◌, ◌%◌, ◌<◌, ◌≤◌, ◌≡◌, refl, sym, ap, ◌∙◌, false, none, some, List, [], ◌∷◌,
  length, get_elem?, arith,
}
use native.Mathlib.Decide.{ℕ_discrete as dec_eq}
use native.Mathlib.Nat.{mod-lt}
use persisthotstuff_rst.BTree.{BTreeSet, contains}
use persisthotstuff_rst.Replica.{Env, Replica}
use persisthotstuff_rst.Replica.Leader.{reach_view}
use persisthotstuff_rst.Simulation.{Simulation, is_crashed}
use persisthotstuff_rst.Simulation.Election.{first_live, max_view, current_leader}

module _ (env : Env) where
  get_elem?_below :
      (rs : List (Replica env)) (i : ℕ) (r : Replica env) → get_elem? rs i ≡ some r → i < length rs
  get_elem?_below [] i r g = cc
  get_elem?_below (x ∷ rs) zero r g = omega arith
  get_elem?_below (x ∷ rs) (suc i) r g = omega (arith, get_elem?_below rs i r g)

  get_elem?_of_below :
      (rs : List (Replica env)) (i : ℕ)
      → i < length rs
      → (r : Replica env) × (get_elem? rs i ≡ some r)
  get_elem?_of_below [] i h = absurd (omega arith)
  get_elem?_of_below (x ∷ rs) zero h = (x, refl)
  get_elem?_of_below (x ∷ rs) (suc i) h = get_elem?_of_below rs i (omega arith)

  first_live_lem :
      (crashed : BTreeSet) (n base left offset k : ℕ)
      → 0 < n
      → offset ≤ k
      → k < offset + left
      → contains ((base + k) % n) crashed ≡ false
      → (contains (first_live env crashed n base left offset) crashed ≡ false)
        × (first_live env crashed n base left offset < n)
  unfolding first_live
  first_live_lem crashed n base zero offset k p a b c = absurd (omega arith)
  first_live_lem crashed n base (suc left) offset k p a b c = elim (dec_eq k offset) [
    | yes e ↦
        let c' = ap (λ x. contains ((base + x) % n) crashed) (sym e) ∙ c in
        ground (arith, c', mod-lt (base + offset) {m = n})
    | no d ↦ ground (
      arith,
      first_live_lem crashed n base left (offset + 1) k p (omega arith) (omega arith) c,
      mod-lt (base + offset) {m = n},
    )
  ]

  -- From any base the search finds a live replica, if there is one.
  first_live_found :
      (crashed : BTreeSet) (n base id : ℕ)
      → id < n
      → contains id crashed ≡ false
      → (contains (first_live env crashed n base n 0) crashed ≡ false)
        × (first_live env crashed n base n 0 < n)
  first_live_found crashed n base id h c =
      let v = reach_view base n id h in
      let e : base + (v.0 - base) ≡ v.0 = omega (arith, v.1, v.2) in
      first_live_lem crashed n base n 0 (v.0 - base) (omega arith) (omega arith)
        (omega (arith, v.1, v.2))
        (ap (λ x. contains (x % n) crashed) e ∙ ap (λ x. contains x crashed) (v.3) ∙ c)

  -- As long as some replica of the cluster is not crashed, the leader of a round is a replica of
  -- the cluster that is not crashed.
  pub current_leader_is_live :
      (s : Simulation env) (id : ℕ) (r : Replica env)
      → get_elem? s.replicas id ≡ some r
      → is_crashed env s id ≡ false
      → (l : Replica env) × (get_elem? s.replicas (current_leader env s) ≡ some l)
        × (is_crashed env s (current_leader env s) ≡ false)
  unfolding current_leader is_crashed
  current_leader_is_live s id r g c =
      let below = get_elem?_below s.replicas id r g in
      let base = elim (max_view env s.crashed_replicas 0 s.replicas none) as (λ _. ℕ) [
        | none ↦ 0
        | some v ↦ v
      ] in
      let live = first_live_found s.crashed_replicas (length s.replicas) base id below c in
      let e : current_leader env s
          ≡ first_live env s.crashed_replicas (length s.replicas) base (length s.replicas) 0 =
        ground arith in
      let l = get_elem?_of_below s.replicas (current_leader env s) (rw (e) live.1) in
      (l.0, l.1, rw (e) live.0)
