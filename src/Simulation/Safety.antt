-- ===== src/Simulation/Safety.antt =====
-- What `verify_safety` checks.
use persisthotstuff_rst.Base.{
  ℕ, zero, suc, ◌+◌, ◌≡◌, ◌↔◌, refl, sym, ap, ◌∙◌, inl, inr, true, false, some, List, [], ◌∷◌,
  get_elem?, arith, ◌==◌, ◌||◌, Bool-cases,
}
use mathlib.Core.Path.{subst}
use persisthotstuff_rst.BTree.{BTreeSet, contains}
use persisthotstuff_rst.Types.{Block}
use persisthotstuff_rst.Replica.{Env, Replica}
use persisthotstuff_rst.Simulation.{Simulation, is_crashed}
use persisthotstuff_rst.Simulation.Check.{
  logs_agree, first_not_crashed, agree_with, check_logs, verify_safety,
}

-- Two logs have the same hash at each place that both have.
abbrev pub LogsAgree : List Block → List Block → Type 0
LogsAgree xs ys =
    (i : ℕ) (a b : Block) → get_elem? xs i ≡ some a → get_elem? ys i ≡ some b → a.hash ≡ b.hash

module _ (env : Env) where
  pub logs_agree_sound : (xs ys : List Block) → logs_agree env xs ys ≡ true → LogsAgree xs ys
  unfolding logs_agree
  logs_agree_sound [] ys h i a b g k = cc
  logs_agree_sound (x ∷ xs) [] h i a b g k = cc
  logs_agree_sound (x ∷ xs) (y ∷ ys) h zero a b g k =
      let e : x ≡ a = ground arith in
      let f : y ≡ b = ground arith in
      ap (λ z. z.hash) (sym e) ∙ ground (arith, h) ∙ ap (λ z. z.hash) f
  logs_agree_sound (x ∷ xs) (y ∷ ys) h (suc i) a b g k =
      logs_agree_sound xs ys (ground arith) i a b g k

  logs_agree_complete : (xs ys : List Block) → LogsAgree xs ys → logs_agree env xs ys ≡ true
  unfolding logs_agree
  logs_agree_complete [] ys h = refl
  logs_agree_complete (x ∷ xs) [] h = refl
  logs_agree_complete (x ∷ xs) (y ∷ ys) h =
      ground (arith, h 0 x y refl refl, logs_agree_complete xs ys (λ i a b g k. h (suc i) a b g k))

  -- The replicas that the loop looks at, from index `id` on.
  Checked : BTreeSet → ℕ → List Block → ℕ → List (Replica env) → Type 0
  Checked crashed ref log id rs =
      (k : ℕ) (q : Replica env)
      → get_elem? rs k ≡ some q
      → (id + k == ref) ≡ false
      → contains (id + k) crashed ≡ false
      → LogsAgree log q.committed_log

  agree_with_sound :
      (crashed : BTreeSet) (ref : ℕ) (log : List Block) (id : ℕ) (rs : List (Replica env))
      → agree_with env crashed ref log id rs ≡ true
      → Checked crashed ref log id rs
  unfolding agree_with Checked
  agree_with_sound crashed ref log id [] h k q g n c = cc
  agree_with_sound crashed ref log id (r ∷ rs) h zero q g n c =
      let e : r ≡ q = ground arith in
      logs_agree_sound log q.committed_log
        (ground (arith, ap (λ (x : Replica env). x.committed_log) e))
  agree_with_sound crashed ref log id (r ∷ rs) h (suc k) q g n c =
      agree_with_sound crashed ref log (id + 1) rs (ground arith) k q g (ground arith)
        (ground arith)

  agree_with_complete :
      (crashed : BTreeSet) (ref : ℕ) (log : List Block) (id : ℕ) (rs : List (Replica env))
      → Checked crashed ref log id rs
      → agree_with env crashed ref log id rs ≡ true
  unfolding agree_with Checked
  agree_with_complete crashed ref log id [] h = refl
  agree_with_complete crashed ref log id (r ∷ rs) h =
      let rest =
        agree_with_complete crashed ref log (id + 1) rs
          (λ k q g n c. h (suc k) q g (ground arith) (ground arith)) in
      elim (Bool-cases (id == ref || contains id crashed)) [
        | inl t ↦ ground (arith, rest)
        | inr f ↦ ground (
          arith,
          rest,
          logs_agree_complete log r.committed_log (h 0 r refl (ground arith) (ground arith)),
        )
      ]

  first_not_crashed-some :
      (crashed : BTreeSet) (id : ℕ) (rs : List (Replica env)) (j : ℕ) (r : Replica env)
      → first_not_crashed env crashed id rs ≡ some (j, r)
      → (k : ℕ) × (j ≡ id + k) × (get_elem? rs k ≡ some r) × (contains j crashed ≡ false)
  unfolding first_not_crashed
  first_not_crashed-some crashed id [] j r h = cc
  first_not_crashed-some crashed id (q ∷ rs) j r h = elim (Bool-cases (contains id crashed)) [
    | inl t ↦
        let p = first_not_crashed-some crashed (id + 1) rs j r (ground arith) in
        (suc p.0, omega (arith, p.1), p.2, p.3)
    | inr f ↦ (0, ground arith, ground arith, ground arith)
  ]

  pub LogsAgree-refl : (xs : List Block) → LogsAgree xs xs
  LogsAgree-refl xs i a b g k = let e : a ≡ b = ground arith in ap (λ (x : Block). x.hash) e

  -- The first replica is the reference unless it is crashed.
  first_is_reference :
      (crashed : BTreeSet) (first : Replica env) (others : List (Replica env)) (id : ℕ)
      (r : Replica env)
      → first_not_crashed env crashed 0 (first ∷ others) ≡ some (id, r)
      → contains 0 crashed ≡ false
      → first ≡ r
  unfolding first_not_crashed
  first_is_reference crashed first others id r f c = ground arith

  reference_agrees : (r q : Replica env) → r ≡ q → LogsAgree r.committed_log q.committed_log
  reference_agrees r q e =
      subst (λ (x : Replica env). LogsAgree r.committed_log x.committed_log) e
        (LogsAgree-refl r.committed_log)

  check_logs_sound :
      (crashed : BTreeSet) (first : Replica env) (others : List (Replica env)) (id : ℕ)
      (r : Replica env)
      → first_not_crashed env crashed 0 (first ∷ others) ≡ some (id, r)
      → agree_with env crashed id r.committed_log 1 others ≡ true
      → (j : ℕ) (q : Replica env) → get_elem? (first ∷ others) j ≡ some q
      → contains j crashed ≡ false
      → LogsAgree r.committed_log q.committed_log
  unfolding Checked
  check_logs_sound crashed first others id r f a zero q g c =
      reference_agrees r q (sym (first_is_reference crashed first others id r f c) ∙ ground arith)
  check_logs_sound crashed first others id r f a (suc j) q g c = elim (Bool-cases (suc j == id)) [
    | inr n ↦
        agree_with_sound crashed id r.committed_log 1 others a j q g (ground arith) (ground arith)
    | inl t ↦
        let p = first_not_crashed-some crashed 0 (first ∷ others) id r f in
        let e : suc j ≡ p.0 = ground (arith, p.1) in
        reference_agrees r q (ground (arith, g, p.2, ap (get_elem? (first ∷ others)) e))
  ]

  -- Where some replica is not crashed, the check passes exactly when the first such replica's
  -- committed log agrees with the one of every replica that is not crashed, at each place that both
  -- have. Places beyond the end of the first one's log are not compared.
  pub verify_safety_iff :
      (s : Simulation env) (id : ℕ) (r : Replica env)
      → first_not_crashed env s.crashed_replicas 0 s.replicas ≡ some (id, r)
      → (verify_safety env s ≡ true) ↔ (
          (j : ℕ) (q : Replica env)
          → get_elem? s.replicas j ≡ some q
          → is_crashed env s j ≡ false
          → LogsAgree r.committed_log q.committed_log)
  unfolding is_crashed verify_safety check_logs first_not_crashed Checked
  verify_safety_iff s id r h = go s.crashed_replicas s.replicas h
    where
      go :
          (crashed : BTreeSet) (rs : List (Replica env))
          → first_not_crashed env crashed 0 rs ≡ some (id, r)
          → (check_logs env crashed rs ≡ true) ↔ (
              (j : ℕ) (q : Replica env)
              → get_elem? rs j ≡ some q
              → contains j crashed ≡ false
              → LogsAgree r.committed_log q.committed_log)
      go crashed [] f = cc
      go crashed (first ∷ others) f = (
        (λ t. check_logs_sound crashed first others id r f (ground arith)),
        (λ k. ground (
          arith,
          agree_with_complete crashed id r.committed_log 1 others
              (λ j q g n c. k (suc j) q g (ground arith)),
        )),
      )
