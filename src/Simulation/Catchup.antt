-- ===== src/Simulation/Catchup.antt =====
-- What a recovered replica keeps and reaches when it catches up with the live replicas.
use persisthotstuff_rst.Base.{
  ℕ, zero, suc, ◌+◌, ◌-◌, ◌^◌, ◌<◌, ◌≤◌, ◌≡◌, refl, sym, ◌∙◌, inl, inr, false, Option, none, some,
  List, [], ◌∷◌, length, get_elem?, All, ltb, ◌&&◌, if◌then◌else◌, max, ◌==◌, arith, Bool-cases,
}
use mathlib.Core.Path.{subst}
use persisthotstuff_rst.BTree.{BTreeSet, contains, insert_key}
use persisthotstuff_rst.BTree.SetLaws.{contains-insert_key}
use persisthotstuff_rst.Types.{Block, saturating_suc}
use persisthotstuff_rst.Wal.Entry.{timeout}
use persisthotstuff_rst.Replica.{Env, Replica, log}
use persisthotstuff_rst.Replica.Pacemaker.{advance_view_with_reason}
use persisthotstuff_rst.Simulation.{Simulation, is_crashed}
use persisthotstuff_rst.Simulation.Election.{max_view}
use persisthotstuff_rst.Simulation.Check.{first_not_crashed, logs_agree}
use persisthotstuff_rst.Simulation.Rejoin.{
  import_missing, reach_view, sync_from, adopt_log, adopt_high_qc, raise_next_hash, rejoining,
}
use persisthotstuff_rst.Simulation.Safety.{LogsAgree, LogsAgree-refl, logs_agree_sound}

-- The second log has all hashes of the first, at the same places.
abbrev pub Extends : List Block → List Block → Type 0
Extends xs ys = (length xs ≤ length ys) × LogsAgree xs ys

module _ (env : Env) where
  -- The log only grows, and the view never falls.
  pub record Advances (r s : Replica env) : Type 0 where
    pub log : Extends r.committed_log s.committed_log
    pub view : r.current_view ≤ s.current_view

  advance_view_lem :
      (r : Replica env) (now : ℕ)
      → ((advance_view_with_reason env r timeout now).committed_log ≡ r.committed_log)
        × ((advance_view_with_reason env r timeout now).current_view
            ≡ saturating_suc r.current_view)
  unfolding advance_view_with_reason log
  advance_view_lem r now = ground arith

  reach_view_lem :
      (fuel target : ℕ) (r : Replica env) (now : ℕ)
      → target < 2 ^ 64
      → target - r.current_view < fuel
      → (s : Replica env) × (reach_view env fuel target r now ≡ some s)
        × (s.committed_log ≡ r.committed_log)
        × (r.current_view ≤ s.current_view)
        × (target ≤ s.current_view)
  unfolding reach_view
  reach_view_lem zero target r now b h = absurd (omega arith)
  reach_view_lem (suc fuel) target r now b h = elim (Bool-cases (ltb r.current_view target)) [
    | inr f ↦ (r, ground arith, refl, omega arith, ground arith)
    | inl t ↦
        let a = advance_view_lem r now in
        let s =
          reach_view_lem fuel target (advance_view_with_reason env r timeout now) now b
            (ground (arith, a.1)) in
        (s.0, ground (arith, s.1), s.2 ∙ a.0, ground (arith, s.3, a.1), s.4)
  ]

  adopt_log-Extends :
      (donor r : Replica env) → Extends r.committed_log (adopt_log env donor r).committed_log
  unfolding adopt_log
  adopt_log-Extends donor r =
      elim (Bool-cases (
        ltb (length r.committed_log) (length donor.committed_log)
        && logs_agree env r.committed_log donor.committed_log)) [
          | inl t ↦ ground (arith, logs_agree_sound env r.committed_log donor.committed_log)
          | inr f ↦
              let e : (adopt_log env donor r).committed_log ≡ r.committed_log = ground arith in
              subst (Extends r.committed_log) (sym e)
                (omega arith, LogsAgree-refl env r.committed_log)
        ]

  -- The steps after `adopt_log`.
  sync_end_lem :
      (donor r : Replica env)
      → ((raise_next_hash env (adopt_high_qc env donor r)).committed_log ≡ r.committed_log)
        × ((raise_next_hash env (adopt_high_qc env donor r)).current_view ≡ r.current_view)
  unfolding adopt_high_qc raise_next_hash
  sync_end_lem donor r = ground arith

  pub sync_from_lem :
      (donor r : Replica env)
      → Extends r.committed_log (sync_from env donor r).committed_log
        × ((sync_from env donor r).current_view ≡ r.current_view)
  unfolding sync_from adopt_log
  sync_from_lem donor r =
      let r1 = record r { block_tree = import_missing donor.block_tree r.block_tree } in
      let e = sync_end_lem donor (adopt_log env donor r1) in
      (
        subst (Extends r.committed_log) (sym (e.0)) (adopt_log-Extends donor r1),
        ground (arith, e.1),
      )

  pub Extends-refl : (xs : List Block) → Extends xs xs
  Extends-refl xs = (omega arith, LogsAgree-refl env xs)

  -- The number is at most the greatest view.
  Covers : Option ℕ → ℕ → Type 0
  Covers none n = ⊥
  Covers (some v) n = n ≤ v

  Bounded : Option ℕ → Type 0
  Bounded none = Unit {0}
  Bounded (some v) = v < 2 ^ 64

  max_view_keeps :
      (out : BTreeSet) (id : ℕ) (rs : List (Replica env)) (best : Option ℕ) (n : ℕ)
      → Covers best n
      → Covers (max_view env out id rs best) n
  unfolding max_view Covers
  max_view_keeps out id [] best n h = h
  max_view_keeps out id (r ∷ rs) none n h = absurd h
  max_view_keeps out id (r ∷ rs) (some v) n h = elim (Bool-cases (contains id out)) [
    | inl t ↦ ground (arith, max_view_keeps out (id + 1) rs (some v) n h)
    | inr f ↦
        ground
          (arith, max_view_keeps out (id + 1) rs (some (max v r.current_view)) n (ground arith))
  ]

  max_view-Covers :
      (out : BTreeSet) (id : ℕ) (rs : List (Replica env)) (best : Option ℕ) (k : ℕ)
      (q : Replica env)
      → get_elem? rs k ≡ some q
      → contains (id + k) out ≡ false
      → Covers (max_view env out id rs best) q.current_view
  unfolding max_view Covers
  max_view-Covers out id [] best k q g c = cc
  max_view-Covers out id (r ∷ rs) best zero q g c =
      let e : r ≡ q = ground arith in
      let w : ℕ = elim best as (λ _. ℕ) [ none ↦ r.current_view | some v ↦ max v r.current_view ] in
      let le : r.current_view ≤ w = ground arith in
      subst (λ (x : Replica env). Covers (max_view env out id (r ∷ rs) best) x.current_view) e
        (ground (arith, max_view_keeps out (id + 1) rs (some w) r.current_view le))
  max_view-Covers out id (r ∷ rs) best (suc k) q g c =
      max_view-Covers out (id + 1) rs
        (if contains id out
          then best
          else some
              (elim best as (λ _. ℕ) [ none ↦ r.current_view | some v ↦ max v r.current_view ]))
        k q g (ground arith)

  max_view-Bounded :
      (out : BTreeSet) (id : ℕ) (rs : List (Replica env)) (best : Option ℕ)
      → All (λ (q : Replica env). q.current_view < 2 ^ 64) rs
      → Bounded best
      → Bounded (max_view env out id rs best)
  unfolding max_view Bounded
  max_view-Bounded out id [] best h b = b
  max_view-Bounded out id (r ∷ rs) best h b =
      max_view-Bounded out (id + 1) rs
        (if contains id out
          then best
          else some
              (elim best as (λ _. ℕ) [ none ↦ r.current_view | some v ↦ max v r.current_view ]))
        h.1 (ground (arith, h.0))

  -- The state sync with the donor, if there is one.
  synced_lem :
      (donor : Option (ℕ × Replica env)) (r : Replica env)
      → Extends r.committed_log
          (elim donor as (λ _. Replica env) [
            | none ↦ r
            | some (idx, d) ↦ sync_from env d r
          ]).committed_log
        × ((elim donor as (λ _. Replica env) [
          | none ↦ r
          | some (idx, d) ↦ sync_from env d r
        ]).current_view
            ≡ r.current_view)
  synced_lem none r = (Extends-refl r.committed_log, refl)
  synced_lem (some (idx, d)) r = sync_from_lem d r

  target_lem :
      (best : Option ℕ) (own : ℕ)
      → own < 2 ^ 64
      → Bounded best
      → ((elim best as (λ _. ℕ) [ none ↦ own | some v ↦ v ]) < 2 ^ 64)
        × ((n : ℕ) → Covers best n → n ≤ (elim best as (λ _. ℕ) [ none ↦ own | some v ↦ v ]))
  unfolding Bounded Covers
  target_lem none own h b = (h, λ n c. absurd c)
  target_lem (some v) own h b = (b, λ n c. c)

  -- With views below 2^64 the catch-up ends, keeps the committed log of the recovered replica and
  -- reaches the view of every other replica that is not crashed.
  pub rejoining_lem :
      (s : Simulation env) (id : ℕ) (r : Replica env) (now : ℕ)
      → All (λ (q : Replica env). q.current_view < 2 ^ 64) s.replicas
      → r.current_view < 2 ^ 64
      → (t : Replica env) × (rejoining env s id r now ≡ some t)
        × Advances r t
        × ((j : ℕ) (q : Replica env)
            → get_elem? s.replicas j ≡ some q
            → is_crashed env s j ≡ false
            → (j == id) ≡ false
            → q.current_view ≤ t.current_view)
  unfolding rejoining is_crashed Bounded
  rejoining_lem s id r now b v =
      let out = insert_key id s.crashed_replicas in
      let best = max_view env out 0 s.replicas none in
      let donor = first_not_crashed env out 0 s.replicas in
      let synced : Replica env = elim donor as (λ _. Replica env) [
        | none ↦ r
        | some (idx, d) ↦ sync_from env d r
      ] in
      let sy = synced_lem donor r in
      let tg =
        target_lem best synced.current_view (rw (sy.1) v)
          (max_view-Bounded out 0 s.replicas none b tt) in
      let target = elim best as (λ _. ℕ) [ none ↦ synced.current_view | some w ↦ w ] in
      let t =
        reach_view_lem (suc (target - synced.current_view)) target synced now tg.0 (omega arith) in
      (
        t.0,
        t.1,
        record {
          log = subst (Extends r.committed_log) (sym (t.2)) sy.0;
          view = omega (arith, t.3, sy.1);
        },
        (λ j q g c n.
            let covered =
              max_view-Covers out 0 s.replicas none j q g
                (ground (arith, contains-insert_key id j s.crashed_replicas)) in
            omega (arith, t.4, tg.1 q.current_view covered)),
      )
