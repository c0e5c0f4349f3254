-- ===== src/Replica/Overlap.antt =====
-- The quorums of a set of validators, and how many members two of them share.
use persisthotstuff_rst.Base.{
  ℕ, ◌+◌, ◌-◌, ◌*◌, ◌%◌, ◌≤◌, ◌<◌, ◌≡◌, ◌≢◌, ◌↔◌, ap, ◌∙◌, List, [], ◌++◌, length, length-append,
  arith, member, Distinct, Within, common, common-length-le, member-common, length-Within-le,
  member-append, split_at, Distinct-parts, Distinct-append, common-Distinct,
}
use mathlib.Core.Path.{subst}
use native.Mathlib.Decide.{dec_lt}
use persisthotstuff_rst.Replica.{Env, Replica, dynamic_n, dynamic_f, dynamic_quorum_size}
use persisthotstuff_rst.Replica.Leader.{dynamic_quorum_bounds, dynamic_quorum_overlap_iff}

-- Two groups of `q` members each that share `m` at most, if all members are at least 2q - m.
record Groups (all : List ℕ) (q m : ℕ) : Type 0 where
  left : List ℕ
  right : List ℕ
  left_distinct : Distinct left
  right_distinct : Distinct right
  left_within : Within left all
  right_within : Within right all
  left_size : length left ≡ q
  right_size : length right ≡ q
  shared : length (common left right) ≤ m

groups : (all : List ℕ) (q m : ℕ) → Distinct all → m ≤ q → (q - m) + q ≤ length all → Groups all q m
groups all q m d le size =
    let s = split_at (q - m) all (omega arith) in
    let a = s.0 in
    let r = s.1 in
    let size_r : q ≤ length r = omega (arith, ap length s.2, length-append a r, s.3) in
    let t = split_at m r (omega (arith, size_r)) in
    let b = t.0 in
    let u = t.1 in
    let v = split_at (q - m) u (omega (arith, size_r, ap length t.2, length-append b u, t.3)) in
    let c = v.0 in
    let w = v.1 in
    let p = Distinct-parts a r (subst Distinct s.2 d) in
    let k = Distinct-parts b u (subst Distinct t.2 p.1) in
    let l = Distinct-parts c w (subst Distinct v.2 k.1) in
    let in_all = λ (i : ℕ). ap (member i) s.2 ∙ member-append i a r in
    let in_r = λ (i : ℕ). ap (member i) t.2 ∙ member-append i b u in
    let in_u = λ (i : ℕ). ap (member i) v.2 ∙ member-append i c w in
    record {
      left = a ++ b;
      right = b ++ c;
      left_distinct = Distinct-append a b p.0 k.0 (λ i h. ground (arith, p.2 i h, in_r i));
      right_distinct = Distinct-append b c k.0 l.0 (λ i h. ground (arith, k.2 i h, in_u i));
      left_within = λ i h. ground (arith, member-append i a b, in_all i, in_r i);
      right_within = λ i h. ground (arith, member-append i b c, in_all i, in_r i, in_u i);
      left_size = omega (arith, length-append a b, s.3, t.3);
      right_size = omega (arith, length-append b c, t.3, v.3);
      shared = omega (
        arith,
        t.3,
        length-Within-le (common (a ++ b) (b ++ c)) b
            (common-Distinct (a ++ b) (b ++ c)
              (Distinct-append a b p.0 k.0 (λ i h. ground (arith, p.2 i h, in_r i))))
            (λ i h.
              let both = member-common i (a ++ b) (b ++ c) h in
              ground (
                arith,
                both.0,
                both.1,
                member-append i a b,
                member-append i b c,
                p.2 i,
                in_r i,
                in_u i,
              )),
      );
    }

module _ (env : Env) where
  -- A group of active validators that is large enough for a quorum.
  pub record IsQuorum (r : Replica env) (ids : List ℕ) : Type 0 where
    pub distinct : Distinct ids
    pub within : Within ids r.active_validators
    pub enough : dynamic_quorum_size env r ≤ length ids

  -- Any two quorums of the active validators share more than f of them, and so one that is not
  -- faulty, exactly when the number of validators is 3f + 1; for any other number of validators
  -- there are two quorums that share f members at most. The validators are a set that is not empty.
  pub quorums_share_iff :
      (r : Replica env)
      → r.active_validators ≢ []
      → Distinct r.active_validators
      → ((xs ys : List ℕ) → IsQuorum r xs → IsQuorum r ys → dynamic_f env r < length (common xs ys))
        ↔ (dynamic_n env r % 3 ≡ 1)
  unfolding dynamic_quorum_size dynamic_n
  quorums_share_iff r some_active d = (share, λ h xs ys a b. overlap h xs ys a b)
    where
      n : ℕ
      n = length r.active_validators

      enough : (dynamic_n env r % 3 ≡ 1) → n + dynamic_f env r < 2 * dynamic_quorum_size env r
      enough h = (dynamic_quorum_overlap_iff env r some_active).1 h

      overlap :
          dynamic_n env r % 3 ≡ 1
          → (xs ys : List ℕ) → IsQuorum r xs
          → IsQuorum r ys
          → dynamic_f env r < length (common xs ys)
      overlap h xs ys a b = omega (
        arith,
        enough h,
        common-length-le xs ys r.active_validators a.distinct b.distinct a.within b.within,
        a.enough,
        b.enough,
      )

      share :
          ((xs ys : List ℕ)
            → IsQuorum r xs
            → IsQuorum r ys
            → dynamic_f env r < length (common xs ys))
          → dynamic_n env r % 3 ≡ 1
      share f = elim (dec_lt (n + dynamic_f env r) (2 * dynamic_quorum_size env r)) [
        | yes h ↦ (dynamic_quorum_overlap_iff env r some_active).0 h
        | no h ↦
            let q = dynamic_quorum_size env r in
            let m = 2 * q - n in
            let bounds = dynamic_quorum_bounds env r some_active in
            let g =
              groups r.active_validators q m d (omega (arith, bounds)) (omega (arith, bounds)) in
            absurd (
              omega (
                arith,
                h,
                g.shared,
                f g.left g.right
                    (record {
                      distinct = g.left_distinct;
                      within = g.left_within;
                      enough = omega (arith, g.left_size);
                    })
                    (record {
                      distinct = g.right_distinct;
                      within = g.right_within;
                      enough = omega (arith, g.right_size);
                    }),
              ))
      ]
