-- ===== src/Simulation/Extension.antt =====
-- A log that begins with the hashes of another.
use persisthotstuff_rst.Base.{
  ℕ, zero, suc, ◌≡◌, sym, ap, ◌∙◌, some, List, [], ◌∷◌, ◌++◌, length-append, get_elem?, arith,
}
use mathlib.Core.Path.{subst}
use persisthotstuff_rst.Types.{Block}
use persisthotstuff_rst.Simulation.Catchup.{Extends}
use persisthotstuff_rst.Simulation.Recovered.{get_below, below_length}

pub Extends-trans : (xs ys zs : List Block) → Extends xs ys → Extends ys zs → Extends xs zs
Extends-trans xs ys zs e f = (
  omega (arith, e.0, f.0),
  λ i a c g k.
      let m = get_below ys i (omega (arith, e.0, below_length xs i a g)) in
      e.1 i a m.0 g m.1 ∙ f.1 i m.0 c m.1 k,
)

get_elem?-append_left :
    (xs ys : List Block) (i : ℕ) (a b : Block)
    → get_elem? xs i ≡ some a
    → get_elem? (xs ++ ys) i ≡ some b
    → a ≡ b
get_elem?-append_left [] ys i a b g k = cc
get_elem?-append_left (x ∷ xs) ys zero a b g k = ground arith
get_elem?-append_left (x ∷ xs) ys (suc i) a b g k = get_elem?-append_left xs ys i a b g k

pub Extends-append : (xs ys since : List Block) → ys ≡ xs ++ since → Extends xs ys
Extends-append xs ys since e = subst (Extends xs) (sym e) (
  omega (arith, length-append xs since),
  λ i a b g k. ap (λ (x : Block). x.hash) (get_elem?-append_left xs since i a b g k),
)
