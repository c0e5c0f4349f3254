-- ===== src/Replica/Commit/Chain.antt =====
-- `find_committed_block` against the 3-chain rule: B0 ← B1[QC] ← B2[QC].
use persisthotstuff_rst.Base.{
  ◌≡◌, ◌≢◌, inl, inr, true, false, none, some, List, find, is_some, arith, In, Option-cases,
  find-some, find-none,
}
use persisthotstuff_rst.BTree
use persisthotstuff_rst.Types.{Hash, Block}
use persisthotstuff_rst.Replica.{Env, Replica}
use persisthotstuff_rst.Replica.Commit.{
  is_child_of, in_log, heads_three_chain, find_committed_block,
}

-- A block with a certified child that has a certified child, all in the tree. The rule does not
-- ask what the certificates certify.
pub record ThreeChain (blocks : List Block) (b0 : Block) : Type 0 where
  pub b1 : Block
  pub b2 : Block
  pub head_known : In b0 blocks
  pub child_known : In b1 blocks
  pub child_links : b1.parent ≡ some b0.hash
  pub child_certified : is_some b1.qc ≡ true
  pub grandchild_known : In b2 blocks
  pub grandchild_links : b2.parent ≡ some b1.hash
  pub grandchild_certified : is_some b2.qc ≡ true

-- Two blocks of the tree with one parent are one block.
abbrev pub HasNoForks : List Block → Type 0
HasNoForks blocks =
    (b b' : Block) (h : Hash)
    → In b blocks
    → In b' blocks
    → b.parent ≡ some h
    → b'.parent ≡ some h
    → b ≡ b'

parent_of_child : (h : Hash) (b : Block) → is_child_of h b ≡ true → b.parent ≡ some h
parent_of_child h b e = elim (Option-cases b.parent) [
  | inl n ↦ absurd (ground arith)
  | inr (p, s) ↦ ground arith
]

child_of_parent : (h : Hash) (b : Block) → b.parent ≡ some h → is_child_of h b ≡ true
child_of_parent h b e = ground arith

heads-ThreeChain :
    (committed blocks : List Block) (b0 : Block)
    → In b0 blocks
    → heads_three_chain committed blocks b0 ≡ true
    → (in_log committed b0.hash ≡ false) × ThreeChain blocks b0
unfolding heads_three_chain
heads-ThreeChain committed blocks b0 m h = elim (Option-cases (find (is_child_of b0.hash) blocks)) [
  | inl n ↦ absurd (ground arith)
  | inr (c, e) ↦ elim (Option-cases (find (is_child_of c.hash) blocks)) [
    | inl n ↦ absurd (ground arith)
    | inr (d, f) ↦
        let cm = find-some (is_child_of b0.hash) blocks c e in
        let dm = find-some (is_child_of c.hash) blocks d f in
        (
          ground arith,
          record {
            b1 = c;
            b2 = d;
            head_known = m;
            child_known = cm.0;
            child_links = parent_of_child b0.hash c cm.1;
            child_certified = ground arith;
            grandchild_known = dm.0;
            grandchild_links = parent_of_child c.hash d dm.1;
            grandchild_certified = ground arith;
          },
        )
  ]
]

first_child :
    (blocks : List Block) (b c : Block)
    → HasNoForks blocks
    → In c blocks
    → c.parent ≡ some b.hash
    → find (is_child_of b.hash) blocks ≡ some c
first_child blocks b c u m l = elim (Option-cases (find (is_child_of b.hash) blocks)) [
  | inl n ↦
      absurd
        (ground (arith, find-none (is_child_of b.hash) blocks c n m, child_of_parent b.hash c l))
  | inr (d, e) ↦
      let dm = find-some (is_child_of b.hash) blocks d e in
      let same : d ≡ c = u d c b.hash dm.0 m (parent_of_child b.hash d dm.1) l in cc
]

ThreeChain-heads :
    (committed blocks : List Block) (b0 : Block)
    → HasNoForks blocks
    → in_log committed b0.hash ≡ false
    → ThreeChain blocks b0
    → heads_three_chain committed blocks b0 ≡ true
unfolding heads_three_chain
ThreeChain-heads committed blocks b0 u n c = ground (
  arith,
  first_child blocks b0 c.b1 u c.child_known c.child_links,
  first_child blocks c.b1 c.b2 u c.grandchild_known c.grandchild_links,
)

module _ (env : Env) where
  -- A block that is returned is in the tree, is not committed, and heads a 3-chain.
  pub find_committed_block_sound :
      (r : Replica env) (b0 : Block)
      → find_committed_block env r ≡ some b0
      → (in_log r.committed_log b0.hash ≡ false) × ThreeChain (BTree.values r.block_tree) b0
  unfolding find_committed_block
  find_committed_block_sound r b0 h =
      let blocks = BTree.values r.block_tree in
      let m = find-some (heads_three_chain r.committed_log blocks) blocks b0 h in
      heads-ThreeChain r.committed_log blocks b0 m.0 m.1

  -- In a tree without forks the search misses nothing: where it finds no block, no block that is
  -- not committed heads a 3-chain.
  pub find_committed_block_complete :
      (r : Replica env) (b0 : Block)
      → HasNoForks (BTree.values r.block_tree)
      → find_committed_block env r ≡ none
      → in_log r.committed_log b0.hash ≡ false
      → ¬ ThreeChain (BTree.values r.block_tree) b0
  unfolding find_committed_block
  find_committed_block_complete r b0 u h n c =
      let blocks = BTree.values r.block_tree in
      let t = ThreeChain-heads r.committed_log blocks b0 u n c in
      let f = find-none (heads_three_chain r.committed_log blocks) blocks b0 h c.head_known in cc

  -- With forks it does miss chains: a block whose child of smallest hash carries no certificate is
  -- never returned, whatever its other children carry.
  pub find_committed_block_fork :
      (r : Replica env) (b0 b1 : Block)
      → find (is_child_of b0.hash) (BTree.values r.block_tree) ≡ some b1
      → b1.qc ≡ none
      → find_committed_block env r ≢ some b0
  unfolding find_committed_block heads_three_chain
  find_committed_block_fork r b0 b1 c n h =
      let blocks = BTree.values r.block_tree in
      let m = find-some (heads_three_chain r.committed_log blocks) blocks b0 h in
      let t : heads_three_chain r.committed_log blocks b0 ≡ true = m.1 in ground arith
