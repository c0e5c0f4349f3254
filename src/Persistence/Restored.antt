-- ===== src/Persistence/Restored.antt =====
-- What blocks, certificates and validator ids are after they went through a snapshot.
use persisthotstuff_rst.Base.{
  ℕ, ◌<◌, ◌≡◌, refl, sym, ap, ◌∙◌, Option, none, some, List, [], ◌∷◌, ◌++◌, map, All, arith,
}
use mathlib.Core.Option
use mathlib.Core.Path.{subst}
use mathlib.Core.List.{append-nil, append_assoc}
use persisthotstuff_rst.BTree
use persisthotstuff_rst.BTree.{BTreeMap, BTreeSet, insert_key}
use persisthotstuff_rst.BTree.SetLaws.{IsAscending}
use persisthotstuff_rst.Types.{Block, QuorumCert}
use persisthotstuff_rst.Snapshot.{from_block, to_block, from_qc, to_qc}
use persisthotstuff_rst.Snapshot.Files.{strip_qc, to_block-from_block}
use persisthotstuff_rst.Recovery.{collect_set, collect_tree}
use persisthotstuff_rst.Recovery.Durability.{unsigned}

append_key : (s : BTreeSet) (k : ℕ) → All (λ i. i < k) s → insert_key k s ≡ s ++ k ∷ []
unfolding insert_key
append_key [] k a = refl
append_key (i ∷ s) k a = ground (arith, append_key s k)

All-head : (P : ℕ → Type 0) (s : List ℕ) (k : ℕ) (ids : List ℕ) → All P (s ++ k ∷ ids) → P k
All-head P [] k ids a = a.0
All-head P (i ∷ s) k ids a = All-head P s k ids a.1

below : (s : BTreeSet) (k : ℕ) (ids : List ℕ) → IsAscending (s ++ k ∷ ids) → All (λ i. i < k) s
below [] k ids a = tt
below (i ∷ s) k ids a = (All-head (λ j. i < j) s k ids a.0, below s k ids a.1)

pub collect_set_ascending :
    (ids : List ℕ) (s : BTreeSet) → IsAscending (s ++ ids) → collect_set ids s ≡ s ++ ids
unfolding collect_set
collect_set_ascending [] s a = sym (append-nil s)
collect_set_ascending (k ∷ ids) s a =
    let moved : (s ++ k ∷ []) ++ ids ≡ s ++ k ∷ ids = append_assoc s (k ∷ []) ids in
    ap (collect_set ids) (append_key s k (below s k ids a))
    ∙ collect_set_ascending ids (s ++ k ∷ []) (subst IsAscending (sym moved) a)
    ∙ moved

-- What a block is after it went through a snapshot.
abbrev pub restored : Block → Block
restored b = record b { qc = strip_qc b.epoch b.qc }

abbrev pub restored_entry : ℕ × Block → ℕ × Block
restored_entry e = (e.0, restored e.1)

-- Blocks under their own hashes, in ascending order.
abbrev pub TreeIsKeyed : BTreeMap Block → Type 0
TreeIsKeyed [] = Unit {0}
TreeIsKeyed ((h, b) ∷ tree) =
    (b.hash ≡ h) × All (λ (e : ℕ × Block). h < e.0) tree × TreeIsKeyed tree

append_entry :
    (tree : BTreeMap Block) (h : ℕ) (b : Block)
    → All (λ (e : ℕ × Block). e.0 < h) tree
    → BTree.insert h b tree ≡ tree ++ (h, b) ∷ []
unfolding BTree.insert
append_entry [] h b a = refl
append_entry ((j, c) ∷ tree) h b a = ground (arith, append_entry tree h b)

pub restored_log : (bs : List Block) → map to_block (map from_block bs) ≡ map restored bs
restored_log [] = refl
restored_log (b ∷ bs) = ground (arith, to_block-from_block b, restored_log bs)

All-map_lt :
    (tree : BTreeMap Block) (h j : ℕ) (b : Block)
    → All (λ (e : ℕ × Block). e.0 < h) tree
    → h < j
    → All (λ (e : ℕ × Block). e.0 < j) (tree ++ (h, b) ∷ [])
All-map_lt [] h j b a lt = (lt, tt)
All-map_lt ((i, c) ∷ tree) h j b a lt = (omega arith, All-map_lt tree h j b a.1 lt)

-- All keys of the first tree are below all keys of the second.
pub IsBelow : BTreeMap Block → BTreeMap Block → Type 0
IsBelow done [] = Unit {0}
IsBelow done ((h, b) ∷ tree) = All (λ (e : ℕ × Block). e.0 < h) done

pub IsBelow-nil : (tree : BTreeMap Block) → IsBelow [] tree
unfolding IsBelow
IsBelow-nil [] = tt
IsBelow-nil ((h, b) ∷ tree) = tt

IsBelow-next :
    (done : BTreeMap Block) (h : ℕ) (b c : Block) (tree : BTreeMap Block)
    → All (λ (e : ℕ × Block). e.0 < h) done
    → All (λ (e : ℕ × Block). h < e.0) tree
    → IsBelow (done ++ (h, c) ∷ []) tree
unfolding IsBelow
IsBelow-next done h b c [] a l = tt
IsBelow-next done h b c ((j, d) ∷ tree) a l = All-map_lt done h j c a l.0

pub collect_tree_keyed :
    (tree done : BTreeMap Block)
    → TreeIsKeyed tree
    → IsBelow done tree
    → collect_tree (map from_block (BTree.values tree)) done ≡ done ++ map restored_entry tree
unfolding collect_tree BTree.values IsBelow from_block
collect_tree_keyed [] done k a = sym (append-nil done)
collect_tree_keyed ((h, b) ∷ tree) done k a =
    let one : BTree.insert (from_block b).hash (to_block (from_block b)) done
        ≡ done ++ (h, restored b) ∷ [] =
      ap (λ x. BTree.insert x (to_block (from_block b)) done) k.0
      ∙ ap (λ c. BTree.insert h c done) (to_block-from_block b)
      ∙ append_entry done h (restored b) a in
    ap (collect_tree (map from_block (BTree.values tree))) one
    ∙ collect_tree_keyed tree (done ++ (h, restored b) ∷ []) k.2
        (IsBelow-next done h b (restored b) tree a k.1)
    ∙ append_assoc done ((h, restored b) ∷ []) (map restored_entry tree)

pub restored_qc :
    (q : Option QuorumCert) → Option.map to_qc (Option.map from_qc q) ≡ Option.map unsigned q
unfolding to_qc from_qc
restored_qc none = refl
restored_qc (some qc) = refl
