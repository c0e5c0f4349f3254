-- ===== src/Replica/Votes/Pool.antt =====
-- The vote pool: what every signature in it stands for, kept by `handle_vote`.
use persisthotstuff_rst.Base.{
  ℕ, ◌<◌, ◌≡◌, refl, sym, inl, inr, true, false, List, [], ◌∷◌, ◌++◌, ◌==◌, ◌||◌, if◌then◌else◌,
  arith, Bool-cases, All, All-append, ==_iff,
}
use mathlib.Core.Path.{subst}
use persisthotstuff_rst.BTree
use persisthotstuff_rst.BTree.MapLaws.{get-insert}
use persisthotstuff_rst.Types.{Hash, ReplicaId, Signature, Vote}
use persisthotstuff_rst.Crypto.{verify}
use persisthotstuff_rst.Replica.{Env, Replica, log}
use persisthotstuff_rst.Replica.Votes.{pooled, has_signed, try_form_qc, is_rejected, handle_vote}

abbrev pub SignersDistinct : List Signature → Type 0
SignersDistinct [] = Unit {0}
SignersDistinct (s ∷ sigs) = (has_signed s.signer sigs ≡ false) × SignersDistinct sigs

has_signed-append :
    (id : ReplicaId) (sigs : List Signature) (s : Signature)
    → has_signed id (sigs ++ s ∷ []) ≡ (has_signed id sigs || s.signer == id)
has_signed-append id [] s = ground arith
has_signed-append id (t ∷ sigs) s = ground (arith, has_signed-append id sigs s)

pub SignersDistinct-append :
    (sigs : List Signature) (s : Signature)
    → SignersDistinct sigs
    → has_signed s.signer sigs ≡ false
    → SignersDistinct (sigs ++ s ∷ [])
SignersDistinct-append [] s d n = (refl, tt)
SignersDistinct-append (t ∷ sigs) s d n = (
  ground (arith, has_signed-append t.signer sigs s),
  SignersDistinct-append sigs s d.1 (ground arith),
)

pub pooled-insert :
    (h j : Hash) (sigs : List Signature) (pool : BTree.BTreeMap (List Signature))
    → pooled (BTree.insert h sigs pool) j ≡ (if j == h then sigs else pooled pool j)
unfolding pooled
pooled-insert h j sigs pool = ground (arith, get-insert h j sigs pool)

module _ (env : Env) where
  -- Why a signature counts for a block: its signer is a validator with an id below n, the block is
  -- in the tree, and the signature is valid for the block in the current epoch, in some view.
  pub record Counts (r : Replica env) (h : Hash) (s : Signature) : Type 0 where
    pub is_active : BTree.contains s.signer r.active_validators ≡ true
    pub in_range : s.signer < r.config.n
    pub block_known : BTree.contains_key h r.block_tree ≡ true
    pub for_view : ℕ
    pub is_signed : verify env.crypto r.keystore s h for_view r.config_epoch ≡ true

  -- The signatures pooled for a block come from different signers, and each of them counts.
  abbrev pub PoolIsValid : Replica env → Type 0
  PoolIsValid r =
      (h : Hash) → SignersDistinct (pooled r.vote_pool h) × All (Counts r h) (pooled r.vote_pool h)

  Counts-cong :
      (r s : Replica env) (h : Hash)
      → s.active_validators ≡ r.active_validators
      → s.config ≡ r.config
      → s.block_tree ≡ r.block_tree
      → s.keystore ≡ r.keystore
      → s.config_epoch ≡ r.config_epoch
      → (sig : Signature) → Counts r h sig
      → Counts s h sig
  Counts-cong r s h a c t k e sig x = record {
    is_active = rw a x.is_active;
    in_range = rw c x.in_range;
    block_known = rw t x.block_known;
    for_view = x.for_view;
    is_signed = rw (k, e) x.is_signed;
  }

  All-map :
      {P Q : Signature → Type 0} (sigs : List Signature)
      → ((s : Signature) → P s → Q s)
      → All P sigs
      → All Q sigs
  All-map [] f a = tt
  All-map (s ∷ sigs) f a = (f s a.0, All-map sigs f a.1)

  accepted_Counts :
      (r : Replica env) (vote : Vote)
      → is_rejected env r vote ≡ false
      → Counts r vote.block_hash vote.signature
  unfolding is_rejected
  accepted_Counts r vote h = record {
    is_active = ground arith;
    in_range = ground arith;
    block_known = ground arith;
    for_view = vote.view;
    is_signed = ground arith;
  }

  -- The parts of the state that votes are judged by.
  pub record SameVoting (r s : Replica env) : Type 0 where
    pub active : s.active_validators ≡ r.active_validators
    pub config : s.config ≡ r.config
    pub tree : s.block_tree ≡ r.block_tree
    pub keys : s.keystore ≡ r.keystore
    pub epoch : s.config_epoch ≡ r.config_epoch

  pub PoolIsValid-cong :
      (r s : Replica env)
      → SameVoting r s
      → s.vote_pool ≡ r.vote_pool
      → PoolIsValid r
      → PoolIsValid s
  PoolIsValid-cong r s v p h j =
      subst (λ pool. SignersDistinct (pooled pool j) × All (Counts s j) (pooled pool j)) (sym p)
        (
          (h j).0,
          All-map (pooled r.vote_pool j)
              (λ sig. Counts-cong r s j v.active v.config v.tree v.keys v.epoch sig) (h j).1,
        )

  try_form_qc-SameVoting :
      (r : Replica env) (h : Hash) (view epoch now : ℕ)
      → SameVoting r (try_form_qc env r h view epoch now).0
        × ((try_form_qc env r h view epoch now).0.vote_pool ≡ r.vote_pool)
  unfolding try_form_qc log
  try_form_qc-SameVoting r h view epoch now = (ground arith, ground arith)

  with_pool : Replica env → BTree.BTreeMap (List Signature) → Replica env
  with_pool r pool = record r { vote_pool = pool }

  -- A pool in which the signatures for one block are replaced by valid ones.
  insert-PoolIsValid :
      (r : Replica env) (h : Hash) (sigs : List Signature)
      → PoolIsValid r
      → SignersDistinct sigs
      → All (Counts r h) sigs
      → PoolIsValid (with_pool r (BTree.insert h sigs r.vote_pool))
  unfolding with_pool
  insert-PoolIsValid r h sigs v d a j =
      subst (λ p. SignersDistinct p × All (Counts (with_pool r pool) j) p)
        (sym (pooled-insert h j sigs r.vote_pool))
        (elim (Bool-cases (j == h)) [
          | inl t ↦ rw t (
            d,
            All-map sigs (λ s x. same j s (subst (λ k. Counts r k s) (sym ((==_iff j h).0 t)) x)) a,
          )
          | inr n ↦ rw n ((v j).0, All-map (pooled r.vote_pool j) (same j) (v j).1)
        ])
    where
      pool : BTree.BTreeMap (List Signature)
      pool = BTree.insert h sigs r.vote_pool

      same : (k : Hash) (s : Signature) → Counts r k s → Counts (with_pool r pool) k s
      same k s x = Counts-cong r (with_pool r pool) k refl refl refl refl refl s x

  -- Every vote, accepted or not, leaves a valid pool valid.
  pub handle_vote-PoolIsValid :
      (r : Replica env) (vote : Vote) (now : ℕ)
      → PoolIsValid r
      → PoolIsValid (handle_vote env r vote now).0
  unfolding handle_vote with_pool
  handle_vote-PoolIsValid r vote now v = elim (Bool-cases (is_rejected env r vote)) [
    | inl t ↦ rw (t, handle_vote) v
    | inr n ↦
        let h = vote.block_hash in
        let sigs = pooled r.vote_pool h in
        rw (n, handle_vote)
          (elim (Bool-cases (has_signed vote.signature.signer sigs)) [
            | inl t ↦ rw t (insert-PoolIsValid r h sigs v (v h).0 (v h).1)
            | inr f ↦ rw f (
                let r1 = with_pool r (BTree.insert h (sigs ++ vote.signature ∷ []) r.vote_pool) in
                let t = try_form_qc-SameVoting r1 h vote.view vote.epoch now in
                PoolIsValid-cong r1 _ t.0 t.1 (
                  insert-PoolIsValid r h (sigs ++ vote.signature ∷ []) v
                    (SignersDistinct-append sigs vote.signature (v h).0 f)
                    (All-append (Counts r h) sigs (vote.signature ∷ []) (v h).1
                      (accepted_Counts r vote n, tt))))
          ])
  ]
