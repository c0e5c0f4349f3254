-- ===== src/Replica/Votes/Gathering.antt =====
-- A quorum of votes, one after the other, makes a certificate.
use persisthotstuff_rst.Base.{
  ℕ, suc, ◌+◌, ◌<◌, ◌≡◌, refl, sym, ap, ◌∙◌, inl, inr, true, false, some, List, [], ◌∷◌, ◌++◌, map,
  length, length-append, ◌==◌, arith, Bool-cases, All,
}
use mathlib.Core.Path.{subst}
use persisthotstuff_rst.BTree
use persisthotstuff_rst.Types.{Hash, ReplicaId, Signature, Block, QuorumCert, Vote}
use persisthotstuff_rst.Crypto.{verify, verify_qc}
use persisthotstuff_rst.Replica.{Env, Replica, log, dynamic_f, dynamic_n, dynamic_quorum_size}
use persisthotstuff_rst.Replica.Votes.{pooled, has_signed, try_form_qc, is_rejected, handle_vote}
use persisthotstuff_rst.Replica.Votes.Pool.{SignersDistinct, SameVoting, pooled-insert}
use persisthotstuff_rst.Replica.Votes.Certificate.{
  number_valid, verify_qc_count, formed, handle_vote_completes,
}

get-contains_key :
    (k : ℕ) (tree : BTree.BTreeMap Block) (b : Block)
    → BTree.get k tree ≡ some b
    → BTree.contains_key k tree ≡ true
unfolding BTree.get BTree.contains_key
get-contains_key k [] b h = cc
get-contains_key k ((j, c) ∷ tree) b h = elim (Bool-cases (k == j)) [
  | inl t ↦ ground arith
  | inr n ↦ ground (arith, get-contains_key k tree b (ground arith))
]

abbrev pub ballot : Vote → Signature
ballot v = v.signature

has_signed-append_middle :
    (id : ReplicaId) (xs : List Signature) (y : Signature) (zs : List Signature)
    → has_signed id (xs ++ y ∷ zs) ≡ false
    → (has_signed id xs ≡ false) × ((y.signer == id) ≡ false)
has_signed-append_middle id [] y zs h = (refl, ground arith)
has_signed-append_middle id (x ∷ xs) y zs h = ground (arith, has_signed-append_middle id xs y zs)

SignersDistinct-middle :
    (xs : List Signature) (y : Signature) (zs : List Signature)
    → SignersDistinct (xs ++ y ∷ zs)
    → has_signed y.signer xs ≡ false
SignersDistinct-middle [] y zs d = refl
SignersDistinct-middle (x ∷ xs) y zs d =
    ground
      (arith, has_signed-append_middle x.signer xs y zs d.0, SignersDistinct-middle xs y zs d.1)

SignersDistinct-left :
    (xs : List Signature) (y : Signature) → SignersDistinct (xs ++ y ∷ []) → SignersDistinct xs
SignersDistinct-left [] y d = tt
SignersDistinct-left (x ∷ xs) y d =
    ((has_signed-append_middle x.signer xs y [] d.0).0, SignersDistinct-left xs y d.1)

ballots_length : (vs : List Vote) → length (map ballot vs) ≡ length vs
ballots_length [] = refl
ballots_length (v ∷ vs) = ap suc (ballots_length vs)

map-append_one :
    (vs : List Vote) (v : Vote) → map ballot vs ++ v.signature ∷ [] ≡ map ballot (vs ++ v ∷ [])
map-append_one [] v = refl
map-append_one (w ∷ vs) v = ap (λ l. w.signature ∷ l) (map-append_one vs v)

append_nil : (xs : List Signature) → xs ≡ xs ++ []
append_nil [] = refl
append_nil (x ∷ xs) = ap (λ l. x ∷ l) (append_nil xs)

append_assoc :
    (xs : List Signature) (y : Signature) (zs : List Signature)
    → (xs ++ y ∷ []) ++ zs ≡ xs ++ y ∷ zs
append_assoc [] y zs = refl
append_assoc (x ∷ xs) y zs = ap (λ l. x ∷ l) (append_assoc xs y zs)

module _ (env : Env) where
  -- A vote of a validator for a block in a view of the current epoch, whose signature is valid.
  pub record IsBallot (r : Replica env) (h : Hash) (view : ℕ) (v : Vote) : Type 0 where
    pub for_block : v.block_hash ≡ h
    pub in_view : v.view ≡ view
    pub in_epoch : v.epoch ≡ r.config_epoch
    pub is_active : BTree.contains v.signature.signer r.active_validators ≡ true
    pub in_range : v.signature.signer < r.config.n
    pub is_signed : verify env.crypto r.keystore v.signature h view r.config_epoch ≡ true

  -- The block is in the tree, of the current epoch.
  abbrev pub IsKnown : Replica env → Hash → Type 0
  IsKnown r h = (b : Block) × (BTree.get h r.block_tree ≡ some b) × (b.epoch ≡ r.config_epoch)

  abbrev pub collect : Replica env → List Vote → ℕ → Replica env
  collect r [] now = r
  collect r (v ∷ vs) now = collect (handle_vote env r v now).0 vs now

  accepted_lem :
      (r : Replica env) (h : Hash) (view : ℕ) (v : Vote)
      → IsKnown r h
      → IsBallot r h view v
      → is_rejected env r v ≡ false
  unfolding is_rejected
  accepted_lem r h view v (b, k, e) i =
      let signed : verify env.crypto r.keystore v.signature v.block_hash v.view v.epoch ≡ true =
        rw (i.for_block, i.in_view, i.in_epoch) i.is_signed in
      let found : BTree.get v.block_hash r.block_tree ≡ some b = rw (i.for_block) k in
      let known = get-contains_key v.block_hash r.block_tree b found in
      ground (arith, i.in_epoch, i.is_active, i.in_range)

  handle_vote-SameVoting :
      (r : Replica env) (v : Vote) (now : ℕ) → SameVoting env r (handle_vote env r v now).0
  unfolding handle_vote try_form_qc log
  handle_vote-SameVoting r v now = ground arith

  -- A vote that is accepted is pooled.
  pooled-handle_vote :
      (r : Replica env) (v : Vote) (now : ℕ)
      → is_rejected env r v ≡ false
      → has_signed v.signature.signer (pooled r.vote_pool v.block_hash) ≡ false
      → pooled (handle_vote env r v now).0.vote_pool v.block_hash
        ≡ pooled r.vote_pool v.block_hash ++ v.signature ∷ []
  unfolding handle_vote try_form_qc log
  pooled-handle_vote r v now a n =
      let sigs = pooled r.vote_pool v.block_hash ++ v.signature ∷ [] in
      ground (arith, pooled-insert v.block_hash v.block_hash sigs r.vote_pool)

  IsBallot-cong :
      (r s : Replica env) (h : Hash) (view : ℕ) (v : Vote)
      → SameVoting env r s
      → IsBallot r h view v
      → IsBallot s h view v
  IsBallot-cong r s h view v m i = record {
    for_block = i.for_block;
    in_view = i.in_view;
    in_epoch = i.in_epoch ∙ sym m.epoch;
    is_active = rw (m.active) i.is_active;
    in_range = rw (m.config) i.in_range;
    is_signed = rw (m.keys, m.epoch) i.is_signed;
  }

  SameVoting-trans :
      (r s t : Replica env) → SameVoting env r s → SameVoting env s t → SameVoting env r t
  SameVoting-trans r s t m n = record {
    active = n.active ∙ m.active;
    config = n.config ∙ m.config;
    tree = n.tree ∙ m.tree;
    keys = n.keys ∙ m.keys;
    epoch = n.epoch ∙ m.epoch;
  }

  IsKnown-cong : (r s : Replica env) (h : Hash) → SameVoting env r s → IsKnown r h → IsKnown s h
  IsKnown-cong r s h m (b, k, e) = (b, rw (m.tree) k, e ∙ sym m.epoch)

  All-IsBallot-cong :
      (r s : Replica env) (h : Hash) (view : ℕ) (vs : List Vote)
      → SameVoting env r s
      → All (IsBallot r h view) vs
      → All (IsBallot s h view) vs
  All-IsBallot-cong r s h view [] m a = tt
  All-IsBallot-cong r s h view (v ∷ vs) m a =
      (IsBallot-cong r s h view v m a.0, All-IsBallot-cong r s h view vs m a.1)

  -- Votes of different voters are all pooled.
  collect_lem :
      (r : Replica env) (h : Hash) (view : ℕ) (vs : List Vote) (now : ℕ)
      → IsKnown r h
      → All (IsBallot r h view) vs
      → SignersDistinct (pooled r.vote_pool h ++ map ballot vs)
      → SameVoting env r (collect r vs now)
        × (pooled (collect r vs now).vote_pool h ≡ pooled r.vote_pool h ++ map ballot vs)
  collect_lem r h view [] now k a d = (
    record { active = refl; config = refl; tree = refl; keys = refl; epoch = refl },
    append_nil (pooled r.vote_pool h),
  )
  collect_lem r h view (v ∷ vs) now k a d =
      let s = (handle_vote env r v now).0 in
      let m = handle_vote-SameVoting r v now in
      let sigs = pooled r.vote_pool h in
      let new = SignersDistinct-middle sigs v.signature (map ballot vs) d in
      let p : pooled s.vote_pool h ≡ sigs ++ v.signature ∷ [] =
        subst (λ j. pooled s.vote_pool j ≡ pooled r.vote_pool j ++ v.signature ∷ [])
          ((a.0).for_block)
          (pooled-handle_vote r v now (accepted_lem r h view v k a.0) (
            subst (λ j. has_signed v.signature.signer (pooled r.vote_pool j) ≡ false)
              (sym (a.0).for_block) new)) in
      let q : pooled s.vote_pool h ++ map ballot vs ≡ sigs ++ v.signature ∷ map ballot vs =
        ap (λ l. l ++ map ballot vs) p ∙ append_assoc sigs v.signature (map ballot vs) in
      let rest =
        collect_lem s h view vs now (IsKnown-cong r s h m k) (All-IsBallot-cong r s h view vs m a.1)
          (subst SignersDistinct (sym q) d) in
      (SameVoting-trans r s (collect s vs now) m rest.0, rest.1 ∙ q)

  all_valid :
      (r : Replica env) (h : Hash) (view : ℕ) (vs : List Vote)
      → All (IsBallot r h view) vs
      → number_valid env.crypto r.keystore h view r.config_epoch (map ballot vs) ≡ length vs
  unfolding number_valid
  all_valid r h view [] a = refl
  all_valid r h view (v ∷ vs) a = rw ((a.0).is_signed) (ap suc (all_valid r h view vs a.1))

  same_quorum :
      (r s : Replica env)
      → SameVoting env r s
      → dynamic_quorum_size env s ≡ dynamic_quorum_size env r
  unfolding dynamic_quorum_size dynamic_f dynamic_n
  same_quorum r s m = rw (m.active) refl

  all_ballots :
      (r : Replica env) (h : Hash) (view : ℕ) (vs : List Vote) (last : Vote)
      → All (IsBallot r h view) vs
      → IsBallot r h view last
      → All (IsBallot r h view) (vs ++ last ∷ [])
  all_ballots r h view [] last a i = (i, tt)
  all_ballots r h view (v ∷ vs) last a i = (a.0, all_ballots r h view vs last a.1 i)

  -- A quorum of validators votes for a block of the tree, in one view of the current epoch, with
  -- valid signatures and each of them once, and no vote for the block came before. Whatever else is
  -- in the pool and in whatever order the votes come, the last one returns a certificate for the
  -- block, the view and the epoch, which is the new high QC and passes the check for the quorum.
  pub quorum_makes_certificate :
      (r : Replica env) (h : Hash) (view : ℕ) (vs : List Vote) (last : Vote) (now : ℕ)
      → IsKnown r h
      → pooled r.vote_pool h ≡ []
      → All (IsBallot r h view) vs
      → IsBallot r h view last
      → SignersDistinct (map ballot vs ++ last.signature ∷ [])
      → length vs + 1 ≡ dynamic_quorum_size env r
      → (qc : QuorumCert) × ((handle_vote env (collect r vs now) last now).1 ≡ some qc)
        × ((handle_vote env (collect r vs now) last now).0.high_qc ≡ some qc)
        × (qc.block_hash ≡ h)
        × (qc.view ≡ view)
        × (qc.epoch ≡ r.config_epoch)
        × (verify_qc env.crypto r.keystore qc (dynamic_quorum_size env r) ≡ true)
  quorum_makes_certificate r h view vs last now k empty a i d size =
      let s = collect r vs now in
      let c = collect_lem r h view vs now k a (
        subst (λ l. SignersDistinct (l ++ map ballot vs)) (sym empty)
          (SignersDistinct-left (map ballot vs) last.signature d)) in
      let p : pooled s.vote_pool h ≡ map ballot vs = c.1 ∙ ap (λ l. l ++ map ballot vs) empty in
      let p' : pooled s.vote_pool last.block_hash ≡ map ballot vs =
        ap (pooled s.vote_pool) i.for_block ∙ p in
      let q : dynamic_quorum_size env s ≡ dynamic_quorum_size env r = same_quorum r s c.0 in
      let done = handle_vote_completes env s last now (
        accepted_lem s h view last (IsKnown-cong r s h c.0 k) (IsBallot-cong r s h view last c.0 i),
        subst (λ l. has_signed last.signature.signer l ≡ false) (sym p')
            (SignersDistinct-middle (map ballot vs) last.signature [] d),
        omega (arith, ap length p', ballots_length vs, size, q),
      ) in
      let all = map ballot (vs ++ last ∷ []) in
      let sigs : (formed env s last).signatures ≡ all =
        ap (λ l. l ++ last.signature ∷ []) p' ∙ map-append_one vs last in
      let n = all_valid r h view (vs ++ last ∷ []) (all_ballots r h view vs last a i) in
      let valid : number_valid env.crypto r.keystore last.block_hash last.view last.epoch
            (formed env s last).signatures
          ≡ length (vs ++ last ∷ []) =
        ap (number_valid env.crypto r.keystore last.block_hash last.view last.epoch) sigs
        ∙ ap (λ x. number_valid env.crypto r.keystore x last.view last.epoch all) i.for_block
        ∙ ap (λ x. number_valid env.crypto r.keystore h x last.epoch all) i.in_view
        ∙ ap (λ x. number_valid env.crypto r.keystore h view x all) i.in_epoch
        ∙ n in
      (
        formed env s last,
        done.0,
        done.1,
        i.for_block,
        i.in_view,
        i.in_epoch,
        (verify_qc_count env.crypto r.keystore (formed env s last) (dynamic_quorum_size env r)
              (subst (λ l. SignersDistinct (l ++ last.signature ∷ [])) (sym p') d)).1
            (omega (arith, valid, length-append vs (last ∷ []), size)),
      )
