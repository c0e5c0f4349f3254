-- ===== src/Replica/Commit/Termination.antt =====
-- The loop of `commit_all`: it ends, and what the committed log is afterwards.
use persisthotstuff_rst.Base.{
  ℕ, zero, suc, ◌≤◌, ◌<◌, ◌≡◌, refl, sym, ap, ◌∙◌, inl, inr, false, Option, none, some, List, [],
  ◌∷◌, ◌++◌, length, ◌==◌, ◌||◌, if◌then◌else◌, arith, In, All, Option-cases,
}
use mathlib.Core.Path.{subst}
use mathlib.Core.List.{append-nil, append_assoc}
use persisthotstuff_rst.BTree
use persisthotstuff_rst.BTree.MapLaws.{length-values}
use persisthotstuff_rst.Types.{
  Hash, Block, ConsensusCommand, no_op, client_tx, join_validator, remove_validator,
}
use persisthotstuff_rst.Replica.{Env, Replica, log}
use persisthotstuff_rst.Replica.Commit.{
  in_log, find_committed_block, apply_membership_command, push_committed, execute_and_commit,
  try_commit_once, commit_loop, commit_all,
}
use persisthotstuff_rst.Replica.Commit.Chain.{ThreeChain, find_committed_block_sound}
use persisthotstuff_rst.Crypto.{add_public_key}

-- The blocks whose hash is not in the log.
pending : List Block → List Block → ℕ
pending committed [] = 0
pending committed (b ∷ bs) =
    if in_log committed b.hash then pending committed bs else suc (pending committed bs)

in_log-append :
    (committed : List Block) (b : Block) (h : Hash)
    → in_log (committed ++ b ∷ []) h ≡ (in_log committed h || b.hash == h)
in_log-append [] b h = ground arith
in_log-append (c ∷ committed) b h = ground (arith, in_log-append committed b h)

pending-append-le :
    (committed blocks : List Block) (b : Block)
    → pending (committed ++ b ∷ []) blocks ≤ pending committed blocks
unfolding pending
pending-append-le committed [] b = omega arith
pending-append-le committed (c ∷ blocks) b =
    ground (arith, in_log-append committed b c.hash, pending-append-le committed blocks b)

pending-append-lt :
    (committed blocks : List Block) (b : Block)
    → In b blocks
    → in_log committed b.hash ≡ false
    → pending (committed ++ b ∷ []) blocks < pending committed blocks
unfolding pending
pending-append-lt committed [] b m n = absurd m
pending-append-lt committed (c ∷ blocks) b (inl e) n =
    rw (← e)
      (ground (arith, in_log-append committed b b.hash, pending-append-le committed blocks b))
pending-append-lt committed (c ∷ blocks) b (inr m) n =
    ground (arith, in_log-append committed b c.hash, pending-append-lt committed blocks b m n)

pending-le-length : (committed blocks : List Block) → pending committed blocks ≤ length blocks
unfolding pending
pending-le-length committed [] = omega arith
pending-le-length committed (b ∷ blocks) = ground (arith, pending-le-length committed blocks)

-- No two blocks of the log have one hash.
abbrev pub HasDistinctHashes : List Block → Type 0
HasDistinctHashes [] = Unit {0}
HasDistinctHashes (b ∷ bs) = (in_log bs b.hash ≡ false) × HasDistinctHashes bs

HasDistinctHashes-append :
    (bs : List Block) (b : Block)
    → HasDistinctHashes bs
    → in_log bs b.hash ≡ false
    → HasDistinctHashes (bs ++ b ∷ [])
HasDistinctHashes-append [] b d n = (refl, tt)
HasDistinctHashes-append (c ∷ bs) b d n =
    (ground (arith, in_log-append bs b c.hash), HasDistinctHashes-append bs b d.1 (ground arith))

-- `committed_up_to` names the last block of the log.
abbrev pub last_hash : List Block → Option Hash
last_hash [] = none
last_hash (b ∷ []) = some b.hash
last_hash (b ∷ c ∷ bs) = last_hash (c ∷ bs)

last_hash-append : (bs : List Block) (b : Block) → last_hash (bs ++ b ∷ []) ≡ some b.hash
last_hash-append [] b = refl
last_hash-append (c ∷ []) b = refl
last_hash-append (c ∷ d ∷ bs) b = last_hash-append (d ∷ bs) b

module _ (env : Env) where
  -- What a membership command leaves alone.
  record SameChain (r s : Replica env) : Type 0 where
    tree : s.block_tree ≡ r.block_tree
    committed : s.committed_log ≡ r.committed_log
    up_to : s.committed_up_to ≡ r.committed_up_to

  membership-SameChain :
      (r : Replica env) (c : ConsensusCommand) → SameChain r (apply_membership_command env r c)
  unfolding apply_membership_command add_public_key
  membership-SameChain r no_op = ground arith
  membership-SameChain r (client_tx t) = ground arith
  membership-SameChain r (join_validator id key) = ground arith
  membership-SameChain r (remove_validator id) = ground arith

  -- A commit adds the block to the log and leaves the tree alone.
  pub execute_and_commit_lem :
      (r : Replica env) (b : Block) (now : ℕ)
      → ((execute_and_commit env r b now).block_tree ≡ r.block_tree)
        × ((execute_and_commit env r b now).committed_log ≡ r.committed_log ++ b ∷ [])
        × ((execute_and_commit env r b now).committed_up_to ≡ some b.hash)
  unfolding execute_and_commit log
  execute_and_commit_lem r b now =
      ground (arith, membership-SameChain (push_committed env (log env r _) b) b.command)

  -- The state of the log: no block twice, and `committed_up_to` names the last one.
  pub record LogIsValid (r : Replica env) : Type 0 where
    pub distinct : HasDistinctHashes r.committed_log
    pub last : r.committed_up_to ≡ last_hash r.committed_log

  -- What the rounds of `commit_all` do to a replica.
  pub record CommitsFrom (r s : Replica env) : Type 0 where
    pub added : List Block
    pub same_tree : s.block_tree ≡ r.block_tree
    pub extended : s.committed_log ≡ r.committed_log ++ added
    pub chained : All (ThreeChain (BTree.values r.block_tree)) added

  CommitsFrom-none : (r : Replica env) → CommitsFrom r r
  CommitsFrom-none r = record {
    added = [];
    same_tree = refl;
    extended = sym (append-nil r.committed_log);
    chained = tt;
  }

  CommitsFrom-one :
      (r s : Replica env) (b : Block) (now : ℕ)
      → find_committed_block env r ≡ some b
      → CommitsFrom (execute_and_commit env r b now) s
      → CommitsFrom r s
  CommitsFrom-one r s b now f c = record {
    added = b ∷ c.added;
    same_tree = c.same_tree ∙ l.0;
    extended =
        c.extended ∙ ap (λ x. x ++ c.added) l.1 ∙ append_assoc r.committed_log (b ∷ []) c.added;
    chained = (h.1, subst (λ t. All (ThreeChain (BTree.values t)) c.added) l.0 c.chained);
  }
    where
      l :
          ((execute_and_commit env r b now).block_tree ≡ r.block_tree)
          × ((execute_and_commit env r b now).committed_log ≡ r.committed_log ++ b ∷ [])
          × ((execute_and_commit env r b now).committed_up_to ≡ some b.hash)
      l = execute_and_commit_lem r b now

      h : (in_log r.committed_log b.hash ≡ false) × ThreeChain (BTree.values r.block_tree) b
      h = find_committed_block_sound env r b f

  commit-LogIsValid :
      (r : Replica env) (b : Block) (now : ℕ)
      → find_committed_block env r ≡ some b
      → LogIsValid r
      → LogIsValid (execute_and_commit env r b now)
  commit-LogIsValid r b now f v =
      let l = execute_and_commit_lem r b now in
      record {
        distinct = subst HasDistinctHashes (sym l.1) (
            HasDistinctHashes-append r.committed_log b v.distinct
              (find_committed_block_sound env r b f).0);
        last = l.2 ∙ sym (last_hash-append r.committed_log b) ∙ ap last_hash (sym l.1);
      }

  pending_of : Replica env → ℕ
  pending_of r = pending r.committed_log (BTree.values r.block_tree)

  pending_of-commit :
      (r : Replica env) (b : Block) (now : ℕ)
      → find_committed_block env r ≡ some b
      → pending_of (execute_and_commit env r b now) < pending_of r
  unfolding pending_of
  pending_of-commit r b now f =
      let l = execute_and_commit_lem r b now in
      let h = find_committed_block_sound env r b f in
      rw (l.0, l.1)
        (pending-append-lt r.committed_log (BTree.values r.block_tree) b h.1.head_known h.0)

  pub commit_loop_stop :
      (fuel : ℕ) (r : Replica env) (now : ℕ)
      → find_committed_block env r ≡ none
      → commit_loop env (suc fuel) r now ≡ some r
  unfolding commit_loop try_commit_once
  commit_loop_stop fuel r now n = rw (n, try_commit_once, commit_loop) (rw (n, try_commit_once))

  pub commit_loop_next :
      (fuel : ℕ) (r : Replica env) (b : Block) (now : ℕ)
      → find_committed_block env r ≡ some b
      → commit_loop env (suc fuel) r now ≡ commit_loop env fuel (execute_and_commit env r b now) now
  unfolding commit_loop try_commit_once
  commit_loop_next fuel r b now f = rw (f, try_commit_once, commit_loop) (rw (f, try_commit_once))

  commit_loop_ends :
      (fuel : ℕ) (r : Replica env) (now : ℕ)
      → pending_of r < fuel
      → (s : Replica env) × (commit_loop env fuel r now ≡ some s)
        × (find_committed_block env s ≡ none)
        × CommitsFrom r s
  commit_loop_ends zero r now h = absurd (omega arith)
  commit_loop_ends (suc fuel) r now h = elim (Option-cases (find_committed_block env r)) [
    | inl n ↦ (r, commit_loop_stop fuel r now n, n, CommitsFrom-none r)
    | inr (b, f) ↦
        let i =
          commit_loop_ends fuel (execute_and_commit env r b now) now
            (omega (arith, pending_of-commit r b now f)) in
        (i.0, commit_loop_next fuel r b now f ∙ i.1, i.2, CommitsFrom-one r i.0 b now f i.3)
  ]

  commit_loop-LogIsValid :
      (fuel : ℕ) (r s : Replica env) (now : ℕ)
      → LogIsValid r
      → commit_loop env fuel r now ≡ some s
      → LogIsValid s
  unfolding commit_loop
  commit_loop-LogIsValid zero r s now v h = cc
  commit_loop-LogIsValid (suc fuel) r s now v h = elim (Option-cases (find_committed_block env r)) [
    | inl n ↦ subst LogIsValid (cc (commit_loop_stop fuel r now n)) v
    | inr (b, f) ↦
        commit_loop-LogIsValid fuel (execute_and_commit env r b now) s now
          (commit-LogIsValid r b now f v) (sym (commit_loop_next fuel r b now f) ∙ h)
  ]

  -- `commit_all` ends on every state, at a state where nothing more can be committed. It leaves the
  -- tree alone and only adds to the log, each time a block that heads a 3-chain.
  pub commit_all_ends :
      (r : Replica env) (now : ℕ)
      → (s : Replica env) × (commit_all env r now ≡ some s)
        × (find_committed_block env s ≡ none)
        × CommitsFrom r s
  unfolding commit_all pending_of
  commit_all_ends r now = commit_loop_ends (suc (length r.block_tree)) r now (
      omega (
        arith,
        pending-le-length r.committed_log (BTree.values r.block_tree),
        length-values r.block_tree,
      ))

  -- A log without repetition whose last block `committed_up_to` names stays so under `commit_all`.
  pub commit_all-LogIsValid :
      (r s : Replica env) (now : ℕ) → LogIsValid r → commit_all env r now ≡ some s → LogIsValid s
  unfolding commit_all
  commit_all-LogIsValid r s now v h = commit_loop-LogIsValid (suc (length r.block_tree)) r s now v h
