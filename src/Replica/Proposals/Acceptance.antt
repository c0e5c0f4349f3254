-- ===== src/Replica/Proposals/Acceptance.antt =====
-- Which proposals a replica accepts, and what an accepted proposal does to the block tree.
use persisthotstuff_rst.Base.{
  ℕ, ◌%◌, ◌≡◌, ◌≢◌, ◌↔◌, refl, sym, ◌∙◌, inl, inr, true, false, Option, none, some, List, [], ◌∷◌,
  length, leb, ◌==◌, if◌then◌else◌, arith, Bool-cases, Option-cases, In, All,
}
use persisthotstuff_rst.BTree
use persisthotstuff_rst.BTree.MapLaws.{
  get-insert, contains_key-insert, All-insert, All-map_entries, contains_key_of_value,
}
use persisthotstuff_rst.Types.{Hash, Block, QuorumCert, ConsensusCommand}
use persisthotstuff_rst.Crypto.{verify_qc}
use persisthotstuff_rst.Replica.{
  Env, Replica, log, dynamic_quorum_size, dynamic_leader_for_view, is_leader, leader_among,
}
use persisthotstuff_rst.Replica.Proposals.{
  is_valid_embedded_qc, is_known_parent, validate_and_insert_proposal, propose_command, new_block,
  parent_for_proposal, latest_block_hash, max_by_view,
}
use mathlib.Core.Path.{subst}
use native.Mathlib.Nat.{mod-lt}
use persisthotstuff_rst.Replica.Leader.{get_elem?_in, leader_at}

max_by_view_known :
    (best : Option Block) (bs : List Block) (b : Block) (all : List Block)
    → ((c : Block) → best ≡ some c → In c all)
    → ((c : Block) → In c bs → In c all)
    → max_by_view best bs ≡ some b
    → In b all
unfolding max_by_view
max_by_view_known best [] b all k w h = k b h
max_by_view_known none (c ∷ bs) b all k w h =
    max_by_view_known (some c) bs b all (λ d e. let same : d ≡ c = cc in w d (inl same))
      (λ d m. w d (inr m)) h
max_by_view_known (some best) (c ∷ bs) b all k w h =
    max_by_view_known (some (if leb best.view c.view then c else best)) bs b all
      (λ d e. elim (Bool-cases (leb best.view c.view)) [
        | inl t ↦ let same : d ≡ c = ground arith in w d (inl same)
        | inr t ↦ let same : some best ≡ some d = ground arith in k d same
      ])
      (λ d m. w d (inr m)) h

-- The own id of a replica does not matter where there is a validator.
leader_agreed :
    (validators : BTree.BTreeSet) (own other view : ℕ)
    → validators ≢ []
    → leader_among validators own view ≡ leader_among validators other view
unfolding leader_among
leader_agreed [] own other view ne = absurd (ne refl)
leader_agreed (v ∷ vs) own other view ne =
    let f = get_elem?_in (v ∷ vs) (view % length (v ∷ vs)) (mod-lt view (omega arith)) in
    leader_at (v ∷ vs) own view _ f.0 refl f.1 ∙ sym (leader_at (v ∷ vs) other view _ f.0 refl f.1)

module _ (env : Env) where
  -- A certificate that may be embedded: of the current epoch, signed by a quorum, for a block of
  -- the tree.
  abbrev pub IsEmbeddable : Replica env → Option QuorumCert → Type 0
  IsEmbeddable r none = Unit {0}
  IsEmbeddable r (some qc) =
      (qc.epoch ≡ r.config_epoch)
      × (verify_qc env.crypto r.keystore qc (dynamic_quorum_size env r) ≡ true)
      × (BTree.contains_key qc.block_hash r.block_tree ≡ true)

  abbrev pub IsKnown : Replica env → Option Hash → Type 0
  IsKnown r none = Unit {0}
  IsKnown r (some h) = BTree.contains_key h r.block_tree ≡ true

  pub record IsAcceptable (r : Replica env) (b : Block) : Type 0 where
    pub by_leader : b.proposer ≡ dynamic_leader_for_view env r b.view
    pub in_epoch : b.epoch ≡ r.config_epoch
    pub extends : IsKnown r b.parent
    pub certified : IsEmbeddable r b.qc

  is_valid_embedded_qc_iff :
      (r : Replica env) (qc : Option QuorumCert)
      → (is_valid_embedded_qc env r qc ≡ true) ↔ IsEmbeddable r qc
  unfolding is_valid_embedded_qc
  is_valid_embedded_qc_iff r none = (λ h. tt, λ h. refl)
  is_valid_embedded_qc_iff r (some qc) =
      (λ h. (ground arith, ground arith, ground arith), λ h. ground arith)

  is_known_parent_iff :
      (r : Replica env) (p : Option Hash) → (is_known_parent env r p ≡ true) ↔ IsKnown r p
  unfolding is_known_parent
  is_known_parent_iff r none = (λ h. tt, λ h. refl)
  is_known_parent_iff r (some p) = (λ h. h, λ h. h)

  -- A proposal is accepted exactly when it comes from the leader of its view, in the current epoch,
  -- with a parent in the tree and no certificate or one signed by a quorum for a block in the tree.
  pub validate_and_insert_proposal_iff :
      (r : Replica env) (b : Block) (now : ℕ)
      → ((validate_and_insert_proposal env r b now).1 ≡ true) ↔ IsAcceptable r b
  unfolding validate_and_insert_proposal
  validate_and_insert_proposal_iff r b now = (
    λ h. record {
      by_leader = ground arith;
      in_epoch = ground arith;
      extends = (is_known_parent_iff r b.parent).0 (ground arith);
      certified = (is_valid_embedded_qc_iff r b.qc).0 (ground arith);
    },
    λ a.
        let k = (is_known_parent_iff r b.parent).1 a.extends in
        let c = (is_valid_embedded_qc_iff r b.qc).1 a.certified in
        let l = a.by_leader in let e = a.in_epoch in ground arith,
  )

  -- A rejected proposal changes nothing; an accepted one changes the tree at its own hash only, and
  -- neither the log nor the votes nor the high QC.
  pub validate_and_insert_proposal_effect :
      (r : Replica env) (b : Block) (now : ℕ) (h : Hash)
      → BTree.get h (validate_and_insert_proposal env r b now).0.block_tree ≡ (
          if (validate_and_insert_proposal env r b now).1
          then (if h == b.hash then some b else BTree.get h r.block_tree)
          else BTree.get h r.block_tree)
  unfolding validate_and_insert_proposal log
  validate_and_insert_proposal_effect r b now h = ground (arith, get-insert b.hash h b r.block_tree)

  -- Each block is stored under its own hash, and its parent is in the tree too.
  abbrev pub EntryIsLinked : Replica env → ℕ × Block → Type 0
  EntryIsLinked r e = (e.1.hash ≡ e.0) × IsKnown r e.1.parent

  abbrev pub TreeIsLinked : Replica env → Type 0
  TreeIsLinked r = All (EntryIsLinked r) r.block_tree

  IsKnown-insert :
      (r s : Replica env) (b : Block) (p : Option Hash)
      → s.block_tree ≡ BTree.insert b.hash b r.block_tree
      → IsKnown r p
      → IsKnown s p
  IsKnown-insert r s b none t k = tt
  IsKnown-insert r s b (some p) t k =
      rw (t, contains_key-insert b.hash p b r.block_tree) (ground arith)

  insert-TreeIsLinked :
      (r s : Replica env) (b : Block)
      → s.block_tree ≡ BTree.insert b.hash b r.block_tree
      → TreeIsLinked r
      → IsKnown r b.parent
      → TreeIsLinked s
  insert-TreeIsLinked r s b t l k = subst (All (EntryIsLinked s)) (sym t) (
      All-insert (EntryIsLinked s) b.hash b r.block_tree
        (All-map_entries (EntryIsLinked r) (EntryIsLinked s) r.block_tree
          (λ e x. (x.0, IsKnown-insert r s b e.1.parent t x.1)) l)
        (refl, IsKnown-insert r s b b.parent t k))

  tree_accepted :
      (r : Replica env) (b : Block) (now : ℕ)
      → (validate_and_insert_proposal env r b now).1 ≡ true
      → (validate_and_insert_proposal env r b now).0.block_tree ≡ BTree.insert b.hash b r.block_tree
  unfolding validate_and_insert_proposal log
  tree_accepted r b now t = ground arith

  state_rejected :
      (r : Replica env) (b : Block) (now : ℕ)
      → (validate_and_insert_proposal env r b now).1 ≡ false
      → (validate_and_insert_proposal env r b now).0 ≡ r
  unfolding validate_and_insert_proposal log
  state_rejected r b now t = ground arith

  -- Every received proposal, accepted or not, keeps the tree linked.
  pub validate_and_insert_proposal-TreeIsLinked :
      (r : Replica env) (b : Block) (now : ℕ)
      → TreeIsLinked r
      → TreeIsLinked (validate_and_insert_proposal env r b now).0
  validate_and_insert_proposal-TreeIsLinked r b now l =
      elim (Bool-cases (validate_and_insert_proposal env r b now).1) [
        | inl t ↦
            insert-TreeIsLinked r (validate_and_insert_proposal env r b now).0 b
              (tree_accepted r b now t) l ((validate_and_insert_proposal_iff r b now).0 t).extends
        | inr n ↦ subst TreeIsLinked (sym (state_rejected r b now n)) l
      ]

  known_values :
      (r : Replica env) (b : Block)
      → TreeIsLinked r
      → In b (BTree.values r.block_tree)
      → BTree.contains_key b.hash r.block_tree ≡ true
  known_values r b l m =
      contains_key_of_value (λ (c : Block). c.hash) r.block_tree b
        (All-map_entries (EntryIsLinked r) (λ e. e.1.hash ≡ e.0) r.block_tree (λ e x. x.0) l) m

  latest-IsKnown : (r : Replica env) → TreeIsLinked r → IsKnown r (latest_block_hash env r)
  unfolding latest_block_hash
  latest-IsKnown r l = elim (Option-cases (max_by_view none (BTree.values r.block_tree))) [
    | inl n ↦ rw n tt
    | inr (b, e) ↦ rw e (
        known_values r b l (
          max_by_view_known none (BTree.values r.block_tree) b (BTree.values r.block_tree)
            (λ c h. cc) (λ c m. m) e))
  ]

  -- The parent that a leader chooses is in its tree, if the block of its high QC is.
  parent_for_proposal-IsKnown :
      (r : Replica env)
      → TreeIsLinked r
      → IsEmbeddable r r.high_qc
      → IsKnown r (parent_for_proposal env r)
  unfolding parent_for_proposal
  parent_for_proposal-IsKnown r l c = elim (Option-cases r.high_qc) [
    | inl n ↦ rw (n, parent_for_proposal) (latest-IsKnown r l)
    | inr (qc, e) ↦ rw (e, parent_for_proposal) (subst (IsEmbeddable r) e c).2
  ]

  -- A leader's own proposal keeps its tree linked, if its high QC is one that may be embedded.
  pub propose_command-TreeIsLinked :
      (r : Replica env) (view : ℕ) (command : ConsensusCommand) (now : ℕ)
      → TreeIsLinked r
      → IsEmbeddable r r.high_qc
      → TreeIsLinked (propose_command env r view command now).0
  unfolding propose_command
  propose_command-TreeIsLinked r view command now l c = elim (Bool-cases (is_leader env r view)) [
    | inr n ↦
        subst TreeIsLinked {x = r} {y = (propose_command env r view command now).0} (ground arith) l
    | inl t ↦
        insert-TreeIsLinked r (propose_command env r view command now).0
          (new_block env r view r.next_hash command) (ground arith) l
          (parent_for_proposal-IsKnown r l c)
  ]

  -- What a leader proposes is accepted by every replica that agrees with it on the validators and
  -- the epoch, knows the parent, and can check the leader's high QC.
  pub propose_command_accepted :
      (r s : Replica env) (view : ℕ) (command : ConsensusCommand) (b : Block) (now later : ℕ)
      → (propose_command env r view command now).1 ≡ some b
      → r.active_validators ≢ []
      → s.active_validators ≡ r.active_validators
      → s.config_epoch ≡ r.config_epoch
      → IsKnown s (parent_for_proposal env r)
      → IsEmbeddable s r.high_qc
      → (validate_and_insert_proposal env s b later).1 ≡ true
  unfolding propose_command new_block is_leader dynamic_leader_for_view leader_among
  propose_command_accepted r s view command b now later h ne a e k c =
      let built : new_block env r view r.next_hash command ≡ b = ground arith in
      let leader : leader_among r.active_validators r.config.id view ≡ r.config.id = ground arith in
      let agreed = leader_agreed r.active_validators r.config.id s.config.id view ne in
      (validate_and_insert_proposal_iff s b later).1 (
        subst (IsAcceptable s) built
          (record { by_leader = rw a (cc); in_epoch = sym e; extends = k; certified = c }))

  -- A proposal that carries a certificate of another epoch is rejected by every replica of the
  -- proposal's epoch. This is what a leader proposes after a reconfiguration, until it has a newer
  -- high QC: its own certificate is of the epoch before.
  pub propose_command_stale :
      (r s : Replica env) (view : ℕ) (command : ConsensusCommand) (b : Block) (qc : QuorumCert)
      (now later : ℕ)
      → (propose_command env r view command now).1 ≡ some b
      → r.high_qc ≡ some qc
      → qc.epoch ≢ r.config_epoch
      → validate_and_insert_proposal env s b later ≡ (s, false)
  unfolding propose_command new_block
  propose_command_stale r s view command b qc now later h q ne =
      elim (Bool-cases (validate_and_insert_proposal env s b later).1) [
        | inr f ↦ ground (arith, state_rejected s b later f)
        | inl t ↦
            let x = (validate_and_insert_proposal_iff s b later).0 t in
            let built : new_block env r view r.next_hash command ≡ b = ground arith in
            let carried : b.qc ≡ some qc = ground arith in
            let same = (subst (IsEmbeddable s) carried x.certified).0 in
            absurd (ne (same ∙ sym x.in_epoch ∙ ground arith))
      ]
