-- ===== src/Simulation/Equivocation.antt =====
-- What a replica of the cluster does with two proposals for the same view.
use persisthotstuff_rst.Base.{
  ℕ, ◌≡◌, refl, ap, ◌∙◌, Bool, true, false, Option, none, some, [], ◌∷◌, ◌++◌, get_elem?, set,
  arith,
}
use mathlib.Core.List.{append_assoc}
use persisthotstuff_rst.BTree
use persisthotstuff_rst.BTree.MapLaws.{contains_key-insert}
use persisthotstuff_rst.Types.{Hash, Block, QuorumCert}
use persisthotstuff_rst.Replica.{Env, Replica, log, dynamic_leader_for_view, dynamic_quorum_size}
use persisthotstuff_rst.Replica.Proposals.{validate_and_insert_proposal}
use persisthotstuff_rst.Replica.Proposals.Acceptance.{
  IsEmbeddable, IsKnown, validate_and_insert_proposal_iff,
}
use persisthotstuff_rst.Network.{proposal, vote, send_vote, send}
use persisthotstuff_rst.Simulation.{Simulation, mark_responded}
use persisthotstuff_rst.Simulation.Messages.{
  deliver_proposal, deliver_proposals, put_replica, vote_for,
}
use persisthotstuff_rst.Simulation.Recovered.{get_elem?-set}

module _ (env : Env) where
  -- What acceptance depends on, after an accepted proposal.
  record Accepted (r s : Replica env) (b : Block) : Type 0 where
    active : s.active_validators ≡ r.active_validators
    config : s.config ≡ r.config
    epoch : s.config_epoch ≡ r.config_epoch
    keys : s.keystore ≡ r.keystore
    tree : s.block_tree ≡ BTree.insert b.hash b r.block_tree

  accepted :
      (r : Replica env) (b : Block) (now : ℕ)
      → (validate_and_insert_proposal env r b now).1 ≡ true
      → Accepted r (validate_and_insert_proposal env r b now).0 b
  unfolding validate_and_insert_proposal log
  accepted r b now h = ground (arith, h)

  Accepted-IsKnown :
      (r s : Replica env) (b : Block) (p : Option Hash)
      → Accepted r s b
      → IsKnown env r p
      → IsKnown env s p
  Accepted-IsKnown r s b none a k = tt
  Accepted-IsKnown r s b (some h) a k =
      ground (arith, k, a.tree, contains_key-insert b.hash h b r.block_tree)

  Accepted-IsEmbeddable :
      (r s : Replica env) (b : Block) (qc : Option QuorumCert)
      → Accepted r s b
      → IsEmbeddable env r qc
      → IsEmbeddable env s qc
  unfolding dynamic_quorum_size
  Accepted-IsEmbeddable r s b none a k = tt
  Accepted-IsEmbeddable r s b (some qc) a k = (
    ground (arith, k, a.epoch),
    rw (a.keys, a.active) (k.1),
    ground (arith, k, a.tree, contains_key-insert b.hash qc.block_hash b r.block_tree),
  )

  -- A replica that accepts a block still accepts every other one that it would have accepted before.
  accepts_again :
      (r : Replica env) (b c : Block) (now later : ℕ)
      → (validate_and_insert_proposal env r b now).1 ≡ true
      → (validate_and_insert_proposal env r c later).1 ≡ true
      → (validate_and_insert_proposal env (validate_and_insert_proposal env r b now).0 c later).1
        ≡ true
  unfolding dynamic_leader_for_view
  accepts_again r b c now later h k =
      let s = (validate_and_insert_proposal env r b now).0 in
      let a = accepted r b now h in
      let x = (validate_and_insert_proposal_iff env r c later).0 k in
      (validate_and_insert_proposal_iff env s c later).1 (record {
        by_leader = rw (a.active, a.config) (x.by_leader);
        in_epoch = ground (arith, x.in_epoch, a.epoch);
        extends = Accepted-IsKnown r s b c.parent a x.extends;
        certified = Accepted-IsEmbeddable r s b c.qc a x.certified;
      })

  same_vote :
      (r s : Replica env) (b : Block)
      → s.keystore ≡ r.keystore
      → vote_for env s b ≡ vote_for env r b
  unfolding vote_for
  same_vote r s b e = rw e refl

  -- One accepted proposal, and the vote for it.
  deliver_accepted :
      (out : ℕ → Bool) (now leader to : ℕ) (b : Block) (s : Simulation env) (r : Replica env)
      → get_elem? s.replicas to ≡ some r
      → out to ≡ false
      → (validate_and_insert_proposal env r b now).1 ≡ true
      → ((deliver_proposal env out now s (proposal leader to b)).replicas
          ≡ set s.replicas to (validate_and_insert_proposal env r b now).0)
        × ((deliver_proposal env out now s (proposal leader to b)).network.message_queue
            ≡ s.network.message_queue ++ vote to leader (vote_for env r b) ∷ [])
  unfolding deliver_proposal put_replica mark_responded send_vote send
  deliver_accepted out now leader to b s r g o h =
      let t = (validate_and_insert_proposal env r b now).0 in
      let e = same_vote r t b (accepted r b now h).keys in (ground (arith, h), ground (arith, h, e))

  -- There is no rule on what a replica may vote for once it has voted. If it would accept each of
  -- two proposals, of one view and in conflict or not, and receives them one after the other, it
  -- votes for both.
  pub votes_twice :
      (out : ℕ → Bool) (now leader to : ℕ) (b c : Block) (s : Simulation env) (r : Replica env)
      → get_elem? s.replicas to ≡ some r
      → out to ≡ false
      → (validate_and_insert_proposal env r b now).1 ≡ true
      → (validate_and_insert_proposal env r c now).1 ≡ true
      → (deliver_proposals env out now s
          (proposal leader to b ∷ proposal leader to c ∷ [])).network.message_queue
        ≡ s.network.message_queue
          ++ vote to leader (vote_for env r b) ∷ vote to leader (vote_for env r c) ∷ []
  unfolding deliver_proposals
  votes_twice out now leader to b c s r g o h k =
      let one = deliver_accepted out now leader to b s r g o h in
      let t = (validate_and_insert_proposal env r b now).0 in
      let s1 = deliver_proposal env out now s (proposal leader to b) in
      let at : get_elem? s1.replicas to ≡ some t =
        ap (λ x. get_elem? x to) one.0 ∙ get_elem?-set s.replicas to r t g in
      let two = deliver_accepted out now leader to c s1 t at o (accepts_again r b c now now h k) in
      two.1
      ∙ ap (λ q. q ++ vote to leader (vote_for env t c) ∷ []) one.1
      ∙ append_assoc s.network.message_queue (vote to leader (vote_for env r b) ∷ [])
          (vote to leader (vote_for env t c) ∷ [])
      ∙ ap
          (λ v.
            s.network.message_queue ++ vote to leader (vote_for env r b) ∷ vote to leader v ∷ [])
          (same_vote r t c (accepted r b now h).keys)
