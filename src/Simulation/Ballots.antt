-- ===== src/Simulation/Ballots.antt =====
-- The votes that a proposal of a round gets, counted.
use persisthotstuff_rst.Base.{
  ℕ, zero, suc, ◌+◌, ◌≤◌, ◌<◌, ◌≡◌, refl, sym, ap, ◌∙◌, inl, inr, Bool, false, Option, none, some,
  List, [], ◌∷◌, ◌++◌, length, get_elem?, set, All, length-append, ◌==◌, ◌||◌, if◌then◌else◌, arith,
  Bool-cases,
}
use persisthotstuff_rst.BTree.MapLaws.{get-insert}
use persisthotstuff_rst.Types.{Hash, Block, QuorumCert, Vote}
use persisthotstuff_rst.Replica.{Env, Replica, dynamic_quorum_size, log}
use persisthotstuff_rst.Replica.Votes.{pooled, handle_vote, try_form_qc}
use persisthotstuff_rst.Replica.Votes.Certificate.{handle_vote_incomplete}
use persisthotstuff_rst.Network.{Message, proposal, vote, quorum_cert_broadcast, new_view}
use persisthotstuff_rst.Simulation.{Simulation, mark_responded}
use persisthotstuff_rst.Simulation.Messages.{deliver_vote, deliver_votes, put_replica}
use persisthotstuff_rst.Simulation.Recovered.{get_elem?-set}

-- A vote for the block, on its way to the leader.
abbrev pub IsBallot : ℕ → Hash → Message → Type 0
IsBallot leader hash (vote from to v) = (to ≡ leader) × (v.block_hash ≡ hash)
IsBallot leader hash (proposal from to b) = ⊥
IsBallot leader hash (quorum_cert_broadcast from to qc h) = ⊥
IsBallot leader hash (new_view from to view qc) = ⊥

-- The leader's proposal, on its way to another replica.
abbrev pub IsOffer : ℕ → Block → Message → Type 0
IsOffer leader block (proposal from to b) = (from ≡ leader) × ((to == leader) ≡ false) × (b ≡ block)
IsOffer leader block (vote from to v) = ⊥
IsOffer leader block (quorum_cert_broadcast from to qc h) = ⊥
IsOffer leader block (new_view from to view qc) = ⊥

-- The proposals that reach a replica which takes part.
unfoldable pub reached : (ℕ → Bool) → List Message → ℕ
reached out [] = 0
reached out (proposal from to b ∷ ms) = if out to then reached out ms else suc (reached out ms)
reached out (vote from to v ∷ ms) = reached out ms
reached out (quorum_cert_broadcast from to qc h ∷ ms) = reached out ms
reached out (new_view from to view qc ∷ ms) = reached out ms

-- The replicas from `to` on, `left` of them, that take part and are not the leader.
unfoldable pub voters : (ℕ → Bool) → (leader left to : ℕ) → ℕ
voters out leader zero to = 0
voters out leader (suc left) to =
    let rest = voters out leader left (to + 1) in if to == leader || out to then rest else suc rest

module _ (env : Env) where
  handle_vote_count :
      (r : Replica env) (v : Vote) (now : ℕ) (h : Hash)
      → v.block_hash ≡ h
      → (length (pooled (handle_vote env r v now).0.vote_pool h)
          ≤ length (pooled r.vote_pool h) + 1)
        × (dynamic_quorum_size env (handle_vote env r v now).0 ≡ dynamic_quorum_size env r)
        × (length (pooled r.vote_pool h) + 1 < dynamic_quorum_size env r
            → (handle_vote env r v now).1 ≡ none)
  unfolding handle_vote try_form_qc log pooled dynamic_quorum_size
  handle_vote_count r v now h e =
      let sigs = pooled r.vote_pool v.block_hash in
      let l = length-append sigs (v.signature ∷ []) in
      let g = get-insert v.block_hash v.block_hash (sigs ++ v.signature ∷ []) r.vote_pool in
      let k = get-insert v.block_hash v.block_hash sigs r.vote_pool in
      (
        ground (arith, l, g, k, e),
        ground (arith, l, g, k, e),
        λ c. ground (
          arith,
          (handle_vote_incomplete env r v now
              (λ q. omega (arith, q.2, c, ap (λ x. length (pooled r.vote_pool x)) e))).0,
        ),
      )

  -- One vote that the leader looks at.
  deliver_vote_step :
      (out : ℕ → Bool) (now leader : ℕ) (h : Hash) (acc : Simulation env × Option QuorumCert)
      (m : Message) (r : Replica env)
      → IsBallot leader h m
      → acc.1 ≡ none
      → get_elem? acc.0.replicas leader ≡ some r
      → length (pooled r.vote_pool h) + 1 < dynamic_quorum_size env r
      → ((deliver_vote env out now acc m).1 ≡ none)
        × (t : Replica env) × (get_elem? (deliver_vote env out now acc m).0.replicas leader
            ≡ some t)
        × (length (pooled t.vote_pool h) ≤ length (pooled r.vote_pool h) + 1)
        × (dynamic_quorum_size env t ≡ dynamic_quorum_size env r)
  unfolding deliver_vote put_replica mark_responded
  deliver_vote_step out now leader h (s, qc) (vote from to v) r b n g c =
      let counted = handle_vote_count r v now h b.1 in
      let e : get_elem? s.replicas to ≡ some r = ap (get_elem? s.replicas) b.0 ∙ g in
      let put : get_elem? (set s.replicas to (handle_vote env r v now).0) leader
          ≡ some (handle_vote env r v now).0 =
        ap (get_elem? (set s.replicas to (handle_vote env r v now).0)) (sym b.0)
        ∙ get_elem?-set s.replicas to r (handle_vote env r v now).0 e in
      elim (Bool-cases (out to)) [
        | inl t ↦ (ground arith, r, ground arith, omega arith, refl)
        | inr f ↦ (
          ground (arith, counted.2 c),
          (handle_vote env r v now).0,
          ground (arith, put),
          counted.0,
          counted.1,
        )
      ]
  deliver_vote_step out now leader h acc (proposal from to x) r b n g c = absurd b
  deliver_vote_step out now leader h acc (quorum_cert_broadcast from to qc x) r b n g c = absurd b
  deliver_vote_step out now leader h acc (new_view from to view qc) r b n g c = absurd b

  -- Fewer votes than the quorum, the pooled ones included, form no certificate.
  pub deliver_votes-none :
      (out : ℕ → Bool) (now leader : ℕ) (h : Hash) (acc : Simulation env × Option QuorumCert)
      (ms : List Message) (r : Replica env)
      → All (IsBallot leader h) ms
      → acc.1 ≡ none
      → get_elem? acc.0.replicas leader ≡ some r
      → length (pooled r.vote_pool h) + length ms < dynamic_quorum_size env r
      → (deliver_votes env out now acc ms).1 ≡ none
  unfolding deliver_votes
  deliver_votes-none out now leader h acc [] r b n g c = n
  deliver_votes-none out now leader h acc (m ∷ ms) r b n g c =
      let x = deliver_vote_step out now leader h acc m r b.0 n g (omega arith) in
      deliver_votes-none out now leader h (deliver_vote env out now acc m) ms x.1 b.1 x.0 x.2
        (omega (arith, x.3, x.4))
