-- ===== src/Simulation/Quorum.antt =====
-- Which rounds of the cluster can form a certificate.
use persisthotstuff_rst.Base.{
  ℕ, zero, suc, ◌+◌, ◌≤◌, ◌<◌, ◌≡◌, refl, ap, ◌∙◌, inl, inr, Bool, none, some, List, [], ◌∷◌, ◌++◌,
  length, get_elem?, All, All-append, length-append, ◌==◌, if◌then◌else◌, arith, Bool-cases,
  Option-cases,
}
use persisthotstuff_rst.Types.{Hash, Block}
use persisthotstuff_rst.Replica.{Env, Replica, dynamic_quorum_size}
use persisthotstuff_rst.Replica.Votes.{pooled}
use persisthotstuff_rst.Replica.Proposals.{validate_and_insert_proposal}
use persisthotstuff_rst.Network.{
  Network, Message, proposal, vote, quorum_cert_broadcast, new_view, send, send_vote, send_each,
  broadcast_proposal, clear,
}
use persisthotstuff_rst.Simulation.{Simulation, mark_responded}
use persisthotstuff_rst.Simulation.Round.{voting, collecting, emptied}
use persisthotstuff_rst.Simulation.Messages.{
  deliver_proposal, deliver_proposals, put_replica, vote_for,
}
use persisthotstuff_rst.Simulation.Recovered.{get_elem?-set_other}
use persisthotstuff_rst.Simulation.Ballots.{IsBallot, IsOffer, reached, voters, deliver_votes-none}

reached-cons :
    (out : ℕ → Bool) (m : Message) (ms : List Message)
    → reached out (m ∷ ms) ≡ reached out (m ∷ []) + reached out ms
unfolding reached
reached-cons out (proposal from to b) ms = ground arith
reached-cons out (vote from to v) ms = omega arith
reached-cons out (quorum_cert_broadcast from to qc h) ms = omega arith
reached-cons out (new_view from to view qc) ms = omega arith

reached-append :
    (out : ℕ → Bool) (ms : List Message) (from to : ℕ) (b : Block)
    → reached out (ms ++ proposal from to b ∷ []) ≡ reached out ms + (if out to then 0 else 1)
unfolding reached
reached-append out [] from to b = ground arith
reached-append out (m ∷ ms) from to b = omega (
  arith,
  reached-cons out m (ms ++ proposal from to b ∷ []),
  reached-cons out m ms,
  reached-append out ms from to b,
)

module _ (env : Env) where
  -- The state while the proposals are delivered: the leader is as it was, and the queue holds some
  -- votes for the block.
  record Polling (leader : ℕ) (h : Hash) (r : Replica env) (most : ℕ) (s : Simulation env)
      : Type 0 where
    same_leader : get_elem? s.replicas leader ≡ some r
    ballots : All (IsBallot leader h) s.network.message_queue
    few : length s.network.message_queue ≤ most

  deliver_proposal-Polling :
      (out : ℕ → Bool) (now leader most : ℕ) (b : Block) (r : Replica env) (s : Simulation env)
      (m : Message)
      → IsOffer leader b m
      → Polling leader b.hash r most s
      → Polling leader b.hash r (most + reached out (m ∷ [])) (deliver_proposal env out now s m)
  unfolding deliver_proposal put_replica mark_responded send_vote send vote_for reached
  deliver_proposal-Polling out now leader most b r s (proposal from to x) (f, n, e) p =
      elim (Bool-cases (out to)) [
        | inl t ↦ record {
          same_leader = ground (arith, p.same_leader);
          ballots = ground (arith, p.ballots);
          few = ground (arith, p.few);
        }
        | inr o ↦ elim (Option-cases (get_elem? s.replicas to)) [
          | inl g ↦ record {
            same_leader = ground (arith, p.same_leader);
            ballots = ground (arith, p.ballots);
            few = ground (arith, p.few);
          }
          | inr (q, g) ↦
              let checked = validate_and_insert_proposal env q x now in
              let v = vote_for env checked.0 x in
              let ballot : IsBallot leader b.hash (vote to from v) =
                (f, ap (λ (y : Block). y.hash) e) in
              let other =
                get_elem?-set_other s.replicas to leader checked.0 (ground arith) ∙ p.same_leader in
              record {
                same_leader = ground (arith, other);
                ballots = ground (
                  arith,
                  p.ballots,
                  All-append (IsBallot leader b.hash) s.network.message_queue (vote to from v ∷ [])
                      p.ballots (ballot, tt),
                );
                few =
                    ground
                      (arith, p.few, length-append s.network.message_queue (vote to from v ∷ []));
              }
        ]
      ]
  deliver_proposal-Polling out now leader most b r s (vote from to v) o p = absurd o
  deliver_proposal-Polling out now leader most b r s (quorum_cert_broadcast from to qc x) o p =
      absurd o
  deliver_proposal-Polling out now leader most b r s (new_view from to view qc) o p = absurd o

  deliver_proposals-Polling :
      (out : ℕ → Bool) (now leader most : ℕ) (b : Block) (r : Replica env) (s : Simulation env)
      (ms : List Message)
      → All (IsOffer leader b) ms
      → Polling leader b.hash r most s
      → Polling leader b.hash r (most + reached out ms) (deliver_proposals env out now s ms)
  unfolding deliver_proposals reached
  deliver_proposals-Polling out now leader most b r s [] o p = record {
    same_leader = p.same_leader;
    ballots = p.ballots;
    few = omega (arith, p.few);
  }
  deliver_proposals-Polling out now leader most b r s (m ∷ ms) o p =
      let one = deliver_proposal-Polling out now leader most b r s m o.0 p in
      let rest =
        deliver_proposals-Polling out now leader (most + reached out (m ∷ [])) b r
          (deliver_proposal env out now s m) ms o.1 one in
      record {
        same_leader = rest.same_leader;
        ballots = rest.ballots;
        few = omega (arith, rest.few, reached-cons out m ms);
      }

  offered :
      (out : ℕ → Bool) (leader left to : ℕ) (b : Block) (n : Network)
      → All (IsOffer leader b) n.message_queue
      → All
          (IsOffer leader b)
          (send_each (λ to. proposal leader to b) leader left to n).message_queue
        × (reached out (send_each (λ to. proposal leader to b) leader left to n).message_queue
            ≡ reached out n.message_queue + voters out leader left to)
  unfolding send_each send voters
  offered out leader zero to b n a = (a, omega arith)
  offered out leader (suc left) to b n a = elim (Bool-cases (to == leader)) [
    | inl t ↦ ground (arith, offered out leader left (to + 1) b n a)
    | inr f ↦
        let m = proposal leader to b in
        ground (
          arith,
          reached-append out n.message_queue leader to b,
          offered out leader left (to + 1) b (send n m)
              (All-append (IsOffer leader b) n.message_queue (m ∷ []) a ((refl, f, refl), tt)),
        )
  ]

  -- The votes that a block gets.
  polled :
      (out : ℕ → Bool) (now leader : ℕ) (b : Block) (s : Simulation env) (r : Replica env)
      → get_elem? s.replicas leader ≡ some r
      → s.network.message_queue ≡ []
      → Polling leader b.hash r
          (voters out leader s.network.num_replicas 0)
          (voting env out now s leader b)
  unfolding voting emptied broadcast_proposal clear reached
  polled out now leader b s r g q =
      let sent = send_each (λ to. proposal leader to b) leader s.network.num_replicas 0 s.network in
      let o = offered out leader s.network.num_replicas 0 b s.network (rw (q) tt) in
      let start : Polling leader b.hash r 0 (emptied env (record s { network = sent })) = record {
        same_leader = g;
        ballots = tt;
        few = omega arith;
      } in
      let p =
        deliver_proposals-Polling out now leader 0 b r (emptied env (record s { network = sent }))
          sent.message_queue o.0 start in
      record {
        same_leader = p.same_leader;
        ballots = p.ballots;
        few = omega (arith, p.few, o.1, ap (reached out) q);
      }

  -- The leader does not vote for its own block. If fewer than a quorum of the other replicas take
  -- part in a round, the block of the round, of which the leader has no votes yet, gets no
  -- certificate, on a network without other messages.
  pub no_certificate :
      (out : ℕ → Bool) (now leader : ℕ) (b : Block) (s : Simulation env) (r : Replica env)
      → get_elem? s.replicas leader ≡ some r
      → s.network.message_queue ≡ []
      → pooled r.vote_pool b.hash ≡ []
      → voters out leader s.network.num_replicas 0 < dynamic_quorum_size env r
      → (collecting env out now (voting env out now s leader b)).1 ≡ none
  unfolding collecting emptied clear
  no_certificate out now leader b s r g q h c =
      let voted = voting env out now s leader b in
      let p = polled out now leader b s r g q in
      deliver_votes-none env out now leader b.hash (emptied env voted, none)
        voted.network.message_queue r p.ballots refl p.same_leader
        (omega (arith, p.few, ap length h))
