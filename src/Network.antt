-- ===== src/Network.antt =====
-- src/network.rs: the simulated network, a queue of messages. `simulate_delays` is never read.
pub mod Delivery
use persisthotstuff_rst.Base.{
  ℕ, zero, suc, ◌+◌, Bool, true, false, Option, none, some, List, [], ◌∷◌, ◌++◌, length, not, ◌==◌,
  if◌then◌else◌,
}
use persisthotstuff_rst.Types.{Hash, ReplicaId, Block, QuorumCert, Vote, wrapping_suc}

pub data Message : Type 0 where
  proposal : (from to : ReplicaId) → Block → Message
  vote : (from to : ReplicaId) → Vote → Message
  quorum_cert_broadcast : (from to : ReplicaId) → QuorumCert → (block_hash : Hash) → Message
  new_view : (from to : ReplicaId) (view : ℕ) (high_qc : Option QuorumCert) → Message

unfoldable pub sender : Message → ReplicaId
sender (proposal from to b) = from
sender (vote from to v) = from
sender (quorum_cert_broadcast from to qc h) = from
sender (new_view from to view qc) = from

unfoldable pub receiver : Message → ReplicaId
receiver (proposal from to b) = to
receiver (vote from to v) = to
receiver (quorum_cert_broadcast from to qc h) = to
receiver (new_view from to view qc) = to

-- The four counters of `messages_by_type`.
pub record ByType : Type 0 where
  pub proposals : ℕ
  pub votes : ℕ
  pub qcs : ℕ
  pub new_views : ℕ

pub record Network : Type 0 where
  pub message_queue : List Message
  pub num_replicas : ℕ
  pub simulate_delays : Bool
  pub total_messages_sent : ℕ
  pub messages_by_type : ByType
  pub next_global_hash : Hash

unfoldable pub new : ℕ → Network
new num_replicas = record {
  message_queue = [];
  num_replicas = num_replicas;
  simulate_delays = false;
  total_messages_sent = 0;
  messages_by_type = record { proposals = 0; votes = 0; qcs = 0; new_views = 0 };
  next_global_hash = 1;
}

unfoldable pub counted : ByType → Message → ByType
counted c (proposal from to b) = record c { proposals = c.proposals + 1 }
counted c (vote from to v) = record c { votes = c.votes + 1 }
counted c (quorum_cert_broadcast from to qc h) = record c { qcs = c.qcs + 1 }
counted c (new_view from to view qc) = record c { new_views = c.new_views + 1 }

unfoldable pub send : Network → Message → Network
unfolding counted
send n msg = record n {
  total_messages_sent = n.total_messages_sent + 1;
  messages_by_type = counted n.messages_by_type msg;
  message_queue = n.message_queue ++ msg ∷ [];
}

-- `for to in 0..num_replicas`, of which `left` are left, without the sender itself.
unfoldable pub send_each : (ReplicaId → Message) → ReplicaId → (left to : ℕ) → Network → Network
send_each msg from zero to n = n
send_each msg from (suc left) to n =
    send_each msg from left (to + 1) (if not (to == from) then send n (msg to) else n)

unfoldable pub broadcast_proposal : Network → ReplicaId → Block → Network
unfolding send_each
broadcast_proposal n from block = send_each (λ to. proposal from to block) from n.num_replicas 0 n

unfoldable pub broadcast_qc : Network → ReplicaId → QuorumCert → Hash → Network
unfolding send_each
broadcast_qc n from qc block_hash =
    send_each (λ to. quorum_cert_broadcast from to qc block_hash) from n.num_replicas 0 n

unfoldable pub send_vote : Network → ReplicaId → ReplicaId → Vote → Network
unfolding send
send_vote n from to v = send n (vote from to v)

unfoldable pub broadcast_new_view : Network → ReplicaId → ℕ → Option QuorumCert → Network
unfolding send_each
broadcast_new_view n from view high_qc =
    send_each (λ to. new_view from to view high_qc) from n.num_replicas 0 n

unfoldable pub receive : Network → Network × Option Message
receive n = elim n.message_queue [
  | [] ↦ (n, none)
  | msg ∷ rest ↦ (record n { message_queue = rest }, some msg)
]

unfoldable pub has_messages : Network → Bool
has_messages n = elim n.message_queue [ [] ↦ false | msg ∷ rest ↦ true ]

unfoldable pub pending_count : Network → ℕ
pending_count n = length n.message_queue

unfoldable pub clear : Network → Network
clear n = record n { message_queue = [] }

unfoldable pub generate_unique_hash : Network → Network × Hash
generate_unique_hash n =
    (record n { next_global_hash = wrapping_suc n.next_global_hash }, n.next_global_hash)
