-- ===== src/Network/Delivery.antt =====
-- What the network delivers, and in which order.
use persisthotstuff_rst.Base.{
  ℕ, zero, suc, ◌+◌, ◌^◌, ◌<◌, All, ◌≡◌, refl, sym, ◌∙◌, none, some, List, [], ◌∷◌, ◌++◌, not, ltb,
  leb, ◌==◌, ◌&&◌, if◌then◌else◌, arith,
}
use mathlib.Core.List.{append-nil, append_assoc}
use persisthotstuff_rst.Types.{Hash, ReplicaId, Block}
use persisthotstuff_rst.BTree.SetLaws.{IsAscending}
use persisthotstuff_rst.Network.{
  Message, Network, receiver, send, send_each, proposal, broadcast_proposal, generate_unique_hash,
  receive,
}

-- How many messages of a queue are for one replica.
abbrev pub addressed : ReplicaId → List Message → ℕ
addressed id [] = 0
addressed id (m ∷ ms) = (if receiver m == id then 1 else 0) + addressed id ms

addressed-append :
    (id : ReplicaId) (ms ns : List Message)
    → addressed id (ms ++ ns) ≡ addressed id ms + addressed id ns
addressed-append id [] ns = omega arith
addressed-append id (m ∷ ms) ns = ground (arith, addressed-append id ms ns)

send_each-addressed :
    (msg : ReplicaId → Message) (from left to : ℕ) (n : Network) (id : ReplicaId)
    → ((i : ReplicaId) → receiver (msg i) ≡ i)
    → addressed id (send_each msg from left to n).message_queue
      ≡ addressed id n.message_queue
        + (if leb to id && ltb id (to + left) && not (id == from) then 1 else 0)
unfolding send_each send
send_each-addressed msg from zero to n id r = ground arith
send_each-addressed msg from (suc left) to n id r = ground (
  arith,
  r to,
  addressed-append id n.message_queue (msg to ∷ []),
  send_each-addressed msg from left (to + 1) (if not (to == from) then send n (msg to) else n) id r,
)

-- A broadcast sends one message to each other replica of the network, and none to its sender.
pub broadcast_proposal-addressed :
    (n : Network) (from id : ReplicaId) (block : Block)
    → addressed id (broadcast_proposal n from block).message_queue
      ≡ addressed id n.message_queue + (if ltb id n.num_replicas && not (id == from) then 1 else 0)
unfolding broadcast_proposal receiver
broadcast_proposal-addressed n from id block = ground (
  arith,
  send_each-addressed (λ to. proposal from to block) from n.num_replicas 0 n id (λ i. refl),
)

-- What is done with a network, the clearing for tests aside.
pub data Action : Type 0 where
  sends : Message → Action
  receives : Action

-- The network after some actions, with the messages sent and the messages received on the way.
unfoldable pub play : Network → List Action → Network × List Message × List Message
play n [] = (n, [], [])
play n (sends m ∷ as') = let rest = play (send n m) as' in (rest.0, m ∷ rest.1, rest.2)
play n (receives ∷ as') =
    let r = receive n in
    let rest = play r.0 as' in elim r.1 [ none ↦ rest | some m ↦ (rest.0, rest.1, m ∷ rest.2) ]

InOrder : Network → List Action → Type 0
InOrder n as' = n.message_queue ++ (play n as').1 ≡ (play n as').2 ++ (play n as').0.message_queue

receives-InOrder :
    (n : Network) (as' : List Action) (q : List Message)
    → n.message_queue ≡ q
    → ((k : Network) → InOrder k as')
    → InOrder n (receives ∷ as')
unfolding InOrder play receive
receives-InOrder n as' [] e ih = ground (arith, ih n)
receives-InOrder n as' (m ∷ q) e ih = ground (arith, ih (record n { message_queue = q }))

-- First in, first out: whatever is sent and received in turn, the messages received are, in the
-- same order, those that waited at first and those that were sent since, up to the ones that still
-- wait. None is lost, doubled or overtaken.
pub play_in_order :
    (n : Network) (as' : List Action)
    → n.message_queue ++ (play n as').1 ≡ (play n as').2 ++ (play n as').0.message_queue
unfolding play send InOrder
play_in_order n [] = append-nil n.message_queue
play_in_order n (sends m ∷ as') =
    sym (append_assoc n.message_queue (m ∷ []) (play (send n m) as').1)
    ∙ play_in_order (send n m) as'
play_in_order n (receives ∷ as') =
    receives-InOrder n as' n.message_queue refl (λ k. play_in_order k as')

-- The hashes of some calls of `generate_unique_hash`.
unfoldable pub hashes : ℕ → Network → List Hash
hashes zero n = []
hashes (suc k) n = let g = generate_unique_hash n in let rest = hashes k g.0 in g.1 ∷ rest

hashes-above :
    (k : ℕ) (n : Network) (x : ℕ)
    → x < n.next_global_hash
    → n.next_global_hash + k < 2 ^ 64
    → All (λ j. x < j) (hashes k n)
unfolding hashes generate_unique_hash
hashes-above zero n x l b = tt
hashes-above (suc k) n x l b =
    (l, hashes-above k (generate_unique_hash n).0 x (omega arith) (omega arith))

-- As long as the counter stays below 2^64, each hash is greater than all before it: no two blocks
-- get the same.
pub hashes-IsAscending :
    (k : ℕ) (n : Network) → n.next_global_hash + k < 2 ^ 64 → IsAscending (hashes k n)
unfolding hashes generate_unique_hash
hashes-IsAscending zero n b = tt
hashes-IsAscending (suc k) n b = (
  hashes-above k (generate_unique_hash n).0 n.next_global_hash (omega arith) (omega arith),
  hashes-IsAscending k (generate_unique_hash n).0 (omega arith),
)
