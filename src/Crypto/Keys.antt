-- ===== src/Crypto/Keys.antt =====
-- The keys of a cluster: generated and handed out, they verify each other's signatures.
use persisthotstuff_rst.Base.{
  ℕ, zero, suc, ◌+◌, ◌≡◌, refl, ap, inl, inr, true, some, List, [], ◌∷◌, map, In, All-In, All, ◌==◌,
  Bool-cases, arith,
}
use persisthotstuff_rst.BTree
use persisthotstuff_rst.BTree.{BTreeMap}
use persisthotstuff_rst.BTree.MapLaws.{get-insert, All-insert}
use persisthotstuff_rst.Types.{ReplicaId, Hash}
use persisthotstuff_rst.Crypto.{
  Ed25519, SignsCorrectly, KeyStore, sign, verify, vote_message, new_for_replica, draw_keys,
  generate_keys, public_key_map, distribute_keys,
}

module _ (lib : Ed25519) (draw : ReplicaId → lib.SigningKey) where
  abbrev pub Entry : Type 0
  Entry = ReplicaId × (lib.SigningKey × lib.VerifyingKey)

  -- The entry of a replica: the key drawn for it, and the public key that belongs to it.
  abbrev IsDrawn : Entry → Type 0
  IsDrawn k = ((k.1).0 ≡ draw k.0) × ((k.1).1 ≡ lib.verifying_key (draw k.0))

  draw_keys-IsDrawn :
      (left id : ℕ) (keys : BTreeMap (lib.SigningKey × lib.VerifyingKey))
      → All IsDrawn keys
      → All IsDrawn (draw_keys lib draw left id keys)
  unfolding draw_keys
  draw_keys-IsDrawn zero id keys a = a
  draw_keys-IsDrawn (suc left) id keys a =
      draw_keys-IsDrawn left (id + 1) (BTree.insert id (draw id, lib.verifying_key (draw id)) keys)
        (All-insert IsDrawn id (draw id, lib.verifying_key (draw id)) keys a (refl, refl))

  -- The entries that are visited are generated ones.
  abbrev Visits : List Entry → List Entry → Type 0
  Visits visit keys = (k : Entry) → In k visit → In k keys

  get-public_key_map :
      (visit : List Entry) (k : Entry)
      → ((e : Entry) → In e visit → IsDrawn e)
      → In k visit
      → BTree.get k.0 (public_key_map lib visit) ≡ some (lib.verifying_key (draw k.0))
  unfolding public_key_map
  get-public_key_map [] k a i = absurd i
  get-public_key_map ((id, (sk, vk)) ∷ visit) k a i = elim (Bool-cases (k.0 == id)) [
    | inl t ↦
        let d = a (id, (sk, vk)) (inl refl) in
        ground (arith, get-insert id k.0 vk (public_key_map lib visit), d.1)
    | inr f ↦ elim i [
      | inl e ↦ absurd (let q = ap (λ (x : Entry). x.0) e in ground arith)
      | inr m ↦ ground (
        arith,
        get-insert id k.0 vk (public_key_map lib visit),
        get-public_key_map visit k (λ e n. a e (inr n)) m,
      )
    ]
  ]

  In-map :
      (visit all : List Entry) (ks : KeyStore lib)
      → In ks (map (λ k. new_for_replica lib k.0 (k.1).0 (public_key_map lib all)) visit)
      → (k : Entry) × In k visit × (ks ≡ new_for_replica lib k.0 (k.1).0 (public_key_map lib all))
  In-map [] all ks i = absurd i
  In-map (k ∷ visit) all ks (inl e) = (k, inl refl, e)
  In-map (k ∷ visit) all ks (inr m) = let x = In-map visit all ks m in (x.0, inr x.1, x.2)

  -- The key stores of a cluster, made from generated keys: in whatever order the source visits
  -- the keys, every vote that one of the stores signs is verified by each of them, if the library
  -- signs correctly.
  pub distribute_keys-verify :
      (laws : SignsCorrectly lib) (n : ℕ) (visit : List Entry)
      → Visits visit (generate_keys lib draw n)
      → (signer checker : KeyStore lib) → In signer (distribute_keys lib visit)
      → In checker (distribute_keys lib visit)
      → (hash : Hash) (view epoch : ℕ)
      → verify lib checker (sign lib signer hash view epoch) hash view epoch ≡ true
  unfolding distribute_keys generate_keys new_for_replica verify sign
  distribute_keys-verify laws n visit v signer checker i j hash view epoch =
      let drawn : (e : Entry) → In e visit → IsDrawn e =
        λ e m. All-In IsDrawn (generate_keys lib draw n) e (draw_keys-IsDrawn n 0 [] tt) (v e m) in
      let s = In-map visit visit signer i in
      let c = In-map visit visit checker j in
      let d = drawn s.0 s.1 in
      let key = get-public_key_map visit s.0 drawn s.1 in
      ground (arith, s.2, c.2, d.0, key, laws (draw (s.0).0) (vote_message lib hash view epoch))
