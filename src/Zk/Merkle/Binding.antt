-- ===== src/Zk/Merkle/Binding.antt =====
-- A root and a position open to one leaf (`verify` of krep-zk/src/merkle.rs).
use k_rep.Base.{
  ℕ, ◌/◌, ◌%◌, ◌≡◌, refl, ap, sym, ◌∙◌, Bool, true, false, List, [], ◌∷◌, length, ◌==◌,
  if◌then◌else◌, arith,
}
use k_rep.Core.Field.{FieldOps, hash_node, hash_leaf}
use k_rep.Zk.Merkle.{MerkleProof, climb, verify}

module _ {F : Type 0} ⦃field : FieldOps F⦄ where
  -- The two nodes that are hashed at one level, left and right.
  abbrev pub pair_at : Bool → F → F → F × F
  pair_at true node sibling = (node, sibling)
  pair_at false node sibling = (sibling, node)

  abbrev pub hash_pair : F × F → F
  hash_pair p = hash_node p.0 p.1

  -- Level by level, two paths from one position hash no two different pairs to one node.
  abbrev pub HaveNoCollision : ℕ → F → List F → F → List F → Type 0
  HaveNoCollision index x [] y ys = Unit {0}
  HaveNoCollision index x (s ∷ xs) y [] = Unit {0}
  HaveNoCollision index x (s ∷ xs) y (t ∷ ys) =
      let p = pair_at (index % 2 == 0) x s in
      let q = pair_at (index % 2 == 0) y t in
      (hash_pair p ≡ hash_pair q → p ≡ q)
      × HaveNoCollision (index / 2) (hash_pair p) xs (hash_pair q) ys

  step-pair :
      (b : Bool) (node sibling : F)
      → (if b then hash_node node sibling else hash_node sibling node)
        ≡ hash_pair (pair_at b node sibling)
  step-pair true node sibling = refl
  step-pair false node sibling = refl

  node_of_pair : (b : Bool) (x s y t : F) → pair_at b x s ≡ pair_at b y t → x ≡ y
  node_of_pair true x s y t e = ap (λ p. p.0) e
  node_of_pair false x s y t e = ap (λ p. p.1) e

  climb-injective :
      (index : ℕ) (x : F) (xs : List F) (y : F) (ys : List F)
      → length xs ≡ length ys
      → HaveNoCollision index x xs y ys
      → climb index x xs ≡ climb index y ys
      → x ≡ y
  unfolding climb
  climb-injective index x [] y [] w free e = e
  climb-injective index x [] y (t ∷ ys) w free e = absurd (omega arith)
  climb-injective index x (s ∷ xs) y [] w free e = absurd (omega arith)
  climb-injective index x (s ∷ xs) y (t ∷ ys) w free e =
      let b = index % 2 == 0 in
      let e' = rw (step-pair b x s, step-pair b y t) at e in
      node_of_pair b x s y t
        (free.0 (climb-injective (index / 2) _ xs _ ys (omega arith) free.1 e'))

  -- Two proofs for one position that are of one length and verify against one root are for values
  -- with the same leaf, unless their paths hash different pairs to one node.
  pub hash_leaf-verify :
      (r : F) (v w : List ℕ) (p q : MerkleProof F)
      → p.leaf_index ≡ q.leaf_index
      → length p.siblings ≡ length q.siblings
      → HaveNoCollision p.leaf_index (hash_leaf v) p.siblings (hash_leaf w) q.siblings
      → verify r v p ≡ true
      → verify r w q ≡ true
      → ◌≡◌ {A = F} (hash_leaf v) (hash_leaf w)
  unfolding verify
  hash_leaf-verify r v w p q same width free hv hw =
      let up = (field.same_iff _ r).0 hv in
      let up' = (field.same_iff _ r).0 hw in
      climb-injective p.leaf_index (hash_leaf v) p.siblings (hash_leaf w) q.siblings width free
        (up ∙ sym up' ∙ ap (λ i. climb i (hash_leaf w) q.siblings) (sym same))
