-- ===== src/Tests/Trees.antt =====
-- krep-zk's Merkle trees at concrete inputs.
use k_rep.Base.{
  ℕ, ◌≡◌, ◌/◌, refl, true, none, some, List, [], ◌∷◌, beq_bytes, any, chunks, length, from_be,
}
use k_rep.Core.Field.{
  hash_leaf, hash_node, hash_leaf_fields, sponge, sponge_loop, absorb, value_fields, pad_limb,
  zero_element,
}
use k_rep.Zk.Merkle.{
  MerkleTree, MerkleProof, build, build_fixed_depth, from_sorted_leaves, minimal_levels,
  fixed_levels, empties_above, empty_leaf, sorted_leaves, sort, insert_sorted, dedup, dedup_after,
  leb_string, pair_up, prove, prove_loop, index_of, position, sibling_at, right_sibling, root,
  verify, climb,
}
use k_rep.Zk.Merkle.Proofs.{IsProvable}
use k_rep.Zk.Merkle.Builds.{verify-build, verify-build_fixed_depth}
use k_rep.Zk.Merkle.Binding.{hash_leaf-verify, HaveNoCollision}
use k_rep.Tests.Toy.{toy_field}
use k_rep.Tests.Accumulators.{hash_pair-injective}

tree : Unit {0}
unfolding build from_sorted_leaves minimal_levels sorted_leaves sort insert_sorted dedup dedup_after
    leb_string pair_up prove prove_loop index_of position sibling_at right_sibling root verify climb
    hash_leaf hash_node hash_leaf_fields sponge sponge_loop absorb value_fields pad_limb
    zero_element chunks from_be build_fixed_depth fixed_levels empties_above empty_leaf beq_bytes
tree = tt

abbrev three : List (List ℕ)
three = (1 ∷ []) ∷ (2 ∷ []) ∷ (3 ∷ []) ∷ []

abbrev second : List ℕ
second = 2 ∷ []

present : any (beq_bytes second) three ≡ true
unfolding tree
present = refl

absent : prove (build {F = ℕ} three) (4 ∷ []) ≡ none
unfolding tree
absent = refl

verify-build_example : IsProvable (build {F = ℕ} three) second
verify-build_example = verify-build ℕ three second present

abbrev small_tree : MerkleTree ℕ
small_tree = record {
  levels = (hash_leaf second ∷ []) ∷ (hash_node (hash_leaf second) empty_leaf ∷ []) ∷ [];
  leaves = hash_leaf second ∷ [];
  empties = empty_leaf ∷ hash_node empty_leaf empty_leaf ∷ [];
}

small_build : build_fixed_depth (second ∷ second ∷ []) 1 ≡ some small_tree
unfolding tree
small_build = refl

overfull : build_fixed_depth {F = ℕ} three 1 ≡ none
unfolding tree
overfull = refl

twice_present : any (beq_bytes second) (second ∷ second ∷ []) ≡ true
unfolding tree
twice_present = refl

verify-build_fixed_depth_example :
    IsProvable small_tree second
    × ((proof : MerkleProof ℕ) → prove small_tree second ≡ some proof → length proof.siblings ≡ 1)
verify-build_fixed_depth_example =
    verify-build_fixed_depth ℕ (second ∷ second ∷ []) second 1 small_tree twice_present small_build

abbrev small_proof : MerkleProof ℕ
small_proof = record { leaf_index = 0; siblings = empty_leaf ∷ [] }

small_verifies : verify (hash_node (hash_leaf second) empty_leaf) second small_proof ≡ true
unfolding tree
small_verifies = refl

no_collision :
    (index x : ℕ) (xs : List ℕ) (y : ℕ) (ys : List ℕ) → HaveNoCollision {F = ℕ} index x xs y ys
no_collision index x [] y ys = tt
no_collision index x (s ∷ xs) y [] = tt
no_collision index x (s ∷ xs) y (t ∷ ys) =
    (hash_pair-injective _ _, no_collision (index / 2) _ xs _ ys)

hash_leaf-verify_example : ◌≡◌ {A = ℕ} (hash_leaf second) (hash_leaf second)
hash_leaf-verify_example =
    hash_leaf-verify (hash_node (hash_leaf second) empty_leaf) second second small_proof small_proof
      refl refl
      (no_collision 0 (hash_leaf second) (empty_leaf ∷ []) (hash_leaf second) (empty_leaf ∷ []))
      small_verifies small_verifies
