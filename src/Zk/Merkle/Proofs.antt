-- ===== src/Zk/Merkle/Proofs.antt =====
-- The proof for a value that was put in verifies, in both kinds of tree (krep-zk/src/merkle.rs).
use k_rep.Base.{
  ℕ, zero, suc, ◌/◌, ◌^◌, ◌<◌, ◌≤◌, ◌≡◌, inl, inr, refl, ap, sym, ◌∙◌, true, some, List, [], ◌∷◌,
  get_elem?, get_or, length, arith, Bool-cases, ltb,
}
use native.Mathlib.Nat.{pow-suc}
use k_rep.Core.Field.{FieldOps, hash_leaf, zero_element}
use k_rep.Zk.Merkle.{
  MerkleTree, MerkleProof, from_sorted_leaves, minimal_levels, pair_up, prove, prove_loop, root,
  verify, climb, index_of, last_level, first, right_sibling, position,
}
use k_rep.Zk.Merkle.Ladder.{halved, IsLadder, climb-prove_loop}

pub halved-lt : (n i : ℕ) → i < 2 ^ n → halved n i ≡ 0
halved-lt zero i h = omega arith
halved-lt (suc n) i h =
    let half : i / 2 < 2 ^ n = omega (arith, pow-suc 2 n) in halved-lt n (i / 2) half

pub get_elem?-lt {ℓ} :
    {A : Type ℓ} (l : List A) (i : ℕ) (x : A) → get_elem? l i ≡ some x → i < length l
get_elem?-lt [] i x h = cc h
get_elem?-lt (y ∷ ys) zero x h = omega arith
get_elem?-lt (y ∷ ys) (suc i) x h = omega (arith, get_elem?-lt ys i x h)

pub get_elem?-get_or {ℓ} :
    {A : Type ℓ} (l : List A) (i : ℕ) (d : A) → i < length l → get_elem? l i ≡ some (get_or l i d)
get_elem?-get_or [] i d h = absurd (omega arith)
get_elem?-get_or (y ∷ ys) zero d h = refl
get_elem?-get_or (y ∷ ys) (suc i) d h = get_elem?-get_or ys i d (omega arith)

first-get_elem? : {F : Type 0} (l : List F) → first l ≡ get_elem? l 0
first-get_elem? [] = refl
first-get_elem? (x ∷ xs) = refl

module _ {F : Type 0} ⦃field : FieldOps F⦄ where
  -- `prove` gives a proof for the value, and it verifies against the root.
  abbrev pub IsProvable : MerkleTree F → List ℕ → Type 0
  IsProvable t value =
      (proof : MerkleProof F) × (r : F) × (prove t value ≡ some proof)
      × (root t ≡ some r)
      × (verify r value proof ≡ true)

  -- A tree whose levels stand one above the other, and where the position ends at the root.
  pub provable :
      (t : MerkleTree F) (ls : List (List F)) (i : ℕ) (value : List ℕ)
      → t.levels ≡ t.leaves ∷ ls
      → IsLadder t.empties 0 (t.leaves ∷ ls)
      → index_of t value ≡ some i
      → get_elem? t.leaves i ≡ some (hash_leaf value)
      → ((top : List F)
          → last_level (t.leaves ∷ ls) ≡ some top
          → halved (length ls) i < length top
          → halved (length ls) i ≡ 0)
      → IsProvable t value
  unfolding prove root verify
  provable t ls i value e ladder found there end =
      let (top, last, reached) =
        climb-prove_loop t.empties 0 i t.leaves ls (hash_leaf value) zero_element ladder there in
      let finish = end top last (get_elem?-lt top (halved (length ls) i) _ reached) in
      let siblings = prove_loop t.empties 0 i (t.leaves ∷ ls) zero_element in
      let r = climb i (hash_leaf value) siblings in
      let at_root : first top ≡ some r =
        first-get_elem? top ∙ ap (get_elem? top) (sym finish) ∙ reached in
      (
        record { leaf_index = i; siblings = siblings },
        r,
        rw (found, e),
        rw (e, last) at_root,
        (field.same_iff r r).1 refl,
      )

  length-pair_up :
      (lone : F → F) (l : List F)
      → (length (pair_up lone l) ≤ length l) × (2 ≤ length l → length (pair_up lone l) < length l)
  unfolding pair_up
  length-pair_up lone [] = (omega arith, λ h. absurd (omega arith))
  length-pair_up lone (a ∷ []) = (omega arith, λ h. absurd (omega arith))
  length-pair_up lone (a ∷ b ∷ rest) =
      let below = (length-pair_up lone rest).0 in (omega arith, λ h. omega arith)

  minimal-IsLadder : (fuel height : ℕ) (l : List F) → IsLadder [] height (l ∷ minimal_levels fuel l)
  unfolding minimal_levels right_sibling
  minimal-IsLadder zero height l = tt
  minimal-IsLadder (suc fuel) height l = elim (Bool-cases (ltb 1 (length l))) [
    | inl b ↦ rw b (refl, minimal-IsLadder fuel (suc height) (pair_up (λ left. left) l))
    | inr b ↦ rw b tt
  ]

  -- The fuel is enough: the last level has one node at most.
  minimal-last :
      (fuel : ℕ) (l top : List F)
      → length l ≤ fuel
      → last_level (l ∷ minimal_levels fuel l) ≡ some top
      → length top ≤ 1
  unfolding minimal_levels
  minimal-last zero l top h e = let same : l ≡ top = cc e in rw (sym same) (omega arith)
  minimal-last (suc fuel) l top h e = elim (Bool-cases (ltb 1 (length l))) [
    | inl b ↦
        let up = pair_up (λ left. left) l in
        let many : 2 ≤ length l = ground arith in
        let shorter = (length-pair_up (λ left. left) l).1 many in
        minimal-last fuel up top (omega arith) (rw b at e)
    | inr b ↦ let same : l ≡ top = cc (rw b at e) in rw (sym same) (ground arith)
  ]

  pub build_of :
      (leaves : List F) (i : ℕ) (value : List ℕ)
      → position (hash_leaf value) leaves ≡ some i
      → get_elem? leaves i ≡ some (hash_leaf value)
      → IsProvable (from_sorted_leaves leaves) value
  unfolding from_sorted_leaves index_of
  build_of [] i value p there = cc there
  build_of (x ∷ xs) i value p there =
      provable (from_sorted_leaves (x ∷ xs)) (minimal_levels (length (x ∷ xs)) (x ∷ xs)) i value
        refl (minimal-IsLadder (length (x ∷ xs)) 0 (x ∷ xs)) p there
        (λ top last lt.
          omega (arith, minimal-last (length (x ∷ xs)) (x ∷ xs) top (omega arith) last))
