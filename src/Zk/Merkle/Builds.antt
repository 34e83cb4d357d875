-- ===== src/Zk/Merkle/Builds.antt =====
-- Completeness of both builds (`build`, `build_fixed_depth` and `prove` of krep-zk/src/merkle.rs).
use k_rep.Base.{
  ℕ, zero, suc, ◌+◌, ◌^◌, ◌<◌, ◌≤◌, ◌≡◌, inl, inr, refl, ap, sym, ◌∙◌, true, none, some, List, [],
  ◌∷◌, get_elem?, get_or, length, arith, any, beq_bytes, leb, if-cases, then_some-eq-some,
}
use k_rep.Core.Field.{FieldOps, hash_node, hash_leaf, zero_element}
use k_rep.Zk.Merkle.{
  MerkleTree, MerkleProof, build, build_fixed_depth, fixed_levels, empties_above, empty_leaf,
  pair_up, sorted_leaves, prove, prove_loop, index_of, if_empty, right_sibling, position,
}
use k_rep.Zk.Merkle.Ladder.{halved, fill_of, IsLadder}
use k_rep.Zk.Merkle.Leaves.{is_in-sorted_leaves, is_in-value, position-is_in}
use k_rep.Zk.Merkle.Proofs.{
  IsProvable, provable, build_of, halved-lt, get_elem?-get_or, get_elem?-lt,
}

if_empty-nonempty : {F : Type 0} (l : List F) (d : F) → 1 ≤ length l → if_empty l d ≡ l
if_empty-nonempty [] d h = absurd (omega arith)
if_empty-nonempty (x ∷ xs) d h = refl

length-prove_loop :
    {F : Type 0} (empties : List F) (height index : ℕ) (l : List F) (ls : List (List F)) (d : F)
    → length (prove_loop empties height index (l ∷ ls) d) ≡ length ls
unfolding prove_loop
length-prove_loop empties height index l [] d = refl
length-prove_loop empties height index l (m ∷ ls) d =
    ap suc (length-prove_loop empties (suc height) _ m ls d)

module _ {F : Type 0} ⦃field : FieldOps F⦄ where
  nonempty-pair_up : (lone : F → F) (l : List F) → 1 ≤ length l → 1 ≤ length (pair_up lone l)
  unfolding pair_up
  nonempty-pair_up lone [] h = absurd (omega arith)
  nonempty-pair_up lone (a ∷ []) h = omega arith
  nonempty-pair_up lone (a ∷ b ∷ rest) h = omega arith

  length-empties_above : (n : ℕ) (below : F) → length (empties_above n below) ≡ n
  unfolding empties_above
  length-empties_above zero below = refl
  length-empties_above (suc n) below = ap suc (length-empties_above n (hash_node below below))

  length-fixed_levels :
      (empties : List F) (height n : ℕ) (prev : List F)
      → length (fixed_levels empties height n prev) ≡ n
  unfolding fixed_levels
  length-fixed_levels empties height zero prev = refl
  length-fixed_levels empties height (suc n) prev =
      ap suc (length-fixed_levels empties (suc height) n _)

  -- While the height is one of `empties`, what is filled in is what `prove` takes.
  filler-fill_of :
      (empties : List F) (height : ℕ)
      → height < length empties
      → ◌≡◌ {A = F → F} (λ left. get_or empties height zero_element) (fill_of empties height)
  unfolding right_sibling
  filler-fill_of empties height h =
      ap (λ o left. right_sibling none o left)
        (sym (get_elem?-get_or empties height zero_element h))

  fixed-IsLadder :
      (empties : List F) (height n : ℕ) (prev : List F)
      → height + n < length empties
      → 1 ≤ length prev
      → IsLadder empties height (prev ∷ fixed_levels empties height n prev)
  unfolding fixed_levels
  fixed-IsLadder empties height zero prev h p = tt
  fixed-IsLadder empties height (suc n) prev h p =
      let filler = get_or empties height zero_element in
      let full = nonempty-pair_up (λ left. filler) prev p in
      let same =
        if_empty-nonempty (pair_up (λ left. filler) prev) (get_or empties (height + 1) zero_element)
          full in
      (
        same ∙ ap (λ lone. pair_up lone prev) (filler-fill_of empties height (omega arith)),
        fixed-IsLadder empties (suc height) n _ (omega arith) (omega (arith, ap length same)),
      )

  -- A tree of fixed depth, for a value that stands among its leaves.
  fixed_of :
      (leaves : List F) (depth i : ℕ) (value : List ℕ) (t : MerkleTree F)
      → t ≡ record {
        levels = leaves ∷ fixed_levels (empty_leaf ∷ empties_above depth empty_leaf) 0 depth leaves;
        leaves = leaves;
        empties = empty_leaf ∷ empties_above depth empty_leaf;
      }
      → length leaves ≤ 2 ^ depth
      → position (hash_leaf value) leaves ≡ some i
      → get_elem? leaves i ≡ some (hash_leaf value)
      → IsProvable t value
        × ((proof : MerkleProof F) → prove t value ≡ some proof → length proof.siblings ≡ depth)
  unfolding index_of prove
  fixed_of leaves depth i value t made fits p there =
      let empties : List F = empty_leaf ∷ empties_above depth empty_leaf in
      let ls = fixed_levels empties 0 depth leaves in
      let rounds = length-fixed_levels empties 0 depth leaves in
      let small = get_elem?-lt leaves i (hash_leaf value) there in
      let ladder =
        fixed-IsLadder empties 0 depth leaves (omega (arith, length-empties_above depth empty_leaf))
          (omega arith) in
      (
        rw made (
            provable _ ls i value refl ladder p there
              (λ top last lt. ap (λ n. halved n i) rounds ∙ halved-lt depth i (omega arith))),
        λ proof e.
            let (index, found, e') = then_some-eq-some (index_of t value) _ e in
            let siblings : prove_loop t.empties 0 index t.levels zero_element ≡ proof.siblings =
              cc e' in
            sym (ap length siblings)
            ∙ ap (λ u. length (prove_loop u.empties 0 index u.levels zero_element)) made
            ∙ length-prove_loop empties 0 index leaves ls zero_element
            ∙ rounds,
      )

-- In the tree of minimal depth over some values, `prove` gives a proof for each of them, and the
-- proof verifies against the root.
pub verify-build :
    (F : Type 0) ⦃field : FieldOps F⦄ (values : List (List ℕ)) (value : List ℕ)
    → any (beq_bytes value) values ≡ true
    → IsProvable (build {F = F} values) value
unfolding build
verify-build F values value h =
    let there =
      is_in-sorted_leaves {F = F} values (hash_leaf value) ∙ is_in-value F values value h in
    let (i, p, at) = position-is_in (hash_leaf value) (sorted_leaves {F = F} values) there in
    build_of (sorted_leaves {F = F} values) i value p at

-- The same in a tree of fixed depth where it was built, and every proof has one sibling for each
-- level.
pub verify-build_fixed_depth :
    (F : Type 0) ⦃field : FieldOps F⦄ (values : List (List ℕ)) (value : List ℕ) (depth : ℕ)
    (t : MerkleTree F)
    → any (beq_bytes value) values ≡ true
    → build_fixed_depth values depth ≡ some t
    → IsProvable t value
      × ((proof : MerkleProof F) → prove t value ≡ some proof → length proof.siblings ≡ depth)
unfolding build_fixed_depth
verify-build_fixed_depth F values value depth t h built =
    let leaves = sorted_leaves {F = F} values in
    let there =
      is_in-sorted_leaves {F = F} values (hash_leaf value) ∙ is_in-value F values value h in
    let (i, p, at) = position-is_in (hash_leaf value) leaves there in
    elim (if-cases (leb (length leaves) (2 ^ depth)) _ _ built) [
      | inl (fits, e) ↦ fixed_of leaves depth i value t (sym (cc e)) (ground arith) p at
      | inr (over, e) ↦ cc e
    ]
