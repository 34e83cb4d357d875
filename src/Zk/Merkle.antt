-- ===== src/Zk/Merkle.antt =====
-- krep-zk/src/merkle.rs: the membership accumulator.
pub mod Ladder
pub mod Leaves
pub mod Proofs
pub mod Builds
pub mod Binding
use k_rep.Base.{
  ℕ, zero, suc, ◌+◌, ◌-◌, ◌/◌, ◌%◌, ◌^◌, Bool, true, false, not, Option, none, some, List, [], ◌∷◌,
  ◌++◌, map, length, get_elem?, get_or, ltb, leb, ◌==◌, if◌then◌else◌, then_some,
}
use k_rep.Core.Field.{FieldOps, zero_element, hash_leaf, hash_leaf_fields, hash_node}

pub record MerkleTree (F : Type 0) : Type 0 where
  pub levels : List (List F)
  pub leaves : List F
  pub empties : List F

pub record MerkleProof (F : Type 0) : Type 0 where
  pub leaf_index : ℕ
  pub siblings : List F

-- The order of `String`: byte by byte.
unfoldable pub leb_string : List ℕ → List ℕ → Bool
leb_string [] ys = true
leb_string (x ∷ xs) [] = false
leb_string (x ∷ xs) (y ∷ ys) =
    let rest = leb_string xs ys in if ltb x y then true else if x == y then rest else false

module _ {F : Type 0} where
  -- `levels.last()`
  abbrev pub last_level : List (List F) → Option (List F)
  last_level [] = none
  last_level (l ∷ []) = some l
  last_level (l ∷ m ∷ ls) = last_level (m ∷ ls)

  abbrev pub first : List F → Option F
  first [] = none
  first (x ∷ xs) = some x

  unfoldable pub root : MerkleTree F → Option F
  root t = then_some (last_level t.levels) first

  -- `pair.get(1)` or what stands in for it, and an empty `Vec` replaced.
  abbrev pub unwrap_or : Option F → F → F
  unwrap_or none d = d
  unwrap_or (some x) d = x

  abbrev pub if_empty : List F → F → List F
  if_empty [] d = d ∷ []
  if_empty (x ∷ xs) d = x ∷ xs

  -- What `prove` takes for the sibling of a node at an even position.
  unfoldable pub right_sibling : Option F → Option F → F → F
  right_sibling (some s) filler node = s
  right_sibling none (some f) node = f
  right_sibling none none node = node

  -- The sibling at one level, by the parity of the position.
  unfoldable pub sibling_at : List F → ℕ → List F → ℕ → F → F
  unfolding right_sibling
  sibling_at empties height level index d =
      if index % 2 == 0
      then right_sibling (get_elem? level (index + 1)) (get_elem? empties height)
          (get_or level index d)
      else get_or level (index - 1) d

  -- The loop of `prove`, over all levels but the last.
  unfoldable pub prove_loop : List F → ℕ → ℕ → List (List F) → F → List F
  prove_loop empties height index [] d = []
  prove_loop empties height index (l ∷ []) d = []
  prove_loop empties height index (l ∷ m ∷ ls) d =
      sibling_at empties height l index d ∷ prove_loop empties (suc height) (index / 2) (m ∷ ls) d

module _ {F : Type 0} ⦃field : FieldOps F⦄ where
  unfoldable pub empty_leaf : F
  empty_leaf = hash_leaf_fields []

  -- `sort_unstable_by_key(|f| f.to_string())`: different elements have different strings, so any
  -- sorting gives one result.
  unfoldable pub insert_sorted : F → List F → List F
  insert_sorted x [] = x ∷ []
  insert_sorted x (y ∷ ys) =
      let rest = insert_sorted x ys in
      if leb_string (field.to_string x) (field.to_string y) then x ∷ y ∷ ys else y ∷ rest

  unfoldable pub sort : List F → List F
  sort [] = []
  sort (x ∷ xs) = insert_sorted x (sort xs)

  -- `dedup`: of equal neighbours the first stays.
  unfoldable pub dedup_after : F → List F → List F
  dedup_after x [] = x ∷ []
  dedup_after x (y ∷ ys) =
      let skip = dedup_after x ys in
      let keep = dedup_after y ys in if field.same x y then skip else x ∷ keep

  unfoldable pub dedup : List F → List F
  dedup [] = []
  dedup (x ∷ xs) = dedup_after x xs

  unfoldable pub sorted_leaves : List (List ℕ) → List F
  sorted_leaves values = dedup (sort (map (λ v. hash_leaf v) values))

  -- `prev.chunks(2)`, where `lone` gives the right node for a left one without a neighbour.
  unfoldable pub pair_up : (F → F) → List F → List F
  pair_up lone [] = []
  pair_up lone (a ∷ []) = hash_node a (lone a) ∷ []
  pair_up lone (a ∷ b ∷ rest) = hash_node a b ∷ pair_up lone rest

  -- `for level in 0..n`, each time pushing the node over two copies of the last hash.
  unfoldable pub empties_above : ℕ → F → List F
  empties_above zero below = []
  empties_above (suc n) below = let next = hash_node below below in next ∷ empties_above n next

  -- The levels above `prev`, for `n` more rounds from the height `height`.
  unfoldable pub fixed_levels : List F → ℕ → ℕ → List F → List (List F)
  fixed_levels empties height zero prev = []
  fixed_levels empties height (suc n) prev =
      let filler = get_or empties height zero_element in
      let next =
        if_empty (pair_up (λ left. filler) prev) (get_or empties (height + 1) zero_element) in
      next ∷ fixed_levels empties (suc height) n next

  -- `none` where the assertion on the number of leaves fails.
  -- `1usize << depth` is not cut to 64 bits.
  unfoldable pub build_fixed_depth : List (List ℕ) → ℕ → Option (MerkleTree F)
  build_fixed_depth values depth =
      let leaves = sorted_leaves values in
      let empties : List F = empty_leaf ∷ empties_above depth empty_leaf in
      if leb (length leaves) (2 ^ depth)
      then some (record {
        levels = leaves ∷ fixed_levels empties 0 depth leaves;
        leaves = leaves;
        empties = empties;
      })
      else none

  -- The loop on fuel: each level above the leaves is shorter, so their number is enough.
  unfoldable pub minimal_levels : ℕ → List F → List (List F)
  minimal_levels zero prev = []
  minimal_levels (suc fuel) prev =
      let next = pair_up (λ left. left) prev in
      let rest = minimal_levels fuel next in if ltb 1 (length prev) then next ∷ rest else []

  unfoldable pub from_sorted_leaves : List F → MerkleTree F
  from_sorted_leaves [] = record { levels = [] ∷ []; leaves = []; empties = [] }
  from_sorted_leaves (x ∷ xs) = record {
    levels = (x ∷ xs) ∷ minimal_levels (length (x ∷ xs)) (x ∷ xs);
    leaves = x ∷ xs;
    empties = [];
  }

  unfoldable pub build : List (List ℕ) → MerkleTree F
  build values = from_sorted_leaves (sorted_leaves values)

  -- `iter().position(..)`
  unfoldable pub position : F → List F → Option ℕ
  position x [] = none
  position x (y ∷ ys) =
      let rest = position x ys in
      if field.same y x then some 0 else then_some rest (λ i. some (suc i))

  unfoldable pub index_of : MerkleTree F → List ℕ → Option ℕ
  index_of t value = position (hash_leaf value) t.leaves

  unfoldable pub prove : MerkleTree F → List ℕ → Option (MerkleProof F)
  prove t value = then_some (index_of t value) (λ index. some (record {
    leaf_index = index;
    siblings = prove_loop t.empties 0 index t.levels zero_element;
  }))

  abbrev pub climb_step : ℕ → F → F → F
  climb_step index node sibling =
      if index % 2 == 0 then hash_node node sibling else hash_node sibling node

  unfoldable pub climb : ℕ → F → List F → F
  climb index node [] = node
  climb index node (s ∷ ss) = climb (index / 2) (climb_step index node s) ss

  unfoldable pub verify : F → List ℕ → MerkleProof F → Bool
  verify root value proof =
      field.same (climb proof.leaf_index (hash_leaf value) proof.siblings) root
