-- ===== src/Zk/Smt.antt =====
-- krep-zk/src/smt.rs: the sparse Merkle tree over defaulted pseudonyms. A key is a list of 32
-- bytes; the hash map of entries is an association list, whose order is that of its iteration.
pub mod Bits
pub mod Paths
pub mod Members
pub mod Proofs
pub mod Absence
pub mod Sets
use k_rep.Base.{
  ℕ, zero, suc, ◌+◌, ◌-◌, ◌/◌, ◌%◌, ◌^◌, bit_and, Bool, true, false, not, ◌&&◌, Option, none, some,
  List, [], ◌∷◌, ◌++◌, get_or, length, ◌==◌, if◌then◌else◌, beq_bytes, reverse,
}
use k_rep.Core.Field.{FieldOps, zero_element, hash_leaf, hash_node}

abbrev pub depth : ℕ
depth = 256

-- `SparseMerkleTree::bit`: level 0 is the leaf, and the root splits on the first bit.
unfoldable pub bit : List ℕ → ℕ → Bool
bit key level =
    let idx = depth - 1 - level in not (bit_and (get_or key (idx / 8) 0) (2 ^ (7 - idx % 8)) == 0)

abbrev pub same_bit : Bool → Bool → Bool
same_bit true b = b
same_bit false b = not b

-- `prefix.iter().enumerate().all(..)`, from the index `i` on.
unfoldable pub is_under : ℕ → List Bool → List ℕ → Bool
is_under i [] key = true
is_under i (b ∷ bs) key = same_bit (bit key (depth - 1 - i)) b && is_under (suc i) bs key

pub record SparseMerkleTree (F : Type 0) : Type 0 where
  pub entries : List (List ℕ × F)
  pub empties : List F

pub record SmtProof (F : Type 0) : Type 0 where
  pub key : List ℕ
  pub siblings : List F
  pub value : Option F

module _ {F : Type 0} where
  -- `HashMap::get`
  unfoldable pub lookup : List ℕ → List (List ℕ × F) → Option F
  lookup key [] = none
  lookup key (e ∷ es) = if beq_bytes key e.0 then some e.1 else lookup key es

  -- `HashMap::insert`
  unfoldable pub put : List ℕ → F → List (List ℕ × F) → List (List ℕ × F)
  put key value [] = (key, value) ∷ []
  put key value (e ∷ es) =
      let rest = put key value es in if beq_bytes key e.0 then (key, value) ∷ es else e ∷ rest

  abbrev pub is_present : Option F → Bool
  is_present none = false
  is_present (some v) = true

  unfoldable pub contains_key : SparseMerkleTree F → List ℕ → Bool
  contains_key t key = is_present (lookup key t.entries)

  abbrev pub unwrap_or : Option F → F → F
  unwrap_or none d = d
  unwrap_or (some v) d = v

  -- `entries.keys().filter(..)`
  unfoldable pub members : List Bool → List (List ℕ × F) → List (List ℕ)
  members prefix [] = []
  members prefix (e ∷ es) =
      let rest = members prefix es in if is_under 0 prefix e.0 then e.0 ∷ rest else rest

  unfoldable pub proves_absence : SmtProof F → Bool
  proves_absence proof = not (is_present proof.value)

module _ {F : Type 0} ⦃field : FieldOps F⦄ where
  -- `for level in 0..n`, each time pushing the node over two copies of the last hash.
  unfoldable pub empties_above : ℕ → F → List F
  empties_above zero below = []
  empties_above (suc n) below = let next = hash_node below below in next ∷ empties_above n next

  unfoldable pub new : SparseMerkleTree F
  new = record { entries = []; empties = zero_element ∷ empties_above depth zero_element }

  unfoldable pub insert : SparseMerkleTree F → List ℕ → SparseMerkleTree F
  insert t key = record t { entries = put key (hash_leaf key) t.entries }

  unfoldable pub insert_all : SparseMerkleTree F → List (List ℕ) → SparseMerkleTree F
  insert_all t [] = t
  insert_all t (k ∷ ks) = insert_all (insert t k) ks

  unfoldable pub from_keys : List (List ℕ) → SparseMerkleTree F
  from_keys keys = insert_all new keys

  unfoldable pub subtree : SparseMerkleTree F → ℕ → List Bool → F
  subtree t zero prefix = elim (members prefix t.entries) [
    | [] ↦ get_or t.empties 0 zero_element
    | m ∷ ms ↦ unwrap_or (lookup m t.entries) zero_element
  ]
  subtree t (suc level) prefix = elim (members prefix t.entries) [
    | [] ↦ get_or t.empties (suc level) zero_element
    | m ∷ ms ↦
        hash_node (subtree t level (prefix ++ false ∷ [])) (subtree t level (prefix ++ true ∷ []))
  ]

  unfoldable pub root : SparseMerkleTree F → F
  root t = subtree t depth []

  -- The loop of `prove` over the levels below `n`, from the top: the siblings it pushes.
  unfoldable pub prove_loop : SparseMerkleTree F → List ℕ → ℕ → List Bool → List F
  prove_loop t key zero prefix = []
  prove_loop t key (suc level) prefix =
      let going_right = bit key level in
      subtree t level (prefix ++ not going_right ∷ [])
      ∷ prove_loop t key level (prefix ++ going_right ∷ [])

  unfoldable pub prove : SparseMerkleTree F → List ℕ → SmtProof F
  prove t key = record {
    key = key;
    siblings = reverse (prove_loop t key depth []);
    value = lookup key t.entries;
  }

  abbrev pub climb_step : Bool → F → F → F
  climb_step true node sibling = hash_node sibling node
  climb_step false node sibling = hash_node node sibling

  -- The loop of `verify`, from the level `level` up.
  unfoldable pub climb : List ℕ → ℕ → F → List F → F
  climb key level node [] = node
  climb key level node (s ∷ ss) = climb key (suc level) (climb_step (bit key level) node s) ss

  unfoldable pub verify : F → SmtProof F → Bool
  verify root proof =
      if not (length proof.siblings == depth)
      then false
      else field.same (climb proof.key 0 (unwrap_or proof.value zero_element) proof.siblings) root

  unfoldable pub verify_absence : F → SmtProof F → Bool
  verify_absence root proof = proves_absence proof && verify root proof
