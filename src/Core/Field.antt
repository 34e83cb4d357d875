-- ===== src/Core/Field.antt =====
-- krep-core/src/field.rs: the Poseidon2 sponge over field elements, and bytes as field elements.
pub mod Encoding
use k_rep.Base.{
  ℕ, ◌+◌, ◌-◌, ◌≡◌, ◌↔◌, ◌<◌, ◌^◌, Bool, true, List, [], ◌∷◌, ◌++◌, map, length, take, drop,
  replicate, slice, get_or, from_be, chunks, min,
}

-- `FieldElement` and `poseidon2_permutation` of the Noir crates, which the repository does not hold.
pub record FieldOps (F : Type 0) : Type 0 where
  -- `Field::from(u128)`, `+=`, the permutation of a state, `to_be_bytes`, `to_string` and `==`
  pub of_u128 : ℕ → F
  pub add : F → F → F
  pub permutation : List F → List F
  pub to_be_bytes : F → List ℕ
  pub to_string : F → List ℕ
  pub same : F → F → Bool
  -- numbers below 2 ^ 128 fit the field, and two elements are rendered alike only if they are one
  pub of_u128-injective : (a b : ℕ) → a < 2 ^ 128 → b < 2 ^ 128 → of_u128 a ≡ of_u128 b → a ≡ b
  pub to_string-injective : (a b : F) → to_string a ≡ to_string b → a ≡ b
  pub same_iff : (a b : F) → (same a b ≡ true) ↔ (a ≡ b)

abbrev pub width : ℕ
width = 4

abbrev pub rate : ℕ
rate = 3

abbrev pub iv_leaf : ℕ
iv_leaf = 1

abbrev pub iv_node : ℕ
iv_node = 2

-- `buf[16 - chunk.len()..].copy_from_slice(chunk)` on a zeroed buffer.
unfoldable pub pad_limb : List ℕ → List ℕ
pad_limb chunk = replicate (16 - length chunk) 0 ++ chunk

module _ {F : Type 0} ⦃field : FieldOps F⦄ where
  unfoldable pub zero_element : F
  zero_element = field.of_u128 0

  unfoldable pub limbs : List ℕ → List F
  limbs bytes =
      field.of_u128 (from_be (slice 0 16 bytes)) ∷ field.of_u128 (from_be (slice 16 32 bytes)) ∷ []

  -- `state[slot] += *x` for the slots of one chunk.
  unfoldable pub absorb : List F → List F → List F
  absorb [] xs = []
  absorb (s ∷ ss) [] = s ∷ ss
  absorb (s ∷ ss) (x ∷ xs) = field.add s x ∷ absorb ss xs

  unfoldable pub sponge_loop : List F → List (List F) → List F
  unfolding absorb
  sponge_loop state [] = state
  sponge_loop state (chunk ∷ rest) =
      sponge_loop (take width (field.permutation (absorb state chunk))) rest

  unfoldable pub sponge : ℕ → List F → F
  unfolding sponge_loop zero_element
  sponge iv inputs =
      let zero = zero_element in
      let state : List F = zero ∷ zero ∷ zero ∷ field.of_u128 iv ∷ [] in
      get_or (sponge_loop state (chunks rate inputs)) 0 zero

  unfoldable pub hash_leaf_fields : List F → F
  hash_leaf_fields fields = sponge iv_leaf fields

  -- The fields that `hash_leaf` and `hash_tagged_bytes` absorb for a value: limbs, then its length.
  unfoldable pub value_fields : List ℕ → List F
  unfolding pad_limb
  value_fields value =
      map (λ chunk. field.of_u128 (from_be (pad_limb chunk))) (chunks 16 value)
      ++ field.of_u128 (length value) ∷ []

  unfoldable pub hash_leaf : List ℕ → F
  hash_leaf value = hash_leaf_fields (value_fields value)

  unfoldable pub hash_node : F → F → F
  hash_node left right = sponge iv_node (left ∷ right ∷ [])

  unfoldable pub to_be_32 : F → List ℕ
  to_be_32 f =
      let be = field.to_be_bytes f in
      let n = min (length be) 32 in replicate (32 - n) 0 ++ drop (length be - n) be

unfoldable pub hash_tagged_bytes : (F : Type 0) ⦃field : FieldOps F⦄ → ℕ → List ℕ → List ℕ
hash_tagged_bytes F tag value = to_be_32 {F = F} (sponge tag (value_fields value))
