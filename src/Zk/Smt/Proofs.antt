-- ===== src/Zk/Smt/Proofs.antt =====
-- An honest proof verifies (`prove` and `verify` of krep-zk/src/smt.rs).
use k_rep.Base.{
  ℕ, zero, suc, ◌+◌, ◌-◌, ◌<◌, ◌≡◌, ◌⊎◌, inl, inr, refl, ap, ap₂, sym, ◌∙◌, Bool, true, false, not,
  ◌&&◌, List, [], ◌∷◌, ◌++◌, get_or, length, length-append, length-reverse, reverse, arith, All,
  IsArray, Option-cases,
}
use k_rep.Core.Field.{FieldOps, zero_element, hash_node}
use k_rep.Zk.Smt.{
  SparseMerkleTree, bit, depth, is_under, same_bit, members, lookup, subtree, root, from_keys,
  prove_loop, prove, climb, climb_step, verify, verify_absence, proves_absence, contains_key,
  unwrap_or, is_present,
}
use k_rep.Zk.Smt.Bits.{is_under-injective}
use k_rep.Zk.Smt.Paths.{is_under-snoc, climb-append, length-prove_loop, get_or-empties}
use k_rep.Zk.Smt.Members.{
  members-lookup, members-first, members-snoc-nil, IsTree, lookup-IsEntry, from_keys-IsTree,
}

pub List-cases {ℓ} : {A : Type ℓ} (l : List A) → (l ≡ []) ⊎ ((x : A) × (xs : List A) × (l ≡ x ∷ xs))
List-cases [] = inl refl
List-cases (x ∷ xs) = inr (x, xs, refl)

same_bit_refl : (b : Bool) → same_bit b b ≡ true
same_bit_refl true = refl
same_bit_refl false = refl

module _ {F : Type 0} ⦃field : FieldOps F⦄ where
  pub subtree-nil :
      (t : SparseMerkleTree F) (level : ℕ) (p : List Bool)
      → members p t.entries ≡ []
      → subtree t level p ≡ get_or t.empties level zero_element
  unfolding subtree
  subtree-nil t zero p e = rw (subtree, e)
  subtree-nil t (suc level) p e = rw (subtree, e)

  nodes-cons :
      (t : SparseMerkleTree F) (level : ℕ) (p : List Bool) (m : List ℕ) (ms : List (List ℕ))
      → members p t.entries ≡ m ∷ ms
      → subtree t (suc level) p
        ≡ hash_node (subtree t level (p ++ false ∷ [])) (subtree t level (p ++ true ∷ []))
  unfolding subtree
  nodes-cons t level p m ms e = rw (subtree, e)

  -- A subtree is the node over its two halves, also where it is empty.
  pub subtree-suc :
      (t : SparseMerkleTree F) (level : ℕ) (p : List Bool)
      → IsTree t
      → level < depth
      → subtree t (suc level) p
        ≡ hash_node (subtree t level (p ++ false ∷ [])) (subtree t level (p ++ true ∷ []))
  subtree-suc t level p h lt = elim (List-cases (members p t.entries)) [
    | inl e ↦
        subtree-nil t (suc level) p e
        ∙ ap (λ l. get_or l (suc level) zero_element) h.empties
        ∙ get_or-empties depth level zero_element zero_element lt
        ∙ ap (λ l. hash_node (get_or l level zero_element) (get_or l level zero_element))
            (sym h.empties)
        ∙ ap₂ hash_node (sym (subtree-nil t level _ (members-snoc-nil p false t.entries e)))
            (sym (subtree-nil t level _ (members-snoc-nil p true t.entries e)))
    | inr (m, ms, e) ↦ nodes-cons t level p m ms e
  ]

  pub leaf-cons :
      (t : SparseMerkleTree F) (p : List Bool) (m : List ℕ) (ms : List (List ℕ))
      → members p t.entries ≡ m ∷ ms
      → subtree t zero p ≡ unwrap_or (lookup m t.entries) zero_element
  unfolding subtree
  leaf-cons t p m ms e = rw (subtree, e)

  -- At the bottom stands what is stored for the key.
  subtree-leaf :
      (t : SparseMerkleTree F) (key : List ℕ) (p : List Bool)
      → IsTree t
      → IsArray 32 key
      → length p ≡ depth
      → is_under 0 p key ≡ true
      → unwrap_or (lookup key t.entries) zero_element ≡ subtree t zero p
  subtree-leaf t key p h k w u = elim (List-cases (members p t.entries)) [
    | inl e ↦ elim (Option-cases (lookup key t.entries)) [
      | inl absent ↦
          ap (λ o. unwrap_or o zero_element) absent
          ∙ sym (subtree-nil t zero p e ∙ ap (λ l. get_or l 0 zero_element) h.empties)
      | inr (v, there) ↦ absurd (members-lookup p t.entries key v there u e)
    ]
    | inr (m, ms, e) ↦
        let (under, found) = members-first p t.entries m ms e in
        let array = (lookup-IsEntry m t.entries found.0 h.entries found.1).0 in
        let same = is_under-injective p key m k array w u under in
        ap (λ c. unwrap_or (lookup c t.entries) zero_element) same ∙ sym (leaf-cons t p m ms e)
  ]

  -- The siblings below a prefix lead from the leaf to the subtree of the prefix.
  climb-prove_loop :
      (t : SparseMerkleTree F) (key : List ℕ) (level : ℕ) (p : List Bool)
      → IsTree t
      → IsArray 32 key
      → level + length p ≡ depth
      → is_under 0 p key ≡ true
      → climb key 0
          (unwrap_or (lookup key t.entries) zero_element)
          (reverse (prove_loop t key level p))
        ≡ subtree t level p
  unfolding prove_loop climb
  climb-prove_loop t key zero p h k w u = subtree-leaf t key p h k (omega (arith, w)) u
  climb-prove_loop t key (suc level) p h k w u =
      let b = bit key level in
      let below = p ++ b ∷ [] in
      let leaf = unwrap_or (lookup key t.entries) zero_element in
      let rest = prove_loop t key level below in
      let sibling = subtree t level (p ++ not b ∷ []) in
      let place : depth - 1 - (0 + length p) ≡ level = omega (arith, w) in
      let under : is_under 0 below key ≡ true =
        is_under-snoc 0 p b key
        ∙ ap₂ ◌&&◌ u (ap (λ l. same_bit (bit key l) b) place ∙ same_bit_refl b) in
      let deeper =
        climb-prove_loop t key level below h k (omega (arith, length-append p (b ∷ []))) under in
      let top : 0 + length (reverse rest) ≡ level =
        omega (arith, length-reverse rest, length-prove_loop t key level below) in
      climb-append key 0 leaf (reverse rest) (sibling ∷ [])
      ∙ ap₂ (λ l node. climb_step (bit key l) node sibling) top deeper
      ∙ halves b refl
      ∙ sym (subtree-suc t level p h (omega arith))
    where
      halves :
          (b : Bool)
          → bit key level ≡ b
          → climb_step
              (bit key level)
              (subtree t level (p ++ bit key level ∷ []))
              (subtree t level (p ++ not (bit key level) ∷ []))
            ≡ hash_node (subtree t level (p ++ false ∷ [])) (subtree t level (p ++ true ∷ []))
      halves true e = rw e
      halves false e = rw e

  pub length-siblings :
      (t : SparseMerkleTree F) (key : List ℕ) → length (prove t key).siblings ≡ depth
  unfolding prove
  length-siblings t key =
      length-reverse (prove_loop t key depth []) ∙ length-prove_loop t key depth []

  -- The path that `prove` gives leads from what is stored for the key to the root.
  pub climb-prove :
      (t : SparseMerkleTree F) (key : List ℕ)
      → IsTree t
      → IsArray 32 key
      → climb key 0 (unwrap_or (lookup key t.entries) zero_element) (prove t key).siblings ≡ root t
  unfolding prove root is_under
  climb-prove t key h k = climb-prove_loop t key depth [] h k refl refl

  value-prove : (t : SparseMerkleTree F) (key : List ℕ) → (prove t key).value ≡ lookup key t.entries
  unfolding prove
  value-prove t key = refl

  key-prove : (t : SparseMerkleTree F) (key : List ℕ) → (prove t key).key ≡ key
  unfolding prove
  key-prove t key = refl

  pub verify_absence-prove :
      (t : SparseMerkleTree F) (key : List ℕ)
      → IsTree t
      → IsArray 32 key
      → (verify (root t) (prove t key) ≡ true)
        × (verify_absence (root t) (prove t key) ≡ not (contains_key t key))
  unfolding verify verify_absence proves_absence contains_key
  verify_absence-prove t key h k =
      let same = (field.same_iff _ _).1 (climb-prove t key h k) in
      let verified : verify (root t) (prove t key) ≡ true =
        rw (length-siblings t key, key-prove t key, value-prove t key) same in
      (
        verified,
        ap (λ b. proves_absence (prove t key) && b) verified
            ∙ and-true _
            ∙ ap (λ o. not (is_present o)) (value-prove t key),
      )
    where
      and-true : (c : Bool) → (c && true) ≡ c
      and-true true = refl
      and-true false = refl

-- In the tree of any list of keys, the proof for any key verifies against the root, and
-- `verify_absence` accepts it exactly when the key is not in the tree.
pub verify-prove :
    (F : Type 0) ⦃field : FieldOps F⦄ (keys : List (List ℕ)) (key : List ℕ)
    → All (IsArray 32) keys
    → IsArray 32 key
    → let t = from_keys {F = F} keys in
      (verify (root t) (prove t key) ≡ true)
      × (verify_absence (root t) (prove t key) ≡ not (contains_key t key))
verify-prove F keys key ks k =
    verify_absence-prove (from_keys {F = F} keys) key (from_keys-IsTree keys ks) k
