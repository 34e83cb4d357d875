-- ===== src/Zk/Smt/Absence.antt =====
-- What a verified proof of absence shows (`verify_absence` of krep-zk/src/smt.rs).
use k_rep.Base.{
  ℕ, suc, ◌≡◌, ◌≢◌, inl, inr, refl, ap, sym, ◌∙◌, Bool, true, false, List, [], ◌∷◌, length, arith,
  none, All, IsArray, Bool-cases, ◌==◌, Option-cases, ==_iff,
}
use k_rep.Core.Field.{FieldOps, zero_element, hash_leaf, hash_node}
use k_rep.Zk.Smt.{
  SparseMerkleTree, SmtProof, bit, depth, lookup, root, from_keys, prove, climb, climb_step, verify,
  verify_absence, proves_absence, contains_key,
}
use k_rep.Zk.Smt.Members.{IsTree, lookup-IsEntry, from_keys-IsTree}
use k_rep.Zk.Smt.Proofs.{climb-prove, length-siblings}

module _ {F : Type 0} ⦃field : FieldOps F⦄ where
  -- The two nodes that are hashed at one level of a path.
  abbrev pub pair_at : Bool → F → F → F × F
  pair_at true node sibling = (sibling, node)
  pair_at false node sibling = (node, sibling)

  abbrev pub hash_pair : F × F → F
  hash_pair p = hash_node p.0 p.1

  -- Level by level, two paths of one key hash no two different pairs to one node.
  abbrev pub HaveNoCollision : List ℕ → ℕ → F → List F → F → List F → Type 0
  HaveNoCollision key level x [] y ys = Unit {0}
  HaveNoCollision key level x (s ∷ xs) y [] = Unit {0}
  HaveNoCollision key level x (s ∷ xs) y (t ∷ ys) =
      let p = pair_at (bit key level) x s in
      let q = pair_at (bit key level) y t in
      (hash_pair p ≡ hash_pair q → p ≡ q)
      × HaveNoCollision key (suc level) (hash_pair p) xs (hash_pair q) ys

  step-pair :
      (b : Bool) (node sibling : F) → climb_step b node sibling ≡ hash_pair (pair_at b node sibling)
  step-pair true node sibling = refl
  step-pair false node sibling = refl

  node_of_pair : (b : Bool) (x s y t : F) → pair_at b x s ≡ pair_at b y t → x ≡ y
  node_of_pair true x s y t e = ap (λ p. p.1) e
  node_of_pair false x s y t e = ap (λ p. p.0) e

  -- Two paths of one length from different nodes do not meet.
  climb-injective :
      (key : List ℕ) (level : ℕ) (x : F) (xs : List F) (y : F) (ys : List F)
      → length xs ≡ length ys
      → HaveNoCollision key level x xs y ys
      → climb key level x xs ≡ climb key level y ys
      → x ≡ y
  unfolding climb
  climb-injective key level x [] y [] w free e = e
  climb-injective key level x [] y (t ∷ ys) w free e = absurd (omega arith)
  climb-injective key level x (s ∷ xs) y [] w free e = absurd (omega arith)
  climb-injective key level x (s ∷ xs) y (t ∷ ys) w free e =
      let b = bit key level in
      let e' = rw (step-pair b x s, step-pair b y t) at e in
      let hashes =
        climb-injective key (suc level) (hash_pair (pair_at b x s)) xs (hash_pair (pair_at b y t))
          ys (omega arith) free.1 e' in
      node_of_pair b x s y t (free.0 hashes)

  -- What a proof of absence consists of where it is accepted.
  verify_absence-eq-true :
      (r : F) (proof : SmtProof F)
      → verify_absence r proof ≡ true
      → (proof.value ≡ none)
        × (length proof.siblings ≡ depth)
        × (climb proof.key 0 zero_element proof.siblings ≡ r)
  unfolding verify_absence verify proves_absence
  verify_absence-eq-true r proof h = elim (Option-cases proof.value) [
    | inr (v, e) ↦ absurd (ground (arith, e))
    | inl e ↦ elim (Bool-cases (length proof.siblings == depth)) [
      | inr w ↦ absurd (ground (arith, w))
      | inl w ↦
          (e, (==_iff (length proof.siblings) depth).0 w, (field.same_iff _ r).0 (rw (e, w) at h))
    ]
  ]

  no_absence :
      (t : SparseMerkleTree F) (proof : SmtProof F)
      → IsTree t
      → IsArray 32 proof.key
      → ◌≢◌ {A = F} (hash_leaf proof.key) zero_element
      → HaveNoCollision proof.key 0 zero_element proof.siblings
          (hash_leaf proof.key)
          (prove t proof.key).siblings
      → verify_absence (root t) proof ≡ true
      → contains_key t proof.key ≡ false
  unfolding contains_key
  no_absence t proof h k nonzero free v = elim (Option-cases (lookup proof.key t.entries)) [
    | inl absent ↦ rw absent
    | inr (leaf, there) ↦
        let (no_value, width, path) = verify_absence-eq-true (root t) proof v in
        let value = (lookup-IsEntry proof.key t.entries leaf h.entries there).1 in
        let honest = rw (there, value) at (climb-prove t proof.key h k) in
        absurd (
          nonzero (
            sym (
              climb-injective proof.key 0 zero_element proof.siblings (hash_leaf proof.key)
                (prove t proof.key).siblings (width ∙ sym (length-siblings t proof.key)) free
                (path ∙ sym honest))))
  ]

-- A proof that `verify_absence` accepts against the root of a list of keys is for a key that is not
-- in the tree, unless a leaf hash is zero or its path and the honest one hash different pairs to
-- one node.
pub verify_absence-contains :
    (F : Type 0) ⦃field : FieldOps F⦄ (keys : List (List ℕ)) (proof : SmtProof F)
    → All (IsArray 32) keys
    → IsArray 32 proof.key
    → ◌≢◌ {A = F} (hash_leaf proof.key) zero_element
    → HaveNoCollision proof.key 0 zero_element proof.siblings
        (hash_leaf proof.key)
        (prove (from_keys keys) proof.key).siblings
    → verify_absence (root (from_keys keys)) proof ≡ true
    → contains_key (from_keys {F = F} keys) proof.key ≡ false
verify_absence-contains F keys proof ks k =
    no_absence (from_keys {F = F} keys) proof (from_keys-IsTree keys ks) k
