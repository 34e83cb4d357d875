-- ===== src/Zk/Smt/Sets.antt =====
-- The root is a function of the set of keys (`from_keys` and `root` of krep-zk/src/smt.rs).
use k_rep.Base.{
  ℕ, zero, suc, ◌+◌, ◌≡◌, ◌≢◌, inl, inr, refl, ap, ap₂, sym, ◌∙◌, Bool, true, false, ◌||◌, List, [],
  ◌∷◌, ◌++◌, get_or, length, length-append, arith, some, All, IsArray, beq_bytes, eq-beq_bytes,
  Bool-cases, Option-cases, if◌then◌else◌,
}
use k_rep.Core.Field.{FieldOps, zero_element, hash_leaf, hash_node}
use k_rep.Zk.Smt.{
  SparseMerkleTree, depth, members, lookup, put, insert, insert_all, new, subtree, root, from_keys,
  contains_key, unwrap_or, is_present,
}
use k_rep.Zk.Smt.Bits.{is_under-injective}
use k_rep.Zk.Smt.Members.{members-lookup, members-first, IsTree, lookup-IsEntry, from_keys-IsTree}
use k_rep.Zk.Smt.Proofs.{List-cases, subtree-nil, subtree-suc, leaf-cons}

-- Is the key one of a list?
abbrev pub is_key : List ℕ → List (List ℕ) → Bool
is_key key [] = false
is_key key (k ∷ ks) = beq_bytes key k || is_key key ks

module _ {F : Type 0} where
  is_present-put :
      (key k : List ℕ) (v : F) (es : List (List ℕ × F))
      → is_present (lookup key (put k v es)) ≡ (beq_bytes key k || is_present (lookup key es))
  unfolding lookup put
  is_present-put key k v [] = elim (Bool-cases (beq_bytes key k)) [ inl b ↦ rw b | inr b ↦ rw b ]
  is_present-put key k v (e ∷ es) = elim (Bool-cases (beq_bytes k e.0)) [
    | inl b ↦
        let same = eq-beq_bytes k e.0 b in
        rw b (elim (Bool-cases (beq_bytes key k)) [
          | inl c ↦ rw c
          | inr c ↦ rw c (
              sym (
                ap (λ (x : Bool). is_present (if x then some e.1 else lookup key es))
                  (ap (beq_bytes key) (sym same) ∙ c)))
        ])
    | inr b ↦ rw b (elim (Bool-cases (beq_bytes key e.0)) [
      | inl c ↦ rw c (or-true (beq_bytes key k))
      | inr c ↦ rw c (is_present-put key k v es)
    ])
  ]
    where
      or-true : (x : Bool) → true ≡ (x || true)
      or-true true = refl
      or-true false = refl

module _ {F : Type 0} ⦃field : FieldOps F⦄ where
  contains_key-insert_all :
      (t : SparseMerkleTree F) (keys : List (List ℕ)) (key : List ℕ)
      → contains_key (insert_all t keys) key ≡ (is_key key keys || contains_key t key)
  unfolding insert_all insert contains_key
  contains_key-insert_all t [] key = refl
  contains_key-insert_all t (k ∷ ks) key =
      contains_key-insert_all (insert t k) ks key
      ∙ ap (λ b. is_key key ks || b) (is_present-put key k (hash_leaf k) t.entries)
      ∙ swap (is_key key ks) (beq_bytes key k) (is_present (lookup key t.entries))
    where
      swap : (x y z : Bool) → (x || (y || z)) ≡ ((y || x) || z)
      swap true true z = refl
      swap true false z = refl
      swap false true z = refl
      swap false false z = refl

  -- Two trees with the same keys.
  HasKeysOf : SparseMerkleTree F → SparseMerkleTree F → Type 0
  HasKeysOf t u =
      (key : List ℕ) → is_present (lookup key t.entries) ≡ is_present (lookup key u.entries)

  found-again :
      (t u : SparseMerkleTree F) (key : List ℕ) (v : F)
      → HasKeysOf t u
      → lookup key t.entries ≡ some v
      → (w : F) × (lookup key u.entries ≡ some w)
  unfolding HasKeysOf
  found-again t u key v same e = elim (Option-cases (lookup key u.entries)) [
    | inl absent ↦ cc (rw (e, absent) at (same key))
    | inr found ↦ found
  ]

  members-nil :
      (t u : SparseMerkleTree F) (p : List Bool)
      → HasKeysOf t u
      → members p u.entries ≡ []
      → members p t.entries ≡ []
  members-nil t u p same e = elim (List-cases (members p t.entries)) [
    | inl e' ↦ e'
    | inr (m, ms, e') ↦
        let (under, found) = members-first p t.entries m ms e' in
        let again = found-again t u m found.0 same found.1 in
        absurd (members-lookup p u.entries m again.0 again.1 under e)
  ]

  same_leaf :
      (t u : SparseMerkleTree F) (p : List Bool)
      → IsTree t
      → IsTree u
      → HasKeysOf t u
      → HasKeysOf u t
      → length p ≡ depth
      → subtree t zero p ≡ subtree u zero p
  same_leaf t u p ht hu same back w = elim (List-cases (members p t.entries)) [
    | inl e ↦
        subtree-nil t zero p e
        ∙ ap (λ l. get_or l 0 zero_element) (ht.empties ∙ sym hu.empties)
        ∙ sym (subtree-nil u zero p (members-nil u t p back e))
    | inr (m, ms, e) ↦ elim (List-cases (members p u.entries)) [
      | inl e' ↦ absurd (no_cons (sym e ∙ members-nil t u p same e'))
      | inr (n, ns, e') ↦
          let (um, fm) = members-first p t.entries m ms e in
          let (un, fn) = members-first p u.entries n ns e' in
          let entry_m = lookup-IsEntry m t.entries fm.0 ht.entries fm.1 in
          let entry_n = lookup-IsEntry n u.entries fn.0 hu.entries fn.1 in
          let one = is_under-injective p m n entry_m.0 entry_n.0 w um un in
          leaf-cons t p m ms e
          ∙ ap (λ o. unwrap_or o zero_element) fm.1
          ∙ entry_m.1
          ∙ ap hash_leaf one
          ∙ sym entry_n.1
          ∙ sym (ap (λ o. unwrap_or o zero_element) fn.1)
          ∙ sym (leaf-cons u p n ns e')
    ]
  ]
    where
      no_cons : {x : List ℕ} {xs : List (List ℕ)} → x ∷ xs ≢ []
      no_cons e = cc

  same_subtree :
      (t u : SparseMerkleTree F) (level : ℕ) (p : List Bool)
      → IsTree t
      → IsTree u
      → HasKeysOf t u
      → HasKeysOf u t
      → level + length p ≡ depth
      → subtree t level p ≡ subtree u level p
  same_subtree t u zero p ht hu same back w = same_leaf t u p ht hu same back (omega (arith, w))
  same_subtree t u (suc level) p ht hu same back w =
      let half = λ (b : Bool).
        same_subtree t u level (p ++ b ∷ []) ht hu same back
          (omega (arith, length-append p (b ∷ []))) in
      subtree-suc t level p ht (omega arith)
      ∙ ap₂ hash_node (half false) (half true)
      ∙ sym (subtree-suc u level p hu (omega arith))

contains_key-from_keys :
    (F : Type 0) ⦃field : FieldOps F⦄ (keys : List (List ℕ)) (key : List ℕ)
    → contains_key (from_keys {F = F} keys) key ≡ is_key key keys
unfolding from_keys new contains_key lookup
contains_key-from_keys F keys key =
    contains_key-insert_all (new {F = F}) keys key ∙ or-false (is_key key keys)
  where
    or-false : (x : Bool) → (x || false) ≡ x
    or-false true = refl
    or-false false = refl

-- Two lists of keys that hold the same keys, in any order and any number of times, have one root.
pub root-from_keys :
    (F : Type 0) ⦃field : FieldOps F⦄ (xs ys : List (List ℕ))
    → All (IsArray 32) xs
    → All (IsArray 32) ys
    → ((key : List ℕ) → is_key key xs ≡ is_key key ys)
    → root (from_keys {F = F} xs) ≡ root (from_keys ys)
unfolding root HasKeysOf contains_key
root-from_keys F xs ys hx hy same =
    let t = from_keys {F = F} xs in
    let u = from_keys {F = F} ys in
    let there : (key : List ℕ) → contains_key t key ≡ contains_key u key =
      λ key. contains_key-from_keys F xs key ∙ same key ∙ sym (contains_key-from_keys F ys key) in
    same_subtree t u depth [] (from_keys-IsTree xs hx) (from_keys-IsTree ys hy) there
      (λ key. sym (there key)) refl
