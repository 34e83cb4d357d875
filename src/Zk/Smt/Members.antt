-- ===== src/Zk/Smt/Members.antt =====
-- The entries under a prefix (`subtree` and the hash map of krep-zk/src/smt.rs).
use k_rep.Base.{
  ℕ, ◌≡◌, ◌≢◌, inl, inr, refl, ap, sym, ◌∙◌, Bool, true, List, [], ◌∷◌, ◌++◌, arith, some, All,
  IsArray, beq_bytes, beq_bytes_refl, eq-beq_bytes, Bool-cases,
}
use k_rep.Core.Field.{FieldOps, zero_element, hash_leaf}
use k_rep.Zk.Smt.{
  SparseMerkleTree, depth, is_under, members, lookup, put, insert, insert_all, from_keys, new,
  empties_above,
}
use k_rep.Zk.Smt.Paths.{is_under-snoc}

module _ {F : Type 0} where
  -- A stored key under the prefix is one of its members.
  pub members-lookup :
      (p : List Bool) (es : List (List ℕ × F)) (key : List ℕ) (v : F)
      → lookup key es ≡ some v
      → is_under 0 p key ≡ true
      → members p es ≢ []
  unfolding members lookup
  members-lookup p [] key v h u e = cc
  members-lookup p (x ∷ es) key v h u e =
      ground (arith, eq-beq_bytes key x.0, members-lookup p es key v)

  -- The first member is a stored key under the prefix.
  pub members-first :
      (p : List Bool) (es : List (List ℕ × F)) (m : List ℕ) (ms : List (List ℕ))
      → members p es ≡ m ∷ ms
      → (is_under 0 p m ≡ true) × ((v : F) × (lookup m es ≡ some v))
  unfolding members lookup
  members-first p [] m ms e = cc
  members-first p (x ∷ es) m ms e = elim (Bool-cases (is_under 0 p x.0)) [
    | inl u ↦
        let same : x.0 ≡ m = cc (rw u at e) in
        (sym (ap (is_under 0 p) same) ∙ u, (x.1, rw same (rw (beq_bytes_refl m))))
    | inr u ↦
        let (under, found) = members-first p es m ms (rw u at e) in
        (
          under,
          elim (Bool-cases (beq_bytes m x.0)) [
            | inl b ↦ (x.1, rw b)
            | inr b ↦ (found.0, rw b found.1)
          ],
        )
  ]

  -- A longer prefix has no member that a shorter one does not have.
  pub members-snoc-nil :
      (p : List Bool) (b : Bool) (es : List (List ℕ × F))
      → members p es ≡ []
      → members (p ++ b ∷ []) es ≡ []
  unfolding members
  members-snoc-nil p b [] e = refl
  members-snoc-nil p b (x ∷ es) e =
      let under = is_under-snoc 0 p b x.0 in ground (arith, under, members-snoc-nil p b es)

  lookup-put-same :
      (key : List ℕ) (v : F) (es : List (List ℕ × F)) → lookup key (put key v es) ≡ some v
  unfolding lookup put
  lookup-put-same key v [] = rw (beq_bytes_refl key)
  lookup-put-same key v (e ∷ es) = elim (Bool-cases (beq_bytes key e.0)) [
    | inl b ↦ rw b (rw (beq_bytes_refl key))
    | inr b ↦ rw b (rw b (lookup-put-same key v es))
  ]

module _ {F : Type 0} ⦃field : FieldOps F⦄ where
  -- An entry as `insert` makes it.
  abbrev pub IsEntry : List ℕ × F → Type 0
  IsEntry e = IsArray 32 e.0 × (e.1 ≡ hash_leaf e.0)

  -- A tree as the operations make it.
  pub record IsTree (t : SparseMerkleTree F) : Type 0 where
    pub entries : All IsEntry t.entries
    pub empties : t.empties ≡ zero_element ∷ empties_above depth zero_element

  pub lookup-IsEntry :
      (key : List ℕ) (es : List (List ℕ × F)) (v : F)
      → All IsEntry es
      → lookup key es ≡ some v
      → IsArray 32 key × (v ≡ hash_leaf key)
  unfolding lookup
  lookup-IsEntry key [] v h e = cc
  lookup-IsEntry key (x ∷ es) v h e = elim (Bool-cases (beq_bytes key x.0)) [
    | inl b ↦
        let same : key ≡ x.0 = eq-beq_bytes key x.0 b in
        let value : x.1 ≡ v = cc (rw b at e) in rw same (h.0.0, sym value ∙ h.0.1)
    | inr b ↦ lookup-IsEntry key es v h.1 (rw b at e)
  ]

  put-IsEntry :
      (key : List ℕ) (es : List (List ℕ × F))
      → IsArray 32 key
      → All IsEntry es
      → All IsEntry (put key (hash_leaf key) es)
  unfolding put
  put-IsEntry key [] k h = ((k, refl), tt)
  put-IsEntry key (x ∷ es) k h = elim (Bool-cases (beq_bytes key x.0)) [
    | inl b ↦ rw b ((k, refl), h.1)
    | inr b ↦ rw b (h.0, put-IsEntry key es k h.1)
  ]

  insert_all-IsTree :
      (t : SparseMerkleTree F) (keys : List (List ℕ))
      → IsTree t
      → All (IsArray 32) keys
      → IsTree (insert_all t keys)
  unfolding insert_all insert
  insert_all-IsTree t [] h ks = h
  insert_all-IsTree t (k ∷ keys) h ks =
      insert_all-IsTree (insert t k) keys
        (record { entries = put-IsEntry k t.entries ks.0 h.entries; empties = h.empties }) ks.1

  pub from_keys-IsTree :
      (keys : List (List ℕ)) → All (IsArray 32) keys → IsTree (from_keys {F = F} keys)
  unfolding from_keys new
  from_keys-IsTree keys ks = insert_all-IsTree new keys (record { entries = tt; empties = refl }) ks
