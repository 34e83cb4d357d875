-- ===== src/Tests/Accumulators.antt =====
-- krep-zk at concrete inputs.
use k_rep.Base.{
  ℕ, suc, ◌≡◌, ◌≢◌, refl, ap, sym, ◌∙◌, Bool, true, false, not, ◌||◌, List, [], ◌∷◌, replicate,
  beq_bytes, chunks, from_be, arith, IsArray,
}
use k_rep.Core.Field.{
  zero_element, hash_leaf, hash_node, sponge, sponge_loop, absorb, value_fields, pad_limb,
  hash_leaf_fields,
}
use k_rep.Zk.Smt.{
  from_keys, root, prove, verify, verify_absence, contains_key, insert_all, insert, new, put,
  lookup,
}
use k_rep.Zk.Smt.Proofs.{verify-prove}
use k_rep.Zk.Smt.Absence.{verify_absence-contains, HaveNoCollision, hash_pair}
use k_rep.Zk.Smt.Sets.{root-from_keys, is_key}
use k_rep.Tests.Toy.{toy_field, pair, pair-injective}

abbrev slashed : List ℕ
slashed = replicate 32 7

abbrev honest : List ℕ
honest = replicate 32 5

arrays : IsArray 32 slashed × IsArray 32 honest
arrays = (omega arith, omega arith)

node_is_pair : (a b : ℕ) → hash_node a b ≡ pair a b
unfolding hash_node sponge sponge_loop absorb chunks
node_is_pair a b = omega arith

pub hash_pair-injective : (p q : ℕ × ℕ) → hash_pair p ≡ hash_pair q → p ≡ q
hash_pair-injective p q e =
    let parts =
      pair-injective p.0 p.1 q.0 q.1 (sym (node_is_pair p.0 p.1) ∙ e ∙ node_is_pair q.0 q.1) in
    λ i. (parts.0 i, parts.1 i)

no_collision :
    (key : List ℕ) (level x : ℕ) (xs : List ℕ) (y : ℕ) (ys : List ℕ)
    → HaveNoCollision key level x xs y ys
no_collision key level x [] y ys = tt
no_collision key level x (s ∷ xs) y [] = tt
no_collision key level x (s ∷ xs) y (t ∷ ys) =
    (hash_pair-injective _ _, no_collision key (suc level) _ xs _ ys)

leaf_not_zero : ◌≢◌ {A = ℕ} (hash_leaf honest) zero_element
unfolding hash_leaf hash_leaf_fields sponge sponge_loop absorb value_fields pad_limb zero_element
    chunks from_be
leaf_not_zero e = absurd (omega arith)

honest_absent : contains_key (from_keys {F = ℕ} (slashed ∷ [])) honest ≡ false
unfolding contains_key from_keys insert_all insert new put lookup beq_bytes
honest_absent = refl

verify-prove_example :
    (verify (root (from_keys {F = ℕ} (slashed ∷ []))) (prove (from_keys (slashed ∷ [])) honest)
      ≡ true)
    × (verify_absence
          (root (from_keys {F = ℕ} (slashed ∷ [])))
          (prove (from_keys (slashed ∷ [])) honest)
        ≡ not (contains_key (from_keys {F = ℕ} (slashed ∷ [])) honest))
verify-prove_example = verify-prove ℕ (slashed ∷ []) honest (arrays.0, tt) arrays.1

accepted :
    verify_absence
      (root (from_keys {F = ℕ} (slashed ∷ [])))
      (prove (from_keys (slashed ∷ [])) honest)
    ≡ true
accepted = verify-prove_example.1 ∙ ap not honest_absent

key_of_proof : (prove (from_keys {F = ℕ} (slashed ∷ [])) honest).key ≡ honest
unfolding prove
key_of_proof = refl

verify_absence-contains_example :
    contains_key
      (from_keys {F = ℕ} (slashed ∷ []))
      (prove (from_keys {F = ℕ} (slashed ∷ [])) honest).key
    ≡ false
unfolding prove
verify_absence-contains_example =
    verify_absence-contains ℕ (slashed ∷ []) (prove (from_keys (slashed ∷ [])) honest)
      (arrays.0, tt) arrays.1 leaf_not_zero (no_collision _ _ _ _ _ _) accepted

same_keys :
    (key : List ℕ)
    → is_key key (slashed ∷ honest ∷ slashed ∷ []) ≡ is_key key (honest ∷ slashed ∷ [])
same_keys key = swap (beq_bytes key slashed) (beq_bytes key honest)
  where
    swap : (x y : Bool) → (x || (y || (x || false))) ≡ (y || (x || false))
    swap true true = refl
    swap true false = refl
    swap false y = refl

root-from_keys_example :
    root (from_keys {F = ℕ} (slashed ∷ honest ∷ slashed ∷ []))
    ≡ root (from_keys (honest ∷ slashed ∷ []))
root-from_keys_example =
    root-from_keys ℕ (slashed ∷ honest ∷ slashed ∷ []) (honest ∷ slashed ∷ [])
      (arrays.0, (arrays.1, (arrays.0, tt))) (arrays.1, (arrays.0, tt)) same_keys
