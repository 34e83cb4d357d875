-- ===== src/Zk/Smt/Paths.antt =====
-- Paths of a sparse Merkle tree (`prove` and `verify` of krep-zk/src/smt.rs).
use k_rep.Base.{
  ℕ, zero, suc, ◌+◌, ◌-◌, ◌<◌, ◌≡◌, refl, ap, ◌∙◌, Bool, true, false, ◌&&◌, List, [], ◌∷◌, ◌++◌,
  get_or, length, arith,
}
use k_rep.Core.Field.{FieldOps, hash_node}
use k_rep.Zk.Smt.{
  SparseMerkleTree, bit, depth, is_under, same_bit, climb, climb_step, prove_loop, empties_above,
}

pub is_under-snoc :
    (i : ℕ) (p : List Bool) (b : Bool) (key : List ℕ)
    → is_under i (p ++ b ∷ []) key
      ≡ (is_under i p key && same_bit (bit key (depth - 1 - (i + length p))) b)
unfolding is_under
is_under-snoc i [] b key =
    let same : i + 0 ≡ i = omega arith in rw same (and-true (same_bit (bit key (depth - 1 - i)) b))
  where
    and-true : (c : Bool) → (c && true) ≡ c
    and-true true = refl
    and-true false = refl
is_under-snoc i (q ∷ p) b key =
    let same : suc i + length p ≡ i + suc (length p) = omega arith in
    rw (is_under-snoc (suc i) p b key, same)
      (assoc (same_bit (bit key (depth - 1 - i)) q) (is_under (suc i) p key) _)
  where
    assoc : (x y z : Bool) → (x && (y && z)) ≡ ((x && y) && z)
    assoc true y z = refl
    assoc false y z = refl

module _ {F : Type 0} ⦃field : FieldOps F⦄ where
  pub climb-append :
      (key : List ℕ) (level : ℕ) (node : F) (xs ys : List F)
      → climb key level node (xs ++ ys) ≡ climb key (level + length xs) (climb key level node xs) ys
  unfolding climb
  climb-append key level node [] ys = let same : level + 0 ≡ level = omega arith in rw same
  climb-append key level node (x ∷ xs) ys =
      let same : suc level + length xs ≡ level + suc (length xs) = omega arith in
      climb-append key (suc level) (climb_step (bit key level) node x) xs ys
      ∙ ap (λ l. climb key l (climb key level node (x ∷ xs)) ys) same

  pub length-prove_loop :
      (t : SparseMerkleTree F) (key : List ℕ) (n : ℕ) (p : List Bool)
      → length (prove_loop t key n p) ≡ n
  unfolding prove_loop
  length-prove_loop t key zero p = refl
  length-prove_loop t key (suc n) p = ap suc (length-prove_loop t key n (p ++ bit key n ∷ []))

  -- Each entry of `empties` is the node over two copies of the one below it.
  pub get_or-empties :
      (n l : ℕ) (below d : F)
      → l < n
      → get_or (below ∷ empties_above n below) (suc l) d
        ≡ hash_node
            (get_or (below ∷ empties_above n below) l d)
            (get_or (below ∷ empties_above n below) l d)
  unfolding empties_above
  get_or-empties zero l below d h = absurd (omega arith)
  get_or-empties (suc n) zero below d h = refl
  get_or-empties (suc n) (suc l) below d h =
      get_or-empties n l (hash_node below below) d (omega arith)
