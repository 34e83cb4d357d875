-- ===== src/Zk/Merkle/Ladder.antt =====
-- Levels built one above the other, and the path through them (krep-zk/src/merkle.rs).
use k_rep.Base.{
  ℕ, zero, suc, ◌+◌, ◌-◌, ◌/◌, ◌%◌, ◌≡◌, inl, inr, refl, ap, sym, ◌∙◌, false, none, some, List, [],
  ◌∷◌, get_elem?, get_or, length, ◌==◌, ==_iff, if◌then◌else◌, arith, Bool-cases,
}
use k_rep.Core.Field.{FieldOps, hash_node}
use k_rep.Zk.Merkle.{right_sibling, sibling_at, pair_up, climb_step, climb, prove_loop, last_level}

-- A position after `n` halvings.
abbrev pub halved : ℕ → ℕ → ℕ
halved zero i = i
halved (suc n) i = halved n (i / 2)

module _ {F : Type 0} where
  -- What stands right of a node without a neighbour, at a height.
  abbrev pub fill_of : List F → ℕ → F → F
  fill_of empties height left = right_sibling none (get_elem? empties height) left

  sibling-even :
      (empties : List F) (height : ℕ) (l : List F) (i : ℕ) (d : F)
      → i % 2 ≡ 0
      → sibling_at empties height l i d
        ≡ right_sibling (get_elem? l (i + 1)) (get_elem? empties height) (get_or l i d)
  unfolding sibling_at
  sibling-even empties height l i d h = rw ((==_iff (i % 2) 0).1 h)

  sibling-odd :
      (empties : List F) (height : ℕ) (l : List F) (i : ℕ) (d : F)
      → (i % 2 == 0) ≡ false
      → sibling_at empties height l i d ≡ get_or l (i - 1) d
  unfolding sibling_at
  sibling-odd empties height l i d h = rw h

  -- Two positions further in a list that is two longer, the sibling is the same.
  sibling_step :
      (empties : List F) (height : ℕ) (a b : F) (rest : List F) (j : ℕ) (d : F)
      → sibling_at empties height (a ∷ b ∷ rest) (suc (suc j)) d
        ≡ sibling_at empties height rest j d
  sibling_step empties height a b rest j d = elim (Bool-cases (j % 2 == 0)) [
    | inl e ↦
        let even : j % 2 ≡ 0 = (==_iff (j % 2) 0).0 e in
        let even' : suc (suc j) % 2 ≡ 0 = omega arith in
        let next : suc (suc j) + 1 ≡ suc (suc (j + 1)) = omega arith in
        sibling-even empties height (a ∷ b ∷ rest) (suc (suc j)) d even'
        ∙ ap
            (λ n.
              right_sibling (get_elem? (a ∷ b ∷ rest) n) (get_elem? empties height)
                (get_or rest j d))
            next
        ∙ sym (sibling-even empties height rest j d even)
    | inr e ↦
        let odd : (suc (suc j) % 2 == 0) ≡ false = ground arith in
        let back : suc (suc j) - 1 ≡ suc (suc (j - 1)) = ground arith in
        sibling-odd empties height (a ∷ b ∷ rest) (suc (suc j)) d odd
        ∙ ap (λ n. get_or (a ∷ b ∷ rest) n d) back
        ∙ sym (sibling-odd empties height rest j d e)
  ]

module _ {F : Type 0} ⦃field : FieldOps F⦄ where
  climb_step-mod : (i j : ℕ) (x s : F) → i % 2 ≡ j % 2 → climb_step i x s ≡ climb_step j x s
  climb_step-mod i j x s h = ap (λ r. if r == 0 then hash_node x s else hash_node s x) h

  -- The node above a position is the hash of the node there and its sibling, in their order.
  pair_up-get :
      (empties : List F) (height : ℕ) (l : List F) (i : ℕ) (node d : F)
      → get_elem? l i ≡ some node
      → get_elem? (pair_up (fill_of empties height) l) (i / 2)
        ≡ some (climb_step i node (sibling_at empties height l i d))
  unfolding pair_up sibling_at right_sibling
  pair_up-get empties height [] i node d h = cc h
  pair_up-get empties height (a ∷ []) zero node d h =
      let same : a ≡ node = cc h in ap (λ x. some (hash_node x (fill_of empties height a))) same
  pair_up-get empties height (a ∷ []) (suc i) node d h = cc h
  pair_up-get empties height (a ∷ b ∷ rest) zero node d h =
      let same : a ≡ node = cc h in ap (λ x. some (hash_node x b)) same
  pair_up-get empties height (a ∷ b ∷ rest) (suc zero) node d h =
      let same : b ≡ node = cc h in ap (λ x. some (hash_node a x)) same
  pair_up-get empties height (a ∷ b ∷ rest) (suc (suc j)) node d h =
      let half : suc (suc j) / 2 ≡ suc (j / 2) = omega arith in
      let parity : j % 2 ≡ suc (suc j) % 2 = omega arith in
      ap (get_elem? (pair_up (fill_of empties height) (a ∷ b ∷ rest))) half
      ∙ pair_up-get empties height rest j node d h
      ∙ ap some (
          climb_step-mod j (suc (suc j)) node _ parity
          ∙ ap (climb_step (suc (suc j)) node) (sym (sibling_step empties height a b rest j d)))

  -- Each level is the one below it paired up.
  abbrev pub IsLadder : List F → ℕ → List (List F) → Type 0
  IsLadder empties height [] = Unit {0}
  IsLadder empties height (l ∷ []) = Unit {0}
  IsLadder empties height (l ∷ m ∷ ls) =
      (m ≡ pair_up (fill_of empties height) l) × IsLadder empties (suc height) (m ∷ ls)

  -- From a node of the lowest level, the siblings of `prove` lead to a node of the highest one.
  pub climb-prove_loop :
      (empties : List F) (height i : ℕ) (l : List F) (ls : List (List F)) (node d : F)
      → IsLadder empties height (l ∷ ls)
      → get_elem? l i ≡ some node
      → (top : List F) × (last_level (l ∷ ls) ≡ some top)
        × (get_elem? top (halved (length ls) i)
            ≡ some (climb i node (prove_loop empties height i (l ∷ ls) d)))
  unfolding prove_loop climb
  climb-prove_loop empties height i l [] node d h e = (l, refl, e)
  climb-prove_loop empties height i l (m ∷ ls) node d h e =
      let up = ap (λ k. get_elem? k (i / 2)) h.0 ∙ pair_up-get empties height l i node d e in
      climb-prove_loop empties (suc height) (i / 2) m ls _ d h.1 up
