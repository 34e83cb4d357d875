-- ===== src/Zk/Merkle/Leaves.antt =====
-- Sorting and removing duplicates keeps the leaves (krep-zk/src/merkle.rs).
use k_rep.Base.{
  ℕ, suc, ◌≡◌, refl, ap, sym, ◌∙◌, Bool, true, false, ◌||◌, some, List, [], ◌∷◌, map, get_elem?,
  any, Bool-cases, inl, inr, beq_bytes, eq-beq_bytes,
}
use k_rep.Core.Field.{FieldOps, hash_leaf}
use k_rep.Zk.Merkle.{leb_string, insert_sorted, sort, dedup_after, dedup, sorted_leaves, position}

module _ {F : Type 0} ⦃field : FieldOps F⦄ where
  -- Is the element in the list?
  abbrev pub is_in : F → List F → Bool
  is_in z l = any (λ y. field.same y z) l

  any-insert_sorted :
      (f : F → Bool) (x : F) (l : List F) → any f (insert_sorted x l) ≡ (f x || any f l)
  unfolding insert_sorted
  any-insert_sorted f x [] = refl
  any-insert_sorted f x (y ∷ ys) =
      elim (Bool-cases (leb_string (field.to_string x) (field.to_string y))) [
        | inl b ↦ rw b
        | inr b ↦ rw b (ap (λ c. f y || c) (any-insert_sorted f x ys) ∙ swap (f y) (f x) (any f ys))
      ]
    where
      swap : (a b c : Bool) → (a || (b || c)) ≡ (b || (a || c))
      swap true true c = refl
      swap true false c = refl
      swap false b c = refl

  any-sort : (f : F → Bool) (l : List F) → any f (sort l) ≡ any f l
  unfolding sort
  any-sort f [] = refl
  any-sort f (x ∷ xs) = any-insert_sorted f x (sort xs) ∙ ap (λ c. f x || c) (any-sort f xs)

  any-dedup_after : (f : F → Bool) (x : F) (l : List F) → any f (dedup_after x l) ≡ (f x || any f l)
  unfolding dedup_after
  any-dedup_after f x [] = refl
  any-dedup_after f x (y ∷ ys) = elim (Bool-cases (field.same x y)) [
    | inl b ↦
        let same : x ≡ y = (field.same_iff x y).0 b in
        rw b (
          any-dedup_after f x ys
          ∙ absorb (f x) (any f ys)
          ∙ ap (λ z. f x || (f z || any f ys)) same)
    | inr b ↦ rw b (ap (λ c. f x || c) (any-dedup_after f y ys))
  ]
    where
      absorb : (a c : Bool) → (a || c) ≡ (a || (a || c))
      absorb true c = refl
      absorb false c = refl

  any-dedup : (f : F → Bool) (l : List F) → any f (dedup l) ≡ any f l
  unfolding dedup
  any-dedup f [] = refl
  any-dedup f (x ∷ xs) = any-dedup_after f x xs

  pub is_in-sorted_leaves :
      (values : List (List ℕ)) (z : F)
      → is_in z (sorted_leaves values) ≡ is_in z (map (λ v. hash_leaf v) values)
  unfolding sorted_leaves
  is_in-sorted_leaves values z =
      any-dedup (λ y. field.same y z) (sort (map (λ v. hash_leaf v) values))
      ∙ any-sort (λ y. field.same y z) (map (λ v. hash_leaf v) values)

  -- An element of the list has a position, and stands there.
  pub position-is_in :
      (z : F) (l : List F)
      → is_in z l ≡ true
      → (i : ℕ) × (position z l ≡ some i) × (get_elem? l i ≡ some z)
  unfolding position
  position-is_in z [] h = cc h
  position-is_in z (y ∷ ys) h = elim (Bool-cases (field.same y z)) [
    | inl b ↦ (0, rw b, ap some ((field.same_iff y z).0 b))
    | inr b ↦ let (i, e, there) = position-is_in z ys (rw b at h) in (suc i, rw (b, e), there)
  ]

pub is_in-value :
    (F : Type 0) ⦃field : FieldOps F⦄ (values : List (List ℕ)) (value : List ℕ)
    → any (beq_bytes value) values ≡ true
    → is_in {F = F} (hash_leaf value) (map (λ v. hash_leaf v) values) ≡ true
is_in-value F [] value h = cc h
is_in-value F ⦃field = field⦄ (v ∷ vs) value h = elim (Bool-cases (beq_bytes value v)) [
  | inl b ↦
      let same : hash_leaf {F = F} v ≡ hash_leaf value =
        ap (λ w. hash_leaf w) (sym (eq-beq_bytes value v b)) in
      rw ((field.same_iff _ _).1 same)
  | inr b ↦ or-right _ _ (is_in-value F vs value (rw b at h))
]
  where
    or-right : (a c : Bool) → c ≡ true → (a || c) ≡ true
    or-right true c e = refl
    or-right false c e = e
