-- ===== src/Core/Kaspad/Anchored/Selected.antt =====
-- The branch and the covenant that a signature script chose (`took_branch` of
-- krep-core/src/kaspad.rs).
use k_rep.Base.{
  ℕ, zero, suc, ◌-◌, ◌≤◌, ◌≡◌, inl, inr, refl, ap, sym, ◌∙◌, true, some, List, [], ◌∷◌, ◌++◌,
  length, length-append, arith, from_le, if-cases, leb, ltb, get_elem?, eq-beq_bytes, ==_iff, not,
  replicate, not-false, Option-cases,
}
use k_rep.Core.Attestation.{CovenantWitness}
use k_rep.Core.Kaspad.Anchored.{
  PushItem, data_item, small_item, parse_items, is_data, chosen_branch, took_branch,
}
use k_rep.Core.Kaspad.Anchored.Pushes.{Pushes, parse_items-Pushes}

-- An item that chooses a branch: its number, or the bytes of the number, at most eight.
pub data Chooses (branch : ℕ) : PushItem → Type 0 where
  by_number : Chooses branch (small_item branch)
  by_bytes : (d : List ℕ) → length d ≤ 8 → from_le d ≡ branch → Chooses branch (data_item d)

-- The script pushes some items, then the branch, then the redeem script, and does nothing else.
pub record TookBranch (witness : CovenantWitness) (script : List ℕ) : Type 0 where
  pub before : List PushItem
  pub selector : PushItem
  pub chooses : Chooses witness.branch selector
  pub pushes : Pushes script (before ++ selector ∷ data_item witness.redeem_script ∷ [])

from_le_zeros : (n : ℕ) → from_le (replicate n 0) ≡ 0
unfolding from_le
from_le_zeros zero = refl
from_le_zeros (suc n) = omega (arith, from_le_zeros n)

from_le-append_zeros : (d : List ℕ) (n : ℕ) → from_le (d ++ replicate n 0) ≡ from_le d
unfolding from_le
from_le-append_zeros [] n = from_le_zeros n
from_le-append_zeros (b ∷ d) n = omega (arith, from_le-append_zeros d n)

chosen_branch-Chooses :
    (p : PushItem) (branch : ℕ) → chosen_branch (some p) ≡ some branch → Chooses branch p
unfolding chosen_branch
chosen_branch-Chooses (small_item v) branch h =
    let same : v ≡ branch = cc h in rw same Chooses.by_number
chosen_branch-Chooses (data_item d) branch h = elim (if-cases (leb (length d) 8) _ _ h) [
  | inr (long, e) ↦ absurd (cc e)
  | inl (short, e) ↦
      let value : from_le (d ++ replicate (8 - length d) 0) ≡ branch = cc e in
      by_bytes d (ground arith) (sym (from_le-append_zeros d (8 - length d)) ∙ value)
]

module _ {ℓ} {A : Type ℓ} where
  -- The last two of some elements.
  last_two :
      (xs : List A)
      → 2 ≤ length xs
      → (front : List A) × (x : A) × (y : A) × (xs ≡ front ++ x ∷ y ∷ [])
  last_two [] h = absurd (omega arith)
  last_two (x ∷ []) h = absurd (omega arith)
  last_two (x ∷ y ∷ []) h = ([], x, y, refl)
  last_two (w ∷ x ∷ y ∷ zs) h =
      let (front, a, b, e) = last_two (x ∷ y ∷ zs) (omega arith) in
      (w ∷ front, a, b, ap (λ l. w ∷ l) e)

  get_elem?-front :
      (front : List A) (x : A) (ys : List A) → get_elem? (front ++ x ∷ ys) (length front) ≡ some x
  get_elem?-front [] x ys = refl
  get_elem?-front (w ∷ front) x ys = get_elem?-front front x ys

  get_elem?-next :
      (front : List A) (x y : A) → get_elem? (front ++ x ∷ y ∷ []) (suc (length front)) ≡ some y
  get_elem?-next [] x y = refl
  get_elem?-next (w ∷ front) x y = get_elem?-next front x y

  -- They stand at the last two places.
  at_end :
      (xs front : List A) (x y : A)
      → xs ≡ front ++ x ∷ y ∷ []
      → (get_elem? xs (length xs - 1) ≡ some y) × (get_elem? xs (length xs - 2) ≡ some x)
  at_end xs front x y e =
      let count = length-append front (x ∷ y ∷ []) in
      let whole = ap length e in
      let last : length xs - 1 ≡ suc (length front) = omega arith in
      let before : length xs - 2 ≡ length front = omega arith in
      (
        ap (get_elem? xs) last
            ∙ ap (λ l. get_elem? l (suc (length front))) e
            ∙ get_elem?-next front x y,
        ap (get_elem? xs) before
            ∙ ap (λ l. get_elem? l (length front)) e
            ∙ get_elem?-front front x (y ∷ []),
      )

is_data-eq : (d : List ℕ) (p : PushItem) → is_data d (some p) ≡ true → p ≡ data_item d
is_data-eq d (data_item e) h = ap data_item (eq-beq_bytes e d h)
is_data-eq d (small_item v) h = absurd (cc h)

pub took_branch-TookBranch :
    (witness : CovenantWitness) (script : List ℕ)
    → took_branch witness script ≡ true
    → TookBranch witness script
unfolding took_branch
took_branch-TookBranch witness script h = elim (Option-cases (parse_items script)) [
  | inl e ↦ absurd (cc (rw (took_branch, e) at h))
  | inr (items, e) ↦ elim (if-cases (ltb (length items) 2) _ _ (rw (took_branch, e) at h)) [
    | inl (few, z) ↦ absurd (cc z)
    | inr (enough, h₁) ↦
        let (front, x, y, split) = last_two items (ground arith) in
        let (at_last, at_selector) = at_end items front x y split in
        elim (if-cases (not (is_data witness.redeem_script (get_elem? items (length items - 1)))) _
          _ h₁) [
            | inl (other, z) ↦ absurd (cc z)
            | inr (redeem, h₂) ↦ elim (Option-cases (chosen_branch (some x))) [
              | inl none_chosen ↦ absurd (cc (rw (at_selector, none_chosen) at h₂))
              | inr (chosen, c) ↦
                  let branch : chosen ≡ witness.branch =
                    (==_iff chosen witness.branch).0 (rw (at_selector, c) at h₂) in
                  let last : y ≡ data_item witness.redeem_script =
                    is_data-eq witness.redeem_script y (rw at_last at (not-false _ redeem)) in
                  record {
                    before = front;
                    selector = x;
                    chooses = chosen_branch-Chooses x witness.branch (c ∙ ap some branch);
                    pushes = rw (sym last, sym split) (parse_items-Pushes script items e);
                  }
            ]
          ]
  ]
]
