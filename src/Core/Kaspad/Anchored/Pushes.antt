-- ===== src/Core/Kaspad/Anchored/Pushes.antt =====
-- What a signature script pushed (`parse_pushes` and `took_branch` of krep-core/src/kaspad.rs).
use k_rep.Base.{
  ℕ, zero, suc, ◌+◌, ◌-◌, ◌^◌, ◌≤◌, ◌≡◌, ◌⊎◌, inl, inr, refl, ap, ap₂, sym, ◌∙◌, some, List, [],
  ◌∷◌, ◌++◌, length, take, drop, take-append-drop, length-take, arith, from_le, then_some-eq-some,
  if-cases, leb, ◌==◌, ◌&&◌, append_assoc,
}
use k_rep.Core.Kaspad.Anchored.{
  PushItem, data_item, small_item, split_item, data_of, sized_data, read_item, item_loop,
  parse_items,
}

-- An opcode with the bytes that belong to it, and the item that they push.
pub data IsItem (op : ℕ) (tail : List ℕ) : PushItem → Type 0 where
  zero_item : op ≡ 0 → tail ≡ [] → IsItem op tail (small_item 0)
  minus_one : op ≡ 79 → tail ≡ [] → IsItem op tail (small_item (2 ^ 64 - 1))
  number : (n : ℕ) → 1 ≤ n → n ≤ 16 → op ≡ 80 + n → tail ≡ [] → IsItem op tail (small_item n)
  direct : 1 ≤ op → op ≤ 75 → length tail ≡ op → IsItem op tail (data_item tail)
  -- a length of `w` bytes, which is 1, 2 or 4 by the opcode
  sized :
      (w : ℕ) (size d : List ℕ)
      → ((op ≡ 76) × (w ≡ 1)) ⊎ (((op ≡ 77) × (w ≡ 2)) ⊎ ((op ≡ 78) × (w ≡ 4)))
      → length size ≡ w
      → from_le size ≡ length d
      → tail ≡ size ++ d
      → IsItem op tail (data_item d)

-- A script that pushes some items and does nothing else.
pub data Pushes : List ℕ → List PushItem → Type 0 where
  done : Pushes [] []
  then_item :
      (op : ℕ) (tail rest : List ℕ) (p : PushItem) (ps : List PushItem)
      → IsItem op tail p
      → Pushes rest ps
      → Pushes (op ∷ (tail ++ rest)) (p ∷ ps)

split_item-eq-some :
    (n : ℕ) (rest : List ℕ) (p : List ℕ × List ℕ)
    → split_item n rest ≡ some p
    → (length p.0 ≡ n) × (rest ≡ p.0 ++ p.1)
unfolding split_item
split_item-eq-some n rest p h = elim (if-cases (leb n (length rest)) _ _ h) [
  | inr (e, e') ↦ cc e'
  | inl (e, e') ↦
      let front : take n rest ≡ p.0 = cc e' in
      let back : drop n rest ≡ p.1 = cc e' in
      let fits : n ≤ length rest = ground arith in
      (
        sym (ap length front) ∙ length-take n rest ∙ omega arith,
        sym (take-append-drop n rest) ∙ ap₂ ◌++◌ front back,
      )
]

data_of-eq-some :
    (n : ℕ) (rest : List ℕ) (p : PushItem × List ℕ)
    → data_of n rest ≡ some p
    → (d : List ℕ) × (length d ≡ n) × (rest ≡ d ++ p.1) × (p.0 ≡ data_item d)
unfolding data_of
data_of-eq-some n rest p h =
    let (q, e, e') = then_some-eq-some (split_item n rest) _ h in
    let (width, parts) = split_item-eq-some n rest q e in
    let after : q.1 ≡ p.1 = cc e' in (q.0, width, parts ∙ ap (λ l. q.0 ++ l) after, cc e')

-- What was read is a push, and the rest comes after it.
abbrev WasItem : ℕ → List ℕ → PushItem × List ℕ → Type 0
WasItem op rest p = (tail : List ℕ) × (rest ≡ tail ++ p.1) × IsItem op tail p.0

was_data :
    (op : ℕ) (rest : List ℕ) (p : PushItem × List ℕ)
    → 1 ≤ op
    → op ≤ 75
    → data_of op rest ≡ some p
    → WasItem op rest p
was_data op rest p lo hi h =
    let (d, width, parts, e) = data_of-eq-some op rest p h in
    (d, parts, rw e (IsItem.direct lo hi width))

was_sized :
    (op w : ℕ) (rest : List ℕ) (p : PushItem × List ℕ)
    → ((op ≡ 76) × (w ≡ 1)) ⊎ (((op ≡ 77) × (w ≡ 2)) ⊎ ((op ≡ 78) × (w ≡ 4)))
    → sized_data w rest ≡ some p
    → WasItem op rest p
unfolding sized_data
was_sized op w rest p kind h =
    let (q, e, e') = then_some-eq-some (split_item w rest) _ h in
    let (width, parts) = split_item-eq-some w rest q e in
    let (d, size, after, pushed) = data_of-eq-some (from_le q.0) q.1 p e' in
    (
      q.0 ++ d,
      parts ∙ ap (λ l. q.0 ++ l) after ∙ sym (append_assoc q.0 d p.1),
      rw pushed (IsItem.sized w q.0 d kind width (sym size) refl),
    )

was_small :
    (op v : ℕ) (rest : List ℕ) (p : PushItem × List ℕ)
    → IsItem op [] (small_item v)
    → some (small_item v, rest) ≡ some p
    → WasItem op rest p
was_small op v rest p push e =
    let pushed : small_item v ≡ p.0 = cc e in
    let after : rest ≡ p.1 = cc e in ([], after, rw (sym pushed) push)

read_item-WasItem :
    (op : ℕ) (rest : List ℕ) (p : PushItem × List ℕ)
    → read_item op rest ≡ some p
    → WasItem op rest p
unfolding read_item
read_item-WasItem op rest p h = elim (if-cases (op == 0) _ _ h) [
  | inl (b, e) ↦ was_small op 0 rest p (zero_item (ground arith) refl) e
  | inr (b, h) ↦ elim (if-cases (op == 79) _ _ h) [
    | inl (b, e) ↦ was_small op (2 ^ 64 - 1) rest p (minus_one (ground arith) refl) e
    | inr (b, h) ↦ elim (if-cases (leb 81 op && leb op 96) _ _ h) [
      | inl (b, e) ↦
          was_small op (op - 81 + 1) rest p
            (number (op - 81 + 1) (ground arith) (ground arith) (ground arith) refl) e
      | inr (b, h) ↦ elim (if-cases (leb 1 op && leb op 75) _ _ h) [
        | inl (b, e) ↦ was_data op rest p (ground arith) (ground arith) e
        | inr (b, h) ↦ elim (if-cases (op == 76) _ _ h) [
          | inl (b, e) ↦ was_sized op 1 rest p (inl (ground arith, refl)) e
          | inr (b, h) ↦ elim (if-cases (op == 77) _ _ h) [
            | inl (b, e) ↦ was_sized op 2 rest p (inr (inl (ground arith, refl))) e
            | inr (b, h) ↦ elim (if-cases (op == 78) _ _ h) [
              | inl (b, e) ↦ was_sized op 4 rest p (inr (inr (ground arith, refl))) e
              | inr (b, h) ↦ cc h
            ]
          ]
        ]
      ]
    ]
  ]
]

item_loop-Pushes :
    (fuel : ℕ) (script : List ℕ) (ps : List PushItem)
    → item_loop fuel script ≡ some ps
    → Pushes script ps
unfolding item_loop
item_loop-Pushes fuel [] ps h = let same : [] ≡ ps = cc h in rw (sym same) Pushes.done
item_loop-Pushes zero (op ∷ rest) ps h = cc h
item_loop-Pushes (suc fuel) (op ∷ rest) ps h =
    let (p, e, h₁) = then_some-eq-some (read_item op rest) _ h in
    let (qs, e₁, e₂) = then_some-eq-some (item_loop fuel p.1) _ h₁ in
    let (tail, parts, push) = read_item-WasItem op rest p e in
    let same : p.0 ∷ qs ≡ ps = cc e₂ in
    rw (parts, sym same)
      (Pushes.then_item op tail p.1 p.0 qs push (item_loop-Pushes fuel p.1 qs e₁))

-- A script that is parsed pushes the items that it is parsed to.
pub parse_items-Pushes :
    (script : List ℕ) (ps : List PushItem) → parse_items script ≡ some ps → Pushes script ps
unfolding parse_items
parse_items-Pushes script ps h = item_loop-Pushes (length script) script ps h
