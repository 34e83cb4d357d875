-- ===== src/Core/Field/Encoding.antt =====
-- Two values never become one sequence of field elements (krep-core/src/field.rs).
use k_rep.Base.{
  ℕ, zero, suc, ◌+◌, ◌-◌, ◌*◌, ◌^◌, ◌≤◌, ◌<◌, ◌≡◌, refl, ap, ap₂, sym, ◌∙◌, List, [], ◌∷◌, ◌++◌,
  map, length, take, drop, replicate, length-append, length-replicate, length-take, length-drop,
  append-injective, All, All-take, All-drop, All-append, IsByte, IsArray, from_be, from_be_acc,
  chunks, chunks_step, take-append-drop, arith, slice, min, length-slice, append-nil, drop_all,
  slice-append-drop,
}
use native.Mathlib.Nat.{pow-suc}
use k_rep.Core.Field.{FieldOps, pad_limb, value_fields, limbs}

from_be_acc-lt :
    (w acc b : ℕ) (bs : List ℕ)
    → length bs ≡ w
    → All IsByte bs
    → acc < b
    → from_be_acc acc bs < b * 256 ^ w
unfolding from_be_acc
from_be_acc-lt zero acc b [] h a lt = omega arith
from_be_acc-lt zero acc b (x ∷ xs) h a lt = absurd (omega arith)
from_be_acc-lt (suc w) acc b [] h a lt = absurd (omega arith)
from_be_acc-lt (suc w) acc b (x ∷ xs) h a lt = omega (
  arith,
  ap (λ (t : ℕ). b * t) (pow-suc 256 w),
  from_be_acc-lt w (acc * 256 + x) (b * 256) xs (omega arith) a.1 (omega arith),
)

from_be_acc-injective :
    (a b : ℕ) (xs ys : List ℕ)
    → length xs ≡ length ys
    → All IsByte xs
    → All IsByte ys
    → from_be_acc a xs ≡ from_be_acc b ys
    → (a ≡ b) × (xs ≡ ys)
unfolding from_be_acc
from_be_acc-injective a b [] [] h p q e = (e, refl)
from_be_acc-injective a b [] (y ∷ ys) h p q e = absurd (omega arith)
from_be_acc-injective a b (x ∷ xs) [] h p q e = absurd (omega arith)
from_be_acc-injective a b (x ∷ xs) (y ∷ ys) h p q e =
    let (first, rest) =
      from_be_acc-injective (a * 256 + x) (b * 256 + y) xs ys (omega arith) p.1 q.1 e in
    let head : x ≡ y = omega (arith, p.0, q.0) in (omega (arith, p.0, q.0), ap₂ ◌∷◌ head rest)

replicate-IsByte : (n : ℕ) → All IsByte (replicate n 0)
replicate-IsByte zero = tt
replicate-IsByte (suc n) = (omega arith, replicate-IsByte n)

pad_limb-IsArray :
    (chunk : List ℕ) → length chunk ≤ 16 → All IsByte chunk → IsArray 16 (pad_limb chunk)
unfolding pad_limb
pad_limb-IsArray chunk h b = record {
  width =
      length-append (replicate (16 - length chunk) 0) chunk
      ∙ omega (arith, length-replicate {A = ℕ} (16 - length chunk) 0);
  bytes = All-append IsByte _ chunk (replicate-IsByte (16 - length chunk)) b;
}

-- A limb fits below 2 ^ 128.
limb-lt : (bs : List ℕ) → IsArray 16 bs → from_be bs < 2 ^ 128
unfolding from_be
limb-lt bs h = omega (arith, from_be_acc-lt 16 0 1 bs h.width h.bytes (omega arith))

pad_limb-injective :
    (a b : List ℕ)
    → length a ≤ 16
    → length a ≡ length b
    → All IsByte a
    → All IsByte b
    → from_be (pad_limb a) ≡ from_be (pad_limb b)
    → a ≡ b
unfolding from_be
pad_limb-injective a b h w p q e =
    let pa = pad_limb-IsArray a h p in
    let pb = pad_limb-IsArray b (omega arith) q in
    let same =
      from_be_acc-injective 0 0 (pad_limb a) (pad_limb b) (pa.width ∙ sym pb.width) pa.bytes
        pb.bytes e in
    (unfold pad_limb in
      (append-injective (replicate (16 - length a) 0) (replicate (16 - length b) 0)
        (length-replicate {A = ℕ} (16 - length a) 0
          ∙ ap (λ (n : ℕ). 16 - n) w
          ∙ sym (length-replicate {A = ℕ} (16 - length b) 0))
        same.1).1)

snoc-injective {ℓ} :
    {A : Type ℓ} {x y : A} (xs ys : List A) → xs ++ x ∷ [] ≡ ys ++ y ∷ [] → (xs ≡ ys) × (x ≡ y)
snoc-injective {x = x} {y = y} xs ys e =
    let width : length xs ≡ length ys =
      omega (arith, length-append xs (x ∷ []), length-append ys (y ∷ []), ap length e) in
    let (init, last) = append-injective xs ys width e in (init, cc last)

half-IsArray :
    (start stop : ℕ) (bs : List ℕ)
    → IsArray 32 bs
    → stop ≡ start + 16
    → stop ≤ 32
    → IsArray 16 (slice start stop bs)
half-IsArray start stop bs h r le = record {
  width = length-slice start stop bs (omega arith) (omega (arith, h.width)) ∙ omega arith;
  bytes = All-take IsByte (stop - start) _ (All-drop IsByte start bs h.bytes);
}

-- The two halves of 32 bytes.
halves : (bs : List ℕ) → IsArray 32 bs → slice 0 16 bs ++ slice 16 32 bs ≡ bs
halves bs h =
    ap (λ l. slice 0 16 bs ++ l)
      (sym (append-nil _)
        ∙ ap (λ l. slice 16 32 bs ++ l) (sym (drop_all 32 bs h.width))
        ∙ slice-append-drop 16 32 bs (omega arith))
    ∙ take-append-drop 16 bs

module _ {F : Type 0} ⦃field : FieldOps F⦄ where
  array_of_limb :
      (a b : List ℕ)
      → IsArray 16 a
      → IsArray 16 b
      → field.of_u128 (from_be a) ≡ field.of_u128 (from_be b)
      → a ≡ b
  unfolding from_be
  array_of_limb a b p q e =
      let same = field.of_u128-injective (from_be a) (from_be b) (limb-lt a p) (limb-lt b q) e in
      (from_be_acc-injective 0 0 a b (p.width ∙ sym q.width) p.bytes q.bytes same).1

  abbrev limb : List ℕ → F
  limb chunk = field.of_u128 (from_be (pad_limb chunk))

  limb-injective :
      (a b : List ℕ)
      → length a ≤ 16
      → length a ≡ length b
      → All IsByte a
      → All IsByte b
      → limb a ≡ limb b
      → a ≡ b
  limb-injective a b h w p q e = pad_limb-injective a b h w p q (
      field.of_u128-injective _ _ (limb-lt _ (pad_limb-IsArray a h p))
        (limb-lt _ (pad_limb-IsArray b (omega arith) q)) e)

  limbs_of : List ℕ → List F
  limbs_of bs = map limb (chunks 16 bs)

  limbs_of-injective :
      (n : ℕ) (a b : List ℕ)
      → length a ≤ n
      → length a ≡ length b
      → All IsByte a
      → All IsByte b
      → limbs_of a ≡ limbs_of b
      → a ≡ b
  unfolding limbs_of
  limbs_of-injective n [] [] h w p q e = refl
  limbs_of-injective n [] (y ∷ ys) h w p q e = absurd (omega arith)
  limbs_of-injective n (x ∷ xs) [] h w p q e = absurd (omega arith)
  limbs_of-injective zero (x ∷ xs) (y ∷ ys) h w p q e = absurd (omega arith)
  limbs_of-injective (suc n) (x ∷ xs) (y ∷ ys) h w p q e =
      let a = x ∷ xs in
      let b = y ∷ ys in
      let e' : limb (take 16 a) ∷ map limb (chunks 16 (drop 16 a))
          ≡ limb (take 16 b) ∷ map limb (chunks 16 (drop 16 b)) =
        rw (chunks_step 16 x xs (omega arith), chunks_step 16 y ys (omega arith)) at e in
      let first : take 16 a ≡ take 16 b =
        limb-injective (take 16 a) (take 16 b) (omega (arith, length-take 16 a))
          (length-take 16 a ∙ ap (min 16) w ∙ sym (length-take 16 b)) (All-take IsByte 16 a p)
          (All-take IsByte 16 b q) (cc e') in
      let rest : drop 16 a ≡ drop 16 b =
        limbs_of-injective n (drop 16 a) (drop 16 b) (omega (arith, length-drop 16 a))
          (length-drop 16 a ∙ ap (λ (k : ℕ). k - 16) w ∙ sym (length-drop 16 b))
          (All-drop IsByte 16 a p) (All-drop IsByte 16 b q) (cc e') in
      sym (take-append-drop 16 a) ∙ ap₂ ◌++◌ first rest ∙ take-append-drop 16 b

  -- Two byte strings, each shorter than 2 ^ 128, that are absorbed as the same field elements are
  -- one byte string.
  pub value_fields-injective :
      (a b : List ℕ)
      → length a < 2 ^ 128
      → length b < 2 ^ 128
      → All IsByte a
      → All IsByte b
      → value_fields {F = F} a ≡ value_fields b
      → a ≡ b
  unfolding value_fields limbs_of
  value_fields-injective a b ha hb p q e =
      let (heads, lengths) = snoc-injective (limbs_of a) (limbs_of b) e in
      let width = field.of_u128-injective (length a) (length b) ha hb lengths in
      limbs_of-injective (length a) a b (omega arith) width p q heads

  -- Two arrays of 32 bytes with the same two limbs are one array.
  pub limbs-injective :
      (a b : List ℕ) → IsArray 32 a → IsArray 32 b → limbs {F = F} a ≡ limbs b → a ≡ b
  unfolding limbs from_be
  limbs-injective a b p q e =
      let half =
        λ (start stop : ℕ) (c : List ℕ) (h : IsArray 32 c) (r : stop ≡ start + 16) (s : stop ≤ 32).
          half-IsArray start stop c h r s in
      let a₀ = half 0 16 a p (omega arith) (omega arith) in
      let a₁ = half 16 32 a p (omega arith) (omega arith) in
      let b₀ = half 0 16 b q (omega arith) (omega arith) in
      let b₁ = half 16 32 b q (omega arith) (omega arith) in
      let hi = array_of_limb (slice 0 16 a) (slice 0 16 b) a₀ b₀ (cc e) in
      let lo = array_of_limb (slice 16 32 a) (slice 16 32 b) a₁ b₁ (cc e) in
      sym (halves a p) ∙ ap₂ ◌++◌ hi lo ∙ halves b q
