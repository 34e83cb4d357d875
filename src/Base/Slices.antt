-- ===== src/Base/Slices.antt =====
-- Ranges of a byte array: `&b[start..stop]`, `b.get(start..stop)` and `copy_from_slice` into one.
use Prim.Native.Nat.{ℕ, zero, suc, ◌+◌, ◌-◌, ◌≤◌}
use mathlib.Core.Path.{◌≡◌, ap, ap₂, ◌∙◌, sym}
use mathlib.Core.List.{List, [], ◌∷◌, ◌++◌, append_assoc}
use mathlib.Core.Option.{Option, none, some}
use native.Mathlib.Omega.{arith}
use k_rep.Base.Tests.{leb, if◌then◌else◌}
use k_rep.Base.Lists.{
  length, take, drop, take-append_length, drop-append_length, take-append-drop, length-take,
  length-drop,
}

sub_zero : (n : ℕ) → n ≡ n - 0
sub_zero n = omega arith

sub_suc : (n k : ℕ) → n - k ≡ suc n - suc k
sub_suc n k = omega arith

zero_add : (n : ℕ) → n ≡ zero + n
zero_add n = omega arith

suc_add : (m n : ℕ) → suc (m + n) ≡ suc m + n
suc_add m n = omega arith

add_sub : (m n : ℕ) → m ≤ n → n ≡ m + (n - m)
add_sub m n h = omega arith

add_sub_cancel : (n m k : ℕ) → m ≡ n → n + k - m ≡ k
add_sub_cancel n m k h = omega arith

add_sub_add : (n a b : ℕ) → n + b - (n + a) ≡ b - a
add_sub_add n a b = omega arith

module _ {ℓ} {A : Type ℓ} where
  abbrev pub slice : ℕ → ℕ → List A → List A
  slice start stop xs = take (stop - start) (drop start xs)

  -- `.get(start..stop)`: `None` past the end.
  unfoldable pub get_range : ℕ → ℕ → List A → Option (List A)
  get_range start stop xs = if leb stop (length xs) then some (slice start stop xs) else none

  -- `out[start..stop].copy_from_slice(src)`, where `src` has the length of the range.
  abbrev pub copy_range : ℕ → ℕ → List A → List A → List A
  copy_range start stop src out = take start out ++ (src ++ drop stop out)

  pub drop-append_le :
      (n : ℕ) (xs ys : List A) → length xs ≤ n → drop n (xs ++ ys) ≡ drop (n - length xs) ys
  drop-append_le n [] ys h = ap (λ (k : ℕ). drop k ys) (sub_zero n)
  drop-append_le zero (x ∷ xs) ys h = absurd (omega arith)
  drop-append_le (suc n) (x ∷ xs) ys h =
      drop-append_le n xs ys (omega arith) ∙ ap (λ (k : ℕ). drop k ys) (sub_suc n (length xs))

  pub take-append_le :
      (n : ℕ) (xs ys : List A) → length xs ≤ n → take n (xs ++ ys) ≡ xs ++ take (n - length xs) ys
  take-append_le n [] ys h = ap (λ (k : ℕ). take k ys) (sub_zero n)
  take-append_le zero (x ∷ xs) ys h = absurd (omega arith)
  take-append_le (suc n) (x ∷ xs) ys h =
      ap (λ t. x ∷ t)
        (take-append_le n xs ys (omega arith)
          ∙ ap (λ (k : ℕ). xs ++ take k ys) (sub_suc n (length xs)))

  -- A range behind a first part of `n` elements.
  pub slice-append :
      (n start stop : ℕ) (xs ys : List A)
      → length xs ≡ n
      → n ≤ start
      → slice start stop (xs ++ ys) ≡ slice (start - n) (stop - start + (start - n)) ys
  slice-append n start stop xs ys h le =
      ap₂ take (omega arith)
        (drop-append_le start xs ys (omega arith) ∙ ap (λ k. drop (start - k) ys) h)

  pub slice_front : (n : ℕ) (xs ys : List A) → length xs ≡ n → slice 0 n (xs ++ ys) ≡ xs
  slice_front n xs ys h =
      ap (λ (k : ℕ). take k (xs ++ ys)) (sym (sub_zero n)) ∙ take-append_length n xs ys h

  pub drop-drop : (m n : ℕ) (xs : List A) → drop n (drop m xs) ≡ drop (m + n) xs
  drop-drop zero n xs = ap (λ (k : ℕ). drop k xs) (zero_add n)
  drop-drop (suc m) zero [] = ap (λ (k : ℕ). drop {A = A} k []) (suc_add m 0)
  drop-drop (suc m) (suc n) [] = ap (λ (k : ℕ). drop {A = A} k []) (suc_add m (suc n))
  drop-drop (suc m) n (x ∷ xs) = drop-drop m n xs ∙ ap (λ (k : ℕ). drop k (x ∷ xs)) (suc_add m n)

  pub length-slice :
      (start stop : ℕ) (xs : List A)
      → start ≤ stop
      → stop ≤ length xs
      → length (slice start stop xs) ≡ stop - start
  length-slice start stop xs h le =
      length-take (stop - start) (drop start xs) ∙ omega (arith, length-drop start xs)

  -- A list is a range at its front followed by the rest.
  pub slice-append-drop :
      (start stop : ℕ) (xs : List A)
      → start ≤ stop
      → slice start stop xs ++ drop stop xs ≡ drop start xs
  slice-append-drop start stop xs h =
      ap (λ t. slice start stop xs ++ t)
        (ap (λ (k : ℕ). drop k xs) (add_sub start stop h) ∙ sym (drop-drop start (stop - start) xs))
      ∙ take-append-drop (stop - start) (drop start xs)

  -- Behind a block of `n` elements, positions count from its end.
  pub drop_block : (n k : ℕ) (xs ys : List A) → length xs ≡ n → drop (n + k) (xs ++ ys) ≡ drop k ys
  drop_block n k xs ys h =
      sym (drop-drop n k (xs ++ ys)) ∙ ap (drop k) (drop-append_length n xs ys h)

  pub take_block :
      (n k : ℕ) (xs ys : List A) → length xs ≡ n → take (n + k) (xs ++ ys) ≡ xs ++ take k ys
  take_block n k xs ys h =
      take-append_le (n + k) xs ys (omega arith)
      ∙ ap (λ (j : ℕ). xs ++ take j ys) (add_sub_cancel n (length xs) k h)

  pub slice_block :
      (n start stop : ℕ) (xs ys : List A)
      → length xs ≡ n
      → slice (n + start) (n + stop) (xs ++ ys) ≡ slice start stop ys
  slice_block n start stop xs ys h =
      ap₂ take (add_sub_add n start stop) (drop_block n start xs ys h)

  pub copy_block :
      (n start stop : ℕ) (src xs ys : List A)
      → length xs ≡ n
      → copy_range (n + start) (n + stop) src (xs ++ ys) ≡ xs ++ copy_range start stop src ys
  copy_block n start stop src xs ys h =
      ap₂ (λ (a b : List A). a ++ (src ++ b)) (take_block n start xs ys h)
        (drop_block n stop xs ys h)
      ∙ append_assoc xs (take start ys) (src ++ drop stop ys)

  pub copy_front :
      (n : ℕ) (src xs ys : List A) → length xs ≡ n → copy_range 0 n src (xs ++ ys) ≡ src ++ ys
  copy_front n src xs ys h = ap (λ t. src ++ t) (drop-append_length n xs ys h)
