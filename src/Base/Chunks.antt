-- ===== src/Base/Chunks.antt =====
-- `chunks(n)` and `chunks_exact(n)` of a slice.
use Prim.Native.Nat.{ℕ, zero, suc, ◌*◌, ◌/◌, ◌≤◌, ◌<◌}
use mathlib.Core.Path.{◌≡◌, refl, ap, ◌∙◌}
use mathlib.Core.List.{List, [], ◌∷◌, ◌++◌, flatten}
use native.Mathlib.Omega.{arith}
use k_rep.Base.Lists.{length, take, drop, length-drop, take-append-drop}

module _ {ℓ} {A : Type ℓ} where
  -- With fuel: one round takes `n` elements, so the length is enough for `0 < n`.
  unfoldable pub chunks_fuel : ℕ → ℕ → List A → List (List A)
  chunks_fuel fuel n [] = []
  chunks_fuel zero n (x ∷ xs) = []
  chunks_fuel (suc fuel) n (x ∷ xs) = take n (x ∷ xs) ∷ chunks_fuel fuel n (drop n (x ∷ xs))

  unfoldable pub chunks : ℕ → List A → List (List A)
  unfolding chunks_fuel
  chunks n xs = chunks_fuel (length xs) n xs

  -- The chunks of full length alone.
  unfoldable pub chunks_exact : ℕ → List A → List (List A)
  unfolding chunks
  chunks_exact n xs = chunks n (take (length xs / n * n) xs)

  flatten-chunks_fuel :
      (fuel n : ℕ) (xs : List A) → 0 < n → length xs ≤ fuel → flatten (chunks_fuel fuel n xs) ≡ xs
  unfolding chunks_fuel flatten
  flatten-chunks_fuel fuel n [] hn h = refl
  flatten-chunks_fuel zero n (x ∷ xs) hn h = absurd (omega arith)
  flatten-chunks_fuel (suc fuel) n (x ∷ xs) hn h =
      ap (λ l. take n (x ∷ xs) ++ l)
        (flatten-chunks_fuel fuel n (drop n (x ∷ xs)) hn (omega (arith, length-drop n (x ∷ xs))))
      ∙ take-append-drop n (x ∷ xs)

  -- The chunks hold every element, in order: the fuel is enough.
  pub flatten-chunks : (n : ℕ) (xs : List A) → 0 < n → flatten (chunks n xs) ≡ xs
  unfolding chunks
  flatten-chunks n xs hn = flatten-chunks_fuel (length xs) n xs hn (omega arith)

  -- More fuel than the length changes nothing.
  pub chunks_fuel_enough :
      (fuel n : ℕ) (xs : List A) → 0 < n → length xs ≤ fuel → chunks_fuel fuel n xs ≡ chunks n xs
  unfolding chunks_fuel chunks
  chunks_fuel_enough fuel n xs hn h = go fuel (length xs) xs h (omega arith)
    where
      go :
          (f g : ℕ) (ys : List A)
          → length ys ≤ f
          → length ys ≤ g
          → chunks_fuel f n ys ≡ chunks_fuel g n ys
      go f g [] hf hg = refl
      go zero g (y ∷ ys) hf hg = absurd (omega arith)
      go (suc f) zero (y ∷ ys) hf hg = absurd (omega arith)
      go (suc f) (suc g) (y ∷ ys) hf hg =
          ap (λ l. take n (y ∷ ys) ∷ l)
            (go f g (drop n (y ∷ ys)) (omega (arith, length-drop n (y ∷ ys)))
              (omega (arith, length-drop n (y ∷ ys))))

  -- One round.
  pub chunks_step :
      (n : ℕ) (x : A) (xs : List A)
      → 0 < n
      → chunks n (x ∷ xs) ≡ take n (x ∷ xs) ∷ chunks n (drop n (x ∷ xs))
  unfolding chunks chunks_fuel
  chunks_step n x xs hn =
      ap (λ l. take n (x ∷ xs) ∷ l)
        (chunks_fuel_enough (length xs) n (drop n (x ∷ xs)) hn
          (omega (arith, length-drop n (x ∷ xs))))
