-- ===== src/Zk/Smt/Bits.antt =====
-- A key is its 256 bits (SparseMerkleTree::bit of krep-zk/src/smt.rs).
use k_rep.Base.{
  ℕ, zero, suc, ◌+◌, ◌-◌, ◌*◌, ◌/◌, ◌%◌, ◌^◌, ◌≤◌, ◌<◌, ◌≡◌, refl, ap, ap₂, sym, ◌∙◌, bit_and, Bool,
  true, false, not, ◌&&◌, List, [], ◌∷◌, get_or, length, ◌==◌, ==_iff, arith, All, IsByte, IsArray,
}
use native.Mathlib.Decide.{dec_lt}
use k_rep.Zk.Smt.{bit, depth, is_under, same_bit}

-- The bit of a byte that the mask `p` picks.
abbrev test : ℕ → ℕ → Bool
test b p = not (bit_and b p == 0)

abbrev weight : Bool → ℕ → ℕ
weight true p = p
weight false p = 0

abbrev from_bits : ℕ → ℕ
from_bits b =
    weight (test b 128) 128
    + weight (test b 64) 64
    + weight (test b 32) 32
    + weight (test b 16) 16
    + weight (test b 8) 8
    + weight (test b 4) 4
    + weight (test b 2) 2
    + weight (test b 1) 1

abbrev all_below : ℕ → (ℕ → Bool) → Bool
all_below zero f = true
all_below (suc n) f = f n && all_below n f

all_below-lt : (n : ℕ) (f : ℕ → Bool) → all_below n f ≡ true → (b : ℕ) → b < n → f b ≡ true
all_below-lt zero f h b lt = absurd (omega arith)
all_below-lt (suc n) f h b lt = elim (dec_lt b n) [
  | yes less ↦ all_below-lt n f (ground arith) b less
  | no not_less ↦ let same : n ≡ b = omega arith in ap f (sym same) ∙ ground arith
]

-- Every byte is the sum of its bits.
bytes_rebuilt : all_below 256 (λ b. from_bits b == b) ≡ true
bytes_rebuilt = refl

from_bits-byte : (b : ℕ) → IsByte b → from_bits b ≡ b
from_bits-byte b h =
    (==_iff (from_bits b) b).0 (all_below-lt 256 (λ b. from_bits b == b) bytes_rebuilt b h)

same_byte :
    (a b : ℕ)
    → IsByte a
    → IsByte b
    → ((j : ℕ) → j < 8 → test a (2 ^ (7 - j)) ≡ test b (2 ^ (7 - j)))
    → a ≡ b
same_byte a b ha hb h =
    let at = λ (j : ℕ) (lt : j < 8). ap (λ t. weight t (2 ^ (7 - j))) (h j lt) in
    sym (from_bits-byte a ha)
    ∙ omega (
      arith,
      at 0 (omega arith),
      at 1 (omega arith),
      at 2 (omega arith),
      at 3 (omega arith),
      at 4 (omega arith),
      at 5 (omega arith),
      at 6 (omega arith),
      at 7 (omega arith),
    )
    ∙ from_bits-byte b hb

bit_at :
    (key : List ℕ) (i j : ℕ)
    → i < 32
    → j < 8
    → bit key (255 - (8 * i + j)) ≡ test (get_or key i 0) (2 ^ (7 - j))
unfolding bit
bit_at key i j hi hj =
    let byte : (depth - 1 - (255 - (8 * i + j))) / 8 ≡ i = omega arith in
    let place : (depth - 1 - (255 - (8 * i + j))) % 8 ≡ j = omega arith in
    ap₂ (λ a b. test (get_or key a 0) (2 ^ (7 - b))) byte place

get_or-IsByte : (bs : List ℕ) (i : ℕ) → All IsByte bs → IsByte (get_or bs i 0)
get_or-IsByte [] i h = omega arith
get_or-IsByte (b ∷ bs) zero h = h.0
get_or-IsByte (b ∷ bs) (suc i) h = get_or-IsByte bs i h.1

get_or-injective :
    (xs ys : List ℕ)
    → length xs ≡ length ys
    → ((i : ℕ) → i < length xs → get_or xs i 0 ≡ get_or ys i 0)
    → xs ≡ ys
get_or-injective [] [] w h = refl
get_or-injective [] (y ∷ ys) w h = absurd (omega arith)
get_or-injective (x ∷ xs) [] w h = absurd (omega arith)
get_or-injective (x ∷ xs) (y ∷ ys) w h =
    ap₂ ◌∷◌ (h 0 (omega arith))
      (get_or-injective xs ys (omega arith) (λ i lt. h (suc i) (omega arith)))

-- Two keys with the same bits are one key.
pub bit-injective :
    (a b : List ℕ)
    → IsArray 32 a
    → IsArray 32 b
    → ((level : ℕ) → level < depth → bit a level ≡ bit b level)
    → a ≡ b
bit-injective a b ha hb h = get_or-injective a b (ha.width ∙ sym hb.width) (λ i lt.
    let small : i < 32 = omega (arith, ha.width) in
    same_byte (get_or a i 0) (get_or b i 0) (get_or-IsByte a i ha.bytes)
      (get_or-IsByte b i hb.bytes)
      (λ j lt'.
        sym (bit_at a i j small lt')
        ∙ h (255 - (8 * i + j)) (omega arith)
        ∙ bit_at b i j small lt'))

same_bit-eq : (a b : Bool) → same_bit a b ≡ true → a ≡ b
same_bit-eq true b h = sym h
same_bit-eq false true h = cc
same_bit-eq false false h = refl

is_under-bit :
    (i : ℕ) (p : List Bool) (a b : List ℕ)
    → is_under i p a ≡ true
    → is_under i p b ≡ true
    → (n : ℕ) → i ≤ n
    → n < i + length p
    → bit a (depth - 1 - n) ≡ bit b (depth - 1 - n)
unfolding is_under
is_under-bit i [] a b ha hb n le lt = absurd (omega arith)
is_under-bit i (q ∷ p) a b ha hb n le lt = elim (dec_lt i n) [
  | yes less ↦
      is_under-bit (suc i) p a b (ground arith) (ground arith) n (omega arith) (omega arith)
  | no not_less ↦
      let same : n ≡ i = omega arith in
      let x : bit a (depth - 1 - i) ≡ q = same_bit-eq _ q (ground arith) in
      let y : bit b (depth - 1 - i) ≡ q = same_bit-eq _ q (ground arith) in rw same (x ∙ sym y)
]

-- Below a full path stands one key at most.
pub is_under-injective :
    (p : List Bool) (a b : List ℕ)
    → IsArray 32 a
    → IsArray 32 b
    → length p ≡ depth
    → is_under 0 p a ≡ true
    → is_under 0 p b ≡ true
    → a ≡ b
is_under-injective p a b ha hb w ua ub = bit-injective a b ha hb (λ level lt.
    let same : depth - 1 - (255 - level) ≡ level = omega arith in
    rw same at (is_under-bit 0 p a b ua ub (255 - level) (omega arith) (omega arith)))
