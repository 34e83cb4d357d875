-- ===== src/Base/Bytes.antt =====
-- Bytes, and integers of a fixed width written as bytes in either order.
use Prim.Native.Nat.{ℕ, zero, suc, ◌+◌, ◌*◌, ◌/◌, ◌%◌, ◌^◌, ◌<◌}
use mathlib.Core.Path.{◌≡◌, refl, ap, sym, ◌∙◌, ap₂}
use mathlib.Core.List.{List, [], ◌∷◌}
use native.Mathlib.Omega.{arith}
use k_rep.Base.Lists.{length, All}

abbrev pub IsByte : ℕ → Type 0
IsByte b = b < 256

-- A `[u8; n]`.
pub record IsArray (n : ℕ) (bs : List ℕ) : Type 0 where
  pub width : length bs ≡ n
  pub bytes : All IsByte bs

-- `to_le_bytes` at `w` bytes.
unfoldable pub le_bytes : ℕ → ℕ → List ℕ
le_bytes zero v = []
le_bytes (suc w) v = (v % 256) ∷ le_bytes w (v / 256)

-- `from_le_bytes`
unfoldable pub from_le : List ℕ → ℕ
from_le [] = 0
from_le (b ∷ bs) = b + 256 * from_le bs

pub length-le_bytes : (w v : ℕ) → length (le_bytes w v) ≡ w
unfolding le_bytes
length-le_bytes zero v = refl
length-le_bytes (suc w) v = ap suc (length-le_bytes w (v / 256))

pub le_bytes-IsByte : (w v : ℕ) → All IsByte (le_bytes w v)
unfolding le_bytes
le_bytes-IsByte zero v = tt
le_bytes-IsByte (suc w) v = (omega arith, le_bytes-IsByte w (v / 256))

pub le_bytes-IsArray : (w v : ℕ) → IsArray w (le_bytes w v)
le_bytes-IsArray w v = record { width = length-le_bytes w v; bytes = le_bytes-IsByte w v }

pub from_le-le_bytes : (w v : ℕ) → v < 256 ^ w → from_le (le_bytes w v) ≡ v
unfolding le_bytes from_le
from_le-le_bytes zero v h = omega arith
from_le-le_bytes (suc w) v h = omega (arith, from_le-le_bytes w (v / 256) (omega arith))

pub le_bytes-from_le : (bs : List ℕ) → All IsByte bs → le_bytes (length bs) (from_le bs) ≡ bs
unfolding le_bytes from_le
le_bytes-from_le [] h = refl
le_bytes-from_le (b ∷ bs) h =
    let low : (b + 256 * from_le bs) % 256 ≡ b = omega arith in
    let high : (b + 256 * from_le bs) / 256 ≡ from_le bs = omega arith in
    ap₂ ◌∷◌ low (ap (le_bytes (length bs)) high ∙ le_bytes-from_le bs h.1)

pub from_le-lt : (w : ℕ) (bs : List ℕ) → IsArray w bs → from_le bs < 256 ^ w
unfolding from_le
from_le-lt zero [] h = omega arith
from_le-lt zero (b ∷ bs) h = absurd (omega (arith, h.width))
from_le-lt (suc w) [] h = absurd (omega (arith, h.width))
from_le-lt (suc w) (b ∷ bs) h =
    let width : length bs ≡ w = omega (arith, h.width) in
    omega (arith, h.bytes.0, from_le-lt w bs (record { width = width; bytes = h.bytes.1 }))

pub le_bytes-injective :
    (w a b : ℕ) → a < 256 ^ w → b < 256 ^ w → le_bytes w a ≡ le_bytes w b → a ≡ b
le_bytes-injective w a b ha hb e =
    sym (from_le-le_bytes w a ha) ∙ ap from_le e ∙ from_le-le_bytes w b hb

-- `from_be_bytes`, with the value of the bytes already read.
unfoldable pub from_be_acc : ℕ → List ℕ → ℕ
from_be_acc acc [] = acc
from_be_acc acc (b ∷ bs) = from_be_acc (acc * 256 + b) bs

unfoldable pub from_be : List ℕ → ℕ
unfolding from_be_acc
from_be bs = from_be_acc 0 bs
