-- ===== src/Tests/Toy.antt =====
-- Small instances of the parameters that stand for code outside the repository.
use k_rep.Base.{
  ℕ, suc, ◌+◌, ◌-◌, ◌*◌, ◌%◌, ◌<◌, ◌≡◌, ◌≢◌, ◌↔◌, refl, ap, Bool, true, Option, none, some, List,
  [], ◌∷◌, String, Result, ok, err, replicate, IsArray, le_bytes, from_le, le_bytes-IsArray,
  beq_bytes, eq-beq_bytes, beq_bytes_refl, ◌==◌, ==_iff, ◌&&◌, if◌then◌else◌, arith,
}
use native.Mathlib.Decide.{dec_lt}
use k_rep.Keys.{XOnly}
use k_rep.Core.Field.{FieldOps}
use k_rep.Core.Attestation.{Crypto, Signer}
use k_rep.Core.Chain.Score.{Float}

pub data ToyKey : Type 0 where
  alice bob carol : ToyKey

abbrev pub number : ToyKey → ℕ
number alice = 1
number bob = 2
number carol = 3

abbrev pub toy_serialize : ToyKey → List ℕ
toy_serialize k = replicate 32 (number k)

abbrev pub toy_from_slice : List ℕ → Option ToyKey
toy_from_slice bs =
    if beq_bytes bs (replicate 32 1)
    then some alice
    else if beq_bytes bs (replicate 32 2)
    then some bob
    else if beq_bytes bs (replicate 32 3)
    then some carol
    else none

abbrev pub toy_same : ToyKey → ToyKey → Bool
toy_same a b = number a == number b

pub toy_serialize-IsArray : (k : ToyKey) → IsArray 32 (toy_serialize k)
toy_serialize-IsArray alice = omega arith
toy_serialize-IsArray bob = omega arith
toy_serialize-IsArray carol = omega arith

pub toy_from_slice-serialize : (k : ToyKey) → toy_from_slice (toy_serialize k) ≡ some k
unfolding beq_bytes
toy_from_slice-serialize alice = refl
toy_from_slice-serialize bob = refl
toy_from_slice-serialize carol = refl

pub toy_serialize-from_slice :
    (bs : List ℕ) (k : ToyKey) → toy_from_slice bs ≡ some k → toy_serialize k ≡ bs
toy_serialize-from_slice bs alice h = ground (arith, eq-beq_bytes bs (replicate 32 1))
toy_serialize-from_slice bs bob h = ground (arith, eq-beq_bytes bs (replicate 32 2))
toy_serialize-from_slice bs carol h = ground (arith, eq-beq_bytes bs (replicate 32 3))

pub toy_serialize-ne-zero : (k : ToyKey) → toy_serialize k ≢ replicate 32 0
toy_serialize-ne-zero alice e = cc
toy_serialize-ne-zero bob e = cc
toy_serialize-ne-zero carol e = cc

pub toy_same_iff : (a b : ToyKey) → (toy_same a b ≡ true) ↔ (a ≡ b)
toy_same_iff alice b = ground arith
toy_same_iff bob b = ground arith
toy_same_iff carol b = ground arith

instance abbrev pub toy_keys : XOnly ToyKey
toy_keys = record {
  serialize = toy_serialize;
  from_slice = toy_from_slice;
  same = toy_same;
  serialize-IsArray = toy_serialize-IsArray;
  from_slice-serialize = toy_from_slice-serialize;
  serialize-from_slice = toy_serialize-from_slice;
  serialize-ne-zero = toy_serialize-ne-zero;
  same_iff = toy_same_iff;
}

-- A signature is the signer and the message.
pub data ToySig : Type 0 where
  signed_by : ToyKey → List ℕ → ToySig

abbrev pub toy_verify : ToySig → List ℕ → ToyKey → Result String (Unit {0})
toy_verify (signed_by k m) msg key =
    if toy_same k key && beq_bytes m msg then ok tt else err "signature failed verification"

-- The first 32 bytes of a message.
abbrev pub toy_hash : List ℕ → List ℕ
toy_hash msg = le_bytes 32 (from_le msg)

pub zeros_64 : IsArray 64 (replicate 64 0)
zeros_64 = omega arith

instance abbrev pub toy_crypto : Crypto ToyKey ToySig
toy_crypto = record {
  derive_key = λ d msg. toy_hash msg;
  verify_schnorr = toy_verify;
  sig_bytes = λ s. replicate 64 0;
  derive_key-IsArray = λ d msg. le_bytes-IsArray 32 (from_le msg);
  sig_bytes-IsArray = λ s. zeros_64;
}

pub toy_signs : (msg : List ℕ) (pair : ToyKey) → toy_verify (signed_by pair msg) msg pair ≡ ok tt
toy_signs msg alice = rw (beq_bytes_refl msg)
toy_signs msg bob = rw (beq_bytes_refl msg)
toy_signs msg carol = rw (beq_bytes_refl msg)

instance abbrev pub toy_signer : Signer ToyKey ToySig ToyKey
toy_signer = record {
  sign_schnorr = λ msg pair. signed_by pair msg;
  x_only_public_key = λ pair. pair;
  verify_schnorr-sign_schnorr = toy_signs;
}

-- A number for two numbers.
abbrev pub pair : ℕ → ℕ → ℕ
pair a b = (a + b) * (a + b) + a

squares_apart : (s t : ℕ) → s < t → s * s + s < t * t
squares_apart s t h =
    let e : t ≡ s + suc (t - suc s) = omega arith in let k = t - suc s in rw e (grow s k)
  where
    grow : (s k : ℕ) → s * s + s < (s + suc k) * (s + suc k)
    grow s k = omega arith

pub pair-injective : (a b c d : ℕ) → pair a b ≡ pair c d → (a ≡ c) × (b ≡ d)
pair-injective a b c d e = elim (dec_lt (a + b) (c + d)) [
  | yes less ↦ absurd (omega (arith, squares_apart (a + b) (c + d) less))
  | no not_less ↦ elim (dec_lt (c + d) (a + b)) [
    | yes more ↦ absurd (omega (arith, squares_apart (c + d) (a + b) more))
    | no not_more ↦
        let same : a + b ≡ c + d = omega arith in
        let first : a ≡ c = omega (arith, ap (λ (s : ℕ). s * s) same) in (first, omega arith)
  ]
]

-- The first element of the permuted state depends on the first two slots alone.
abbrev pub toy_permutation : List ℕ → List ℕ
toy_permutation (a ∷ b ∷ rest) = pair a b ∷ a ∷ b ∷ rest
toy_permutation s = s

pub toy_string-injective : (a b : ℕ) → a ∷ [] ≡ b ∷ [] → a ≡ b
toy_string-injective a b e = cc

instance abbrev pub toy_field : FieldOps ℕ
toy_field = record {
  of_u128 = λ n. n;
  add = λ a b. a + b;
  permutation = toy_permutation;
  to_be_bytes = λ n. n % 256 ∷ [];
  to_string = λ n. n ∷ [];
  same = ◌==◌;
  of_u128-injective = λ a b p q e. e;
  to_string-injective = toy_string-injective;
  same_iff = ==_iff;
}

instance abbrev pub toy_float : Float ℕ
toy_float = record { of_u64 = λ n. n; divide = λ a b. a }
