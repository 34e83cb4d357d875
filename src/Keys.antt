-- ===== src/Keys.antt =====
-- The `XOnlyPublicKey` of the secp256k1 crate, which the repository does not hold: a type of keys
-- with its serialization, as a parameter of the development.
use k_rep.Base.{
  ap, sym, ◌∙◌, some, ℕ, ◌≡◌, ◌≢◌, ◌↔◌, Bool, true, Option, some, List, IsArray, replicate,
}

pub record XOnly (K : Type 0) : Type 0 where
  -- `serialize`, `XOnlyPublicKey::from_slice` and `==`
  pub serialize : K → List ℕ
  pub from_slice : List ℕ → Option K
  pub same : K → K → Bool
  -- a key is written as 32 bytes and is read back from them alone
  pub serialize-IsArray : (k : K) → IsArray 32 (serialize k)
  pub from_slice-serialize : (k : K) → from_slice (serialize k) ≡ some k
  pub serialize-from_slice : (bs : List ℕ) (k : K) → from_slice bs ≡ some k → serialize k ≡ bs
  -- no point of the curve has the x-coordinate 0
  pub serialize-ne-zero : (k : K) → serialize k ≢ replicate 32 0
  pub same_iff : (a b : K) → (same a b ≡ true) ↔ (a ≡ b)

-- A key is determined by its serialization.
pub serialize-injective :
    {K : Type 0} ⦃key : XOnly K⦄ (a b : K) → key.serialize a ≡ key.serialize b → a ≡ b
serialize-injective ⦃key = key⦄ a b e =
    let same =
      sym (key.from_slice-serialize a) ∙ ap key.from_slice e ∙ key.from_slice-serialize b in
    cc same
