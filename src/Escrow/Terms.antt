-- ===== src/Escrow/Terms.antt =====
-- krep-escrow/src/lib.rs: the immutable terms of an escrow.
pub mod Canonical
use k_rep.Base.{
  ℕ, ◌+◌, ◌-◌, ◌^◌, min, Bool, Option, none, some, List, [], ◌∷◌, ◌++◌, String, le_bytes, replicate,
}
use k_rep.Keys.{XOnly}
use k_rep.Core.Attestation.{Crypto}
use k_rep.Escrow.State.{is_some}

abbrev pub terms_domain : String
terms_domain = "krep/escrow/v1/terms"

pub record Terms (K : Type 0) : Type 0 where
  pub buyer : K
  pub buyer_rep : K
  pub arbiter : Option K
  pub reward : ℕ
  pub maker_bond : ℕ
  pub deadline : ℕ
  pub auto_release_delay : ℕ
  pub file_hash : List ℕ

-- `saturating_add` of two `u64`
abbrev pub saturating_add : ℕ → ℕ → ℕ
saturating_add a b = min (a + b) (2 ^ 64 - 1)

module _ {K : Type 0} where
  unfoldable pub claimed_value : Terms K → ℕ
  claimed_value t = saturating_add t.reward t.maker_bond

  unfoldable pub arbitrated : Terms K → Bool
  arbitrated t = is_some t.arbiter

module _ {K : Type 0} ⦃key : XOnly K⦄ where
  -- The `match` on the arbiter: a tag, then the key or zeros.
  unfoldable pub arbiter_bytes : Option K → List ℕ
  arbiter_bytes (some a) = 1 ∷ key.serialize a
  arbiter_bytes none = 0 ∷ replicate 32 0

  unfoldable pub terms_bytes : Terms K → List ℕ
  terms_bytes t =
      1 ∷ key.serialize t.buyer
      ++ (key.serialize t.buyer_rep
          ++ (arbiter_bytes t.arbiter
              ++ (le_bytes 8 t.reward
                  ++ (le_bytes 8 t.maker_bond
                      ++ (le_bytes 8 t.deadline
                          ++ (le_bytes 8 t.auto_release_delay ++ t.file_hash))))))

  unfoldable pub terms_id : (S : Type 0) ⦃crypto : Crypto K S⦄ → Terms K → List ℕ
  terms_id S ⦃crypto = crypto⦄ t = crypto.derive_key terms_domain (terms_bytes t)
