-- ===== src/Core/Chain.antt =====
-- krep-core/src/chain.rs: append-only per-pseudonym attestation chains.
pub mod Entries
pub mod Replay
pub mod History
pub mod Anchored
pub mod Score
use k_rep.Base.{
  ℕ, zero, suc, ◌+◌, ◌-◌, Bool, true, false, not, Option, none, some, List, [], ◌∷◌, ◌++◌, String,
  Result, ok, err, ◌>>=◌, ◌>>◌, map_err, refuse_if, length, ltb, leb, ◌==◌, if◌then◌else◌,
  beq_bytes, min, max,
}
use k_rep.Keys.{XOnly}
use k_rep.Core.Field.{FieldOps}
use k_rep.Core.Attestation
use k_rep.Core.Attestation.{
  Attestation, AttestationBody, Outpoint, CovenantWitness, Crypto, KrepError, anchor_unknown, id,
  covenant_witness, success, default, disputed_resolved, Outcome,
}

pub record Chain (K S : Type 0) : Type 0 where
  pub owner : K
  pub attestations : List (Attestation K S)

unfoldable pub new : {K S : Type 0} → K → Chain K S
new owner = record { owner = owner; attestations = [] }

-- `slice::last`
abbrev pub last {ℓ} : {A : Type ℓ} → List A → Option A
last [] = none
last (x ∷ []) = some x
last (x ∷ y ∷ ys) = last (y ∷ ys)

abbrev pub map_option {ℓ κ} : {A : Type ℓ} {B : Type κ} → (A → B) → Option A → Option B
map_option f none = none
map_option f (some a) = some (f a)

-- `==` of two optional ids.
abbrev pub same_id : Option (List ℕ) → Option (List ℕ) → Bool
same_id none none = true
same_id none (some b) = false
same_id (some a) none = false
same_id (some a) (some b) = beq_bytes a b

-- `AnchorVerifier`: a node may fail to say either way, with a message.
pub record AnchorVerifier (K : Type 0) : Type 0 where
  pub is_anchored : List ℕ → Outpoint → Result String Bool
  pub covenant_witnessed : Outpoint → CovenantWitness → K → Result String Bool

-- Accepts everything.
abbrev pub trust_everything : {K : Type 0} → AnchorVerifier K
trust_everything = record { is_anchored = λ i o. ok true; covenant_witnessed = λ o w k. ok true }

module _ {K S : Type 0} (F : Type 0) ⦃key : XOnly K⦄ ⦃crypto : Crypto K S⦄
    ⦃field : FieldOps F⦄ where
  unfoldable pub head : Chain K S → Option (List ℕ)
  head c = map_option (id F) (last c.attestations)

  unfoldable pub append : Chain K S → Attestation K S → Result KrepError (Chain K S)
  append c att = do
    let expected_index = length c.attestations
    let expected_prev = head c
    refuse_if (not (key.same att.body.owner c.owner))
        (KrepError.chain expected_index "attestation owner != chain owner")
    refuse_if (not (att.body.index == expected_index))
        (KrepError.chain expected_index "expected index")
    refuse_if (not (same_id att.body.prev expected_prev))
        (KrepError.chain expected_index "prev does not match current head")
    Attestation.verify att
    ok (record c { attestations = c.attestations ++ att ∷ [] })

  -- One round of the loop of `verify`.
  unfoldable pub check_entry :
      K → ℕ → Option (List ℕ) → ℕ → Attestation K S → Result KrepError (Unit {0})
  check_entry owner i prev_id prev_ts att = do
    refuse_if (not (key.same att.body.owner owner)) (KrepError.chain i "owner mismatch")
    refuse_if (not (att.body.index == i)) (KrepError.chain i "index mismatch")
    refuse_if (not (same_id att.body.prev prev_id)) (KrepError.chain i "broken prev link")
    refuse_if (ltb att.body.ts prev_ts) (KrepError.chain i "timestamp regression")
    Attestation.verify att

  unfoldable pub verify_loop :
      K → ℕ → Option (List ℕ) → ℕ → List (Attestation K S) → Result KrepError (Unit {0})
  verify_loop owner i prev_id prev_ts [] = ok tt
  verify_loop owner i prev_id prev_ts (att ∷ rest) =
      let later = verify_loop owner (i + 1) (some (id F att)) att.body.ts rest in
      check_entry owner i prev_id prev_ts att >>= λ _. later

  unfoldable pub verify : Chain K S → Result KrepError (Unit {0})
  unfolding verify_loop
  verify c = verify_loop c.owner 0 none 0 c.attestations

  module _ (anchor : AnchorVerifier K) where
    -- What a covenant-witnessed entry needs beyond its anchor.
    unfoldable pub check_witness :
        ℕ → Attestation K S → Option CovenantWitness → Result KrepError (Unit {0})
    check_witness i att none = ok tt
    check_witness i att (some w) = do
      authorized ←
          map_err (anchor_unknown i) (anchor.covenant_witnessed att.body.anchor w att.body.owner)
      refuse_if (not authorized)
          (KrepError.chain i "covenant witness does not authorize this attestation")

    -- One round of the loop of `verify_anchored`.
    unfoldable pub check_anchor : ℕ → Attestation K S → Result KrepError (Unit {0})
    unfolding check_witness
    check_anchor i att = do
      anchored ← map_err (anchor_unknown i) (anchor.is_anchored (id F att) att.body.anchor)
      refuse_if (not anchored) (KrepError.chain i "attestation not anchored on-chain")
      check_witness i att (covenant_witness att)

    unfoldable pub anchored_loop : ℕ → List (Attestation K S) → Result KrepError (Unit {0})
    anchored_loop i [] = ok tt
    anchored_loop i (att ∷ rest) =
        let later = anchored_loop (i + 1) rest in check_anchor i att >>= λ _. later

    unfoldable pub verify_anchored : Chain K S → Result KrepError (Unit {0})
    verify_anchored c = do verify c; anchored_loop 0 c.attestations
