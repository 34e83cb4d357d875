-- ===== src/Core/Attestation.antt =====
-- krep-core/src/lib.rs: the attestation and who authorizes it.
pub mod Canonical
pub mod Verify
use Prim.Native.String.{◌++◌ as str_append}
use k_rep.Base.{
  ℕ, ◌≡◌, ◌^◌, ◌<◌, Bool, true, false, not, ◌&&◌, ◌||◌, Option, none, some, List, [], ◌∷◌, ◌++◌,
  String, Result, ok, err, ◌>>=◌, ◌>>◌, map_err, refuse_if, length, replicate, le_bytes, leb, ltb,
  ◌==◌, if◌then◌else◌, IsArray,
}
use k_rep.Keys.{XOnly}
use k_rep.Core.Field.{FieldOps, hash_tagged_bytes}

pub data KrepError : Type 0 where
  bad_signature : String → KrepError
  bad_field : String → KrepError
  chain : ℕ → String → KrepError
  anchor_unknown : ℕ → String → KrepError
  parse : String → KrepError

pub data Role : Type 0 where
  provider client : Role

-- `Outcome::Default` is `default` here.
pub data Outcome : Type 0 where
  success default disputed_resolved : Outcome

unfoldable pub role_byte : Role → ℕ
role_byte provider = 0
role_byte client = 1

unfoldable pub outcome_byte : Outcome → ℕ
outcome_byte success = 0
outcome_byte default = 1
outcome_byte disputed_resolved = 2

pub record Outpoint : Type 0 where
  pub txid : List ℕ
  pub index : ℕ

pub record AttestationBody (K : Type 0) : Type 0 where
  pub v : ℕ
  pub anchor : Outpoint
  pub role : Role
  pub owner : K
  pub counterparty : K
  pub outcome : Outcome
  pub amount_bucket : ℕ
  pub prev : Option (List ℕ)
  pub index : ℕ
  pub ts : ℕ

pub record CovenantWitness : Type 0 where
  pub redeem_script : List ℕ
  pub branch : ℕ
  pub owner_offset : ℕ

pub data Authorization (S : Type 0) : Type 0 where
  co_signed : S → S → Authorization S
  covenant : CovenantWitness → Authorization S

pub record Attestation (K S : Type 0) : Type 0 where
  pub body : AttestationBody K
  pub auth : Authorization S

pub record PartialAttestation (K S : Type 0) : Type 0 where
  pub body : AttestationBody K
  pub sig_owner : S

-- `blake3`, and the Schnorr signatures of the secp256k1 crate, which the repository does not hold.
pub record Crypto (K S : Type 0) : Type 0 where
  -- `Hasher::new_derive_key(domain)` fed with a message, `verify_schnorr(sig, msg, key)` with the
  -- text of its error, and `Signature::as_ref`
  pub derive_key : String → List ℕ → List ℕ
  pub verify_schnorr : S → List ℕ → K → Result String (Unit {0})
  pub sig_bytes : S → List ℕ
  -- a digest is 32 bytes and a signature is 64
  pub derive_key-IsArray : (domain : String) (msg : List ℕ) → IsArray 32 (derive_key domain msg)
  pub sig_bytes-IsArray : (s : S) → IsArray 64 (sig_bytes s)

-- `Keypair`: what a pair signs verifies under its public key.
pub record Signer (K S P : Type 0) ⦃crypto : Crypto K S⦄ : Type 0 where
  -- `sign_schnorr_no_aux_rand(msg, pair)` and `x_only_public_key`
  pub sign_schnorr : List ℕ → P → S
  pub x_only_public_key : P → K
  pub verify_schnorr-sign_schnorr :
      (msg : List ℕ) (pair : P)
      → crypto.verify_schnorr (sign_schnorr msg pair) msg (x_only_public_key pair) ≡ ok tt

abbrev pub sign_domain : String
sign_domain = "krep/attest/v1/sign"

abbrev pub id_domain : String
id_domain = "krep/attest/v1/id"

-- "krep/av/2"
abbrev pub id_domain_v2 : ℕ
id_domain_v2 = 0x6b7265702f61762f32

abbrev pub covenant_id_domain : String
covenant_id_domain = "krep/attest/v2/covenant-id"

-- `self.prev.unwrap_or([0u8; 32])`
abbrev pub prev_bytes : Option (List ℕ) → List ℕ
prev_bytes none = replicate 32 0
prev_bytes (some id) = id

unfoldable pub witness_bytes : CovenantWitness → List ℕ
witness_bytes w =
    le_bytes 8 (length w.redeem_script)
    ++ (w.redeem_script ++ (w.branch ∷ le_bytes 2 w.owner_offset))

-- The `match (self.index, &self.prev)` at the end of `validate_fields`.
abbrev pub check_link : ℕ → Option (List ℕ) → Result KrepError (Unit {0})
check_link i none = refuse_if (ltb 0 i) (bad_field "index > 0 requires prev")
check_link i (some p) = refuse_if (i == 0) (bad_field "index 0 must have prev = null")

module _ {K : Type 0} ⦃key : XOnly K⦄ where
  unfoldable pub canonical_bytes : AttestationBody K → List ℕ
  canonical_bytes b =
      b.v
      ∷ (b.anchor.txid
          ++ (le_bytes 4 b.anchor.index
              ++ (role_byte b.role
                  ∷ (key.serialize b.owner
                      ++ (key.serialize b.counterparty
                          ++ (outcome_byte b.outcome
                              ∷ (b.amount_bucket
                                  ∷ (prev_bytes b.prev
                                      ++ (le_bytes 8 b.index ++ le_bytes 8 b.ts)))))))))

  unfoldable pub validate_fields : AttestationBody K → Result KrepError (Unit {0})
  validate_fields b = do
    refuse_if (not (leb 1 b.v && leb b.v 2)) (bad_field "unsupported version")
    refuse_if (not (leb 1 b.amount_bucket && leb b.amount_bucket 4))
        (bad_field "amount_bucket must be 1..=4")
    refuse_if (key.same b.owner b.counterparty) (bad_field "owner == counterparty")
    check_link b.index b.prev

abbrev pub is_empty {ℓ} : {A : Type ℓ} → List A → Bool
is_empty [] = true
is_empty (x ∷ xs) = false

-- `self.body.outcome == Outcome::Success`
abbrev pub is_success : Outcome → Bool
is_success success = true
is_success default = false
is_success disputed_resolved = false

module _ {K S : Type 0} where
  unfoldable pub covenant_witness : Attestation K S → Option CovenantWitness
  covenant_witness a = elim a.auth [ co_signed o c ↦ none | covenant w ↦ some w ]

  unfoldable pub needs_chain_proof : Attestation K S → Bool
  needs_chain_proof a = elim a.auth [ co_signed o c ↦ false | covenant w ↦ true ]

unfoldable pub signing_digest :
    {K : Type 0} (S : Type 0) ⦃key : XOnly K⦄ ⦃crypto : Crypto K S⦄ → AttestationBody K → List ℕ
signing_digest S ⦃crypto = crypto⦄ b = crypto.derive_key sign_domain (canonical_bytes b)

module _ {K S : Type 0} ⦃key : XOnly K⦄ ⦃crypto : Crypto K S⦄ where
  -- `Attestation::verify`, by what authorizes the attestation.
  unfoldable pub verify_auth : AttestationBody K → Authorization S → Result KrepError (Unit {0})
  unfolding signing_digest
  verify_auth b (co_signed sig_owner sig_counterparty) = do
    let msg = signing_digest S b
    map_err (λ e. bad_signature (str_append "owner: " e))
        (crypto.verify_schnorr sig_owner msg b.owner)
    map_err (λ e. bad_signature (str_append "counterparty: " e))
        (crypto.verify_schnorr sig_counterparty msg b.counterparty)
  verify_auth b (covenant w) = do
    refuse_if (is_empty w.redeem_script) (bad_field "covenant witness has no redeem script")
    refuse_if (is_success b.outcome)
        (bad_field "a Success attestation must be co-signed, not covenant-witnessed")

  unfoldable pub verify : Attestation K S → Result KrepError (Unit {0})
  verify a = do validate_fields a.body; verify_auth a.body a.auth

  -- `Attestation::id`, by what authorizes the attestation. `F` is the field of v2 ids.
  unfoldable pub id_of :
      (F : Type 0) ⦃field : FieldOps F⦄ → AttestationBody K → Authorization S → List ℕ
  id_of F b (co_signed sig_owner sig_counterparty) =
      let bytes =
        canonical_bytes b ++ (crypto.sig_bytes sig_owner ++ crypto.sig_bytes sig_counterparty) in
      if leb 2 b.v
      then hash_tagged_bytes F id_domain_v2 bytes
      else crypto.derive_key id_domain bytes
  id_of F b (covenant w) =
      crypto.derive_key covenant_id_domain (canonical_bytes b ++ witness_bytes w)

  unfoldable pub id : (F : Type 0) ⦃field : FieldOps F⦄ → Attestation K S → List ℕ
  unfolding id_of
  id F a = id_of F a.body a.auth

  module _ {P : Type 0} ⦃signer : Signer K S P⦄ where
    unfoldable pub sign_body : P → AttestationBody K → S
    sign_body pair b = signer.sign_schnorr (signing_digest S b) pair

    -- Owner signs first.
    unfoldable pub create_partial :
        P → AttestationBody K → Result KrepError (PartialAttestation K S)
    create_partial owner b = do
      validate_fields b
      refuse_if (not (key.same (signer.x_only_public_key owner) b.owner))
          (bad_field "signing key is not body.owner")
      ok (record { body = b; sig_owner = sign_body owner b })

    -- Counterparty completes it.
    unfoldable pub countersign : P → PartialAttestation K S → Result KrepError (Attestation K S)
    countersign pair p = do
      refuse_if (not (key.same (signer.x_only_public_key pair) p.body.counterparty))
          (bad_field "signing key is not body.counterparty")
      let att : Attestation K S = record {
        body = p.body;
        auth = co_signed p.sig_owner (sign_body pair p.body);
      }
      verify att
      ok att
