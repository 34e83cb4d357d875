-- ===== src/Core/Attestation/Verify.antt =====
-- What `validate_fields` and `verify` accept, and what the two signing steps make
-- (krep-core/src/lib.rs).
use k_rep.Base.{
  ℕ, zero, suc, ◌≤◌, ◌≡◌, ◌≢◌, ◌↔◌, refl, Option, none, some, List, [], arith, ok, ◌>>=◌, inl, inr,
  Result-cases, >>=-eq-ok,
}
use mathlib.Core.Path.{subst}
use k_rep.Keys.{XOnly}
use k_rep.Core.Attestation.{
  success, AttestationBody, Attestation, PartialAttestation, Authorization, CovenantWitness,
  co_signed, covenant, check_link, validate_fields, Crypto, Signer, signing_digest, verify_auth,
  verify, sign_body, create_partial, countersign,
}

check_link_iff : (i : ℕ) (p : Option (List ℕ)) → (check_link i p ≡ ok tt) ↔ ((i ≡ 0) ↔ (p ≡ none))
check_link_iff zero none = (λ e. (λ z. refl, λ z. refl), λ h. refl)
check_link_iff zero (some q) = (λ e. ground arith, λ h. cc (h.0 refl))
check_link_iff (suc i) none = (λ e. ground arith, λ h. absurd (omega (arith, h.1 refl)))
check_link_iff (suc i) (some q) =
    (λ e. (λ z. absurd (omega arith), λ z. absurd (ground arith)), λ h. ground arith)

module _ {K : Type 0} ⦃key : XOnly K⦄ where
  pub record IsSane (b : AttestationBody K) : Type 0 where
    pub version_low : 1 ≤ b.v
    pub version_high : b.v ≤ 2
    pub bucket_low : 1 ≤ b.amount_bucket
    pub bucket_high : b.amount_bucket ≤ 4
    pub parties : b.owner ≢ b.counterparty
    pub link : (b.index ≡ 0) ↔ (b.prev ≡ none)

  -- A body is accepted exactly when its version is 1 or 2, its bucket is 1 to 4, its parties differ
  -- and it names a previous attestation unless it is the first.
  pub validate_fields_iff : (b : AttestationBody K) → (validate_fields b ≡ ok tt) ↔ IsSane b
  unfolding validate_fields
  validate_fields_iff b = (
    λ h. record {
      version_low = ground arith;
      version_high = ground arith;
      bucket_low = ground arith;
      bucket_high = ground arith;
      parties = ground (arith, key.same_iff b.owner b.counterparty);
      link = (check_link_iff b.index b.prev).0 (ground arith);
    },
    λ h. ground (
      arith,
      h.version_low,
      key.same_iff b.owner b.counterparty,
      (check_link_iff b.index b.prev).1 h.link,
    ),
  )

module _ {K S : Type 0} ⦃key : XOnly K⦄ ⦃crypto : Crypto K S⦄ where
  -- What the signatures, or the covenant witness, must be.
  pub data IsAuthorized (b : AttestationBody K) : Authorization S → Type 0 where
    signed :
        {o c : S}
        → crypto.verify_schnorr o (signing_digest S b) b.owner ≡ ok tt
        → crypto.verify_schnorr c (signing_digest S b) b.counterparty ≡ ok tt
        → IsAuthorized b (co_signed o c)
    witnessed :
        {w : CovenantWitness}
        → w.redeem_script ≢ []
        → b.outcome ≢ success
        → IsAuthorized b (covenant w)

  verify_auth_iff :
      (b : AttestationBody K) (auth : Authorization S)
      → (verify_auth b auth ≡ ok tt) ↔ IsAuthorized b auth
  unfolding verify_auth
  verify_auth_iff b (co_signed o c) = (to, from)
    where
      to : verify_auth {S = S} b (co_signed o c) ≡ ok tt → IsAuthorized b (co_signed o c)
      to h = elim (Result-cases (crypto.verify_schnorr o (signing_digest S b) b.owner)) [
        | inl (u, e) ↦
            elim (Result-cases (crypto.verify_schnorr c (signing_digest S b) b.counterparty)) [
              | inl (w, e') ↦ signed e e'
              | inr (x, e') ↦ absurd (ground (arith, e, e'))
            ]
        | inr (x, e) ↦ absurd (ground (arith, e))
      ]

      from : IsAuthorized b (co_signed o c) → verify_auth {S = S} b (co_signed o c) ≡ ok tt
      from (signed e e') = rw (e, e')
  verify_auth_iff b (covenant w) = (to, from)
    where
      to : verify_auth {S = S} b (covenant w) ≡ ok tt → IsAuthorized b (covenant w)
      to h = witnessed (ground arith) (ground arith)

      from : IsAuthorized b (covenant w) → verify_auth {S = S} b (covenant w) ≡ ok tt
      from (witnessed n s) = ground arith

  -- An attestation verifies exactly when its body is sane and it is signed by both parties, or
  -- witnessed by a covenant for an outcome that is not a success.
  pub verify_iff :
      (a : Attestation K S) → (verify a ≡ ok tt) ↔ (IsSane a.body × IsAuthorized a.body a.auth)
  unfolding verify
  verify_iff a = (
    λ h.
        let (u, e, e') = >>=-eq-ok (validate_fields a.body) (λ _. verify_auth a.body a.auth) h in
        ((validate_fields_iff a.body).0 e, (verify_auth_iff a.body a.auth).0 e'),
    λ h. rw ((validate_fields_iff a.body).1 h.0) ((verify_auth_iff a.body a.auth).1 h.1),
  )

module _ {K P : Type 0} (S : Type 0) ⦃key : XOnly K⦄ ⦃crypto : Crypto K S⦄
    ⦃signer : Signer K S P⦄ where
  abbrev pub both_signed : P → P → AttestationBody K → Attestation K S
  both_signed o c b = record { body = b; auth = co_signed (sign_body o b) (sign_body c b) }

  -- The two pairs are the ones that a sane body names.
  abbrev pub CanSign : P → P → AttestationBody K → Type 0
  CanSign o c b =
      IsSane b
      × (signer.x_only_public_key o ≡ b.owner)
      × (signer.x_only_public_key c ≡ b.counterparty)

  verified :
      (b : AttestationBody K) (pair : P) (k : K)
      → signer.x_only_public_key pair ≡ k
      → crypto.verify_schnorr (sign_body pair b) (signing_digest S b) k ≡ ok tt
  unfolding sign_body
  verified b pair k e =
      subst
        (λ x.
          crypto.verify_schnorr (signer.sign_schnorr (signing_digest S b) pair) (signing_digest S b)
            x
          ≡ ok tt)
        e (signer.verify_schnorr-sign_schnorr (signing_digest S b) pair)

  both_signed-verify :
      (o c : P) (b : AttestationBody K) → CanSign o c b → verify (both_signed o c b) ≡ ok tt
  both_signed-verify o c b (h, po, pc) =
      (verify_iff (both_signed o c b)).1
        (h, signed (verified b o b.owner po) (verified b c b.counterparty pc))

  create_partial-eq-ok :
      (o : P) (b : AttestationBody K) (p : PartialAttestation K S)
      → create_partial o b ≡ ok p
      → (validate_fields b ≡ ok tt)
        × (signer.x_only_public_key o ≡ b.owner)
        × (p ≡ record { body = b; sig_owner = sign_body o b })
  unfolding create_partial
  create_partial-eq-ok o b p h =
      let same = key.same_iff (signer.x_only_public_key o) b.owner in
      (ground arith, ground (arith, same), ground arith)

  countersign-eq-ok :
      (c : P) (p : PartialAttestation K S) (a : Attestation K S)
      → countersign c p ≡ ok a
      → (signer.x_only_public_key c ≡ p.body.counterparty)
        × (a ≡ record { body = p.body; auth = co_signed p.sig_owner (sign_body c p.body) })
  unfolding countersign
  countersign-eq-ok c p a h =
      let same = key.same_iff (signer.x_only_public_key c) p.body.counterparty in
      (ground (arith, same), ground arith)

  -- The two signing steps in a row succeed exactly for the key pairs that the body names, on a body
  -- that is sane, and make the attestation that both signed.
  pub countersign-create_partial :
      (o c : P) (b : AttestationBody K) (a : Attestation K S)
      → ((create_partial o b >>= countersign c) ≡ ok a) ↔ (CanSign o c b × (a ≡ both_signed o c b))
  countersign-create_partial o c b a = (to, from)
    where
      to : (create_partial o b >>= countersign c) ≡ ok a → CanSign o c b × (a ≡ both_signed o c b)
      to h =
          let (p, e, e') = >>=-eq-ok (create_partial o b) (countersign c) h in
          let (sane, po, ep) = create_partial-eq-ok o b p e in
          let (pc, ea) = countersign-eq-ok c p a e' in
          (((validate_fields_iff b).0 sane, po, rw ep at pc), rw ep at ea)

      from : CanSign o c b × (a ≡ both_signed o c b) → (create_partial o b >>= countersign c) ≡ ok a
      from (can, ea) =
          let same_o = (key.same_iff (signer.x_only_public_key o) b.owner).1 can.1 in
          let same_c = (key.same_iff (signer.x_only_public_key c) b.counterparty).1 can.2 in
          unfold create_partial countersign in
          rw ((validate_fields_iff b).1 can.0, same_o, same_c, both_signed-verify o c b can, ea)
