-- ===== src/Core/Chain/Anchored.antt =====
-- `verify_anchored`: the verdict on every entry, and what each failure means
-- (krep-core/src/chain.rs).
use k_rep.Base.{
  ℕ, ◌+◌, ◌≡◌, ◌⊎◌, inl, inr, refl, ap, true, false, none, some, List, [], ◌∷◌, ◌++◌, Bool, String,
  Result, ok, err, length, All, arith, Result-cases, Option-cases,
}
use mathlib.Core.Path.{subst}
use k_rep.Keys.{XOnly}
use k_rep.Core.Field.{FieldOps}
use k_rep.Core.Attestation.{
  Attestation, CovenantWitness, Crypto, KrepError, anchor_unknown, id, covenant_witness,
}
use k_rep.Core.Chain.{
  Chain, AnchorVerifier, verify, check_witness, check_anchor, anchored_loop, verify_anchored,
}

module _ {K S : Type 0} (F : Type 0) ⦃key : XOnly K⦄ ⦃crypto : Crypto K S⦄ ⦃field : FieldOps F⦄
    (anchor : AnchorVerifier K) where
  abbrev IsAnchored : Attestation K S → Result String Bool → Type 0
  IsAnchored a r = anchor.is_anchored (id F a) a.body.anchor ≡ r

  -- The node's answer about the covenant of a covenant-witnessed entry.
  abbrev IsWitnessed : Attestation K S → Result String Bool → Type 0
  IsWitnessed a r =
      (w : CovenantWitness) × (covenant_witness a ≡ some w)
      × (anchor.covenant_witnessed a.body.anchor w a.body.owner ≡ r)

  -- The node confirmed the entry, and its covenant if nobody signed it.
  abbrev pub IsConfirmed : Attestation K S → Type 0
  IsConfirmed a = IsAnchored a (ok true) × ((covenant_witness a ≡ none) ⊎ IsWitnessed a (ok true))

  -- The node answered no.
  abbrev pub IsDenied : Attestation K S → Type 0
  IsDenied a = IsAnchored a (ok false) ⊎ IsWitnessed a (ok false)

  -- The node could not say, for the reason `why`.
  abbrev pub IsUnknown : String → Attestation K S → Type 0
  IsUnknown why a = IsAnchored a (err why) ⊎ IsWitnessed a (err why)

  -- The three outcomes of a round.
  abbrev pub Failure : ℕ → Attestation K S → KrepError → Type 0
  Failure i a e =
      ((why : String) × (e ≡ anchor_unknown i why) × IsUnknown why a)
      ⊎ ((why : String) × (e ≡ KrepError.chain i why) × IsDenied a)

  check_witness_cases :
      (i : ℕ) (a : Attestation K S)
      → IsAnchored a (ok true)
      → ((check_witness F anchor i a (covenant_witness a) ≡ ok tt) × IsConfirmed a)
        ⊎ ((e : KrepError) × (check_witness F anchor i a (covenant_witness a) ≡ err e)
            × Failure i a e)
  unfolding check_witness
  check_witness_cases i a h = elim (Option-cases (covenant_witness a)) [
    | inl e ↦ inl (rw e, (h, inl e))
    | inr (w, e) ↦ elim (Result-cases (anchor.covenant_witnessed a.body.anchor w a.body.owner)) [
      | inl (true, r) ↦ inl (rw (e, r), (h, inr (w, e, r)))
      | inl (false, r) ↦ inr (
        KrepError.chain i "covenant witness does not authorize this attestation",
        rw (e, r),
        inr (_, refl, inr (w, e, r)),
      )
      | inr (why, r) ↦ inr (anchor_unknown i why, rw (e, r), inl (why, refl, inr (w, e, r)))
    ]
  ]

  check_anchor_cases :
      (i : ℕ) (a : Attestation K S)
      → ((check_anchor F anchor i a ≡ ok tt) × IsConfirmed a)
        ⊎ ((e : KrepError) × (check_anchor F anchor i a ≡ err e) × Failure i a e)
  unfolding check_anchor
  check_anchor_cases i a = elim (Result-cases (anchor.is_anchored (id F a) a.body.anchor)) [
    | inl (true, r) ↦ elim (check_witness_cases i a r) [
      | inl (e, c) ↦ inl (rw r e, c)
      | inr (why, e, f) ↦ inr (why, rw r e, f)
    ]
    | inl (false, r) ↦
        inr (KrepError.chain i "attestation not anchored on-chain", rw r, inr (_, refl, inl r))
    | inr (why, r) ↦ inr (anchor_unknown i why, rw r, inl (why, refl, inl r))
  ]

  -- The first entry that failed, the confirmed entries before it and why it failed.
  abbrev pub FirstFailure : ℕ → List (Attestation K S) → KrepError → Type 0
  FirstFailure i xs e =
      (front : List (Attestation K S)) × (a : Attestation K S) × (rest : List (Attestation K S))
      × (xs ≡ front ++ a ∷ rest)
      × All IsConfirmed front
      × Failure (i + length front) a e

  anchored_loop_cases :
      (i : ℕ) (xs : List (Attestation K S))
      → ((anchored_loop F anchor i xs ≡ ok tt) × All IsConfirmed xs)
        ⊎ ((e : KrepError) × (anchored_loop F anchor i xs ≡ err e) × FirstFailure i xs e)
  unfolding anchored_loop
  anchored_loop_cases i [] = inl (refl, tt)
  anchored_loop_cases i (a ∷ rest) = elim (check_anchor_cases i a) [
    | inr (e, r, f) ↦
        inr (e, rw r, ([], a, rest, refl, tt, subst (λ (n : ℕ). Failure n a e) (omega arith) f))
    | inl (r, c) ↦ elim (anchored_loop_cases (i + 1) rest) [
      | inl (r', cs) ↦ inl (rw r r', (c, cs))
      | inr (e, r', (front, b, back, same, cs, f)) ↦ inr (
        e,
        rw r r',
        (
          a ∷ front,
          b,
          back,
          ap (λ l. a ∷ l) same,
          (c, cs),
          subst (λ (n : ℕ). Failure n b e) (omega arith) f,
        ),
      )
    ]
  ]

  -- On a chain that verifies: either every entry was confirmed and the verdict is good, or the error
  -- names the first entry that was not: a refusal where the node said no, and `AnchorUnknown` where
  -- the node could not say.
  pub verify_anchored_cases :
      (c : Chain K S)
      → verify F c ≡ ok tt
      → ((verify_anchored F anchor c ≡ ok tt) × All IsConfirmed c.attestations)
        ⊎ ((e : KrepError) × (verify_anchored F anchor c ≡ err e) × FirstFailure 0 c.attestations e)
  unfolding verify_anchored
  verify_anchored_cases c v = elim (anchored_loop_cases 0 c.attestations) [
    | inl (e, cs) ↦ inl (rw v e, cs)
    | inr (why, e, f) ↦ inr (why, rw v e, f)
  ]
