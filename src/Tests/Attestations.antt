-- ===== src/Tests/Attestations.antt =====
-- krep-core at concrete inputs: a chain of two attestations, owned by alice.
use k_rep.Base.{
  ℕ, ◌≤◌, ◌≡◌, ◌≢◌, ◌↔◌, ◌⊎◌, refl, none, some, List, [], ◌∷◌, ok, err, ◌>>=◌, sym, if◌then◌else◌,
  replicate, beq_bytes, le_bytes, from_le, IsArray, All, get_or, ap, ◌∙◌, arith, true, false,
}
use k_rep.Core.Attestation
use k_rep.Core.Attestation.{
  AttestationBody, Attestation, Outpoint, provider, client, success, default, co_signed, covenant,
  KrepError, CovenantWitness, canonical_bytes, validate_fields, id, sign_body, create_partial,
  countersign, signing_digest, witness_bytes, covenant_witness,
}
use k_rep.Core.Attestation.Canonical.{IsBody, canonical_bytes-injective}
use k_rep.Core.Attestation.Verify.{
  both_signed, countersign-create_partial, validate_fields_iff, verify_iff, IsSane, IsAuthorized,
  CanSign,
}
use k_rep.Core.Chain
use k_rep.Core.Chain.{
  Chain, AnchorVerifier, trust_everything, append, head, check_entry, verify_loop, verify,
  verify_anchored,
}
use k_rep.Core.Chain.Replay.{replay, IsOrdered, verify_iff_replay}
use k_rep.Core.Chain.History.{verify-append_iff, head-injective}
use k_rep.Core.Chain.Anchored.{IsConfirmed, FirstFailure, verify_anchored_cases}
use k_rep.Core.Chain.Score.{score}
use k_rep.Core.Chain.Score.Counts.{IsScore, score-IsScore}
use k_rep.Core.Field.Encoding.{value_fields-injective, limbs-injective}
use k_rep.Tests.Toy.{
  ToyKey, ToySig, alice, bob, toy_keys, toy_crypto, toy_signer, toy_field, toy_float,
}

-- What the runs below compute with.
program : Unit {0}
unfolding canonical_bytes Attestation.verify id sign_body signing_digest append head check_entry
    verify_loop verify beq_bytes le_bytes from_le Attestation.role_byte Attestation.outcome_byte
    Attestation.validate_fields Attestation.verify_auth Attestation.covenant_witness create_partial
    countersign
program = tt

abbrev first_body : AttestationBody ToyKey
first_body = record {
  v = 1;
  anchor = record { txid = replicate 32 7; index = 0 };
  role = provider;
  owner = alice;
  counterparty = bob;
  outcome = success;
  amount_bucket = 2;
  prev = none;
  index = 0;
  ts = 100;
}

abbrev first_entry : Attestation ToyKey ToySig
first_entry = both_signed ToySig alice bob first_body

-- `id` of the first entry: the first 32 bytes of what is hashed.
abbrev first_id : List ℕ
first_id = 1 ∷ replicate 31 7

abbrev second_body : AttestationBody ToyKey
second_body = record first_body {
  anchor = record { txid = replicate 32 9; index = 0 };
  prev = some first_id;
  index = 1;
  ts = 200;
}

abbrev second_entry : Attestation ToyKey ToySig
second_entry = both_signed ToySig alice bob second_body

abbrev one_chain : Chain ToyKey ToySig
one_chain = record { owner = alice; attestations = first_entry ∷ [] }

abbrev two_chain : Chain ToyKey ToySig
two_chain = record { owner = alice; attestations = first_entry ∷ second_entry ∷ [] }

id-first : id ℕ first_entry ≡ first_id
unfolding program
id-first = refl

one_verifies : verify ℕ one_chain ≡ ok tt
unfolding program
one_verifies = refl

two_verifies : verify ℕ two_chain ≡ ok tt
unfolding program
two_verifies = refl

one_grows : append ℕ one_chain second_entry ≡ ok two_chain
unfolding program
one_grows = refl

first_sane : validate_fields first_body ≡ ok tt
unfolding program
first_sane = refl

-- The same entry with an earlier timestamp: `append` takes it and the chain no longer verifies.
abbrev stale_body : AttestationBody ToyKey
stale_body = record second_body { ts = 50 }

abbrev stale_entry : Attestation ToyKey ToySig
stale_entry = both_signed ToySig alice bob stale_body

stale_chain :
    append ℕ one_chain stale_entry >>= verify ℕ ≡ err (KrepError.chain 1 "timestamp regression")
unfolding program
stale_chain = refl

verify_iff_replay_example : (verify ℕ two_chain ≡ ok tt) ↔ (
    (replay ℕ (Chain.new alice) two_chain.attestations ≡ ok two_chain)
    × IsOrdered 0 two_chain.attestations)
verify_iff_replay_example = verify_iff_replay ℕ two_chain

verify-append_iff_example : (verify ℕ two_chain ≡ ok tt) ↔ (100 ≤ 200)
verify-append_iff_example =
    verify-append_iff ℕ one_chain second_entry two_chain one_verifies one_grows

abbrev second_id : List ℕ
second_id = 1 ∷ replicate 31 9

id-second : id ℕ second_entry ≡ second_id
unfolding program
id-second = refl

ids_differ : id ℕ first_entry ≢ id ℕ second_entry
ids_differ e =
    let same : first_id ≡ second_id = sym id-first ∙ e ∙ id-second in
    omega (arith, ap (λ (l : List ℕ). get_or l 1 0) same)

head-injective_example : two_chain ≡ two_chain
head-injective_example =
    head-injective ℕ two_chain two_chain refl two_verifies two_verifies
      ((
        (λ e. refl, (λ e. absurd (ids_differ e), tt)),
        ((λ e. absurd (ids_differ (sym e)), (λ e. refl, tt)), tt),
      ))
      refl

-- A node that has seen the first settlement and cannot find the second.
abbrev young_node : AnchorVerifier ToyKey
young_node = record {
  is_anchored = λ i o. if beq_bytes i first_id then ok true else err "pruned";
  covenant_witnessed = λ o w k. ok false;
}

verify_anchored_cases_example :
    ((verify_anchored ℕ young_node two_chain ≡ ok tt)
      × All (IsConfirmed ℕ young_node) two_chain.attestations)
    ⊎ ((e : KrepError) × (verify_anchored ℕ young_node two_chain ≡ err e)
        × FirstFailure ℕ young_node 0 two_chain.attestations e)
verify_anchored_cases_example = verify_anchored_cases ℕ young_node two_chain two_verifies

-- The node could not say: that is what the verdict is.
young_verdict : verify_anchored ℕ young_node two_chain ≡ err (Attestation.anchor_unknown 1 "pruned")
unfolding program Chain.verify_anchored Chain.anchored_loop Chain.check_anchor
young_verdict = refl

score-IsScore_example : IsScore {R = ℕ} two_chain (score two_chain)
score-IsScore_example = score-IsScore two_chain

first_IsBody : IsBody first_body
first_IsBody = record {
  txid = omega arith;
  output = omega arith;
  prev = omega arith;
  index = omega arith;
  ts = omega arith;
}

canonical_bytes-injective_example : first_body ≡ first_body
canonical_bytes-injective_example =
    canonical_bytes-injective first_body first_body first_IsBody first_IsBody first_sane first_sane
      refl

verify_iff_example :
    (Attestation.verify first_entry ≡ ok tt)
    ↔ (IsSane first_entry.body × IsAuthorized first_entry.body first_entry.auth)
verify_iff_example = verify_iff first_entry

validate_fields_iff_example : (validate_fields second_body ≡ ok tt) ↔ IsSane second_body
validate_fields_iff_example = validate_fields_iff second_body

countersign-create_partial_example :
    ((create_partial alice first_body >>= countersign bob) ≡ ok first_entry) ↔ (
      CanSign ToySig alice bob first_body × (first_entry ≡ both_signed ToySig alice bob first_body))
countersign-create_partial_example =
    countersign-create_partial ToySig alice bob first_body first_entry

abbrev short_value : List ℕ
short_value = 1 ∷ 2 ∷ []

abbrev max_id : List ℕ
max_id = replicate 32 255

max_id-IsArray : IsArray 32 max_id
max_id-IsArray = omega arith

value_fields-injective_example : short_value ≡ short_value
value_fields-injective_example =
    value_fields-injective {F = ℕ} short_value short_value (omega arith) (omega arith) (omega arith)
      (omega arith) refl

limbs-injective_example : max_id ≡ max_id
limbs-injective_example = limbs-injective {F = ℕ} max_id max_id max_id-IsArray max_id-IsArray refl
