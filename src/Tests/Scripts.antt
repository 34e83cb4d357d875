-- ===== src/Tests/Scripts.antt =====
-- krep-escrow's covenant run by the small machine.
use k_rep.Base.{
  ℕ, ◌+◌, ◌^◌, ◌≡◌, ◌↔◌, ◌<◌, ◌≤◌, refl, ok, from_le, none, some, List, [], ◌∷◌, ◌++◌, length,
  get_elem?, get_range, beq_bytes, arith, le_bytes, replicate,
}
use k_rep.Escrow.Machine.{Spend, Output, Accepts}
use k_rep.Tests.Toy.{ToyKey, alice, bob, carol, toy_keys, ToySig, toy_crypto}
use k_rep.Escrow.Terms.{Terms, terms_id, terms_bytes, arbiter_bytes, claimed_value}
use k_rep.Escrow.State.{
  EscrowState, opened, claimed, encode, byte, copy_key, copy_hash, decode, read_key, read_hash,
  from_byte, check_invariants,
}
use k_rep.Escrow.Script.{
  claim, selector, verify_prev_state, require_prev_phase_and_job, require_new_field, header_for,
  p2pk_spk_prefix, require_p2pk_output,
}
use k_rep.Escrow.Script.Branches.{
  claim_branch, ship_branch, settle_branch, auto_release_branch, slash_branch, refund_branch,
  dispute_branch, resolve_branch, build_dispute, build_resolve, beneficiary,
}
use k_rep.Escrow.Script.Dispatch.{covenant_script, arms, arbitrated_arms, arms_code, dispatch}
use k_rep.Escrow.Script.Transitions.{covenant-Step, covenant_conserves}
use k_rep.Escrow.Script.Outputs.{InRange}
use k_rep.Escrow.Script.Accepts.{IsPushable}
use k_rep.Escrow.State.Phases.{Step}
use k_rep.Escrow.Script.Covenant.{Rule, signatures, covenant_iff, covenant_unknown}
use k_rep.Tests.Machine.{toy_number, toy_max}
use k_rep.Tests.Machine.Instance.{toy_vm}

abbrev job : Terms ToyKey
job = record {
  buyer = alice;
  buyer_rep = alice;
  arbiter = some carol;
  reward = 500;
  maker_bond = 100;
  deadline = 1000;
  auto_release_delay = 50;
  file_hash = replicate 32 7;
}

job_id : List ℕ
unfolding terms_id terms_bytes arbiter_bytes le_bytes from_le
job_id = terms_id ToySig job

abbrev opened_job : EscrowState ToyKey
opened_job = record {
  phase = opened;
  terms_id = job_id;
  maker = none;
  maker_rep = none;
  tracking = none;
  shipped_at = 0;
}

abbrev claimed_job : EscrowState ToyKey
claimed_job = record opened_job { phase = claimed; maker = some bob; maker_rep = some bob }

abbrev before : List ℕ
before = replicate 8 9

-- The claim of the job by `bob`.
abbrev claim_spend : Spend
claim_spend = record {
  payload = encode claimed_job;
  lock_time = 0;
  sequence = 0;
  input_index = 0;
  outpoint_tx_id = before ++ encode opened_job;
  input_spk = replicate 35 1;
  input_amount = 500;
  outputs = (record { spk = replicate 35 1; amount = 600 }) ∷ [];
}

scripts : Unit {0}
unfolding job_id terms_id terms_bytes arbiter_bytes le_bytes from_le encode byte copy_key copy_hash
    get_range beq_bytes covenant_script arms arbitrated_arms arms_code dispatch claim_branch
    ship_branch settle_branch auto_release_branch slash_branch refund_branch dispute_branch
    resolve_branch build_dispute build_resolve beneficiary verify_prev_state
    require_prev_phase_and_job require_new_field header_for p2pk_spk_prefix require_p2pk_output
    selector claimed_value
scripts = tt

claimed_well : Accepts claim_spend (covenant_script ToySig job) (
    toy_number (selector claim) ∷ encode opened_job ∷ before ∷ signatures claim (replicate 32 2) [])
unfolding scripts
claimed_well = refl

job_IsPushable : IsPushable job
job_IsPushable = record { value = omega arith; deadline = omega arith; delay = omega arith }

first_output : (o : Output) → get_elem? claim_spend.outputs 0 ≡ some o → o.amount < 2 ^ 63
first_output o e =
    let same : o ≡ record { spk = replicate 35 1; amount = 600 } = cc e in rw same (omega arith)

claim_payload : length claim_spend.payload < 2 ^ 63
unfolding scripts
claim_payload = omega arith

claim_InRange : InRange claim_spend
claim_InRange = record {
  input_amount = omega arith;
  output_amount = first_output;
  payload = claim_payload;
  lock_time = omega arith;
}

claim_short : length before + length (encode opened_job) ≤ toy_max
unfolding scripts
claim_short = omega arith

covenant_iff_example :
    Accepts claim_spend (covenant_script ToySig job) (
      toy_number (selector claim)
      ∷ encode opened_job
      ∷ before
      ∷ signatures claim (replicate 32 2) [])
    ↔ Rule ToySig job claim_spend before (encode opened_job) (replicate 32 2) [] claim
covenant_iff_example =
    covenant_iff ToySig job claim_spend before (encode opened_job) (replicate 32 2) []
      job_IsPushable claim_InRange (omega arith) claim_short claim

covenant_unknown_example : ¬ Accepts claim_spend (covenant_script ToySig job) (toy_number 9 ∷ [])
covenant_unknown_example = covenant_unknown ToySig job claim_spend 9 [] (omega arith) (omega arith)

decodes_before : decode (encode opened_job) ≡ ok opened_job
unfolding scripts decode read_key read_hash from_byte check_invariants
decodes_before = refl

decodes_after : decode claim_spend.payload ≡ ok claimed_job
unfolding scripts decode read_key read_hash from_byte check_invariants
decodes_after = refl

covenant-Step_example :
    Step opened_job claimed_job
    × (opened_job.terms_id ≡ terms_id ToySig job)
    × (claimed_job.terms_id ≡ terms_id ToySig job)
covenant-Step_example =
    covenant-Step ToySig job claim_spend before (encode opened_job) (replicate 32 2) []
      job_IsPushable claim_InRange (omega arith) claim_short claim claimed_well claimed opened_job
      claimed_job refl decodes_before decodes_after

covenant_conserves_example :
    (o : Output) × (get_elem? claim_spend.outputs 0 ≡ some o) × (o.amount ≡ 600)
covenant_conserves_example =
    covenant_conserves ToySig job claim_spend before (encode opened_job) (replicate 32 2) []
      job_IsPushable claim_InRange (omega arith) claim_short claim claimed_well refl
