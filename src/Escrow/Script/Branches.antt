-- ===== src/Escrow/Script/Branches.antt =====
-- The branches of the covenant (krep-escrow/src/script.rs), one for each transition.
use k_rep.Base.{◌+◌, ◌-◌, Option, some, List, [], ◌∷◌, ◌++◌, replicate, then_some}
use k_rep.Keys.{XOnly}
use k_rep.Core.Attestation.{Crypto}
use k_rep.Escrow.State.{
  state_bytes, off_terms, off_maker, off_maker_rep, off_tracking, off_shipped_at, opened, claimed,
  shipped, disputed,
}
use k_rep.Escrow.Terms.{Terms, terms_id, claimed_value}
use k_rep.Escrow.Machine.{
  Instr, op, push_data, push_i64, Vm, op_dup, op_rot, op_swap, op_drop, op_num2bin, op_equal_verify,
  op_num_equal, op_add, op_check_sig_verify, op_check_lock_time_verify, op_check_sequence_verify,
  op_tx_lock_time, op_true,
}
use k_rep.Escrow.Script.{
  Resolution, amounts, header_for, new_field, old_field, require_new_field, require_nonzero_field,
  require_p2pk_output, require_payload_len, require_prev_phase_and_job, require_same_covenant,
  require_signature, terminal_payload_bytes, to_buyer, to_maker, verify_prev_state,
}

module _ {K : Type 0} ⦃key : XOnly K⦄ (S : Type 0) ⦃crypto : Crypto K S⦄ where
  unfoldable pub claim_branch : Terms K → List Instr
  claim_branch terms =
      verify_prev_state
      ++ (require_prev_phase_and_job opened (terms_id S terms)
          ++ (op op_drop ∷ new_field off_maker_rep (off_maker_rep + 32)
              ++ (op op_check_sig_verify ∷ require_payload_len state_bytes
                  ++ (require_new_field 0 off_terms (header_for claimed)
                      ++ (require_new_field off_terms (off_terms + 32) (terms_id S terms)
                          ++ (require_nonzero_field off_maker (off_maker + 32)
                              ++ (require_new_field off_tracking state_bytes
                                    (replicate (state_bytes - off_tracking) 0)
                                  ++ (require_same_covenant
                                      ++ (amounts
                                          ++ (push_i64 terms.maker_bond
                                              ∷ op op_add
                                              ∷ op op_num_equal
                                              ∷ []))))))))))

  unfoldable pub ship_branch : Terms K → List Instr
  ship_branch terms =
      verify_prev_state
      ++ (require_prev_phase_and_job claimed (terms_id S terms)
          ++ (op op_dup ∷ old_field off_maker (off_maker + 32)
              ++ (op op_dup ∷ new_field off_maker (off_maker + 32)
                  ++ (op op_equal_verify
                        ∷ op op_rot
                        ∷ op op_swap
                        ∷ op op_check_sig_verify
                        ∷ op op_drop
                        ∷ require_payload_len state_bytes
                      ++ (require_new_field 0 off_terms (header_for shipped)
                          ++ (require_new_field off_terms (off_terms + 32) (terms_id S terms)
                              ++ (require_nonzero_field off_tracking (off_tracking + 32)
                                  ++ (op op_tx_lock_time
                                        ∷ push_i64 8
                                        ∷ op op_num2bin
                                        ∷ new_field off_shipped_at (off_shipped_at + 8)
                                      ++ (op op_equal_verify ∷ require_same_covenant
                                          ++ (amounts ++ (op op_num_equal ∷ [])))))))))))

  unfoldable pub refund_branch : ⦃vm : Vm⦄ → Terms K → List Instr
  refund_branch ⦃vm = vm⦄ terms =
      verify_prev_state
      ++ (require_prev_phase_and_job opened (terms_id S terms)
          ++ (op op_drop
                ∷ push_i64 terms.deadline
                ∷ op op_check_lock_time_verify
                ∷ require_signature (key.serialize terms.buyer)
              ++ (require_payload_len 0
                  ++ (push_data (key.serialize terms.buyer) ∷ require_p2pk_output 0 terms.reward
                      ++ (op op_true ∷ [])))))

  unfoldable pub slash_branch : ⦃vm : Vm⦄ → Terms K → List Instr
  slash_branch ⦃vm = vm⦄ terms =
      verify_prev_state
      ++ (require_prev_phase_and_job claimed (terms_id S terms)
          ++ (op op_drop
                ∷ push_i64 terms.deadline
                ∷ op op_check_lock_time_verify
                ∷ require_signature (key.serialize terms.buyer)
              ++ (require_payload_len terminal_payload_bytes
                  ++ (push_data (key.serialize terms.buyer)
                        ∷ require_p2pk_output 0 (claimed_value terms)
                      ++ (op op_true ∷ [])))))

  unfoldable pub settle_branch : ⦃vm : Vm⦄ → Terms K → List Instr
  settle_branch ⦃vm = vm⦄ terms =
      verify_prev_state
      ++ (require_prev_phase_and_job shipped (terms_id S terms)
          ++ (old_field off_maker (off_maker + 32)
              ++ (op op_swap ∷ require_signature (key.serialize terms.buyer)
                  ++ (require_payload_len terminal_payload_bytes
                      ++ (require_p2pk_output 0 (claimed_value terms) ++ (op op_true ∷ []))))))

  unfoldable pub auto_release_branch : ⦃vm : Vm⦄ → Terms K → List Instr
  auto_release_branch ⦃vm = vm⦄ terms =
      verify_prev_state
      ++ (require_prev_phase_and_job shipped (terms_id S terms)
          ++ (push_i64 terms.auto_release_delay
                ∷ op op_check_sequence_verify
                ∷ old_field off_maker (off_maker + 32)
              ++ (op op_dup
                    ∷ op op_rot
                    ∷ op op_swap
                    ∷ op op_check_sig_verify
                    ∷ require_payload_len terminal_payload_bytes
                  ++ (require_p2pk_output 0 (claimed_value terms) ++ (op op_true ∷ [])))))

  unfoldable pub build_dispute : Terms K → List Instr
  build_dispute terms =
      verify_prev_state
      ++ (require_prev_phase_and_job shipped (terms_id S terms)
          ++ (old_field off_maker state_bytes
              ++ (new_field off_maker state_bytes
                  ++ (op op_equal_verify ∷ require_signature (key.serialize terms.buyer)
                      ++ (require_payload_len state_bytes
                          ++ (require_new_field 0 off_terms (header_for disputed)
                              ++ (require_new_field off_terms (off_terms + 32) (terms_id S terms)
                                  ++ (require_same_covenant
                                      ++ (amounts ++ (op op_num_equal ∷ []))))))))))

  unfoldable pub dispute_branch : Terms K → Option (List Instr)
  dispute_branch terms = then_some terms.arbiter (λ a. some (build_dispute terms))

  -- The two arms of the `match` on the resolution: they leave the key that is paid.
  unfoldable pub beneficiary : Terms K → Resolution → List Instr
  beneficiary terms to_maker = op op_dup ∷ op op_rot ∷ op op_swap ∷ op op_check_sig_verify ∷ []
  beneficiary terms to_buyer =
      op op_drop ∷ require_signature (key.serialize terms.buyer)
      ++ (push_data (key.serialize terms.buyer) ∷ [])

  unfoldable pub build_resolve : ⦃vm : Vm⦄ → Terms K → K → Resolution → List Instr
  build_resolve ⦃vm = vm⦄ terms arbiter resolution =
      verify_prev_state
      ++ (require_prev_phase_and_job disputed (terms_id S terms)
          ++ (old_field off_maker (off_maker + 32)
              ++ (op op_swap ∷ require_signature (key.serialize arbiter)
                  ++ (beneficiary terms resolution
                      ++ (require_payload_len terminal_payload_bytes
                          ++ (require_p2pk_output 0 (claimed_value terms) ++ (op op_true ∷ [])))))))

  unfoldable pub resolve_branch : ⦃vm : Vm⦄ → Terms K → Resolution → Option (List Instr)
  resolve_branch ⦃vm = vm⦄ terms resolution =
      then_some terms.arbiter (λ arbiter. some (build_resolve terms arbiter resolution))
