-- ===== src/Escrow/Script/Covenant.antt =====
-- The whole covenant of krep-escrow/src/script.rs against the rules of its branches.
use k_rep.Base.{
  ℕ, ◌+◌, ◌^◌, ◌≡◌, ◌↔◌, ◌<◌, ◌≤◌, refl, ap, ◌∙◌, true, Option, none, some, List, [], ◌∷◌, length,
  Option-cases, then_some, arith, inl, inr,
}
use k_rep.Keys.{XOnly}
use k_rep.Core.Attestation.{Crypto}
use k_rep.Escrow.State.{opened, claimed}
use k_rep.Escrow.Terms.{Terms, claimed_value}
use k_rep.Escrow.Machine.{Accepts, Vm, Spend, Stack, Instr}
use k_rep.Escrow.Script.{
  Branch, claim, ship, settle, auto_release, dispute, resolve_to_maker, resolve_to_buyer, slash,
  refund, selector, verify_prev_state, require_prev_phase_and_job, require_new_field,
  require_p2pk_output, terminal_payload_bytes, to_maker, to_buyer,
}
use k_rep.Escrow.Script.Branches.{
  beneficiary, build_dispute, build_resolve, claim_branch, ship_branch, settle_branch,
  auto_release_branch, slash_branch, refund_branch, dispute_branch, resolve_branch,
}
use k_rep.Escrow.Script.Outputs.{InRange}
use k_rep.Escrow.Script.Rules.{
  IsClaim, IsShip, IsDispute, IsSettle, IsAutoRelease, IsReclaim, IsResolve,
}
use k_rep.Escrow.Script.Accepts.{IsPushable, moved_iff}
use k_rep.Escrow.Script.Moves.{IsClaim-iff, IsShip-iff, IsDispute-iff}
use k_rep.Escrow.Script.Payouts.{
  IsSettle-iff, IsAutoRelease-iff, slash_iff, refund_iff, IsResolve-iff,
}
use k_rep.Escrow.Script.Dispatch.{
  arms, arbitrated_arms, covenant_script, chosen, exec-dispatch, run_chosen, all_straight,
}

module _ ⦃vm : Vm⦄ {K : Type 0} ⦃key : XOnly K⦄ (S : Type 0) ⦃crypto : Crypto K S⦄
    (terms : Terms K) where
  arms-straight : all_straight (arms S terms) ≡ true
  unfolding arms arbitrated_arms claim_branch ship_branch settle_branch auto_release_branch
      slash_branch refund_branch dispute_branch resolve_branch build_dispute build_resolve
      beneficiary verify_prev_state require_prev_phase_and_job require_new_field require_p2pk_output
  arms-straight = elim (Option-cases terms.arbiter) [ inl e ↦ rw e | inr (a, e) ↦ rw e ]

  -- The arms of a job with an arbiter, by their selectors.
  arbitrated-chosen :
      (chosen 4 (arms S terms) ≡ then_some terms.arbiter (λ a. some (build_dispute S terms)))
      × (chosen 5 (arms S terms)
          ≡ then_some terms.arbiter (λ a. some (build_resolve S terms a to_maker)))
      × (chosen 6 (arms S terms)
          ≡ then_some terms.arbiter (λ a. some (build_resolve S terms a to_buyer)))
  unfolding arms selector arbitrated_arms dispute_branch resolve_branch
  arbitrated-chosen = elim (Option-cases terms.arbiter) [
    | inl e ↦ rw e (refl, refl, refl)
    | inr (a, e) ↦ rw e (refl, refl, refl)
  ]

  -- No arm has another selector.
  unknown-chosen : (n : ℕ) → 8 < n → chosen n (arms S terms) ≡ none
  unfolding arms selector arbitrated_arms dispute_branch resolve_branch
  unknown-chosen n h = elim (Option-cases terms.arbiter) [
    | inl e ↦ rw e (ground arith)
    | inr (a, e) ↦ rw e (ground arith)
  ]

-- The signatures that a branch takes, its first on top: a resolution takes the arbiter's too.
abbrev pub signatures : Branch → List ℕ → List ℕ → Stack
signatures resolve_to_maker sig arbiter_sig = arbiter_sig ∷ sig ∷ []
signatures resolve_to_buyer sig arbiter_sig = arbiter_sig ∷ sig ∷ []
signatures _ sig arbiter_sig = sig ∷ []

module _ ⦃vm : Vm⦄ {K : Type 0} ⦃key : XOnly K⦄ (S : Type 0) ⦃crypto : Crypto K S⦄ (terms : Terms K)
    (t : Spend) (rest payload sig arbiter_sig : List ℕ) where
  -- What a spend by a branch has to be. A job with no arbiter has no disputes.
  abbrev pub Rule : Branch → Type 0
  Rule claim = IsClaim t S terms rest payload sig
  Rule ship = IsShip t S terms rest payload sig
  Rule settle = IsSettle t S terms rest payload sig
  Rule auto_release = IsAutoRelease t S terms rest payload sig
  Rule dispute = (a : K) × (terms.arbiter ≡ some a) × IsDispute t S terms rest payload sig
  Rule resolve_to_maker =
      (a : K) × (terms.arbiter ≡ some a)
      × IsResolve t S terms rest payload a to_maker sig arbiter_sig
  Rule resolve_to_buyer =
      (a : K) × (terms.arbiter ≡ some a)
      × IsResolve t S terms rest payload a to_buyer sig arbiter_sig
  Rule slash =
      IsReclaim t S terms rest payload claimed terminal_payload_bytes (claimed_value terms) sig
  Rule refund = IsReclaim t S terms rest payload opened 0 terms.reward sig

  module _ (pushable : IsPushable terms) (fits : InRange t)
      (bond : t.input_amount + terms.maker_bond < 2 ^ 63)
      (short : length rest + length payload ≤ vm.max_element) where
    -- What a selector chooses decides.
    chosen_iff :
        (n : ℕ) (s : Stack) (o : Option (List Instr)) {Q : Type 0}
        → n < 2 ^ 63
        → chosen n (arms S terms) ≡ o
        → (run_chosen t n s o ≡ some (vm.truth true ∷ [])) ↔ Q
        → Accepts t (covenant_script S terms) (vm.number n ∷ s) ↔ Q
    unfolding covenant_script
    chosen_iff n s o small e q =
        moved_iff
          (exec-dispatch t n s (arms S terms) small (arms-straight S terms)
            ∙ ap (run_chosen t n s) e)
          q

    -- Where the arm is one of those of an arbitrated job.
    arbitrated_iff :
        (n : ℕ) (s : Stack) (o : Option K) (code : K → List Instr) {Q : K → Type 0}
        → ((a : K) → Accepts t (code a) s ↔ Q a)
        → (run_chosen t n s (then_some o (λ a. some (code a))) ≡ some (vm.truth true ∷ []))
          ↔ ((a : K) × (o ≡ some a) × Q a)
    arbitrated_iff n s none code q = (λ h. absurd (cc h), λ h. absurd (cc h.1))
    arbitrated_iff n s (some a) code q = (
      λ h. (a, refl, (q a).0 h),
      λ (b, same, h).
          ap (λ o. run_chosen t n s (then_some o (λ x. some (code x)))) same ∙ (q b).1 h,
    )

    -- The covenant accepts a spend by a branch, with the signatures that the branch takes under the
    -- previous transaction and the selector, exactly when the spend follows the branch's rule, for
    -- terms and transactions whose numbers fit the machine.
    pub covenant_iff :
        (b : Branch)
        → Accepts t
            (covenant_script S terms)
            (vm.number (selector b) ∷ payload ∷ rest ∷ signatures b sig arbiter_sig)
          ↔ Rule b
    unfolding arms selector
    covenant_iff claim =
        chosen_iff 0 _ _ (omega arith) refl (IsClaim-iff S terms t fits rest payload sig short bond)
    covenant_iff ship =
        chosen_iff 1 _ _ (omega arith) refl (IsShip-iff S terms t fits rest payload sig short)
    covenant_iff settle =
        chosen_iff 2 _ _ (omega arith) refl
          (IsSettle-iff S terms pushable t fits rest payload short sig)
    covenant_iff auto_release =
        chosen_iff 3 _ _ (omega arith) refl
          (IsAutoRelease-iff S terms pushable t fits rest payload short sig)
    covenant_iff dispute = chosen_iff 4 _ _ (omega arith) (arbitrated-chosen S terms).0 (
        arbitrated_iff 4 _ terms.arbiter _
          (λ a. IsDispute-iff S terms t fits rest payload sig short))
    covenant_iff resolve_to_maker = chosen_iff 5 _ _ (omega arith) (arbitrated-chosen S terms).1 (
        arbitrated_iff 5 _ terms.arbiter _ (λ a.
          IsResolve-iff S terms pushable t fits rest payload short a to_maker sig arbiter_sig))
    covenant_iff resolve_to_buyer = chosen_iff 6 _ _ (omega arith) (arbitrated-chosen S terms).2 (
        arbitrated_iff 6 _ terms.arbiter _ (λ a.
          IsResolve-iff S terms pushable t fits rest payload short a to_buyer sig arbiter_sig))
    covenant_iff slash =
        chosen_iff 7 _ _ (omega arith) refl
          (slash_iff S terms pushable t fits rest payload short sig)
    covenant_iff refund =
        chosen_iff 8 _ _ (omega arith) refl
          (refund_iff S terms pushable t fits rest payload short sig)

module _ ⦃vm : Vm⦄ {K : Type 0} ⦃key : XOnly K⦄ (S : Type 0) ⦃crypto : Crypto K S⦄ (terms : Terms K)
    (t : Spend) where
  -- A selector past the last branch lets nothing pass.
  pub covenant_unknown :
      (n : ℕ) (s : Stack)
      → 8 < n
      → n < 2 ^ 63
      → ¬ Accepts t (covenant_script S terms) (vm.number n ∷ s)
  unfolding covenant_script
  covenant_unknown n s high small h = absurd (
      cc (
        h,
        exec-dispatch t n s (arms S terms) small (arms-straight S terms)
            ∙ ap (run_chosen t n s) (unknown-chosen S terms n high),
      ))
