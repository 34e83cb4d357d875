-- ===== src/Escrow/Script/Fields.antt =====
-- When the checks that the branches of the covenant make of fields and signatures let a spend pass.
use k_rep.Base.{
  ℕ, ◌^◌, ◌≡◌, ◌↔◌, ◌<◌, ◌≤◌, refl, ap, sym, ◌∙◌, some, List, ◌∷◌, ◌++◌, get_range, beq_bytes_iff,
}
use k_rep.Escrow.Machine.{
  Accepts, Instr, op, Vm, Spend, Stack, op_check_sig_verify, op_equal_verify,
}
use k_rep.Escrow.Script.{
  require_new_field, new_field, old_field, require_signature, require_nonzero_field,
}
use k_rep.Escrow.Script.Checks.{
  exec-require_new_field, exec-new_field, exec-old_field, exec-require_signature,
  exec-require_nonzero_field,
}
use k_rep.Escrow.Script.Outputs.{InRange}
use k_rep.Escrow.Script.Rules.{NonZero, SignedBy}
use k_rep.Escrow.Script.Accepts.{
  require_iff, then_some_iff, is_field_iff, is_nonzero_iff, same_iff, iff_by,
}

module _ ⦃vm : Vm⦄ (t : Spend) (fits : InRange t) (c : List Instr) (s : Stack) where
  pub new_field_iff :
      {Q : List ℕ → Type 0} (a b : ℕ)
      → a ≤ b
      → b < 2 ^ 63
      → ((y : List ℕ) → Accepts t c (y ∷ s) ↔ Q y)
      → Accepts t (new_field a b ++ c) s ↔ ((y : List ℕ) × (get_range a b t.payload ≡ some y) × Q y)
  new_field_iff a b h l q = then_some_iff _ _ (exec-new_field t c s a b h l) (λ y e. q y)

  pub old_field_iff :
      {Q : List ℕ → Type 0} (a b : ℕ) (x : List ℕ)
      → a ≤ b
      → b < 2 ^ 63
      → ((y : List ℕ) → get_range a b x ≡ some y → Accepts t c (y ∷ s) ↔ Q y)
      → Accepts t (old_field a b ++ c) (x ∷ s) ↔ ((y : List ℕ) × (get_range a b x ≡ some y) × Q y)
  old_field_iff a b x h l q = then_some_iff _ _ (exec-old_field t c s a b x h l) q

  pub signed_iff :
      {Q : Type 0} (sig key : List ℕ)
      → Accepts t c s ↔ Q
      → Accepts t (op op_check_sig_verify ∷ c) (key ∷ sig ∷ s) ↔ (SignedBy t sig key × Q)
  signed_iff sig key q = require_iff _ (vm.check_sig_lem t c sig key s) same_iff q

  pub require_signature_iff :
      {Q : Type 0} (sig key : List ℕ)
      → Accepts t c s ↔ Q
      → Accepts t (require_signature key ++ c) (sig ∷ s) ↔ (SignedBy t sig key × Q)
  require_signature_iff sig key q = require_iff _ (exec-require_signature t c s sig key) same_iff q

  pub require_new_field_iff :
      {Q : Type 0} (a b : ℕ) (want : List ℕ)
      → a ≤ b
      → b < 2 ^ 63
      → Accepts t c s ↔ Q
      → Accepts t (require_new_field a b want ++ c) s ↔ ((get_range a b t.payload ≡ some want) × Q)
  require_new_field_iff a b want h l q =
      require_iff _ (exec-require_new_field t c s a b want h l) (is_field_iff _ want) q

  pub nonzero_iff :
      {Q : Type 0} (a b : ℕ)
      → a ≤ b
      → b < 2 ^ 63
      → Accepts t c s ↔ Q
      → Accepts t (require_nonzero_field a b ++ c) s ↔ (NonZero t a b × Q)
  nonzero_iff a b h l q =
      require_iff _ (exec-require_nonzero_field t c s a b h l) (is_nonzero_iff _) q

  pub equal_iff :
      {Q : Type 0} (x y : List ℕ)
      → Accepts t c s ↔ Q
      → Accepts t (op op_equal_verify ∷ c) (y ∷ x ∷ s) ↔ ((x ≡ y) × Q)
  equal_iff x y q = require_iff _ (vm.equal_verify_lem t c x y s) (beq_bytes_iff x y) q

  -- A field of the new state is what is on top.
  pub kept_iff :
      {Q : Type 0} (a b : ℕ) (x : List ℕ)
      → a ≤ b
      → b < 2 ^ 63
      → Accepts t c s ↔ Q
      → Accepts t (new_field a b ++ (op op_equal_verify ∷ c)) (x ∷ s)
        ↔ ((get_range a b t.payload ≡ some x) × Q)
  kept_iff a b x h l q =
      iff_by
        (then_some_iff _ _ (exec-new_field t (op op_equal_verify ∷ c) (x ∷ s) a b h l)
          (λ y e. equal_iff x y q))
        (λ r. (r.1 ∙ ap some (sym r.2.0), r.2.1)) (λ r. (x, r.0, (refl, r.1)))
