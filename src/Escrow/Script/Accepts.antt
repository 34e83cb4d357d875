-- ===== src/Escrow/Script/Accepts.antt =====
-- When the sequences that the branches of the covenant share let a spend pass.
use k_rep.Base.{
  ℕ, ◌+◌, ◌^◌, ◌≡◌, ◌≢◌, ◌↔◌, ◌<◌, ◌≤◌, refl, ap, ap₂, beq_bytes-ne, sym, ◌∙◌, Bool, Bool-cases,
  inl, inr, true, false, ◌&&◌, not, Option, none, some, List, [], ◌∷◌, ◌++◌, length, get_elem?,
  replicate, beq_bytes_iff, eq-beq_bytes, ◌==◌, ==_iff, then_some, arith,
}
use k_rep.Escrow.State.{state_bytes, off_terms, Phase}
use k_rep.Escrow.Terms.{Terms}
use k_rep.Escrow.Machine.{Accepts, Instr, op, Vm, Spend, Stack, Output, require, op_true, push_data}
use k_rep.Escrow.Script.{
  verify_prev_state, require_new_field, require_prev_phase_and_job, require_payload_len,
  require_same_covenant, amounts, require_p2pk_output, header_for,
}
use k_rep.Escrow.Script.Checks.{
  is_field, is_nonzero, pays, p2pk_spk, exec-verify_prev_state, exec-require_prev,
  exec-require_new_field, exec-require_payload_len,
}
use k_rep.Escrow.Script.Outputs.{InRange, exec-continue, exec-require_p2pk_output}
use k_rep.Escrow.Script.Rules.{IsPrior, IsNew, IsContinued, IsPaid}

-- A passed check is its condition and what comes after it.
pub require_iff :
    {P Q : Type 0} {m k : Option Stack} {x : Stack} (b : Bool)
    → m ≡ require b k
    → (b ≡ true) ↔ P
    → (k ≡ some x) ↔ Q
    → (m ≡ some x) ↔ (P × Q)
require_iff true e p q = (λ h. (p.0 refl, q.0 (sym e ∙ h)), λ h. e ∙ q.1 h.1)
require_iff false e p q = (λ h. absurd (cc (e, h)), λ h. absurd (cc (p.1 h.0)))

-- A value that is found, and what comes after it.
pub then_some_iff :
    {A : Type 0} {Q : A → Type 0} {m : Option Stack} {x : Stack} (o : Option A)
    (f : A → Option Stack)
    → m ≡ then_some o f
    → ((a : A) → o ≡ some a → (f a ≡ some x) ↔ Q a)
    → (m ≡ some x) ↔ ((a : A) × (o ≡ some a) × Q a)
then_some_iff none f e q = (λ h. absurd (cc (e, h)), λ h. absurd (cc h.1))
then_some_iff (some a) f e q = (
  λ h. (a, refl, (q a refl).0 (sym e ∙ h)),
  λ (b, same, h). e ∙ ap (λ o. then_some o f) same ∙ (q b same).1 h,
)

-- Some instructions that only move the stack.
pub moved_iff :
    {Q : Type 0} {m k : Option Stack} {x : Stack} → m ≡ k → (k ≡ some x) ↔ Q → (m ≡ some x) ↔ Q
moved_iff e q = (λ h. q.0 (sym e ∙ h), λ h. e ∙ q.1 h)

pub is_field_iff :
    (o : Option (List ℕ)) (want : List ℕ) → (is_field o want ≡ true) ↔ (o ≡ some want)
is_field_iff none want = (λ h. absurd (cc h), λ h. absurd (cc h))
is_field_iff (some y) want =
    (λ h. ap some (eq-beq_bytes y want h), λ h. (beq_bytes_iff y want).1 (cc h))

pub is_nonzero_iff :
    (o : Option (List ℕ))
    → (is_nonzero o ≡ true) ↔ ((y : List ℕ) × (o ≡ some y) × (y ≢ replicate 32 0))
is_nonzero_iff none = (λ h. absurd (cc h), λ h. absurd (cc h.1))
is_nonzero_iff (some y) = (
  λ h. (y, refl, λ e. absurd (cc (h, (beq_bytes_iff y (replicate 32 0)).1 e))),
  λ (z, same, h). ap is_nonzero same ∙ ap not (beq_bytes-ne z (replicate 32 0) h),
)

pays_iff :
    ⦃vm : Vm⦄ (o : Option Output) (pk : List ℕ) (amount : ℕ)
    → (pays o pk amount ≡ true)
      ↔ ((out : Output) × (o ≡ some out) × (p2pk_spk pk ≡ out.spk) × (out.amount ≡ amount))
pays_iff none pk amount = (λ h. absurd (cc h), λ h. absurd (cc h.1))
pays_iff (some out) pk amount = (
  λ h. (
    out,
    refl,
    ground (arith, beq_bytes_iff (p2pk_spk pk) out.spk),
    ground (arith, ==_iff out.amount amount),
  ),
  λ (o, same, h, k).
      ap (λ q. pays q pk amount) same
      ∙ ap₂ ◌&&◌ ((beq_bytes_iff (p2pk_spk pk) o.spk).1 h) ((==_iff o.amount amount).1 k),
)

module _ ⦃vm : Vm⦄ (t : Spend) (fits : InRange t) where
  pub IsPrior-iff :
      (c : List Instr) (s : Stack) (rest payload id : List ℕ) (phase : Phase) {Q : Type 0}
      → length rest + length payload ≤ vm.max_element
      → Accepts t c (payload ∷ s) ↔ Q
      → Accepts t
          (verify_prev_state ++ (require_prev_phase_and_job phase id ++ c))
          (payload ∷ rest ∷ s)
        ↔ (IsPrior t rest payload phase id × Q)
  IsPrior-iff c s rest payload id phase h q =
      let whole = require_iff _ (exec-verify_prev_state t _ s rest payload h) (beq_bytes_iff _ _) (
        require_iff _ (exec-require_prev t c s phase id payload) (is_field_iff _ _)
          (require_iff _ refl (is_field_iff _ _) q)) in
      (
        λ a.
            let r = whole.0 a in
            (record { authentic = r.0; in_phase = r.1.0; job = r.1.1.0 }, r.1.1.1),
        λ r. whole.1 (r.0.authentic, (r.0.in_phase, (r.0.job, r.1))),
      )

  pub IsNew-iff :
      (c : List Instr) (s : Stack) (id : List ℕ) (phase : Phase) {Q : Type 0}
      → Accepts t c s ↔ Q
      → Accepts t
          (require_payload_len state_bytes
            ++ (require_new_field 0 off_terms (header_for phase)
                ++ (require_new_field off_terms (off_terms + 32) id ++ c)))
          s
        ↔ (IsNew t phase id × Q)
  IsNew-iff c s id phase q =
      let whole =
        require_iff _ (exec-require_payload_len t _ s state_bytes (omega arith) fits.payload)
          (==_iff _ _)
          (require_iff _ (exec-require_new_field t _ s 0 off_terms _ (omega arith) (omega arith))
            (is_field_iff _ _)
            (require_iff _
              (exec-require_new_field t c s off_terms (off_terms + 32) id (omega arith)
                (omega arith))
              (is_field_iff _ _) q)) in
      (
        λ a. let r = whole.0 a in (record { size = r.0; header = r.1.0; job = r.1.1.0 }, r.1.1.1),
        λ r. whole.1 (r.0.size, (r.0.header, (r.0.job, r.1))),
      )

  -- The machine stops with the answer to a comparison of numbers.
  answer_iff :
      (a b : ℕ) {m : Option Stack}
      → m ≡ some (vm.truth (a == b) ∷ [])
      → (m ≡ some (vm.truth true ∷ [])) ↔ (a ≡ b)
  answer_iff a b e = elim (Bool-cases (a == b)) [
    | inl y ↦ (λ h. (==_iff a b).0 y, λ h. e ∙ ap (λ v. some (vm.truth v ∷ [])) y)
    | inr n ↦ (λ h. absurd (vm.truth_apart (cc (h, e, n))), λ h. absurd (cc (n, (==_iff a b).1 h)))
  ]

  pub IsContinued-iff :
      (c : List Instr) (value : ℕ)
      → ((o : Output)
          → o.amount < 2 ^ 63
          → vm.exec t c (vm.number t.input_amount ∷ vm.number o.amount ∷ [])
            ≡ some (vm.truth (o.amount == value) ∷ []))
      → Accepts t (require_same_covenant ++ (amounts ++ c)) [] ↔ IsContinued t value
  IsContinued-iff c value last =
      let whole = then_some_iff _ _ (exec-continue t c [] fits) (λ o first.
        require_iff _ refl (beq_bytes_iff _ _)
          (answer_iff o.amount value (last o (fits.output_amount o first)))) in
      (
        λ a.
            let r = whole.0 a in
            record { output = r.0; first = r.1; same_covenant = r.2.0; amount = r.2.1 },
        λ r. whole.1 (r.output, r.first, (r.same_covenant, r.amount)),
      )

  p2pk_iff :
      (value : ℕ) (pk : List ℕ)
      → length pk ≡ 32
      → value < 2 ^ 63
      → Accepts t (require_p2pk_output 0 value ++ (op op_true ∷ [])) (pk ∷ []) ↔ (
          (o : Output) × (get_elem? t.outputs 0 ≡ some o)
          × (p2pk_spk pk ≡ o.spk)
          × (o.amount ≡ value))
  p2pk_iff value pk hk hv =
      let end : Accepts t (op op_true ∷ []) [] =
        vm.true_lem t [] [] ∙ vm.done t (vm.truth true ∷ []) in
      let whole =
        require_iff {Q = Unit {0}} _ (exec-require_p2pk_output t _ [] fits pk value hk hv)
          (pays_iff _ pk value) (λ a. tt, λ a. end) in
      (λ a. (whole.0 a).0, λ r. whole.1 (r, tt))

  pub IsPaid-iff :
      (size value : ℕ) (pk : List ℕ)
      → length pk ≡ 32
      → size < 2 ^ 63
      → value < 2 ^ 63
      → Accepts t
          (require_payload_len size ++ (require_p2pk_output 0 value ++ (op op_true ∷ [])))
          (pk ∷ [])
        ↔ IsPaid t size pk value
  IsPaid-iff size value pk hk hs hv =
      let whole =
        require_iff _ (exec-require_payload_len t _ (pk ∷ []) size hs fits.payload) (==_iff _ _)
          (p2pk_iff value pk hk hv) in
      (
        λ a.
            let r = whole.0 a in
            record { sized = r.0; output = r.1.0; first = r.1.1; to_key = r.1.2; amount = r.1.3 },
        λ r. whole.1 (r.sized, (r.output, r.first, r.to_key, r.amount)),
      )

  -- The same where the key is pushed after the payload is measured.
  pub IsPaid-to_iff :
      (size value : ℕ) (pk : List ℕ)
      → length pk ≡ 32
      → size < 2 ^ 63
      → value < 2 ^ 63
      → Accepts t
          (require_payload_len size
            ++ (push_data pk ∷ require_p2pk_output 0 value ++ (op op_true ∷ [])))
          []
        ↔ IsPaid t size pk value
  IsPaid-to_iff size value pk hk hs hv =
      let whole =
        require_iff _
          (exec-require_payload_len t
            (push_data pk ∷ require_p2pk_output 0 value ++ (op op_true ∷ [])) [] size hs
            fits.payload)
          (==_iff _ _) (moved_iff (vm.data_lem t pk _ []) (p2pk_iff value pk hk hv)) in
      (
        λ a.
            let r = whole.0 a in
            record { sized = r.0; output = r.1.0; first = r.1.1; to_key = r.1.2; amount = r.1.3 },
        λ r. whole.1 (r.sized, (r.output, r.first, r.to_key, r.amount)),
      )

pub same_iff : {P : Type 0} → P ↔ P
same_iff = (λ h. h, λ h. h)

-- The numbers of some terms that are pushed as numbers of the machine.
pub record IsPushable {K : Type 0} (terms : Terms K) : Type 0 where
  pub value : terms.reward + terms.maker_bond < 2 ^ 63
  pub deadline : terms.deadline < 2 ^ 63
  pub delay : terms.auto_release_delay < 2 ^ 63

-- A condition in the shape that the steps give it, written as a record.
pub iff_by : {P Q R : Type 0} → P ↔ Q → (Q → R) → (R → Q) → P ↔ R
iff_by e f g = (λ p. f (e.0 p), λ r. e.1 (g r))
