-- ===== src/Escrow/Script/Checks.antt =====
-- What the shared sequences of the covenant (krep-escrow/src/script.rs) check, on any stack.
use k_rep.Base.{
  ℕ, ◌+◌, ◌^◌, ◌≡◌, ◌<◌, ◌≤◌, refl, Bool, false, ◌&&◌, ◌∙◌, Option, none, some, List, [], ◌∷◌, ◌++◌,
  length, get_range, replicate, not, beq_bytes, ◌==◌, then_some, arith,
}
use k_rep.Escrow.State.{off_phase, off_terms, Phase, byte}
use k_rep.Escrow.Machine.{
  Instr, op, push_data, Vm, Spend, Stack, Output, require, op_equal_verify, op_dup,
}
use k_rep.Escrow.Script.{
  tx_id_key, verify_prev_state, new_field, old_field, require_new_field, require_prev_phase_and_job,
  require_payload_len, require_nonzero_field, require_signature, p2pk_spk_prefix,
}

module _ ⦃vm : Vm⦄ (t : Spend) (c : List Instr) (s : Stack) where
  pub exec-verify_prev_state :
      (rest payload : List ℕ)
      → length rest + length payload ≤ vm.max_element
      → vm.exec t (verify_prev_state ++ c) (payload ∷ rest ∷ s)
        ≡ require
            (beq_bytes (vm.blake2b_with_key tx_id_key (rest ++ payload)) t.outpoint_tx_id)
            (vm.exec t c (payload ∷ s))
  unfolding verify_prev_state
  exec-verify_prev_state rest payload h = rw (
    vm.dup_lem,
    vm.rot_lem,
    vm.rot_lem,
    vm.cat_lem t _ rest payload _ h,
    vm.data_lem,
    vm.blake2b_lem,
    vm.input_index_lem,
    vm.outpoint_lem,
    vm.equal_verify_lem,
  )

  pub exec-old_field :
      (a b : ℕ) (x : List ℕ)
      → a ≤ b
      → b < 2 ^ 63
      → vm.exec t (old_field a b ++ c) (x ∷ s)
        ≡ then_some (get_range a b x) (λ y. vm.exec t c (y ∷ s))
  exec-old_field a b x h l = rw (vm.i64_lem, vm.i64_lem, vm.substr_lem t _ x a b _ h l)

  pub exec-new_field :
      (a b : ℕ)
      → a ≤ b
      → b < 2 ^ 63
      → vm.exec t (new_field a b ++ c) s
        ≡ then_some (get_range a b t.payload) (λ y. vm.exec t c (y ∷ s))
  exec-new_field a b h l = rw (vm.i64_lem, vm.i64_lem, vm.payload_substr_lem t _ a b _ h l)

-- Tests on what a lookup found.
abbrev pub is_field : Option (List ℕ) → List ℕ → Bool
is_field none want = false
is_field (some y) want = beq_bytes y want

abbrev pub is_nonzero : Option (List ℕ) → Bool
is_nonzero none = false
is_nonzero (some y) = not (beq_bytes y (replicate 32 0))

-- The script of an output that pays a key.
abbrev pub p2pk_spk : ⦃vm : Vm⦄ → List ℕ → List ℕ
p2pk_spk ⦃vm = vm⦄ pk = (p2pk_spk_prefix ++ pk) ++ (vm.op_check_sig ∷ [])

abbrev pub pays : ⦃vm : Vm⦄ → Option Output → List ℕ → ℕ → Bool
pays ⦃vm = vm⦄ none pk amount = false
pays ⦃vm = vm⦄ (some o) pk amount = beq_bytes (p2pk_spk pk) o.spk && o.amount == amount

require-is_field :
    (o : Option (List ℕ)) (want : List ℕ) (k : Option Stack)
    → then_some o (λ y. require (beq_bytes y want) k) ≡ require (is_field o want) k
require-is_field none want k = refl
require-is_field (some y) want k = refl

require-is_nonzero :
    (o : Option (List ℕ)) (k : Option Stack)
    → then_some o (λ y. require (not (beq_bytes y (replicate 32 0))) k) ≡ require (is_nonzero o) k
require-is_nonzero none k = refl
require-is_nonzero (some y) k = refl

module _ ⦃vm : Vm⦄ (t : Spend) (c : List Instr) (s : Stack) where
  pub exec-require_new_field :
      (a b : ℕ) (want : List ℕ)
      → a ≤ b
      → b < 2 ^ 63
      → vm.exec t (require_new_field a b want ++ c) s
        ≡ require (is_field (get_range a b t.payload) want) (vm.exec t c s)
  unfolding require_new_field
  exec-require_new_field a b want h l =
      exec-new_field t (push_data want ∷ op op_equal_verify ∷ c) s a b h l
      ∙ simp (vm.data_lem, vm.equal_verify_lem, require-is_field)

  pub exec-require_nonzero_field :
      (a b : ℕ)
      → a ≤ b
      → b < 2 ^ 63
      → vm.exec t (require_nonzero_field a b ++ c) s
        ≡ require (is_nonzero (get_range a b t.payload)) (vm.exec t c s)
  exec-require_nonzero_field a b h l =
      exec-new_field t _ s a b h l
      ∙ simp (vm.data_lem, vm.equal_lem, vm.not_lem, vm.verify_lem, require-is_nonzero)

  pub exec-require_payload_len :
      (n : ℕ)
      → n < 2 ^ 63
      → length t.payload < 2 ^ 63
      → vm.exec t (require_payload_len n ++ c) s ≡ require (length t.payload == n) (vm.exec t c s)
  exec-require_payload_len n h l =
      rw (vm.payload_len_lem, vm.i64_lem, vm.num_equal_verify_lem t c (length t.payload) n s l h)

  pub exec-require_signature :
      (sig key : List ℕ)
      → vm.exec t (require_signature key ++ c) (sig ∷ s)
        ≡ require (vm.check_sig t sig key) (vm.exec t c s)
  exec-require_signature sig key = rw (vm.data_lem, vm.check_sig_lem)

  -- A field of the item on top is compared, and the item stays.
  exec-require-old_field :
      (a b : ℕ) (want x : List ℕ)
      → a ≤ b
      → b < 2 ^ 63
      → vm.exec t (op op_dup ∷ old_field a b ++ (push_data want ∷ op op_equal_verify ∷ c)) (x ∷ s)
        ≡ require (is_field (get_range a b x) want) (vm.exec t c (x ∷ s))
  exec-require-old_field a b want x h l = simp (
    vm.dup_lem,
    exec-old_field t _ (x ∷ s) a b x h l,
    vm.data_lem,
    vm.equal_verify_lem,
    require-is_field,
  )

module _ ⦃vm : Vm⦄ (t : Spend) (c : List Instr) (s : Stack) where
  pub exec-require_prev :
      (phase : Phase) (id payload : List ℕ)
      → vm.exec t (require_prev_phase_and_job phase id ++ c) (payload ∷ s)
        ≡ require (is_field (get_range off_phase (off_phase + 1) payload) (byte phase ∷ [])) (
            require
              (is_field (get_range off_terms (off_terms + 32) payload) id)
              (vm.exec t c (payload ∷ s)))
  unfolding require_prev_phase_and_job
  exec-require_prev phase id payload = rw (
    exec-require-old_field t _ s off_phase (off_phase + 1) (byte phase ∷ []) payload (omega arith)
        (omega arith),
    exec-require-old_field t c s off_terms (off_terms + 32) id payload (omega arith) (omega arith),
  )
