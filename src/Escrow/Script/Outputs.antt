-- ===== src/Escrow/Script/Outputs.antt =====
-- What the covenant (krep-escrow/src/script.rs) checks of the first output.
use k_rep.Base.{
  ℕ, ◌+◌, ◌^◌, ◌≡◌, ◌<◌, ◌≤◌, refl, Bool, true, false, ◌&&◌, ◌∙◌, Option, none, some, List, [], ◌∷◌,
  ◌++◌, length, length-append, get_elem?, beq_bytes, ◌==◌, then_some, arith,
}
use k_rep.Escrow.Machine.{
  Instr, op, push_i64, Vm, Spend, Stack, Output, require, op_equal_verify, op_tx_output_amount,
  op_num_equal_verify,
}
use k_rep.Escrow.Script.{require_same_covenant, amounts, p2pk_spk_prefix, require_p2pk_output}
use k_rep.Escrow.Script.Checks.{pays, p2pk_spk}

then_some-congr :
    {A : Type 0} (o : Option A) (f g : A → Option Stack)
    → ((a : A) → o ≡ some a → f a ≡ g a)
    → then_some o f ≡ then_some o g
then_some-congr none f g h = refl
then_some-congr (some a) f g h = h a refl

length-p2pk_spk_prefix : ⦃vm : Vm⦄ → length p2pk_spk_prefix ≡ 3
unfolding p2pk_spk_prefix
length-p2pk_spk_prefix = refl

require_and : (a b : Bool) (k : Option Stack) → require a (require b k) ≡ require (a && b) k
require_and true b k = refl
require_and false b k = refl

require-pays :
    ⦃vm : Vm⦄ (o : Option Output) (pk : List ℕ) (amount : ℕ) (k : Option Stack)
    → then_some o
        (λ out. require (beq_bytes (p2pk_spk pk) out.spk) (require (out.amount == amount) k))
      ≡ require (pays o pk amount) k
require-pays none pk amount k = refl
require-pays (some o) pk amount k =
    require_and (beq_bytes (p2pk_spk pk) o.spk) (o.amount == amount) k

-- The values that are pushed as numbers of the machine.
pub record InRange (t : Spend) : Type 0 where
  pub input_amount : t.input_amount < 2 ^ 63
  pub output_amount : (o : Output) → get_elem? t.outputs 0 ≡ some o → o.amount < 2 ^ 63
  pub payload : length t.payload < 2 ^ 63
  pub lock_time : t.lock_time < 2 ^ 63

module _ ⦃vm : Vm⦄ (t : Spend) (c : List Instr) (s : Stack) (fits : InRange t) where
  -- The output at 0 keeps the script, and its value and the one that is spent are pushed.
  pub exec-continue :
      vm.exec t (require_same_covenant ++ (amounts ++ c)) s
      ≡ then_some (get_elem? t.outputs 0) (λ o.
        require
          (beq_bytes t.input_spk o.spk)
          (vm.exec t c (vm.number t.input_amount ∷ vm.number o.amount ∷ s)))
  exec-continue =
      rw (vm.input_index_lem, vm.input_spk_lem, vm.i64_lem, vm.output_spk_lem)
        (then_some-congr (get_elem? t.outputs 0) _ _ values)
    where
      values :
          (o : Output)
          → get_elem? t.outputs 0 ≡ some o
          → vm.exec t (op op_equal_verify ∷ (amounts ++ c)) (o.spk ∷ t.input_spk ∷ s)
            ≡ require
                (beq_bytes t.input_spk o.spk)
                (vm.exec t c (vm.number t.input_amount ∷ vm.number o.amount ∷ s))
      values o e = rw (
        vm.equal_verify_lem,
        vm.i64_lem,
        vm.output_amount_lem t _ o s e (fits.output_amount o e),
        vm.input_index_lem,
        vm.input_amount_lem t c _ fits.input_amount,
      )

  pub exec-require_p2pk_output :
      (pk : List ℕ) (amount : ℕ)
      → length pk ≡ 32
      → amount < 2 ^ 63
      → vm.exec t (require_p2pk_output 0 amount ++ c) (pk ∷ s)
        ≡ require (pays (get_elem? t.outputs 0) pk amount) (vm.exec t c s)
  unfolding require_p2pk_output
  exec-require_p2pk_output pk amount hk h =
      rw
        (
          vm.data_lem,
          vm.swap_lem,
          vm.cat_lem t _ p2pk_spk_prefix pk s room₁,
          vm.data_lem,
          vm.cat_lem t _ (p2pk_spk_prefix ++ pk) (vm.op_check_sig ∷ []) s room₂,
          vm.i64_lem,
          vm.output_spk_lem,
        )
        (then_some-congr (get_elem? t.outputs 0) _ _ values
          ∙ require-pays (get_elem? t.outputs 0) pk amount (vm.exec t c s))
    where
      room₁ : length p2pk_spk_prefix + length pk ≤ vm.max_element
      room₁ = omega (arith, length-p2pk_spk_prefix, vm.room)

      room₂ : length (p2pk_spk_prefix ++ pk) + length (vm.op_check_sig ∷ []) ≤ vm.max_element
      room₂ = omega (arith, length-p2pk_spk_prefix, vm.room, length-append p2pk_spk_prefix pk)

      values :
          (o : Output)
          → get_elem? t.outputs 0 ≡ some o
          → vm.exec t
              (op op_equal_verify
                ∷ push_i64 0
                ∷ op op_tx_output_amount
                ∷ push_i64 amount
                ∷ op op_num_equal_verify
                ∷ c)
              (o.spk ∷ p2pk_spk pk ∷ s)
            ≡ require (beq_bytes (p2pk_spk pk) o.spk) (require (o.amount == amount) (vm.exec t c s))
      values o e = rw (
        vm.equal_verify_lem,
        vm.i64_lem,
        vm.output_amount_lem t _ o s e (fits.output_amount o e),
        vm.i64_lem,
        vm.num_equal_verify_lem t c o.amount amount s (fits.output_amount o e) h,
      )
