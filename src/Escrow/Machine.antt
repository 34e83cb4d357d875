-- ===== src/Escrow/Machine.antt =====
-- The script virtual machine of the kaspa-txscript crate, which krep-escrow/src/script.rs builds
-- code for and which the repository does not hold: a parameter, with the documented behaviour of
-- the opcodes that the covenant uses.
use k_rep.Base.{
  ℕ, zero, suc, ◌+◌, ◌^◌, ◌≡◌, ◌≢◌, ◌<◌, ◌≤◌, Bool, true, false, not, Option, none, some, List, [],
  ◌∷◌, ◌++◌, length, get_elem?, get_range, le_bytes, beq_bytes, ◌==◌, if◌then◌else◌, then_some,
}

pub data Op : Type 0 where
  op_dup op_rot op_swap op_drop op_cat op_substr op_num2bin : Op
  op_equal op_equal_verify op_num_equal op_num_equal_verify op_not op_verify op_add : Op
  op_blake2b_with_key op_check_sig_verify : Op
  op_check_lock_time_verify op_check_sequence_verify : Op
  op_tx_input_index op_outpoint_tx_id op_tx_input_spk op_tx_input_amount : Op
  op_tx_output_spk op_tx_output_amount op_tx_payload_len op_tx_payload_substr op_tx_lock_time : Op
  op_true op_false : Op
  op_if op_else op_end_if : Op

-- One call of the builder: `add_op`, `add_data` or `add_i64`, an i64 as its two's complement.
pub data Instr : Type 0 where
  op : Op → Instr
  push_data : List ℕ → Instr
  push_i64 : ℕ → Instr

-- An output: its serialized script public key and its value.
pub record Output : Type 0 where
  pub spk : List ℕ
  pub amount : ℕ

-- What a script reads of the transaction that runs it, and of the output that it unlocks.
pub record Spend : Type 0 where
  pub payload : List ℕ
  pub lock_time : ℕ
  pub sequence : ℕ
  pub input_index : ℕ
  pub outpoint_tx_id : List ℕ
  pub input_spk : List ℕ
  pub input_amount : ℕ
  pub outputs : List Output

abbrev pub Stack : Type 0
Stack = List (List ℕ)

-- A check: go on, or fail.
abbrev pub require {ℓ} : {A : Type ℓ} → Bool → Option A → Option A
require b k = if b then k else none

-- What an instruction does to the nesting of conditionals.
pub data Nesting : Type 0 where
  plain opens turns closes : Nesting

abbrev pub nesting : Instr → Nesting
nesting (op op_if) = opens
nesting (op op_else) = turns
nesting (op op_end_if) = closes
nesting _ = plain

-- `none` where an `OpElse` or an `OpEndIf` stands outside of any conditional.
abbrev pub nest : Nesting → ℕ → Option ℕ
nest plain d = some d
nest opens d = some (suc d)
nest turns zero = none
nest turns (suc d) = some (suc d)
nest closes zero = none
nest closes (suc d) = some d

-- The nesting after some code, from the nesting before it.
abbrev pub depth_after : ℕ → List Instr → Option ℕ
depth_after d [] = some d
depth_after d (i ∷ c) = then_some (nest (nesting i) d) (λ e. depth_after e c)

-- `exec t code stack` is the stack that the code leaves, its top first, or `none` where it fails.
pub record Vm : Type 0 where
  pub exec : Spend → List Instr → Stack → Option Stack
  -- numbers and Booleans as stack items
  pub number : ℕ → List ℕ
  pub truth : Bool → List ℕ
  pub blake2b_with_key : List ℕ → List ℕ → List ℕ
  pub check_sig : Spend → List ℕ → List ℕ → Bool
  pub lock_time_reached : Spend → ℕ → Bool
  pub sequence_reached : Spend → ℕ → Bool
  -- the longest item that `OpCat` may make
  pub max_element : ℕ
  -- the bytes of two opcodes
  pub op_data_32 : ℕ
  pub op_check_sig : ℕ
  pub room : 64 ≤ max_element
  pub truth_apart : truth true ≢ truth false
  pub lock_time_lem : (t : Spend) (n : ℕ) → lock_time_reached t n ≡ true → n ≤ t.lock_time
  pub done : (t : Spend) (s : Stack) → exec t [] s ≡ some s
  pub data_lem :
      (t : Spend) (d : List ℕ) (c : List Instr) (s : Stack)
      → exec t (push_data d ∷ c) s ≡ exec t c (d ∷ s)
  pub i64_lem :
      (t : Spend) (n : ℕ) (c : List Instr) (s : Stack)
      → exec t (push_i64 n ∷ c) s ≡ exec t c (number n ∷ s)
  pub dup_lem :
      (t : Spend) (c : List Instr) (x : List ℕ) (s : Stack)
      → exec t (op op_dup ∷ c) (x ∷ s) ≡ exec t c (x ∷ x ∷ s)
  pub rot_lem :
      (t : Spend) (c : List Instr) (x y z : List ℕ) (s : Stack)
      → exec t (op op_rot ∷ c) (z ∷ y ∷ x ∷ s) ≡ exec t c (x ∷ z ∷ y ∷ s)
  pub swap_lem :
      (t : Spend) (c : List Instr) (x y : List ℕ) (s : Stack)
      → exec t (op op_swap ∷ c) (y ∷ x ∷ s) ≡ exec t c (x ∷ y ∷ s)
  pub drop_lem :
      (t : Spend) (c : List Instr) (x : List ℕ) (s : Stack)
      → exec t (op op_drop ∷ c) (x ∷ s) ≡ exec t c s
  pub cat_lem :
      (t : Spend) (c : List Instr) (x y : List ℕ) (s : Stack)
      → length x + length y ≤ max_element
      → exec t (op op_cat ∷ c) (y ∷ x ∷ s) ≡ exec t c ((x ++ y) ∷ s)
  pub substr_lem :
      (t : Spend) (c : List Instr) (x : List ℕ) (a b : ℕ) (s : Stack)
      → a ≤ b
      → b < 2 ^ 63
      → exec t (op op_substr ∷ c) (number b ∷ number a ∷ x ∷ s)
        ≡ then_some (get_range a b x) (λ y. exec t c (y ∷ s))
  pub num2bin_lem :
      (t : Spend) (c : List Instr) (n : ℕ) (s : Stack)
      → n < 2 ^ 63
      → exec t (op op_num2bin ∷ c) (number 8 ∷ number n ∷ s) ≡ exec t c (le_bytes 8 n ∷ s)
  pub equal_lem :
      (t : Spend) (c : List Instr) (x y : List ℕ) (s : Stack)
      → exec t (op op_equal ∷ c) (y ∷ x ∷ s) ≡ exec t c (truth (beq_bytes x y) ∷ s)
  pub equal_verify_lem :
      (t : Spend) (c : List Instr) (x y : List ℕ) (s : Stack)
      → exec t (op op_equal_verify ∷ c) (y ∷ x ∷ s) ≡ require (beq_bytes x y) (exec t c s)
  pub num_equal_lem :
      (t : Spend) (c : List Instr) (m n : ℕ) (s : Stack)
      → m < 2 ^ 63
      → n < 2 ^ 63
      → exec t (op op_num_equal ∷ c) (number n ∷ number m ∷ s) ≡ exec t c (truth (m == n) ∷ s)
  pub num_equal_verify_lem :
      (t : Spend) (c : List Instr) (m n : ℕ) (s : Stack)
      → m < 2 ^ 63
      → n < 2 ^ 63
      → exec t (op op_num_equal_verify ∷ c) (number n ∷ number m ∷ s)
        ≡ require (m == n) (exec t c s)
  pub not_lem :
      (t : Spend) (c : List Instr) (b : Bool) (s : Stack)
      → exec t (op op_not ∷ c) (truth b ∷ s) ≡ exec t c (truth (not b) ∷ s)
  pub verify_lem :
      (t : Spend) (c : List Instr) (b : Bool) (s : Stack)
      → exec t (op op_verify ∷ c) (truth b ∷ s) ≡ require b (exec t c s)
  pub add_lem :
      (t : Spend) (c : List Instr) (m n : ℕ) (s : Stack)
      → m + n < 2 ^ 63
      → exec t (op op_add ∷ c) (number n ∷ number m ∷ s) ≡ exec t c (number (m + n) ∷ s)
  pub blake2b_lem :
      (t : Spend) (c : List Instr) (x key : List ℕ) (s : Stack)
      → exec t (op op_blake2b_with_key ∷ c) (key ∷ x ∷ s) ≡ exec t c (blake2b_with_key key x ∷ s)
  pub check_sig_lem :
      (t : Spend) (c : List Instr) (sig key : List ℕ) (s : Stack)
      → exec t (op op_check_sig_verify ∷ c) (key ∷ sig ∷ s)
        ≡ require (check_sig t sig key) (exec t c s)
  pub lock_time_verify_lem :
      (t : Spend) (c : List Instr) (n : ℕ) (s : Stack)
      → n < 2 ^ 63
      → exec t (op op_check_lock_time_verify ∷ c) (number n ∷ s)
        ≡ require (lock_time_reached t n) (exec t c s)
  pub sequence_verify_lem :
      (t : Spend) (c : List Instr) (n : ℕ) (s : Stack)
      → n < 2 ^ 63
      → exec t (op op_check_sequence_verify ∷ c) (number n ∷ s)
        ≡ require (sequence_reached t n) (exec t c s)
  pub input_index_lem :
      (t : Spend) (c : List Instr) (s : Stack)
      → exec t (op op_tx_input_index ∷ c) s ≡ exec t c (number t.input_index ∷ s)
  pub outpoint_lem :
      (t : Spend) (c : List Instr) (s : Stack)
      → exec t (op op_outpoint_tx_id ∷ c) (number t.input_index ∷ s)
        ≡ exec t c (t.outpoint_tx_id ∷ s)
  pub input_spk_lem :
      (t : Spend) (c : List Instr) (s : Stack)
      → exec t (op op_tx_input_spk ∷ c) (number t.input_index ∷ s) ≡ exec t c (t.input_spk ∷ s)
  pub input_amount_lem :
      (t : Spend) (c : List Instr) (s : Stack)
      → t.input_amount < 2 ^ 63
      → exec t (op op_tx_input_amount ∷ c) (number t.input_index ∷ s)
        ≡ exec t c (number t.input_amount ∷ s)
  pub output_spk_lem :
      (t : Spend) (c : List Instr) (s : Stack)
      → exec t (op op_tx_output_spk ∷ c) (number 0 ∷ s)
        ≡ then_some (get_elem? t.outputs 0) (λ o. exec t c (o.spk ∷ s))
  pub output_amount_lem :
      (t : Spend) (c : List Instr) (o : Output) (s : Stack)
      → get_elem? t.outputs 0 ≡ some o
      → o.amount < 2 ^ 63
      → exec t (op op_tx_output_amount ∷ c) (number 0 ∷ s) ≡ exec t c (number o.amount ∷ s)
  pub payload_len_lem :
      (t : Spend) (c : List Instr) (s : Stack)
      → exec t (op op_tx_payload_len ∷ c) s ≡ exec t c (number (length t.payload) ∷ s)
  pub payload_substr_lem :
      (t : Spend) (c : List Instr) (a b : ℕ) (s : Stack)
      → a ≤ b
      → b < 2 ^ 63
      → exec t (op op_tx_payload_substr ∷ c) (number b ∷ number a ∷ s)
        ≡ then_some (get_range a b t.payload) (λ y. exec t c (y ∷ s))
  pub lock_time_of_lem :
      (t : Spend) (c : List Instr) (s : Stack)
      → t.lock_time < 2 ^ 63
      → exec t (op op_tx_lock_time ∷ c) s ≡ exec t c (number t.lock_time ∷ s)
  pub true_lem :
      (t : Spend) (c : List Instr) (s : Stack)
      → exec t (op op_true ∷ c) s ≡ exec t c (truth true ∷ s)
  pub false_lem :
      (t : Spend) (c : List Instr) (s : Stack)
      → exec t (op op_false ∷ c) s ≡ exec t c (truth false ∷ s)
  -- a conditional runs one of its two arms, each of which closes the conditionals it opens
  pub if_lem :
      (t : Spend) (a b c : List Instr) (v : Bool) (s : Stack)
      → depth_after 0 a ≡ some 0
      → depth_after 0 b ≡ some 0
      → exec t (op op_if ∷ (a ++ op op_else ∷ (b ++ op op_end_if ∷ c))) (truth v ∷ s)
        ≡ then_some (if v then exec t a s else exec t b s) (λ s'. exec t c s')

-- A script lets a spend pass where it leaves true, and nothing else.
abbrev pub Accepts : ⦃vm : Vm⦄ → Spend → List Instr → Stack → Type 0
Accepts ⦃vm = vm⦄ t code stack = vm.exec t code stack ≡ some (vm.truth true ∷ [])
