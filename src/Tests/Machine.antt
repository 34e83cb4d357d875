-- ===== src/Tests/Machine.antt =====
-- A small script machine, to run the covenant on concrete spends.
pub mod Conditionals
pub mod Instance
use k_rep.Base.{
  ℕ, zero, suc, ◌+◌, ◌≤◌, ◌≡◌, refl, Bool, true, false, not, ◌&&◌, Option, none, some, List, [],
  ◌∷◌, ◌++◌, length, get_elem?, get_range, le_bytes, beq_bytes, leb, ◌==◌, if◌then◌else◌, then_some,
}
use k_rep.Escrow.Machine.{
  Op, Instr, op, push_data, push_i64, Spend, Stack, Output, require, Nesting, plain, opens, turns,
  closes, nesting, op_dup, op_rot, op_swap, op_drop, op_cat, op_substr, op_num2bin, op_equal,
  op_equal_verify, op_num_equal, op_num_equal_verify, op_not, op_verify, op_add,
  op_blake2b_with_key, op_check_sig_verify, op_check_lock_time_verify, op_check_sequence_verify,
  op_tx_input_index, op_outpoint_tx_id, op_tx_input_spk, op_tx_input_amount, op_tx_output_spk,
  op_tx_output_amount, op_tx_payload_len, op_tx_payload_substr, op_tx_lock_time, op_true, op_false,
}

abbrev pub toy_number : ℕ → List ℕ
toy_number n = n ∷ []

abbrev pub toy_truth : Bool → List ℕ
toy_truth false = 0 ∷ []
toy_truth true = 1 ∷ []

abbrev pub toy_max : ℕ
toy_max = 10000

-- An opcode on the stack. A signature is the key that it is of, and a hash is what is hashed.
abbrev pub act_op : Spend → Op → Stack → Option Stack
act_op t op_dup (x ∷ s) = some (x ∷ x ∷ s)
act_op t op_rot (z ∷ y ∷ x ∷ s) = some (x ∷ z ∷ y ∷ s)
act_op t op_swap (y ∷ x ∷ s) = some (x ∷ y ∷ s)
act_op t op_drop (x ∷ s) = some s
act_op t op_cat (y ∷ x ∷ s) = require (leb (length x + length y) toy_max) (some ((x ++ y) ∷ s))
act_op t op_substr ((b ∷ []) ∷ (a ∷ []) ∷ x ∷ s) = then_some (get_range a b x) (λ y. some (y ∷ s))
act_op t op_num2bin ((w ∷ []) ∷ (n ∷ []) ∷ s) = some (le_bytes w n ∷ s)
act_op t op_equal (y ∷ x ∷ s) = some (toy_truth (beq_bytes x y) ∷ s)
act_op t op_equal_verify (y ∷ x ∷ s) = require (beq_bytes x y) (some s)
act_op t op_num_equal ((n ∷ []) ∷ (m ∷ []) ∷ s) = some (toy_truth (m == n) ∷ s)
act_op t op_num_equal_verify ((n ∷ []) ∷ (m ∷ []) ∷ s) = require (m == n) (some s)
act_op t op_not ((n ∷ []) ∷ s) = some (toy_truth (n == 0) ∷ s)
act_op t op_verify ((n ∷ []) ∷ s) = require (not (n == 0)) (some s)
act_op t op_add ((n ∷ []) ∷ (m ∷ []) ∷ s) = some (toy_number (m + n) ∷ s)
act_op t op_blake2b_with_key (key ∷ x ∷ s) = some (x ∷ s)
act_op t op_check_sig_verify (key ∷ sig ∷ s) = require (beq_bytes sig key) (some s)
act_op t op_check_lock_time_verify ((n ∷ []) ∷ s) = require (leb n t.lock_time) (some s)
act_op t op_check_sequence_verify ((n ∷ []) ∷ s) = require (leb n t.sequence) (some s)
act_op t op_tx_input_index s = some (toy_number t.input_index ∷ s)
act_op t op_outpoint_tx_id (i ∷ s) = some (t.outpoint_tx_id ∷ s)
act_op t op_tx_input_spk (i ∷ s) = some (t.input_spk ∷ s)
act_op t op_tx_input_amount (i ∷ s) = some (toy_number t.input_amount ∷ s)
act_op t op_tx_output_spk ((i ∷ []) ∷ s) = then_some (get_elem? t.outputs i) (λ o. some (o.spk ∷ s))
act_op t op_tx_output_amount ((i ∷ []) ∷ s) =
    then_some (get_elem? t.outputs i) (λ o. some (toy_number o.amount ∷ s))
act_op t op_tx_payload_len s = some (toy_number (length t.payload) ∷ s)
act_op t op_tx_payload_substr ((b ∷ []) ∷ (a ∷ []) ∷ s) =
    then_some (get_range a b t.payload) (λ y. some (y ∷ s))
act_op t op_tx_lock_time s = some (toy_number t.lock_time ∷ s)
act_op t op_true s = some (toy_truth true ∷ s)
act_op t op_false s = some (toy_truth false ∷ s)
act_op t o s = none

abbrev pub act : Spend → Instr → Stack → Option Stack
act t (op o) s = act_op t o s
act t (push_data d) s = some (d ∷ s)
act t (push_i64 n) s = some (toy_number n ∷ s)

-- The conditionals that are open, the innermost first: code runs where all of them hold.
abbrev pub executing : List Bool → Bool
executing [] = true
executing (b ∷ ks) = b && executing ks

abbrev pub Machine : Type 0
Machine = List Bool × Stack

abbrev pub open_if : List Bool → Stack → Option Machine
open_if ks ((n ∷ []) ∷ s) = some (not (n == 0) ∷ ks, s)
open_if ks s = none

abbrev pub tick_by : Nesting → Spend → Instr → List Bool → Stack → Option Machine
tick_by plain t i ks s =
    if executing ks then then_some (act t i s) (λ s'. some (ks, s')) else some (ks, s)
tick_by opens t i ks s = if executing ks then open_if ks s else some (false ∷ ks, s)
tick_by turns t i [] s = none
tick_by turns t i (b ∷ ks) s = some (not b ∷ ks, s)
tick_by closes t i [] s = none
tick_by closes t i (b ∷ ks) s = some (ks, s)

abbrev pub run : Spend → List Instr → List Bool → Stack → Option Machine
run t [] ks s = some (ks, s)
run t (i ∷ c) ks s = then_some (tick_by (nesting i) t i ks s) (λ r. run t c r.0 r.1)

abbrev pub finish : Machine → Option Stack
finish ([], s) = some s
finish (b ∷ ks, s) = none

abbrev pub toy_exec : Spend → List Instr → Stack → Option Stack
toy_exec t c s = then_some (run t c [] s) finish
