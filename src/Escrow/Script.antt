-- ===== src/Escrow/Script.antt =====
-- krep-escrow/src/script.rs: the covenant, one branch for each transition. A script is the list of
-- the builder's calls.
pub mod Branches
pub mod Checks
pub mod Outputs
pub mod Rules
pub mod Accepts
pub mod Fields
pub mod Moves
pub mod Payouts
pub mod Dispatch
pub mod Covenant
pub mod Transitions
use k_rep.Base.{ℕ, ◌+◌, ◌-◌, Option, none, some, List, [], ◌∷◌, ◌++◌, replicate, map, then_some}
use k_rep.Keys.{XOnly}
use k_rep.Core.Attestation.{Crypto}
use k_rep.Escrow.State.{
  state_bytes, magic, version, off_phase, off_terms, off_maker, off_maker_rep, off_tracking,
  off_shipped_at, Phase, opened, claimed, shipped, disputed, byte,
}
use k_rep.Escrow.Terms.{Terms, terms_id, claimed_value}
use k_rep.Escrow.Machine.{
  Op, Instr, op, push_data, push_i64, Vm, op_dup, op_rot, op_swap, op_drop, op_cat, op_substr,
  op_num2bin, op_equal, op_equal_verify, op_num_equal, op_num_equal_verify, op_not, op_verify,
  op_add, op_blake2b_with_key, op_check_sig_verify, op_check_lock_time_verify,
  op_check_sequence_verify, op_tx_input_index, op_outpoint_tx_id, op_tx_input_spk,
  op_tx_input_amount, op_tx_output_spk, op_tx_output_amount, op_tx_payload_len,
  op_tx_payload_substr, op_tx_lock_time, op_true, op_false, op_if, op_else, op_end_if,
}

-- `b"TransactionID"`
abbrev pub tx_id_key : List ℕ
tx_id_key =
    b'T' ∷ b'r' ∷ b'a' ∷ b'n' ∷ b's' ∷ b'a' ∷ b'c' ∷ b't' ∷ b'i' ∷ b'o' ∷ b'n' ∷ b'I' ∷ b'D' ∷ []

abbrev pub terminal_payload_bytes : ℕ
terminal_payload_bytes = 64

unfoldable pub verify_prev_state : List Instr
verify_prev_state =
    op op_dup
    ∷ op op_rot
    ∷ op op_rot
    ∷ op op_cat
    ∷ push_data tx_id_key
    ∷ op op_blake2b_with_key
    ∷ op op_tx_input_index
    ∷ op op_outpoint_tx_id
    ∷ op op_equal_verify
    ∷ []

-- `payload[start..end]` of the spending transaction, pushed: the three calls that several branches
-- write out.
abbrev pub new_field : ℕ → ℕ → List Instr
new_field start stop = push_i64 start ∷ push_i64 stop ∷ op op_tx_payload_substr ∷ []

-- The same of the item on top of the stack.
abbrev pub old_field : ℕ → ℕ → List Instr
old_field start stop = push_i64 start ∷ push_i64 stop ∷ op op_substr ∷ []

unfoldable pub require_new_field : ℕ → ℕ → List ℕ → List Instr
require_new_field start stop want =
    new_field start stop ++ (push_data want ∷ op op_equal_verify ∷ [])

unfoldable pub require_prev_phase_and_job : Phase → List ℕ → List Instr
require_prev_phase_and_job phase id =
    op op_dup ∷ old_field off_phase (off_phase + 1)
    ++ (push_data (byte phase ∷ [])
          ∷ op op_equal_verify
          ∷ op op_dup
          ∷ old_field off_terms (off_terms + 32)
        ++ (push_data id ∷ op op_equal_verify ∷ []))

unfoldable pub header_for : Phase → List ℕ
header_for phase = magic ++ (version ∷ byte phase ∷ [])

-- `add_op(OpTxPayloadLen).add_i64(n).add_op(OpNumEqualVerify)`
abbrev pub require_payload_len : ℕ → List Instr
require_payload_len n = op op_tx_payload_len ∷ push_i64 n ∷ op op_num_equal_verify ∷ []

-- A field of the new state is not zeros.
abbrev pub require_nonzero_field : ℕ → ℕ → List Instr
require_nonzero_field start stop =
    new_field start stop
    ++ (push_data (replicate 32 0) ∷ op op_equal ∷ op op_not ∷ op op_verify ∷ [])

-- The output at 0 has the script that is being unlocked.
abbrev pub require_same_covenant : List Instr
require_same_covenant =
    op op_tx_input_index
    ∷ op op_tx_input_spk
    ∷ push_i64 0
    ∷ op op_tx_output_spk
    ∷ op op_equal_verify
    ∷ []

-- Its value, and the value that is being spent.
abbrev pub amounts : List Instr
amounts = push_i64 0 ∷ op op_tx_output_amount ∷ op op_tx_input_index ∷ op op_tx_input_amount ∷ []

-- `add_data(key).add_op(OpCheckSigVerify)`
abbrev pub require_signature : List ℕ → List Instr
require_signature key = push_data key ∷ op op_check_sig_verify ∷ []

unfoldable pub p2pk_spk_prefix : ⦃vm : Vm⦄ → List ℕ
p2pk_spk_prefix ⦃vm = vm⦄ = 0 ∷ 0 ∷ vm.op_data_32 ∷ []

unfoldable pub require_p2pk_output : ⦃vm : Vm⦄ → ℕ → ℕ → List Instr
require_p2pk_output ⦃vm = vm⦄ idx amount =
    push_data (p2pk_spk_prefix ⦃vm = vm⦄)
    ∷ op op_swap
    ∷ op op_cat
    ∷ push_data (vm.op_check_sig ∷ [])
    ∷ op op_cat
    ∷ push_i64 idx
    ∷ op op_tx_output_spk
    ∷ op op_equal_verify
    ∷ push_i64 idx
    ∷ op op_tx_output_amount
    ∷ push_i64 amount
    ∷ op op_num_equal_verify
    ∷ []

pub data Resolution : Type 0 where
  to_maker to_buyer : Resolution

pub data Branch : Type 0 where
  claim ship settle auto_release dispute resolve_to_maker resolve_to_buyer slash refund : Branch

unfoldable pub selector : Branch → ℕ
selector claim = 0
selector ship = 1
selector settle = 2
selector auto_release = 3
selector dispute = 4
selector resolve_to_maker = 5
selector resolve_to_buyer = 6
selector slash = 7
selector refund = 8
