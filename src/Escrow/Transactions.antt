-- ===== src/Escrow/Transactions.antt =====
-- krep-escrow/src/tx.rs: the transactions that move an escrow.
pub mod Signed
use k_rep.Base.{
  ℕ, zero, suc, ◌+◌, ◌-◌, ◌≡◌, Bool, true, List, [], ◌∷◌, ◌++◌, map, length, take, drop,
}
use k_rep.Core.Attestation.{Outpoint}
use k_rep.Escrow.Machine.{Instr, op, push_data, push_i64, Output}
use k_rep.Escrow.Script.{Branch, selector}

abbrev pub covenant_sigops : ℕ
covenant_sigops = 4

abbrev pub wallet_sigops : ℕ
wallet_sigops = 1

pub data Unlock (P : Type 0) : Type 0 where
  wallet : Unlock P
  covenant :
      (branch : Branch) (prev_rest prev_payload : List ℕ) (signers : List P) (script : List ℕ)
      → Unlock P

pub record Input (P E : Type 0) : Type 0 where
  pub outpoint : Outpoint
  pub entry : E
  pub unlock : Unlock P

-- A signature script is the list of the builder's calls.
pub record TransactionInput : Type 0 where
  pub previous_outpoint : Outpoint
  pub signature_script : List Instr
  pub sequence : ℕ
  pub sigops : ℕ

pub record Transaction : Type 0 where
  pub inputs : List TransactionInput
  pub outputs : List Output
  pub lock_time : ℕ
  pub payload : List ℕ

-- A transaction without its signature scripts.
abbrev pub blank_input : TransactionInput → TransactionInput
blank_input i = record i { signature_script = [] }

abbrev pub blank : Transaction → Transaction
blank tx = record tx { inputs = map blank_input tx.inputs }

-- Signature hashes, Schnorr signatures and the preimage of a transaction's id, of the kaspa and
-- secp256k1 crates, for key pairs `P` and entries `E` of the UTXO set.
pub record Signing (P E : Type 0) : Type 0 where
  -- `calc_schnorr_signature_hash` for `SIG_HASH_ALL`: signature scripts are no part of it
  pub sighash : Transaction → List E → ℕ → List ℕ
  pub sighash_blank :
      (tx : Transaction) (es : List E) (i : ℕ) → sighash (blank tx) es i ≡ sighash tx es i
  pub sig_hash_all : ℕ
  pub sign_schnorr : List ℕ → P → List ℕ
  -- `transaction_v0_id_preimage`, which ends with the payload
  pub head_bytes : Transaction → List ℕ
  pub id_preimage : Transaction → List ℕ
  pub id_preimage_lem : (tx : Transaction) → id_preimage tx ≡ head_bytes tx ++ tx.payload

unfoldable pub sigops_of : {P : Type 0} → Unlock P → ℕ
sigops_of wallet = wallet_sigops
sigops_of (covenant branch prev_rest prev_payload signers script) = covenant_sigops

module _ {P E : Type 0} where
  -- The inputs of the skeleton, with their scripts.
  unfoldable pub skeleton_inputs : List (Input P E) → List (List Instr) → List TransactionInput
  skeleton_inputs (i ∷ is) (sig ∷ sigs) =
      record {
        previous_outpoint = i.outpoint;
        signature_script = sig;
        sequence = 0;
        sigops = sigops_of i.unlock;
      }
      ∷ skeleton_inputs is sigs
  skeleton_inputs _ _ = []

  unfoldable pub skeleton :
      List (Input P E) → List Output → List ℕ → ℕ → List (List Instr) → Transaction
  skeleton inputs outputs payload lock_time scripts = record {
    inputs = skeleton_inputs inputs scripts;
    outputs = outputs;
    lock_time = lock_time;
    payload = payload;
  }

  abbrev pub no_scripts : List (Input P E) → List (List Instr)
  no_scripts inputs = map (λ i. []) inputs

  module _ ⦃signing : Signing P E⦄ where
    -- The closure `sign`: what is signed is the skeleton with no scripts.
    unfoldable pub sign : Transaction → List E → ℕ → P → List ℕ
    sign empty entries idx k =
        signing.sign_schnorr (signing.sighash empty entries idx) k ++ (signing.sig_hash_all ∷ [])

    -- The `for` loop over the signers, then the state, the selector and the redeem script.
    unfoldable pub unlock_script : Transaction → List E → P → ℕ → Unlock P → List Instr
    unlock_script empty entries pair idx wallet = push_data (sign empty entries idx pair) ∷ []
    unlock_script empty entries pair idx (covenant branch prev_rest prev_payload signers script) =
        map (λ k. push_data (sign empty entries idx k)) signers
        ++ (push_data prev_rest
            ∷ push_data prev_payload
            ∷ push_i64 (selector branch)
            ∷ push_data script
            ∷ [])

    unfoldable pub scripts_from :
        Transaction → List E → P → ℕ → List (Input P E) → List (List Instr)
    scripts_from empty entries pair idx [] = []
    scripts_from empty entries pair idx (i ∷ is) =
        unlock_script empty entries pair idx i.unlock ∷ scripts_from empty entries pair (suc idx) is

    unfoldable pub build : P → List (Input P E) → List Output → List ℕ → ℕ → Transaction
    build pair inputs outputs payload lock_time =
        let empty = skeleton inputs outputs payload lock_time (no_scripts inputs) in
        let entries = map (λ (i : Input P E). i.entry) inputs in
        skeleton inputs outputs payload lock_time (scripts_from empty entries pair 0 inputs)

-- The two halves of a transaction that a spender supplies.
unfoldable pub state_parts : (P E : Type 0) ⦃signing : Signing P E⦄ → Transaction → List ℕ × List ℕ
state_parts P E ⦃signing = signing⦄ tx =
    let preimage = signing.id_preimage tx in
    let split = length preimage - length tx.payload in (take split preimage, drop split preimage)
