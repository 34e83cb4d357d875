-- ===== src/Tests/Anchors.antt =====
-- krep-cli's anchor planner, and the transactions of an escrow, at concrete inputs.
use k_rep.Base.{ℕ, ◌*◌, ◌≡◌, refl, true, false, some, [], ◌∷◌, ok, replicate, beq_bytes, get_elem?}
use k_rep.Cli.Anchor.{
  Utxo, Network, AnchorPlan, build_payload, estimate_mass, is_spendable, insert_by_amount,
  sort_by_amount, remove_pinned, pin, storage_mass, fee_loop, solve_fee, select_loop, plan_of,
  plan_tx,
}
use k_rep.Cli.Anchor.Plans.{IsPlan, plan_tx-IsPlan}
use k_rep.Escrow.Machine.{Spend}
use k_rep.Escrow.Script.{claim, selector}
use k_rep.Escrow.Transactions.{wallet, covenant, Input, TransactionInput, Signing, build, skeleton}
use k_rep.Escrow.Transactions.Signed.{build_spends, built}
use k_rep.Tests.Machine.{toy_number}
use k_rep.Tests.Machine.Instance.{toy_vm}

instance abbrev toy_network : Network ℕ
toy_network = record {
  fee_for = λ mass rate. mass * rate;
  calc_storage_mass = λ selection value. 0;
}

abbrev a_sompi_a_gram : ℕ
a_sompi_a_gram = 1

abbrev small_utxo : Utxo
small_utxo = (
  record { txid = replicate 32 1; index = 0 },
  record { amount = 3000; block_daa_score = 5; is_coinbase = false },
)

abbrev large_utxo : Utxo
large_utxo = (
  record { txid = replicate 32 2; index = 1 },
  record { amount = 100000; block_daa_score = 5; is_coinbase = true },
)

matures : (is_spendable small_utxo.1 15 ≡ true) × (is_spendable large_utxo.1 15 ≡ false)
unfolding is_spendable
matures = (refl, refl)

abbrev small_plan : AnchorPlan
small_plan = plan_of (replicate 32 9) (small_utxo ∷ [], 3000, 1667, 1667)

planned :
    plan_tx (small_utxo ∷ large_utxo ∷ []) (replicate 32 9 ∷ []) a_sompi_a_gram (some small_utxo.0)
    ≡ ok small_plan
unfolding plan_tx build_payload estimate_mass insert_by_amount sort_by_amount remove_pinned pin
    storage_mass fee_loop solve_fee select_loop beq_bytes
planned = refl

plan_tx-IsPlan_example : IsPlan (replicate 32 9 ∷ []) a_sompi_a_gram (some small_utxo.0) small_plan
plan_tx-IsPlan_example =
    plan_tx-IsPlan (small_utxo ∷ large_utxo ∷ []) (replicate 32 9 ∷ []) a_sompi_a_gram
      (some small_utxo.0) small_plan planned

-- A pair is a number, and its signature is the number and what is signed.
instance abbrev toy_signing : Signing ℕ ℕ
toy_signing = record {
  sighash = λ tx es i. tx.payload;
  sighash_blank = λ tx es i. refl;
  sig_hash_all = 1;
  sign_schnorr = λ msg k. k ∷ msg;
  head_bytes = λ tx. tx.lock_time ∷ [];
  id_preimage = λ tx. tx.lock_time ∷ tx.payload;
  id_preimage_lem = λ tx. refl;
}

abbrev claim_input : Input ℕ ℕ
claim_input = record {
  outpoint = small_utxo.0;
  entry = 500;
  unlock = covenant claim (8 ∷ []) (7 ∷ []) (5 ∷ 6 ∷ []) (4 ∷ []);
}

abbrev fee_input : Input ℕ ℕ
fee_input = record { outpoint = large_utxo.0; entry = 3000; unlock = wallet }

abbrev no_spend : Spend
no_spend = record {
  payload = [];
  lock_time = 0;
  sequence = 0;
  input_index = 0;
  outpoint_tx_id = [];
  input_spk = [];
  input_amount = 0;
  outputs = [];
}

build_spends_example :
    (ti : TransactionInput) × (get_elem?
        (built 3 (fee_input ∷ claim_input ∷ []) [] (2 ∷ []) 0).inputs
        1
      ≡ some ti)
    × (ti.previous_outpoint ≡ small_utxo.0)
    × (toy_vm.exec no_spend ti.signature_script []
        ≡ some (
            (4 ∷ [])
            ∷ toy_number (selector claim)
            ∷ (7 ∷ [])
            ∷ (8 ∷ [])
            ∷ (6 ∷ 2 ∷ 1 ∷ [])
            ∷ (5 ∷ 2 ∷ 1 ∷ [])
            ∷ []))
unfolding build skeleton
build_spends_example =
    build_spends no_spend 3 (fee_input ∷ claim_input ∷ []) [] (2 ∷ []) 0 1 claim_input claim
      (8 ∷ []) (7 ∷ []) (5 ∷ 6 ∷ []) (4 ∷ []) refl refl
