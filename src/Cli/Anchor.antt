-- ===== src/Cli/Anchor.antt =====
-- krep-cli/src/anchor.rs: the transaction that commits attestation ids, its inputs and its fee.
pub mod Fees
pub mod Plans
use k_rep.Base.{
  ℕ, zero, suc, ◌+◌, ◌-◌, ◌*◌, ◌^◌, ◌≡◌, ◌≤◌, max, min, Bool, true, false, Option, none, some, List,
  [], ◌∷◌, ◌++◌, map, length, take, reverse, leb, ◌==◌, beq_bytes, ◌&&◌, if◌then◌else◌, String,
  Result, ok, err, ◌>>=◌, ok_or, then_some,
}
use k_rep.Core.Attestation.{Outpoint}

abbrev pub max_inputs : ℕ
max_inputs = 8

abbrev pub coinbase_maturity : ℕ
coinbase_maturity = 1000

abbrev pub utxo_min_confirmations : ℕ
utxo_min_confirmations = 10

-- What the code reads of an entry of the UTXO set.
pub record UtxoEntry : Type 0 where
  pub amount : ℕ
  pub block_daa_score : ℕ
  pub is_coinbase : Bool

abbrev pub Utxo : Type 0
Utxo = Outpoint × UtxoEntry

-- The floating-point fee rate `R`, and KIP-9 storage mass
-- (`calc_storage_mass`), of the standard library and the kaspa crates.
pub record Network (R : Type 0) : Type 0 where
  -- `(mass as f64 * feerate).ceil() as u64`
  pub fee_for : ℕ → R → ℕ
  -- for a selection and the value that is paid out; `u64::MAX` where it fails
  pub calc_storage_mass : List Utxo → ℕ → ℕ

-- `if let Some(found) = o { return f(found); }`
abbrev pub if_let {ℓ κ} : {A : Type ℓ} {B : Type κ} → Option A → (A → B) → B → B
if_let none f rest = rest
if_let (some a) f rest = f a

-- Concatenated attestation ids, one or two of them.
unfoldable pub build_payload : List (List ℕ) → Result String (List ℕ)
build_payload [] = err "anchor needs at least one attestation id"
build_payload (a ∷ []) = ok a
build_payload (a ∷ b ∷ []) = ok (a ++ b)
build_payload (a ∷ b ∷ c ∷ ids) = err "anchor commits at most two ids"

-- The compute mass, and the serialized size.
unfoldable pub estimate_mass : ℕ → ℕ → ℕ → ℕ × ℕ
estimate_mass num_inputs num_outputs payload_len =
    let serialized_bytes = 94 + 118 * num_inputs + 53 * num_outputs + payload_len in
    (serialized_bytes + 1000 * num_inputs + 370 * num_outputs, serialized_bytes)

unfoldable pub is_spendable : UtxoEntry → ℕ → Bool
is_spendable entry virtual_daa_score =
    let needed = if entry.is_coinbase then coinbase_maturity else utxo_min_confirmations in
    leb (min (entry.block_daa_score + needed) (2 ^ 64 - 1)) virtual_daa_score

-- The stable sort by decreasing amount.
unfoldable pub insert_by_amount : Utxo → List Utxo → List Utxo
insert_by_amount u [] = u ∷ []
insert_by_amount u (v ∷ vs) =
    let rest = insert_by_amount u vs in
    if leb (v.1).amount (u.1).amount then u ∷ v ∷ vs else v ∷ rest

unfoldable pub sort_by_amount : List Utxo → List Utxo
sort_by_amount [] = []
sort_by_amount (u ∷ us) = insert_by_amount u (sort_by_amount us)

abbrev pub same_outpoint : Outpoint → Outpoint → Bool
same_outpoint a b = beq_bytes a.txid b.txid && a.index == b.index

-- `position` and `remove`: the pinned outpoint, and the others in order.
unfoldable pub remove_pinned : Outpoint → List Utxo → Option (Utxo × List Utxo)
remove_pinned pinned [] = none
remove_pinned pinned (u ∷ us) =
    let rest = remove_pinned pinned us in
    if same_outpoint u.0 pinned then some (u, us) else then_some rest (λ r. some (r.0, u ∷ r.1))

unfoldable pub pin : Option Outpoint → List Utxo → Result String (List Utxo)
pin none utxos = ok utxos
pin (some pinned) utxos =
    ok_or (remove_pinned pinned utxos) "not a spendable UTXO" >>= λ r. ok (r.0 ∷ r.1)

unfoldable pub storage_mass : (R : Type 0) ⦃network : Network R⦄ → List Utxo → ℕ → ℕ
storage_mass R ⦃network = network⦄ selection out_value =
    if out_value == 0 then 2 ^ 64 - 1 else network.calc_storage_mass selection out_value

module _ {R : Type 0} ⦃network : Network R⦄ where
  -- The passes of the loop that are left.
  unfoldable pub fee_loop : ℕ → List Utxo → ℕ → ℕ → R → ℕ → Option (ℕ × ℕ)
  fee_loop zero selection total_in non_storage feerate mass = none
  fee_loop (suc fuel) selection total_in non_storage feerate mass =
      let fee = network.fee_for mass feerate in
      let next = max non_storage (storage_mass R selection (total_in - fee)) in
      let rest = fee_loop fuel selection total_in non_storage feerate next in
      if leb total_in fee then none else if next == mass then some (fee, mass) else rest

  unfoldable pub solve_fee : List Utxo → ℕ → ℕ → R → Option (ℕ × ℕ)
  solve_fee selection total_in payload_len feerate =
      let (compute_mass, serialized_bytes) = estimate_mass (length selection) 1 payload_len in
      let non_storage = max compute_mass (serialized_bytes * 2) in
      fee_loop 4 selection total_in non_storage feerate non_storage

  -- The selection so far, newest last, its total, and the fee and mass once it pays for itself.
  unfoldable pub select_loop : List Utxo → List Utxo → ℕ → ℕ → R → Option (List Utxo × ℕ × ℕ × ℕ)
  select_loop [] selected total_in payload_len feerate = none
  select_loop (u ∷ us) selected total_in payload_len feerate =
      let total = total_in + (u.1).amount in
      let now = selected ++ (u ∷ []) in
      let rest = select_loop us now total payload_len feerate in
      if_let (solve_fee now total payload_len feerate)
        (λ found. some (now, total, found.0, found.1)) rest

-- The plan before it is signed.
pub record AnchorPlan : Type 0 where
  pub inputs : List Outpoint
  pub entries : List UtxoEntry
  pub payload : List ℕ
  pub input_count : ℕ
  pub total_in : ℕ
  pub out_value : ℕ
  pub fee : ℕ
  pub mass : ℕ

-- The `Ok` of `plan_tx`, from the payload, and the selection, its total, the fee and the mass.
abbrev pub plan_of : List ℕ → List Utxo × ℕ × ℕ × ℕ → AnchorPlan
plan_of payload (selected, total_in, fee, mass) = record {
  inputs = map (λ (u : Utxo). u.0) selected;
  entries = map (λ (u : Utxo). u.1) selected;
  payload = payload;
  input_count = length selected;
  total_in = total_in;
  out_value = total_in - fee;
  fee = fee;
  mass = mass;
}

unfoldable pub plan_tx :
    {R : Type 0} ⦃network : Network R⦄
    → List Utxo
    → List (List ℕ)
    → R
    → Option Outpoint
    → Result String AnchorPlan
plan_tx utxos ids feerate must_spend = do
  payload ← build_payload ids
  pinned ← pin must_spend (sort_by_amount utxos)
  solved ←
      ok_or (select_loop (take max_inputs pinned) [] 0 (length payload) feerate)
        "insufficient funds"
  ok (plan_of payload solved)
