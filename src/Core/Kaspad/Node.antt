-- ===== src/Core/Kaspad/Node.antt =====
-- What the RPC interface of a kaspad node answers, as far as the verifier reads it, and the state
-- of the verifier (krep-core/src/kaspad.rs). The node is a parameter: it gives one answer to one
-- question while the verifier works.
use k_rep.Base.{
  ℕ, ◌≡◌, Bool, true, false, Option, none, some, List, [], ◌∷◌, Result, String, beq_bytes,
  if◌then◌else◌, get_elem?,
}

pub record Input : Type 0 where
  pub transaction_id : List ℕ
  pub index : ℕ
  pub signature_script : List ℕ

-- `verbose_id` is the transaction id of the verbose data, `outputs` the serialized script public
-- keys of the outputs.
pub record Transaction : Type 0 where
  pub verbose_id : Option (List ℕ)
  pub payload : List ℕ
  pub outputs : List (List ℕ)
  pub inputs : List Input

pub record Verbose : Type 0 where
  pub transaction_ids : List (List ℕ)
  pub merge_set_blues : List (List ℕ)
  pub merge_set_reds : List (List ℕ)
  pub selected_parent : List ℕ

pub record Block : Type 0 where
  pub verbose_data : Option Verbose
  pub transactions : List Transaction

pub record Accepted : Type 0 where
  pub accepting_block_hash : List ℕ
  pub accepted_transaction_ids : List (List ℕ)

pub record Batch : Type 0 where
  pub accepted : List Accepted
  pub added_chain_block_hashes : List (List ℕ)

pub record Blocks : Type 0 where
  pub block_hashes : List (List ℕ)
  pub blocks : List Block

pub record Rpc : Type 0 where
  pub pruning_point_hash : Result String (List ℕ)
  pub get_virtual_chain_from_block : List ℕ → Option ℕ → Result String Batch
  pub get_block : List ℕ → Bool → Result String Block
  pub get_blocks : List ℕ → Result String Blocks

pub record ScanConfig : Type 0 where
  pub scan_from : Option (List ℕ)
  pub max_batches : ℕ
  pub min_confirmations : ℕ
  pub max_spend_scan_blocks : ℕ

pub record AcceptedTx : Type 0 where
  pub payload : List ℕ
  pub output_count : ℕ
  pub output_spks : List (List ℕ)
  pub accepting_block : List ℕ

pub record ScanOutcome : Type 0 where
  pub batches : ℕ
  pub reached_tip : Bool

pub record Verifier : Type 0 where
  pub resolved : List (List ℕ × Option AcceptedTx)
  pub last_scan : Option ScanOutcome

abbrev pub has : List ℕ → List (List ℕ) → Bool
has x [] = false
has x (y ∷ ys) = if beq_bytes x y then true else has x ys

-- `HashMap::get`, of a map whose entries stand newest first.
abbrev pub find {ℓ} : {A : Type ℓ} → List ℕ → List (List ℕ × A) → Option A
find key [] = none
find key (e ∷ es) = if beq_bytes key e.0 then some e.1 else find key es

-- `HashSet::remove`
abbrev pub remove : List ℕ → List (List ℕ) → List (List ℕ)
remove x [] = []
remove x (y ∷ ys) = if beq_bytes x y then remove x ys else y ∷ remove x ys

abbrev pub keep {ℓ} : {A : Type ℓ} → (A → Bool) → List A → List A
keep f [] = []
keep f (x ∷ xs) = let rest = keep f xs in if f x then x ∷ rest else rest

-- The element stands in the list.
abbrev pub IsIn {ℓ} : {A : Type ℓ} → A → List A → Type ℓ
IsIn x l = (i : ℕ) × (get_elem? l i ≡ some x)
