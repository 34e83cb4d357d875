-- ===== src/Core/Kaspad/Anchored.antt =====
-- The two answers of the verifier (`is_anchored` and `check_covenant` of krep-core/src/kaspad.rs).
-- The texts of the errors leave out the values they interpolate.
pub mod Cache
pub mod Pushes
pub mod Selected
pub mod Lookups
pub mod Settlements
pub mod Answers
use k_rep.Base.{
  ℕ, zero, suc, ◌+◌, ◌-◌, ◌^◌, Bool, true, false, not, ◌&&◌, Option, none, some, List, [], ◌∷◌,
  ◌++◌, Result, ok, err, String, beq_bytes, if◌then◌else◌, length, leb, ltb, ◌==◌, get_elem?,
  get_range, take, drop, from_le, replicate, then_some,
}
use k_rep.Keys.{XOnly}
use k_rep.Core.Attestation.{Outpoint, CovenantWitness}
use k_rep.Core.Kaspad.{payload_commits}
use k_rep.Core.Kaspad.Node.{Rpc, ScanConfig, AcceptedTx, Verifier}
use k_rep.Core.Kaspad.Scan.{lookup}
use k_rep.Core.Kaspad.Spend.{Spend, settled, unspent, out_of_budget, find_spender}

-- An item of a signature script; an `i64` is written as its two's complement.
pub data PushItem : Type 0 where
  data_item : List ℕ → PushItem
  small_item : ℕ → PushItem

-- `script.get(i..i + len)?` and the bytes after it.
unfoldable pub split_item : ℕ → List ℕ → Option (List ℕ × List ℕ)
split_item n rest = if leb n (length rest) then some (take n rest, drop n rest) else none

unfoldable pub data_of : ℕ → List ℕ → Option (PushItem × List ℕ)
data_of n rest = then_some (split_item n rest) (λ p. some (data_item p.0, p.1))

unfoldable pub sized_data : ℕ → List ℕ → Option (PushItem × List ℕ)
sized_data w rest = then_some (split_item w rest) (λ p. data_of (from_le p.0) p.1)

unfoldable pub read_item : ℕ → List ℕ → Option (PushItem × List ℕ)
read_item op rest =
    if op == 0
    then some (small_item 0, rest)
    else if op == 79
    then some (small_item (2 ^ 64 - 1), rest)
    else if leb 81 op && leb op 96
    then some (small_item (op - 81 + 1), rest)
    else if leb 1 op && leb op 75
    then data_of op rest
    else if op == 76
    then sized_data 1 rest
    else if op == 77
    then sized_data 2 rest
    else if op == 78
    then sized_data 4 rest
    else none

-- The loop on fuel, on what is left of the script: a round takes a byte at least.
unfoldable pub item_loop : ℕ → List ℕ → Option (List PushItem)
item_loop fuel [] = some []
item_loop zero (op ∷ rest) = none
item_loop (suc fuel) (op ∷ rest) =
    then_some (read_item op rest) (λ p. then_some (item_loop fuel p.1) (λ ps. some (p.0 ∷ ps)))

unfoldable pub parse_items : List ℕ → Option (List PushItem)
parse_items script = item_loop (length script) script

-- `items[n - 1] != PushItem::Data(redeem)`
abbrev pub is_data : List ℕ → Option PushItem → Bool
is_data d (some (data_item e)) = beq_bytes e d
is_data d _ = false

-- The `match` on `items[n - 2]`.
unfoldable pub chosen_branch : Option PushItem → Option ℕ
chosen_branch (some (small_item v)) = some v
chosen_branch (some (data_item d)) =
    if leb (length d) 8 then some (from_le (d ++ replicate (8 - length d) 0)) else none
chosen_branch none = none

-- Did the script select the declared branch of the declared covenant?
unfoldable pub took_branch : CovenantWitness → List ℕ → Bool
took_branch witness script = elim (parse_items script) [
  | none ↦ false
  | some items ↦
      let n = length items in
      if ltb n 2
      then false
      else if not (is_data witness.redeem_script (get_elem? items (n - 1)))
      then false
      else elim (chosen_branch (get_elem? items (n - 2))) [
        | none ↦ false
        | some chosen ↦ chosen == witness.branch
      ]
]

abbrev pub committed : Spend → List ℕ → Result String Bool
committed (settled payload script) id = ok (payload_commits payload id)
committed unspent id = ok false
committed (out_of_budget blocks) id = err "could not determine what spent the anchor outpoint"

abbrev pub spk_is : Option (List ℕ) → List ℕ → Bool
spk_is none expected = false
spk_is (some actual) expected = beq_bytes actual expected

abbrev pub took : CovenantWitness → Spend → Bool
took witness (settled payload script) = took_branch witness script
took witness unspent = false
took witness (out_of_budget blocks) = false

module _ (rpc : Rpc) (cfg : ScanConfig) where
  -- Phase 2, once the transaction that made the outpoint is known.
  unfoldable pub spent_by :
      List ℕ → Outpoint → AcceptedTx → Verifier → Result String Bool × Verifier
  spent_by id anchor escrow v =
      if leb escrow.output_count anchor.index
      then (ok false, v)
      else (let r = find_spender rpc cfg anchor escrow.accepting_block v in
          elim r.0 [ err e ↦ (err e, r.1) | ok spend ↦ (committed spend id, r.1) ])

  unfoldable pub is_anchored : List ℕ → Outpoint → Verifier → Result String Bool × Verifier
  is_anchored id anchor v =
      let r = lookup rpc cfg anchor.txid none v in
      elim r.0 [
        | err e ↦ (err e, r.1)
        | ok hit ↦ elim hit [
          | none ↦ (err "the anchor outpoint could not be resolved", r.1)
          | some escrow ↦ spent_by id anchor escrow r.1
        ]
      ]

  -- `script_for` is `pay_to_script_hash_script` of the kaspa crates, serialized.
  module _ {K : Type 0} ⦃key : XOnly K⦄ (script_for : List ℕ → List ℕ) where
    abbrev pub owner_is : Option (List ℕ) → K → Bool
    owner_is none owner = false
    owner_is (some bytes) owner = beq_bytes bytes (key.serialize owner)

    -- The three steps, once the transaction that made the outpoint is known.
    unfoldable pub authorized_by :
        Outpoint → CovenantWitness → K → AcceptedTx → Verifier → Result String Bool × Verifier
    authorized_by anchor witness owner escrow v =
        if not
          (spk_is (get_elem? escrow.output_spks anchor.index) (script_for witness.redeem_script))
        then (ok false, v)
        else if not (
            owner_is (get_range witness.owner_offset (witness.owner_offset + 32) escrow.payload)
              owner)
        then (ok false, v)
        else (let r = find_spender rpc cfg anchor escrow.accepting_block v in
            elim r.0 [ err e ↦ (err e, r.1) | ok spend ↦ (ok (took witness spend), r.1) ])

    unfoldable pub check_covenant :
        Outpoint → CovenantWitness → K → Verifier → Result String Bool × Verifier
    check_covenant anchor witness owner v =
        let r = lookup rpc cfg anchor.txid none v in
        elim r.0 [
          | err e ↦ (err e, r.1)
          | ok hit ↦ elim hit [
            | none ↦ (err "the outpoint of the covenant witness could not be resolved", r.1)
            | some escrow ↦ authorized_by anchor witness owner escrow r.1
          ]
        ]
