-- ===== src/Core/Kaspad/Spend.antt =====
-- The search for the transaction that spends an anchor (`find_spender` of krep-core/src/kaspad.rs).
use k_rep.Base.{
  ℕ, zero, suc, ◌+◌, Bool, true, false, not, ◌&&◌, Option, none, some, List, [], ◌∷◌, Result, ok,
  err, String, beq_bytes, if◌then◌else◌, length, ltb, ◌==◌, any,
}
use k_rep.Core.Attestation.{Outpoint}
use k_rep.Core.Kaspad.Node.{Input, Transaction, Verbose, Block, Rpc, ScanConfig, Verifier, has}
use k_rep.Core.Kaspad.Scan.{lookup, is_nil, last}

pub data Spend : Type 0 where
  settled : List ℕ → List ℕ → Spend
  unspent : Spend
  out_of_budget : ℕ → Spend

abbrev pub spends : Outpoint → Input → Bool
spends anchor input = beq_bytes input.transaction_id anchor.txid && (input.index == anchor.index)

-- The signature script of the input that spends the anchor, `unwrap_or_default`.
unfoldable pub script_of : Outpoint → List Input → List ℕ
script_of anchor [] = []
script_of anchor (i ∷ is) =
    let rest = script_of anchor is in if spends anchor i then i.signature_script else rest

-- The state of the search: the verifier, and the transactions already seen.
pub record Search : Type 0 where
  pub verifier : Verifier
  pub seen : List (List ℕ)

module _ (rpc : Rpc) (cfg : ScanConfig) (anchor : Outpoint) (from : List ℕ) where
  -- `for tx in &block.transactions`: a spend where one was accepted.
  unfoldable pub search_txs : List Transaction → Search → Result String (Option Spend) × Search
  search_txs [] s = (ok none, s)
  search_txs (tx ∷ txs) s =
      if not (any (spends anchor) tx.inputs) then search_txs txs s else elim tx.verbose_id [
        | none ↦ search_txs txs s
        | some txid ↦
            if has txid s.seen
            then search_txs txs s
            else (let r = lookup rpc cfg txid (some from) s.verifier in
                let s' : Search = record { verifier = r.1; seen = txid ∷ s.seen } in
                elim r.0 [
                  | err e ↦ (err e, s')
                  | ok hit ↦ elim hit [
                    | some accepted ↦
                        (ok (some (settled accepted.payload (script_of anchor tx.inputs))), s')
                    | none ↦ search_txs txs s'
                  ]
                ])
      ]

  -- `for block in &resp.blocks`
  unfoldable pub search_blocks : List Block → Search → Result String (Option Spend) × Search
  search_blocks [] s = (ok none, s)
  search_blocks (b ∷ bs) s =
      let r = search_txs b.transactions s in
      elim r.0 [
        | err e ↦ (err e, r.1)
        | ok found ↦ elim found [
          | some spend ↦ (ok (some spend), r.1)
          | none ↦ search_blocks bs r.1
        ]
      ]

  -- `while scanned < max_spend_scan_blocks`, on fuel: a round scans a block at least.
  unfoldable pub spend_loop : ℕ → ℕ → List ℕ → Search → Result String Spend × Search
  spend_loop zero scanned low s = (ok (out_of_budget scanned), s)
  spend_loop (suc fuel) scanned low s = elim (ltb scanned cfg.max_spend_scan_blocks) [
    | false ↦ (ok (out_of_budget scanned), s)
    | true ↦ elim (rpc.get_blocks low) [
      | err e ↦ (err e, s)
      | ok resp ↦ elim (is_nil resp.blocks) [
        | true ↦ (ok unspent, s)
        | false ↦
            let r = search_blocks resp.blocks s in
            elim r.0 [
              | err e ↦ (err e, r.1)
              | ok found ↦ elim found [
                | some spend ↦ (ok spend, r.1)
                | none ↦ elim (last resp.block_hashes) [
                  | none ↦ (ok unspent, r.1)
                  | some h ↦ elim (beq_bytes h low) [
                    | true ↦ (ok unspent, r.1)
                    | false ↦ spend_loop fuel (scanned + length resp.blocks) h r.1
                  ]
                ]
              ]
            ]
      ]
    ]
  ]

  abbrev pub parent_or : Option Verbose → List ℕ → List ℕ
  parent_or none h = h
  parent_or (some v) h = v.selected_parent

  -- The selected parent of `from` where the node gives it.
  unfoldable pub search_start : List ℕ
  search_start = elim (rpc.get_block from false) [
    | ok b ↦ parent_or b.verbose_data from
    | err e ↦ from
  ]

  unfoldable pub find_spender : Verifier → Result String Spend × Verifier
  find_spender v =
      let r =
        spend_loop cfg.max_spend_scan_blocks 0 search_start (record { verifier = v; seen = [] }) in
      (r.0, r.1.verifier)
