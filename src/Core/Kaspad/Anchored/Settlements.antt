-- ===== src/Core/Kaspad/Anchored/Settlements.antt =====
-- What the search for a spending transaction finds (`find_spender` of krep-core/src/kaspad.rs).
use mathlib.Core.Path.{subst}
use k_rep.Base.{
  ℕ, zero, suc, ◌+◌, ◌≡◌, inl, inr, ap, sym, ◌∙◌, true, Option, none, some, List, [], ◌∷◌, Result,
  ok, err, String, beq_bytes, All, Option-cases, Result-cases, Bool-cases, any, length, ltb,
}
use k_rep.Core.Attestation.{Outpoint}
use k_rep.Core.Kaspad.Node.{
  Transaction, Block, Blocks, Rpc, ScanConfig, AcceptedTx, Verifier, has, IsIn,
}
use k_rep.Core.Kaspad.Scan.{lookup, is_nil, last}
use k_rep.Core.Kaspad.Spend.{
  Spend, settled, unspent, out_of_budget, spends, script_of, Search, search_txs, search_blocks,
  spend_loop, find_spender, search_start,
}
use k_rep.Core.Kaspad.Anchored.Cache.{IsAccepted, All-IsIn}
use k_rep.Core.Kaspad.Anchored.Lookups.{IsSound, lookup-IsHonest}

-- The node gave a block with a transaction that spends the anchor and that it reported as accepted.
pub record IsSettlement (rpc : Rpc) (anchor : Outpoint) (payload script : List ℕ) : Type 0 where
  pub low : List ℕ
  pub blocks : Blocks
  pub block : Block
  pub spender : Transaction
  pub txid : List ℕ
  pub accepted : AcceptedTx
  pub given : rpc.get_blocks low ≡ ok blocks
  pub in_blocks : IsIn block blocks.blocks
  pub in_block : IsIn spender block.transactions
  pub spends_it : any (spends anchor) spender.inputs ≡ true
  pub named : spender.verbose_id ≡ some txid
  pub was_accepted : IsAccepted rpc txid accepted
  pub payload_read : accepted.payload ≡ payload
  pub script_read : script_of anchor spender.inputs ≡ script

module _ (rpc : Rpc) (cfg : ScanConfig) (anchor : Outpoint) (from : List ℕ) where
  abbrev IsGood : Result String (Option Spend) × Search → Type 0
  IsGood r =
      IsSound rpc cfg r.1.verifier
      × ((payload script : List ℕ)
          → r.0 ≡ ok (some (settled payload script))
          → IsSettlement rpc anchor payload script)

  -- One transaction of a block that the node gave.
  module _ (low : List ℕ) (resp : Blocks) (given : rpc.get_blocks low ≡ ok resp) where
    module _ (block : Block) (in_blocks : IsIn block resp.blocks) where
      search_txs-IsGood :
          (txs : List Transaction) (s : Search)
          → All (λ t. IsIn t block.transactions) txs
          → IsSound rpc cfg s.verifier
          → IsGood (search_txs rpc cfg anchor from txs s)
      unfolding search_txs
      search_txs-IsGood [] s i h = (h, λ p q e. cc e)
      search_txs-IsGood (tx ∷ txs) s i h = elim (Bool-cases (any (spends anchor) tx.inputs)) [
        | inr b ↦
            let step : search_txs rpc cfg anchor from (tx ∷ txs) s
                ≡ search_txs rpc cfg anchor from txs s =
              rw (search_txs, b) in
            subst IsGood (sym step) (search_txs-IsGood txs s i.1 h)
        | inl b ↦ elim (Option-cases tx.verbose_id) [
          | inl absent ↦
              let step : search_txs rpc cfg anchor from (tx ∷ txs) s
                  ≡ search_txs rpc cfg anchor from txs s =
                rw (search_txs, b, absent) in
              subst IsGood (sym step) (search_txs-IsGood txs s i.1 h)
          | inr (txid, named) ↦ elim (Bool-cases (has txid s.seen)) [
            | inl c ↦
                let step : search_txs rpc cfg anchor from (tx ∷ txs) s
                    ≡ search_txs rpc cfg anchor from txs s =
                  rw (search_txs, b, named, c) in
                subst IsGood (sym step) (search_txs-IsGood txs s i.1 h)
            | inr c ↦
                let r = lookup rpc cfg txid (some from) s.verifier in
                let s' : Search = record { verifier = r.1; seen = txid ∷ s.seen } in
                let (sound, accepted) = lookup-IsHonest rpc cfg txid (some from) s.verifier h in
                elim (Result-cases r.0) [
                  | inr (why, e) ↦
                      let step : search_txs rpc cfg anchor from (tx ∷ txs) s ≡ (err why, s') =
                        rw (search_txs, b, named, c, e) in
                      subst IsGood (sym step) (sound, λ p q z. cc z)
                  | inl (none, e) ↦
                      let step : search_txs rpc cfg anchor from (tx ∷ txs) s
                          ≡ search_txs rpc cfg anchor from txs s' =
                        rw (search_txs, b, named, c, e) in
                      subst IsGood (sym step) (search_txs-IsGood txs s' i.1 sound)
                  | inl (some a, e) ↦
                      let step : search_txs rpc cfg anchor from (tx ∷ txs) s
                          ≡ (ok (some (settled a.payload (script_of anchor tx.inputs))), s') =
                        rw (search_txs, b, named, c, e) in
                      subst IsGood (sym step) (
                        sound,
                        λ p q z. record {
                          low = low;
                          blocks = resp;
                          block = block;
                          spender = tx;
                          txid = txid;
                          accepted = a;
                          given = given;
                          in_blocks = in_blocks;
                          in_block = i.0;
                          spends_it = b;
                          named = named;
                          was_accepted = accepted a e;
                          payload_read = cc z;
                          script_read = cc z;
                        },
                      )
                ]
          ]
        ]
      ]

    search_blocks-IsGood :
        (bs : List Block) (s : Search)
        → All (λ b. IsIn b resp.blocks) bs
        → IsSound rpc cfg s.verifier
        → IsGood (search_blocks rpc cfg anchor from bs s)
    unfolding search_blocks
    search_blocks-IsGood [] s i h = (h, λ p q e. cc e)
    search_blocks-IsGood (b ∷ bs) s i h =
        let r = search_txs rpc cfg anchor from b.transactions s in
        let good = search_txs-IsGood b i.0 b.transactions s (All-IsIn b.transactions) h in
        elim (Result-cases r.0) [
          | inr (why, e) ↦
              let step : search_blocks rpc cfg anchor from (b ∷ bs) s ≡ (err why, r.1) =
                rw (search_blocks, e) in
              subst IsGood (sym step) (good.0, λ p q z. cc z)
          | inl (none, e) ↦
              let step : search_blocks rpc cfg anchor from (b ∷ bs) s
                  ≡ search_blocks rpc cfg anchor from bs r.1 =
                rw (search_blocks, e) in
              subst IsGood (sym step) (search_blocks-IsGood bs r.1 i.1 good.0)
          | inl (some spend, e) ↦
              let step : search_blocks rpc cfg anchor from (b ∷ bs) s ≡ (ok (some spend), r.1) =
                rw (search_blocks, e) in
              subst IsGood (sym step) (good.0, λ p q z. good.1 p q (e ∙ z))
        ]

  abbrev IsSpendGood : Result String Spend × Search → Type 0
  IsSpendGood r =
      IsSound rpc cfg r.1.verifier
      × ((payload script : List ℕ)
          → r.0 ≡ ok (settled payload script)
          → IsSettlement rpc anchor payload script)

  spend_loop-IsGood :
      (fuel scanned : ℕ) (low : List ℕ) (s : Search)
      → IsSound rpc cfg s.verifier
      → IsSpendGood (spend_loop rpc cfg anchor from fuel scanned low s)
  unfolding spend_loop
  spend_loop-IsGood zero scanned low s h = (h, λ p q e. cc e)
  spend_loop-IsGood (suc fuel) scanned low s h =
      let at =
        λ (y : Result String Spend × Search)
            (e : spend_loop rpc cfg anchor from (suc fuel) scanned low s ≡ y) (g : IsSpendGood y).
          subst IsSpendGood (sym e) g in
      elim (Bool-cases (ltb scanned cfg.max_spend_scan_blocks)) [
        | inr b ↦ at (ok (out_of_budget scanned), s) (rw (spend_loop, b)) (h, λ p q z. cc z)
        | inl b ↦ elim (Result-cases (rpc.get_blocks low)) [
          | inr (why, e) ↦ at (err why, s) (rw (spend_loop, b, e)) (h, λ p q z. cc z)
          | inl (resp, e) ↦ elim (Bool-cases (is_nil resp.blocks)) [
            | inl c ↦ at (ok unspent, s) (rw (spend_loop, b, e, c)) (h, λ p q z. cc z)
            | inr c ↦
                let r = search_blocks rpc cfg anchor from resp.blocks s in
                let good = search_blocks-IsGood low resp e resp.blocks s (All-IsIn resp.blocks) h in
                elim (Result-cases r.0) [
                  | inr (why, e₁) ↦
                      at (err why, r.1) (rw (spend_loop, b, e, c, e₁)) (good.0, λ p q z. cc z)
                  | inl (some spend, e₁) ↦
                      at (ok spend, r.1) (rw (spend_loop, b, e, c, e₁))
                        (
                          good.0,
                          λ p q z.
                              let same : spend ≡ settled p q = cc z in
                              good.1 p q (e₁ ∙ ap (λ x. ok (some x)) same),
                        )
                  | inl (none, e₁) ↦ elim (Option-cases (last resp.block_hashes)) [
                    | inl absent ↦
                        at (ok unspent, r.1) (rw (spend_loop, b, e, c, e₁, absent))
                          (good.0, λ p q z. cc z)
                    | inr (hash, there) ↦ elim (Bool-cases (beq_bytes hash low)) [
                      | inl d ↦
                          at (ok unspent, r.1) (rw (spend_loop, b, e, c, e₁, there, d))
                            (good.0, λ p q z. cc z)
                      | inr d ↦
                          at
                            (spend_loop rpc cfg anchor from fuel (scanned + length resp.blocks) hash
                              r.1)
                            (rw (spend_loop, b, e, c, e₁, there, d))
                            (spend_loop-IsGood fuel (scanned + length resp.blocks) hash r.1 good.0)
                    ]
                  ]
                ]
          ]
        ]
      ]

  pub find_spender-IsGood :
      (v : Verifier)
      → IsSound rpc cfg v
      → IsSound rpc cfg (find_spender rpc cfg anchor from v).1
        × ((payload script : List ℕ)
            → (find_spender rpc cfg anchor from v).0 ≡ ok (settled payload script)
            → IsSettlement rpc anchor payload script)
  unfolding find_spender
  find_spender-IsGood v h =
      spend_loop-IsGood cfg.max_spend_scan_blocks 0 (search_start rpc cfg anchor from)
        (record { verifier = v; seen = [] }) h
