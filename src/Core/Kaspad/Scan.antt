-- ===== src/Core/Kaspad/Scan.antt =====
-- The scan of the virtual chain and the cache of what it found (krep-core/src/kaspad.rs).
use k_rep.Base.{
  ℕ, zero, suc, ◌+◌, Bool, true, false, not, Option, none, some, List, [], ◌∷◌, ◌++◌, Result, ok,
  err, ◌>>=◌, String, beq_bytes, if◌then◌else◌, length, ltb,
}
use k_rep.Core.Kaspad.Node.{
  Transaction, Verbose, Accepted, Rpc, ScanConfig, AcceptedTx, ScanOutcome, Verifier, has, find,
  remove, keep,
}

abbrev pub has_id : List ℕ → Transaction → Bool
has_id txid tx = elim tx.verbose_id [ some v ↦ beq_bytes v txid | none ↦ false ]

-- `iter().find(..)` on the transactions of a block, by id.
unfoldable pub find_tx : List ℕ → List Transaction → Option Transaction
find_tx txid [] = none
find_tx txid (t ∷ ts) = let rest = find_tx txid ts in if has_id txid t then some t else rest

abbrev pub holds : List ℕ → Option Verbose → Bool
holds txid none = false
holds txid (some v) = has txid v.transaction_ids

unfoldable pub accepted_tx : List ℕ → Transaction → AcceptedTx
accepted_tx accepting tx = record {
  payload = tx.payload;
  output_count = length tx.outputs;
  output_spks = tx.outputs;
  accepting_block = accepting;
}

abbrev pub is_nil {ℓ} : {A : Type ℓ} → List A → Bool
is_nil [] = true
is_nil (x ∷ xs) = false

abbrev pub last {ℓ} : {A : Type ℓ} → List A → Option A
last [] = none
last (x ∷ []) = some x
last (x ∷ y ∷ ys) = last (y ∷ ys)

-- `found` and `remaining` of the scan.
pub record Progress : Type 0 where
  pub found : List (List ℕ × AcceptedTx)
  pub remaining : List (List ℕ)

module _ (rpc : Rpc) (cfg : ScanConfig) where
  -- The loop over the mergeset.
  unfoldable pub search_mergeset :
      List ℕ → List ℕ → List (List ℕ) → Result String (Option AcceptedTx)
  search_mergeset accepting txid [] = ok none
  search_mergeset accepting txid (h ∷ hs) =
      let rest = search_mergeset accepting txid hs in
      rpc.get_block h false >>= λ block.
      if not (holds txid block.verbose_data)
      then rest
      else (rpc.get_block h true >>= λ full. elim (find_tx txid full.transactions) [
        | some tx ↦ ok (some (accepted_tx accepting tx))
        | none ↦ rest
      ])

  unfoldable pub fetch_from_mergeset : List ℕ → List ℕ → Result String (Option AcceptedTx)
  fetch_from_mergeset accepting txid = rpc.get_block accepting false >>= λ head.
      elim head.verbose_data [
        | none ↦ err "node returned no verbose data"
        | some v ↦ search_mergeset accepting txid (v.merge_set_blues ++ v.merge_set_reds)
      ]

  -- `for txid in hits`
  unfoldable pub take_hits : List ℕ → List (List ℕ) → Progress → Result String Progress
  take_hits accepting [] p = ok p
  take_hits accepting (txid ∷ hits) p = fetch_from_mergeset accepting txid >>= λ got. elim got [
    | none ↦ take_hits accepting hits p
    | some tx ↦
        take_hits accepting hits
          (record { found = (txid, tx) ∷ p.found; remaining = remove txid p.remaining })
  ]

  -- `for accepted in &batch.accepted_transaction_ids`
  unfoldable pub take_batch : List Accepted → Progress → Result String Progress
  take_batch [] p = ok p
  take_batch (a ∷ rest) p =
      take_hits a.accepting_block_hash (keep (λ id. has id p.remaining) a.accepted_transaction_ids)
        p
      >>= λ q. take_batch rest q

  unfoldable pub min_conf : Option ℕ
  min_conf = if ltb 0 cfg.min_confirmations then some cfg.min_confirmations else none

  -- `for _ in 0..self.cfg.max_batches`, with `n` rounds left.
  unfoldable pub scan_loop : ℕ → ℕ → List ℕ → Progress → Result String (Progress × ScanOutcome)
  scan_loop zero batches start p = ok (p, record { batches = batches; reached_tip = false })
  scan_loop (suc n) batches start p = rpc.get_virtual_chain_from_block start min_conf >>= λ batch.
      take_batch batch.accepted p >>= λ q.
      if is_nil q.remaining
      then ok (q, record { batches = batches + 1; reached_tip = true })
      else elim (last batch.added_chain_block_hashes) [
        | none ↦ ok (q, record { batches = batches + 1; reached_tip = true })
        | some h ↦ elim (beq_bytes h start) [
          | true ↦ ok (q, record { batches = batches + 1; reached_tip = true })
          | false ↦ scan_loop n (batches + 1) h q
        ]
      ]

  -- `start.or(self.cfg.scan_from)`, or the pruning point.
  unfoldable pub scan_start : Option (List ℕ) → Result String (List ℕ)
  scan_start (some h) = ok h
  scan_start none = elim cfg.scan_from [ some h ↦ ok h | none ↦ rpc.pruning_point_hash ]

  unfoldable pub scan : List (List ℕ) → Option (List ℕ) → Result String (Progress × ScanOutcome)
  scan wanted start = scan_start start >>= λ from.
      scan_loop cfg.max_batches 0 from (record { found = []; remaining = wanted })

  -- `for txid in missing`: what was found goes into the cache.
  unfoldable pub cache_found :
      List (List ℕ)
      → List (List ℕ × AcceptedTx)
      → List (List ℕ × Option AcceptedTx)
      → List (List ℕ × Option AcceptedTx)
  cache_found [] found cache = cache
  cache_found (txid ∷ missing) found cache = elim (find txid found) [
    | some tx ↦ cache_found missing found ((txid, some tx) ∷ cache)
    | none ↦ cache_found missing found cache
  ]

  abbrev pub is_cached : Verifier → List ℕ → Bool
  is_cached v txid = elim (find txid v.resolved) [ some o ↦ true | none ↦ false ]

  -- With the state after it: an error leaves the state as it was.
  unfoldable pub resolve :
      List (List ℕ) → Option (List ℕ) → Verifier → Result String (Unit {0}) × Verifier
  resolve wanted start v =
      let missing = keep (λ t. not (is_cached v t)) wanted in
      if is_nil missing then (ok tt, v) else elim (scan missing start) [
        | err e ↦ (err e, v)
        | ok r ↦ (
          ok tt,
          record { resolved = cache_found missing r.0.found v.resolved; last_scan = some r.1 },
        )
      ]

  abbrev pub flatten {ℓ} : {A : Type ℓ} → Option (Option A) → Option A
  flatten none = none
  flatten (some o) = o

  unfoldable pub lookup :
      List ℕ → Option (List ℕ) → Verifier → Result String (Option AcceptedTx) × Verifier
  lookup txid start v = elim (find txid v.resolved) [
    | some hit ↦ (ok hit, v)
    | none ↦
        let r = resolve (txid ∷ []) start v in
        elim r.0 [ err e ↦ (err e, r.1) | ok u ↦ (ok (flatten (find txid r.1.resolved)), r.1) ]
  ]
