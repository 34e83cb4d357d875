-- ===== src/Core/Kaspad/Anchored/Lookups.antt =====
-- The cache of the verifier holds accepted transactions alone, whatever is asked
-- (`resolve_async` and `lookup_async` of krep-core/src/kaspad.rs).
use k_rep.Base.{
  ℕ, zero, suc, ◌+◌, ◌≡◌, inl, inr, refl, ap, sym, not, Option, none, some, List, [], ◌∷◌, Result,
  ok, err, String, beq_bytes, if-cases, All, >>=-eq-ok, Option-cases, Result-cases, Bool-cases,
}
use mathlib.Core.Path.{subst}
use k_rep.Core.Kaspad.Node.{Rpc, ScanConfig, AcceptedTx, ScanOutcome, Verifier, find, keep}
use k_rep.Core.Kaspad.Scan.{
  is_nil, last, Progress, take_batch, min_conf, scan_loop, scan_start, scan, cache_found, resolve,
  lookup, flatten, is_cached,
}
use k_rep.Core.Kaspad.Anchored.Cache.{
  IsAccepted, HasAccepted, take_batch-HasAccepted, All-IsIn, All-find,
}

module _ (rpc : Rpc) (cfg : ScanConfig) where
  scan_loop-HasAccepted :
      (n batches : ℕ) (start : List ℕ) (p : Progress) (r : Progress × ScanOutcome)
      → All (HasAccepted rpc) p.found
      → scan_loop rpc cfg n batches start p ≡ ok r
      → All (HasAccepted rpc) r.0.found
  unfolding scan_loop
  scan_loop-HasAccepted zero batches start p r good h =
      let same : p ≡ r.0 = cc h in rw (sym same) good
  scan_loop-HasAccepted (suc n) batches start p r good h =
      let (batch, e, h₁) =
        >>=-eq-ok (rpc.get_virtual_chain_from_block start (min_conf rpc cfg)) _ h in
      let (q, e₁, h₂) = >>=-eq-ok (take_batch rpc cfg batch.accepted p) _ h₁ in
      let good' =
        take_batch-HasAccepted rpc cfg start (min_conf rpc cfg) batch batch.accepted p q e
          (All-IsIn batch.accepted) good e₁ in
      elim (if-cases (is_nil q.remaining) _ _ h₂) [
        | inl (b, h₃) ↦ let same : q ≡ r.0 = cc h₃ in rw (sym same) good'
        | inr (b, h₃) ↦ elim (Option-cases (last batch.added_chain_block_hashes)) [
          | inl absent ↦ let same : q ≡ r.0 = cc (rw absent at h₃) in rw (sym same) good'
          | inr (hash, there) ↦ elim (Bool-cases (beq_bytes hash start)) [
            | inl b₁ ↦ let same : q ≡ r.0 = cc (rw (there, b₁) at h₃) in rw (sym same) good'
            | inr b₁ ↦ scan_loop-HasAccepted n (batches + 1) hash q r good' (rw (there, b₁) at h₃)
          ]
        ]
      ]

  scan-HasAccepted :
      (wanted : List (List ℕ)) (start : Option (List ℕ)) (r : Progress × ScanOutcome)
      → scan rpc cfg wanted start ≡ ok r
      → All (HasAccepted rpc) r.0.found
  unfolding scan
  scan-HasAccepted wanted start r h =
      let (from, e, h₁) = >>=-eq-ok (scan_start rpc cfg start) _ h in
      scan_loop-HasAccepted cfg.max_batches 0 from (record { found = []; remaining = wanted }) r tt
        h₁

  -- Every transaction in the cache was reported as accepted.
  abbrev pub IsCached : List ℕ × Option AcceptedTx → Type 0
  IsCached e = (tx : AcceptedTx) → e.1 ≡ some tx → IsAccepted rpc e.0 tx

  abbrev pub IsSound : Verifier → Type 0
  IsSound v = All IsCached v.resolved

  cache_found-IsCached :
      (missing : List (List ℕ)) (found : List (List ℕ × AcceptedTx))
      (cache : List (List ℕ × Option AcceptedTx))
      → All (HasAccepted rpc) found
      → All IsCached cache
      → All IsCached (cache_found rpc cfg missing found cache)
  unfolding cache_found
  cache_found-IsCached [] found cache good h = h
  cache_found-IsCached (t ∷ missing) found cache good h = elim (Option-cases (find t found)) [
    | inl absent ↦
        let step : cache_found rpc cfg (t ∷ missing) found cache
            ≡ cache_found rpc cfg missing found cache =
          rw (cache_found, absent) in
        subst (All IsCached) (sym step) (cache_found-IsCached missing found cache good h)
    | inr (tx, there) ↦
        let accepted : IsAccepted rpc t tx = All-find (HasAccepted rpc) t found tx good there in
        let entry : IsCached (t, some tx) =
          λ u e. let same : tx ≡ u = cc e in rw (sym same) accepted in
        let step : cache_found rpc cfg (t ∷ missing) found cache
            ≡ cache_found rpc cfg missing found ((t, some tx) ∷ cache) =
          rw (cache_found, there) in
        subst (All IsCached) (sym step)
          (cache_found-IsCached missing found ((t, some tx) ∷ cache) good (entry, h))
  ]

  resolve-IsSound :
      (wanted : List (List ℕ)) (start : Option (List ℕ)) (v : Verifier)
      → IsSound v
      → IsSound (resolve rpc cfg wanted start v).1
  unfolding resolve
  resolve-IsSound wanted start v h =
      let missing = keep (λ t. not (is_cached rpc cfg v t)) wanted in
      elim (Bool-cases (is_nil missing)) [
        | inl b ↦ rw b h
        | inr b ↦ elim (Result-cases (scan rpc cfg missing start)) [
          | inr (why, e) ↦ rw (b, e) h
          | inl (r, e) ↦
              rw (b, e)
                (cache_found-IsCached missing r.0.found v.resolved
                  (scan-HasAccepted missing start r e) h)
        ]
      ]

  flatten-eq-some :
      (o : Option (Option AcceptedTx)) (tx : AcceptedTx)
      → flatten rpc cfg o ≡ some tx
      → o ≡ some (some tx)
  flatten-eq-some none tx h = cc h
  flatten-eq-some (some o) tx h = ap some h

  -- What a lookup gives: a sound state, and accepted transactions alone.
  abbrev pub IsHonest : List ℕ → Result String (Option AcceptedTx) × Verifier → Type 0
  IsHonest txid r = IsSound r.1 × ((tx : AcceptedTx) → r.0 ≡ ok (some tx) → IsAccepted rpc txid tx)

  lookup-hit :
      (txid : List ℕ) (start : Option (List ℕ)) (v : Verifier) (hit : Option AcceptedTx)
      → find txid v.resolved ≡ some hit
      → lookup rpc cfg txid start v ≡ (ok hit, v)
  unfolding lookup
  lookup-hit txid start v hit e = rw (lookup, e)

  lookup-err :
      (txid : List ℕ) (start : Option (List ℕ)) (v : Verifier) (why : String)
      → find txid v.resolved ≡ none
      → (resolve rpc cfg (txid ∷ []) start v).0 ≡ err why
      → lookup rpc cfg txid start v ≡ (err why, (resolve rpc cfg (txid ∷ []) start v).1)
  unfolding lookup
  lookup-err txid start v why e e' = rw (lookup, e, e')

  lookup-ok :
      (txid : List ℕ) (start : Option (List ℕ)) (v : Verifier)
      → find txid v.resolved ≡ none
      → (resolve rpc cfg (txid ∷ []) start v).0 ≡ ok tt
      → lookup rpc cfg txid start v ≡ (
        ok (flatten rpc cfg (find txid (resolve rpc cfg (txid ∷ []) start v).1.resolved)),
        (resolve rpc cfg (txid ∷ []) start v).1,
      )
  unfolding lookup
  lookup-ok txid start v e e' = rw (lookup, e, e')

  -- A lookup keeps the cache sound, and what it finds was accepted.
  pub lookup-IsHonest :
      (txid : List ℕ) (start : Option (List ℕ)) (v : Verifier)
      → IsSound v
      → IsHonest txid (lookup rpc cfg txid start v)
  lookup-IsHonest txid start v h = elim (Option-cases (find txid v.resolved)) [
    | inr (hit, e) ↦ subst (IsHonest txid) (sym (lookup-hit txid start v hit e)) (
      h,
      λ tx found.
          let same : hit ≡ some tx = cc found in All-find IsCached txid v.resolved hit h e tx same,
    )
    | inl e ↦
        let r = resolve rpc cfg (txid ∷ []) start v in
        let sound = resolve-IsSound (txid ∷ []) start v h in
        elim (Result-cases r.0) [
          | inr (why, e₁) ↦
              subst (IsHonest txid) (sym (lookup-err txid start v why e e₁))
                (sound, λ tx found. cc found)
          | inl (u, e₁) ↦ subst (IsHonest txid) (sym (lookup-ok txid start v e e₁)) (
            sound,
            λ tx found.
                let there = flatten-eq-some (find txid r.1.resolved) tx (cc found) in
                All-find IsCached txid r.1.resolved (some tx) sound there tx refl,
          )
        ]
  ]
