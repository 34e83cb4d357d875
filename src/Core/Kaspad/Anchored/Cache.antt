-- ===== src/Core/Kaspad/Anchored/Cache.antt =====
-- What the scan finds and the cache keeps was accepted by the chain, as the node told it
-- (krep-core/src/kaspad.rs).
use k_rep.Base.{
  ℕ, suc, ◌≡◌, inl, inr, refl, ap, sym, ◌∙◌, Bool, true, false, not, Option, none, some, List, [],
  ◌∷◌, ok, beq_bytes, eq-beq_bytes, if-cases, All, >>=-eq-ok, Option-cases, Bool-cases,
}
use k_rep.Core.Kaspad.Node.{
  Transaction, Block, Accepted, Batch, Rpc, ScanConfig, AcceptedTx, has, find, remove, keep, IsIn,
}
use k_rep.Core.Kaspad.Scan.{
  has_id, find_tx, holds, accepted_tx, search_mergeset, fetch_from_mergeset, Progress, take_hits,
  take_batch,
}

pub IsIn-there {ℓ} : {A : Type ℓ} (x y : A) (l : List A) → IsIn x l → IsIn x (y ∷ l)
IsIn-there x y l (i, e) = (suc i, e)

All-there {ℓ} :
    {A : Type ℓ} (y : A) (l xs : List A) → All (λ x. IsIn x l) xs → All (λ x. IsIn x (y ∷ l)) xs
All-there y l [] h = tt
All-there y l (x ∷ xs) h = (IsIn-there x y l h.0, All-there y l xs h.1)

pub All-IsIn {ℓ} : {A : Type ℓ} (l : List A) → All (λ x. IsIn x l) l
All-IsIn [] = tt
All-IsIn (x ∷ xs) = ((0, refl), All-there x xs xs (All-IsIn xs))

pub All-keep {ℓ κ} :
    {A : Type ℓ} (P : A → Type κ) (f : A → Bool) (l : List A) → All P l → All P (keep f l)
All-keep P f [] h = tt
All-keep P f (x ∷ xs) h = elim (Bool-cases (f x)) [
  | inl b ↦ rw b (h.0, All-keep P f xs h.1)
  | inr b ↦ rw b (All-keep P f xs h.1)
]

pub All-find {ℓ κ} :
    {A : Type ℓ} (P : List ℕ × A → Type κ) (key : List ℕ) (es : List (List ℕ × A)) (x : A)
    → All P es
    → find key es ≡ some x
    → P (key, x)
All-find P key [] x h e = cc e
All-find P key (y ∷ es) x h e = elim (if-cases (beq_bytes key y.0) _ _ e) [
  | inl (b, here) ↦
      let k : key ≡ y.0 = eq-beq_bytes key y.0 b in let v : y.1 ≡ x = cc here in rw (k, sym v) h.0
  | inr (b, there) ↦ All-find P key es x h.1 there
]

find_tx-IsIn :
    (txid : List ℕ) (l : List Transaction) (t : Transaction)
    → find_tx txid l ≡ some t
    → IsIn t l × (t.verbose_id ≡ some txid)
unfolding find_tx
find_tx-IsIn txid [] t h = cc h
find_tx-IsIn txid (x ∷ xs) t h = elim (if-cases (has_id txid x) _ _ h) [
  | inl (b, e) ↦
      let same : x ≡ t = cc e in ((0, e), ap (λ u. u.verbose_id) (sym same) ∙ id_of x.verbose_id b)
  | inr (b, e) ↦ let (there, named) = find_tx-IsIn txid xs t e in (IsIn-there t x xs there, named)
]
  where
    id_of :
        (o : Option (List ℕ))
        → elim o [ some v ↦ beq_bytes v txid | none ↦ false ] ≡ true
        → o ≡ some txid
    id_of none b = cc b
    id_of (some v) b = ap some (eq-beq_bytes v txid b)

module _ (rpc : Rpc) where
  -- A block that the node gave holds the transaction, with what was read from it.
  pub record IsFetched (accepting txid : List ℕ) (tx : AcceptedTx) : Type 0 where
    pub block_hash : List ℕ
    pub block : Block
    pub transaction : Transaction
    pub given : rpc.get_block block_hash true ≡ ok block
    pub there : IsIn transaction block.transactions
    pub named : transaction.verbose_id ≡ some txid
    pub read : tx ≡ accepted_tx accepting transaction

  -- The node reported the transaction as accepted, by the block the record names.
  pub record IsAccepted (txid : List ℕ) (tx : AcceptedTx) : Type 0 where
    pub start : List ℕ
    pub depth : Option ℕ
    pub batch : Batch
    pub entry : Accepted
    pub reported : rpc.get_virtual_chain_from_block start depth ≡ ok batch
    pub in_batch : IsIn entry batch.accepted
    pub in_entry : IsIn txid entry.accepted_transaction_ids
    pub fetched : IsFetched entry.accepting_block_hash txid tx

  search_mergeset-IsFetched :
      (cfg : ScanConfig) (accepting txid : List ℕ) (hs : List (List ℕ)) (tx : AcceptedTx)
      → search_mergeset rpc cfg accepting txid hs ≡ ok (some tx)
      → IsFetched accepting txid tx
  unfolding search_mergeset
  search_mergeset-IsFetched cfg accepting txid [] tx h = cc h
  search_mergeset-IsFetched cfg accepting txid (b ∷ hs) tx h =
      let (block, e, h₁) = >>=-eq-ok (rpc.get_block b false) _ h in
      elim (if-cases (not (holds txid block.verbose_data)) _ _ h₁) [
        | inl (skip, h₂) ↦ search_mergeset-IsFetched cfg accepting txid hs tx h₂
        | inr (look, h₂) ↦
            let (full, e₁, h₃) = >>=-eq-ok (rpc.get_block b true) _ h₂ in
            elim (Option-cases (find_tx txid full.transactions)) [
              | inl absent ↦ search_mergeset-IsFetched cfg accepting txid hs tx (rw absent at h₃)
              | inr (t, found) ↦
                  let (there, named) = find_tx-IsIn txid full.transactions t found in
                  record {
                    block_hash = b;
                    block = full;
                    transaction = t;
                    given = e₁;
                    there = there;
                    named = named;
                    read = sym (cc (rw found at h₃));
                  }
            ]
      ]

  fetch-IsFetched :
      (cfg : ScanConfig) (accepting txid : List ℕ) (tx : AcceptedTx)
      → fetch_from_mergeset rpc cfg accepting txid ≡ ok (some tx)
      → IsFetched accepting txid tx
  unfolding fetch_from_mergeset
  fetch-IsFetched cfg accepting txid tx h =
      let (head, e, h₁) = >>=-eq-ok (rpc.get_block accepting false) _ h in
      elim (Option-cases head.verbose_data) [
        | inl absent ↦ cc (rw absent at h₁)
        | inr (v, there) ↦ search_mergeset-IsFetched cfg accepting txid _ tx (rw there at h₁)
      ]

  abbrev pub HasAccepted : List ℕ × AcceptedTx → Type 0
  HasAccepted e = IsAccepted e.0 e.1

  take_hits-HasAccepted :
      (cfg : ScanConfig) (start : List ℕ) (depth : Option ℕ) (batch : Batch) (a : Accepted)
      (hits : List (List ℕ)) (p q : Progress)
      → rpc.get_virtual_chain_from_block start depth ≡ ok batch
      → IsIn a batch.accepted
      → All (λ t. IsIn t a.accepted_transaction_ids) hits
      → All HasAccepted p.found
      → take_hits rpc cfg a.accepting_block_hash hits p ≡ ok q
      → All HasAccepted q.found
  unfolding take_hits
  take_hits-HasAccepted cfg start depth batch a [] p q r i hs good h =
      let same : p ≡ q = cc h in rw (sym same) good
  take_hits-HasAccepted cfg start depth batch a (t ∷ hits) p q r i hs good h =
      let (got, e, h₁) = >>=-eq-ok (fetch_from_mergeset rpc cfg a.accepting_block_hash t) _ h in
      elim (Option-cases got) [
        | inl absent ↦
            take_hits-HasAccepted cfg start depth batch a hits p q r i hs.1 good (rw absent at h₁)
        | inr (tx, found) ↦
            let accepted : IsAccepted t tx = record {
              start = start;
              depth = depth;
              batch = batch;
              entry = a;
              reported = r;
              in_batch = i;
              in_entry = hs.0;
              fetched = fetch-IsFetched cfg a.accepting_block_hash t tx (rw found at e);
            } in
            take_hits-HasAccepted cfg start depth batch a hits
              (record { found = (t, tx) ∷ p.found; remaining = remove t p.remaining }) q r i hs.1
              (accepted, good) (rw found at h₁)
      ]

  pub take_batch-HasAccepted :
      (cfg : ScanConfig) (start : List ℕ) (depth : Option ℕ) (batch : Batch) (l : List Accepted)
      (p q : Progress)
      → rpc.get_virtual_chain_from_block start depth ≡ ok batch
      → All (λ a. IsIn a batch.accepted) l
      → All HasAccepted p.found
      → take_batch rpc cfg l p ≡ ok q
      → All HasAccepted q.found
  unfolding take_batch
  take_batch-HasAccepted cfg start depth batch [] p q r i good h =
      let same : p ≡ q = cc h in rw (sym same) good
  take_batch-HasAccepted cfg start depth batch (a ∷ l) p q r i good h =
      let hits = keep (λ id. has id p.remaining) a.accepted_transaction_ids in
      let (p', e, h₁) = >>=-eq-ok (take_hits rpc cfg a.accepting_block_hash hits p) _ h in
      let inside =
        All-keep (λ t. IsIn t a.accepted_transaction_ids) (λ id. has id p.remaining)
          a.accepted_transaction_ids (All-IsIn a.accepted_transaction_ids) in
      take_batch-HasAccepted cfg start depth batch l p' q r i.1
        (take_hits-HasAccepted cfg start depth batch a hits p p' r i.0 inside good e) h₁
