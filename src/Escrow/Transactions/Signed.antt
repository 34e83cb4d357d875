-- ===== src/Escrow/Transactions/Signed.antt =====
-- What the transactions of krep-escrow/src/tx.rs put in front of the covenant.
use k_rep.Base.{
  ℕ, zero, suc, ◌+◌, ◌-◌, ◌≡◌, refl, ap, ap₂, sym, ◌∙◌, some, List, [], ◌∷◌, ◌++◌, map,
  append_assoc, append-nil, length, length-append, drop, take-append-drop, reverse, get_elem?,
  drop-append_length, arith,
}
use k_rep.Escrow.Machine.{Vm, Spend, Stack, Instr, push_data, Output}
use k_rep.Escrow.Script.{Branch, selector}
use k_rep.Escrow.Transactions.{
  Unlock, covenant, Input, TransactionInput, Transaction, Signing, blank, blank_input, skeleton,
  skeleton_inputs, no_scripts, sign, unlock_script, scripts_from, build, state_parts,
}

module _ {P E : Type 0} ⦃signing : Signing P E⦄ where
  blank-scripts_from :
      (empty : Transaction) (entries : List E) (pair : P) (idx : ℕ) (inputs : List (Input P E))
      → map blank_input (skeleton_inputs inputs (scripts_from empty entries pair idx inputs))
        ≡ skeleton_inputs inputs (no_scripts inputs)
  unfolding skeleton_inputs scripts_from
  blank-scripts_from empty entries pair idx [] = refl
  blank-scripts_from empty entries pair idx (i ∷ is) =
      ap₂ ◌∷◌ refl (blank-scripts_from empty entries pair (suc idx) is)

  module _ (pair : P) (inputs : List (Input P E)) (outputs : List Output) (payload : List ℕ)
      (lock_time : ℕ) where
    abbrev pub entries_of : List E
    entries_of = map (λ (i : Input P E). i.entry) inputs

    abbrev empty_of : Transaction
    empty_of = skeleton inputs outputs payload lock_time (no_scripts inputs)

    abbrev pub built : Transaction
    built = build pair inputs outputs payload lock_time

    -- A signature of the transaction that was built.
    abbrev pub signature_of : ℕ → P → List ℕ
    signature_of idx k =
        signing.sign_schnorr (signing.sighash built entries_of idx) k ++ (signing.sig_hash_all ∷ [])

    blank-build : blank built ≡ empty_of
    unfolding build skeleton
    blank-build =
        ap
          (λ is. record {
            inputs = is;
            outputs = outputs;
            lock_time = lock_time;
            payload = payload;
          })
          (blank-scripts_from empty_of entries_of pair 0 inputs)

    sign-signature_of : (idx : ℕ) (k : P) → sign empty_of entries_of idx k ≡ signature_of idx k
    unfolding sign
    sign-signature_of idx k =
        ap (λ h. signing.sign_schnorr h k ++ (signing.sig_hash_all ∷ []))
          (ap (λ tx. signing.sighash tx entries_of idx) (sym blank-build)
            ∙ signing.sighash_blank built entries_of idx)

module _ ⦃vm : Vm⦄ {P : Type 0} (t : Spend) (f : P → List ℕ) where
  -- Pushed in order, the last one is on top.
  exec-pushes :
      (ks : List P) (c : List Instr) (s : Stack)
      → vm.exec t (map (λ k. push_data (f k)) ks ++ c) s ≡ vm.exec t c (reverse (map f ks) ++ s)
  exec-pushes [] c s = refl
  exec-pushes (k ∷ ks) c s =
      vm.data_lem t (f k) (map (λ k. push_data (f k)) ks ++ c) s
      ∙ exec-pushes ks c (f k ∷ s)
      ∙ ap (vm.exec t c) (sym (append_assoc (reverse (map f ks)) (f k ∷ []) s))

map_congr :
    {A B : Type 0} (f g : A → B) → ((a : A) → f a ≡ g a) → (xs : List A) → map f xs ≡ map g xs
map_congr f g h [] = refl
map_congr f g h (x ∷ xs) = ap₂ ◌∷◌ (h x) (map_congr f g h xs)

module _ {P E : Type 0} ⦃signing : Signing P E⦄ where
  nth-scripts_from :
      (empty : Transaction) (entries : List E) (pair : P) (start n : ℕ) (inputs : List (Input P E))
      (i : Input P E)
      → get_elem? inputs n ≡ some i
      → (ti : TransactionInput) × (get_elem?
            (skeleton_inputs inputs (scripts_from empty entries pair start inputs))
            n
          ≡ some ti)
        × (ti.signature_script ≡ unlock_script empty entries pair (start + n) i.unlock)
        × (ti.previous_outpoint ≡ i.outpoint)
  unfolding skeleton_inputs scripts_from
  nth-scripts_from empty entries pair start n [] i e = absurd (cc e)
  nth-scripts_from empty entries pair start zero (j ∷ is) i e =
      let same : j ≡ i = cc e in
      let here : start ≡ start + 0 = omega arith in
      (
        _,
        refl,
        ap₂ (λ (m : ℕ) (x : Input P E). unlock_script empty entries pair m x.unlock) here same,
        ap (λ (x : Input P E). x.outpoint) same,
      )
  nth-scripts_from empty entries pair start (suc n) (j ∷ is) i e =
      let (ti, found, script, outpoint) =
        nth-scripts_from empty entries pair (suc start) n is i e in
      let shift : suc start + n ≡ start + suc n = omega arith in
      (
        ti,
        found,
        script ∙ ap (λ (m : ℕ). unlock_script empty entries pair m i.unlock) shift,
        outpoint,
      )

  exec-unlock_script :
      ⦃vm : Vm⦄ (t : Spend) (empty : Transaction) (entries : List E) (pair : P) (idx : ℕ)
      (branch : Branch) (prev_rest prev_payload : List ℕ) (signers : List P) (script : List ℕ)
      → vm.exec t
          (unlock_script empty entries pair idx
            (covenant branch prev_rest prev_payload signers script))
          []
        ≡ some (
            script
            ∷ vm.number (selector branch)
            ∷ prev_payload
            ∷ prev_rest
            ∷ reverse (map (sign empty entries idx) signers))
  unfolding unlock_script
  exec-unlock_script ⦃vm = vm⦄ t empty entries pair idx branch prev_rest prev_payload signers
        script =
      exec-pushes t (sign empty entries idx) signers _ []
      ∙ rw (vm.data_lem, vm.data_lem, vm.i64_lem, vm.data_lem, vm.done, append-nil)

  -- In a transaction that `build` makes, the signature script of an input that spends the covenant
  -- leaves the redeem script, the selector and the two halves of the previous transaction, and under
  -- them the signatures of the signers, the last one first, each over the transaction itself.
  pub build_spends :
      ⦃vm : Vm⦄ (t : Spend) (pair : P) (inputs : List (Input P E)) (outputs : List Output)
      (payload : List ℕ) (lock_time n : ℕ) (i : Input P E) (branch : Branch)
      (prev_rest prev_payload : List ℕ) (signers : List P) (script : List ℕ)
      → get_elem? inputs n ≡ some i
      → i.unlock ≡ covenant branch prev_rest prev_payload signers script
      → (ti : TransactionInput) × (get_elem? (built pair inputs outputs payload lock_time).inputs n
          ≡ some ti)
        × (ti.previous_outpoint ≡ i.outpoint)
        × (vm.exec t ti.signature_script []
            ≡ some (
                script
                ∷ vm.number (selector branch)
                ∷ prev_payload
                ∷ prev_rest
                ∷ reverse (map (signature_of pair inputs outputs payload lock_time n) signers)))
  unfolding build skeleton
  build_spends ⦃vm = vm⦄ t pair inputs outputs payload lock_time n i branch prev_rest prev_payload
        signers script e u =
      let empty = empty_of pair inputs outputs payload lock_time in
      let entries = entries_of pair inputs outputs payload lock_time in
      let (ti, found, sig_script, outpoint) = nth-scripts_from empty entries pair 0 n inputs i e in
      let first : 0 + n ≡ n = omega arith in
      let code =
        ap (λ c. vm.exec t c [])
          (sig_script
            ∙ ap₂ (λ (m : ℕ) (x : Unlock P). unlock_script empty entries pair m x) first u)
        ∙ exec-unlock_script t _ _ pair n branch prev_rest prev_payload signers script in
      let signed =
        map_congr _ (signature_of pair inputs outputs payload lock_time n)
          (sign-signature_of pair inputs outputs payload lock_time n) signers in
      (
        ti,
        found,
        outpoint,
        code
            ∙ ap
                (λ sigs.
                  some (
                    script ∷ vm.number (selector branch) ∷ prev_payload ∷ prev_rest ∷ reverse sigs))
                signed,
      )

-- The two halves of a transaction are the preimage of its id, and the second is its payload.
pub state_parts_lem :
    (P E : Type 0) ⦃signing : Signing P E⦄ (tx : Transaction)
    → ((state_parts P E tx).0 ++ (state_parts P E tx).1 ≡ signing.id_preimage tx)
      × ((state_parts P E tx).1 ≡ tx.payload)
unfolding state_parts
state_parts_lem P E ⦃signing = signing⦄ tx =
    let e = signing.id_preimage_lem tx in
    let split : length (signing.id_preimage tx) - length tx.payload
        ≡ length (signing.head_bytes tx) =
      omega (arith, ap length e, length-append (signing.head_bytes tx) tx.payload) in
    (
      take-append-drop _ (signing.id_preimage tx),
      ap₂ (λ (n : ℕ) (bs : List ℕ). drop n bs) split e
          ∙ drop-append_length (length (signing.head_bytes tx)) (signing.head_bytes tx) tx.payload
              refl,
    )
