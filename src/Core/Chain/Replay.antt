-- ===== src/Core/Chain/Replay.antt =====
-- `verify` against `append`: a chain verifies when it can be appended entry by entry, with timestamps
-- that do not fall (krep-core/src/chain.rs).
use k_rep.Base.{
  ℕ, ◌+◌, ◌≤◌, ◌≡◌, ◌↔◌, refl, ap, sym, ◌∙◌, some, List, [], ◌∷◌, ◌++◌, Result, ok, ◌>>=◌, length,
  length-append, append_assoc, append-nil, >>=-eq-ok,
}
use k_rep.Keys.{XOnly}
use k_rep.Core.Field.{FieldOps}
use k_rep.Core.Attestation.{Attestation, Crypto, KrepError, id}
use k_rep.Core.Chain.{Chain, last, head, new, append, check_entry, verify_loop, verify}
use k_rep.Core.Chain.Entries.{IsNext, with_entry, append_iff, check_entry_iff}

pub last-snoc {ℓ} : {A : Type ℓ} (xs : List A) (a : A) → last (xs ++ a ∷ []) ≡ some a
last-snoc [] a = refl
last-snoc (x ∷ []) a = refl
last-snoc (x ∷ y ∷ ys) a = last-snoc (y ∷ ys) a

length-snoc {ℓ} : {A : Type ℓ} (xs : List A) (a : A) → length (xs ++ a ∷ []) ≡ length xs + 1
length-snoc xs a = length-append xs (a ∷ [])

snoc_assoc {ℓ} :
    {A : Type ℓ} (xs : List A) (a : A) (ys : List A) → (xs ++ a ∷ []) ++ ys ≡ xs ++ a ∷ ys
snoc_assoc xs a ys = append_assoc xs (a ∷ []) ys

module _ {K S : Type 0} where
  -- The timestamp that the next entry is held to.
  abbrev pub last_ts : ℕ → List (Attestation K S) → ℕ
  last_ts t [] = t
  last_ts t (a ∷ rest) = last_ts a.body.ts rest

  abbrev pub IsOrdered : ℕ → List (Attestation K S) → Type 0
  IsOrdered t [] = Unit {0}
  IsOrdered t (a ∷ rest) = (t ≤ a.body.ts) × IsOrdered a.body.ts rest

  last_ts-snoc :
      (t : ℕ) (xs : List (Attestation K S)) (a : Attestation K S)
      → last_ts t (xs ++ a ∷ []) ≡ a.body.ts
  last_ts-snoc t [] a = refl
  last_ts-snoc t (x ∷ xs) a = last_ts-snoc x.body.ts xs a

module _ {K S : Type 0} (F : Type 0) ⦃key : XOnly K⦄ ⦃crypto : Crypto K S⦄
    ⦃field : FieldOps F⦄ where
  -- Append the entries one by one.
  unfoldable pub replay : Chain K S → List (Attestation K S) → Result KrepError (Chain K S)
  replay c [] = ok c
  replay c (a ∷ rest) = append F c a >>= λ c'. replay c' rest

  abbrev entries : K → List (Attestation K S) → Chain K S
  entries owner xs = record { owner = owner; attestations = xs }

  -- The rest of the loop of `verify`, behind the entries `xs`.
  abbrev resume : K → List (Attestation K S) → List (Attestation K S) → Result KrepError (Unit {0})
  resume owner xs = verify_loop F owner (length xs) (head F (entries owner xs)) (last_ts 0 xs)

  resume_snoc :
      (owner : K) (xs : List (Attestation K S)) (a : Attestation K S) (ys : List (Attestation K S))
      → resume owner (xs ++ a ∷ []) ys
        ≡ verify_loop F owner (length xs + 1) (some (id F a)) a.body.ts ys
  unfolding head
  resume_snoc owner xs a ys = rw (length-snoc xs a, last-snoc xs a, last_ts-snoc 0 xs a)

  -- One round of `verify`, in terms of what it accepts.
  resume_step :
      (owner : K) (xs : List (Attestation K S)) (a : Attestation K S) (ys : List (Attestation K S))
      → (resume owner xs (a ∷ ys) ≡ ok tt) ↔ (
          IsNext owner (length xs) (head F (entries owner xs)) a
          × (last_ts 0 xs ≤ a.body.ts)
          × (resume owner (xs ++ a ∷ []) ys ≡ ok tt))
  unfolding verify_loop
  resume_step owner xs a ys =
      let p = head F (entries owner xs) in
      let accepted = check_entry_iff F owner (length xs) p (last_ts 0 xs) a in
      (
        λ h.
            let (u, e, e') =
              >>=-eq-ok (check_entry F owner (length xs) p (last_ts 0 xs) a)
                (λ _. verify_loop F owner (length xs + 1) (some (id F a)) a.body.ts ys) h in
            let (n, t) = accepted.0 e in (n, t, resume_snoc owner xs a ys ∙ e'),
        λ (n, t, r). rw (accepted.1 (n, t)) (sym (resume_snoc owner xs a ys) ∙ r),
      )

  replay_step :
      (owner : K) (xs : List (Attestation K S)) (a : Attestation K S) (ys : List (Attestation K S))
      → (replay (entries owner xs) (a ∷ ys) ≡ ok (entries owner (xs ++ a ∷ ys))) ↔ (
          IsNext owner (length xs) (head F (entries owner xs)) a
          × (replay (entries owner (xs ++ a ∷ [])) ys ≡ ok (entries owner ((xs ++ a ∷ []) ++ ys))))
  unfolding replay
  replay_step owner xs a ys =
      let c = entries owner xs in
      let whole : entries owner ((xs ++ a ∷ []) ++ ys) ≡ entries owner (xs ++ a ∷ ys) =
        ap (entries owner) (snoc_assoc xs a ys) in
      (
        λ h.
            let (c', e, e') = >>=-eq-ok (append F c a) (λ c'. replay c' ys) h in
            let (n, same) = (append_iff F c a c').0 e in (n, rw same at e' ∙ ap ok (sym whole)),
        λ (n, r).
            let done = (append_iff F c a (with_entry F c a)).1 (n, refl) in
            rw done (r ∙ ap ok whole),
      )

  resume_iff_replay :
      (owner : K) (xs ys : List (Attestation K S))
      → (resume owner xs ys ≡ ok tt) ↔ (
          (replay (entries owner xs) ys ≡ ok (entries owner (xs ++ ys)))
          × IsOrdered (last_ts 0 xs) ys)
  resume_iff_replay owner xs [] =
      unfold verify_loop replay in
      (λ h. (ap (λ l. ok (entries owner l)) (sym (append-nil xs)), tt), λ h. refl)
  resume_iff_replay owner xs (a ∷ ys) =
      let ih = resume_iff_replay owner (xs ++ a ∷ []) ys in
      let ts = last_ts-snoc 0 xs a in
      (
        λ h.
            let (n, t, r) = (resume_step owner xs a ys).0 h in
            let (made, ordered) = ih.0 r in
            ((replay_step owner xs a ys).1 (n, made), (t, rw ts at ordered)),
        λ (made, (t, ordered)).
            let (n, r) = (replay_step owner xs a ys).0 made in
            (resume_step owner xs a ys).1 (n, t, ih.1 (r, rw ts ordered)),
      )

  -- A chain verifies exactly when appending its entries in order, from the empty chain, rebuilds it
  -- and their timestamps never fall.
  pub verify_iff_replay :
      (c : Chain K S)
      → (verify F c ≡ ok tt)
        ↔ ((replay (new c.owner) c.attestations ≡ ok c) × IsOrdered 0 c.attestations)
  unfolding verify head new
  verify_iff_replay c = resume_iff_replay c.owner [] c.attestations
