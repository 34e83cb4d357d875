-- ===== src/Core/Chain/History.antt =====
-- What a verified chain says of its past: its prefixes, its next entry and its head
-- (krep-core/src/chain.rs).
use k_rep.Base.{
  ℕ, zero, suc, ◌≤◌, ◌≡◌, ◌↔◌, ◌⊎◌, inl, inr, refl, ap, ap₂, sym, ◌∙◌, some, List, [], ◌∷◌, ◌++◌,
  ok, ◌>>=◌, length, length-append, arith, append_assoc, append-nil, >>=-eq-ok, All, Result-cases,
}
use k_rep.Keys.{XOnly}
use k_rep.Core.Field.{FieldOps}
use k_rep.Core.Attestation.{Attestation, Crypto, id}
use k_rep.Core.Chain.{Chain, head, new, append, verify}
use k_rep.Core.Chain.Entries.{IsNext, with_entry, append_iff}
use k_rep.Core.Chain.Replay.{replay, last_ts, IsOrdered, verify_iff_replay, last-snoc}

All-snoc {ℓ κ} :
    {A : Type ℓ} (P : A → Type κ) (xs : List A) (a : A) → All P (xs ++ a ∷ []) → All P xs × P a
All-snoc P [] a h = (tt, h.0)
All-snoc P (x ∷ xs) a h = let (front, end) = All-snoc P xs a h.1 in ((h.0, front), end)

snoc_view {ℓ} :
    {A : Type ℓ} (xs : List A)
    → (xs ≡ []) ⊎ ((front : List A) × (end : A) × (xs ≡ front ++ end ∷ []))
snoc_view [] = inl refl
snoc_view (x ∷ xs) = elim (snoc_view xs) [
  | inl e ↦ inr ([], x, ap (λ l. x ∷ l) e)
  | inr (front, end, e) ↦ inr (x ∷ front, end, ap (λ l. x ∷ l) e)
]

module _ {K S : Type 0} where
  IsOrdered-append :
      (t : ℕ) (xs ys : List (Attestation K S))
      → IsOrdered t (xs ++ ys) ↔ (IsOrdered t xs × IsOrdered (last_ts t xs) ys)
  IsOrdered-append t [] ys = (λ h. (tt, h), λ h. h.1)
  IsOrdered-append t (x ∷ xs) ys =
      let (to, from) = IsOrdered-append x.body.ts xs ys in
      (λ h. let (front, end) = to h.1 in ((h.0, front), end), λ h. (h.0.0, from (h.0.1, h.1)))

  abbrev extend : Chain K S → List (Attestation K S) → Chain K S
  extend c xs = record c { attestations = c.attestations ++ xs }

module _ {K S : Type 0} (F : Type 0) ⦃key : XOnly K⦄ ⦃crypto : Crypto K S⦄
    ⦃field : FieldOps F⦄ where
  replay-append :
      (c : Chain K S) (xs ys : List (Attestation K S))
      → replay F c (xs ++ ys) ≡ (replay F c xs >>= λ c'. replay F c' ys)
  unfolding replay
  replay-append c [] ys = refl
  replay-append c (x ∷ xs) ys = elim (Result-cases (append F c x)) [
    | inl (c', e) ↦ rw e (replay-append c' xs ys)
    | inr (why, e) ↦ rw e
  ]

  replay_one :
      (c : Chain K S) (a : Attestation K S) (d : Chain K S)
      → replay F c (a ∷ []) ≡ ok d
      → append F c a ≡ ok d
  unfolding replay
  replay_one c a d h = let (b, e, e') = >>=-eq-ok (append F c a) (λ b. replay F b []) h in e ∙ e'

  -- A successful replay holds the old entries and then the new ones.
  replay-eq-ok :
      (c : Chain K S) (xs : List (Attestation K S)) (c' : Chain K S)
      → replay F c xs ≡ ok c'
      → c' ≡ extend c xs
  unfolding replay
  replay-eq-ok c [] c' h =
      let same : c ≡ c' = cc h in
      sym same ∙ ap (λ l. record c { attestations = l }) (sym (append-nil c.attestations))
  replay-eq-ok c (x ∷ xs) c' h =
      let (d, e, e') = >>=-eq-ok (append F c x) (λ d. replay F d xs) h in
      let made = ((append_iff F c x d).0 e).1 in
      replay-eq-ok d xs c' e'
      ∙ ap (λ b. extend b xs) made
      ∙ ap (λ l. record c { attestations = l }) (append_assoc c.attestations (x ∷ []) xs)

  -- Every prefix of a verified chain verifies.
  verify_prefix :
      (owner : K) (xs ys : List (Attestation K S))
      → verify F (record { owner = owner; attestations = xs ++ ys }) ≡ ok tt
      → verify F (record { owner = owner; attestations = xs }) ≡ ok tt
  verify_prefix owner xs ys h =
      let whole : Chain K S = record { owner = owner; attestations = xs ++ ys } in
      let front : Chain K S = record { owner = owner; attestations = xs } in
      let (made, ordered) = (verify_iff_replay F whole).0 h in
      let (c, e, e') =
        >>=-eq-ok (replay F (new owner) xs) (λ c'. replay F c' ys)
          (sym (replay-append (new owner) xs ys) ∙ made) in
      let same : c ≡ front = unfold new in replay-eq-ok (new owner) xs c e in
      (verify_iff_replay F front).1 (rw same at e, ((IsOrdered-append 0 xs ys).0 ordered).0)

  -- A verified chain that `append` has grown by an entry still verifies exactly when the entry is
  -- not older than the last one.
  pub verify-append_iff :
      (c : Chain K S) (a : Attestation K S) (c' : Chain K S)
      → verify F c ≡ ok tt
      → append F c a ≡ ok c'
      → (verify F c' ≡ ok tt) ↔ (last_ts 0 c.attestations ≤ a.body.ts)
  verify-append_iff c a c' v h =
      let made = ((append_iff F c a c').0 h).1 in
      let (built, ordered) = (verify_iff_replay F c).0 v in
      let grown = with_entry F c a in
      let split = IsOrdered-append 0 c.attestations (a ∷ []) in
      let rebuilt : replay F (new c.owner) (c.attestations ++ a ∷ []) ≡ ok grown =
        replay-append (new c.owner) c.attestations (a ∷ [])
        ∙ rw built (unfold replay in rw h (ap ok made)) in
      rw made (
        λ k. (split.0 ((verify_iff_replay F grown).0 k).1).1.0,
        λ t. (verify_iff_replay F grown).1 (rebuilt, split.1 (ordered, (t, tt))),
      )

  -- The last entry of a verified chain follows the others.
  verified_last :
      (owner : K) (xs : List (Attestation K S)) (a : Attestation K S)
      → verify F (record { owner = owner; attestations = xs ++ a ∷ [] }) ≡ ok tt
      → IsNext owner (length xs) (head F (record { owner = owner; attestations = xs })) a
  verified_last owner xs a h =
      let front : Chain K S = record { owner = owner; attestations = xs } in
      let whole = with_entry F front a in
      let (made, ordered) = (verify_iff_replay F whole).0 h in
      let (c, e, e') =
        >>=-eq-ok (replay F (new owner) xs) (λ c'. replay F c' (a ∷ []))
          (sym (replay-append (new owner) xs (a ∷ [])) ∙ made) in
      let same : c ≡ front = unfold new in replay-eq-ok (new owner) xs c e in
      ((append_iff F front a whole).0 (rw same at (replay_one c a whole e'))).0

  -- No two different entries of the two lists have one id.
  abbrev pub HaveNoCollision : List (Attestation K S) → List (Attestation K S) → Type 0
  HaveNoCollision xs ys = All (λ a. All (λ b. id F a ≡ id F b → a ≡ b) ys) xs

  head-some :
      (owner : K) (xs : List (Attestation K S)) (a : Attestation K S)
      → head F (record { owner = owner; attestations = xs ++ a ∷ [] }) ≡ some (id F a)
  unfolding head
  head-some owner xs a = rw (last-snoc xs a)

  no_head :
      (owner : K) (ys : List (Attestation K S))
      → head {S = S} F (record { owner = owner; attestations = [] })
        ≡ head F (record { owner = owner; attestations = ys })
      → [] ≡ ys
  no_head owner ys e = elim (snoc_view ys) [
    | inl ey ↦ sym ey
    | inr (ys', b, ey) ↦
        let ids = rw (ey, head-some owner ys' b) at e in unfold head in absurd (cc ids)
  ]

  collision-snoc :
      (xs ys : List (Attestation K S)) (a b : Attestation K S)
      → HaveNoCollision (xs ++ a ∷ []) (ys ++ b ∷ [])
      → HaveNoCollision xs ys × (id F a ≡ id F b → a ≡ b)
  collision-snoc xs ys a b h =
      let P = λ (c d : Attestation K S). id F c ≡ id F d → c ≡ d in
      let (front, end) = All-snoc (λ c. All (P c) (ys ++ b ∷ [])) xs a h in
      (fronts xs front, (All-snoc (P a) ys b end).1)
    where
      fronts :
          (zs : List (Attestation K S))
          → All (λ c. All (λ d. id F c ≡ id F d → c ≡ d) (ys ++ b ∷ [])) zs
          → HaveNoCollision zs ys
      fronts [] h = tt
      fronts (z ∷ zs) h = ((All-snoc (λ d. id F z ≡ id F d → z ≡ d) ys b h.0).0, fronts zs h.1)

  same_entries :
      (n : ℕ) (owner : K) (xs ys : List (Attestation K S))
      → length xs ≤ n
      → HaveNoCollision xs ys
      → verify F (record { owner = owner; attestations = xs }) ≡ ok tt
      → verify F (record { owner = owner; attestations = ys }) ≡ ok tt
      → head F (record { owner = owner; attestations = xs })
        ≡ head F (record { owner = owner; attestations = ys })
      → xs ≡ ys
  same_entries zero owner [] ys h free vx vy e = no_head owner ys e
  same_entries zero owner (x ∷ xs) ys h free vx vy e = absurd (omega arith)
  same_entries (suc n) owner xs ys h free vx vy e = elim (snoc_view xs) [
    | inl ex ↦ ex ∙ no_head owner ys (rw ex at e)
    | inr (xs', a, ex) ↦ elim (snoc_view ys) [
      | inl ey ↦ sym (no_head owner xs (sym (rw ey at e))) ∙ sym ey
      | inr (ys', b, ey) ↦
          let ids = rw (ex, ey, head-some owner xs' a, head-some owner ys' b) at e in
          let (free', apart) = collision-snoc xs' ys' a b (rw (ex, ey) at free) in
          let same : a ≡ b = apart (cc ids) in
          let na = verified_last owner xs' a (rw ex at vx) in
          let nb = verified_last owner ys' b (rw ey at vy) in
          let heads = sym na.prev ∙ ap (λ c. c.body.prev) same ∙ nb.prev in
          let shorter : length xs' ≤ n = omega (arith, ap length ex, length-append xs' (a ∷ [])) in
          let fronts =
            same_entries n owner xs' ys' shorter free'
              (verify_prefix owner xs' (a ∷ []) (rw ex at vx))
              (verify_prefix owner ys' (b ∷ []) (rw ey at vy)) heads in
          ex ∙ ap₂ (λ l c. l ++ c ∷ []) fronts same ∙ sym ey
    ]
  ]

  -- The head commits to the whole history: two verified chains of one owner with one head are one
  -- chain, unless two of their entries are different and have the same id.
  pub head-injective :
      (c d : Chain K S)
      → c.owner ≡ d.owner
      → verify F c ≡ ok tt
      → verify F d ≡ ok tt
      → HaveNoCollision c.attestations d.attestations
      → head F c ≡ head F d
      → c ≡ d
  head-injective c d o vc vd free e =
      let same =
        same_entries (length c.attestations) c.owner c.attestations d.attestations (omega arith)
          free vc (rw (sym o) at vd) (rw (sym o) at e) in
      λ i. record { owner = o i; attestations = same i }
