-- ===== src/Core/Chain/Entries.antt =====
-- One entry at a time: when `append` and a round of `verify` accept it (krep-core/src/chain.rs).
use k_rep.Base.{
  ℕ, ◌≤◌, ◌≡◌, ◌↔◌, refl, ap, Option, none, some, List, [], ◌∷◌, ◌++◌, true, ok, length,
  beq_bytes_iff, arith,
}
use k_rep.Keys.{XOnly}
use k_rep.Core.Field.{FieldOps}
use k_rep.Core.Attestation
use k_rep.Core.Attestation.{Attestation, Crypto, KrepError, id}
use k_rep.Core.Chain.{Chain, same_id, head, append, check_entry}

pub same_id_iff : (a b : Option (List ℕ)) → (same_id a b ≡ true) ↔ (a ≡ b)
same_id_iff none none = (λ e. refl, λ e. refl)
same_id_iff none (some b) = (λ e. cc, λ e. cc)
same_id_iff (some a) none = (λ e. cc, λ e. cc)
same_id_iff (some a) (some b) =
    (λ h. ap some ((beq_bytes_iff a b).0 h), λ e. (beq_bytes_iff a b).1 (cc e))

module _ {K S : Type 0} ⦃key : XOnly K⦄ ⦃crypto : Crypto K S⦄ where
  -- An entry that follows `i` entries, the last of which has the id `p`.
  pub record IsNext (owner : K) (i : ℕ) (p : Option (List ℕ)) (a : Attestation K S) : Type 0 where
    pub owned : a.body.owner ≡ owner
    pub index : a.body.index ≡ i
    pub prev : a.body.prev ≡ p
    pub verified : Attestation.verify a ≡ ok tt

module _ {K S : Type 0} (F : Type 0) ⦃key : XOnly K⦄ ⦃crypto : Crypto K S⦄
    ⦃field : FieldOps F⦄ where
  -- The chain with one more entry.
  abbrev pub with_entry : Chain K S → Attestation K S → Chain K S
  with_entry c a = record c { attestations = c.attestations ++ a ∷ [] }

  pub append_iff :
      (c : Chain K S) (a : Attestation K S) (c' : Chain K S)
      → (append F c a ≡ ok c')
        ↔ (IsNext c.owner (length c.attestations) (head F c) a × (c' ≡ with_entry c a))
  unfolding append
  append_iff c a c' =
      let same = key.same_iff a.body.owner c.owner in
      let id_same = same_id_iff a.body.prev (head F c) in
      (
        λ h. (
          record {
            owned = ground (arith, same);
            index = ground arith;
            prev = ground (arith, id_same);
            verified = ground arith;
          },
          ground arith,
        ),
        λ h. ground (arith, same.1 h.0.owned, h.0.index, id_same.1 h.0.prev, h.0.verified, h.1),
      )

  pub check_entry_iff :
      (owner : K) (i : ℕ) (p : Option (List ℕ)) (t : ℕ) (a : Attestation K S)
      → (check_entry F owner i p t a ≡ ok tt) ↔ (IsNext owner i p a × (t ≤ a.body.ts))
  unfolding check_entry
  check_entry_iff owner i p t a =
      let same = key.same_iff a.body.owner owner in
      let id_same = same_id_iff a.body.prev p in
      (
        λ h. (
          record {
            owned = ground (arith, same);
            index = ground arith;
            prev = ground (arith, id_same);
            verified = ground arith;
          },
          ground arith,
        ),
        λ h. ground (arith, same.1 h.0.owned, h.0.index, id_same.1 h.0.prev, h.0.verified, h.1),
      )
