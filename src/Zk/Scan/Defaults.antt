-- ===== src/Zk/Scan/Defaults.antt =====
-- Which spends record a default, and for whom (`default_from_spend` of krep-zk/src/scan.rs).
use k_rep.Base.{
  ℕ, ◌+◌, ◌≡◌, ◌≢◌, ◌↔◌, inl, inr, refl, ap, sym, ◌∙◌, true, not, some, List, Result, ok, err,
  slice, arith, if-cases, ◌==◌, ==_iff, eq_of_not_ne, to_option, Option-cases, not-false,
  then_some-eq-some,
}
use k_rep.Keys.{XOnly}
use k_rep.Escrow.State.{
  EscrowState, Phase, opened, claimed, shipped, disputed, decode, check_invariants, off_maker_rep,
}
use k_rep.Escrow.State.Layout.{key_bytes}
use k_rep.Escrow.State.Canonical.{decode-IsRead, key_bytes-read_key}
use k_rep.Zk.Scan.{branch_selector, was_claimed, default_from_spend}

was_claimed_iff : (p : Phase) → (was_claimed p ≡ true) ↔ (p ≢ opened)
was_claimed_iff opened = (λ e. cc, λ h. absurd (h refl))
was_claimed_iff claimed = (λ e h. cc h, λ h. refl)
was_claimed_iff shipped = (λ e h. cc h, λ h. refl)
was_claimed_iff disputed = (λ e h. cc h, λ h. refl)

to_option-eq-some {ℓ κ} :
    {E : Type ℓ} {A : Type κ} (r : Result E A) {a : A} → to_option r ≡ some a → r ≡ ok a
to_option-eq-some (ok x) h = cc h
to_option-eq-some (err e) h = cc h

module _ {K : Type 0} ⦃key : XOnly K⦄ where
  -- A state that was claimed and meets its invariants names a pseudonym.
  claimed_names :
      (s : EscrowState K)
      → was_claimed s.phase ≡ true
      → check_invariants s ≡ ok tt
      → (k : K) × (s.maker_rep ≡ some k)
  unfolding check_invariants
  claimed_names s c inv = elim (Option-cases s.maker_rep) [
    | inr found ↦ found
    | inl absent ↦ absurd (ground (arith, absent))
  ]

  rep-slice :
      (payload : List ℕ) (s : EscrowState K) (k : K)
      → decode payload ≡ ok s
      → s.maker_rep ≡ some k
      → key.serialize k ≡ slice 70 102 payload
  rep-slice payload s k e named =
      let read = (decode-IsRead payload s e).maker_rep_read in
      sym (ap key_bytes named) ∙ key_bytes-read_key _ (slice 70 102 payload) s.maker_rep read

-- A spend records a default exactly when it selected the slash branch of an escrow whose payload
-- decodes to a state past OPEN, and then for the 32 bytes of the payload at the offset 70.
pub default_from_spend_iff :
    (K : Type 0) ⦃key : XOnly K⦄ (payload script : List ℕ) (slash : ℕ) (rep : List ℕ)
    → (default_from_spend K payload script slash ≡ some rep) ↔ (
        (branch_selector script ≡ some slash)
        × ((s : EscrowState K) × (decode payload ≡ ok s) × (s.phase ≢ opened))
        × (rep ≡ slice off_maker_rep (off_maker_rep + 32) payload))
unfolding default_from_spend
default_from_spend_iff K payload script slash rep = (to, from)
  where
    to :
        default_from_spend K payload script slash ≡ some rep
        → (branch_selector script ≡ some slash)
          × ((s : EscrowState K) × (decode payload ≡ ok s) × (s.phase ≢ opened))
          × (rep ≡ slice off_maker_rep (off_maker_rep + 32) payload)
    to h =
        let (chosen, e, h₁) = then_some-eq-some (branch_selector script) _ h in
        elim (if-cases (not (chosen == slash)) _ _ h₁) [
          | inl (b, refused) ↦ cc refused
          | inr (b, h₂) ↦
              let (s, e₂, h₃) = then_some-eq-some (to_option (decode {K = K} payload)) _ h₂ in
              elim (if-cases (not (was_claimed s.phase)) _ _ h₃) [
                | inl (b₂, refused) ↦ cc refused
                | inr (b₂, h₄) ↦
                    let (k, named, e₄) = then_some-eq-some s.maker_rep _ h₄ in
                    let read = to_option-eq-some (decode {K = K} payload) e₂ in
                    (
                      e ∙ ap some (eq_of_not_ne chosen slash b),
                      (s, read, (was_claimed_iff s.phase).0 (not-false _ b₂)),
                      sym (cc e₄) ∙ rep-slice payload s k read named,
                    )
              ]
        ]

    from :
        (branch_selector script ≡ some slash)
          × ((s : EscrowState K) × (decode payload ≡ ok s) × (s.phase ≢ opened))
          × (rep ≡ slice off_maker_rep (off_maker_rep + 32) payload)
        → default_from_spend K payload script slash ≡ some rep
    from (chosen, (s, read, past), bytes) =
        let c = (was_claimed_iff s.phase).1 past in
        let (k, named) = claimed_names s c (decode-IsRead payload s read).invariants in
        rw (chosen, (==_iff slash slash).1 refl, read, c, named)
          (ap some (rep-slice payload s k read named ∙ sym bytes))
