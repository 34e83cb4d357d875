-- ===== src/Escrow/Script/Transitions.antt =====
-- The covenant of krep-escrow/src/script.rs drives the state machine of krep-escrow/src/state.rs,
-- and keeps the money.
use k_rep.Base.{
  ℕ, zero, suc, ◌+◌, ◌^◌, ◌≡◌, ◌<◌, ◌≤◌, refl, ap, sym, ◌∙◌, Option, none, some, List, [], ◌∷◌,
  length, get_elem?, get_range, get_or, take, drop, slice, leb, if-cases, ok, arith, inl, inr,
}
use k_rep.Keys.{XOnly}
use k_rep.Core.Attestation.{Crypto}
use k_rep.Escrow.State.{EscrowState, Phase, opened, claimed, shipped, disputed, byte, decode}
use k_rep.Escrow.State.Canonical.{decode-IsRead, byte-from_byte}
use k_rep.Escrow.State.Phases.{Step, step, may_transition_to_iff}
use k_rep.Escrow.Terms.{Terms, terms_id, claimed_value}
use k_rep.Escrow.Machine.{Accepts, Vm, Spend, Output}
use k_rep.Escrow.Script.{
  Branch, claim, ship, settle, auto_release, dispute, resolve_to_maker, resolve_to_buyer, slash,
  refund, selector, header_for,
}
use k_rep.Escrow.Script.Rules.{IsPrior, IsNew}
use k_rep.Escrow.Script.Accepts.{IsPushable}
use k_rep.Escrow.Script.Covenant.{Rule, covenant_iff, signatures}
use k_rep.Escrow.Script.Dispatch.{covenant_script}
use k_rep.Escrow.Script.Outputs.{InRange}

-- The phase that a branch spends, and the one that it leaves where it stays in the covenant.
abbrev pub phase_before : Branch → Phase
phase_before claim = opened
phase_before ship = claimed
phase_before settle = shipped
phase_before auto_release = shipped
phase_before dispute = shipped
phase_before resolve_to_maker = disputed
phase_before resolve_to_buyer = disputed
phase_before slash = claimed
phase_before refund = opened

abbrev pub phase_after : Branch → Option Phase
phase_after claim = some claimed
phase_after ship = some shipped
phase_after dispute = some disputed
phase_after _ = none

get_range-slice : (a b : ℕ) (x y : List ℕ) → get_range a b x ≡ some y → slice a b x ≡ y
unfolding get_range
get_range-slice a b x y e = elim (if-cases (leb b (length x)) _ _ e) [
  | inl (fit, same) ↦ cc same
  | inr (short, no_value) ↦ absurd (cc no_value)
]

get_or-take : (n i : ℕ) (xs : List ℕ) → i < n → get_or (take n xs) i 0 ≡ get_or xs i 0
get_or-take zero i xs h = absurd (omega arith)
get_or-take (suc n) i [] h = refl
get_or-take (suc n) zero (x ∷ xs) h = refl
get_or-take (suc n) (suc i) (x ∷ xs) h = get_or-take n i xs (omega arith)

get_or-drop : (n : ℕ) (xs : List ℕ) → get_or (drop n xs) 0 0 ≡ get_or xs n 0
get_or-drop zero xs = refl
get_or-drop (suc n) [] = refl
get_or-drop (suc n) (x ∷ xs) = get_or-drop n xs

get_or-slice : (n : ℕ) (xs : List ℕ) (x : ℕ) → take 1 (drop n xs) ≡ x ∷ [] → get_or xs n 0 ≡ x
get_or-slice n xs x h =
    sym (get_or-drop n xs)
    ∙ sym (get_or-take 1 0 (drop n xs) (omega arith))
    ∙ ap (λ l. get_or l 0 0) h

module _ ⦃vm : Vm⦄ {K : Type 0} ⦃key : XOnly K⦄ (S : Type 0) ⦃crypto : Crypto K S⦄ (terms : Terms K)
    (t : Spend) (rest payload sig arbiter_sig : List ℕ) where
  Rule-IsPrior :
      (b : Branch)
      → Rule S terms t rest payload sig arbiter_sig b
      → IsPrior t rest payload (phase_before b) (terms_id S terms)
  Rule-IsPrior claim r = r.prior
  Rule-IsPrior ship r = r.prior
  Rule-IsPrior settle r = r.prior
  Rule-IsPrior auto_release r = r.prior
  Rule-IsPrior dispute r = r.2.prior
  Rule-IsPrior resolve_to_maker r = r.2.prior
  Rule-IsPrior resolve_to_buyer r = r.2.prior
  Rule-IsPrior slash r = r.prior
  Rule-IsPrior refund r = r.prior

  Rule-IsNew :
      (b : Branch) (p : Phase)
      → phase_after b ≡ some p
      → Rule S terms t rest payload sig arbiter_sig b
      → IsNew t p (terms_id S terms)
  Rule-IsNew claim p e r = let same : claimed ≡ p = cc e in rw (← same) r.new
  Rule-IsNew ship p e r = let same : shipped ≡ p = cc e in rw (← same) r.new
  Rule-IsNew dispute p e r = let same : disputed ≡ p = cc e in rw (← same) r.2.new
  Rule-IsNew b p e r = absurd (cc e)

  prior-byte :
      (p : Phase) (s : EscrowState K)
      → IsPrior t rest payload p (terms_id S terms)
      → decode payload ≡ ok s
      → (byte s.phase ≡ byte p) × (s.terms_id ≡ terms_id S terms)
  prior-byte p s r d =
      let read = decode-IsRead payload s d in
      (
        byte-from_byte _ _ read.phase_read
            ∙ get_or-slice 5 payload (byte p) (get_range-slice 5 6 payload _ r.in_phase),
        read.terms_read ∙ get_range-slice 6 38 payload _ r.job,
      )

  new-byte :
      (p : Phase) (s : EscrowState K)
      → IsNew t p (terms_id S terms)
      → decode t.payload ≡ ok s
      → (byte s.phase ≡ byte p) × (s.terms_id ≡ terms_id S terms)
  unfolding header_for
  new-byte p s r d =
      let read = decode-IsRead t.payload s d in
      (
        byte-from_byte _ _ read.phase_read
            ∙ sym (get_or-take 6 5 t.payload (omega arith))
            ∙ ap (λ l. get_or l 5 0) (get_range-slice 0 6 t.payload _ r.header),
        read.terms_read ∙ get_range-slice 6 38 t.payload _ r.job,
      )

-- The bytes of the phases on both sides of a branch that stays in the covenant.
byte-phase_after :
    (b : Branch) (p : Phase) → phase_after b ≡ some p → byte p ≡ byte (phase_before b) + 1
unfolding byte
byte-phase_after claim p e = let same : claimed ≡ p = cc e in rw (← same)
byte-phase_after ship p e = let same : shipped ≡ p = cc e in rw (← same)
byte-phase_after dispute p e = let same : disputed ≡ p = cc e in rw (← same)
byte-phase_after b p e = absurd (cc e)

-- What an escrow in some phase holds: the reward, and from the claim on the bond too.
abbrev pub held : {K : Type 0} → Terms K → Phase → ℕ
held terms opened = terms.reward
held terms _ = terms.reward + terms.maker_bond

-- What the first output of a spend holds: what an escrow in the next phase holds, and at the end
-- everything.
abbrev pub held_after : {K : Type 0} → Terms K → Branch → Option Phase → ℕ
held_after terms b (some p) = held terms p
held_after terms b none = held terms (phase_before b)

claimed_value_lem :
    {K : Type 0} (terms : Terms K)
    → IsPushable terms
    → claimed_value terms ≡ terms.reward + terms.maker_bond
unfolding claimed_value
claimed_value_lem terms h = omega (arith, h.value)

module _ ⦃vm : Vm⦄ {K : Type 0} ⦃key : XOnly K⦄ (S : Type 0) ⦃crypto : Crypto K S⦄ (terms : Terms K)
    (t : Spend) (rest payload sig arbiter_sig : List ℕ) (pushable : IsPushable terms)
    (fits : InRange t) (bond : t.input_amount + terms.maker_bond < 2 ^ 63)
    (short : length rest + length payload ≤ vm.max_element) (b : Branch)
    (accepted : Accepts t
      (covenant_script S terms)
      (vm.number (selector b) ∷ payload ∷ rest ∷ signatures b sig arbiter_sig)) where
  followed : Rule S terms t rest payload sig arbiter_sig b
  followed =
      (covenant_iff S terms t rest payload sig arbiter_sig pushable fits bond short b).0 accepted

  -- Take terms whose reward and bond together, deadline and release delay are below 2 ^ 63, and a
  -- spend whose input amount and bond together, amount of the first output, payload length and lock
  -- time are below 2 ^ 63. Let the covenant start on a stack of the branch's selector, the payload
  -- that is spent, the other bytes of its transaction, no longer with the payload than an element may
  -- be, and the signatures of the branch. Where it accepts the spend by a branch that stays in the
  -- covenant, and both payloads decode to states, the new state is a legal step from the old one, and
  -- both are of the job.
  pub covenant-Step :
      (p : Phase) (old new : EscrowState K)
      → phase_after b ≡ some p
      → decode payload ≡ ok old
      → decode t.payload ≡ ok new
      → Step old new × (old.terms_id ≡ terms_id S terms) × (new.terms_id ≡ terms_id S terms)
  covenant-Step p old new e d d' =
      let (before, job) =
        prior-byte S terms t rest payload sig arbiter_sig (phase_before b) old
          (Rule-IsPrior S terms t rest payload sig arbiter_sig b followed) d in
      let (after, job') =
        new-byte S terms t rest payload sig arbiter_sig p new
          (Rule-IsNew S terms t rest payload sig arbiter_sig b p e followed) d' in
      let next : byte new.phase ≡ byte old.phase + 1 = omega (arith, byte-phase_after b p e) in
      (
        step ((may_transition_to_iff old new.phase).1 next) (decode-IsRead payload old d).invariants
            (decode-IsRead t.payload new d').invariants,
        job,
        job',
      )

  -- Take terms whose reward and bond together, deadline and release delay are below 2 ^ 63, and a
  -- spend whose input amount and bond together, amount of the first output, payload length and lock
  -- time are below 2 ^ 63. Let the covenant start on a stack of the branch's selector, the payload
  -- that is spent, the other bytes of its transaction, no longer with the payload than an element may
  -- be, and the signatures of the branch. Where it accepts the spend of an escrow that holds what its
  -- phase has to hold, the first output holds what the next phase has to hold, or all of it where the
  -- escrow ends.
  pub covenant_conserves :
      t.input_amount ≡ held terms (phase_before b)
      → (o : Output) × (get_elem? t.outputs 0 ≡ some o)
        × (o.amount ≡ held_after terms b (phase_after b))
  covenant_conserves holds = conserves b followed holds
    where
      conserves :
          (b : Branch)
          → Rule S terms t rest payload sig arbiter_sig b
          → t.input_amount ≡ held terms (phase_before b)
          → (o : Output) × (get_elem? t.outputs 0 ≡ some o)
            × (o.amount ≡ held_after terms b (phase_after b))
      conserves claim r h = let c = r.continued in (c.output, c.first, omega (arith, c.amount))
      conserves ship r h = let c = r.continued in (c.output, c.first, c.amount ∙ h)
      conserves dispute r h = let c = r.2.continued in (c.output, c.first, c.amount ∙ h)
      conserves settle r h =
          let c = r.paid in (c.output, c.first, c.amount ∙ claimed_value_lem terms pushable)
      conserves auto_release r h =
          let c = r.paid in (c.output, c.first, c.amount ∙ claimed_value_lem terms pushable)
      conserves resolve_to_maker r h =
          let c = r.2.paid in (c.output, c.first, c.amount ∙ claimed_value_lem terms pushable)
      conserves resolve_to_buyer r h =
          let c = r.2.paid in (c.output, c.first, c.amount ∙ claimed_value_lem terms pushable)
      conserves slash r h =
          let c = r.paid in (c.output, c.first, c.amount ∙ claimed_value_lem terms pushable)
      conserves refund r h = let c = r.paid in (c.output, c.first, c.amount)
