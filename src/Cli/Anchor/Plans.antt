-- ===== src/Cli/Anchor/Plans.antt =====
-- What `plan_tx` of krep-cli/src/anchor.rs promises of an anchor transaction.
use k_rep.Base.{
  ℕ, ◌+◌, ◌≡◌, ◌≤◌, ◌<◌, refl, ap, sym, ◌∙◌, Option, none, some, List, [], ◌∷◌, ◌++◌, map, length,
  length-map, length-take, length-append, append_assoc, append-nil, take, drop, take-append-drop,
  if-cases, inl, inr, ok, >>=-eq-ok, ok_or, ok_or-eq-ok, then_some-eq-some, eq-beq_bytes, ◌==◌,
  ==_iff, beq_bytes, ◌&&◌, Bool, true, false, arith,
}
use k_rep.Core.Attestation.{Outpoint}
use k_rep.Cli.Anchor.{
  Utxo, UtxoEntry, Network, AnchorPlan, max_inputs, build_payload, same_outpoint, remove_pinned,
  pin, sort_by_amount, select_loop, plan_tx, plan_of,
}
use mathlib.Core.Path.{subst}
use mathlib.Core.List.{flatten}
use k_rep.Cli.Anchor.Fees.{base_mass, total_of, IsSelected, select_loop-IsSelected}

-- The total of the amounts of some entries.
abbrev pub sum_amounts : List UtxoEntry → ℕ
sum_amounts [] = 0
sum_amounts (e ∷ es) = e.amount + sum_amounts es

total_of-map : (us : List Utxo) → sum_amounts (map (λ (u : Utxo). u.1) us) ≡ total_of us
total_of-map [] = refl
total_of-map (u ∷ us) = omega (arith, total_of-map us)

-- The first input is the pinned one.
abbrev pub Pinned : Option Outpoint → List Outpoint → Type 0
Pinned none inputs = Unit {0}
Pinned (some p) inputs = (rest : List Outpoint) × (inputs ≡ p ∷ rest)

module _ {R : Type 0} ⦃network : Network R⦄ where
  pub record IsPlan (ids : List (List ℕ)) (feerate : R) (must_spend : Option Outpoint)
      (plan : AnchorPlan) : Type 0 where
    -- one id or two, one after the other, and nothing else
    pub some_id : 1 ≤ length ids
    pub few_ids : length ids ≤ 2
    pub commits : plan.payload ≡ flatten ids
    pub counted : plan.input_count ≡ length plan.inputs
    pub some_input : 1 ≤ plan.input_count
    pub few_inputs : plan.input_count ≤ max_inputs
    pub funded : plan.total_in ≡ sum_amounts plan.entries
    -- nothing is lost, and something is paid out
    pub balanced : plan.out_value + plan.fee ≡ plan.total_in
    pub paid_out : 0 < plan.out_value
    pub rate : plan.fee ≡ network.fee_for plan.mass feerate
    pub enough : base_mass plan.input_count (length plan.payload) ≤ plan.mass
    pub pinned : Pinned must_spend plan.inputs

build_payload-eq-ok :
    (ids : List (List ℕ)) (payload : List ℕ)
    → build_payload ids ≡ ok payload
    → (1 ≤ length ids) × ((length ids ≤ 2) × (payload ≡ flatten ids))
unfolding build_payload flatten
build_payload-eq-ok [] payload h = absurd (cc h)
build_payload-eq-ok (a ∷ []) payload h =
    let same : a ≡ payload = cc h in (omega arith, (omega arith, sym same ∙ sym (append-nil a)))
build_payload-eq-ok (a ∷ b ∷ []) payload h =
    let same : a ++ b ≡ payload = cc h in
    (omega arith, (omega arith, sym same ∙ ap (λ l. a ++ l) (sym (append-nil b))))
build_payload-eq-ok (a ∷ b ∷ c ∷ ids) payload h = absurd (cc h)

same_outpoint-eq : (a b : Outpoint) → same_outpoint a b ≡ true → a ≡ b
same_outpoint-eq a b h =
    let (same, index) = and-eq-true (beq_bytes a.txid b.txid) (a.index == b.index) h in
    let txid = eq-beq_bytes a.txid b.txid same in
    let at = (==_iff a.index b.index).0 index in λ i. record { txid = txid i; index = at i }
  where
    and-eq-true : (x y : Bool) → (x && y) ≡ true → (x ≡ true) × (y ≡ true)
    and-eq-true true y h = (refl, h)
    and-eq-true false y h = absurd (cc h)

remove_pinned-eq-some :
    (p : Outpoint) (us rest : List Utxo) (u : Utxo) → remove_pinned p us ≡ some (u, rest) → u.0 ≡ p
unfolding remove_pinned
remove_pinned-eq-some p [] rest u h = absurd (cc h)
remove_pinned-eq-some p (v ∷ us) rest u h = elim (if-cases (same_outpoint v.0 p) _ _ h) [
  | inl (same, e) ↦
      let found : (v, us) ≡ (u, rest) = cc e in
      ap (λ (q : Utxo × List Utxo). (q.0).0) (sym found) ∙ same_outpoint-eq v.0 p same
  | inr (other, e) ↦
      let (r, later, e') = then_some-eq-some (remove_pinned p us) _ e in
      let found : (r.0, v ∷ r.1) ≡ (u, rest) = cc e' in
      ap (λ (q : Utxo × List Utxo). (q.0).0) (sym found) ∙ remove_pinned-eq-some p us r.1 r.0 later
]

-- After `pin`, the pinned outpoint is the first.
pin-Pinned :
    (must : Option Outpoint) (us vs taken left : List Utxo)
    → pin must us ≡ ok vs
    → vs ≡ taken ++ left
    → 1 ≤ length taken
    → Pinned must (map (λ (u : Utxo). u.0) taken)
unfolding pin
pin-Pinned none us vs taken left h e n = tt
pin-Pinned (some p) us vs [] left h e n = absurd (omega arith)
pin-Pinned (some p) us vs (u ∷ taken) left h e n =
    let (r, found, first) = >>=-eq-ok (ok_or (remove_pinned p us) _) _ h in
    let here = remove_pinned-eq-some p us r.1 r.0 (ok_or-eq-ok _ _ found) in
    let same : u ≡ r.0 = cc (first, e) in
    (
      map (λ (v : Utxo). v.0) taken,
      ap (λ (o : Outpoint). o ∷ map (λ (v : Utxo). v.0) taken) (ap (λ (v : Utxo). v.0) same ∙ here),
    )

module _ {R : Type 0} ⦃network : Network R⦄ where
  plan_of-IsPlan :
      (ids : List (List ℕ)) (feerate : R) (must : Option Outpoint) (utxos us : List Utxo)
      (payload : List ℕ) (selected : List Utxo) (total fee mass : ℕ)
      → build_payload ids ≡ ok payload
      → pin must utxos ≡ ok us
      → IsSelected (take max_inputs us) [] 0 (length payload) feerate selected total fee mass
      → IsPlan ids feerate must (plan_of payload (selected, total, fee, mass))
  plan_of-IsPlan ids feerate must utxos us payload selected total fee mass e₁ e₂ r =
      let whole : us ≡ r.taken ++ (r.left ++ drop max_inputs us) =
        sym (take-append-drop max_inputs us)
        ∙ ap (λ l. l ++ drop max_inputs us) r.split
        ∙ append_assoc r.taken r.left (drop max_inputs us) in
      let ids_of = build_payload-eq-ok ids payload e₁ in
      let width : length selected ≡ length r.taken = ap length r.kept in
      let same : total_of selected ≡ total_of r.taken = ap total_of r.kept in
      let few : length r.taken ≤ max_inputs =
        omega (arith, ap length r.split, length-append r.taken r.left, length-take max_inputs us) in
      record {
        some_id = ids_of.0;
        few_ids = ids_of.1.0;
        commits = ids_of.1.1;
        counted = sym (length-map selected (λ (u : Utxo). u.0));
        some_input = omega (arith, r.some_taken, width);
        few_inputs = omega (arith, few, width);
        funded = omega (arith, r.sum, same, total_of-map selected);
        balanced = omega (arith, r.solved.paid);
        paid_out = omega (arith, r.solved.paid);
        rate = r.solved.rate;
        enough = omega (arith, r.solved.settled);
        pinned =
            subst (λ l. Pinned must (map (λ (u : Utxo). u.0) l)) (sym r.kept)
              (pin-Pinned must utxos us r.taken (r.left ++ drop max_inputs us) e₂ whole
                r.some_taken);
      }

  -- A plan is for one id or two, and its payload is these ids, in order, and nothing else; it has one
  -- to eight inputs, the pinned one first, spends what its entries hold, pays out all of it but the
  -- fee, and something, and the fee is the rate's for a mass no less than the base mass.
  pub plan_tx-IsPlan :
      (utxos : List Utxo) (ids : List (List ℕ)) (feerate : R) (must_spend : Option Outpoint)
      (plan : AnchorPlan)
      → plan_tx utxos ids feerate must_spend ≡ ok plan
      → IsPlan ids feerate must_spend plan
  unfolding plan_tx
  plan_tx-IsPlan utxos ids feerate must_spend plan h =
      let (payload, e₁, h₁) = >>=-eq-ok (build_payload ids) _ h in
      let (us, e₂, h₂) = >>=-eq-ok (pin must_spend (sort_by_amount utxos)) _ h₁ in
      let (q, e₃, h₃) =
        >>=-eq-ok (ok_or (select_loop (take max_inputs us) [] 0 (length payload) feerate) _) _ h₂ in
      let r =
        select_loop-IsSelected (take max_inputs us) [] 0 (length payload) feerate q.0 q.1 q.2 q.3
          (ok_or-eq-ok _ _ e₃) in
      let made : plan_of payload q ≡ plan = cc h₃ in
      subst (IsPlan ids feerate must_spend) made (
        plan_of-IsPlan ids feerate must_spend (sort_by_amount utxos) us payload q.0 q.1 q.2 q.3 e₁
          e₂ r)
