-- ===== src/Cli/Anchor/Fees.antt =====
-- The fee and the inputs that krep-cli/src/anchor.rs settles on.
use k_rep.Base.{
  ℕ, zero, suc, ◌+◌, ◌-◌, ◌*◌, ◌≡◌, ◌≤◌, ◌<◌, max, refl, ap, sym, ◌∙◌, Option, none, some, List, [],
  ◌∷◌, ◌++◌, append_assoc, length, leb, ◌==◌, ==_iff, if-cases, inl, inr, ◌⊎◌, arith,
}
use k_rep.Cli.Anchor.{
  Utxo, Network, estimate_mass, storage_mass, fee_loop, solve_fee, select_loop, if_let,
}
use mathlib.Core.Path.{subst}

if_let-cases {ℓ κ} :
    {A : Type ℓ} {B : Type κ} (o : Option A) (f : A → B) (rest : B) {b : B}
    → if_let o f rest ≡ b
    → (rest ≡ b) ⊎ ((a : A) × (o ≡ some a) × (f a ≡ b))
if_let-cases none f rest h = inl h
if_let-cases (some a) f rest h = inr (a, refl, h)

-- The mass of a selection without its storage mass.
abbrev pub base_mass : ℕ → ℕ → ℕ
base_mass num_inputs payload_len =
    let masses = estimate_mass num_inputs 1 payload_len in max masses.0 (masses.1 * 2)

-- The total of some amounts.
abbrev pub total_of : List Utxo → ℕ
total_of [] = 0
total_of (u ∷ us) = (u.1).amount + total_of us

total_of-append : (us vs : List Utxo) → total_of (us ++ vs) ≡ total_of us + total_of vs
total_of-append [] vs = omega arith
total_of-append (u ∷ us) vs = omega (arith, total_of-append us vs)

module _ {R : Type 0} ⦃network : Network R⦄ where
  -- A fee that the selection pays with something left, for a mass that is the greater of the base
  -- mass and the storage mass of what is left.
  pub record IsSolved (selection : List Utxo) (total_in payload_len : ℕ) (feerate : R)
      (fee mass : ℕ) : Type 0 where
    pub paid : fee < total_in
    pub rate : fee ≡ network.fee_for mass feerate
    pub settled :
        mass
        ≡ max (base_mass (length selection) payload_len) (storage_mass R selection (total_in - fee))

  fee_loop-eq-some :
      (fuel : ℕ) (selection : List Utxo) (total_in non_storage : ℕ) (feerate : R)
      (start fee mass : ℕ)
      → fee_loop fuel selection total_in non_storage feerate start ≡ some (fee, mass)
      → (fee < total_in)
        × (fee ≡ network.fee_for mass feerate)
        × (mass ≡ max non_storage (storage_mass R selection (total_in - fee)))
  unfolding fee_loop
  fee_loop-eq-some zero selection total_in non_storage feerate start fee mass h = absurd (cc h)
  fee_loop-eq-some (suc fuel) selection total_in non_storage feerate start fee mass h =
      elim (if-cases (leb total_in (network.fee_for start feerate)) _ _ h) [
        | inl (dear, e) ↦ absurd (cc e)
        | inr (cheap, e) ↦
            elim (if-cases
              (max non_storage (storage_mass R selection (total_in - network.fee_for start feerate))
                == start)
              _ _ e) [
                | inl (same, found) ↦
                    let fixed = (==_iff _ start).0 same in
                    let answer : (network.fee_for start feerate, start) ≡ (fee, mass) = cc found in
                    let fee_is : network.fee_for start feerate ≡ fee =
                      ap (λ (q : ℕ × ℕ). q.0) answer in
                    let mass_is : start ≡ mass = ap (λ (q : ℕ × ℕ). q.1) answer in
                    (
                      rw (← fee_is) (ground arith),
                      sym fee_is ∙ ap (λ (m : ℕ). network.fee_for m feerate) mass_is,
                      sym mass_is
                          ∙ sym fixed
                          ∙ ap
                              (λ (f : ℕ). max non_storage (storage_mass R selection (total_in - f)))
                              fee_is,
                    )
                | inr (other, later) ↦
                    fee_loop-eq-some fuel selection total_in non_storage feerate _ fee mass later
              ]
      ]

  -- A fee that is found is paid with something left, at the rate, for a mass that has settled.
  pub solve_fee-IsSolved :
      (selection : List Utxo) (total_in payload_len : ℕ) (feerate : R) (fee mass : ℕ)
      → solve_fee selection total_in payload_len feerate ≡ some (fee, mass)
      → IsSolved selection total_in payload_len feerate fee mass
  unfolding solve_fee
  solve_fee-IsSolved selection total_in payload_len feerate fee mass h =
      let (paid, rate, settled) =
        fee_loop-eq-some 4 selection total_in (base_mass (length selection) payload_len) feerate _
          fee mass h in
      record { paid = paid; rate = rate; settled = settled }

  -- What the selection is made of: what was there, and a first part of what was offered.
  pub record IsSelected (us selected : List Utxo) (total_in payload_len : ℕ) (feerate : R)
      (now : List Utxo) (total fee mass : ℕ) : Type 0 where
    pub taken : List Utxo
    pub left : List Utxo
    pub split : us ≡ taken ++ left
    pub some_taken : 1 ≤ length taken
    pub kept : now ≡ selected ++ taken
    pub sum : total ≡ total_in + total_of taken
    pub solved : IsSolved now total payload_len feerate fee mass

  pub select_loop-IsSelected :
      (us selected : List Utxo) (total_in payload_len : ℕ) (feerate : R) (now : List Utxo)
      (total fee mass : ℕ)
      → select_loop us selected total_in payload_len feerate ≡ some (now, total, fee, mass)
      → IsSelected us selected total_in payload_len feerate now total fee mass
  unfolding select_loop
  select_loop-IsSelected [] selected total_in payload_len feerate now total fee mass h =
      absurd (cc h)
  select_loop-IsSelected (u ∷ us) selected total_in payload_len feerate now total fee mass h =
      elim (if_let-cases
        (solve_fee (selected ++ (u ∷ [])) (total_in + (u.1).amount) payload_len feerate) _ _ h) [
          | inl later ↦
              let r =
                select_loop-IsSelected us (selected ++ (u ∷ [])) (total_in + (u.1).amount)
                  payload_len feerate now total fee mass later in
              record {
                taken = u ∷ r.taken;
                left = r.left;
                split = ap (λ t. u ∷ t) r.split;
                some_taken = omega arith;
                kept = r.kept ∙ append_assoc selected (u ∷ []) r.taken;
                sum = omega (arith, r.sum);
                solved = r.solved;
              }
          | inr (q, e, stop) ↦
              let answer : (selected ++ (u ∷ []), total_in + (u.1).amount, q.0, q.1)
                  ≡ (now, total, fee, mass) =
                cc stop in
              let sel = ap (λ (z : List Utxo × ℕ × ℕ × ℕ). z.0) answer in
              let tot = ap (λ (z : List Utxo × ℕ × ℕ × ℕ). z.1) answer in
              let pair : q ≡ (fee, mass) = ap (λ (z : List Utxo × ℕ × ℕ × ℕ). (z.2, z.3)) answer in
              let solved =
                solve_fee-IsSolved (selected ++ (u ∷ [])) (total_in + (u.1).amount) payload_len
                  feerate fee mass (e ∙ ap some pair) in
              record {
                taken = u ∷ [];
                left = us;
                split = refl;
                some_taken = omega arith;
                kept = sym sel;
                sum = omega (arith, tot);
                solved =
                    subst (λ (z : List Utxo × ℕ). IsSolved z.0 z.1 payload_len feerate fee mass)
                      (ap (λ (z : List Utxo × ℕ × ℕ × ℕ). (z.0, z.1)) answer) solved;
              }
        ]
