-- ===== src/Core/Chain/Score.antt =====
-- `Chain::score` (krep-core/src/chain.rs).
pub mod Counts
use k_rep.Base.{
  ℕ, zero, suc, ◌+◌, ◌-◌, Bool, true, false, Option, none, some, List, [], ◌∷◌, length, ltb, ◌==◌,
  if◌then◌else◌, beq_bytes, min, max,
}
use k_rep.Keys.{XOnly}
use k_rep.Core.Attestation.{Attestation, Outcome, success, default, disputed_resolved}
use k_rep.Core.Chain.{Chain, last, map_option}

-- `f64`: what the rates are computed with.
pub record Float (R : Type 0) : Type 0 where
  pub of_u64 : ℕ → R
  pub divide : R → R → R

pub record Score (R : Type 0) : Type 0 where
  pub trades : ℕ
  pub defaults : ℕ
  pub disputes : ℕ
  pub default_rate : R
  pub unique_counterparties : ℕ
  pub counterparty_diversity : R
  pub first_ts : Option ℕ
  pub last_ts : Option ℕ
  pub volume_hist : List ℕ

-- The mutable locals of the loop. `counterparties` is the set as a list.
pub record Tally : Type 0 where
  pub defaults : ℕ
  pub disputes : ℕ
  pub volume_hist : List ℕ
  pub counterparties : List (List ℕ)

abbrev pub contains : List ℕ → List (List ℕ) → Bool
contains k [] = false
contains k (x ∷ xs) = if beq_bytes k x then true else contains k xs

-- `HashSet::insert`
unfoldable pub insert : List ℕ → List (List ℕ) → List (List ℕ)
insert k xs = if contains k xs then xs else k ∷ xs

-- `volume_hist[b] += 1`
unfoldable pub bump : ℕ → List ℕ → List ℕ
bump i [] = []
bump zero (n ∷ ns) = (n + 1) ∷ ns
bump (suc i) (n ∷ ns) = n ∷ bump i ns

-- The `match` on the outcome, with the two counters.
unfoldable pub count_outcome : Outcome → Tally → Tally
count_outcome default t = record t { defaults = t.defaults + 1 }
count_outcome disputed_resolved t = record t { disputes = t.disputes + 1 }
count_outcome success t = t

abbrev pub empty_tally : Tally
empty_tally = record {
  defaults = 0;
  disputes = 0;
  volume_hist = 0 ∷ 0 ∷ 0 ∷ 0 ∷ [];
  counterparties = [];
}

abbrev pub first {ℓ} : {A : Type ℓ} → List A → Option A
first [] = none
first (x ∷ xs) = some x

module _ {K S : Type 0} ⦃key : XOnly K⦄ where
  unfoldable pub tally_entry : Attestation K S → Tally → Tally
  unfolding count_outcome insert bump
  tally_entry a t =
      let t' = count_outcome a.body.outcome t in
      let b = min (max a.body.amount_bucket 1) 4 - 1 in
      record t' {
        volume_hist = bump b t'.volume_hist;
        counterparties = insert (key.serialize a.body.counterparty) t'.counterparties;
      }

  unfoldable pub tally_loop : Tally → List (Attestation K S) → Tally
  tally_loop t [] = t
  tally_loop t (a ∷ rest) = tally_loop (tally_entry a t) rest

  unfoldable pub score : {R : Type 0} ⦃float : Float R⦄ → Chain K S → Score R
  score ⦃float = float⦄ c =
      let n = length c.attestations in
      let t = tally_loop empty_tally c.attestations in
      let unique = length t.counterparties in
      record {
        trades = n;
        defaults = t.defaults;
        disputes = t.disputes;
        default_rate =
            if ltb 0 n
            then float.divide (float.of_u64 t.defaults) (float.of_u64 n)
            else float.of_u64 0;
        unique_counterparties = unique;
        counterparty_diversity =
            if ltb 0 n then float.divide (float.of_u64 unique) (float.of_u64 n) else float.of_u64 0;
        first_ts = map_option (λ a. a.body.ts) (first c.attestations);
        last_ts = map_option (λ a. a.body.ts) (last c.attestations);
        volume_hist = t.volume_hist;
      }
