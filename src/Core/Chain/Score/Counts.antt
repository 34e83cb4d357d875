-- ===== src/Core/Chain/Score/Counts.antt =====
-- What the counters of `score` count (krep-core/src/chain.rs).
use k_rep.Base.{
  ℕ, zero, suc, ◌+◌, ◌-◌, ◌≤◌, ◌<◌, ◌≡◌, refl, ap, ◌∙◌, Bool, true, false, List, [], ◌∷◌, length,
  get_or, arith, ◌==◌, if◌then◌else◌, beq_bytes, beq_bytes_iff, min, max, inl, inr, Bool-cases,
}
use k_rep.Keys.{XOnly}
use k_rep.Core.Attestation.{Attestation, Outcome, success, default, disputed_resolved}
use k_rep.Core.Chain.{Chain}
use k_rep.Core.Chain.Score.{
  Float, Score, Tally, contains, insert, bump, count_outcome, empty_tally, tally_entry, tally_loop,
  score,
}

abbrev pub is_default : Outcome → Bool
is_default success = false
is_default default = true
is_default disputed_resolved = false

abbrev pub is_dispute : Outcome → Bool
is_dispute success = false
is_dispute default = false
is_dispute disputed_resolved = true

get_or-bump :
    (i j : ℕ) (ns : List ℕ)
    → i < length ns
    → get_or (bump i ns) j 0 ≡ get_or ns j 0 + (if i == j then 1 else 0)
unfolding bump
get_or-bump i j [] h = absurd (omega arith)
get_or-bump zero zero (n ∷ ns) h = omega arith
get_or-bump zero (suc j) (n ∷ ns) h = ground arith
get_or-bump (suc i) zero (n ∷ ns) h = ground arith
get_or-bump (suc i) (suc j) (n ∷ ns) h = ground (arith, get_or-bump i j ns (omega arith))

length-bump : (i : ℕ) (ns : List ℕ) → length (bump i ns) ≡ length ns
unfolding bump
length-bump i [] = refl
length-bump zero (n ∷ ns) = refl
length-bump (suc i) (n ∷ ns) = ap suc (length-bump i ns)

-- No element stands twice.
abbrev pub IsDistinct : List (List ℕ) → Type 0
IsDistinct [] = Unit {0}
IsDistinct (x ∷ xs) = (contains x xs ≡ false) × IsDistinct xs

insert-IsDistinct : (k : List ℕ) (xs : List (List ℕ)) → IsDistinct xs → IsDistinct (insert k xs)
unfolding insert
insert-IsDistinct k xs h = elim (Bool-cases (contains k xs)) [
  | inl e ↦ rw e h
  | inr e ↦ rw e (e, h)
]

length-insert : (k : List ℕ) (xs : List (List ℕ)) → length (insert k xs) ≤ length xs + 1
unfolding insert
length-insert k xs = ground arith

contains-insert :
    (k j : List ℕ) (xs : List (List ℕ))
    → contains j (insert k xs) ≡ (if beq_bytes j k then true else contains j xs)
unfolding insert
contains-insert k j xs = ground (arith, beq_bytes_iff j k)

hist_outcome : (o : Outcome) (t : Tally) → (count_outcome o t).volume_hist ≡ t.volume_hist
unfolding count_outcome
hist_outcome success t = refl
hist_outcome default t = refl
hist_outcome disputed_resolved t = refl

keys_outcome : (o : Outcome) (t : Tally) → (count_outcome o t).counterparties ≡ t.counterparties
unfolding count_outcome
keys_outcome success t = refl
keys_outcome default t = refl
keys_outcome disputed_resolved t = refl

empty_hist : (i n : ℕ) → get_or (0 ∷ 0 ∷ 0 ∷ 0 ∷ []) i 0 + n ≡ n
empty_hist zero n = omega arith
empty_hist (suc zero) n = omega arith
empty_hist (suc (suc zero)) n = omega arith
empty_hist (suc (suc (suc zero))) n = omega arith
empty_hist (suc (suc (suc (suc i)))) n = omega arith

module _ {K S : Type 0} ⦃key : XOnly K⦄ where
  -- The number of entries whose outcome passes a test.
  abbrev pub count : (Outcome → Bool) → List (Attestation K S) → ℕ
  count p [] = 0
  count p (a ∷ rest) = (if p a.body.outcome then 1 else 0) + count p rest

  -- Is the key of some entry's counterparty?
  abbrev pub has_counterparty : List ℕ → List (Attestation K S) → Bool
  has_counterparty k [] = false
  has_counterparty k (a ∷ rest) =
      if beq_bytes k (key.serialize a.body.counterparty) then true else has_counterparty k rest

  tally_counts :
      (t : Tally) (xs : List (Attestation K S))
      → ((tally_loop t xs).defaults ≡ t.defaults + count is_default xs)
        × ((tally_loop t xs).disputes ≡ t.disputes + count is_dispute xs)
  unfolding tally_loop tally_entry
  tally_counts t [] = (omega arith, omega arith)
  tally_counts t (a ∷ rest) =
      let ih = tally_counts (tally_entry a t) rest in (ground (arith, ih), ground (arith, ih))

  -- The bucket that an entry is counted in, 1 to 4.
  abbrev pub bucket : Attestation K S → ℕ
  bucket a = min (max a.body.amount_bucket 1) 4

  abbrev pub count_bucket : ℕ → List (Attestation K S) → ℕ
  count_bucket b [] = 0
  count_bucket b (a ∷ rest) = (if bucket a == b then 1 else 0) + count_bucket b rest

  length-tally_hist :
      (t : Tally) (a : Attestation K S)
      → length (tally_entry a t).volume_hist ≡ length t.volume_hist
  unfolding tally_entry
  length-tally_hist t a =
      length-bump (bucket a - 1) (count_outcome a.body.outcome t).volume_hist
      ∙ ap length (hist_outcome a.body.outcome t)

  hist_entry :
      (t : Tally) (a : Attestation K S) (i : ℕ)
      → length t.volume_hist ≡ 4
      → get_or (tally_entry a t).volume_hist i 0
        ≡ get_or t.volume_hist i 0 + (if bucket a == (i + 1) then 1 else 0)
  unfolding tally_entry
  hist_entry t a i h =
      let hist = (count_outcome a.body.outcome t).volume_hist in
      let same = hist_outcome a.body.outcome t in
      get_or-bump (bucket a - 1) i hist (omega (arith, h, ap length same)) ∙ rw same (ground arith)

  keys_entry :
      (t : Tally) (a : Attestation K S)
      → (tally_entry a t).counterparties
        ≡ insert (key.serialize a.body.counterparty) t.counterparties
  unfolding tally_entry
  keys_entry t a = ap (insert (key.serialize a.body.counterparty)) (keys_outcome a.body.outcome t)

  tally_hist :
      (t : Tally) (xs : List (Attestation K S)) (i : ℕ)
      → length t.volume_hist ≡ 4
      → get_or (tally_loop t xs).volume_hist i 0
        ≡ get_or t.volume_hist i 0 + count_bucket (i + 1) xs
  unfolding tally_loop
  tally_hist t [] i h = omega arith
  tally_hist t (a ∷ rest) i h =
      let ih = tally_hist (tally_entry a t) rest i (length-tally_hist t a ∙ h) in
      let one = hist_entry t a i h in ground (arith, ih, one)

  tally_keys :
      (t : Tally) (xs : List (Attestation K S)) (k : List ℕ)
      → contains k (tally_loop t xs).counterparties
        ≡ (if contains k t.counterparties then true else has_counterparty k xs)
  unfolding tally_loop
  tally_keys t [] k = ground arith
  tally_keys t (a ∷ rest) k =
      let p = key.serialize a.body.counterparty in
      let ih = tally_keys (tally_entry a t) rest k in
      let one = contains-insert p k t.counterparties in
      let same = keys_entry t a in ground (arith, ih, one, same)

  tally-IsDistinct :
      (t : Tally) (xs : List (Attestation K S))
      → IsDistinct t.counterparties
      → IsDistinct (tally_loop t xs).counterparties
  unfolding tally_loop
  tally-IsDistinct t [] h = h
  tally-IsDistinct t (a ∷ rest) h =
      tally-IsDistinct (tally_entry a t) rest (rw (keys_entry t a) (insert-IsDistinct _ _ h))

  length-tally_keys :
      (t : Tally) (xs : List (Attestation K S))
      → length (tally_loop t xs).counterparties ≤ length t.counterparties + length xs
  unfolding tally_loop
  length-tally_keys t [] = omega arith
  length-tally_keys t (a ∷ rest) = omega (
    arith,
    length-tally_keys (tally_entry a t) rest,
    ap length (keys_entry t a),
    length-insert (key.serialize a.body.counterparty) t.counterparties,
  )

  -- The counters of a score against the entries of the chain.
  pub record IsScore {R : Type 0} (c : Chain K S) (s : Score R) : Type 0 where
    pub trades : s.trades ≡ length c.attestations
    pub defaults : s.defaults ≡ count is_default c.attestations
    pub disputes : s.disputes ≡ count is_dispute c.attestations
    pub hist : (i : ℕ) → get_or s.volume_hist i 0 ≡ count_bucket (i + 1) c.attestations
    -- the unique counterparties are the length of a list without repetition that holds exactly the
    -- keys of the counterparties
    pub unique :
        (keys : List (List ℕ)) × IsDistinct keys
        × ((k : List ℕ) → contains k keys ≡ has_counterparty k c.attestations)
        × (s.unique_counterparties ≡ length keys)
    pub bounded : s.unique_counterparties ≤ s.trades

  -- A score counts the trades, the defaults, the disputes, the trades of each bucket and the
  -- different counterparties.
  pub score-IsScore : {R : Type 0} ⦃float : Float R⦄ (c : Chain K S) → IsScore {R = R} c (score c)
  unfolding score
  score-IsScore c =
      let t = tally_loop empty_tally c.attestations in
      let counts = tally_counts empty_tally c.attestations in
      record {
        trades = refl;
        defaults = omega (arith, counts);
        disputes = omega (arith, counts);
        hist = λ i. tally_hist empty_tally c.attestations i refl ∙ empty_hist i _;
        unique = (
          t.counterparties,
          tally-IsDistinct empty_tally c.attestations tt,
          tally_keys empty_tally c.attestations,
          refl,
        );
        bounded = omega (arith, length-tally_keys empty_tally c.attestations);
      }
