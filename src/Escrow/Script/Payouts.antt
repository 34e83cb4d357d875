-- ===== src/Escrow/Script/Payouts.antt =====
-- The branches that end an escrow: `settle_branch`, `auto_release_branch`, `refund_branch`,
-- `slash_branch` and `build_resolve` of krep-escrow/src/script.rs.
use k_rep.Base.{
  ℕ, ◌+◌, ◌-◌, ◌^◌, ◌≡◌, ◌↔◌, ◌<◌, ◌≤◌, ap, sym, ◌∙◌, some, List, [], ◌∷◌, ◌++◌, length, get_range,
  slice, length-slice, if-cases, inl, inr, leb, arith,
}
use k_rep.Keys.{XOnly}
use k_rep.Core.Attestation.{Crypto}
use k_rep.Escrow.State.{off_maker, opened, claimed, shipped, disputed}
use k_rep.Escrow.Terms.{Terms, terms_id, claimed_value}
use k_rep.Escrow.Machine.{Accepts, Vm, Spend, Instr, push_data}
use k_rep.Escrow.Script.{Resolution, to_maker, to_buyer, terminal_payload_bytes}
use k_rep.Escrow.Script.Branches.{
  settle_branch, auto_release_branch, refund_branch, slash_branch, build_resolve, beneficiary,
}
use k_rep.Escrow.Script.Outputs.{InRange}
use k_rep.Escrow.Script.Rules.{IsSettle, IsAutoRelease, IsReclaim, IsResolve, SignedBy, winner}
use k_rep.Escrow.Script.Accepts.{
  IsPushable, iff_by, moved_iff, require_iff, same_iff, IsPrior-iff, IsPaid-iff, IsPaid-to_iff,
}
use k_rep.Escrow.Script.Fields.{old_field_iff, signed_iff, require_signature_iff}

length-get_range : (a b : ℕ) (x y : List ℕ) → a ≤ b → get_range a b x ≡ some y → length y ≡ b - a
unfolding get_range
length-get_range a b x y h e = elim (if-cases (leb b (length x)) _ _ e) [
  | inl (fit, same) ↦
      let same' : slice a b x ≡ y = cc same in
      ap length (sym same') ∙ length-slice a b x h (ground arith)
  | inr (short, no_value) ↦ absurd (cc no_value)
]

claimed_value-lt : {K : Type 0} (terms : Terms K) → IsPushable terms → claimed_value terms < 2 ^ 63
unfolding claimed_value
claimed_value-lt terms h = omega (arith, h.value)

module _ ⦃vm : Vm⦄ {K : Type 0} ⦃key : XOnly K⦄ (S : Type 0) ⦃crypto : Crypto K S⦄ (terms : Terms K)
    (pushable : IsPushable terms) (t : Spend) (fits : InRange t) (rest payload : List ℕ)
    (short : length rest + length payload ≤ vm.max_element) where
  buyer_width : length (key.serialize terms.buyer) ≡ 32
  buyer_width = (key.serialize-IsArray terms.buyer).width

  -- The branch `settle` accepts a spend exactly when the buyer releases the job.
  pub IsSettle-iff :
      (sig : List ℕ)
      → Accepts t (settle_branch S terms) (payload ∷ rest ∷ sig ∷ [])
        ↔ IsSettle t S terms rest payload sig
  unfolding settle_branch
  IsSettle-iff sig =
      iff_by
        (IsPrior-iff t fits _ (sig ∷ []) rest payload (terms_id S terms) shipped short (
          old_field_iff t fits _ (sig ∷ []) off_maker (off_maker + 32) payload (omega arith)
            (omega arith)
            (λ maker found. moved_iff (vm.swap_lem t _ sig maker []) (
              require_signature_iff t fits _ (maker ∷ []) sig (key.serialize terms.buyer) (
                IsPaid-iff t fits terminal_payload_bytes (claimed_value terms) maker
                  (length-get_range off_maker (off_maker + 32) payload maker (omega arith) found)
                  (omega arith) (claimed_value-lt terms pushable))))))
        (λ r. record {
          prior = r.0;
          maker = r.1.0;
          named = r.1.1;
          signed = r.1.2.0;
          paid = r.1.2.1;
        })
        (λ r. (r.prior, (r.maker, r.named, (r.signed, r.paid))))

  -- The branch `auto_release` accepts a spend exactly when the delay is over and the maker takes
  -- what is due.
  pub IsAutoRelease-iff :
      (sig : List ℕ)
      → Accepts t (auto_release_branch S terms) (payload ∷ rest ∷ sig ∷ [])
        ↔ IsAutoRelease t S terms rest payload sig
  unfolding auto_release_branch
  IsAutoRelease-iff sig =
      iff_by
        (IsPrior-iff t fits _ (sig ∷ []) rest payload (terms_id S terms) shipped short (
          moved_iff (vm.i64_lem t terms.auto_release_delay _ (payload ∷ sig ∷ [])) (
            require_iff _
              (vm.sequence_verify_lem t _ terms.auto_release_delay (payload ∷ sig ∷ [])
                pushable.delay)
              same_iff
              (old_field_iff t fits _ (sig ∷ []) off_maker (off_maker + 32) payload (omega arith)
                (omega arith)
                (λ maker found.
                  moved_iff
                    (vm.dup_lem t _ maker (sig ∷ [])
                      ∙ vm.rot_lem t _ sig maker maker []
                      ∙ vm.swap_lem t _ maker sig (maker ∷ []))
                    (signed_iff t fits _ (maker ∷ []) sig maker (
                      IsPaid-iff t fits terminal_payload_bytes (claimed_value terms) maker
                        (length-get_range off_maker (off_maker + 32) payload maker (omega arith)
                          found)
                        (omega arith) (claimed_value-lt terms pushable))))))))
        (λ r. record {
          prior = r.0;
          waited = r.1.0;
          maker = r.1.1.0;
          named = r.1.1.1;
          signed = r.1.1.2.0;
          paid = r.1.1.2.1;
        })
        (λ r. (r.prior, (r.waited, (r.maker, r.named, (r.signed, r.paid)))))

  -- The branch `refund` accepts a spend exactly when the buyer takes back the reward of an open job
  -- after its deadline, with an empty payload.
  pub refund_iff :
      (sig : List ℕ)
      → Accepts t (refund_branch S terms) (payload ∷ rest ∷ sig ∷ [])
        ↔ IsReclaim t S terms rest payload opened 0 terms.reward sig
  unfolding refund_branch
  refund_iff sig =
      iff_by
        (IsPrior-iff t fits _ (sig ∷ []) rest payload (terms_id S terms) opened short (
          moved_iff (vm.drop_lem t _ payload (sig ∷ []) ∙ vm.i64_lem t terms.deadline _ (sig ∷ []))
            (require_iff _ (vm.lock_time_verify_lem t _ terms.deadline (sig ∷ []) pushable.deadline)
              same_iff
              (require_signature_iff t fits _ [] sig (key.serialize terms.buyer) (
                IsPaid-to_iff t fits 0 terms.reward (key.serialize terms.buyer) buyer_width
                  (omega arith) (omega (arith, pushable.value)))))))
        (λ r. record { prior = r.0; late = r.1.0; signed = r.1.1.0; paid = r.1.1.1 })
        (λ r. (r.prior, (r.late, (r.signed, r.paid))))

  -- The branch `slash` accepts a spend exactly when the buyer takes the reward and the bond of a
  -- claimed job after its deadline, with room for two attestation ids.
  pub slash_iff :
      (sig : List ℕ)
      → Accepts t (slash_branch S terms) (payload ∷ rest ∷ sig ∷ [])
        ↔ IsReclaim t S terms rest payload claimed terminal_payload_bytes (claimed_value terms) sig
  unfolding slash_branch
  slash_iff sig =
      iff_by
        (IsPrior-iff t fits _ (sig ∷ []) rest payload (terms_id S terms) claimed short (
          moved_iff (vm.drop_lem t _ payload (sig ∷ []) ∙ vm.i64_lem t terms.deadline _ (sig ∷ []))
            (require_iff _ (vm.lock_time_verify_lem t _ terms.deadline (sig ∷ []) pushable.deadline)
              same_iff
              (require_signature_iff t fits _ [] sig (key.serialize terms.buyer) (
                IsPaid-to_iff t fits terminal_payload_bytes (claimed_value terms)
                  (key.serialize terms.buyer) buyer_width (omega arith)
                  (claimed_value-lt terms pushable))))))
        (λ r. record { prior = r.0; late = r.1.0; signed = r.1.1.0; paid = r.1.1.1 })
        (λ r. (r.prior, (r.late, (r.signed, r.paid))))

  -- The arms of the resolution leave the key that is paid, and check its signature.
  beneficiary_iff :
      (c : List Instr) {Q : Type 0} (resolution : Resolution) (sig maker : List ℕ)
      → Accepts t c (winner terms resolution maker ∷ []) ↔ Q
      → Accepts t (beneficiary S terms resolution ++ c) (maker ∷ sig ∷ [])
        ↔ (SignedBy t sig (winner terms resolution maker) × Q)
  unfolding beneficiary
  beneficiary_iff c to_maker sig maker q =
      moved_iff
        (vm.dup_lem t _ maker (sig ∷ [])
          ∙ vm.rot_lem t _ sig maker maker []
          ∙ vm.swap_lem t _ maker sig (maker ∷ []))
        (signed_iff t fits c (maker ∷ []) sig maker q)
  beneficiary_iff c to_buyer sig maker q = moved_iff (vm.drop_lem t _ maker (sig ∷ [])) (
      require_signature_iff t fits (push_data (key.serialize terms.buyer) ∷ c) [] sig
        (key.serialize terms.buyer) (moved_iff (vm.data_lem t (key.serialize terms.buyer) c []) q))

  winner_width :
      (resolution : Resolution) (maker : List ℕ)
      → length maker ≡ 32
      → length (winner terms resolution maker) ≡ 32
  winner_width to_maker maker h = h
  winner_width to_buyer maker h = buyer_width

  -- A resolution accepts a spend exactly when the arbiter and the one who is paid have signed a
  -- payout of a disputed job.
  pub IsResolve-iff :
      (arbiter : K) (resolution : Resolution) (sig arbiter_sig : List ℕ)
      → Accepts t
          (build_resolve S terms arbiter resolution)
          (payload ∷ rest ∷ arbiter_sig ∷ sig ∷ [])
        ↔ IsResolve t S terms rest payload arbiter resolution sig arbiter_sig
  unfolding build_resolve
  IsResolve-iff arbiter resolution sig arbiter_sig =
      iff_by
        (IsPrior-iff t fits _ (arbiter_sig ∷ sig ∷ []) rest payload (terms_id S terms) disputed
          short
          (old_field_iff t fits _ (arbiter_sig ∷ sig ∷ []) off_maker (off_maker + 32) payload
            (omega arith) (omega arith)
            (λ maker found. moved_iff (vm.swap_lem t _ arbiter_sig maker (sig ∷ [])) (
              require_signature_iff t fits _ (maker ∷ sig ∷ []) arbiter_sig (key.serialize arbiter)
                (beneficiary_iff _ resolution sig maker (
                  IsPaid-iff t fits terminal_payload_bytes (claimed_value terms)
                    (winner terms resolution maker)
                    (winner_width resolution maker (
                      length-get_range off_maker (off_maker + 32) payload maker (omega arith)
                        found))
                    (omega arith) (claimed_value-lt terms pushable)))))))
        (λ r. record {
          prior = r.0;
          maker = r.1.0;
          named = r.1.1;
          ruled = r.1.2.0;
          signed = r.1.2.1.0;
          paid = r.1.2.1.1;
        })
        (λ r. (r.prior, (r.maker, r.named, (r.ruled, (r.signed, r.paid)))))
