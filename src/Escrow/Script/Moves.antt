-- ===== src/Escrow/Script/Moves.antt =====
-- The branches that keep an escrow under its covenant: `claim_branch`, `ship_branch` and
-- `build_dispute` of krep-escrow/src/script.rs.
use k_rep.Base.{
  ℕ, ◌+◌, ◌^◌, ◌≡◌, ◌↔◌, ◌<◌, ◌≤◌, ◌∙◌, some, List, [], ◌∷◌, le_bytes, ◌==◌, length, arith,
}
use k_rep.Keys.{XOnly}
use k_rep.Core.Attestation.{Crypto}
use k_rep.Escrow.State.{
  state_bytes, off_maker, off_maker_rep, off_tracking, off_shipped_at, opened, claimed, shipped,
  disputed,
}
use k_rep.Escrow.Terms.{Terms, terms_id}
use k_rep.Escrow.Machine.{
  Accepts, Vm, Spend, Output, op, push_i64, op_add, op_num_equal, Instr, op_tx_lock_time,
  op_num2bin,
}
use k_rep.Escrow.Script.Branches.{claim_branch, ship_branch, build_dispute}
use k_rep.Escrow.Script.Outputs.{InRange}
use k_rep.Escrow.Script.Rules.{IsClaim, IsShip, IsDispute}
use k_rep.Escrow.Script.Accepts.{iff_by, moved_iff, IsPrior-iff, IsNew-iff, IsContinued-iff}
use k_rep.Escrow.Script.Fields.{
  new_field_iff, old_field_iff, signed_iff, require_signature_iff, require_new_field_iff,
  nonzero_iff, kept_iff,
}

module _ ⦃vm : Vm⦄ {K : Type 0} ⦃key : XOnly K⦄ (S : Type 0) ⦃crypto : Crypto K S⦄ (terms : Terms K)
    (t : Spend) (fits : InRange t) (rest payload sig : List ℕ)
    (short : length rest + length payload ≤ vm.max_element) where
  -- The branch `claim` accepts a spend exactly when it is a claim of the job.
  pub IsClaim-iff :
      t.input_amount + terms.maker_bond < 2 ^ 63
      → Accepts t (claim_branch S terms) (payload ∷ rest ∷ sig ∷ [])
        ↔ IsClaim t S terms rest payload sig
  unfolding claim_branch
  IsClaim-iff bond =
      iff_by
        (IsPrior-iff t fits _ (sig ∷ []) rest payload (terms_id S terms) opened short (
          moved_iff (vm.drop_lem t _ payload (sig ∷ [])) (
            new_field_iff t fits _ (sig ∷ []) off_maker_rep (off_maker_rep + 32) (omega arith)
              (omega arith)
              (λ pseudonym. signed_iff t fits _ [] sig pseudonym (
                IsNew-iff t fits _ [] (terms_id S terms) claimed (
                  nonzero_iff t fits _ [] off_maker (off_maker + 32) (omega arith) (omega arith) (
                    require_new_field_iff t fits _ [] off_tracking state_bytes _ (omega arith)
                      (omega arith)
                      (IsContinued-iff t fits _ (t.input_amount + terms.maker_bond) added))))))))
        (λ r. record {
          prior = r.0;
          pseudonym = r.1.0;
          named = r.1.1;
          signed = r.1.2.0;
          new = r.1.2.1.0;
          maker = r.1.2.1.1.0;
          unshipped = r.1.2.1.1.1.0;
          continued = r.1.2.1.1.1.1;
        })
        (λ r. (
          r.prior,
          (r.pseudonym, r.named, (r.signed, (r.new, (r.maker, (r.unshipped, r.continued))))),
        ))
    where
      added :
          (o : Output)
          → o.amount < 2 ^ 63
          → vm.exec t
              (push_i64 terms.maker_bond ∷ op op_add ∷ op op_num_equal ∷ [])
              (vm.number t.input_amount ∷ vm.number o.amount ∷ [])
            ≡ some (vm.truth (o.amount == t.input_amount + terms.maker_bond) ∷ [])
      added o h = rw (
        vm.i64_lem,
        vm.add_lem t _ t.input_amount terms.maker_bond _ bond,
        vm.num_equal_lem t [] o.amount (t.input_amount + terms.maker_bond) [] h bond,
        vm.done,
      )

  still :
      (o : Output)
      → o.amount < 2 ^ 63
      → vm.exec t (op op_num_equal ∷ []) (vm.number t.input_amount ∷ vm.number o.amount ∷ [])
        ≡ some (vm.truth (o.amount == t.input_amount) ∷ [])
  still o h = rw (vm.num_equal_lem t [] o.amount t.input_amount [] h fits.input_amount, vm.done)

  -- The branch `ship` accepts a spend exactly when it is a shipment of the job.
  pub IsShip-iff :
      Accepts t (ship_branch S terms) (payload ∷ rest ∷ sig ∷ [])
      ↔ IsShip t S terms rest payload sig
  unfolding ship_branch
  IsShip-iff =
      iff_by
        (IsPrior-iff t fits _ (sig ∷ []) rest payload (terms_id S terms) claimed short (
          moved_iff (vm.dup_lem t _ payload (sig ∷ [])) (
            old_field_iff t fits _ (payload ∷ sig ∷ []) off_maker (off_maker + 32) payload
              (omega arith) (omega arith)
              (λ maker found. moved_iff (vm.dup_lem t _ maker (payload ∷ sig ∷ [])) (
                kept_iff t fits _ (maker ∷ payload ∷ sig ∷ []) off_maker (off_maker + 32) maker
                  (omega arith) (omega arith)
                  (moved_iff
                    (vm.rot_lem t _ sig payload maker [] ∙ vm.swap_lem t _ maker sig (payload ∷ []))
                    (signed_iff t fits _ (payload ∷ []) sig maker (
                      moved_iff (vm.drop_lem t _ payload []) (
                        IsNew-iff t fits _ [] (terms_id S terms) shipped (
                          nonzero_iff t fits _ [] off_tracking (off_tracking + 32) (omega arith)
                            (omega arith)
                            (moved_iff dated (
                              kept_iff t fits _ [] off_shipped_at (off_shipped_at + 8)
                                (le_bytes 8 t.lock_time) (omega arith) (omega arith)
                                (IsContinued-iff t fits _ t.input_amount still)))))))))))))
        (λ r. record {
          prior = r.0;
          maker = r.1.0;
          named = r.1.1;
          stays = r.1.2.0;
          signed = r.1.2.1.0;
          new = r.1.2.1.1.0;
          tracked = r.1.2.1.1.1.0;
          dated = r.1.2.1.1.1.1.0;
          continued = r.1.2.1.1.1.1.1;
        })
        (λ r. (
          r.prior,
          (r.maker, r.named, (r.stays, (r.signed, (r.new, (r.tracked, (r.dated, r.continued)))))),
        ))
    where
      dated :
          {c : List Instr}
          → vm.exec t (op op_tx_lock_time ∷ push_i64 8 ∷ op op_num2bin ∷ c) []
            ≡ vm.exec t c (le_bytes 8 t.lock_time ∷ [])
      dated {c = c} = rw (
        vm.lock_time_of_lem t _ [] fits.lock_time,
        vm.i64_lem,
        vm.num2bin_lem t c t.lock_time [] fits.lock_time,
      )

  -- The branch `dispute` accepts a spend exactly when it is a dispute of the job.
  pub IsDispute-iff :
      Accepts t (build_dispute S terms) (payload ∷ rest ∷ sig ∷ [])
      ↔ IsDispute t S terms rest payload sig
  unfolding build_dispute
  IsDispute-iff =
      iff_by
        (IsPrior-iff t fits _ (sig ∷ []) rest payload (terms_id S terms) shipped short (
          old_field_iff t fits _ (sig ∷ []) off_maker state_bytes payload (omega arith)
            (omega arith)
            (λ tail found.
              kept_iff t fits _ (sig ∷ []) off_maker state_bytes tail (omega arith) (omega arith) (
                require_signature_iff t fits _ [] sig (key.serialize terms.buyer) (
                  IsNew-iff t fits _ [] (terms_id S terms) disputed
                    (IsContinued-iff t fits _ t.input_amount still))))))
        (λ r. record {
          prior = r.0;
          tail = r.1.0;
          shipment = r.1.1;
          stays = r.1.2.0;
          signed = r.1.2.1.0;
          new = r.1.2.1.1.0;
          continued = r.1.2.1.1.1;
        })
        (λ r. (r.prior, (r.tail, r.shipment, (r.stays, (r.signed, (r.new, r.continued))))))
