-- ===== src/Core/Kaspad/Anchored/Answers.antt =====
-- What a positive answer of the verifier rests on (`is_anchored` and `check_covenant` of
-- krep-core/src/kaspad.rs).
use k_rep.Base.{
  ℕ, ◌+◌, ◌<◌, ◌≡◌, inl, inr, ap, sym, true, not, Option, none, some, List, Bool, ok, err, Result,
  String, if-cases, Result-cases, leb, arith, get_elem?, get_range, eq-beq_bytes, not-false, any,
  Bool-cases, ==_iff, suc, [], ◌∷◌, refl,
}
use k_rep.Keys.{XOnly}
use k_rep.Core.Attestation.{Outpoint, CovenantWitness}
use k_rep.Core.Kaspad.{payload_commits}
use k_rep.Core.Kaspad.Slots.{HoldsId, payload_commits-HoldsId}
use k_rep.Core.Kaspad.Anchored.Selected.{TookBranch, took_branch-TookBranch}
use k_rep.Core.Kaspad.Node.{Input, IsIn, Rpc, ScanConfig, AcceptedTx, Verifier}
use k_rep.Core.Kaspad.Scan.{lookup}
use k_rep.Core.Kaspad.Spend.{
  Spend, settled, unspent, out_of_budget, find_spender, spends, script_of,
}
use k_rep.Core.Kaspad.Anchored.{
  spent_by, is_anchored, committed, took, took_branch, spk_is, owner_is, authorized_by,
  check_covenant,
}
use k_rep.Core.Kaspad.Anchored.Cache.{IsAccepted}
use k_rep.Core.Kaspad.Anchored.Lookups.{IsSound, lookup-IsHonest}
use k_rep.Core.Kaspad.Anchored.Settlements.{IsSettlement, find_spender-IsGood}

-- One of some inputs spends the outpoint, by a signature script.
pub record IsSpent (anchor : Outpoint) (inputs : List Input) (script : List ℕ) : Type 0 where
  pub input : Input
  pub among : IsIn input inputs
  pub txid : input.transaction_id ≡ anchor.txid
  pub index : input.index ≡ anchor.index
  pub by_script : input.signature_script ≡ script

script_of-IsSpent :
    (anchor : Outpoint) (inputs : List Input)
    → any (spends anchor) inputs ≡ true
    → IsSpent anchor inputs (script_of anchor inputs)
unfolding script_of
script_of-IsSpent anchor [] h = absurd (cc h)
script_of-IsSpent anchor (i ∷ is) h = elim (Bool-cases (spends anchor i)) [
  | inl this ↦ rw this (record {
    input = i;
    among = (0, refl);
    txid = eq-beq_bytes i.transaction_id anchor.txid (ground arith);
    index = (==_iff i.index anchor.index).0 (ground arith);
    by_script = refl;
  })
  | inr later ↦
      let found = script_of-IsSpent anchor is (rw later at h) in
      rw later (record {
        input = found.input;
        among = (suc found.among.0, found.among.1);
        txid = found.txid;
        index = found.index;
        by_script = found.by_script;
      })
]

settlement-IsSpent :
    (rpc : Rpc) (anchor : Outpoint) (payload script : List ℕ)
    (s : IsSettlement rpc anchor payload script)
    → IsSpent anchor s.spender.inputs script
settlement-IsSpent rpc anchor payload script s =
    rw (sym s.script_read) (script_of-IsSpent anchor s.spender.inputs s.spends_it)

-- The transaction that made the outpoint and the one that spent it, both accepted, and the second
-- commits the id.
pub record IsAnchored (rpc : Rpc) (id : List ℕ) (anchor : Outpoint) : Type 0 where
  pub escrow : AcceptedTx
  pub made : IsAccepted rpc anchor.txid escrow
  pub has_output : anchor.index < escrow.output_count
  pub payload : List ℕ
  pub script : List ℕ
  pub settlement : IsSettlement rpc anchor payload script
  pub spent : IsSpent anchor settlement.spender.inputs script
  pub commits : HoldsId payload id

-- Only a settlement whose payload commits the id is answered yes.
committed-settled :
    (id : List ℕ) (r : Result String Spend × Verifier) (v' : Verifier)
    → ◌≡◌ {A = Result String Bool × Verifier}
        (elim r.0 [ err e ↦ (err e, r.1) | ok spend ↦ (committed spend id, r.1) ])
        (ok true, v')
    → (payload : List ℕ) × (script : List ℕ) × (r.0 ≡ ok (settled payload script))
      × (r.1 ≡ v')
      × (payload_commits payload id ≡ true)
committed-settled id (err why, w) v' e = absurd (cc (ap (λ p. p.0) e))
committed-settled id (ok unspent, w) v' e = absurd (cc (ap (λ p. p.0) e))
committed-settled id (ok (out_of_budget n), w) v' e = absurd (cc (ap (λ p. p.0) e))
committed-settled id (ok (settled payload script), w) v' e =
    (payload, script, refl, ap (λ p. p.1) e, cc (ap (λ p. p.0) e))

module _ (rpc : Rpc) (cfg : ScanConfig) where
  spent_by-IsAnchored :
      (id : List ℕ) (anchor : Outpoint) (escrow : AcceptedTx) (v v' : Verifier)
      → IsSound rpc cfg v
      → IsAccepted rpc anchor.txid escrow
      → spent_by rpc cfg id anchor escrow v ≡ (ok true, v')
      → IsSound rpc cfg v' × IsAnchored rpc id anchor
  unfolding spent_by
  spent_by-IsAnchored id anchor escrow v v' h made e =
      elim (if-cases (leb escrow.output_count anchor.index) _ _ e) [
        | inl (b, e₁) ↦ cc (ap (λ p. p.0) e₁)
        | inr (b, e₁) ↦
            let r = find_spender rpc cfg anchor escrow.accepting_block v in
            let (sound, good) = find_spender-IsGood rpc cfg anchor escrow.accepting_block v h in
            let (payload, script, f, state, commits) = committed-settled id r v' e₁ in
            let s = good payload script f in
            (
              rw (sym state) sound,
              record {
                escrow = escrow;
                made = made;
                has_output = ground arith;
                payload = payload;
                script = script;
                settlement = s;
                spent = settlement-IsSpent rpc anchor payload script s;
                commits = payload_commits-HoldsId payload id commits;
              },
            )
      ]

  -- Where `is_anchored` answers yes, from a verifier whose cache is sound, the node reported both
  -- the transaction that made the outpoint and a transaction that spends it as accepted, and the
  -- payload of the second holds the id, of 32 bytes, at a multiple of 32 bytes; the cache stays sound.
  pub is_anchored-IsAnchored :
      (id : List ℕ) (anchor : Outpoint) (v v' : Verifier)
      → IsSound rpc cfg v
      → is_anchored rpc cfg id anchor v ≡ (ok true, v')
      → IsSound rpc cfg v' × IsAnchored rpc id anchor
  unfolding is_anchored
  is_anchored-IsAnchored id anchor v v' h e =
      let r = lookup rpc cfg anchor.txid none v in
      let (sound, honest) = lookup-IsHonest rpc cfg anchor.txid none v h in
      elim (Result-cases r.0) [
        | inr (why, f) ↦ cc (ap (λ p. p.0) (rw (is_anchored, f) at e))
        | inl (none, f) ↦ cc (ap (λ p. p.0) (rw (is_anchored, f) at e))
        | inl (some escrow, f) ↦
            spent_by-IsAnchored id anchor escrow r.1 v' sound (honest escrow f)
              (rw (is_anchored, f) at e)
      ]

spk_is-eq : (o : Option (List ℕ)) (expected : List ℕ) → spk_is o expected ≡ true → o ≡ some expected
spk_is-eq none expected h = cc h
spk_is-eq (some actual) expected h = ap some (eq-beq_bytes actual expected h)

-- Only a settlement by the branch is answered yes.
took-settled :
    (witness : CovenantWitness) (r : Result String Spend × Verifier) (v' : Verifier)
    → ◌≡◌ {A = Result String Bool × Verifier}
        (elim r.0 [ err e ↦ (err e, r.1) | ok spend ↦ (ok (took witness spend), r.1) ])
        (ok true, v')
    → (payload : List ℕ) × (script : List ℕ) × (r.0 ≡ ok (settled payload script))
      × (took_branch witness script ≡ true)
took-settled witness (err why, w) v' e = absurd (cc (ap (λ p. p.0) e))
took-settled witness (ok unspent, w) v' e = absurd (cc (ap (λ p. p.0) e))
took-settled witness (ok (out_of_budget n), w) v' e = absurd (cc (ap (λ p. p.0) e))
took-settled witness (ok (settled payload script), w) v' e =
    (payload, script, refl, cc (ap (λ p. p.0) e))

module _ {K : Type 0} ⦃key : XOnly K⦄ where
  -- The outpoint is locked by the witness's script, its payload holds the owner's key at the
  -- witness's offset, and an accepted transaction spent it by the witness's branch.
  pub record IsWitnessed (rpc : Rpc) (script_for : List ℕ → List ℕ) (anchor : Outpoint)
      (witness : CovenantWitness) (owner : K) : Type 0 where
    pub escrow : AcceptedTx
    pub made : IsAccepted rpc anchor.txid escrow
    pub locked : get_elem? escrow.output_spks anchor.index ≡ some (script_for witness.redeem_script)
    pub recorded :
        get_range witness.owner_offset (witness.owner_offset + 32) escrow.payload
        ≡ some (key.serialize owner)
    pub payload : List ℕ
    pub script : List ℕ
    pub settlement : IsSettlement rpc anchor payload script
    pub spent : IsSpent anchor settlement.spender.inputs script
    pub branch_taken : TookBranch witness script

  owner_is-eq :
      (rpc : Rpc) (cfg : ScanConfig) (f : List ℕ → List ℕ) (o : Option (List ℕ)) (owner : K)
      → owner_is rpc cfg f o owner ≡ true
      → o ≡ some (key.serialize owner)
  owner_is-eq rpc cfg f none owner h = cc h
  owner_is-eq rpc cfg f (some bytes) owner h = ap some (eq-beq_bytes bytes (key.serialize owner) h)

  IsWitnessed-of :
      (rpc : Rpc) (script_for : List ℕ → List ℕ) (anchor : Outpoint) (witness : CovenantWitness)
      (owner : K) (escrow : AcceptedTx)
      → IsAccepted rpc anchor.txid escrow
      → get_elem? escrow.output_spks anchor.index ≡ some (script_for witness.redeem_script)
      → get_range witness.owner_offset (witness.owner_offset + 32) escrow.payload
        ≡ some (key.serialize owner)
      → (payload script : List ℕ) → IsSettlement rpc anchor payload script
      → took_branch witness script ≡ true
      → IsWitnessed rpc script_for anchor witness owner
  IsWitnessed-of rpc script_for anchor witness owner escrow made locked recorded payload script s
        h =
      record {
        escrow = escrow;
        made = made;
        locked = locked;
        recorded = recorded;
        payload = payload;
        script = script;
        settlement = s;
        spent = settlement-IsSpent rpc anchor payload script s;
        branch_taken = took_branch-TookBranch witness script h;
      }

  authorized_by-IsWitnessed :
      (rpc : Rpc) (cfg : ScanConfig) (script_for : List ℕ → List ℕ) (anchor : Outpoint)
      (witness : CovenantWitness) (owner : K) (escrow : AcceptedTx) (v v' : Verifier)
      → IsSound rpc cfg v
      → IsAccepted rpc anchor.txid escrow
      → authorized_by rpc cfg script_for anchor witness owner escrow v ≡ (ok true, v')
      → IsWitnessed rpc script_for anchor witness owner
  unfolding authorized_by
  authorized_by-IsWitnessed rpc cfg script_for anchor witness owner escrow v v' h made e =
      elim (if-cases
        (not
          (spk_is (get_elem? escrow.output_spks anchor.index) (script_for witness.redeem_script)))
        _ _ e) [
          | inl (b, e₁) ↦ cc (ap (λ p. p.0) e₁)
          | inr (b, e₁) ↦
              elim (if-cases
                (not (
                  owner_is rpc cfg script_for
                    (get_range witness.owner_offset (witness.owner_offset + 32) escrow.payload)
                    owner))
                _ _ e₁) [
                  | inl (c, e₂) ↦ cc (ap (λ p. p.0) e₂)
                  | inr (c, e₂) ↦
                      let r = find_spender rpc cfg anchor escrow.accepting_block v in
                      let good =
                        (find_spender-IsGood rpc cfg anchor escrow.accepting_block v h).1 in
                      let (payload, script, f, chosen) = took-settled witness r v' e₂ in
                      IsWitnessed-of rpc script_for anchor witness owner escrow made
                        (spk_is-eq _ _ (not-false _ b))
                        (owner_is-eq rpc cfg script_for _ owner (not-false _ c)) payload script
                        (good payload script f) chosen
                ]
        ]

  -- Where `check_covenant` answers yes, from a verifier whose cache is sound, the outpoint of an
  -- accepted transaction is locked by the script of the witness, its payload holds the owner's key,
  -- and a transaction that the node reported as accepted spends it by a script of pushes whose last
  -- item is the redeem script of the witness and whose item before it is the declared branch.
  pub check_covenant-IsWitnessed :
      (rpc : Rpc) (cfg : ScanConfig) (script_for : List ℕ → List ℕ) (anchor : Outpoint)
      (witness : CovenantWitness) (owner : K) (v v' : Verifier)
      → IsSound rpc cfg v
      → check_covenant rpc cfg script_for anchor witness owner v ≡ (ok true, v')
      → IsWitnessed rpc script_for anchor witness owner
  unfolding check_covenant
  check_covenant-IsWitnessed rpc cfg script_for anchor witness owner v v' h e =
      let r = lookup rpc cfg anchor.txid none v in
      let (sound, honest) = lookup-IsHonest rpc cfg anchor.txid none v h in
      elim (Result-cases r.0) [
        | inr (why, f) ↦ cc (ap (λ p. p.0) (rw (check_covenant, f) at e))
        | inl (none, f) ↦ cc (ap (λ p. p.0) (rw (check_covenant, f) at e))
        | inl (some escrow, f) ↦
            authorized_by-IsWitnessed rpc cfg script_for anchor witness owner escrow r.1 v' sound
              (honest escrow f) (rw (check_covenant, f) at e)
      ]
