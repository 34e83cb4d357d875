-- ===== src/Escrow/Script/Rules.antt =====
-- What a spend of an escrow has to be: the rules of krep-escrow/src/script.rs, with no machine.
use k_rep.Base.{
  ℕ, ◌+◌, ◌≡◌, ◌≢◌, true, some, List, [], ◌∷◌, ◌++◌, length, get_elem?, get_range, replicate,
  le_bytes,
}
use k_rep.Keys.{XOnly}
use k_rep.Core.Attestation.{Crypto}
use k_rep.Escrow.State.{
  state_bytes, off_phase, off_terms, off_maker, off_maker_rep, off_tracking, off_shipped_at, Phase,
  opened, claimed, shipped, disputed, byte,
}
use k_rep.Escrow.Terms.{Terms, terms_id, claimed_value}
use k_rep.Escrow.Machine.{Vm, Spend, Output}
use k_rep.Escrow.Script.{
  tx_id_key, header_for, terminal_payload_bytes, Resolution, to_maker, to_buyer,
}
use k_rep.Escrow.Script.Checks.{p2pk_spk}

-- The key that a resolution pays.
abbrev pub winner : {K : Type 0} ⦃key : XOnly K⦄ → Terms K → Resolution → List ℕ → List ℕ
winner terms to_maker maker = maker
winner ⦃key = key⦄ terms to_buyer maker = key.serialize terms.buyer

module _ ⦃vm : Vm⦄ (t : Spend) where
  -- The transaction that made the spent output has this payload, a state of the job in this phase.
  pub record IsPrior (rest payload : List ℕ) (phase : Phase) (id : List ℕ) : Type 0 where
    pub authentic : vm.blake2b_with_key tx_id_key (rest ++ payload) ≡ t.outpoint_tx_id
    pub in_phase : get_range off_phase (off_phase + 1) payload ≡ some (byte phase ∷ [])
    pub job : get_range off_terms (off_terms + 32) payload ≡ some id

  -- The spending transaction carries a state of the job in this phase.
  pub record IsNew (phase : Phase) (id : List ℕ) : Type 0 where
    pub size : length t.payload ≡ state_bytes
    pub header : get_range 0 off_terms t.payload ≡ some (header_for phase)
    pub job : get_range off_terms (off_terms + 32) t.payload ≡ some id

  -- Its first output stays under the covenant and holds this value.
  pub record IsContinued (value : ℕ) : Type 0 where
    pub output : Output
    pub first : get_elem? t.outputs 0 ≡ some output
    pub same_covenant : t.input_spk ≡ output.spk
    pub amount : output.amount ≡ value

  -- Its payload has this length, and its first output pays the key this value.
  pub record IsPaid (size : ℕ) (pk : List ℕ) (value : ℕ) : Type 0 where
    pub sized : length t.payload ≡ size
    pub output : Output
    pub first : get_elem? t.outputs 0 ≡ some output
    pub to_key : p2pk_spk pk ≡ output.spk
    pub amount : output.amount ≡ value

  abbrev pub SignedBy : List ℕ → List ℕ → Type 0
  SignedBy sig key = vm.check_sig t sig key ≡ true

  abbrev pub NonZero : ℕ → ℕ → Type 0
  NonZero start stop =
      (field : List ℕ) × (get_range start stop t.payload ≡ some field) × (field ≢ replicate 32 0)

  -- The key of the maker in a state.
  abbrev pub Maker : List ℕ → List ℕ → Type 0
  Maker payload maker = get_range off_maker (off_maker + 32) payload ≡ some maker

  module _ {K : Type 0} ⦃key : XOnly K⦄ (S : Type 0) ⦃crypto : Crypto K S⦄ (terms : Terms K)
      (rest payload : List ℕ) where
    -- OPEN to CLAIMED: the pseudonym that the new state names has signed, a maker is named, nothing
    -- is shipped, and the value grows by the bond.
    pub record IsClaim (sig : List ℕ) : Type 0 where
      pub prior : IsPrior rest payload opened (terms_id S terms)
      pub pseudonym : List ℕ
      pub named : get_range off_maker_rep (off_maker_rep + 32) t.payload ≡ some pseudonym
      pub signed : SignedBy sig pseudonym
      pub new : IsNew claimed (terms_id S terms)
      pub maker : NonZero off_maker (off_maker + 32)
      pub unshipped : get_range off_tracking state_bytes t.payload ≡ some (replicate 40 0)
      pub continued : IsContinued (t.input_amount + terms.maker_bond)

    -- CLAIMED to SHIPPED: the maker has signed and stays, a tracking hash is named, the time of
    -- shipping is the lock time, and the value stays.
    pub record IsShip (sig : List ℕ) : Type 0 where
      pub prior : IsPrior rest payload claimed (terms_id S terms)
      pub maker : List ℕ
      pub named : Maker payload maker
      pub stays : Maker t.payload maker
      pub signed : SignedBy sig maker
      pub new : IsNew shipped (terms_id S terms)
      pub tracked : NonZero off_tracking (off_tracking + 32)
      pub dated :
          get_range off_shipped_at (off_shipped_at + 8) t.payload ≡ some (le_bytes 8 t.lock_time)
      pub continued : IsContinued t.input_amount

    -- SHIPPED to DISPUTED: the buyer has signed, everything behind the job's id stays, and so does
    -- the value.
    pub record IsDispute (sig : List ℕ) : Type 0 where
      pub prior : IsPrior rest payload shipped (terms_id S terms)
      pub tail : List ℕ
      pub shipment : get_range off_maker state_bytes payload ≡ some tail
      pub stays : get_range off_maker state_bytes t.payload ≡ some tail
      pub signed : SignedBy sig (key.serialize terms.buyer)
      pub new : IsNew disputed (terms_id S terms)
      pub continued : IsContinued t.input_amount

    -- SHIPPED to the end: the buyer has signed, and the maker is paid.
    pub record IsSettle (sig : List ℕ) : Type 0 where
      pub prior : IsPrior rest payload shipped (terms_id S terms)
      pub maker : List ℕ
      pub named : Maker payload maker
      pub signed : SignedBy sig (key.serialize terms.buyer)
      pub paid : IsPaid terminal_payload_bytes maker (claimed_value terms)

    -- SHIPPED to the end without the buyer: the delay is over, the maker has signed and is paid.
    pub record IsAutoRelease (sig : List ℕ) : Type 0 where
      pub prior : IsPrior rest payload shipped (terms_id S terms)
      pub waited : vm.sequence_reached t terms.auto_release_delay ≡ true
      pub maker : List ℕ
      pub named : Maker payload maker
      pub signed : SignedBy sig maker
      pub paid : IsPaid terminal_payload_bytes maker (claimed_value terms)

    -- The buyer takes back what is there after the deadline: the reward of an open job, or the
    -- reward and the bond of one that was not shipped.
    pub record IsReclaim (phase : Phase) (size value : ℕ) (sig : List ℕ) : Type 0 where
      pub prior : IsPrior rest payload phase (terms_id S terms)
      pub late : vm.lock_time_reached t terms.deadline ≡ true
      pub signed : SignedBy sig (key.serialize terms.buyer)
      pub paid : IsPaid size (key.serialize terms.buyer) value

    -- DISPUTED to the end: the arbiter has signed, and so has the one who is paid.
    pub record IsResolve (arbiter : K) (resolution : Resolution) (sig arbiter_sig : List ℕ)
        : Type 0 where
      pub prior : IsPrior rest payload disputed (terms_id S terms)
      pub maker : List ℕ
      pub named : Maker payload maker
      pub ruled : SignedBy arbiter_sig (key.serialize arbiter)
      pub signed : SignedBy sig (winner terms resolution maker)
      pub paid : IsPaid terminal_payload_bytes (winner terms resolution maker) (claimed_value terms)
