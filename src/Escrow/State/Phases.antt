-- ===== src/Escrow/State/Phases.antt =====
-- The in-covenant state machine: OPEN, CLAIMED, SHIPPED, DISPUTED (krep-escrow/src/state.rs).
use k_rep.Base.{ℕ, zero, suc, ◌+◌, ◌≤◌, ◌≡◌, ◌↔◌, arith, ok}
use k_rep.Escrow.State.{Phase, opened, EscrowState, byte, may_transition_to, check_invariants}

byte-le : (p : Phase) → byte p ≤ 3
unfolding byte
byte-le opened = omega arith
byte-le p = omega arith

module _ {K : Type 0} where
  -- One move of an escrow that stays in the covenant: the code's test allows the phase, and both
  -- records meet the invariants that `decode` enforces.
  pub data Step (s t : EscrowState K) : Type 0 where
    step :
        may_transition_to s t.phase ≡ ok tt
        → check_invariants s ≡ ok tt
        → check_invariants t ≡ ok tt
        → Step s t

  -- `n` moves.
  pub data Steps (s : EscrowState K) : ℕ → EscrowState K → Type 0 where
    here : Steps s zero s
    next : {n : ℕ} {t u : EscrowState K} → Steps s n t → Step t u → Steps s (suc n) u

  -- A transition is allowed exactly to the phase whose byte is the next one.
  pub may_transition_to_iff :
      (s : EscrowState K) (q : Phase)
      → (may_transition_to s q ≡ ok tt) ↔ (byte q ≡ byte s.phase + 1)
  unfolding may_transition_to byte
  may_transition_to_iff s q = ground arith

  -- Along any run of legal moves the phase byte counts the moves, so no run makes more than three.
  pub Steps-bounded :
      (s : EscrowState K) (n : ℕ) (t : EscrowState K)
      → Steps s n t
      → (byte t.phase ≡ byte s.phase + n) × (byte s.phase + n ≤ 3)
  Steps-bounded s n t r = let e = counts r in (e, omega (arith, e, byte-le t.phase))
    where
      counts : {n : ℕ} {t : EscrowState K} → Steps s n t → byte t.phase ≡ byte s.phase + n
      counts here = omega arith
      counts (next {t = t} {u = u} r (step e i j)) =
          omega (arith, counts r, (may_transition_to_iff t u.phase).0 e)
