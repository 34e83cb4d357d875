-- ===== src/Escrow/State.antt =====
-- krep-escrow/src/state.rs: the mutable half of an escrow, carried in a transaction payload.
pub mod Layout
pub mod Codec
pub mod Canonical
pub mod Phases
use k_rep.Base.{
  ℕ, ◌+◌, Bool, true, false, not, ◌||◌, Option, none, some, List, [], ◌∷◌, String, Result, ok, err,
  ◌>>=◌, ◌>>◌, ok_or, refuse_if, length, replicate, slice, copy_range, le_bytes, from_le, beq_bytes,
  ◌==◌, if◌then◌else◌, get_or,
}
use k_rep.Keys.{XOnly}

abbrev pub state_bytes : ℕ
state_bytes = 142

-- `*b"kESC"`
abbrev pub magic : List ℕ
magic = b'k' ∷ b'E' ∷ b'S' ∷ b'C' ∷ []

abbrev pub version : ℕ
version = 1

abbrev pub off_magic : ℕ
off_magic = 0

abbrev pub off_version : ℕ
off_version = 4

abbrev pub off_phase : ℕ
off_phase = 5

abbrev pub off_terms : ℕ
off_terms = 6

abbrev pub off_maker : ℕ
off_maker = 38

abbrev pub off_maker_rep : ℕ
off_maker_rep = 70

abbrev pub off_tracking : ℕ
off_tracking = 102

abbrev pub off_shipped_at : ℕ
off_shipped_at = 134

-- `Phase::Open` is `opened` here: `open` is a reserved word.
pub data Phase : Type 0 where
  opened claimed shipped disputed : Phase

pub data StateError : Type 0 where
  bad_length : ℕ → StateError
  bad_magic : StateError
  bad_version : ℕ → StateError
  bad_phase : ℕ → StateError
  malformed : String → StateError
  illegal_transition : Phase → Phase → StateError

unfoldable pub byte : Phase → ℕ
byte opened = 0
byte claimed = 1
byte shipped = 2
byte disputed = 3

unfoldable pub from_byte : ℕ → Result StateError Phase
from_byte b =
    if b == 0
    then ok opened
    else if b == 1
    then ok claimed
    else if b == 2
    then ok shipped
    else if b == 3
    then ok disputed
    else err (bad_phase b)

pub record EscrowState (K : Type 0) : Type 0 where
  pub phase : Phase
  pub terms_id : List ℕ
  pub maker : Option K
  pub maker_rep : Option K
  pub tracking : Option (List ℕ)
  pub shipped_at : ℕ

abbrev pub is_some {ℓ} : {A : Type ℓ} → Option A → Bool
is_some none = false
is_some (some a) = true

abbrev pub is_none {ℓ} : {A : Type ℓ} → Option A → Bool
is_none none = true
is_none (some a) = false

-- The `matches!` of `may_transition_to`.
abbrev pub is_transition : Phase → Phase → Bool
is_transition opened claimed = true
is_transition claimed shipped = true
is_transition shipped disputed = true
is_transition _ _ = false

module _ {K : Type 0} where
  unfoldable pub open_state : List ℕ → EscrowState K
  open_state terms_id = record {
    phase = opened;
    terms_id = terms_id;
    maker = none;
    maker_rep = none;
    tracking = none;
    shipped_at = 0;
  }

  check_open : EscrowState K → Result StateError (Unit {0})
  check_open s = do
    refuse_if (is_some s.maker || is_some s.maker_rep) (malformed "OPEN escrow cannot name a maker")
    refuse_if (is_some s.tracking || not (s.shipped_at == 0))
        (malformed "OPEN escrow cannot be shipped")

  check_claimed : EscrowState K → Result StateError (Unit {0})
  check_claimed s = do
    refuse_if (is_none s.maker) (malformed "CLAIMED escrow must name a maker")
    refuse_if (is_none s.maker_rep) (malformed "CLAIMED escrow must name a maker pseudonym")
    refuse_if (is_some s.tracking || not (s.shipped_at == 0))
        (malformed "CLAIMED escrow cannot be shipped")

  check_shipped : EscrowState K → Result StateError (Unit {0})
  check_shipped s = do
    refuse_if (is_none s.maker || is_none s.maker_rep)
        (malformed "shipped escrow must name a maker")
    refuse_if (is_none s.tracking) (malformed "shipped escrow must carry a tracking hash")
    refuse_if (s.shipped_at == 0) (malformed "shipped escrow must record when it shipped")

  check_phase : Phase → EscrowState K → Result StateError (Unit {0})
  unfolding check_open check_claimed check_shipped
  check_phase opened s = check_open s
  check_phase claimed s = check_claimed s
  check_phase shipped s = check_shipped s
  check_phase disputed s = check_shipped s

  unfoldable pub check_invariants : EscrowState K → Result StateError (Unit {0})
  unfolding check_phase
  check_invariants s = check_phase s.phase s

  unfoldable pub may_transition_to : EscrowState K → Phase → Result StateError (Unit {0})
  may_transition_to s next =
      if is_transition s.phase next then ok tt else err (illegal_transition s.phase next)

unfoldable pub copy_hash : ℕ → Option (List ℕ) → List ℕ → List ℕ
copy_hash start none out = out
copy_hash start (some t) out = copy_range start (start + 32) t out

unfoldable pub read_hash : List ℕ → Option (List ℕ)
read_hash bytes = if beq_bytes bytes (replicate 32 0) then none else some bytes

module _ {K : Type 0} ⦃key : XOnly K⦄ where
  -- `if let Some(m) = &self.maker { out[start..start + 32].copy_from_slice(&m.serialize()); }`
  unfoldable pub copy_key : ℕ → Option K → List ℕ → List ℕ
  copy_key start none out = out
  copy_key start (some k) out = copy_range start (start + 32) (key.serialize k) out

  unfoldable pub encode : EscrowState K → List ℕ
  encode s =
      let out₀ : List ℕ = replicate state_bytes 0 in
      let out₁ = copy_range off_magic (off_magic + 4) magic out₀ in
      let out₂ = copy_range off_version (off_version + 1) (version ∷ []) out₁ in
      let out₃ = copy_range off_phase (off_phase + 1) (byte s.phase ∷ []) out₂ in
      let out₄ = copy_range off_terms (off_terms + 32) s.terms_id out₃ in
      let out₅ = copy_key off_maker s.maker out₄ in
      let out₆ = copy_key off_maker_rep s.maker_rep out₅ in
      let out₇ = copy_hash off_tracking s.tracking out₆ in
      copy_range off_shipped_at (off_shipped_at + 8) (le_bytes 8 s.shipped_at) out₇

  -- Zero bytes stand for no key.
  unfoldable pub read_key : String → List ℕ → Result StateError (Option K)
  read_key why bytes =
      if beq_bytes bytes (replicate 32 0)
      then ok none
      else (ok_or (key.from_slice bytes) (malformed why) >>= λ k. ok (some k))

  unfoldable pub decode : List ℕ → Result StateError (EscrowState K)
  decode bytes = do
    refuse_if (not (length bytes == state_bytes)) (bad_length (length bytes))
    refuse_if (not (beq_bytes (slice off_magic (off_magic + 4) bytes) magic)) bad_magic
    refuse_if (not (get_or bytes off_version 0 == version))
        (bad_version (get_or bytes off_version 0))
    phase ← from_byte (get_or bytes off_phase 0)
    maker ← read_key "maker is not a valid x-only pubkey" (slice off_maker (off_maker + 32) bytes)
    maker_rep ←
        read_key "maker_rep is not a valid x-only pubkey"
          (slice off_maker_rep (off_maker_rep + 32) bytes)
    let state : EscrowState K = record {
      phase = phase;
      terms_id = slice off_terms (off_terms + 32) bytes;
      maker = maker;
      maker_rep = maker_rep;
      tracking = read_hash (slice off_tracking (off_tracking + 32) bytes);
      shipped_at = from_le (slice off_shipped_at (off_shipped_at + 8) bytes);
    }
    check_invariants state
    ok state
