-- ===== src/Tests/Escrows.antt =====
-- krep-escrow's state at concrete inputs.
use k_rep.Base.{
  ◌+◌, ◌≤◌, ◌≡◌, refl, some, ok, err, replicate, beq_bytes, from_le, le_bytes, All, IsByte, arith,
}
use k_rep.Escrow.State.{
  shipped, disputed, EscrowState, encode, decode, byte, check_invariants, bad_length, bad_magic,
  malformed, may_transition_to, read_key, read_hash, copy_key, copy_hash, from_byte,
}
use k_rep.Escrow.State.Codec.{decode-encode, IsEncodable, IsReadBack}
use k_rep.Escrow.State.Canonical.{encode-decode}
use k_rep.Escrow.State.Phases.{Step, step, here, next, Steps-bounded}
use k_rep.Tests.Toy.{ToyKey, alice, bob, toy_keys}

codec : Unit {0}
unfolding encode decode byte check_invariants read_key read_hash copy_key copy_hash from_byte
    beq_bytes from_le le_bytes may_transition_to
codec = tt

abbrev shipped_state : EscrowState ToyKey
shipped_state = record {
  phase = shipped;
  terms_id = replicate 32 3;
  maker = some alice;
  maker_rep = some bob;
  tracking = some (replicate 32 9);
  shipped_at = 12345;
}

round_trip : decode (encode shipped_state) ≡ ok shipped_state
unfolding codec
round_trip = refl

short : decode {K = ToyKey} (replicate 64 0) ≡ err (bad_length 64)
unfolding codec
short = refl

foreign : decode {K = ToyKey} (replicate 142 0) ≡ err bad_magic
unfolding codec
foreign = refl

invariants_hold : check_invariants shipped_state ≡ ok tt
unfolding codec
invariants_hold = refl

shipped_IsEncodable : IsEncodable shipped_state
shipped_IsEncodable = record {
  terms = omega arith;
  tracking = omega arith;
  shipped_at = omega arith;
}

decode-encode_example : IsReadBack shipped_state (decode (encode shipped_state))
decode-encode_example = decode-encode shipped_state shipped_IsEncodable invariants_hold

-- A tracking hash of zeros meets the invariants, and is lost.
abbrev zero_tracking : EscrowState ToyKey
zero_tracking = record shipped_state { tracking = some (replicate 32 0) }

zero_tracking_allowed : check_invariants zero_tracking ≡ ok tt
unfolding codec
zero_tracking_allowed = refl

zero_tracking_lost :
    decode {K = ToyKey} (encode zero_tracking)
    ≡ err (malformed "shipped escrow must carry a tracking hash")
unfolding codec
zero_tracking_lost = refl

bytes_of_shipped : All IsByte (encode shipped_state)
unfolding codec
bytes_of_shipped = omega arith

encode-decode_example : encode shipped_state ≡ encode shipped_state
encode-decode_example =
    encode-decode (encode shipped_state) shipped_state bytes_of_shipped round_trip

abbrev disputed_state : EscrowState ToyKey
disputed_state = record shipped_state { phase = disputed }

disputes : Step shipped_state disputed_state
unfolding codec
disputes = step refl refl refl

Steps-bounded_example : (byte disputed ≡ byte shipped + 1) × (byte shipped + 1 ≤ 3)
Steps-bounded_example = Steps-bounded shipped_state 1 disputed_state (next here disputes)
