-- ===== src/Tests/Spends.antt =====
-- krep-zk's scan rules at concrete inputs.
use k_rep.Base.{
  ℕ, ◌+◌, ◌≡◌, ◌≢◌, ◌↔◌, refl, true, false, ◌&&◌, none, some, List, [], ◌∷◌, ◌++◌, ok, replicate,
  beq_bytes, from_le, le_bytes, All, IsByte, arith, any, chunks, chunks_exact, chunks_fuel, length,
  take, min, slice,
}
use k_rep.Core.Kaspad.{payload_commits}
use k_rep.Escrow.State.{
  EscrowState, opened, claimed, encode, decode, off_maker_rep, read_key, read_hash, copy_key,
  copy_hash, from_byte, check_invariants, byte,
}
use k_rep.Zk.Scan.{
  Push, data_push, small, anchor_leaf, leaves_for_tx, leaves_loop, max_payload_scanned,
  parse_pushes, parse_loop, read_push, read_data, read_sized, split_at, branch_selector,
  selector_of, default_from_spend,
}
use k_rep.Zk.Scan.Grammar.{IsScript, parse_pushes_iff}
use k_rep.Zk.Scan.Leaves.{IsOutpoint, same_outpoint, leaves_iff_payload_commits}
use k_rep.Zk.Scan.Defaults.{default_from_spend_iff}
use k_rep.Tests.Toy.{ToyKey, alice, bob, toy_keys}

parser : Unit {0}
unfolding parse_pushes parse_loop read_push read_data read_sized split_at branch_selector
    selector_of from_le
parser = tt

-- A branch selector below a redeem script of three bytes, by OP_PUSHDATA1.
abbrev script : List ℕ
script = 84 ∷ 76 ∷ 3 ∷ 9 ∷ 9 ∷ 9 ∷ []

abbrev pushes : List Push
pushes = small 4 ∷ data_push (9 ∷ 9 ∷ 9 ∷ []) ∷ []

parsed : parse_pushes script ≡ some pushes
unfolding parser
parsed = refl

-- OP_CHECKSIG is not a push.
not_a_push : parse_pushes (172 ∷ []) ≡ none
unfolding parser
not_a_push = refl

selected : branch_selector script ≡ some 4
unfolding parser
selected = refl

script_bytes : All IsByte script
script_bytes = omega arith

parse_pushes_iff_example : (parse_pushes script ≡ some pushes) ↔ IsScript script pushes
parse_pushes_iff_example = parse_pushes_iff script pushes script_bytes

abbrev claimed_state : EscrowState ToyKey
claimed_state = record {
  phase = claimed;
  terms_id = replicate 32 3;
  maker = some alice;
  maker_rep = some bob;
  tracking = none;
  shipped_at = 0;
}

abbrev slashed_payload : List ℕ
slashed_payload = encode claimed_state

slashed : default_from_spend ToyKey slashed_payload script 4 ≡ some (replicate 32 2)
unfolding parser default_from_spend encode decode byte check_invariants read_key read_hash copy_key
    copy_hash from_byte beq_bytes le_bytes
slashed = refl

settled : default_from_spend ToyKey slashed_payload script 2 ≡ none
unfolding parser default_from_spend
settled = refl

default_from_spend_iff_example :
    (default_from_spend ToyKey slashed_payload script 4 ≡ some (replicate 32 2)) ↔ (
      (branch_selector script ≡ some 4)
      × ((s : EscrowState ToyKey) × (decode slashed_payload ≡ ok s) × (s.phase ≢ opened))
      × (replicate 32 2 ≡ slice off_maker_rep (off_maker_rep + 32) slashed_payload))
default_from_spend_iff_example =
    default_from_spend_iff ToyKey slashed_payload script 4 (replicate 32 2)

abbrev escrow : List ℕ × ℕ
escrow = (replicate 32 8, 1)

abbrev mirrored : List ℕ
mirrored = replicate 32 5 ++ replicate 32 6

escrow-IsOutpoint : IsOutpoint escrow
escrow-IsOutpoint = record { txid = refl; index = omega arith }

leaves_iff_payload_commits_example :
    any
      (beq_bytes (anchor_leaf escrow.0 escrow.1 (replicate 32 6)))
      (leaves_for_tx (escrow ∷ []) mirrored)
    ≡ (any (same_outpoint escrow) (escrow ∷ [])
        && payload_commits
            (take (min (length mirrored) max_payload_scanned) mirrored)
            (replicate 32 6))
leaves_iff_payload_commits_example =
    leaves_iff_payload_commits escrow (replicate 32 6) (escrow ∷ []) mirrored escrow-IsOutpoint
      (escrow-IsOutpoint, tt)

second_slot : payload_commits mirrored (replicate 32 6) ≡ true
unfolding payload_commits chunks_exact chunks chunks_fuel beq_bytes
second_slot = refl

unaligned : payload_commits (0 ∷ mirrored) (replicate 32 6) ≡ false
unfolding payload_commits chunks_exact chunks chunks_fuel beq_bytes
unaligned = refl

-- A payload of 4128 bytes with the id in its last slot: the verifier's rule finds it, and no leaf
-- is made for it.
abbrev long : List ℕ
long = replicate 4096 0 ++ replicate 32 6

long_commits : payload_commits long (replicate 32 6) ≡ true
unfolding payload_commits chunks_exact chunks chunks_fuel beq_bytes
long_commits = refl

long_unindexed :
    any
      (beq_bytes (anchor_leaf escrow.0 escrow.1 (replicate 32 6)))
      (leaves_for_tx (escrow ∷ []) long)
    ≡ false
unfolding leaves_for_tx leaves_loop anchor_leaf le_bytes chunks_exact chunks chunks_fuel beq_bytes
long_unindexed = refl
