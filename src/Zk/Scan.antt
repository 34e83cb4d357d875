-- ===== src/Zk/Scan.antt =====
-- krep-zk/src/scan.rs: the leaves of a transaction, the pushes of a signature script and the default
-- that a spend records. An `i64` is written as its two's complement, a number below 2 ^ 64.
pub mod Grammar
pub mod Leaves
pub mod Defaults
use k_rep.Base.{
  ℕ, zero, suc, ◌+◌, ◌-◌, ◌^◌, min, Bool, true, false, not, ◌&&◌, ◌||◌, Option, none, some, List,
  [], ◌∷◌, ◌++◌, map, length, take, drop, get_elem?, replicate, ltb, leb, ◌==◌, if◌then◌else◌,
  le_bytes, from_le, chunks_exact, to_option, then_some, IsArray,
}
use k_rep.Keys.{XOnly}
use k_rep.Escrow.State.{EscrowState, Phase, opened, claimed, shipped, disputed, decode}

abbrev pub max_payload_scanned : ℕ
max_payload_scanned = 4096

unfoldable pub anchor_leaf : List ℕ → ℕ → List ℕ → List ℕ
anchor_leaf txid index id = txid ++ (le_bytes 4 index ++ id)

-- The two loops, over the spent outpoints and over the slots of the payload.
unfoldable pub leaves_loop : List (List ℕ × ℕ) → List (List ℕ) → List (List ℕ)
leaves_loop [] slots = []
leaves_loop (s ∷ rest) slots =
    map (λ slot. anchor_leaf s.0 s.1 slot) slots ++ leaves_loop rest slots

abbrev pub is_nil {ℓ} : {A : Type ℓ} → List A → Bool
is_nil [] = true
is_nil (x ∷ xs) = false

unfoldable pub leaves_for_tx : List (List ℕ × ℕ) → List ℕ → List (List ℕ)
leaves_for_tx spent payload =
    if ltb (length payload) 32 || is_nil spent
    then []
    else leaves_loop spent
        (chunks_exact 32 (take (min (length payload) max_payload_scanned) payload))

pub data Push : Type 0 where
  data_push : List ℕ → Push
  small : ℕ → Push

-- `script.get(i..i + len)?` and the bytes after it.
unfoldable pub split_at : ℕ → List ℕ → Option (List ℕ × List ℕ)
split_at n rest = if leb n (length rest) then some (take n rest, drop n rest) else none

unfoldable pub read_data : ℕ → List ℕ → Option (Push × List ℕ)
read_data n rest = then_some (split_at n rest) (λ p. some (data_push p.0, p.1))

-- A length of `w` bytes, then that much data.
unfoldable pub read_sized : ℕ → List ℕ → Option (Push × List ℕ)
read_sized w rest = then_some (split_at w rest) (λ p. read_data (from_le p.0) p.1)

-- One round of the loop, after the opcode is read: what it pushes, and the script after it.
unfoldable pub read_push : ℕ → List ℕ → Option (Push × List ℕ)
read_push op rest =
    if op == 0
    then some (small 0, rest)
    else if op == 79
    then some (small (2 ^ 64 - 1), rest)
    else if leb 81 op && leb op 96
    then some (small (op - 81 + 1), rest)
    else if leb 1 op && leb op 75
    then read_data op rest
    else if op == 76
    then read_sized 1 rest
    else if op == 77
    then read_sized 2 rest
    else if op == 78
    then read_sized 4 rest
    else none

-- The loop on fuel, on the part of the script that is left: a round takes a byte at least.
unfoldable pub parse_loop : ℕ → List ℕ → Option (List Push)
parse_loop fuel [] = some []
parse_loop zero (op ∷ rest) = none
parse_loop (suc fuel) (op ∷ rest) =
    then_some (read_push op rest) (λ p. then_some (parse_loop fuel p.1) (λ ps. some (p.0 ∷ ps)))

unfoldable pub parse_pushes : List ℕ → Option (List Push)
parse_pushes script = parse_loop (length script) script

unfoldable pub selector_of : Push → Option ℕ
selector_of (small v) = some v
selector_of (data_push d) =
    if leb (length d) 8 then some (from_le (d ++ replicate (8 - length d) 0)) else none

unfoldable pub branch_selector : List ℕ → Option ℕ
branch_selector sig_script = then_some (parse_pushes sig_script) (λ pushes.
    if ltb (length pushes) 2
    then none
    else then_some (get_elem? pushes (length pushes - 2)) selector_of)

abbrev pub was_claimed : Phase → Bool
was_claimed opened = false
was_claimed claimed = true
was_claimed shipped = true
was_claimed disputed = true

module _ {K : Type 0} ⦃key : XOnly K⦄ where
  abbrev default_of_state : EscrowState K → Option (List ℕ)
  default_of_state s =
      if not (was_claimed s.phase)
      then none
      else then_some s.maker_rep (λ rep. some (key.serialize rep))

unfoldable pub default_from_spend :
    (K : Type 0) ⦃key : XOnly K⦄ → List ℕ → List ℕ → ℕ → Option (List ℕ)
default_from_spend K escrow_payload sig_script slash_selector =
    then_some (branch_selector sig_script) (λ chosen.
      if not (chosen == slash_selector)
      then none
      else then_some (to_option (decode {K = K} escrow_payload)) default_of_state)
