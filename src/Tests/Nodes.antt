-- ===== src/Tests/Nodes.antt =====
-- The verifier over a kaspad node, against a small node.
use k_rep.Base.{
  ℕ, ◌≡◌, refl, true, false, none, some, List, [], ◌∷◌, ok, err, replicate, beq_bytes, get_range,
  chunks, chunks_exact, chunks_fuel, from_le,
}
use k_rep.Core.Attestation.{Outpoint, CovenantWitness}
use k_rep.Core.Kaspad.{payload_commits}
use k_rep.Core.Kaspad.Node.{Transaction, Block, Rpc, ScanConfig, Verifier}
use k_rep.Core.Kaspad.Scan.{
  find_tx, accepted_tx, search_mergeset, fetch_from_mergeset, take_hits, take_batch, min_conf,
  scan_loop, scan_start, scan, cache_found, resolve, lookup,
}
use k_rep.Core.Kaspad.Spend.{
  script_of, search_txs, search_blocks, spend_loop, search_start, find_spender,
}
use k_rep.Core.Kaspad.Anchored.{
  split_item, data_of, sized_data, read_item, item_loop, parse_items, chosen_branch, took_branch,
  spent_by, is_anchored, authorized_by, check_covenant,
}
use k_rep.Core.Kaspad.Anchored.Answers.{
  IsAnchored, is_anchored-IsAnchored, IsWitnessed, check_covenant-IsWitnessed,
}
use k_rep.Core.Kaspad.Anchored.Lookups.{IsSound}
use k_rep.Tests.Toy.{alice, toy_keys}

node : Unit {0}
unfolding payload_commits find_tx accepted_tx search_mergeset fetch_from_mergeset take_hits
    take_batch min_conf scan_loop scan_start scan cache_found resolve lookup script_of search_txs
    search_blocks spend_loop search_start find_spender split_item data_of sized_data read_item
    item_loop parse_items chosen_branch took_branch spent_by is_anchored authorized_by
    check_covenant beq_bytes get_range chunks chunks_exact chunks_fuel from_le
node = tt

abbrev escrow_id : List ℕ
escrow_id = replicate 32 7

abbrev attested : List ℕ
attested = replicate 32 6

abbrev anchor : Outpoint
anchor = record { txid = escrow_id; index = 0 }

-- The escrow names alice at the offset 0 and is locked by the script 1 2 3; its spender takes the
-- branch 4 and commits the id.
abbrev escrow_tx : Transaction
escrow_tx = record {
  verbose_id = some escrow_id;
  payload = replicate 32 1;
  outputs = (1 ∷ 2 ∷ 3 ∷ []) ∷ [];
  inputs = [];
}

abbrev settling_tx : Transaction
settling_tx = record {
  verbose_id = some (9 ∷ []);
  payload = attested;
  outputs = [];
  inputs =
      record { transaction_id = escrow_id; index = 0; signature_script = 84 ∷ 3 ∷ 1 ∷ 2 ∷ 3 ∷ [] }
      ∷ [];
}

abbrev only_block : Block
only_block = record {
  verbose_data = some (record {
    transaction_ids = escrow_id ∷ (9 ∷ []) ∷ [];
    merge_set_blues = (5 ∷ []) ∷ [];
    merge_set_reds = [];
    selected_parent = 4 ∷ [];
  });
  transactions = escrow_tx ∷ settling_tx ∷ [];
}

abbrev rpc : Rpc
rpc = record {
  pruning_point_hash = ok (4 ∷ []);
  get_virtual_chain_from_block = λ start depth. ok (record {
    accepted =
        record {
          accepting_block_hash = 5 ∷ [];
          accepted_transaction_ids = escrow_id ∷ (9 ∷ []) ∷ [];
        }
        ∷ [];
    added_chain_block_hashes = [];
  });
  get_block = λ hash full. ok only_block;
  get_blocks = λ low. ok (record { block_hashes = (5 ∷ []) ∷ []; blocks = only_block ∷ [] });
}

abbrev cfg : ScanConfig
cfg = record {
  scan_from = none;
  max_batches = 3;
  min_confirmations = 100;
  max_spend_scan_blocks = 10;
}

abbrev fresh : Verifier
fresh = record { resolved = []; last_scan = none }

abbrev after : Verifier
after = (is_anchored rpc cfg attested anchor fresh).1

confirmed : is_anchored rpc cfg attested anchor fresh ≡ (ok true, after)
unfolding node
confirmed = refl

-- A node that knows of no transaction: no verdict.
abbrev empty_rpc : Rpc
empty_rpc = record rpc {
  get_virtual_chain_from_block =
      λ start depth. ok (record { accepted = []; added_chain_block_hashes = [] });
}

unknown :
    (is_anchored empty_rpc cfg attested anchor fresh).0
    ≡ err "the anchor outpoint could not be resolved"
unfolding node
unknown = refl

is_anchored-IsAnchored_example : IsSound rpc cfg after × IsAnchored rpc attested anchor
is_anchored-IsAnchored_example =
    is_anchored-IsAnchored rpc cfg attested anchor fresh after tt confirmed

abbrev witness : CovenantWitness
witness = record { redeem_script = 1 ∷ 2 ∷ 3 ∷ []; branch = 4; owner_offset = 0 }

abbrev lock : List ℕ → List ℕ
lock script = script

abbrev witnessed_after : Verifier
witnessed_after = (check_covenant rpc cfg lock anchor witness alice fresh).1

witnessed : check_covenant rpc cfg lock anchor witness alice fresh ≡ (ok true, witnessed_after)
unfolding node
witnessed = refl

check_covenant-IsWitnessed_example : IsWitnessed rpc lock anchor witness alice
check_covenant-IsWitnessed_example =
    check_covenant-IsWitnessed rpc cfg lock anchor witness alice fresh witnessed_after tt witnessed

-- The budget does not reach the spender: `is_anchored` has no verdict, `check_covenant` refuses.
abbrev poor : ScanConfig
poor = record cfg { max_spend_scan_blocks = 0 }

poor_unknown :
    (is_anchored rpc poor attested anchor fresh).0
    ≡ err "could not determine what spent the anchor outpoint"
unfolding node
poor_unknown = refl

poor_refuses : (check_covenant rpc poor lock anchor witness alice fresh).0 ≡ ok false
unfolding node
poor_refuses = refl
