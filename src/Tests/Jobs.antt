-- ===== src/Tests/Jobs.antt =====
-- krep-board's events of a job at concrete inputs.
use k_rep.Base.{◌≡◌, refl, Option, none, some, ok, err}
use k_rep.Board.Event.{Event, verify_event, sign_event, malformed_event}
use k_rep.Board.Job.{
  JobPost, Claim, Acceptance, Json, post_event, claim_event, accept_event, read_post, read_claim,
  read_acceptance,
}
use k_rep.Board.Job.Exchange.{job_events_read}
use k_rep.Tests.Toy.{ToyKey, alice, bob, toy_keys}
use k_rep.Tests.Texts.{
  ToyText, word, nothing, join, key_crypto, key_signer, key_signatures, toy_texts,
}

abbrev optional : Option ToyText → ToyText
optional none = nothing
optional (some t) = join t nothing

abbrev as_option : ToyText → Option ToyText
as_option (join t rest) = some t
as_option t = none

as_option-optional : (o : Option ToyText) → as_option (optional o) ≡ o
as_option-optional none = refl
as_option-optional (some t) = refl

abbrev written_acceptance : Acceptance ToyText → ToyText
written_acceptance a = join (word a.v) (join a.claim_id (join a.escrow_address a.escrow_outpoint))

abbrev as_acceptance : ToyText → Option (Acceptance ToyText)
as_acceptance (join (word v) (join claim_id (join escrow_address escrow_outpoint))) = some (record {
  v = v;
  claim_id = claim_id;
  escrow_address = escrow_address;
  escrow_outpoint = escrow_outpoint;
})
as_acceptance t = none

instance abbrev acceptance_json : Json ToyText (Acceptance ToyText)
acceptance_json = record {
  to_json = written_acceptance;
  from_json = as_acceptance;
  from_json-to_json = λ a. refl;
}

abbrev written_claim : Claim ToyText → ToyText
written_claim c = join (word c.v) (
    join c.rep_head
      (join c.rep_pubkey (join c.payment_pubkey (join c.bond_txid (optional c.note)))))

abbrev as_claim : ToyText → Option (Claim ToyText)
as_claim (join (word v) (join head (join rep (join payment (join bond note))))) = some (record {
  v = v;
  rep_head = head;
  rep_pubkey = rep;
  payment_pubkey = payment;
  bond_txid = bond;
  note = as_option note;
})
as_claim t = none

claim_back : (c : Claim ToyText) → as_claim (written_claim c) ≡ some c
claim_back c = rw (as_option-optional c.note)

instance abbrev claim_json : Json ToyText (Claim ToyText)
claim_json = record {
  to_json = written_claim;
  from_json = as_claim;
  from_json-to_json = claim_back;
}

abbrev money : JobPost ToyText → ToyText
money p = join (word p.qty) (join (word p.reward) (join (word p.maker_bond) (word p.deadline)))

abbrev written_post : JobPost ToyText → ToyText
written_post p = join (word p.v) (
    join (money p) (
      join p.kind (
        join p.file_hash (
          join p.file_ptr (
            join p.process (
              join p.material (
                join p.tolerance_class
                  (join p.ship_region (join p.escrow_template (optional p.buyer_rep_hint))))))))))

abbrev as_post : ToyText → Option (JobPost ToyText)
as_post
      (join (word v) (
        join (join (word qty) (join (word reward) (join (word maker_bond) (word deadline)))) (
          join kind (
            join file_hash (
              join file_ptr (
                join process (
                  join material
                    (join tolerance_class (join ship_region (join template hint)))))))))) =
    some (record {
      v = v;
      kind = kind;
      file_hash = file_hash;
      file_ptr = file_ptr;
      process = process;
      material = material;
      tolerance_class = tolerance_class;
      qty = qty;
      reward = reward;
      maker_bond = maker_bond;
      deadline = deadline;
      ship_region = ship_region;
      escrow_template = template;
      buyer_rep_hint = as_option hint;
    })
as_post t = none

post_back : (p : JobPost ToyText) → as_post (written_post p) ≡ some p
post_back p = rw (as_option-optional p.buyer_rep_hint)

instance abbrev post_json : Json ToyText (JobPost ToyText)
post_json = record { to_json = written_post; from_json = as_post; from_json-to_json = post_back }

abbrev bracket_post : JobPost ToyText
bracket_post = record {
  v = 1;
  kind = word 5;
  file_hash = word 64;
  file_ptr = word 20;
  process = word 3;
  material = word 4;
  tolerance_class = word 6;
  qty = 10;
  reward = 500000000;
  maker_bond = 100000000;
  deadline = 1000000;
  ship_region = word 2;
  escrow_template = word 64;
  buyer_rep_hint = none;
}

abbrev bobs_claim : Claim ToyText
bobs_claim = record {
  v = 1;
  rep_head = word 64;
  rep_pubkey = word 64;
  payment_pubkey = word 64;
  bond_txid = word 64;
  note = some (word 12);
}

abbrev bob_accepted : Acceptance ToyText
bob_accepted = record {
  v = 1;
  claim_id = word 64;
  escrow_address = word 61;
  escrow_outpoint = word 66;
}

abbrev posted : Event ToyText
posted = post_event ToyKey ToyKey bracket_post alice (word 5) 1700000000

abbrev claimed : Event ToyText
claimed = claim_event ToyKey ToyKey bobs_claim bob (word 75) 1700000000

abbrev accepted : Event ToyText
accepted = accept_event ToyKey ToyKey bob_accepted alice (word 75) 1700000000

job_events_read_example :
    ((verify_event ToyKey ToyKey posted ≡ ok tt) × (read_post posted ≡ ok (word 5, bracket_post)))
    × ((verify_event ToyKey ToyKey claimed ≡ ok tt)
        × (read_claim claimed ≡ ok (word 75, bobs_claim)))
    × ((verify_event ToyKey ToyKey accepted ≡ ok tt) × (read_acceptance accepted ≡ ok bob_accepted))
job_events_read_example =
    job_events_read ToyKey ToyKey bracket_post bobs_claim bob_accepted alice bob (word 5) (word 75)
      1700000000

claim_is_no_post : read_post claimed ≡ err (malformed_event "not a job posting")
unfolding claim_event read_post sign_event
claim_is_no_post = refl
