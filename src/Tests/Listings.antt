-- ===== src/Tests/Listings.antt =====
-- krep-board's events and listings at concrete inputs.
use k_rep.Base.{
  ◌≡◌, ◌↔◌, refl, ap, Option, none, some, List, [], ◌∷◌, ok, err, from_le, le_bytes, ◌⊎◌, ◌≢◌,
  beq_bytes,
}
use native.Mathlib.Decide.{ℕ_discrete}
use k_rep.Core.Chain.{Chain}
use k_rep.Board.Event.{
  Event, id_mismatch, malformed_event, id_preimage, tags_json, strings_json, event_id, verify_event,
  sign_event, tag,
}
use k_rep.Board.Event.Signed.{IsAuthentic, verify_event_iff}
use k_rep.Board.Event.Contents.{SameContents, preimage_of, verify_event_binds}
use k_rep.Board.Offer.{Offer, OfferJson, to_event, from_event, check_owner}
use k_rep.Board.Offer.Binding.{IsListing, from_event_iff, from_event-to_event}
use k_rep.Tests.Texts.{
  key_crypto, key_signer, key_signatures, ToyText, word, hexed, nothing, join, written,
  ToyText-discrete, Chain-discrete, ToyKey-discrete, toy_texts,
}
use k_rep.Tests.Toy.{ToyKey, alice, bob, toy_keys, toy_serialize}

abbrev joined : List ToyText → ToyText
joined [] = nothing
joined (t ∷ ts) = join t (joined ts)

abbrev parts : ToyText → List ToyText
parts (join t rest) = t ∷ parts rest
parts t = []

parts-joined : (ts : List ToyText) → parts (joined ts) ≡ ts
parts-joined [] = refl
parts-joined (t ∷ ts) = ap (λ (rest : List ToyText). t ∷ rest) (parts-joined ts)

abbrev written_offer : Offer ToyText ToyKey ToyKey → ToyText
written_offer o =
    written o.v o.title o.summary o.process (joined o.materials) o.region o.from_price o.lead_days
      o.rep_chain

abbrev read_offer : ToyText → Option (Offer ToyText ToyKey ToyKey)
read_offer (written v title summary process materials region from_price lead_days rep_chain) =
    some (record {
      v = v;
      title = title;
      summary = summary;
      process = process;
      materials = parts materials;
      region = region;
      from_price = from_price;
      lead_days = lead_days;
      rep_chain = rep_chain;
    })
read_offer t = none

read_written : (o : Offer ToyText ToyKey ToyKey) → read_offer (written_offer o) ≡ some o
read_written o = rw (parts-joined o.materials)

instance abbrev toy_json : OfferJson ToyText ToyKey ToyKey
toy_json = record {
  to_string = written_offer;
  from_str = read_offer;
  from_str-to_string = read_written;
}

abbrev alices : Chain ToyKey ToyKey
alices = record { owner = alice; attestations = [] }

abbrev brackets : Offer ToyText ToyKey ToyKey
brackets = record {
  v = 1;
  title = word 8;
  summary = word 40;
  process = word 3;
  materials = word 3 ∷ word 4 ∷ [];
  region = word 2;
  from_price = 500000000;
  lead_days = 7;
  rep_chain = some alices;
}

abbrev listing : Event ToyText
listing = to_event brackets alice (word 10) 1700000000

-- The same listing, signed by another key.
abbrev borrowed : Event ToyText
borrowed = to_event brackets bob (word 10) 1700000000

alices_own :
    (chain : Chain ToyKey ToyKey)
    → some alices ≡ some chain
    → chain.owner ≡ key_signer.x_only_public_key alice
alices_own chain e = cc

from_event-to_event_example :
    (verify_event ToyKey ToyKey listing ≡ ok tt) × (from_event listing ≡ ok (word 10, brackets))
from_event-to_event_example =
    from_event-to_event brackets alice (word 10) 1700000000 refl alices_own

from_event_iff_example :
    (from_event listing ≡ ok (word 10, brackets)) ↔ IsListing listing (word 10) brackets
from_event_iff_example = from_event_iff listing (word 10) brackets

verify_event_iff_example :
    (verify_event ToyKey ToyKey listing ≡ ok tt) ↔ IsAuthentic ToyKey ToyKey listing
verify_event_iff_example = verify_event_iff ToyKey ToyKey listing

-- A listing whose text was changed after it was signed.
abbrev tampered : Event ToyText
tampered = record listing { content = word 1 }

-- The same event with a signature of other bytes.
abbrev resealed : Event ToyText
resealed = record listing { sig = hexed (toy_serialize alice) }

refused_tampered : verify_event ToyKey ToyKey tampered ≡ err id_mismatch
unfolding verify_event event_id id_preimage tags_json strings_json to_event sign_event beq_bytes
    from_le le_bytes
refused_tampered = refl

listing_verified : verify_event ToyKey ToyKey listing ≡ ok tt
listing_verified = (from_event-to_event brackets alice (word 10) 1700000000 refl alices_own).0

resealed_verified : verify_event ToyKey ToyKey resealed ≡ ok tt
unfolding verify_event event_id id_preimage tags_json strings_json to_event sign_event beq_bytes
    from_le le_bytes
resealed_verified = refl

verify_event_binds_example :
    SameContents listing resealed
    ⊎ ((preimage_of listing ≢ preimage_of resealed)
        × (toy_texts.sha256 (preimage_of listing) ≡ toy_texts.sha256 (preimage_of resealed)))
verify_event_binds_example =
    verify_event_binds ToyKey ToyKey listing resealed listing_verified resealed_verified refl

refused_borrowed :
    from_event {K = ToyKey} {S = ToyKey} borrowed
    ≡ err (malformed_event "a listing cannot borrow somebody else's reputation")
unfolding from_event check_owner to_event sign_event tag ToyText-discrete Chain-discrete
    ToyKey-discrete ℕ_discrete
refused_borrowed = refl
