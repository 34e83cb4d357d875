-- ===== src/Board/Offer.antt =====
-- krep-board/src/offer.rs: listings. Their JSON is a parameter.
pub mod Binding
use k_rep.Base.{
  ℕ, ◌≡◌, Bool, true, false, not, Option, none, some, List, [], ◌∷◌, Result, ok, err, ◌>>=◌, ◌>>◌,
  refuse_if, ok_or, ◌==◌,
}
use k_rep.Keys.{XOnly}
use k_rep.Core.Attestation.{Crypto, Signer}
use k_rep.Core.Chain.{Chain}
use k_rep.Board.Event.{Texts, SignatureBytes, Event, EventError, malformed_event, tag, sign_event}

abbrev pub kind_offer : ℕ
kind_offer = 30405

pub record Offer (T K S : Type 0) : Type 0 where
  pub v : ℕ
  pub title : T
  pub summary : T
  pub process : T
  pub materials : List T
  pub region : T
  pub from_price : ℕ
  pub lead_days : ℕ
  pub rep_chain : Option (Chain K S)

-- `serde_json::to_string` and `serde_json::from_str` of an offer: what is written is read back. For
-- the chain of an offer this takes in the serde modules of krep-core/src/lib.rs (hex of keys, ids and
-- signatures), which are not modelled.
pub record OfferJson (T K S : Type 0) : Type 0 where
  pub to_string : Offer T K S → T
  pub from_str : T → Option (Offer T K S)
  pub from_str-to_string : (o : Offer T K S) → from_str (to_string o) ≡ some o

module _ {T : Type 0} ⦃texts : Texts T⦄ {K S : Type 0} ⦃key : XOnly K⦄ ⦃crypto : Crypto K S⦄
    ⦃bytes : SignatureBytes K S⦄ ⦃json : OfferJson T K S⦄ where
  module _ {P : Type 0} ⦃signer : Signer K S P⦄ where
    unfoldable pub to_event : Offer T K S → P → T → ℕ → Event T
    to_event o pair offer_id created_at =
        sign_event K S pair kind_offer
          ((texts.literal "d" ∷ offer_id ∷ [])
            ∷ (texts.literal "process" ∷ o.process ∷ [])
            ∷ (texts.literal "region" ∷ o.region ∷ [])
            ∷ [])
          (json.to_string o) created_at

  -- The chain that an offer shows is its author's.
  unfoldable pub check_owner : Event T → Option (Chain K S) → Result EventError (Unit {0})
  check_owner e none = ok tt
  check_owner e (some chain) =
      refuse_if (not (texts.same_text (texts.hex (key.serialize chain.owner)) e.pubkey))
        (malformed_event "a listing cannot borrow somebody else's reputation")

  unfoldable pub from_event : Event T → Result EventError (T × Offer T K S)
  from_event e = do
    refuse_if (not (e.kind == kind_offer)) (malformed_event "not an offer")
    id ← ok_or (tag e (texts.literal "d")) (malformed_event "offer has no d tag")
    offer ← ok_or (json.from_str e.content) (malformed_event "offer content")
    check_owner e offer.rep_chain
    refuse_if (texts.is_blank offer.title) (malformed_event "offer has no title")
    ok (id, offer)
