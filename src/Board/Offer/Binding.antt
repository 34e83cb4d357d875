-- ===== src/Board/Offer/Binding.antt =====
-- What `from_event` of krep-board/src/offer.rs accepts: a listing that shows only its author's
-- record.
use k_rep.Base.{
  ℕ, ◌≡◌, ◌↔◌, refl, ap, sym, ◌∙◌, true, false, not, Option, none, some, ok, ok_or, ok_or-eq-ok,
  refuse_if-eq-ok, >>=-eq-ok, arith, ◌==◌,
}
use k_rep.Keys.{XOnly}
use k_rep.Core.Attestation.{Crypto, Signer}
use k_rep.Core.Chain.{Chain}
use k_rep.Board.Event.{Texts, SignatureBytes, Event, malformed_event, verify_event, sign_event, tag}
use k_rep.Board.Event.Signed.{verify_event-sign_event}
use k_rep.Board.Offer.{Offer, OfferJson, kind_offer, to_event, check_owner, from_event}

module _ {T : Type 0} ⦃texts : Texts T⦄ {K S : Type 0} ⦃key : XOnly K⦄ ⦃crypto : Crypto K S⦄
    ⦃bytes : SignatureBytes K S⦄ ⦃json : OfferJson T K S⦄ where
  -- What an event must be to be read as an offer under an id.
  pub record IsListing (e : Event T) (id : T) (o : Offer T K S) : Type 0 where
    pub kind : e.kind ≡ kind_offer
    pub named : tag e (texts.literal "d") ≡ some id
    pub content : json.from_str e.content ≡ some o
    pub own_record :
        (chain : Chain K S)
        → o.rep_chain ≡ some chain
        → texts.hex (key.serialize chain.owner) ≡ e.pubkey
    pub titled : texts.is_blank o.title ≡ false

  check_owner_iff :
      (e : Event T) (c : Option (Chain K S))
      → (check_owner e c ≡ ok tt)
        ↔ ((chain : Chain K S) → c ≡ some chain → texts.hex (key.serialize chain.owner) ≡ e.pubkey)
  unfolding check_owner
  check_owner_iff e none = (λ h chain at. cc, λ h. refl)
  check_owner_iff e (some chain) = (
    λ h other at.
        let same = texts.same_text_iff (texts.hex (key.serialize chain.owner)) e.pubkey in
        let first : texts.hex (key.serialize chain.owner) ≡ e.pubkey = same.0 (ground arith) in
        let equal : chain ≡ other = ground arith in
        ap (λ (c : Chain K S). texts.hex (key.serialize c.owner)) (sym equal) ∙ first,
    λ h.
        let same = texts.same_text_iff (texts.hex (key.serialize chain.owner)) e.pubkey in
        rw (same.1 (h chain refl)),
  )

  -- An event is read as an offer exactly when it has the kind of offers and a `d` tag with that id,
  -- its content is that offer, the offer has a title that is not blank, and the chain that it shows,
  -- if it shows one, is owned by the key that the event names as its author.
  pub from_event_iff :
      (e : Event T) (id : T) (o : Offer T K S) → (from_event e ≡ ok (id, o)) ↔ IsListing e id o
  unfolding from_event
  from_event_iff e id o = (
    λ h.
        let (kind, h) =
          refuse_if-eq-ok (not (e.kind == kind_offer)) (malformed_event "not an offer") _ h in
        let (name, name_at, h) = >>=-eq-ok (ok_or (tag e (texts.literal "d")) _) _ h in
        let (offer, offer_at, h) = >>=-eq-ok (ok_or (json.from_str e.content) _) _ h in
        let (u, owner, h) = >>=-eq-ok (check_owner e offer.rep_chain) _ h in
        let (blank, h) = refuse_if-eq-ok (texts.is_blank offer.title) _ (ok (name, offer)) h in
        let same_offer : offer ≡ o = cc in
        let same_name : name ≡ id = cc in
        record {
          kind = ground (arith, kind);
          named = ok_or-eq-ok (tag e (texts.literal "d")) _ name_at ∙ ap some same_name;
          content = ok_or-eq-ok (json.from_str e.content) _ offer_at ∙ ap some same_offer;
          own_record = λ chain at.
              (check_owner_iff e offer.rep_chain).0 owner chain
                (ap (λ (o : Offer T K S). o.rep_chain) same_offer ∙ at);
          titled = ap (λ (o : Offer T K S). texts.is_blank o.title) (sym same_offer) ∙ blank;
        },
    λ h.
        let kind : (e.kind == kind_offer) ≡ true = ap (λ (k : ℕ). k == kind_offer) h.kind in
        rw (kind, h.named, h.content, (check_owner_iff e o.rep_chain).1 h.own_record, h.titled),
  )

  module _ {P : Type 0} ⦃signer : Signer K S P⦄ where
    -- An offer that has a title and shows no chain but one of the key that signs it makes an event
    -- that passes its checks and is read back as that offer, under the id that it was given.
    pub from_event-to_event :
        (o : Offer T K S) (pair : P) (offer_id : T) (created_at : ℕ)
        → texts.is_blank o.title ≡ false
        → ((chain : Chain K S)
            → o.rep_chain ≡ some chain
            → chain.owner ≡ signer.x_only_public_key pair)
        → (verify_event K S (to_event o pair offer_id created_at) ≡ ok tt)
          × (from_event (to_event o pair offer_id created_at) ≡ ok (offer_id, o))
    unfolding to_event sign_event tag
    from_event-to_event o pair offer_id created_at titled own =
        let made : Event T = to_event o pair offer_id created_at in
        (
          (verify_event-sign_event K S pair kind_offer made.tags made.content created_at).0,
          (from_event_iff made offer_id o).1 (record {
            kind = refl;
            named = rw ((texts.same_text_iff (texts.literal "d") (texts.literal "d")).1 refl);
            content = json.from_str-to_string o;
            own_record = λ chain at. ap (λ k. texts.hex (key.serialize k)) (own chain at);
            titled = titled;
          }),
        )
