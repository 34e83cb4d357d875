-- ===== src/Board/Event/Signed.antt =====
-- What `verify` of krep-board/src/event.rs accepts, and that it accepts what `sign` makes.
use k_rep.Base.{
  ℕ, ◌≡◌, ◌↔◌, refl, ap, sym, ◌∙◌, not, some, List, ok, ok_or, ok_or-eq-ok, refuse_if-eq-ok,
  >>=-eq-ok, map_err, Result, err, beq_bytes, eq-beq_bytes, beq_bytes_refl, arith,
}
use k_rep.Keys.{XOnly}
use k_rep.Core.Attestation.{Crypto, Signer}
use k_rep.Board.Event.{
  Texts, SignatureBytes, Event, id_mismatch, number, text, array, no_more, then_value, tags_json,
  id_preimage, event_id, verify_event, sign_event, author,
}

map_err-eq-ok :
    {E F : Type 0} (f : E → F) (r : Result E (Unit {0})) → map_err f r ≡ ok tt → r ≡ ok tt
map_err-eq-ok f (ok u) h = refl
map_err-eq-ok f (err e) h = cc

module _ {T : Type 0} ⦃texts : Texts T⦄ (K S : Type 0) ⦃key : XOnly K⦄ ⦃crypto : Crypto K S⦄
    ⦃bytes : SignatureBytes K S⦄ where
  -- What an event that is accepted must be.
  pub record IsAuthentic (e : Event T) : Type 0 where
    -- SHA-256 of the JSON array of 0, the key, the time, the kind, the tags and the content
    pub digest : List ℕ
    pub is_digest :
        digest
        ≡ texts.sha256 (
            texts.print_json (
              array (
                then_value (number 0) (
                  then_value (text e.pubkey) (
                    then_value (number e.created_at) (
                      then_value (number e.kind) (
                        then_value
                          (array (tags_json e.tags))
                          (then_value (text e.content) no_more))))))))
    pub id : texts.unhex e.id ≡ some digest
    pub raw_key : List ℕ
    pub pubkey : texts.unhex e.pubkey ≡ some raw_key
    pub pk : K
    pub is_key : key.from_slice raw_key ≡ some pk
    pub raw_sig : List ℕ
    pub sig : texts.unhex e.sig ≡ some raw_sig
    pub signature : S
    pub is_signature : bytes.sig_from_slice raw_sig ≡ some signature
    pub verifies : crypto.verify_schnorr signature digest pk ≡ ok tt

  -- `verify` accepts an event exactly when its id is the SHA-256 digest of the JSON array of 0, its
  -- key, time, kind, tags and content, in this order, and its signature is a signature of that digest by its key.
  pub verify_event_iff : (e : Event T) → (verify_event K S e ≡ ok tt) ↔ IsAuthentic e
  unfolding verify_event event_id id_preimage
  verify_event_iff e = (
    λ h.
        let expected = event_id e.pubkey e.created_at e.kind e.tags e.content in
        let (claimed, id_at, h) = >>=-eq-ok (ok_or (texts.unhex e.id) _) _ h in
        let (same, h) = refuse_if-eq-ok (not (beq_bytes claimed expected)) id_mismatch _ h in
        let (raw_key, key_at, h) = >>=-eq-ok (ok_or (texts.unhex e.pubkey) _) _ h in
        let (pk, pk_at, h) = >>=-eq-ok (ok_or (key.from_slice raw_key) _) _ h in
        let (raw_sig, sig_at, h) = >>=-eq-ok (ok_or (texts.unhex e.sig) _) _ h in
        let (signature, signature_at, h) = >>=-eq-ok (ok_or (bytes.sig_from_slice raw_sig) _) _ h in
        let agree : claimed ≡ expected = eq-beq_bytes claimed expected (ground (arith, same)) in
        record {
          digest = expected;
          is_digest = refl;
          id = ok_or-eq-ok (texts.unhex e.id) _ id_at ∙ ap some agree;
          raw_key = raw_key;
          pubkey = ok_or-eq-ok (texts.unhex e.pubkey) _ key_at;
          pk = pk;
          is_key = ok_or-eq-ok (key.from_slice raw_key) _ pk_at;
          raw_sig = raw_sig;
          sig = ok_or-eq-ok (texts.unhex e.sig) _ sig_at;
          signature = signature;
          is_signature = ok_or-eq-ok (bytes.sig_from_slice raw_sig) _ signature_at;
          verifies = map_err-eq-ok _ _ h;
        },
    λ h. rw (
      h.id,
      sym h.is_digest,
      beq_bytes_refl h.digest,
      h.pubkey,
      h.is_key,
      h.sig,
      h.is_signature,
      h.verifies,
    ),
  )

  -- An event that is signed is accepted, and its author is the public key of the pair that signed.
  pub verify_event-sign_event :
      {P : Type 0} ⦃signer : Signer K S P⦄ (pair : P) (kind : ℕ) (tags : List (List T))
      (content : T) (created_at : ℕ)
      → (verify_event K S (sign_event K S pair kind tags content created_at) ≡ ok tt)
        × (author K S (sign_event K S pair kind tags content created_at)
            ≡ ok (signer.x_only_public_key pair))
  unfolding sign_event author event_id id_preimage
  verify_event-sign_event ⦃signer = signer⦄ pair kind tags content created_at =
      let pk = signer.x_only_public_key pair in
      let id = event_id (texts.hex (key.serialize pk)) created_at kind tags content in
      let signature = signer.sign_schnorr id pair in
      let e = sign_event K S pair kind tags content created_at in
      (
        (verify_event_iff e).1 (record {
          digest = id;
          is_digest = refl;
          id = texts.unhex-hex id;
          raw_key = key.serialize pk;
          pubkey = texts.unhex-hex (key.serialize pk);
          pk = pk;
          is_key = key.from_slice-serialize pk;
          raw_sig = crypto.sig_bytes signature;
          sig = texts.unhex-hex (crypto.sig_bytes signature);
          signature = signature;
          is_signature = bytes.sig_from_slice-sig_bytes signature;
          verifies = signer.verify_schnorr-sign_schnorr id pair;
        }),
        rw (texts.unhex-hex (key.serialize pk), key.from_slice-serialize pk),
      )
