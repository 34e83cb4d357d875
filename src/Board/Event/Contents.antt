-- ===== src/Board/Event/Contents.antt =====
-- The id of an event stands for its contents (krep-board/src/event.rs).
use k_rep.Base.{◌≡◌, ◌≢◌, ◌⊎◌, inl, inr, refl, ap, ap₂, sym, ◌∙◌, List, [], ◌∷◌, ok, Bool-cases}
use k_rep.Keys.{XOnly}
use k_rep.Core.Attestation.{Crypto}
use k_rep.Board.Event.{
  Texts, SignatureBytes, Event, number, text, array, no_more, then_value, strings_json, tags_json,
  id_preimage, verify_event,
}
use k_rep.Board.Event.Signed.{verify_event_iff}

module _ {T : Type 0} where
  strings_json-injective :
      ⦃texts : Texts T⦄ (xs ys : List T) → strings_json xs ≡ strings_json ys → xs ≡ ys
  unfolding strings_json
  strings_json-injective [] [] e = refl
  strings_json-injective [] (y ∷ ys) e = absurd (cc e)
  strings_json-injective (x ∷ xs) [] e = absurd (cc e)
  strings_json-injective (x ∷ xs) (y ∷ ys) e =
      let first : x ≡ y = cc e in ap₂ ◌∷◌ first (strings_json-injective xs ys (cc e))

  tags_json-injective :
      ⦃texts : Texts T⦄ (xs ys : List (List T)) → tags_json xs ≡ tags_json ys → xs ≡ ys
  unfolding tags_json
  tags_json-injective [] [] e = refl
  tags_json-injective [] (y ∷ ys) e = absurd (cc e)
  tags_json-injective (x ∷ xs) [] e = absurd (cc e)
  tags_json-injective (x ∷ xs) (y ∷ ys) e =
      ap₂ ◌∷◌ (strings_json-injective x y (cc e)) (tags_json-injective xs ys (cc e))

  -- Two events with everything in common that is signed.
  pub record SameContents (e f : Event T) : Type 0 where
    pub pubkey : e.pubkey ≡ f.pubkey
    pub created_at : e.created_at ≡ f.created_at
    pub kind : e.kind ≡ f.kind
    pub tags : e.tags ≡ f.tags
    pub content : e.content ≡ f.content

  -- The text that the id of an event is a digest of.
  abbrev pub preimage_of : ⦃texts : Texts T⦄ → Event T → T
  preimage_of e = id_preimage e.pubkey e.created_at e.kind e.tags e.content

  id_preimage-SameContents :
      ⦃texts : Texts T⦄ (e f : Event T) → preimage_of e ≡ preimage_of f → SameContents e f
  unfolding id_preimage
  id_preimage-SameContents ⦃texts = texts⦄ e f same =
      let value = λ (g : Event T). array (
        then_value (number 0) (
          then_value (text g.pubkey) (
            then_value (number g.created_at) (
              then_value (number g.kind)
                (then_value (array (tags_json g.tags)) (then_value (text g.content) no_more)))))) in
      let parsed : value e ≡ value f =
        cc (texts.parse_json-print_json (value e), texts.parse_json-print_json (value f), same) in
      record {
        pubkey = cc parsed;
        created_at = cc parsed;
        kind = cc parsed;
        tags = tags_json-injective e.tags f.tags (cc parsed);
        content = cc parsed;
      }

  -- Two accepted events with one id have the same key, time, kind, tags and content, unless their
  -- preimages are two texts with the same SHA-256 digest.
  pub verify_event_binds :
      ⦃texts : Texts T⦄ (K S : Type 0) ⦃key : XOnly K⦄ ⦃crypto : Crypto K S⦄
      ⦃bytes : SignatureBytes K S⦄ (e f : Event T)
      → verify_event K S e ≡ ok tt
      → verify_event K S f ≡ ok tt
      → e.id ≡ f.id
      → SameContents e f
        ⊎ ((preimage_of e ≢ preimage_of f)
            × (texts.sha256 (preimage_of e) ≡ texts.sha256 (preimage_of f)))
  verify_event_binds ⦃texts = texts⦄ K S e f ve vf same =
      let a = (verify_event_iff K S e).0 ve in
      let b = (verify_event_iff K S f).0 vf in
      let digests : a.digest ≡ b.digest = cc (a.id, b.id, ap texts.unhex same) in
      let equal : texts.sha256 (preimage_of e) ≡ texts.sha256 (preimage_of f) =
        unfold id_preimage in sym a.is_digest ∙ digests ∙ b.is_digest in
      elim (Bool-cases (texts.same_text (preimage_of e) (preimage_of f))) [
        | inl h ↦ inl (
            id_preimage-SameContents e f
              ((texts.same_text_iff (preimage_of e) (preimage_of f)).0 h))
        | inr h ↦
            inr (
              λ p. absurd (cc (h, (texts.same_text_iff (preimage_of e) (preimage_of f)).1 p)),
              equal,
            )
      ]
