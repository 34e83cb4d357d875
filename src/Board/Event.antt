-- ===== src/Board/Event.antt =====
-- krep-board/src/event.rs: NIP-01 events. Texts, hex, JSON and SHA-256 are parameters.
pub mod Signed
pub mod Contents
use k_rep.Base.{
  ℕ, ◌≡◌, ◌↔◌, Bool, true, false, not, Option, none, some, List, [], ◌∷◌, String, Result, ok, err,
  ◌>>=◌, ◌>>◌, map_err, refuse_if, ok_or, beq_bytes, if◌then◌else◌, then_some,
}
use k_rep.Keys.{XOnly}
use k_rep.Core.Attestation.{Crypto, Signer}

-- What `serde_json::json!` builds for an event id: numbers, strings and arrays of these.
mutual
  pub data Value (T : Type 0) : Type 0 where
    number : ℕ → Value T
    text : T → Value T
    array : Values T → Value T

  pub data Values (T : Type 0) : Type 0 where
    no_more : Values T
    then_value : Value T → Values T → Values T

-- Texts with the operations that the code calls on them.
pub record Texts (T : Type 0) : Type 0 where
  -- `==` and `trim().is_empty()`
  pub same_text : T → T → Bool
  pub is_blank : T → Bool
  -- `hex::encode` and `hex::decode`
  pub hex : List ℕ → T
  pub unhex : T → Option (List ℕ)
  -- `Value::to_string` and `serde_json::from_str::<Value>`
  pub print_json : Value T → T
  pub parse_json : T → Option (Value T)
  -- SHA-256 of the bytes of a text
  pub sha256 : T → List ℕ
  -- a literal of the source
  pub literal : String → T
  pub same_text_iff : (a b : T) → (same_text a b ≡ true) ↔ (a ≡ b)
  pub parse_json-print_json : (v : Value T) → parse_json (print_json v) ≡ some v
  pub unhex-hex : (bs : List ℕ) → unhex (hex bs) ≡ some bs

-- `Signature::from_slice` reads what `Signature::as_ref` gives.
pub record SignatureBytes (K S : Type 0) ⦃crypto : Crypto K S⦄ : Type 0 where
  pub sig_from_slice : List ℕ → Option S
  pub sig_from_slice-sig_bytes : (s : S) → sig_from_slice (crypto.sig_bytes s) ≡ some s

pub data EventError : Type 0 where
  bad_event_signature : String → EventError
  id_mismatch : EventError
  malformed_event : String → EventError

pub record Event (T : Type 0) : Type 0 where
  pub id : T
  pub pubkey : T
  pub created_at : ℕ
  pub kind : ℕ
  pub tags : List (List T)
  pub content : T
  pub sig : T

-- `first()`, and `get(1)`
abbrev pub first {ℓ} : {A : Type ℓ} → List A → Option A
first [] = none
first (x ∷ xs) = some x

abbrev pub second {ℓ} : {A : Type ℓ} → List A → Option A
second [] = none
second (x ∷ xs) = first xs

-- `iter().find(p)`
abbrev pub find {ℓ} : {A : Type ℓ} → (A → Bool) → List A → Option A
find p [] = none
find p (x ∷ xs) = let rest = find p xs in if p x then some x else rest

module _ {T : Type 0} ⦃texts : Texts T⦄ where
  abbrev pub is_some_text : T → Option T → Bool
  is_some_text name none = false
  is_some_text name (some t) = texts.same_text t name

  unfoldable pub tag : Event T → T → Option T
  tag e name = then_some (find (λ t. is_some_text name (first t)) e.tags) second

  -- A list of strings, and a list of lists of strings, as JSON arrays.
  unfoldable pub strings_json : List T → Values T
  strings_json [] = no_more
  strings_json (t ∷ ts) = then_value (text t) (strings_json ts)

  unfoldable pub tags_json : List (List T) → Values T
  tags_json [] = no_more
  tags_json (t ∷ ts) = then_value (array (strings_json t)) (tags_json ts)

  unfoldable pub id_preimage : T → ℕ → ℕ → List (List T) → T → T
  id_preimage pubkey created_at kind tags content = texts.print_json (
      array (
        then_value (number 0) (
          then_value (text pubkey) (
            then_value (number created_at) (
              then_value (number kind)
                (then_value (array (tags_json tags)) (then_value (text content) no_more)))))))

  unfoldable pub event_id : T → ℕ → ℕ → List (List T) → T → List ℕ
  event_id pubkey created_at kind tags content =
      texts.sha256 (id_preimage pubkey created_at kind tags content)

  module _ (K S : Type 0) ⦃key : XOnly K⦄ ⦃crypto : Crypto K S⦄ ⦃bytes : SignatureBytes K S⦄ where
    unfoldable pub verify_event : Event T → Result EventError (Unit {0})
    verify_event e = do
      let expected = event_id e.pubkey e.created_at e.kind e.tags e.content
      claimed ← ok_or (texts.unhex e.id) (malformed_event "id")
      refuse_if (not (beq_bytes claimed expected)) id_mismatch
      pubkey ← ok_or (texts.unhex e.pubkey) (malformed_event "pubkey")
      pk ← ok_or (key.from_slice pubkey) (malformed_event "pubkey")
      raw ← ok_or (texts.unhex e.sig) (malformed_event "sig")
      sig ← ok_or (bytes.sig_from_slice raw) (malformed_event "sig")
      map_err bad_event_signature (crypto.verify_schnorr sig expected pk)

    unfoldable pub author : Event T → Result EventError K
    author e = do
      b ← ok_or (texts.unhex e.pubkey) (malformed_event "pubkey")
      ok_or (key.from_slice b) (malformed_event "pubkey")

    module _ {P : Type 0} ⦃signer : Signer K S P⦄ where
      unfoldable pub sign_event : P → ℕ → List (List T) → T → ℕ → Event T
      sign_event pair kind tags content created_at =
          let pubkey = texts.hex (key.serialize (signer.x_only_public_key pair)) in
          let id = event_id pubkey created_at kind tags content in
          record {
            id = texts.hex id;
            pubkey = pubkey;
            created_at = created_at;
            kind = kind;
            tags = tags;
            content = content;
            sig = texts.hex (crypto.sig_bytes (signer.sign_schnorr id pair));
          }
