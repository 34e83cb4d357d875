-- ===== src/Core/Attestation/Canonical.antt =====
-- The canonical bytes of a body and of a covenant witness determine them (krep-core/src/lib.rs).
use k_rep.Base.{
  ℕ, ◌^◌, ◌<◌, ◌≡◌, refl, ap, sym, ◌∙◌, Option, none, some, List, ◌∷◌, ◌++◌, length, length-append,
  append-injective, drop, le_bytes, length-le_bytes, le_bytes-injective, IsArray, arith, ok,
}
use k_rep.Keys.{XOnly, serialize-injective}
use k_rep.Core.Attestation.{
  Role, provider, client, Outcome, success, default, disputed_resolved, role_byte, outcome_byte,
  AttestationBody, prev_bytes, canonical_bytes, check_link, validate_fields,
}

role_byte-injective : (a b : Role) → role_byte a ≡ role_byte b → a ≡ b
unfolding role_byte
role_byte-injective provider b h = ground arith
role_byte-injective client b h = ground arith

outcome_byte-injective : (a b : Outcome) → outcome_byte a ≡ outcome_byte b → a ≡ b
unfolding outcome_byte
outcome_byte-injective success b h = ground arith
outcome_byte-injective default b h = ground arith
outcome_byte-injective disputed_resolved b h = ground arith

-- The ranges of the Rust field types.
pub record IsBody {K : Type 0} (b : AttestationBody K) : Type 0 where
  pub txid : IsArray 32 b.anchor.txid
  pub output : b.anchor.index < 2 ^ 32
  pub prev : IsArray 32 (prev_bytes b.prev)
  pub index : b.index < 2 ^ 64
  pub ts : b.ts < 2 ^ 64

-- Absence of `prev` is written as zeros; the index tells it from a zero id.
prev-injective :
    (i : ℕ) (p q : Option (List ℕ))
    → check_link i p ≡ ok tt
    → check_link i q ≡ ok tt
    → prev_bytes p ≡ prev_bytes q
    → p ≡ q
prev-injective i none none h k e = refl
prev-injective i none (some b) h k e = ground arith
prev-injective i (some a) none h k e = ground arith
prev-injective i (some a) (some b) h k e = ap some e

module _ {K : Type 0} ⦃key : XOnly K⦄ where
  pub validate_fields-link :
      (b : AttestationBody K) → validate_fields b ≡ ok tt → check_link b.index b.prev ≡ ok tt
  unfolding validate_fields
  validate_fields-link b h = ground arith

  pub length-canonical_bytes : (b : AttestationBody K) → IsBody b → length (canonical_bytes b) ≡ 152
  unfolding canonical_bytes
  length-canonical_bytes b h =
      let i = le_bytes 8 b.index in
      let t = le_bytes 8 b.ts in
      let p = prev_bytes b.prev in
      let tail = outcome_byte b.outcome ∷ b.amount_bucket ∷ p ++ (i ++ t) in
      let cp = key.serialize b.counterparty in
      let ow = key.serialize b.owner in
      let parties = role_byte b.role ∷ ow ++ (cp ++ tail) in
      omega (
        arith,
        h.txid.width,
        h.prev.width,
        (key.serialize-IsArray b.owner).width,
        (key.serialize-IsArray b.counterparty).width,
        length-le_bytes 8 b.index,
        length-le_bytes 8 b.ts,
        length-le_bytes 4 b.anchor.index,
        length-append i t,
        length-append p (i ++ t),
        length-append cp tail,
        length-append ow (cp ++ tail),
        length-append (le_bytes 4 b.anchor.index) parties,
        length-append b.anchor.txid (le_bytes 4 b.anchor.index ++ parties),
      )

  -- The fields of equal canonical bytes are equal.
  fields-injective :
      (a b : AttestationBody K)
      → IsBody a
      → IsBody b
      → check_link a.index a.prev ≡ ok tt
      → check_link b.index b.prev ≡ ok tt
      → canonical_bytes a ≡ canonical_bytes b
      → a ≡ b
  unfolding canonical_bytes
  fields-injective a b p q la lb e =
      let le_width = λ (w m n : ℕ). length-le_bytes w m ∙ sym (length-le_bytes w n) in
      let key_width =
        λ (x y : K). (key.serialize-IsArray x).width ∙ sym (key.serialize-IsArray y).width in
      let v : a.v ≡ b.v = cc e in
      let (txid, e₁) =
        append-injective a.anchor.txid b.anchor.txid (p.txid.width ∙ sym q.txid.width)
          (ap (drop 1) e) in
      let (output, e₂) =
        append-injective (le_bytes 4 a.anchor.index) (le_bytes 4 b.anchor.index)
          (le_width 4 a.anchor.index b.anchor.index) e₁ in
      let role = role_byte-injective a.role b.role (cc e₂) in
      let (owner, e₃) =
        append-injective (key.serialize a.owner) (key.serialize b.owner) (key_width a.owner b.owner)
          (ap (drop 1) e₂) in
      let (party, e₄) =
        append-injective (key.serialize a.counterparty) (key.serialize b.counterparty)
          (key_width a.counterparty b.counterparty) e₃ in
      let outcome = outcome_byte-injective a.outcome b.outcome (cc e₄) in
      let bucket : a.amount_bucket ≡ b.amount_bucket = cc e₄ in
      let (prev, e₅) =
        append-injective (prev_bytes a.prev) (prev_bytes b.prev) (p.prev.width ∙ sym q.prev.width)
          (ap (drop 2) e₄) in
      let (index, ts) =
        append-injective (le_bytes 8 a.index) (le_bytes 8 b.index) (le_width 8 a.index b.index)
          e₅ in
      let same_output =
        le_bytes-injective 4 a.anchor.index b.anchor.index p.output q.output output in
      let same_index = le_bytes-injective 8 a.index b.index p.index q.index index in
      let same_ts = le_bytes-injective 8 a.ts b.ts p.ts q.ts ts in
      let same_prev = prev-injective b.index a.prev b.prev (rw same_index at la) lb prev in
      λ i. record {
        v = v i;
        anchor = record { txid = txid i; index = same_output i };
        role = role i;
        owner = serialize-injective a.owner b.owner owner i;
        counterparty = serialize-injective a.counterparty b.counterparty party i;
        outcome = outcome i;
        amount_bucket = bucket i;
        prev = same_prev i;
        index = same_index i;
        ts = same_ts i;
      }

  -- What is signed determines the body: two bodies that pass `validate_fields`, whose values have
  -- the widths of their Rust types, and that have the same canonical bytes are one body.
  pub canonical_bytes-injective :
      (a b : AttestationBody K)
      → IsBody a
      → IsBody b
      → validate_fields a ≡ ok tt
      → validate_fields b ≡ ok tt
      → canonical_bytes a ≡ canonical_bytes b
      → a ≡ b
  canonical_bytes-injective a b p q va vb =
      fields-injective a b p q (validate_fields-link a va) (validate_fields-link b vb)
