-- ===== src/Tests/Texts.antt =====
-- Texts, their JSON and signatures for the tests of krep-board's events.
use k_rep.Base.{
  ℕ, ◌≡◌, ◌↔◌, refl, Bool, true, false, Option, none, some, List, [], ◌++◌, ok, err, IsArray,
  le_bytes-IsArray, from_le, le_bytes, then_some, ◌+◌, ◌*◌, ◌%◌, ◌^◌, if◌then◌else◌, arith, take,
}
use native.Mathlib.Decide.{ℕ_discrete}
use Prim.Native.String.{len}
use k_rep.Core.Attestation.{Crypto, Signer}
use k_rep.Core.Chain.{Chain}
use k_rep.Board.Event.{
  Texts, SignatureBytes, Value, Values, number, text, array, no_more, then_value,
}
use k_rep.Tests.Toy.{ToyKey, alice, bob, carol, toy_keys, toy_hash, toy_serialize, toy_same}

-- A signature is its signer.
instance abbrev pub key_crypto : Crypto ToyKey ToyKey
key_crypto = record {
  derive_key = λ d msg. toy_hash msg;
  verify_schnorr = λ s msg k. if toy_same s k then ok tt else err "signature failed verification";
  sig_bytes = λ s. toy_serialize s ++ toy_serialize s;
  derive_key-IsArray = λ d msg. le_bytes-IsArray 32 (from_le msg);
  sig_bytes-IsArray = λ s. twice s;
}
  where
    twice : (s : ToyKey) → IsArray 64 (toy_serialize s ++ toy_serialize s)
    twice alice = omega arith
    twice bob = omega arith
    twice carol = omega arith

pub key_signs : (msg : List ℕ) (pair : ToyKey) → key_crypto.verify_schnorr pair msg pair ≡ ok tt
key_signs msg alice = refl
key_signs msg bob = refl
key_signs msg carol = refl

instance abbrev pub key_signer : Signer ToyKey ToyKey ToyKey
key_signer = record {
  sign_schnorr = λ msg pair. pair;
  x_only_public_key = λ pair. pair;
  verify_schnorr-sign_schnorr = key_signs;
}

pub sig_front :
    (s : ToyKey) → toy_keys.from_slice (take 32 (toy_serialize s ++ toy_serialize s)) ≡ some s
sig_front alice = toy_keys.from_slice-serialize alice
sig_front bob = toy_keys.from_slice-serialize bob
sig_front carol = toy_keys.from_slice-serialize carol

instance abbrev pub key_signatures : SignatureBytes ToyKey ToyKey
key_signatures = record {
  sig_from_slice = λ bs. toy_keys.from_slice (take 32 bs);
  sig_from_slice-sig_bytes = sig_front;
}

-- Words by their length, bytes in hex, and the JSON of an offer, whose materials are joined.
pub data ToyText : Type 0 where
  word : ℕ → ToyText
  hexed : List ℕ → ToyText
  nothing : ToyText
  join : ToyText → ToyText → ToyText
  written :
      ℕ
      → ToyText
      → ToyText
      → ToyText
      → ToyText
      → ToyText
      → ℕ
      → ℕ
      → Option (Chain ToyKey ToyKey)
      → ToyText

unfoldable pub ToyKey-discrete : Discrete ToyKey
ToyKey-discrete = hlevel

unfoldable pub Chain-discrete : Discrete (Chain ToyKey ToyKey)
Chain-discrete = hlevel (ℕ_discrete, ToyKey-discrete)

unfoldable pub ToyText-discrete : Discrete ToyText
ToyText-discrete = hlevel (ℕ_discrete, Chain-discrete)

abbrev pub decided : {A : Type 0} → Dec A → Bool
decided (yes a) = true
decided (no n) = false

abbrev pub same : ToyText → ToyText → Bool
same a b = decided (ToyText-discrete a b)

decided_iff : {A : Type 0} (d : Dec A) → (decided d ≡ true) ↔ A
decided_iff (yes a) = (λ h. a, λ h. refl)
decided_iff (no n) = (λ h. ground arith, λ h. absurd (n h))

pub same_iff : (a b : ToyText) → (same a b ≡ true) ↔ (a ≡ b)
same_iff a b = decided_iff (ToyText-discrete a b)

abbrev pub blank : ToyText → Bool
blank nothing = true
blank t = false

abbrev pub unhexed : ToyText → Option (List ℕ)
unhexed (hexed bs) = some bs
unhexed t = none

-- The JSON of a value, and its value again.
abbrev mutual
  pub printed : Value ToyText → ToyText
  printed (number n) = word n
  printed (text t) = join nothing t
  printed (array vs) = join (hexed []) (printed_all vs)

  pub printed_all : Values ToyText → ToyText
  printed_all no_more = nothing
  printed_all (then_value v vs) = join (printed v) (printed_all vs)

abbrev mutual
  pub parsed : ToyText → Option (Value ToyText)
  parsed (word n) = some (number n)
  parsed (join nothing t) = some (text t)
  parsed (join (hexed bs) t) = then_some (parsed_all t) (λ vs. some (array vs))
  parsed t = none

  pub parsed_all : ToyText → Option (Values ToyText)
  parsed_all nothing = some no_more
  parsed_all (join t rest) =
      then_some (parsed t) (λ v. then_some (parsed_all rest) (λ vs. some (then_value v vs)))
  parsed_all t = none

mutual
  pub parsed-printed : (v : Value ToyText) → parsed (printed v) ≡ some v
  parsed-printed (number n) = refl
  parsed-printed (text t) = refl
  parsed-printed (array vs) = rw (parsed_all-printed_all vs)

  pub parsed_all-printed_all : (vs : Values ToyText) → parsed_all (printed_all vs) ≡ some vs
  parsed_all-printed_all no_more = refl
  parsed_all-printed_all (then_value v vs) = rw (parsed-printed v, parsed_all-printed_all vs)

-- A number for a text, and its 32 bytes.
abbrev pub code : ToyText → ℕ
code (word n) = n * 8 + 1
code (hexed bs) = from_le bs * 8 + 2
code nothing = 3
code (join a b) = (code a * 1000003 + code b) % 2 ^ 250 * 8 + 4
code (written v title summary process materials region from_price lead_days rep_chain) =
    (code title * 1000003 + code summary) * 8 + 5

instance abbrev pub toy_texts : Texts ToyText
toy_texts = record {
  same_text = same;
  is_blank = blank;
  hex = hexed;
  unhex = unhexed;
  print_json = printed;
  parse_json = parsed;
  sha256 = λ t. le_bytes 32 (code t);
  literal = λ s. word (len s);
  same_text_iff = same_iff;
  parse_json-print_json = parsed-printed;
  unhex-hex = λ bs. refl;
}
