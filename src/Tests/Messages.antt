-- ===== src/Tests/Messages.antt =====
-- krep-board's payloads and krep-escrow's terms at concrete inputs.
use k_rep.Base.{
  ℕ, ◌+◌, ◌*◌, ◌≤◌, ◌≡◌, ◌↔◌, ◌⊎◌, refl, false, some, List, [], ◌∷◌, ok, err, replicate, All,
  IsByte, IsArray, le_bytes-IsArray, from_le, arith, get_range,
}
use k_rep.Board.Nip44.{
  Ciphers, bit_width, calc_padded_len, pad, unpad, encrypt_with_nonce, decrypt, plaintext_length,
}
use k_rep.Board.Nip44.Padding.{calc_padded_len-bounds, IsPadded, unpad_iff}
use k_rep.Board.Nip44.RoundTrip.{decrypt-encrypt}
use k_rep.Tests.Toy.{ToyKey, alice, bob, toy_keys, toy_hash}
use k_rep.Escrow.Terms.{Terms}
use k_rep.Escrow.Terms.Canonical.{IsTerms, terms_bytes-injective}

abbrev expanded : List ℕ
expanded = replicate 76 1

-- A keystream of zeros and an encoding that changes nothing.
instance abbrev toy_ciphers : Ciphers (List ℕ)
toy_ciphers = record {
  expand = λ key nonce. some expanded;
  hmac = λ key msg. toy_hash msg;
  apply_keystream = λ key nonce bs. bs;
  encode = λ bs. bs;
  decode = λ bs. some bs;
  starts_with_hash = λ bs. false;
  hmac-IsArray = λ key msg. le_bytes-IsArray 32 (from_le msg);
  keystream_twice = λ key nonce bs h. refl;
  length-apply_keystream = λ key nonce bs. refl;
  apply_keystream-IsByte = λ key nonce bs h. h;
  decode-encode = λ bs h. refl;
  encode-no_hash = λ bs. refl;
}

lengths :
    (calc_padded_len 1 ≡ 32)
    × (calc_padded_len 33 ≡ 64)
    × (calc_padded_len 257 ≡ 320)
    × (calc_padded_len 65535 ≡ 65536)
unfolding calc_padded_len bit_width
lengths = (refl, refl, refl, refl)

too_short : pad [] ≡ err (plaintext_length 0)
unfolding pad calc_padded_len bit_width
too_short = refl

calc_padded_len-bounds_example :
    (33 ≤ calc_padded_len 33)
    × (32 ≤ calc_padded_len 33)
    × ((calc_padded_len 33 ≤ 33 + 31) ⊎ (4 * calc_padded_len 33 ≤ 5 * 33))
calc_padded_len-bounds_example = calc_padded_len-bounds 33 (omega arith)

-- Filler that is not zero is accepted.
abbrev dirty : List ℕ
dirty = 0 ∷ 2 ∷ 7 ∷ 8 ∷ replicate 30 255

abbrev short_message : List ℕ
short_message = 7 ∷ 8 ∷ []

dirty_bytes : All IsByte dirty
dirty_bytes = omega arith

unpad_iff_example : (unpad dirty ≡ ok short_message) ↔ IsPadded short_message dirty
unpad_iff_example = unpad_iff dirty short_message dirty_bytes

dirty_accepted : unpad dirty ≡ ok short_message
unfolding unpad get_range calc_padded_len bit_width
dirty_accepted = refl

abbrev nonce : List ℕ
nonce = replicate 32 5

nonce-IsArray : IsArray 32 nonce
nonce-IsArray = omega arith

message_bytes : All IsByte short_message
message_bytes = omega arith

expands : toy_ciphers.expand [] nonce ≡ some expanded
expands = refl

decrypt-encrypt_example :
    (payload : List ℕ) × (encrypt_with_nonce short_message [] nonce ≡ ok payload)
    × (decrypt payload [] ≡ ok short_message)
decrypt-encrypt_example =
    decrypt-encrypt short_message [] nonce expanded message_bytes (omega arith) (omega arith)
      nonce-IsArray expands

abbrev some_terms : Terms ToyKey
some_terms = record {
  buyer = alice;
  buyer_rep = bob;
  arbiter = some bob;
  reward = 500000000;
  maker_bond = 100000000;
  deadline = 1000000;
  auto_release_delay = 50000;
  file_hash = replicate 32 7;
}

some_terms-IsTerms : IsTerms some_terms
some_terms-IsTerms = record {
  reward = omega arith;
  maker_bond = omega arith;
  deadline = omega arith;
  auto_release_delay = omega arith;
}

terms_bytes-injective_example : some_terms ≡ some_terms
terms_bytes-injective_example =
    terms_bytes-injective some_terms some_terms some_terms-IsTerms some_terms-IsTerms refl
