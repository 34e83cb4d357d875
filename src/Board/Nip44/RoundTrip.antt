-- ===== src/Board/Nip44/RoundTrip.antt =====
-- What `encrypt_with_nonce` of krep-board/src/nip44.rs makes is read back by `decrypt`.
use k_rep.Base.{
  ℕ, ◌+◌, ◌-◌, ◌≡◌, ◌≤◌, refl, ap, ◌∙◌, false, some, List, [], ◌∷◌, ◌++◌, length, length-append,
  drop, slice, ltb, ok, IsArray, All, All-append, IsByte, arith, beq_bytes_refl, slice_front,
  slice_block, drop_block, drop-append_length, get_or,
}
use k_rep.Board.Nip44.{Ciphers, message_keys, encrypt_with_nonce, open_raw, decrypt, unpad, version}
use k_rep.Board.Nip44.Padding.{unpad-pad}

-- What is written in base64.
raw : List ℕ → List ℕ → List ℕ → List ℕ
raw nonce ct tag = version ∷ nonce ++ (ct ++ tag)

-- The payload's parts are found where `decrypt` looks for them.
module _ (nonce ct tag : List ℕ) (hn : length nonce ≡ 32) (ht : length tag ≡ 32) where
  head : get_or (raw nonce ct tag) 0 0 ≡ version
  unfolding raw
  head = refl

  long : ltb (length (raw nonce ct tag)) 67 ≡ (ltb (length ct) 2)
  unfolding raw
  long = ground (arith, length-append nonce (ct ++ tag), length-append ct tag)

  total : length (raw nonce ct tag) - 32 ≡ 33 + length ct
  unfolding raw
  total = omega (arith, length-append nonce (ct ++ tag), length-append ct tag)

  nonce_part : slice 1 33 (raw nonce ct tag) ≡ nonce
  unfolding raw
  nonce_part =
      slice_block 1 0 32 (version ∷ []) (nonce ++ (ct ++ tag)) refl
      ∙ slice_front 32 nonce (ct ++ tag) hn

  ct_part : slice 33 (length (raw nonce ct tag) - 32) (raw nonce ct tag) ≡ ct
  unfolding raw
  ct_part =
      ap (λ k. slice 33 k (raw nonce ct tag)) total
      ∙ slice_block 33 0 (length ct) (version ∷ nonce) (ct ++ tag) (omega arith)
      ∙ slice_front (length ct) ct tag refl

  tag_part : drop (length (raw nonce ct tag) - 32) (raw nonce ct tag) ≡ tag
  unfolding raw
  tag_part =
      ap (λ k. drop k (raw nonce ct tag)) total
      ∙ drop_block 33 (length ct) (version ∷ nonce) (ct ++ tag) (omega arith)
      ∙ drop-append_length (length ct) ct tag refl

-- The keys of a message, for a nonce that the expansion takes.
message_keys-eq-ok :
    (T : Type 0) ⦃ciphers : Ciphers T⦄ (key nonce out : List ℕ)
    → ciphers.expand key nonce ≡ some out
    → message_keys T key nonce ≡ ok (slice 0 32 out, slice 32 44 out, slice 44 76 out)
unfolding message_keys
message_keys-eq-ok T key nonce out e = rw e

-- A payload whose tag is the one of its nonce and ciphertext is opened to what the ciphertext
-- unpads to.
open_raw_lem :
    (T : Type 0) ⦃ciphers : Ciphers T⦄ (key nonce ct : List ℕ) (keys : List ℕ × List ℕ × List ℕ)
    → length nonce ≡ 32
    → 2 ≤ length ct
    → message_keys T key nonce ≡ ok keys
    → open_raw T (raw nonce ct (ciphers.hmac keys.2 (nonce ++ ct))) key
      ≡ unpad (ciphers.apply_keystream keys.0 keys.1 ct)
unfolding open_raw
open_raw_lem T ⦃ciphers = ciphers⦄ key nonce ct keys hn hc e =
    let tag : List ℕ = ciphers.hmac keys.2 (nonce ++ ct) in
    let ht = (ciphers.hmac-IsArray keys.2 (nonce ++ ct)).width in
    let full : ltb (length ct) 2 ≡ false = ground arith in
    rw (
      long nonce ct tag hn ht,
      full,
      head nonce ct tag hn ht,
      nonce_part nonce ct tag hn ht,
      ct_part nonce ct tag hn ht,
      tag_part nonce ct tag hn ht,
      e,
      beq_bytes_refl tag,
    )

module _ {T : Type 0} ⦃ciphers : Ciphers T⦄ where
  -- Any message of 1 to 65535 bytes that is encrypted under a conversation key and a nonce of 32
  -- bytes, for which the key expansion answers, gives a payload, and the payload is decrypted under
  -- that key to the message.
  pub decrypt-encrypt :
      (plaintext key nonce out : List ℕ)
      → All IsByte plaintext
      → 1 ≤ length plaintext
      → length plaintext ≤ 65535
      → IsArray 32 nonce
      → ciphers.expand key nonce ≡ some out
      → (payload : T) × (encrypt_with_nonce plaintext key nonce ≡ ok payload)
        × (decrypt payload key ≡ ok plaintext)
  unfolding encrypt_with_nonce decrypt raw
  decrypt-encrypt plaintext key nonce out bytes low high hn e =
      let keys : List ℕ × List ℕ × List ℕ = (slice 0 32 out, slice 32 44 out, slice 44 76 out) in
      let found = message_keys-eq-ok T key nonce out e in
      let (padded, made, padded_bytes, long, back) = unpad-pad plaintext low high bytes in
      let ct = ciphers.apply_keystream keys.0 keys.1 padded in
      let tag = ciphers.hmac keys.2 (nonce ++ ct) in
      let ct_bytes = ciphers.apply_keystream-IsByte keys.0 keys.1 padded padded_bytes in
      let raw_bytes : All IsByte (version ∷ nonce ++ (ct ++ tag)) = (
        omega arith,
        All-append IsByte nonce (ct ++ tag) hn.bytes
            (All-append IsByte ct tag ct_bytes (ciphers.hmac-IsArray keys.2 (nonce ++ ct)).bytes),
      ) in
      (
        ciphers.encode (version ∷ nonce ++ (ct ++ tag)),
        rw (found, made),
        rw
            (
              ciphers.encode-no_hash (raw nonce ct tag),
              ciphers.decode-encode (raw nonce ct tag) raw_bytes,
            )
            (open_raw_lem T key nonce ct keys hn.width
                (omega (arith, ciphers.length-apply_keystream keys.0 keys.1 padded)) found
              ∙ ap unpad (ciphers.keystream_twice keys.0 keys.1 padded padded_bytes)
              ∙ back),
      )
