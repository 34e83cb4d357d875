-- ===== src/Board/Nip44.antt =====
-- krep-board/src/nip44.rs: NIP-44 payloads. The ciphers and base64 are parameters.
pub mod Padding
pub mod RoundTrip
use k_rep.Base.{
  ℕ, zero, suc, ◌+◌, ◌-◌, ◌*◌, ◌/◌, ◌%◌, ◌^◌, ◌≡◌, ◌<◌, Bool, true, false, not, ◌&&◌, ◌||◌, Option,
  none, some, List, [], ◌∷◌, ◌++◌, length, take, drop, replicate, get_or, get_range, slice, leb,
  ltb, ◌==◌, if◌then◌else◌, Result, ok, err, ◌>>=◌, ◌>>◌, refuse_if, ok_or, beq_bytes, String,
  IsArray, All, IsByte,
}

-- HKDF-Expand of HMAC-SHA256 to 76 bytes, HMAC-SHA256, the ChaCha20 keystream applied to some
-- bytes, and the standard base64: what the code calls, with what it relies on.
pub record Ciphers (T : Type 0) : Type 0 where
  pub expand : List ℕ → List ℕ → Option (List ℕ)
  pub hmac : List ℕ → List ℕ → List ℕ
  pub apply_keystream : List ℕ → List ℕ → List ℕ → List ℕ
  pub encode : List ℕ → T
  pub decode : T → Option (List ℕ)
  pub starts_with_hash : T → Bool
  pub hmac-IsArray : (key msg : List ℕ) → IsArray 32 (hmac key msg)
  -- applied twice, a keystream cancels
  pub keystream_twice :
      (key nonce bs : List ℕ)
      → All IsByte bs
      → apply_keystream key nonce (apply_keystream key nonce bs) ≡ bs
  pub length-apply_keystream :
      (key nonce bs : List ℕ) → length (apply_keystream key nonce bs) ≡ length bs
  pub apply_keystream-IsByte :
      (key nonce bs : List ℕ) → All IsByte bs → All IsByte (apply_keystream key nonce bs)
  -- base64 is read back, and has no `#`
  pub decode-encode : (bs : List ℕ) → All IsByte bs → decode (encode bs) ≡ some bs
  pub encode-no_hash : (bs : List ℕ) → starts_with_hash (encode bs) ≡ false

abbrev pub version : ℕ
version = 2

abbrev pub min_plaintext : ℕ
min_plaintext = 1

abbrev pub max_plaintext : ℕ
max_plaintext = 65535

pub data Nip44Error : Type 0 where
  plaintext_length : ℕ → Nip44Error
  malformed : String → Nip44Error
  bad_version : ℕ → Nip44Error
  bad_mac : Nip44Error
  bad_key : String → Nip44Error

-- `usize::BITS - n.leading_zeros()`, in at most `fuel` bits.
unfoldable pub bit_width : ℕ → ℕ → ℕ
bit_width zero n = 0
bit_width (suc fuel) n = let rest = bit_width fuel (n / 2) in if n == 0 then 0 else suc rest

abbrev pub chunk_of : ℕ → ℕ
chunk_of next_power = if leb next_power 256 then 32 else next_power / 8

unfoldable pub calc_padded_len : ℕ → ℕ
calc_padded_len len =
    let chunk = chunk_of (2 ^ bit_width 64 (len - 1)) in
    if leb len 32 then 32 else chunk * ((len - 1) / chunk + 1)

-- `Vec::resize(n, 0)`
abbrev pub resize : ℕ → List ℕ → List ℕ
resize n bs = take n bs ++ replicate (n - length bs) 0

unfoldable pub pad : List ℕ → Result Nip44Error (List ℕ)
pad plaintext =
    let len = length plaintext in
    refuse_if (not (leb min_plaintext len && leb len max_plaintext)) (plaintext_length len)
    >> ok (resize (2 + calc_padded_len len) (len / 256 % 256 ∷ len % 256 ∷ plaintext))

unfoldable pub unpad : List ℕ → Result Nip44Error (List ℕ)
unpad padded = do
  refuse_if (ltb (length padded) 2) (malformed "padded message too short")
  let len = get_or padded 0 0 * 256 + get_or padded 1 0
  body ← ok_or (get_range 2 (2 + len) padded) (malformed "declared length exceeds payload")
  refuse_if (ltb len min_plaintext || not (length padded == 2 + calc_padded_len len))
      (malformed "padding does not match declared length")
  ok body

-- The three keys: for the cipher, its nonce, and for the authentication.
unfoldable pub message_keys :
    (T : Type 0) ⦃ciphers : Ciphers T⦄
    → List ℕ
    → List ℕ
    → Result Nip44Error (List ℕ × List ℕ × List ℕ)
message_keys T ⦃ciphers = ciphers⦄ conversation_key nonce =
    ok_or (ciphers.expand conversation_key nonce) (bad_key "hkdf expand") >>= λ out.
    ok (slice 0 32 out, slice 32 44 out, slice 44 76 out)

-- `decrypt` once the base64 is read.
unfoldable pub open_raw :
    (T : Type 0) ⦃ciphers : Ciphers T⦄ → List ℕ → List ℕ → Result Nip44Error (List ℕ)
open_raw T ⦃ciphers = ciphers⦄ raw conversation_key = do
  refuse_if (ltb (length raw) 67) (malformed "payload too short")
  refuse_if (not (get_or raw 0 0 == version)) (bad_version (get_or raw 0 0))
  let nonce = slice 1 33 raw
  let ct = slice 33 (length raw - 32) raw
  let tag = drop (length raw - 32) raw
  keys ← message_keys T conversation_key nonce
  refuse_if (not (beq_bytes (ciphers.hmac keys.2 (nonce ++ ct)) tag)) bad_mac
  unpad (ciphers.apply_keystream keys.0 keys.1 ct)

module _ {T : Type 0} ⦃ciphers : Ciphers T⦄ where
  unfoldable pub encrypt_with_nonce : List ℕ → List ℕ → List ℕ → Result Nip44Error T
  encrypt_with_nonce plaintext conversation_key nonce =
      message_keys T conversation_key nonce >>= λ keys. pad plaintext >>= λ padded.
      let buf = ciphers.apply_keystream keys.0 keys.1 padded in
      let tag = ciphers.hmac keys.2 (nonce ++ buf) in
      ok (ciphers.encode (version ∷ nonce ++ (buf ++ tag)))

  unfoldable pub decrypt : T → List ℕ → Result Nip44Error (List ℕ)
  decrypt payload conversation_key = do
    refuse_if (ciphers.starts_with_hash payload) (bad_version 35)
    raw ← ok_or (ciphers.decode payload) (malformed "not valid base64")
    open_raw T raw conversation_key
