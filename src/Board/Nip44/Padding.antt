-- ===== src/Board/Nip44/Padding.antt =====
-- The padding scheme (`calc_padded_len`, `pad` and `unpad` of krep-board/src/nip44.rs).
use k_rep.Base.{
  ℕ, zero, suc, ◌+◌, ◌-◌, ◌*◌, ◌/◌, ◌%◌, ◌^◌, ◌≡◌, ◌<◌, ◌≤◌, ◌↔◌, ◌⊎◌, inl, inr, refl, ap, ap₂, sym,
  ◌∙◌, true, false, not, ◌&&◌, ◌||◌, List, [], ◌∷◌, some, take-append-drop, ◌++◌, length,
  length-append, length-replicate, take, drop, replicate, get_range, slice, leb, ltb, ◌==◌, ok,
  refuse_if-eq-ok, >>=-eq-ok, ok_or, ok_or-eq-ok, if-cases, take-append_length, arith, All,
  All-append, IsByte, length-take, length-drop, Bool-cases,
}
use native.Mathlib.Nat.{pow-suc}
use k_rep.Board.Nip44.{
  bit_width, chunk_of, calc_padded_len, pad, unpad, min_plaintext, max_plaintext,
}

bit_width-pow : (fuel n : ℕ) → 0 < n → 2 ^ bit_width fuel n ≤ 2 * n
unfolding bit_width
bit_width-pow zero n h = omega arith
bit_width-pow (suc fuel) n h = elim (Bool-cases (n == 0)) [
  | inl b ↦ absurd (ground arith)
  | inr b ↦ elim (Bool-cases (n / 2 == 0)) [
    | inl c ↦ let half : n / 2 ≡ 0 = ground arith in rw (b, half) (one fuel n h)
    | inr c ↦
        let pos : 0 < n / 2 = ground arith in
        rw b (omega (arith, pow-suc 2 (bit_width fuel (n / 2)), bit_width-pow fuel (n / 2) pos))
  ]
]
  where
    one : (fuel n : ℕ) → 0 < n → 2 ^ suc (bit_width fuel 0) ≤ 2 * n
    one zero n h = omega arith
    one (suc fuel) n h = omega arith

-- A chunk is 32 bytes at least, and above that a quarter of the length at most.
chunk_of-bounds :
    (n : ℕ)
    → 0 < n
    → (32 ≤ chunk_of (2 ^ bit_width 64 n))
      × ((chunk_of (2 ^ bit_width 64 n) ≡ 32) ⊎ (4 * chunk_of (2 ^ bit_width 64 n) ≤ n))
chunk_of-bounds n h = let le = bit_width-pow 64 n h in bounds (2 ^ bit_width 64 n) le
  where
    bounds : (p : ℕ) → p ≤ 2 * n → (32 ≤ chunk_of p) × ((chunk_of p ≡ 32) ⊎ (4 * chunk_of p ≤ n))
    bounds p le = elim (Bool-cases (leb p 256)) [
      | inl b ↦ (ground arith, inl (ground arith))
      | inr b ↦ (ground arith, inr (ground arith))
    ]

round_up : (c m : ℕ) → 0 < c → (m < c * (m / c + 1)) × (c * (m / c + 1) ≤ m + c)
round_up c m h = (omega arith, omega arith)

-- For a message that is not empty, the padded length is no less than its length, no less than 32,
-- and exceeds it by at most 31 bytes or by at most a quarter.
pub calc_padded_len-bounds :
    (len : ℕ)
    → 0 < len
    → (len ≤ calc_padded_len len)
      × (32 ≤ calc_padded_len len)
      × ((calc_padded_len len ≤ len + 31) ⊎ (4 * calc_padded_len len ≤ 5 * len))
unfolding calc_padded_len
calc_padded_len-bounds len h = elim (Bool-cases (leb len 32)) [
  | inl b ↦ rw b (ground arith, omega arith, inl (omega arith))
  | inr b ↦
      let (low, high) = chunk_of-bounds (len - 1) (ground arith) in
      rw b (above (chunk_of (2 ^ bit_width 64 (len - 1))) low high)
]
  where
    above :
        (c : ℕ)
        → 32 ≤ c
        → ((c ≡ 32) ⊎ (4 * c ≤ len - 1))
        → (len ≤ c * ((len - 1) / c + 1))
          × (32 ≤ c * ((len - 1) / c + 1))
          × ((c * ((len - 1) / c + 1) ≤ len + 31) ⊎ (4 * (c * ((len - 1) / c + 1)) ≤ 5 * len))
    above c low high =
        let (more, less) = round_up c (len - 1) (omega arith) in
        (
          omega arith,
          omega arith,
          elim high [ inl e ↦ inl (omega arith) | inr le ↦ inr (omega arith) ],
        )

take_all : (n : ℕ) (xs : List ℕ) → length xs ≤ n → take n xs ≡ xs
take_all zero [] h = refl
take_all zero (x ∷ xs) h = absurd (omega arith)
take_all (suc n) [] h = refl
take_all (suc n) (x ∷ xs) h = ap (λ t. x ∷ t) (take_all n xs (omega arith))

-- The length in two bytes, the message, and the filler that makes up the padded length.
abbrev pub framed : List ℕ → List ℕ → List ℕ
framed body filler = length body / 256 % 256 ∷ length body % 256 ∷ body ++ filler

abbrev pub IsPadded : List ℕ → List ℕ → Type 0
IsPadded body padded =
    (1 ≤ length body)
    × (length body ≤ 65535)
    × ((filler : List ℕ) × (padded ≡ framed body filler)
        × (length filler ≡ calc_padded_len (length body) - length body))

-- `pad` succeeds on one to 65535 bytes, and appends zeros.
pub pad-eq-ok :
    (body : List ℕ)
    → 1 ≤ length body
    → length body ≤ 65535
    → pad body ≡ ok (framed body (replicate (calc_padded_len (length body) - length body) 0))
unfolding pad
pad-eq-ok body low high =
    let (enough, _, _) = calc_padded_len-bounds (length body) low in
    let small : (leb min_plaintext (length body) && leb (length body) max_plaintext) ≡ true =
      ground arith in
    let whole =
      take_all (2 + calc_padded_len (length body))
        (length body / 256 % 256 ∷ length body % 256 ∷ body) (omega arith) in
    let rest : 2 + calc_padded_len (length body) - suc (suc (length body))
        ≡ calc_padded_len (length body) - length body =
      omega arith in
    rw (small, whole, rest)

module _ (body : List ℕ) (low : 1 ≤ length body) (high : length body ≤ 65535) where
  abbrev declared : ℕ
  declared = length body / 256 % 256 * 256 + length body % 256

  declared_lem : declared ≡ length body
  declared_lem = omega arith

  -- What `pad` makes is read back, whatever the filler is.
  unpad-framed :
      (filler : List ℕ)
      → length filler ≡ calc_padded_len (length body) - length body
      → unpad (framed body filler) ≡ ok body
  unfolding unpad get_range
  unpad-framed filler e =
      let (enough, _, _) = calc_padded_len-bounds (length body) low in
      let long : ltb (length (framed body filler)) 2 ≡ false = ground arith in
      let fits : leb (2 + length body) (length (framed body filler)) ≡ true =
        ground (arith, length-append body filler) in
      let middle : slice 2 (2 + length body) (framed body filler) ≡ body =
        ap (λ (k : ℕ). take k (body ++ filler)) (omega arith)
        ∙ take-append_length (length body) body filler refl in
      let whole : (ltb (length body) min_plaintext
            || not (length (framed body filler) == 2 + calc_padded_len (length body)))
          ≡ false =
        ground (arith, length-append body filler) in
      rw (long, declared_lem, fits, middle, whole)

get_range-eq-some :
    (n : ℕ) (xs body : List ℕ)
    → get_range 2 (2 + n) xs ≡ some body
    → (2 + n ≤ length xs) × (take n (drop 2 xs) ≡ body)
unfolding get_range
get_range-eq-some n xs body h = elim (if-cases (leb (2 + n) (length xs)) _ _ h) [
  | inl (b, e) ↦
      let exact : 2 + n - 2 ≡ n = omega arith in
      let same : take (2 + n - 2) (drop 2 xs) ≡ body = cc e in
      (ground arith, ap (λ (k : ℕ). take k (drop 2 xs)) (sym exact) ∙ same)
  | inr (b, e) ↦ absurd (cc e)
]

-- The two bytes of the length, the message and what follows it, put together again.
parts-IsPadded :
    (x y : ℕ) (rest body : List ℕ)
    → x < 256
    → y < 256
    → x * 256 + y ≤ length rest
    → take (x * 256 + y) rest ≡ body
    → (ltb (x * 256 + y) min_plaintext
        || not (length (x ∷ y ∷ rest) == 2 + calc_padded_len (x * 256 + y)))
      ≡ false
    → IsPadded body (x ∷ y ∷ rest)
parts-IsPadded x y rest body hx hy fit e whole =
    let n : ℕ = x * 256 + y in
    let len : length body ≡ x * 256 + y =
      ap length (sym e) ∙ omega (arith, length-take (x * 256 + y) rest) in
    let high : length body / 256 % 256 ≡ x = omega arith in
    let low : length body % 256 ≡ y = omega arith in
    let all : body ++ drop (x * 256 + y) rest ≡ rest =
      ap (λ t. t ++ drop (x * 256 + y) rest) (sym e) ∙ take-append-drop (x * 256 + y) rest in
    let width : length rest ≡ calc_padded_len (x * 256 + y) = ground arith in
    let pos : 1 ≤ x * 256 + y = ground arith in
    (
      omega arith,
      omega arith,
      (
        drop (x * 256 + y) rest,
        ap₂ ◌∷◌ (sym high) (ap₂ ◌∷◌ (sym low) (sym all)),
        length-drop (x * 256 + y) rest ∙ ap₂ ◌-◌ (width ∙ ap calc_padded_len (sym len)) (sym len),
      ),
    )

unpad-IsPadded :
    (padded body : List ℕ) → All IsByte padded → unpad padded ≡ ok body → IsPadded body padded
unfolding unpad
unpad-IsPadded [] body bytes h = cc
unpad-IsPadded (x ∷ []) body bytes h = cc
unpad-IsPadded (x ∷ y ∷ rest) body bytes h =
    let (short, h₁) = refuse_if-eq-ok (ltb (length (x ∷ y ∷ rest)) 2) _ _ h in
    let (b, range, h₂) =
      >>=-eq-ok (ok_or (get_range 2 (2 + (x * 256 + y)) (x ∷ y ∷ rest)) _) _ h₁ in
    let (fit, e) = get_range-eq-some (x * 256 + y) (x ∷ y ∷ rest) b (ok_or-eq-ok _ _ range) in
    let (whole, h₃) =
      refuse_if-eq-ok
        (ltb (x * 256 + y) min_plaintext
          || not (length (x ∷ y ∷ rest) == 2 + calc_padded_len (x * 256 + y)))
        _ (ok b) h₂ in
    parts-IsPadded x y rest body bytes.0 bytes.1.0 (omega arith) (cc (e, h₃)) whole

-- Bytes are unpadded to a message exactly when they are its length in two bytes, from 1 to 65535,
-- the message, and as many more bytes, whatever they are, as its padded length asks for.
pub unpad_iff :
    (padded body : List ℕ) → All IsByte padded → (unpad padded ≡ ok body) ↔ IsPadded body padded
unpad_iff padded body bytes =
    (unpad-IsPadded padded body bytes, λ h. ap unpad h.2.1 ∙ unpad-framed body h.0 h.1 h.2.0 h.2.2)

-- What `pad` makes of a message is bytes, and is unpadded to the message.
pub unpad-pad :
    (body : List ℕ)
    → 1 ≤ length body
    → length body ≤ 65535
    → All IsByte body
    → (padded : List ℕ) × (pad body ≡ ok padded)
      × All IsByte padded
      × (2 ≤ length padded)
      × (unpad padded ≡ ok body)
unpad-pad body low high bytes =
    let n : ℕ = calc_padded_len (length body) - length body in
    let filler : List ℕ = replicate n 0 in
    (
      framed body filler,
      pad-eq-ok body low high,
      (omega arith, (omega arith, All-append IsByte body filler bytes (zeros n))),
      omega arith,
      unpad-framed body low high filler (length-replicate n 0),
    )
  where
    zeros : (n : ℕ) → All IsByte (replicate n 0)
    zeros zero = tt
    zeros (suc n) = (omega arith, zeros n)
