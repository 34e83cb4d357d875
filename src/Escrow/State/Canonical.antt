-- ===== src/Escrow/State/Canonical.antt =====
-- What a successful `decode` says of its input (krep-escrow/src/state.rs).
use k_rep.Base.{
  ℕ, ◌≤◌, ◌≡◌, ap, ap₂, sym, ◌∙◌, true, Option, none, some, List, [], ◌∷◌, ◌++◌, ok, length, slice,
  drop, get_or, le_bytes, from_le, arith, String, Bool-cases, inl, inr, ok_or, ok_or-eq-ok,
  append-nil, slice-append-drop, drop_all, length-slice, All-take, All-drop, IsByte,
  le_bytes-from_le, refuse_if-eq-ok, >>=-eq-ok, eq_of_not_ne, not-false, beq_bytes, eq-beq_bytes,
  All,
}
use k_rep.Keys.{XOnly}
use k_rep.Escrow.State.{
  Phase, opened, claimed, shipped, disputed, EscrowState, byte, from_byte, encode, decode, read_key,
  read_hash, check_invariants, magic, malformed,
}
use k_rep.Escrow.State.Layout.{zeros, key_bytes, hash_bytes, encode-layout, fields, header}

module _ {K : Type 0} ⦃key : XOnly K⦄ where
  -- What each read of `decode` gave, for the state that it returned.
  pub record IsRead (bytes : List ℕ) (s : EscrowState K) : Type 0 where
    pub width : length bytes ≡ 142
    pub magic_read : beq_bytes (slice 0 4 bytes) magic ≡ true
    pub version_read : get_or bytes 4 0 ≡ 1
    pub phase_read : from_byte (get_or bytes 5 0) ≡ ok s.phase
    pub terms_read : s.terms_id ≡ slice 6 38 bytes
    pub maker_read : read_key "maker is not a valid x-only pubkey" (slice 38 70 bytes) ≡ ok s.maker
    pub maker_rep_read :
        read_key "maker_rep is not a valid x-only pubkey" (slice 70 102 bytes) ≡ ok s.maker_rep
    pub tracking_read : s.tracking ≡ read_hash (slice 102 134 bytes)
    pub shipped_at_read : s.shipped_at ≡ from_le (slice 134 142 bytes)
    pub invariants : check_invariants s ≡ ok tt

  pub decode-IsRead : (bytes : List ℕ) (s : EscrowState K) → decode bytes ≡ ok s → IsRead bytes s
  unfolding decode
  decode-IsRead bytes s h =
      let (e₀, h₀) = refuse_if-eq-ok _ _ _ h in
      let (e₁, h₁) = refuse_if-eq-ok _ _ _ h₀ in
      let (e₂, h₂) = refuse_if-eq-ok _ _ _ h₁ in
      let (p, e₃, h₃) = >>=-eq-ok (from_byte (get_or bytes 5 0)) _ h₂ in
      let (m, e₄, h₄) = >>=-eq-ok (read_key _ (slice 38 70 bytes)) _ h₃ in
      let (r, e₅, h₅) = >>=-eq-ok (read_key _ (slice 70 102 bytes)) _ h₄ in
      let (u, e₆, h₆) = >>=-eq-ok (check_invariants _) _ h₅ in
      record {
        width = eq_of_not_ne _ _ e₀;
        magic_read = not-false _ e₁;
        version_read = eq_of_not_ne _ _ e₂;
        phase_read = cc (e₃, h₆);
        terms_read = cc h₆;
        maker_read = cc h₆;
        maker_rep_read = cc h₆;
        tracking_read = cc h₆;
        shipped_at_read = cc h₆;
        invariants = cc h₆;
      }

  pub key_bytes-read_key :
      (why : String) (bs : List ℕ) (o : Option K) → read_key why bs ≡ ok o → key_bytes o ≡ bs
  unfolding read_key
  key_bytes-read_key why bs o h = elim (Bool-cases (beq_bytes bs zeros)) [
    | inl z ↦
        let empty : o ≡ none = cc (rw z at h) in ap key_bytes empty ∙ sym (eq-beq_bytes bs zeros z)
    | inr nz ↦
        let read = rw nz at h in
        let (k, e, e') = >>=-eq-ok (ok_or (key.from_slice bs) (malformed why)) _ read in
        let full : o ≡ some k = cc e' in
        ap key_bytes full ∙ key.serialize-from_slice bs k (ok_or-eq-ok _ _ e)
  ]

hash_bytes-read_hash : (bs : List ℕ) → hash_bytes (read_hash bs) ≡ bs
unfolding read_hash
hash_bytes-read_hash bs = elim (Bool-cases (beq_bytes bs zeros)) [
  | inl z ↦ rw z (sym (eq-beq_bytes bs zeros z))
  | inr nz ↦ rw nz
]

pub byte-from_byte : (b : ℕ) (p : Phase) → from_byte b ≡ ok p → byte p ≡ b
unfolding from_byte byte
byte-from_byte b opened h = ground arith
byte-from_byte b claimed h = ground arith
byte-from_byte b shipped h = ground arith
byte-from_byte b disputed h = ground arith

-- The first six bytes, when they are the magic, the version and the byte of a phase.
header-read :
    (bs : List ℕ) (p : Phase)
    → 6 ≤ length bs
    → beq_bytes (slice 0 4 bs) magic ≡ true
    → get_or bs 4 0 ≡ 1
    → get_or bs 5 0 ≡ byte p
    → bs ≡ header p ++ drop 6 bs
header-read (a ∷ b ∷ c ∷ d ∷ v ∷ x ∷ bs) p h e₀ e₁ e₂ =
    let first : a ∷ b ∷ c ∷ d ∷ [] ≡ magic = eq-beq_bytes _ _ e₀ in
    ap₂ (λ (l m : List ℕ). l ++ (m ++ bs)) first (ap₂ (λ (s t : ℕ). s ∷ t ∷ []) e₁ e₂)
header-read _ p h e₀ e₁ e₂ = absurd (omega arith)

-- The fields of a payload of the right length, one after the other.
slices :
    (bs : List ℕ)
    → length bs ≡ 142
    → drop 6 bs
      ≡ slice 6 38 bs
        ++ (slice 38 70 bs ++ (slice 70 102 bs ++ (slice 102 134 bs ++ slice 134 142 bs)))
slices bs h =
    let last : slice 134 142 bs ≡ drop 134 bs =
      sym (append-nil _)
      ∙ ap (λ l. slice 134 142 bs ++ l) (sym (drop_all 142 bs h))
      ∙ slice-append-drop 134 142 bs (omega arith) in
    sym (
      ap (λ l. slice 6 38 bs ++ (slice 38 70 bs ++ (slice 70 102 bs ++ (slice 102 134 bs ++ l))))
        last
      ∙ ap (λ l. slice 6 38 bs ++ (slice 38 70 bs ++ (slice 70 102 bs ++ l)))
          (slice-append-drop 102 134 bs (omega arith))
      ∙ ap (λ l. slice 6 38 bs ++ (slice 38 70 bs ++ l)) (slice-append-drop 70 102 bs (omega arith))
      ∙ ap (λ l. slice 6 38 bs ++ l) (slice-append-drop 38 70 bs (omega arith))
      ∙ slice-append-drop 6 38 bs (omega arith))

module _ {K : Type 0} ⦃key : XOnly K⦄ where
  shipped_bytes :
      (bytes : List ℕ) (s : EscrowState K)
      → All IsByte bytes
      → IsRead bytes s
      → le_bytes 8 s.shipped_at ≡ slice 134 142 bytes
  shipped_bytes bytes s b h =
      let width : length (slice 134 142 bytes) ≡ 8 =
        length-slice 134 142 bytes (omega arith) (omega (arith, h.width)) in
      ap (le_bytes 8) h.shipped_at_read
      ∙ ap (λ (w : ℕ). le_bytes w (from_le (slice 134 142 bytes))) (sym width)
      ∙ le_bytes-from_le _ (All-take IsByte 8 _ (All-drop IsByte 134 bytes b))

  fields-IsRead :
      (bytes : List ℕ) (s : EscrowState K) → All IsByte bytes → IsRead bytes s → fields s ≡ bytes
  fields-IsRead bytes s b h =
      let phase = byte-from_byte _ _ h.phase_read in
      let maker = key_bytes-read_key _ _ _ h.maker_read in
      let maker_rep = key_bytes-read_key _ _ _ h.maker_rep_read in
      let tracking = ap hash_bytes h.tracking_read ∙ hash_bytes-read_hash _ in
      rw (h.terms_read, maker, maker_rep, tracking, shipped_bytes bytes s b h)
        (sym (
          header-read bytes s.phase (omega (arith, h.width)) h.magic_read h.version_read (sym phase)
          ∙ ap (λ l. header s.phase ++ l) (slices bytes h.width)))

  -- A payload of bytes that decodes is the one that `encode` writes for the state read from it.
  pub encode-decode :
      (bytes : List ℕ) (s : EscrowState K)
      → All IsByte bytes
      → decode bytes ≡ ok s
      → encode s ≡ bytes
  encode-decode bytes s b e =
      let h = decode-IsRead bytes s e in
      let terms : length s.terms_id ≡ 32 =
        ap length h.terms_read ∙ length-slice 6 38 bytes (omega arith) (omega (arith, h.width)) in
      let tracking : length (hash_bytes s.tracking) ≡ 32 =
        ap length (ap hash_bytes h.tracking_read ∙ hash_bytes-read_hash _)
        ∙ length-slice 102 134 bytes (omega arith) (omega (arith, h.width)) in
      encode-layout s terms tracking ∙ fields-IsRead bytes s b h
