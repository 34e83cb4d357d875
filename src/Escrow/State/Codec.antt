-- ===== src/Escrow/State/Codec.antt =====
-- `decode` against `encode` (krep-escrow/src/state.rs).
use k_rep.Base.{
  ℕ, ◌^◌, ◌<◌, ◌≡◌, ◌≢◌, refl, ap, ◌∙◌, ◌⊎◌, inl, inr, Bool-cases, eq-beq_bytes, err, Option, none,
  some, List, Result, ok, ◌>>=◌, ◌>>◌, length, length-le_bytes, le_bytes, from_le, from_le-le_bytes,
  IsArray, String, beq_bytes, beq_bytes_refl, beq_bytes-ne,
}
use k_rep.Keys.{XOnly}
use k_rep.Escrow.State.{
  Phase, opened, claimed, shipped, disputed, StateError, malformed, EscrowState, byte, from_byte,
  encode, decode, read_key, read_hash, check_invariants,
}
use k_rep.Escrow.State.Layout.{
  layout, zeros, key_bytes, hash_bytes, length-key_bytes, encode-layout, slice_terms, slice_maker,
  slice_maker_rep, slice_tracking, slice_shipped_at, length-layout,
}

pub from_byte-byte : (p : Phase) → from_byte (byte p) ≡ ok p
unfolding from_byte byte
from_byte-byte opened = refl
from_byte-byte claimed = refl
from_byte-byte shipped = refl
from_byte-byte disputed = refl

module _ {K : Type 0} ⦃key : XOnly K⦄ where
  read_key-key_bytes : (why : String) (o : Option K) → read_key why (key_bytes o) ≡ ok o
  unfolding read_key
  read_key-key_bytes why none = rw (beq_bytes_refl zeros)
  read_key-key_bytes why (some k) =
      rw (beq_bytes-ne _ _ (key.serialize-ne-zero k), key.from_slice-serialize k)

  -- The rest of `decode` once the header is accepted, at the bytes of each field.
  abbrev finish :
      Phase → List ℕ → List ℕ → List ℕ → List ℕ → List ℕ → Result StateError (EscrowState K)
  finish p t m r k a = do
    maker ← read_key "maker is not a valid x-only pubkey" m
    maker_rep ← read_key "maker_rep is not a valid x-only pubkey" r
    let state : EscrowState K = record {
      phase = p;
      terms_id = t;
      maker = maker;
      maker_rep = maker_rep;
      tracking = read_hash k;
      shipped_at = from_le a;
    }
    check_invariants state
    ok state

  decode-layout :
      (p : Phase) (t m r k a : List ℕ)
      → length t ≡ 32
      → length m ≡ 32
      → length r ≡ 32
      → length k ≡ 32
      → length a ≡ 8
      → decode (layout p t m r k a) ≡ finish p t m r k a
  unfolding decode byte beq_bytes
  decode-layout p t m r k a ht hm hr hk ha = rw (
    length-layout p t m r k a ht hm hr hk ha,
    slice_terms p t m r k a ht,
    slice_maker p t m r k a ht hm,
    slice_maker_rep p t m r k a ht hm hr,
    slice_tracking p t m r k a ht hm hr hk,
    slice_shipped_at p t m r k a ht hm hr hk ha,
    from_byte-byte p,
  )

read_hash-hash_bytes : (o : Option (List ℕ)) → o ≢ some zeros → read_hash (hash_bytes o) ≡ o
unfolding read_hash
read_hash-hash_bytes none h = rw (beq_bytes_refl zeros)
read_hash-hash_bytes (some t) h = rw (beq_bytes-ne t zeros (λ e. h (ap some e)))

read_hash-zeros : read_hash (hash_bytes (some zeros)) ≡ none
unfolding read_hash beq_bytes
read_hash-zeros = refl

zeros-cases : (o : Option (List ℕ)) → (o ≡ some zeros) ⊎ (o ≢ some zeros)
zeros-cases none = inr (λ e. cc e)
zeros-cases (some t) = elim (Bool-cases (beq_bytes t zeros)) [
  | inl same ↦ inl (ap some (eq-beq_bytes t zeros same))
  | inr other ↦ inr (λ e.
      let equal : t ≡ zeros = cc e in
      absurd (cc (other, ap (λ (l : List ℕ). beq_bytes l zeros) equal, beq_bytes_refl zeros)))
]

module _ {K : Type 0} where
  -- The widths of the Rust types.
  pub record IsEncodable (s : EscrowState K) : Type 0 where
    pub terms : IsArray 32 s.terms_id
    pub tracking : IsArray 32 (hash_bytes s.tracking)
    pub shipped_at : s.shipped_at < 2 ^ 64

module _ {K : Type 0} ⦃key : XOnly K⦄ where
  -- What is read back from the payload of a state that meets its invariants: the state, but for a
  -- tracking hash of zeros, which is read as none and then missed.
  pub data IsReadBack (s : EscrowState K) : Result StateError (EscrowState K) → Type 0 where
    same_state : s.tracking ≢ some zeros → IsReadBack s (ok s)
    lost_tracking :
        s.tracking ≡ some zeros
        → IsReadBack s (err (malformed "shipped escrow must carry a tracking hash"))

  decode-fields :
      (s : EscrowState K)
      → IsEncodable s
      → decode (encode s)
        ≡ finish {K = K} s.phase s.terms_id
            (key_bytes s.maker)
            (key_bytes s.maker_rep)
            (hash_bytes s.tracking)
            (le_bytes 8 s.shipped_at)
  decode-fields s h =
      ap (decode {K = K}) (encode-layout s h.terms.width h.tracking.width)
      ∙ decode-layout s.phase s.terms_id (key_bytes s.maker) (key_bytes s.maker_rep)
          (hash_bytes s.tracking) (le_bytes 8 s.shipped_at) h.terms.width (length-key_bytes s.maker)
          (length-key_bytes s.maker_rep) h.tracking.width (length-le_bytes 8 s.shipped_at)

  finish-tracked :
      (s : EscrowState K)
      → IsEncodable s
      → s.tracking ≢ some zeros
      → check_invariants s ≡ ok tt
      → finish {K = K} s.phase s.terms_id
          (key_bytes s.maker)
          (key_bytes s.maker_rep)
          (hash_bytes s.tracking)
          (le_bytes 8 s.shipped_at)
        ≡ ok s
  finish-tracked s h tracked inv = rw (
    read_key-key_bytes "maker is not a valid x-only pubkey" s.maker,
    read_key-key_bytes "maker_rep is not a valid x-only pubkey" s.maker_rep,
    read_hash-hash_bytes s.tracking tracked,
    from_le-le_bytes 8 s.shipped_at h.shipped_at,
    inv,
  )

  -- With a tracking hash the state is shipped or disputed, and without one it breaks its invariants.
  no_tracking :
      (p : Phase) (t : List ℕ) (m r : Option K) (k : List ℕ) (a : ℕ)
      → check_invariants (record {
        phase = p;
        terms_id = t;
        maker = m;
        maker_rep = r;
        tracking = some k;
        shipped_at = a;
      })
        ≡ ok tt
      → check_invariants (record {
        phase = p;
        terms_id = t;
        maker = m;
        maker_rep = r;
        tracking = none;
        shipped_at = a;
      })
        ≡ err (malformed "shipped escrow must carry a tracking hash")
  unfolding check_invariants
  no_tracking opened t none none k a h = cc h
  no_tracking opened t none (some r) k a h = cc h
  no_tracking opened t (some m) r k a h = cc h
  no_tracking claimed t none r k a h = cc h
  no_tracking claimed t (some m) none k a h = cc h
  no_tracking claimed t (some m) (some r) k a h = cc h
  no_tracking shipped t none r k a h = cc h
  no_tracking shipped t (some m) none k a h = cc h
  no_tracking shipped t (some m) (some r) k a h = refl
  no_tracking disputed t none r k a h = cc h
  no_tracking disputed t (some m) none k a h = cc h
  no_tracking disputed t (some m) (some r) k a h = refl

  finish-zeros :
      (s : EscrowState K)
      → IsEncodable s
      → s.tracking ≡ some zeros
      → check_invariants s ≡ ok tt
      → finish {K = K} s.phase s.terms_id
          (key_bytes s.maker)
          (key_bytes s.maker_rep)
          (hash_bytes s.tracking)
          (le_bytes 8 s.shipped_at)
        ≡ err (malformed "shipped escrow must carry a tracking hash")
  finish-zeros s h lost inv = rw (
    read_key-key_bytes "maker is not a valid x-only pubkey" s.maker,
    read_key-key_bytes "maker_rep is not a valid x-only pubkey" s.maker_rep,
    lost,
    read_hash-zeros,
    from_le-le_bytes 8 s.shipped_at h.shipped_at,
    no_tracking s.phase s.terms_id s.maker s.maker_rep zeros s.shipped_at (rw lost at inv),
  )

  -- A state that meets its invariants, and whose values have the widths of their Rust types, is
  -- read back from the payload it is written as, unless its tracking hash is all zeros; that payload
  -- is refused, as one of a shipped escrow without a tracking hash.
  pub decode-encode :
      (s : EscrowState K)
      → IsEncodable s
      → check_invariants s ≡ ok tt
      → IsReadBack s (decode (encode s))
  decode-encode s h inv = elim (zeros-cases s.tracking) [
    | inl lost ↦ rw (decode-fields s h, finish-zeros s h lost inv) (IsReadBack.lost_tracking lost)
    | inr tracked ↦
        rw (decode-fields s h, finish-tracked s h tracked inv) (IsReadBack.same_state tracked)
  ]
