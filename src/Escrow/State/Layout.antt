-- ===== src/Escrow/State/Layout.antt =====
-- The payload as a concatenation of its fields, in the order of the table above `STATE_BYTES`.
use k_rep.Base.{
  ℕ, ◌+◌, ◌≡◌, refl, ap, ◌∙◌, Option, none, some, List, [], ◌∷◌, ◌++◌, length, length-append,
  replicate, slice, copy_range, le_bytes, arith, copy_block, slice_block, slice_front, sym,
  append-nil,
}
use k_rep.Keys.{XOnly}
use k_rep.Escrow.State.{
  Phase, EscrowState, byte, encode, copy_key, copy_hash, off_maker, off_maker_rep, off_tracking,
  off_shipped_at,
}

abbrev pub header : Phase → List ℕ
header p = b'k' ∷ b'E' ∷ b'S' ∷ b'C' ∷ 1 ∷ byte p ∷ []

abbrev pub layout : Phase → List ℕ → List ℕ → List ℕ → List ℕ → List ℕ → List ℕ
layout p t m r k a = header p ++ (t ++ (m ++ (r ++ (k ++ a))))

abbrev pub zeros : List ℕ
zeros = replicate 32 0

module _ {K : Type 0} ⦃key : XOnly K⦄ where
  abbrev pub key_bytes : Option K → List ℕ
  key_bytes none = zeros
  key_bytes (some k) = key.serialize k

  pub length-key_bytes : (o : Option K) → length (key_bytes o) ≡ 32
  length-key_bytes none = refl
  length-key_bytes (some k) = (key.serialize-IsArray k).width

abbrev pub hash_bytes : Option (List ℕ) → List ℕ
hash_bytes none = zeros
hash_bytes (some t) = t

module _ (p : Phase) (t m r k a : List ℕ) (ht : length t ≡ 32) where
  pub slice_terms : slice 6 38 (layout p t m r k a) ≡ t
  slice_terms = slice_front 32 t (m ++ (r ++ (k ++ a))) ht

  module _ (hm : length m ≡ 32) where
    pub slice_maker : slice 38 70 (layout p t m r k a) ≡ m
    slice_maker =
        slice_block 32 0 32 t (m ++ (r ++ (k ++ a))) ht ∙ slice_front 32 m (r ++ (k ++ a)) hm

    module _ (hr : length r ≡ 32) where
      pub slice_maker_rep : slice 70 102 (layout p t m r k a) ≡ r
      slice_maker_rep =
          slice_block 32 32 64 t (m ++ (r ++ (k ++ a))) ht
          ∙ slice_block 32 0 32 m (r ++ (k ++ a)) hm
          ∙ slice_front 32 r (k ++ a) hr

      module _ (hk : length k ≡ 32) where
        pub slice_tracking : slice 102 134 (layout p t m r k a) ≡ k
        slice_tracking =
            slice_block 32 64 96 t (m ++ (r ++ (k ++ a))) ht
            ∙ slice_block 32 32 64 m (r ++ (k ++ a)) hm
            ∙ slice_block 32 0 32 r (k ++ a) hr
            ∙ slice_front 32 k a hk

        pub slice_shipped_at : length a ≡ 8 → slice 134 142 (layout p t m r k a) ≡ a
        slice_shipped_at ha =
            slice_block 32 96 104 t (m ++ (r ++ (k ++ a))) ht
            ∙ slice_block 32 64 72 m (r ++ (k ++ a)) hm
            ∙ slice_block 32 32 40 r (k ++ a) hr
            ∙ slice_block 32 0 8 k a hk
            ∙ ap (slice 0 8) (sym (append-nil a))
            ∙ slice_front 8 a [] ha

        pub length-layout : length a ≡ 8 → length (layout p t m r k a) ≡ 142
        length-layout ha = omega (
          arith,
          length-append t (m ++ (r ++ (k ++ a))),
          length-append m (r ++ (k ++ a)),
          length-append r (k ++ a),
          length-append k a,
        )

module _ {K : Type 0} ⦃key : XOnly K⦄ where
  -- Each write of `encode` replaces the zeros at its place.
  copy_maker :
      (p : Phase) (t r k a : List ℕ) (o : Option K)
      → length t ≡ 32
      → copy_key off_maker o (layout p t zeros r k a) ≡ layout p t (key_bytes o) r k a
  unfolding copy_key
  copy_maker p t r k a none ht = refl
  copy_maker p t r k a (some x) ht =
      ap (λ l. header p ++ l) (copy_block 32 0 32 (key.serialize x) t (zeros ++ (r ++ (k ++ a))) ht)

  copy_maker_rep :
      (p : Phase) (t m k a : List ℕ) (o : Option K)
      → length t ≡ 32
      → length m ≡ 32
      → copy_key off_maker_rep o (layout p t m zeros k a) ≡ layout p t m (key_bytes o) k a
  unfolding copy_key
  copy_maker_rep p t m k a none ht hm = refl
  copy_maker_rep p t m k a (some x) ht hm =
      ap (λ l. header p ++ l)
        (copy_block 32 32 64 (key.serialize x) t (m ++ (zeros ++ (k ++ a))) ht
          ∙ ap (λ l. t ++ l) (copy_block 32 0 32 (key.serialize x) m (zeros ++ (k ++ a)) hm))

copy_tracking :
    (p : Phase) (t m r a : List ℕ) (o : Option (List ℕ))
    → length t ≡ 32
    → length m ≡ 32
    → length r ≡ 32
    → copy_hash off_tracking o (layout p t m r zeros a) ≡ layout p t m r (hash_bytes o) a
unfolding copy_hash
copy_tracking p t m r a none ht hm hr = refl
copy_tracking p t m r a (some x) ht hm hr =
    ap (λ l. header p ++ l)
      (copy_block 32 64 96 x t (m ++ (r ++ (zeros ++ a))) ht
        ∙ ap (λ l. t ++ l)
            (copy_block 32 32 64 x m (r ++ (zeros ++ a)) hm
              ∙ ap (λ l. m ++ l) (copy_block 32 0 32 x r (zeros ++ a) hr)))

copy_shipped_at :
    (p : Phase) (t m r k a : List ℕ)
    → length t ≡ 32
    → length m ≡ 32
    → length r ≡ 32
    → length k ≡ 32
    → copy_range off_shipped_at (off_shipped_at + 8) a (layout p t m r k (replicate 8 0))
      ≡ layout p t m r k a
copy_shipped_at p t m r k a ht hm hr hk =
    ap (λ l. header p ++ l)
      (copy_block 32 96 104 a t (m ++ (r ++ (k ++ replicate 8 0))) ht
        ∙ ap (λ l. t ++ l)
            (copy_block 32 64 72 a m (r ++ (k ++ replicate 8 0)) hm
              ∙ ap (λ l. m ++ l)
                  (copy_block 32 32 40 a r (k ++ replicate 8 0) hr
                    ∙ ap (λ l. r ++ l)
                        (copy_block 32 0 8 a k (replicate 8 0) hk
                          ∙ ap (λ l. k ++ l) (append-nil a)))))

module _ {K : Type 0} ⦃key : XOnly K⦄ where
  abbrev pub fields : EscrowState K → List ℕ
  fields s =
      layout s.phase s.terms_id (key_bytes s.maker) (key_bytes s.maker_rep) (hash_bytes s.tracking)
        (le_bytes 8 s.shipped_at)

  -- What `encode` writes, for a state whose hashes are 32 bytes long.
  pub encode-layout :
      (s : EscrowState K)
      → length s.terms_id ≡ 32
      → length (hash_bytes s.tracking) ≡ 32
      → encode s ≡ fields s
  unfolding encode
  encode-layout s ht hk =
      let m = key_bytes s.maker in
      let r = key_bytes s.maker_rep in
      let a = le_bytes 8 s.shipped_at in
      let hm = length-key_bytes s.maker in
      let hr = length-key_bytes s.maker_rep in
      ap
        (λ l.
          copy_range off_shipped_at (off_shipped_at + 8) a
            (copy_hash off_tracking s.tracking (copy_key off_maker_rep s.maker_rep l)))
        (copy_maker s.phase s.terms_id zeros zeros (replicate 8 0) s.maker ht)
      ∙ ap
          (λ l.
            copy_range off_shipped_at (off_shipped_at + 8) a (copy_hash off_tracking s.tracking l))
          (copy_maker_rep s.phase s.terms_id m zeros (replicate 8 0) s.maker_rep ht hm)
      ∙ ap (copy_range off_shipped_at (off_shipped_at + 8) a)
          (copy_tracking s.phase s.terms_id m r (replicate 8 0) s.tracking ht hm hr)
      ∙ copy_shipped_at s.phase s.terms_id m r (hash_bytes s.tracking) a ht hm hr hk
