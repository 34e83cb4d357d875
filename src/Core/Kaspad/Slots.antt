-- ===== src/Core/Kaspad/Slots.antt =====
-- Where a payload commits an id (`payload_commits` of krep-core/src/kaspad.rs).
use k_rep.Base.{
  ℕ, zero, suc, ◌*◌, ◌/◌, ◌≡◌, inl, inr, refl, ap, sym, ◌∙◌, true, Bool-cases, List, [], ◌∷◌, ◌++◌,
  length, length-append, length-take, length-drop, take, drop, take-append-drop, append_assoc,
  arith, any, beq_bytes, eq-beq_bytes, chunks_fuel, chunks, chunks_exact,
}
use k_rep.Core.Kaspad.{payload_commits}

-- The payload holds the id, which is 32 bytes, after a whole number of other 32 bytes.
pub record HoldsId (payload id : List ℕ) : Type 0 where
  pub slot : ℕ
  pub before : List ℕ
  pub after : List ℕ
  pub parts : payload ≡ before ++ (id ++ after)
  pub aligned : length before ≡ 32 * slot
  pub width : length id ≡ 32

any-chunks :
    (fuel n : ℕ) (xs id : List ℕ)
    → length xs ≡ 32 * n
    → any (λ w. beq_bytes w id) (chunks_fuel fuel 32 xs) ≡ true
    → HoldsId xs id
unfolding chunks_fuel
any-chunks fuel n [] id h e = absurd (cc e)
any-chunks zero n (x ∷ xs) id h e = absurd (cc e)
any-chunks (suc fuel) zero (x ∷ xs) id h e = absurd (omega arith)
any-chunks (suc fuel) (suc n) (x ∷ xs) id h e =
    let ys : List ℕ = x ∷ xs in
    let whole : take 32 ys ++ drop 32 ys ≡ ys = take-append-drop 32 ys in
    let first : length (take 32 ys) ≡ 32 = omega (arith, length-take 32 ys) in
    elim (Bool-cases (beq_bytes (take 32 ys) id)) [
      | inl same ↦
          let equal : take 32 ys ≡ id = eq-beq_bytes (take 32 ys) id same in
          record {
            slot = 0;
            before = [];
            after = drop 32 ys;
            parts = sym whole ∙ ap (λ l. l ++ drop 32 ys) equal;
            aligned = refl;
            width = sym (ap length equal) ∙ first;
          }
      | inr other ↦
          let found =
            any-chunks fuel n (drop 32 ys) id (omega (arith, length-drop 32 ys)) (rw other at e) in
          record {
            slot = suc found.slot;
            before = take 32 ys ++ found.before;
            after = found.after;
            parts =
                sym whole
                ∙ ap (λ l. take 32 ys ++ l) found.parts
                ∙ sym (append_assoc (take 32 ys) found.before (id ++ found.after));
            aligned = omega (arith, first, found.aligned, length-append (take 32 ys) found.before);
            width = found.width;
          }
    ]

pub payload_commits-HoldsId :
    (payload id : List ℕ) → payload_commits payload id ≡ true → HoldsId payload id
unfolding payload_commits chunks_exact chunks
payload_commits-HoldsId payload id e =
    let size = length payload / 32 * 32 in
    let front = take size payload in
    let found =
      any-chunks (length front) (length payload / 32) front id
        (omega (arith, length-take size payload)) e in
    record {
      slot = found.slot;
      before = found.before;
      after = found.after ++ drop size payload;
      parts =
          sym (take-append-drop size payload)
          ∙ ap (λ l. l ++ drop size payload) found.parts
          ∙ append_assoc found.before (id ++ found.after) (drop size payload)
          ∙ ap (λ l. found.before ++ l) (append_assoc id found.after (drop size payload));
      aligned = found.aligned;
      width = found.width;
    }
