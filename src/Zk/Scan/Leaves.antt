-- ===== src/Zk/Scan/Leaves.antt =====
-- The leaves against the payload rule of the verifier (`leaves_for_tx` of krep-zk/src/scan.rs and
-- `payload_commits` of krep-core/src/kaspad.rs).
use k_rep.Base.{
  ℕ, ◌*◌, ◌/◌, ◌<◌, ◌^◌, ◌≡◌, ◌↔◌, refl, ap, ap₂, sym, ◌∙◌, Bool, true, false, ◌&&◌, ◌||◌, List, [],
  ◌∷◌, map, length, length-take, take, any, any-append, append-injective, arith, All, le_bytes,
  length-le_bytes, from_le, from_le-le_bytes, beq_bytes, beq_bytes_iff, eq-beq_bytes, ◌==◌, ==_iff,
  Bool-cases, inl, inr, chunks, chunks_exact, chunks_fuel, ltb, min,
}
use k_rep.Core.Kaspad.{payload_commits}
use k_rep.Zk.Scan.{anchor_leaf, leaves_loop, leaves_for_tx, max_payload_scanned}

-- The widths of an outpoint's parts.
pub record IsOutpoint (o : List ℕ × ℕ) : Type 0 where
  pub txid : length o.0 ≡ 32
  pub index : o.1 < 2 ^ 32

abbrev pub same_outpoint : List ℕ × ℕ → List ℕ × ℕ → Bool
same_outpoint a b = beq_bytes a.0 b.0 && (a.1 == b.1)

beq-eq : (b c : Bool) → ((b ≡ true) ↔ (c ≡ true)) → b ≡ c
beq-eq true c h = sym (h.0 refl)
beq-eq false true h = h.1 refl
beq-eq false false h = refl

anchor_leaf-injective :
    (a b : List ℕ × ℕ) (id slot : List ℕ)
    → IsOutpoint a
    → IsOutpoint b
    → anchor_leaf a.0 a.1 id ≡ anchor_leaf b.0 b.1 slot
    → (a.0 ≡ b.0) × (a.1 ≡ b.1) × (id ≡ slot)
unfolding anchor_leaf
anchor_leaf-injective a b id slot ha hb e =
    let (txid, rest) = append-injective a.0 b.0 (ha.txid ∙ sym hb.txid) e in
    let (index, ids) =
      append-injective (le_bytes 4 a.1) (le_bytes 4 b.1)
        (length-le_bytes 4 a.1 ∙ sym (length-le_bytes 4 b.1)) rest in
    (
      txid,
      sym (from_le-le_bytes 4 a.1 (omega (arith, ha.index)))
          ∙ ap from_le index
          ∙ from_le-le_bytes 4 b.1 (omega (arith, hb.index)),
      ids,
    )

-- One leaf matches exactly where its outpoint and its slot do.
beq-anchor_leaf :
    (a b : List ℕ × ℕ) (id slot : List ℕ)
    → IsOutpoint a
    → IsOutpoint b
    → beq_bytes (anchor_leaf a.0 a.1 id) (anchor_leaf b.0 b.1 slot)
      ≡ (same_outpoint a b && beq_bytes slot id)
beq-anchor_leaf a b id slot ha hb = beq-eq _ _ (to, from)
  where
    to :
        beq_bytes (anchor_leaf a.0 a.1 id) (anchor_leaf b.0 b.1 slot) ≡ true
        → (same_outpoint a b && beq_bytes slot id) ≡ true
    to h =
        let (x, y, z) = anchor_leaf-injective a b id slot ha hb (eq-beq_bytes _ _ h) in
        rw ((beq_bytes_iff a.0 b.0).1 x, (==_iff a.1 b.1).1 y, (beq_bytes_iff slot id).1 (sym z))

    from :
        (same_outpoint a b && beq_bytes slot id) ≡ true
        → beq_bytes (anchor_leaf a.0 a.1 id) (anchor_leaf b.0 b.1 slot) ≡ true
    from h =
        let x : a.0 ≡ b.0 = eq-beq_bytes a.0 b.0 (ground arith) in
        let y : a.1 ≡ b.1 = (==_iff a.1 b.1).0 (ground arith) in
        let z : slot ≡ id = eq-beq_bytes slot id (ground arith) in
        (beq_bytes_iff _ _).1
          (ap₂ (λ t r. anchor_leaf t r id) x y ∙ ap (anchor_leaf b.0 b.1) (sym z))

any-slots :
    (a b : List ℕ × ℕ) (id : List ℕ) (slots : List (List ℕ))
    → IsOutpoint a
    → IsOutpoint b
    → any (beq_bytes (anchor_leaf a.0 a.1 id)) (map (λ slot. anchor_leaf b.0 b.1 slot) slots)
      ≡ (same_outpoint a b && any (λ w. beq_bytes w id) slots)
any-slots a b id [] ha hb = and-false (same_outpoint a b)
  where
    and-false : (c : Bool) → false ≡ (c && false)
    and-false true = refl
    and-false false = refl
any-slots a b id (s ∷ slots) ha hb =
    ap₂ ◌||◌ (beq-anchor_leaf a b id s ha hb) (any-slots a b id slots ha hb)
    ∙ factor (same_outpoint a b) (beq_bytes s id) (any (λ w. beq_bytes w id) slots)
  where
    factor : (x y z : Bool) → ((x && y) || (x && z)) ≡ (x && (y || z))
    factor true y z = refl
    factor false y z = refl

any-leaves_loop :
    (a : List ℕ × ℕ) (id : List ℕ) (spent : List (List ℕ × ℕ)) (slots : List (List ℕ))
    → IsOutpoint a
    → All IsOutpoint spent
    → any (beq_bytes (anchor_leaf a.0 a.1 id)) (leaves_loop spent slots)
      ≡ (any (same_outpoint a) spent && any (λ w. beq_bytes w id) slots)
unfolding leaves_loop
any-leaves_loop a id [] slots ha hs = refl
any-leaves_loop a id (s ∷ rest) slots ha hs =
    any-append _ (map (λ slot. anchor_leaf s.0 s.1 slot) slots) (leaves_loop rest slots)
    ∙ ap₂ ◌||◌ (any-slots a s id slots ha hs.0) (any-leaves_loop a id rest slots ha hs.1)
    ∙ factor (same_outpoint a s) (any (same_outpoint a) rest) (any (λ w. beq_bytes w id) slots)
  where
    factor : (x y z : Bool) → ((x && z) || (y && z)) ≡ ((x || y) && z)
    factor true true true = refl
    factor true true false = refl
    factor true false true = refl
    factor true false false = refl
    factor false y z = refl

-- A payload shorter than one slot commits nothing.
chunks_exact-short : (payload : List ℕ) → length payload < 32 → chunks_exact 32 payload ≡ []
unfolding chunks_exact chunks chunks_fuel
chunks_exact-short payload h =
    let none_full : length payload / 32 * 32 ≡ 0 = omega arith in rw none_full

short_commits : (payload id : List ℕ) → length payload < 32 → payload_commits payload id ≡ false
unfolding payload_commits
short_commits payload id h = rw (chunks_exact-short payload h)

any-all_leaves :
    (a : List ℕ × ℕ) (id : List ℕ) (spent : List (List ℕ × ℕ)) (scanned : List ℕ)
    → IsOutpoint a
    → All IsOutpoint spent
    → any (beq_bytes (anchor_leaf a.0 a.1 id)) (leaves_loop spent (chunks_exact 32 scanned))
      ≡ (any (same_outpoint a) spent && payload_commits scanned id)
unfolding payload_commits
any-all_leaves a id spent scanned ha hs = any-leaves_loop a id spent (chunks_exact 32 scanned) ha hs

-- A leaf is in the accumulator for a transaction exactly when the transaction spends its outpoint
-- and the first 4096 bytes of the payload commit its id by the verifier's rule.
pub leaves_iff_payload_commits :
    (outpoint : List ℕ × ℕ) (id : List ℕ) (spent : List (List ℕ × ℕ)) (payload : List ℕ)
    → IsOutpoint outpoint
    → All IsOutpoint spent
    → any (beq_bytes (anchor_leaf outpoint.0 outpoint.1 id)) (leaves_for_tx spent payload) ≡ (
        any (same_outpoint outpoint) spent
        && payload_commits (take (min (length payload) max_payload_scanned) payload) id)
unfolding leaves_for_tx
leaves_iff_payload_commits outpoint id [] payload ho hs =
    elim (Bool-cases (ltb (length payload) 32)) [ inl e ↦ rw e | inr e ↦ rw e ]
leaves_iff_payload_commits outpoint id (s ∷ spent) payload ho hs =
    elim (Bool-cases (ltb (length payload) 32)) [
      | inl e ↦
          let small : length payload < 32 = ground arith in
          let scanned = take (min (length payload) max_payload_scanned) payload in
          let none_there =
            short_commits scanned id
              (omega (arith, length-take (min (length payload) max_payload_scanned) payload)) in
          rw (e, none_there) (and-false (any (same_outpoint outpoint) (s ∷ spent)))
      | inr e ↦ rw e (any-all_leaves outpoint id (s ∷ spent) _ ho hs)
    ]
  where
    and-false : (c : Bool) → false ≡ (c && false)
    and-false true = refl
    and-false false = refl
