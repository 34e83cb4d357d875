-- ===== src/Escrow/Terms/Canonical.antt =====
-- What the id of an escrow commits to (`Terms::canonical_bytes` of krep-escrow/src/lib.rs).
use k_rep.Base.{
  ℕ, ◌^◌, ◌<◌, ◌≡◌, refl, ap, sym, ◌∙◌, Option, none, some, le_bytes, length-le_bytes, from_le,
  from_le-le_bytes, length, drop, append-injective, arith,
}
use k_rep.Keys.{XOnly, serialize-injective}
use k_rep.Escrow.Terms.{Terms, arbiter_bytes, terms_bytes}

module _ {K : Type 0} ⦃key : XOnly K⦄ where
  -- The widths of the values' Rust types.
  pub record IsTerms (t : Terms K) : Type 0 where
    pub reward : t.reward < 2 ^ 64
    pub maker_bond : t.maker_bond < 2 ^ 64
    pub deadline : t.deadline < 2 ^ 64
    pub auto_release_delay : t.auto_release_delay < 2 ^ 64

  length-arbiter_bytes : (o : Option K) → length (arbiter_bytes o) ≡ 33
  unfolding arbiter_bytes
  length-arbiter_bytes none = refl
  length-arbiter_bytes (some a) = omega (arith, (key.serialize-IsArray a).width)

  arbiter_bytes-injective : (a b : Option K) → arbiter_bytes a ≡ arbiter_bytes b → a ≡ b
  unfolding arbiter_bytes
  arbiter_bytes-injective none none e = refl
  arbiter_bytes-injective none (some b) e = absurd (tags (cc e))
    where
      tags : ◌≡◌ {A = ℕ} 0 1 → ⊥
      tags h = omega arith
  arbiter_bytes-injective (some a) none e = absurd (tags (cc e))
    where
      tags : ◌≡◌ {A = ℕ} 1 0 → ⊥
      tags h = omega arith
  arbiter_bytes-injective (some a) (some b) e = ap some (serialize-injective a b (ap (drop 1) e))

  -- The terms of two escrows that have the same canonical bytes, with values of the widths of their
  -- Rust types, are the same terms.
  pub terms_bytes-injective :
      (a b : Terms K) → IsTerms a → IsTerms b → terms_bytes a ≡ terms_bytes b → a ≡ b
  unfolding terms_bytes
  terms_bytes-injective a b p q e =
      let le_width = λ (m n : ℕ). length-le_bytes 8 m ∙ sym (length-le_bytes 8 n) in
      let key_width =
        λ (x y : K). (key.serialize-IsArray x).width ∙ sym (key.serialize-IsArray y).width in
      let number =
        λ (m n : ℕ) (hm : m < 2 ^ 64) (hn : n < 2 ^ 64) (h : le_bytes 8 m ≡ le_bytes 8 n).
          sym (from_le-le_bytes 8 m hm) ∙ ap from_le h ∙ from_le-le_bytes 8 n hn in
      let (buyer, e₁) =
        append-injective (key.serialize a.buyer) (key.serialize b.buyer) (key_width a.buyer b.buyer)
          (ap (drop 1) e) in
      let (rep, e₂) =
        append-injective (key.serialize a.buyer_rep) (key.serialize b.buyer_rep)
          (key_width a.buyer_rep b.buyer_rep) e₁ in
      let (arbiter, e₃) =
        append-injective (arbiter_bytes a.arbiter) (arbiter_bytes b.arbiter)
          (length-arbiter_bytes a.arbiter ∙ sym (length-arbiter_bytes b.arbiter)) e₂ in
      let (reward, e₄) =
        append-injective (le_bytes 8 a.reward) (le_bytes 8 b.reward) (le_width a.reward b.reward)
          e₃ in
      let (bond, e₅) =
        append-injective (le_bytes 8 a.maker_bond) (le_bytes 8 b.maker_bond)
          (le_width a.maker_bond b.maker_bond) e₄ in
      let (deadline, e₆) =
        append-injective (le_bytes 8 a.deadline) (le_bytes 8 b.deadline)
          (le_width a.deadline b.deadline) e₅ in
      let (delay, file) =
        append-injective (le_bytes 8 a.auto_release_delay) (le_bytes 8 b.auto_release_delay)
          (le_width a.auto_release_delay b.auto_release_delay) e₆ in
      let same_buyer = serialize-injective a.buyer b.buyer buyer in
      let same_rep = serialize-injective a.buyer_rep b.buyer_rep rep in
      let same_arbiter = arbiter_bytes-injective a.arbiter b.arbiter arbiter in
      let same_reward = number a.reward b.reward p.reward q.reward reward in
      let same_bond = number a.maker_bond b.maker_bond p.maker_bond q.maker_bond bond in
      let same_deadline = number a.deadline b.deadline p.deadline q.deadline deadline in
      let same_delay =
        number a.auto_release_delay b.auto_release_delay p.auto_release_delay q.auto_release_delay
          delay in
      λ i. record {
        buyer = same_buyer i;
        buyer_rep = same_rep i;
        arbiter = same_arbiter i;
        reward = same_reward i;
        maker_bond = same_bond i;
        deadline = same_deadline i;
        auto_release_delay = same_delay i;
        file_hash = file i;
      }
