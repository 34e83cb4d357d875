-- ===== src/Zk/Scan/Grammar.antt =====
-- What the script parser accepts: a grammar of pushes (`parse_pushes` of krep-zk/src/scan.rs).
use k_rep.Base.{
  ℕ, zero, suc, ◌+◌, ◌-◌, ◌^◌, ◌<◌, ◌≤◌, ◌≡◌, ◌↔◌, ◌⊎◌, inl, inr, refl, ap, ap₂, sym, ◌∙◌, true,
  some, List, [], ◌∷◌, ◌++◌, length, length-append, take, drop, take-append-drop,
  take-append_length, drop-append_length, length-take, arith, All, All-drop, All-take, IsByte,
  le_bytes, length-le_bytes, from_le, from_le-le_bytes, le_bytes-from_le, from_le-lt,
  then_some-eq-some, if-cases, leb, ◌==◌, ◌&&◌, append_assoc,
}
use k_rep.Zk.Scan.{
  Push, data_push, small, split_at, read_data, read_sized, read_push, parse_loop, parse_pushes,
}

-- An opcode with the bytes that belong to it, and what they push.
pub data IsPush (op : ℕ) (tail : List ℕ) : Push → Type 0 where
  zero_push : op ≡ 0 → tail ≡ [] → IsPush op tail (small 0)
  minus_one : op ≡ 79 → tail ≡ [] → IsPush op tail (small (2 ^ 64 - 1))
  number : (n : ℕ) → 1 ≤ n → n ≤ 16 → op ≡ 80 + n → tail ≡ [] → IsPush op tail (small n)
  direct : 1 ≤ op → op ≤ 75 → length tail ≡ op → IsPush op tail (data_push tail)
  -- a length of `w` bytes, which is 1, 2 or 4 by the opcode
  sized :
      (w : ℕ) (d : List ℕ)
      → ((op ≡ 76) × (w ≡ 1)) ⊎ (((op ≡ 77) × (w ≡ 2)) ⊎ ((op ≡ 78) × (w ≡ 4)))
      → length d < 256 ^ w
      → tail ≡ le_bytes w (length d) ++ d
      → IsPush op tail (data_push d)

-- A script that is a sequence of pushes.
pub data IsScript : List ℕ → List Push → Type 0 where
  done : IsScript [] []
  then_push :
      (op : ℕ) (tail rest : List ℕ) (p : Push) (ps : List Push)
      → IsPush op tail p
      → IsScript rest ps
      → IsScript (op ∷ (tail ++ rest)) (p ∷ ps)

split_at-append : (n : ℕ) (d rest : List ℕ) → length d ≡ n → split_at n (d ++ rest) ≡ some (d, rest)
unfolding split_at
split_at-append n d rest h =
    let fits : leb n (length (d ++ rest)) ≡ true = ground (arith, length-append d rest) in
    rw (fits, take-append_length n d rest h, drop-append_length n d rest h)

split_at-eq-some :
    (n : ℕ) (rest : List ℕ) (p : List ℕ × List ℕ)
    → split_at n rest ≡ some p
    → (length p.0 ≡ n) × (rest ≡ p.0 ++ p.1)
unfolding split_at
split_at-eq-some n rest p h = elim (if-cases (leb n (length rest)) _ _ h) [
  | inr (e, e') ↦ cc e'
  | inl (e, e') ↦
      let front : take n rest ≡ p.0 = cc e' in
      let back : drop n rest ≡ p.1 = cc e' in
      let fits : n ≤ length rest = ground arith in
      (
        sym (ap length front) ∙ length-take n rest ∙ omega arith,
        sym (take-append-drop n rest) ∙ ap₂ ◌++◌ front back,
      )
]

read_data-append :
    (n : ℕ) (d rest : List ℕ) → length d ≡ n → read_data n (d ++ rest) ≡ some (data_push d, rest)
unfolding read_data
read_data-append n d rest h = rw (split_at-append n d rest h)

read_sized-append :
    (w : ℕ) (d rest : List ℕ)
    → length d < 256 ^ w
    → read_sized w ((le_bytes w (length d) ++ d) ++ rest) ≡ some (data_push d, rest)
unfolding read_sized
read_sized-append w d rest h =
    rw
      (
        append_assoc (le_bytes w (length d)) d rest,
        split_at-append w (le_bytes w (length d)) (d ++ rest) (length-le_bytes w (length d)),
        from_le-le_bytes w (length d) h,
      )
      (read_data-append (length d) d rest refl)

read_data-eq-some :
    (n : ℕ) (rest : List ℕ) (p : Push × List ℕ)
    → read_data n rest ≡ some p
    → (d : List ℕ) × (length d ≡ n) × (rest ≡ d ++ p.1) × (p.0 ≡ data_push d)
unfolding read_data
read_data-eq-some n rest p h =
    let (q, e, e') = then_some-eq-some (split_at n rest) _ h in
    let (width, parts) = split_at-eq-some n rest q e in
    let after : q.1 ≡ p.1 = cc e' in (q.0, width, parts ∙ ap (λ l. q.0 ++ l) after, cc e')

-- Any push is read, whatever follows it.
read_push-IsPush :
    (op : ℕ) (tail rest : List ℕ) (p : Push)
    → IsPush op tail p
    → read_push op (tail ++ rest) ≡ some (p, rest)
unfolding read_push
read_push-IsPush op tail rest p (zero_push e e') = rw (e, e')
read_push-IsPush op tail rest p (minus_one e e') = rw (e, e')
read_push-IsPush op tail rest p (number n lo hi e e') =
    let value : op - 81 + 1 ≡ n = omega arith in rw e' (ground (arith, value))
read_push-IsPush op tail rest p (direct lo hi e) = ground (arith, read_data-append op tail rest e)
read_push-IsPush op tail rest p (sized w d (inl (e, e')) lt parts) =
    rw (e, parts, e') (read_sized-append _ d rest (rw e' at lt))
read_push-IsPush op tail rest p (sized w d (inr (inl (e, e'))) lt parts) =
    rw (e, parts, e') (read_sized-append _ d rest (rw e' at lt))
read_push-IsPush op tail rest p (sized w d (inr (inr (e, e'))) lt parts) =
    rw (e, parts, e') (read_sized-append _ d rest (rw e' at lt))

-- What was read is a push.
abbrev WasRead : ℕ → List ℕ → Push × List ℕ → Type 0
WasRead op rest p = (tail : List ℕ) × (rest ≡ tail ++ p.1) × IsPush op tail p.0

was_data :
    (op : ℕ) (rest : List ℕ) (p : Push × List ℕ)
    → 1 ≤ op
    → op ≤ 75
    → read_data op rest ≡ some p
    → WasRead op rest p
was_data op rest p lo hi h =
    let (d, width, parts, e) = read_data-eq-some op rest p h in
    (d, parts, rw e (IsPush.direct lo hi width))

was_sized :
    (op w : ℕ) (rest : List ℕ) (p : Push × List ℕ)
    → ((op ≡ 76) × (w ≡ 1)) ⊎ (((op ≡ 77) × (w ≡ 2)) ⊎ ((op ≡ 78) × (w ≡ 4)))
    → All IsByte rest
    → read_sized w rest ≡ some p
    → WasRead op rest p
unfolding read_sized
was_sized op w rest p kind bytes h =
    let (q, e, e') = then_some-eq-some (split_at w rest) _ h in
    let (width, parts) = split_at-eq-some w rest q e in
    let (d, size, after, pushed) = read_data-eq-some (from_le q.0) q.1 p e' in
    let front : All IsByte q.0 =
      rw (take-append_length w q.0 q.1 width) at (rw parts at (All-take IsByte w rest bytes)) in
    let lt : length d < 256 ^ w =
      omega (arith, size, from_le-lt w q.0 (record { width = width; bytes = front })) in
    let prefix : q.0 ≡ le_bytes w (length d) =
      sym (le_bytes-from_le q.0 front) ∙ ap₂ le_bytes width (sym size) in
    (
      le_bytes w (length d) ++ d,
      parts ∙ ap₂ ◌++◌ prefix after ∙ sym (append_assoc (le_bytes w (length d)) d p.1),
      rw pushed (IsPush.sized w d kind lt refl),
    )

was_small :
    (op v : ℕ) (rest : List ℕ) (p : Push × List ℕ)
    → IsPush op [] (small v)
    → some (small v, rest) ≡ some p
    → WasRead op rest p
was_small op v rest p push e =
    let pushed : small v ≡ p.0 = cc e in
    let after : rest ≡ p.1 = cc e in ([], after, rw (sym pushed) push)

read_push-WasRead :
    (op : ℕ) (rest : List ℕ) (p : Push × List ℕ)
    → All IsByte rest
    → read_push op rest ≡ some p
    → WasRead op rest p
unfolding read_push
read_push-WasRead op rest p bytes h = elim (if-cases (op == 0) _ _ h) [
  | inl (b, e) ↦ was_small op 0 rest p (zero_push (ground arith) refl) e
  | inr (b, h) ↦ elim (if-cases (op == 79) _ _ h) [
    | inl (b, e) ↦ was_small op (2 ^ 64 - 1) rest p (minus_one (ground arith) refl) e
    | inr (b, h) ↦ elim (if-cases (leb 81 op && leb op 96) _ _ h) [
      | inl (b, e) ↦
          was_small op (op - 81 + 1) rest p
            (number (op - 81 + 1) (ground arith) (ground arith) (ground arith) refl) e
      | inr (b, h) ↦ elim (if-cases (leb 1 op && leb op 75) _ _ h) [
        | inl (b, e) ↦ was_data op rest p (ground arith) (ground arith) e
        | inr (b, h) ↦ elim (if-cases (op == 76) _ _ h) [
          | inl (b, e) ↦ was_sized op 1 rest p (inl (ground arith, refl)) bytes e
          | inr (b, h) ↦ elim (if-cases (op == 77) _ _ h) [
            | inl (b, e) ↦ was_sized op 2 rest p (inr (inl (ground arith, refl))) bytes e
            | inr (b, h) ↦ elim (if-cases (op == 78) _ _ h) [
              | inl (b, e) ↦ was_sized op 4 rest p (inr (inr (ground arith, refl))) bytes e
              | inr (b, h) ↦ cc h
            ]
          ]
        ]
      ]
    ]
  ]
]

parse_loop-IsScript :
    (fuel : ℕ) (script : List ℕ) (ps : List Push)
    → IsScript script ps
    → length script ≤ fuel
    → parse_loop fuel script ≡ some ps
unfolding parse_loop
parse_loop-IsScript fuel script ps done h = refl
parse_loop-IsScript zero script ps (then_push op tail rest p qs push s) h = absurd (omega arith)
parse_loop-IsScript (suc fuel) script ps (then_push op tail rest p qs push s) h = rw (
  read_push-IsPush op tail rest p push,
  parse_loop-IsScript fuel rest qs s (omega (arith, length-append tail rest)),
)

IsScript-parse_loop :
    (fuel : ℕ) (script : List ℕ) (ps : List Push)
    → All IsByte script
    → parse_loop fuel script ≡ some ps
    → IsScript script ps
unfolding parse_loop
IsScript-parse_loop fuel [] ps bytes h = let same : [] ≡ ps = cc h in rw (sym same) IsScript.done
IsScript-parse_loop zero (op ∷ rest) ps bytes h = cc h
IsScript-parse_loop (suc fuel) (op ∷ rest) ps bytes h =
    let (p, e, h₁) = then_some-eq-some (read_push op rest) _ h in
    let (qs, e₁, e₂) = then_some-eq-some (parse_loop fuel p.1) _ h₁ in
    let (tail, parts, push) = read_push-WasRead op rest p bytes.1 e in
    let after : All IsByte p.1 =
      rw (drop-append_length (length tail) tail p.1 refl) at
        (rw parts at (All-drop IsByte (length tail) rest bytes.1)) in
    let same : p.0 ∷ qs ≡ ps = cc e₂ in
    rw (parts, sym same)
      (IsScript.then_push op tail p.1 p.0 qs push (IsScript-parse_loop fuel p.1 qs after e₁))

-- A script of bytes is parsed exactly when it is a sequence of pushes, and to what they push.
pub parse_pushes_iff :
    (script : List ℕ) (pushes : List Push)
    → All IsByte script
    → (parse_pushes script ≡ some pushes) ↔ IsScript script pushes
unfolding parse_pushes
parse_pushes_iff script pushes bytes = (
  IsScript-parse_loop (length script) script pushes bytes,
  λ s. parse_loop-IsScript (length script) script pushes s (omega arith),
)
