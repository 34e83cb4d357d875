-- ===== src/Tests/Machine/Conditionals.antt =====
-- The small machine runs one arm of a conditional and skips the other.
use k_rep.Base.{
  ℕ, suc, ◌≡◌, refl, ap, ◌∙◌, Bool, true, false, not, Option, none, some, List, [], ◌∷◌, ◌++◌,
  length, ◌==◌, if◌then◌else◌, then_some, then_some-eq-some, Option-cases, inl, inr, arith,
}
use k_rep.Escrow.Machine.{
  Instr, op, Spend, Stack, Nesting, plain, opens, turns, closes, nesting, nest, depth_after, op_if,
  op_else, op_end_if,
}
use k_rep.Tests.Machine.{
  Machine, act, executing, open_if, tick_by, run, finish, toy_exec, toy_truth,
}

run-append :
    (t : Spend) (a b : List Instr) (ks : List Bool) (s : Stack)
    → run t (a ++ b) ks s ≡ then_some (run t a ks s) (λ r. run t b r.0 r.1)
run-append t [] b ks s = refl
run-append t (i ∷ a) b ks s = elim (Option-cases (tick_by (nesting i) t i ks s)) [
  | inl e ↦ rw e
  | inr (r, e) ↦ rw e (run-append t a b r.0 r.1)
]

executing-append : (ks cs : List Bool) → executing cs ≡ false → executing (ks ++ cs) ≡ false
executing-append [] cs h = h
executing-append (true ∷ ks) cs h = executing-append ks cs h
executing-append (false ∷ ks) cs h = refl

-- One instruction of skipped code.
tick_skipped :
    (n : Nesting) (t : Spend) (i : Instr) (ks cs : List Bool) (s : Stack) (e : ℕ)
    → executing cs ≡ false
    → nest n (length ks) ≡ some e
    → (ks' : List Bool) × (length ks' ≡ e) × (tick_by n t i (ks ++ cs) s ≡ some (ks' ++ cs, s))
tick_skipped plain t i ks cs s e h d = (ks, cc d, rw (executing-append ks cs h))
tick_skipped opens t i ks cs s e h d = (false ∷ ks, cc d, rw (executing-append ks cs h))
tick_skipped turns t i [] cs s e h d = absurd (cc d)
tick_skipped turns t i (k ∷ ks) cs s e h d = (not k ∷ ks, cc d, refl)
tick_skipped closes t i [] cs s e h d = absurd (cc d)
tick_skipped closes t i (k ∷ ks) cs s e h d = (ks, cc d, refl)

run_skipped :
    (t : Spend) (a : List Instr) (ks cs : List Bool) (s : Stack) (e : ℕ)
    → executing cs ≡ false
    → depth_after (length ks) a ≡ some e
    → (ks' : List Bool) × (length ks' ≡ e) × (run t a (ks ++ cs) s ≡ some (ks' ++ cs, s))
run_skipped t [] ks cs s e h d = (ks, cc d, refl)
run_skipped t (i ∷ a) ks cs s e h d =
    let (m, d₁, d₂) = then_some-eq-some (nest (nesting i) (length ks)) _ d in
    let (ks₁, l₁, r₁) = tick_skipped (nesting i) t i ks cs s m h d₁ in
    let (ks₂, l₂, r₂) = run_skipped t a ks₁ cs s e h (ap (λ n. depth_after n a) l₁ ∙ d₂) in
    (ks₂, l₂, rw r₁ r₂)

executing-append_true :
    (ks cs : List Bool) → executing cs ≡ true → executing (ks ++ cs) ≡ executing ks
executing-append_true [] cs h = h
executing-append_true (true ∷ ks) cs h = executing-append_true ks cs h
executing-append_true (false ∷ ks) cs h = refl

-- The open conditionals under some code do not matter to it where all of them hold.
abbrev framed : List Bool → Option Machine → Option Machine
framed cs o = then_some o (λ r. some (r.0 ++ cs, r.1))

if_framed :
    (b : Bool) (ks cs : List Bool) (s : Stack) (o : Option Stack)
    → (if b then then_some o (λ s'. some (ks ++ cs, s')) else some (ks ++ cs, s))
      ≡ framed cs (if b then then_some o (λ s'. some (ks, s')) else some (ks, s))
if_framed true ks cs s none = refl
if_framed true ks cs s (some s') = refl
if_framed false ks cs s o = refl

open_framed :
    (b : Bool) (ks cs : List Bool) (s : Stack)
    → (if b then open_if (ks ++ cs) s else some (false ∷ ks ++ cs, s))
      ≡ framed cs (if b then open_if ks s else some (false ∷ ks, s))
open_framed false ks cs s = refl
open_framed true ks cs [] = refl
open_framed true ks cs ([] ∷ s) = refl
open_framed true ks cs ((n ∷ []) ∷ s) = refl
open_framed true ks cs ((n ∷ m ∷ x) ∷ s) = refl

tick_framed :
    (n : Nesting) (t : Spend) (i : Instr) (ks cs : List Bool) (s : Stack) (e : ℕ)
    → executing cs ≡ true
    → nest n (length ks) ≡ some e
    → tick_by n t i (ks ++ cs) s ≡ framed cs (tick_by n t i ks s)
tick_framed plain t i ks cs s e h d =
    rw (executing-append_true ks cs h) (if_framed (executing ks) ks cs s (act t i s))
tick_framed opens t i ks cs s e h d =
    rw (executing-append_true ks cs h) (open_framed (executing ks) ks cs s)
tick_framed turns t i [] cs s e h d = absurd (cc d)
tick_framed turns t i (k ∷ ks) cs s e h d = refl
tick_framed closes t i [] cs s e h d = absurd (cc d)
tick_framed closes t i (k ∷ ks) cs s e h d = refl

first_of :
    (ks : List Bool) (s : Stack) (r : Machine) → some (ks, s) ≡ some r → length r.0 ≡ length ks
first_of ks s r h = let e : r ≡ (ks, s) = cc h in ap (λ (q : Machine). length q.0) e

if_length :
    (b : Bool) (ks : List Bool) (s : Stack) (o : Option Stack) (r : Machine)
    → (if b then then_some o (λ s'. some (ks, s')) else some (ks, s)) ≡ some r
    → length r.0 ≡ length ks
if_length true ks s none r h = absurd (cc h)
if_length true ks s (some s') r h = first_of ks s' r h
if_length false ks s o r h = first_of ks s r h

open_length :
    (b : Bool) (ks : List Bool) (s : Stack) (r : Machine)
    → (if b then open_if ks s else some (false ∷ ks, s)) ≡ some r
    → length r.0 ≡ suc (length ks)
open_length false ks s r h = first_of (false ∷ ks) s r h
open_length true ks [] r h = absurd (cc h)
open_length true ks ([] ∷ s) r h = absurd (cc h)
open_length true ks ((n ∷ []) ∷ s) r h = first_of (not (n == 0) ∷ ks) s r h
open_length true ks ((n ∷ m ∷ x) ∷ s) r h = absurd (cc h)

tick_length :
    (n : Nesting) (t : Spend) (i : Instr) (ks : List Bool) (s : Stack) (e : ℕ) (r : Machine)
    → nest n (length ks) ≡ some e
    → tick_by n t i ks s ≡ some r
    → length r.0 ≡ e
tick_length plain t i ks s e r d h = if_length (executing ks) ks s (act t i s) r h ∙ cc d
tick_length opens t i ks s e r d h = open_length (executing ks) ks s r h ∙ cc d
tick_length turns t i [] s e r d h = absurd (cc d)
tick_length turns t i (k ∷ ks) s e r d h = first_of (not k ∷ ks) s r h ∙ cc d
tick_length closes t i [] s e r d h = absurd (cc d)
tick_length closes t i (k ∷ ks) s e r d h = first_of ks s r h ∙ cc d

-- Code of a known nesting, on top of conditionals that hold.
run-framed :
    (t : Spend) (a : List Instr) (ks cs : List Bool) (s : Stack) (e : ℕ)
    → executing cs ≡ true
    → depth_after (length ks) a ≡ some e
    → run t a (ks ++ cs) s ≡ framed cs (run t a ks s)
run-framed t [] ks cs s e h d = refl
run-framed t (i ∷ a) ks cs s e h d =
    let (m, d₁, d₂) = then_some-eq-some (nest (nesting i) (length ks)) _ d in
    let same = tick_framed (nesting i) t i ks cs s m h d₁ in
    elim (Option-cases (tick_by (nesting i) t i ks s)) [
      | inl none_yet ↦ rw (same, none_yet)
      | inr (r, found) ↦
          let width = tick_length (nesting i) t i ks s m r d₁ found in
          rw (same, found) (run-framed t a r.0 cs r.1 e h (ap (λ n. depth_after n a) width ∙ d₂))
    ]

run-length :
    (t : Spend) (a : List Instr) (ks : List Bool) (s : Stack) (e : ℕ) (r : Machine)
    → depth_after (length ks) a ≡ some e
    → run t a ks s ≡ some r
    → length r.0 ≡ e
run-length t [] ks s e r d h = first_of ks s r h ∙ cc d
run-length t (i ∷ a) ks s e r d h =
    let (m, d₁, d₂) = then_some-eq-some (nest (nesting i) (length ks)) _ d in
    let (q, found, later) = then_some-eq-some (tick_by (nesting i) t i ks s) _ h in
    let width = tick_length (nesting i) t i ks s m q d₁ found in
    run-length t a q.0 q.1 e r (ap (λ n. depth_after n a) width ∙ d₂) later

closed_lem : (r : Machine) → length r.0 ≡ 0 → r ≡ ([], r.1)
closed_lem ([], s) h = refl
closed_lem (k ∷ ks, s) h = absurd (omega arith)

-- An arm that runs under a conditional that holds ends as it does alone.
arm_runs :
    (t : Spend) (a k : List Instr) (s : Stack)
    → depth_after 0 a ≡ some 0
    → then_some (run t (a ++ k) (true ∷ []) s) finish
      ≡ then_some (toy_exec t a s) (λ s'. then_some (run t k (true ∷ []) s') finish)
arm_runs t a k s d =
    let split = run-append t a k (true ∷ []) s in
    let same = run-framed t a [] (true ∷ []) s 0 refl d in
    rw (split, same)
      (elim (Option-cases (run t a [] s)) [
        | inl e ↦ rw e
        | inr (r, e) ↦
            let closed = closed_lem r (run-length t a [] s 0 r d e) in
            let e' : run t a [] s ≡ some ([], r.1) = e ∙ ap some closed in rw e'
      ])

arm_skipped :
    (t : Spend) (a k : List Instr) (s : Stack)
    → depth_after 0 a ≡ some 0
    → then_some (run t (a ++ k) (false ∷ []) s) finish ≡ then_some (run t k (false ∷ []) s) finish
arm_skipped t a k s d =
    let (ks, width, skipped) = run_skipped t a [] (false ∷ []) s 0 refl d in
    let closed = closed_lem (ks, s) width in
    let stays : run t a (false ∷ []) s ≡ some (false ∷ [], s) =
      skipped ∙ ap (λ (r : Machine). some (r.0 ++ (false ∷ []), s)) closed in
    rw (run-append t a k (false ∷ []) s, stays)

pub toy_if :
    (t : Spend) (a b c : List Instr) (v : Bool) (s : Stack)
    → depth_after 0 a ≡ some 0
    → depth_after 0 b ≡ some 0
    → toy_exec t (op op_if ∷ (a ++ op op_else ∷ (b ++ op op_end_if ∷ c))) (toy_truth v ∷ s)
      ≡ then_some (if v then toy_exec t a s else toy_exec t b s) (λ s'. toy_exec t c s')
toy_if t a b c true s ha hb =
    arm_runs t a (op op_else ∷ (b ++ op op_end_if ∷ c)) s ha
    ∙ elim (Option-cases (toy_exec t a s)) [
      | inl e ↦ rw e
      | inr (s', e) ↦ rw e (arm_skipped t b (op op_end_if ∷ c) s' hb)
    ]
toy_if t a b c false s ha hb =
    arm_skipped t a (op op_else ∷ (b ++ op op_end_if ∷ c)) s ha
    ∙ arm_runs t b (op op_end_if ∷ c) s hb
