-- ===== src/Escrow/Script/Dispatch.antt =====
-- `covenant_script` of krep-escrow/src/script.rs: every branch under one script, chosen by a
-- selector.
use k_rep.Base.{
  ℕ, zero, suc, ◌^◌, ◌≡◌, ◌<◌, refl, ap, sym, ◌∙◌, Bool, true, false, ◌&&◌, Option, none, some,
  List, [], ◌∷◌, ◌++◌, append_assoc, append-nil, length, replicate, ◌==◌, then_some, arith,
  if◌then◌else◌,
}
use k_rep.Keys.{XOnly}
use k_rep.Core.Attestation.{Crypto}
use k_rep.Escrow.Terms.{Terms}
use k_rep.Escrow.Machine.{
  Vm, Spend, Stack, Instr, op, push_i64, Nesting, plain, opens, turns, closes, nesting, nest,
  depth_after, op_dup, op_num_equal, op_if, op_else, op_end_if, op_drop, op_false,
}
use k_rep.Escrow.Script.{
  Branch, claim, ship, settle, auto_release, dispute, resolve_to_maker, resolve_to_buyer, slash,
  refund, selector, to_maker, to_buyer,
}
use k_rep.Escrow.Script.Branches.{
  claim_branch, ship_branch, settle_branch, auto_release_branch, slash_branch, refund_branch,
  dispute_branch, resolve_branch,
}

abbrev pub Arm : Type 0
Arm = Branch × List Instr

-- The three arms of a job with an arbiter: the code unwraps the resolutions, which are there
-- whenever the dispute is.
unfoldable pub arbitrated_arms :
    Option (List Instr) → Option (List Instr) → Option (List Instr) → List Arm
arbitrated_arms (some d) (some m) (some b) =
    (dispute, d) ∷ (resolve_to_maker, m) ∷ (resolve_to_buyer, b) ∷ []
arbitrated_arms _ _ _ = []

module _ {K : Type 0} ⦃key : XOnly K⦄ (S : Type 0) ⦃crypto : Crypto K S⦄ where
  unfoldable pub arms : ⦃vm : Vm⦄ → Terms K → List Arm
  arms ⦃vm = vm⦄ terms =
      (claim, claim_branch S terms)
      ∷ (ship, ship_branch S terms)
      ∷ (settle, settle_branch S terms)
      ∷ (auto_release, auto_release_branch S terms)
      ∷ (slash, slash_branch S terms)
      ∷ (refund, refund_branch S terms)
      ∷ arbitrated_arms (dispute_branch S terms) (resolve_branch S terms to_maker)
          (resolve_branch S terms to_buyer)

-- The loop over the arms.
unfoldable pub arms_code : List Arm → List Instr
arms_code [] = []
arms_code ((branch, code) ∷ rest) =
    (op op_dup ∷ push_i64 (selector branch) ∷ op op_num_equal ∷ op op_if ∷ op op_drop ∷ code
      ++ (op op_else ∷ []))
    ++ arms_code rest

-- The script of some arms: an unknown selector leaves false.
unfoldable pub dispatch : List Arm → List Instr
dispatch offered = arms_code offered ++ (op op_false ∷ replicate (length offered) (op op_end_if))

unfoldable pub covenant_script :
    {K : Type 0} ⦃key : XOnly K⦄ (S : Type 0) ⦃crypto : Crypto K S⦄ ⦃vm : Vm⦄ → Terms K → List Instr
covenant_script S ⦃vm = vm⦄ terms = dispatch (arms S terms)

-- The first arm with this selector.
abbrev pub chosen : ℕ → List Arm → Option (List Instr)
chosen n [] = none
chosen n ((branch, code) ∷ rest) = if n == selector branch then some code else chosen n rest

-- Code with no conditional.
abbrev pub is_plain : Nesting → Bool
is_plain plain = true
is_plain _ = false

abbrev pub is_straight : List Instr → Bool
is_straight [] = true
is_straight (i ∷ c) = is_plain (nesting i) && is_straight c

abbrev pub all_straight : List Arm → Bool
all_straight [] = true
all_straight ((branch, code) ∷ rest) = is_straight code && all_straight rest

depth-straight :
    (d : ℕ) (c k : List Instr) → is_straight c ≡ true → depth_after d (c ++ k) ≡ depth_after d k
depth-straight d [] k h = refl
depth-straight d (i ∷ c) k h = plain_first (nesting i) (λ p. depth-straight d c k p) h
  where
    plain_first :
        (n : Nesting)
        → (is_straight c ≡ true → depth_after d (c ++ k) ≡ depth_after d k)
        → (is_plain n && is_straight c) ≡ true
        → then_some (nest n d) (λ e. depth_after e (c ++ k)) ≡ depth_after d k
    plain_first plain rest h = rest h
    plain_first opens rest h = absurd (cc h)
    plain_first turns rest h = absurd (cc h)
    plain_first closes rest h = absurd (cc h)

depth-straight_end : (c : List Instr) → is_straight c ≡ true → depth_after 0 c ≡ some 0
depth-straight_end c h = ap (depth_after 0) (sym (append-nil c)) ∙ depth-straight 0 c [] h

selector-lt : (b : Branch) → selector b < 2 ^ 63
unfolding selector
selector-lt b = ground arith

replicate-snoc : (n : ℕ) (i : Instr) → replicate (suc n) i ≡ replicate n i ++ (i ∷ [])
replicate-snoc zero i = refl
replicate-snoc (suc n) i = ap (λ c. i ∷ c) (replicate-snoc n i)

dispatch_nil : dispatch [] ≡ op op_false ∷ []
unfolding dispatch arms_code
dispatch_nil = refl

-- One turn of the loop is a conditional around the other arms.
dispatch_lem :
    (branch : Branch) (code : List Instr) (rest : List Arm)
    → dispatch ((branch, code) ∷ rest)
      ≡ op op_dup
        ∷ push_i64 (selector branch)
        ∷ op op_num_equal
        ∷ op op_if
        ∷ ((op op_drop ∷ code) ++ (op op_else ∷ (dispatch rest ++ (op op_end_if ∷ []))))
unfolding dispatch arms_code
dispatch_lem branch code rest = simp (append_assoc, replicate-snoc)

and-eq-true : (a b : Bool) → (a && b) ≡ true → (a ≡ true) × (b ≡ true)
and-eq-true true b h = (refl, h)
and-eq-true false b h = absurd (cc h)

depth-dispatch :
    (d : ℕ) (offered : List Arm) (k : List Instr)
    → all_straight offered ≡ true
    → depth_after d (dispatch offered ++ k) ≡ depth_after d k
depth-dispatch d [] k h = rw dispatch_nil
depth-dispatch d ((branch, code) ∷ rest) k h =
    let (straight, others) = and-eq-true (is_straight code) (all_straight rest) h in
    let inner : List Instr = op op_else ∷ (dispatch rest ++ (op op_end_if ∷ [])) in
    rw dispatch_lem (
      ap (depth_after (suc d)) (append_assoc code inner k)
      ∙ depth-straight (suc d) code (inner ++ k) straight
      ∙ ap (depth_after (suc d)) (append_assoc (dispatch rest) (op op_end_if ∷ []) k)
      ∙ depth-dispatch (suc d) rest (op op_end_if ∷ k) others)

depth-dispatch_end :
    (offered : List Arm) → all_straight offered ≡ true → depth_after 0 (dispatch offered) ≡ some 0
depth-dispatch_end offered h =
    ap (depth_after 0) (sym (append-nil (dispatch offered))) ∙ depth-dispatch 0 offered [] h

module _ ⦃vm : Vm⦄ (t : Spend) (n : ℕ) (s : Stack) where
  -- What is left by the chosen code, or by `OpFalse` where there is none.
  abbrev pub run_chosen : Option (List Instr) → Option Stack
  run_chosen none = some (vm.truth false ∷ vm.number n ∷ s)
  run_chosen (some code) = vm.exec t code s

  then_some_done : (o : Option Stack) → then_some o (λ s'. vm.exec t [] s') ≡ o
  then_some_done none = refl
  then_some_done (some s') = vm.done t s'

  run_if :
      (b : Bool) (code : List Instr) (o : Option (List Instr))
      → (if b then vm.exec t code s else run_chosen o) ≡ run_chosen (if b then some code else o)
  run_if true code o = refl
  run_if false code o = refl

  pub exec-dispatch :
      (offered : List Arm)
      → n < 2 ^ 63
      → all_straight offered ≡ true
      → vm.exec t (dispatch offered) (vm.number n ∷ s) ≡ run_chosen (chosen n offered)
  exec-dispatch [] small h = rw (dispatch_nil, vm.false_lem, vm.done)
  exec-dispatch ((branch, code) ∷ rest) small h =
      let (straight, others) = and-eq-true (is_straight code) (all_straight rest) h in
      let later = exec-dispatch rest small others in
      let turn =
        vm.if_lem t (op op_drop ∷ code) (dispatch rest) [] (n == selector branch) (vm.number n ∷ s)
          (depth-straight_end code straight) (depth-dispatch_end rest others) in
      rw
        (
          dispatch_lem,
          vm.dup_lem,
          vm.i64_lem,
          vm.num_equal_lem t _ n (selector branch) _ small (selector-lt branch),
          turn,
          then_some_done,
          vm.drop_lem,
          later,
        )
        (run_if (n == selector branch) code (chosen n rest))
