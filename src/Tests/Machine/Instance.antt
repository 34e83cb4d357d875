-- ===== src/Tests/Machine/Instance.antt =====
-- The small machine is one that the covenant can run on.
use k_rep.Base.{
  ℕ, ◌+◌, ◌^◌, ◌≡◌, ◌≢◌, ◌<◌, ◌≤◌, refl, ◌∙◌, Bool, true, false, not, Option, none, some, List, [],
  ◌∷◌, ◌++◌, length, get_elem?, get_range, beq_bytes, leb, ◌==◌, then_some, arith,
}
use k_rep.Escrow.Machine.{
  Vm, Instr, Spend, Stack, Output, op, op_cat, op_tx_output_amount, op_not, op_verify, require,
}
use k_rep.Tests.Machine.{toy_exec, toy_number, toy_truth, toy_max, run, finish, Machine}
use k_rep.Tests.Machine.Conditionals.{toy_if}

pub acted :
    (t : Spend) (c : List Instr) (o : Option Stack)
    → then_some
        (then_some (then_some o (λ s. some ([], s))) (λ (r : Machine). run t c r.0 r.1))
        finish
      ≡ then_some o (λ s. toy_exec t c s)
acted t c none = refl
acted t c (some s) = refl

pub checked :
    (t : Spend) (c : List Instr) (b : Bool) (s : Stack)
    → then_some
        (then_some
          (then_some (require b (some s)) (λ s'. some ([], s')))
          (λ (r : Machine). run t c r.0 r.1))
        finish
      ≡ require b (toy_exec t c s)
checked t c true s = refl
checked t c false s = refl

pub found :
    {A : Type 0} (t : Spend) (c : List Instr) (o : Option A) (f : A → Stack)
    → then_some
        (then_some
          (then_some (then_some o (λ a. some (f a))) (λ s'. some ([], s')))
          (λ (r : Machine). run t c r.0 r.1))
        finish
      ≡ then_some o (λ a. toy_exec t c (f a))
found t c none f = refl
found t c (some a) f = refl

pub toy_cat :
    (t : Spend) (c : List Instr) (x y : List ℕ) (s : Stack)
    → length x + length y ≤ toy_max
    → toy_exec t (op op_cat ∷ c) (y ∷ x ∷ s) ≡ toy_exec t c ((x ++ y) ∷ s)
toy_cat t c x y s h =
    let fits : leb (length x + length y) toy_max ≡ true = ground arith in
    checked t c (leb (length x + length y) toy_max) ((x ++ y) ∷ s) ∙ rw fits

pub toy_output_amount :
    (t : Spend) (c : List Instr) (o : Output) (s : Stack)
    → get_elem? t.outputs 0 ≡ some o
    → o.amount < 2 ^ 63
    → toy_exec t (op op_tx_output_amount ∷ c) (toy_number 0 ∷ s)
      ≡ toy_exec t c (toy_number o.amount ∷ s)
toy_output_amount t c o s e h =
    found t c (get_elem? t.outputs 0) (λ out. toy_number out.amount ∷ s) ∙ rw e

pub toy_not :
    (t : Spend) (c : List Instr) (b : Bool) (s : Stack)
    → toy_exec t (op op_not ∷ c) (toy_truth b ∷ s) ≡ toy_exec t c (toy_truth (not b) ∷ s)
toy_not t c true s = refl
toy_not t c false s = refl

pub toy_verify :
    (t : Spend) (c : List Instr) (b : Bool) (s : Stack)
    → toy_exec t (op op_verify ∷ c) (toy_truth b ∷ s) ≡ require b (toy_exec t c s)
toy_verify t c true s = refl
toy_verify t c false s = refl

pub toy_apart : toy_truth true ≢ toy_truth false
toy_apart h = absurd (cc h)

pub toy_lock_time : (t : Spend) (n : ℕ) → leb n t.lock_time ≡ true → n ≤ t.lock_time
toy_lock_time t n h = ground arith

instance abbrev pub toy_vm : Vm
toy_vm = record {
  exec = toy_exec;
  number = toy_number;
  truth = toy_truth;
  blake2b_with_key = λ key x. x;
  check_sig = λ t sig key. beq_bytes sig key;
  lock_time_reached = λ t n. leb n t.lock_time;
  sequence_reached = λ t n. leb n t.sequence;
  max_element = toy_max;
  op_data_32 = 32;
  op_check_sig = 172;
  room = omega arith;
  truth_apart = toy_apart;
  lock_time_lem = toy_lock_time;
  done = λ t s. refl;
  data_lem = λ t d c s. refl;
  i64_lem = λ t n c s. refl;
  dup_lem = λ t c x s. refl;
  rot_lem = λ t c x y z s. refl;
  swap_lem = λ t c x y s. refl;
  drop_lem = λ t c x s. refl;
  cat_lem = toy_cat;
  substr_lem = λ t c x a b s h l. found t c (get_range a b x) (λ y. y ∷ s);
  num2bin_lem = λ t c n s h. refl;
  equal_lem = λ t c x y s. refl;
  equal_verify_lem = λ t c x y s. checked t c (beq_bytes x y) s;
  num_equal_lem = λ t c m n s h l. refl;
  num_equal_verify_lem = λ t c m n s h l. checked t c (m == n) s;
  not_lem = toy_not;
  verify_lem = toy_verify;
  add_lem = λ t c m n s h. refl;
  blake2b_lem = λ t c x key s. refl;
  check_sig_lem = λ t c sig key s. checked t c (beq_bytes sig key) s;
  lock_time_verify_lem = λ t c n s h. checked t c (leb n t.lock_time) s;
  sequence_verify_lem = λ t c n s h. checked t c (leb n t.sequence) s;
  input_index_lem = λ t c s. refl;
  outpoint_lem = λ t c s. refl;
  input_spk_lem = λ t c s. refl;
  input_amount_lem = λ t c s h. refl;
  output_spk_lem = λ t c s. found t c (get_elem? t.outputs 0) (λ o. o.spk ∷ s);
  output_amount_lem = toy_output_amount;
  payload_len_lem = λ t c s. refl;
  payload_substr_lem = λ t c a b s h l. found t c (get_range a b t.payload) (λ y. y ∷ s);
  lock_time_of_lem = λ t c s h. refl;
  true_lem = λ t c s. refl;
  false_lem = λ t c s. refl;
  if_lem = toy_if;
}
