-- ===== src/Interp/Sound/Ints.antt =====
-- Integer instructions keep every word live.
use cc_implementation.Prelude.{ℕ, Bool, true, false, ◌==◌, not, ltb, get_elem?}
use cc_implementation.Profile.{Profile}
use cc_implementation.Word.{sub64, add64, sdiv64, smod64}
use cc_implementation.Interp.Machine.{word, Machine}
use cc_implementation.Interp.Memory.{val_int, val_unit, skip}
use cc_implementation.Interp.Runtime.{Runtime}
use cc_implementation.Interp.Control.{setup_for_c_call}
use cc_implementation.Interp.Ints.{
  binary, negint, addint, subint, mulint, andint, orint, xorint, shift, lslint, lsrint, asrint,
  val_bool, same, eq_instr, neq_instr, compare_by, branch_by, doubled_operand, offsetint, offsetref,
  low_bit, isint, divide_by, divint, modint,
}
use cc_implementation.Interp.Sound.{Kept, Live, Post, returns, raises, faults, bind}
use cc_implementation.Interp.Sound.Access.{
  with_accu, fetch-Post, load-Post, pop-Post, as_long-Post, as_word-Post, of_option-Post,
}
use cc_implementation.Interp.Sound.Store.{store-Post}
use cc_implementation.Interp.Sound.Basic.{if_both, branch-Post}
use cc_implementation.Interp.Sound.Runtime.{IsSound}
use cc_implementation.Interp.Sound.Frames.{setup-Kept}

val_bool-Live : (m : Machine) (b : Bool) → Live m (val_bool b)
val_bool-Live m true = tt
val_bool-Live m false = tt

module _ {h n : ℕ} {p : Profile → Type 0} (m : Machine) (k : Kept h n p m) where
  binary-Post : (f : ℕ → ℕ → ℕ) → Post h n p (Kept h n p) (binary f m)
  unfolding binary
  binary-Post f = bind (as_word-Post m.accu) (λ a _.
      bind (pop-Post m k)
        (λ q kq. bind (as_word-Post q.0) (λ b _. returns _ (with_accu q.1 kq.1 (word (f a b)) tt))))

  shift-Post : (f : ℕ → ℕ → ℕ) → Post h n p (Kept h n p) (shift f m)
  unfolding shift
  shift-Post f = bind (as_word-Post m.accu) (λ a _. bind (pop-Post m k) (λ q kq.
      bind (as_long-Post q.0) (λ i _.
        if_both (Post h n p (Kept h n p)) (ltb i 64)
          (returns _ (with_accu q.1 kq.1 (word (f a i)) tt)) faults)))

  pub negint-Post : Post h n p (Kept h n p) (negint m)
  unfolding negint
  negint-Post = bind (as_word-Post m.accu) (λ a _. returns _ (with_accu m k (word (sub64 2 a)) tt))

  pub eq_instr-Post : Post h n p (Kept h n p) (eq_instr m)
  unfolding eq_instr
  eq_instr-Post = bind (pop-Post m k) (λ q kq.
      returns _
        (with_accu q.1 kq.1 (val_bool (same m.accu q.0)) (val_bool-Live q.1 (same m.accu q.0))))

  pub neq_instr-Post : Post h n p (Kept h n p) (neq_instr m)
  unfolding neq_instr
  neq_instr-Post = bind (pop-Post m k) (λ q kq. returns _ (
      with_accu q.1 kq.1 (val_bool (not (same m.accu q.0)))
        (val_bool-Live q.1 (not (same m.accu q.0)))))

  pub compare_by-Post : (test : ℕ → ℕ → Bool) → Post h n p (Kept h n p) (compare_by test m)
  unfolding compare_by
  compare_by-Post test = bind (as_word-Post m.accu) (λ a _. bind (pop-Post m k) (λ q kq.
      bind (as_word-Post q.0) (λ b _.
        returns _ (with_accu q.1 kq.1 (val_bool (test a b)) (val_bool-Live q.1 (test a b))))))

  pub branch_by-Post : (test : ℕ → ℕ → Bool) → Post h n p (Kept h n p) (branch_by test m)
  unfolding branch_by
  branch_by-Post test = bind (fetch-Post m k) (λ q kq.
      bind (as_long-Post q.1.accu)
        (λ a _. if_both (Post h n p (Kept h n p)) (test q.0 a) (branch-Post q.1 kq) (returns _ kq)))

  doubled_operand-Post : Post h n p (λ (_ : ℕ). Unit {0}) (doubled_operand m)
  unfolding doubled_operand
  doubled_operand-Post = bind (of_option-Post (get_elem? m.code m.pc)) (λ w _. returns _ tt)

  pub offsetint-Post : Post h n p (Kept h n p) (offsetint m)
  unfolding offsetint
  offsetint-Post = bind doubled_operand-Post (λ i _.
      bind (as_word-Post m.accu) (λ a _. returns _ (with_accu (skip m) k (word (add64 a i)) tt)))

  pub offsetref-Post : Post h n p (Kept h n p) (offsetref m)
  unfolding offsetref
  offsetref-Post = bind doubled_operand-Post (λ i _. bind (load-Post m k m.accu 0) (λ v _.
      bind (as_word-Post v) (λ a _.
        bind (store-Post m k m.accu 0 (word (add64 a i)) tt)
          (λ r kr. returns _ (with_accu (skip r) kr val_unit tt)))))

  pub isint-Post : Post h n p (Kept h n p) (isint m)
  unfolding isint
  isint-Post = returns _ (with_accu m k (val_int (low_bit m.accu)) tt)

  pub divide_by-Post :
      (rt : Runtime) → IsSound rt p → (f : ℕ → ℕ → ℕ) → Post h n p (Kept h n p) (divide_by rt f m)
  unfolding divide_by
  divide_by-Post rt sound f = bind (pop-Post m k) (λ q kq. bind (as_long-Post q.0) (λ divisor _.
      bind (as_long-Post q.1.accu) (λ a _.
        let m₂ = setup_for_c_call q.1 in
        let k₂ = setup-Kept q.1 kq.1 in
        if_both (Post h n p (Kept h n p)) (divisor == 0) (raises _ _ (sound.zero_divide m₂ k₂.0) k₂)
          (returns _ (with_accu q.1 kq.1 (val_int (f a divisor)) tt)))))

module _ {h n : ℕ} {p : Profile → Type 0} (m : Machine) (k : Kept h n p m) where
  pub addint-Post : Post h n p (Kept h n p) (addint m)
  unfolding addint
  addint-Post = binary-Post m k _

  pub subint-Post : Post h n p (Kept h n p) (subint m)
  unfolding subint
  subint-Post = binary-Post m k _

  pub mulint-Post : Post h n p (Kept h n p) (mulint m)
  unfolding mulint
  mulint-Post = binary-Post m k _

  pub andint-Post : Post h n p (Kept h n p) (andint m)
  unfolding andint
  andint-Post = binary-Post m k _

  pub orint-Post : Post h n p (Kept h n p) (orint m)
  unfolding orint
  orint-Post = binary-Post m k _

  pub xorint-Post : Post h n p (Kept h n p) (xorint m)
  unfolding xorint
  xorint-Post = binary-Post m k _

  pub lslint-Post : Post h n p (Kept h n p) (lslint m)
  unfolding lslint
  lslint-Post = shift-Post m k _

  pub lsrint-Post : Post h n p (Kept h n p) (lsrint m)
  unfolding lsrint
  lsrint-Post = shift-Post m k _

  pub asrint-Post : Post h n p (Kept h n p) (asrint m)
  unfolding asrint
  asrint-Post = shift-Post m k _

  pub divint-Post : (rt : Runtime) → IsSound rt p → Post h n p (Kept h n p) (divint rt m)
  unfolding divint
  divint-Post rt sound = divide_by-Post m k rt sound sdiv64

  pub modint-Post : (rt : Runtime) → IsSound rt p → Post h n p (Kept h n p) (modint rt m)
  unfolding modint
  modint-Post rt sound = divide_by-Post m k rt sound smod64
