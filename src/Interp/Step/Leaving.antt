-- ===== src/Interp/Step/Leaving.antt =====
-- Exceptions that leave the interpreter, and division by zero.
use cc_implementation.Prelude.{
  ℕ, suc, ◌+◌, ◌^◌, ◌%◌, ◌<◌, ◌≡◌, refl, ap, ◌∙◌, arith, true, false, List, ◌∷◌, ◌++◌, none, some,
  get_elem?, length,
}
use cc_implementation.Word.{add64, slt64, sext32}
use cc_implementation.Word.Laws.{Fits63, long_val-val_long}
use cc_implementation.Profile.{Profile}
use cc_implementation.Interp.Machine.{
  Value, word, code, Fiber, Machine, Exec, ok, raised, next, uncaught, ◌>>=◌,
}
use cc_implementation.Interp.Memory.{val_int, operand}
use cc_implementation.Interp.Runtime.{Runtime}
use cc_implementation.Interp.Control.{pushtrap, setup_for_c_call, raise_notrace}
use cc_implementation.Interp.Control.Traps.{stack_at-append}
use cc_implementation.Interp.Ints.{divide_by}
use cc_implementation.Interp.Step.{start, run}
use cc_implementation.Interp.Step.Exceptions.{run-pushtrap}

-- An exception that no trap catches, on a stack with no parent: `caml_interprete` returns it.
abbrev pub left : Machine → Machine → Machine
left m r = record r {
  stack = m.stack;
  external_raise = m.external_raise;
  trap_sp_off = m.trap_sp_off;
}

-- An exception that leaves `caml_interprete`. Let `m` have entered it, for any code and counters, and
-- let `r` be a later machine on a stack with no parent, with any words on top of those of `m`, and
-- with the three numbers that the entry has saved. If no trap is left, as after the entry, an
-- exception in `r` is returned as the result, and the stack, the trap offset and the exception
-- context of `m` are back. The stack of `m` is below 2^31 words,
-- as its size is saved in an `int`.
pub raise_notrace-left :
    (rt : Runtime) (m r : Machine) (f : Fiber) (prog context : ℕ) (profile : Profile)
    (above : List Value)
    → r.trap_sp_off ≡ (start prog context profile m).trap_sp_off
    → r.initial_stack_words ≡ (start prog context profile m).initial_stack_words
    → r.initial_external_raise ≡ (start prog context profile m).initial_external_raise
    → r.initial_trap_sp_off ≡ (start prog context profile m).initial_trap_sp_off
    → r.stack ≡ above ++ m.stack
    → get_elem? r.fibers r.current_stack ≡ some (some (record f { parent = none }))
    → length m.stack < 2 ^ 31
    → raise_notrace rt r ≡ ok (uncaught r.accu (left m r))
unfolding raise_notrace start
raise_notrace-left rt m r f prog context profile above no_trap words raise trap stack orphan small =
    let saved : sext32 (length m.stack % 2 ^ 32) ≡ length m.stack = ground arith in
    rw (
      no_trap,
      orphan,
      words,
      saved,
      raise,
      trap,
      stack,
      stack_at-append above m.stack (omega arith),
    )

divide_by-zero :
    (rt : Runtime) (f : ℕ → ℕ → ℕ) (r : Machine) (a : ℕ) (rest : List Value)
    → r.stack ≡ val_int 0 ∷ rest
    → r.accu ≡ word a
    → divide_by rt f r
      ≡ raised
          (rt.zero_divide (setup_for_c_call (record r { stack = rest })))
          (setup_for_c_call (record r { stack = rest }))
unfolding divide_by
divide_by-zero rt f r a rest hs ha = rw (hs, ha, long_val-val_long 0 (omega arith))

-- Division by zero is an exception: DIVINT and MODINT with the divisor 0, while the trap of a
-- PUSHTRAP that `m` executed is the current one, with any words `xs` on the stack since. The loop
-- goes on, with one round less, in the handler, with the exception of the runtime system in the
-- accumulator and the stack, the environment, the extra arguments and the enclosing trap of `m`. The
-- trap lies beyond the debugger's barrier, backtraces are off, the stack is below 2^62 words, and the
-- saved numbers fit in 63 bits.
pub run-divide_by :
    (rt : Runtime) (fuel : ℕ) (f : ℕ → ℕ → ℕ) (m t r : Machine) (n a : ℕ) (xs : List Value)
    → operand m ≡ ok n
    → pushtrap m ≡ ok t
    → r.stack ≡ val_int 0 ∷ (xs ++ t.stack)
    → r.accu ≡ word a
    → r.trap_sp_off ≡ t.trap_sp_off
    → length m.stack < 2 ^ 62
    → Fits63 m.trap_sp_off
    → Fits63 m.extra_args
    → slt64 r.trap_sp_off r.trap_barrier_off ≡ true
    → r.backtrace_active ≡ false
    → run rt (suc fuel) (divide_by rt f r >>= λ m'. ok (next m'))
      ≡ run rt fuel (
          ok (
            next (record r {
              accu = rt.zero_divide (setup_for_c_call (record r { stack = xs ++ t.stack }));
              pc = add64 m.pc n;
              stack = m.stack;
              trap_sp_off = m.trap_sp_off;
              env = m.env;
              extra_args = m.extra_args;
            })))
run-divide_by rt fuel f m t r n a xs ho ht hs ha hoff small ft fa below quiet =
    let b = setup_for_c_call (record r { stack = xs ++ t.stack }) in
    ap (λ (x : Exec Machine). run rt (suc fuel) (x >>= λ m'. ok (next m')))
      (divide_by-zero rt f r a (xs ++ t.stack) hs ha)
    ∙ run-pushtrap rt fuel (rt.zero_divide b) m t b n (r.env ∷ (code (r.pc + 1) ∷ xs)) ho ht refl
        hoff small ft fa below quiet
