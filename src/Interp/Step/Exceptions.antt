-- ===== src/Interp/Step/Exceptions.antt =====
-- Exceptions that C code raises, from the raise to the handler.
use cc_implementation.Prelude.{
  ℕ, suc, ◌+◌, ◌%◌, ◌^◌, ◌<◌, ◌≡◌, refl, arith, true, false, List, ◌++◌, length, leb, if◌then◌else◌,
  ap, ◌∙◌,
}
use cc_implementation.Word.{word_mod, sign_bit, add64, slt64}
use cc_implementation.Word.Laws.{Fits63}
use cc_implementation.Interp.Machine.{Value, Machine, ok, raised, next}
use cc_implementation.Interp.Memory.{operand}
use cc_implementation.Interp.Runtime.{Runtime}
use cc_implementation.Interp.Control.{check_trap_barrier, pushtrap, landing, raise_notrace}
use cc_implementation.Interp.Control.Traps.{raise_notrace-pushtrap}
use cc_implementation.Interp.Step.{run}

pub check_trap_barrier_beyond :
    (rt : Runtime) (m : Machine)
    → slt64 m.trap_sp_off m.trap_barrier_off ≡ true
    → check_trap_barrier rt m ≡ m
unfolding check_trap_barrier
check_trap_barrier_beyond rt m below =
    let test : leb ((m.trap_barrier_off + sign_bit) % word_mod)
          ((m.trap_sp_off + sign_bit) % word_mod)
        ≡ false =
      ground arith in
    rw test

landing-quiet :
    (rt : Runtime) (exn : Value) (r : Machine)
    → slt64 r.trap_sp_off r.trap_barrier_off ≡ true
    → r.backtrace_active ≡ false
    → landing rt exn r ≡ raise_notrace rt (record r { accu = exn })
unfolding landing
landing-quiet rt exn r below quiet =
    let m = record r { accu = exn } in
    ap
      (λ (x : Machine).
        raise_notrace rt (if x.backtrace_active then rt.stash_backtrace false x else x))
      (check_trap_barrier_beyond rt m below)
    ∙ ap (λ b. raise_notrace rt (if b then rt.stash_backtrace false m else m)) quiet

run-landing :
    (rt : Runtime) (fuel : ℕ) (exn : Value) (r : Machine)
    → run rt (suc fuel) (raised exn r) ≡ run rt fuel (landing rt exn r)
unfolding run
run-landing rt fuel exn r = refl

-- An exception that C code raises in a machine `r`, while the trap of a PUSHTRAP that `m` executed is
-- the current one, with any words `xs` on the stack since: the loop goes on, with one round less, in
-- the handler, with the exception in the accumulator and the stack, the environment, the extra
-- arguments and the enclosing trap of `m`. The trap lies beyond the debugger's barrier, backtraces are
-- off, the stack is below 2^62 words, and the saved numbers fit in 63 bits.
pub run-pushtrap :
    (rt : Runtime) (fuel : ℕ) (exn : Value) (m t r : Machine) (n : ℕ) (xs : List Value)
    → operand m ≡ ok n
    → pushtrap m ≡ ok t
    → r.stack ≡ xs ++ t.stack
    → r.trap_sp_off ≡ t.trap_sp_off
    → length m.stack < 2 ^ 62
    → Fits63 m.trap_sp_off
    → Fits63 m.extra_args
    → slt64 r.trap_sp_off r.trap_barrier_off ≡ true
    → r.backtrace_active ≡ false
    → run rt (suc fuel) (raised exn r)
      ≡ run rt fuel (
          ok (
            next (record r {
              accu = exn;
              pc = add64 m.pc n;
              stack = m.stack;
              trap_sp_off = m.trap_sp_off;
              env = m.env;
              extra_args = m.extra_args;
            })))
run-pushtrap rt fuel exn m t r n xs ho ht hs hoff small fits_trap fits_args below quiet =
    run-landing rt fuel exn r
    ∙ ap (run rt fuel) (
        landing-quiet rt exn r below quiet
        ∙ raise_notrace-pushtrap rt m t (record r { accu = exn }) n xs ho ht hs hoff small fits_trap
            fits_args)
