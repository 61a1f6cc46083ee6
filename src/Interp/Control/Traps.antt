-- ===== src/Interp/Control/Traps.antt =====
-- Traps: what a handler finds when it runs.
use cc_implementation.Prelude.{
  ℕ, ◌+◌, ◌-◌, ◌^◌, ◌<◌, ◌≡◌, sym, arith, true, false, List, ◌∷◌, ◌++◌, length, length-append, leb,
  ap, ◌∙◌,
}
use cc_implementation.Word.{word_mod, add64, sub64}
use cc_implementation.Word.Laws.{Fits63, long_val-val_long}
use cc_implementation.Interp.Machine.{Value, code, Machine, Exec, ok, ◌>>=◌, next}
use cc_implementation.Interp.Memory.{val_int}
use cc_implementation.Interp.Memory.Laws.{drop-append}
use cc_implementation.Interp.Runtime.{Runtime}
use cc_implementation.Interp.Control.{
  offset_of, stack_at, is_positive, pushtrap, to_handler, raise_notrace, operand, poptrap, skip,
}

-- The machine that a trap was pushed from, at the address of the handler.
abbrev pub at_handler : Machine → ℕ → Machine
at_handler m pc = record m { pc = pc }

-- Under any number of further words, the words of a trap are found by their offset.
pub stack_at-append :
    (xs ys : List Value)
    → length ys < word_mod
    → stack_at (offset_of (length ys)) (xs ++ ys) ≡ ok ys
stack_at-append xs ys h =
    let same : sub64 0 (offset_of (length ys)) ≡ length ys = omega arith in
    let fits : leb (length ys) (length (xs ++ ys)) ≡ true = ground (arith, length-append xs ys) in
    let less : length (xs ++ ys) - length ys ≡ length xs = omega (arith, length-append xs ys) in
    rw (same, fits, less) (drop-append xs ys)

-- The four words that PUSHTRAP pushes.
abbrev pub trap_frame : Machine → ℕ → List Value
trap_frame m n =
    code (add64 m.pc n) ∷ (val_int m.trap_sp_off ∷ (m.env ∷ (val_int m.extra_args ∷ m.stack)))

to_handler-frame :
    (m r : Machine) (n : ℕ) (xs : List Value)
    → length m.stack + 4 < word_mod
    → Fits63 m.trap_sp_off
    → Fits63 m.extra_args
    → r.stack ≡ xs ++ trap_frame m n
    → r.trap_sp_off ≡ offset_of (length (trap_frame m n))
    → to_handler r
      ≡ ok (record r {
        pc = add64 m.pc n;
        stack = m.stack;
        trap_sp_off = m.trap_sp_off;
        env = m.env;
        extra_args = m.extra_args;
      })
unfolding to_handler
to_handler-frame m r n xs h ht he hs ho = rw (
  hs,
  ho,
  stack_at-append xs (trap_frame m n) (omega arith),
  long_val-val_long m.trap_sp_off ht,
  long_val-val_long m.extra_args he,
)

ok-injective {ℓ} : {A : Type ℓ} {a b : A} → ok a ≡ ok b → a ≡ b
ok-injective e = cc

pushtrap_lem :
    (m : Machine) (n : ℕ)
    → operand m ≡ ok n
    → pushtrap m
      ≡ ok (record (skip m) {
        stack = trap_frame m n;
        trap_sp_off = offset_of (length (trap_frame m n));
      })
unfolding pushtrap
pushtrap_lem m n h = rw h

pushed : (m t : Machine) (n : ℕ) → operand m ≡ ok n → pushtrap m ≡ ok t → t.stack ≡ trap_frame m n
pushed m t n h e = ap (λ (x : Machine). x.stack) (ok-injective (sym e ∙ pushtrap_lem m n h))

trap_of_pushed :
    (m t : Machine) (n : ℕ)
    → operand m ≡ ok n
    → pushtrap m ≡ ok t
    → t.trap_sp_off ≡ offset_of (length (trap_frame m n))
trap_of_pushed m t n h e =
    ap (λ (x : Machine). x.trap_sp_off) (ok-injective (sym e ∙ pushtrap_lem m n h))

raise_below :
    (rt : Runtime) (r : Machine)
    → is_positive r.trap_sp_off ≡ false
    → raise_notrace rt r ≡ (to_handler r >>= λ m'. ok (next m'))
unfolding raise_notrace
raise_below rt r h = rw h

-- After PUSHTRAP, whatever words `xs` have been pushed since, whatever the other registers and the
-- heap have become, and while the trap is the current one, raising an exception runs the handler of
-- PUSHTRAP's operand with the stack, the environment, the extra arguments and the enclosing trap
-- that PUSHTRAP was executed with. It changes nothing else; the exception stays in the accumulator.
-- The stack is below 2^62 words, and the saved numbers fit in 63 bits.
pub raise_notrace-pushtrap :
    (rt : Runtime) (m t r : Machine) (n : ℕ) (xs : List Value)
    → operand m ≡ ok n
    → pushtrap m ≡ ok t
    → r.stack ≡ xs ++ t.stack
    → r.trap_sp_off ≡ t.trap_sp_off
    → length m.stack < 2 ^ 62
    → Fits63 m.trap_sp_off
    → Fits63 m.extra_args
    → raise_notrace rt r
      ≡ ok (
          next (record r {
            pc = add64 m.pc n;
            stack = m.stack;
            trap_sp_off = m.trap_sp_off;
            env = m.env;
            extra_args = m.extra_args;
          }))
raise_notrace-pushtrap rt m t r n xs h e hs ho small ht he =
    let off = ho ∙ trap_of_pushed m t n h e in
    let below : is_positive r.trap_sp_off ≡ false = rw off (ground arith) in
    let found =
      to_handler-frame m r n xs (omega arith) ht he (hs ∙ ap (λ s. xs ++ s) (pushed m t n h e))
        off in
    raise_below rt r below ∙ ap (λ (x : Exec Machine). x >>= λ m'. ok (next m')) found

-- POPTRAP undoes PUSHTRAP: once the stack is again what PUSHTRAP left, and no signal is pending, the
-- trap's words go and the enclosing trap is the current one again; nothing else changes.
pub poptrap-pushtrap :
    (rt : Runtime) (m t r : Machine) (n : ℕ)
    → operand m ≡ ok n
    → pushtrap m ≡ ok t
    → rt.is_pending r ≡ false
    → r.stack ≡ t.stack
    → Fits63 m.trap_sp_off
    → poptrap rt r ≡ ok (record r { stack = m.stack; trap_sp_off = m.trap_sp_off })
unfolding poptrap
poptrap-pushtrap rt m t r n h e quiet hs ht =
    rw (quiet, hs, pushed m t n h e, long_val-val_long m.trap_sp_off ht)
