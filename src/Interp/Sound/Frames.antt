-- ===== src/Interp/Sound/Frames.antt =====
-- Traps, handlers, the frames of C calls and the switch to a parent keep every word live.
use cc_implementation.Prelude.{
  ℕ, zero, suc, ◌+◌, ◌-◌, ◌<◌, ◌≡◌, arith, List, [], ◌∷◌, Option, none, some, leb, length,
  get_elem?, set, length-set,
}
use cc_implementation.Profile.{Profile}
use cc_implementation.Word.{sub64, add64}
use cc_implementation.Interp.Machine.{Value, code, Fiber, Machine, Exec, ◌>>=◌}
use cc_implementation.Interp.Memory.{of_option, val_int}
use cc_implementation.Interp.Control.{
  stack_at, pushtrap, leave_trap, fiber_at, put_fiber, grow_stack, to_handler, free_stack,
  to_parent, setup_for_c_call, restore_after_c_call,
}
use cc_implementation.Interp.Sound.{
  Kept, Live, AllLive, All, FiberIsLive, SlotIsLive, Post, returns, raises, faults, bind,
  AllLive-later, Live-later,
}
use cc_implementation.Interp.Sound.Access.{
  registers, operand-Post, slot-Post, drop-Post, pop_words-Post, as_long-Post, as_code-Post,
  code_val-Post, All-set,
}
use cc_implementation.Interp.Sound.Store.{with_store}
use cc_implementation.Interp.Sound.Basic.{if_both}

module _ {h n : ℕ} {p : Profile → Type 0} (m : Machine) (k : Kept h n p m) where
  pub pushtrap-Post : Post h n p (Kept h n p) (pushtrap m)
  unfolding pushtrap
  pushtrap-Post = bind (operand-Post m) (λ i _. returns _ (
      registers m k
        (code (add64 m.pc i) ∷ val_int m.trap_sp_off ∷ m.env ∷ val_int m.extra_args ∷ m.stack)
        m.accu m.env (tt, (tt, (k.0.3, (tt, k.0.1)))) k.0.2 k.0.3))

  pub leave_trap-Post : Post h n p (Kept h n p) (leave_trap m)
  unfolding leave_trap
  leave_trap-Post = bind (slot-Post m k 1) (λ link _.
      bind (as_long-Post link) (λ off _. pop_words-Post (record m { trap_sp_off = off }) k 4))

  pub stack_at-Post : (offset : ℕ) → Post h n p (AllLive m) (stack_at offset m.stack)
  stack_at-Post offset =
      if_both (Post h n p (AllLive m)) (leb (sub64 0 offset) (length m.stack))
        (drop-Post (length m.stack - sub64 0 offset) m.stack k.0.1) faults

  pub with_stack : (s : List Value) → AllLive m s → Kept h n p (record m { stack = s })
  with_stack s l = registers m k s m.accu m.env l k.0.2 k.0.3

  -- A stack that is not freed: its words are live, and it is one of the stacks.
  pub fiber_at-Post :
      (i : ℕ)
      → Post h n p
          (λ (f : Fiber). FiberIsLive (length m.heap) (length m.fibers) f × (i < length m.fibers))
          (fiber_at m i)
  fiber_at-Post i = found m.fibers i (length m.fibers) k.0.0.1
    where
      found :
          (xs : List (Option Fiber)) (i j : ℕ)
          → All (SlotIsLive (length m.heap) j) xs
          → Post h n p
              (λ (f : Fiber). FiberIsLive (length m.heap) j f × (i < length xs))
              (of_option (get_elem? xs i) >>= of_option)
      found [] i j l = faults
      found (none ∷ xs) zero j l = faults
      found (some f ∷ xs) zero j l = returns f (l.0, omega arith)
      found (x ∷ xs) (suc i) j l = later (found xs i j l.1)
        where
          later :
              {e : Exec Fiber}
              → Post h n p (λ (f : Fiber). FiberIsLive (length m.heap) j f × (i < length xs)) e
              → Post h n p
                  (λ (f : Fiber). FiberIsLive (length m.heap) j f × (suc i < length (x ∷ xs)))
                  e
          later (returns f l) = returns f (l.0, omega (arith, l.1))
          later (raises v r l k) = raises v r l k
          later faults = faults

module _ {h n : ℕ} {p : Profile → Type 0} (m : Machine) (k : Kept h n p m) where
  pub put_fiber-Kept :
      (i : ℕ) (f : Fiber)
      → FiberIsLive (length m.heap) (length m.fibers) f
      → Kept h n p (put_fiber i f m)
  put_fiber-Kept i f l =
      let same : length (set m.fibers i (some f)) ≡ length m.fibers =
        length-set m.fibers i (some f) in
      with_store m k m.heap (set m.fibers i (some f))
        (rw same (
          k.0.0.0,
          All-set (SlotIsLive (length m.heap) (length m.fibers)) m.fibers i (some f) l k.0.0.1,
        ))
        (omega arith) (omega arith)

  pub grow_stack-Post : (words : ℕ) → Post h n p (Kept h n p) (grow_stack words m)
  unfolding grow_stack
  grow_stack-Post words = bind (fiber_at-Post m k m.current_stack) (λ f lf. returns _ (
      put_fiber-Kept m.current_stack (record f { words = words })
        (record {
          saved = lf.0.saved;
          parent = lf.0.parent;
          handle_value = lf.0.handle_value;
          handle_exn = lf.0.handle_exn;
          handle_effect = lf.0.handle_effect;
        })))

  -- Another stack that runs.
  pub on_stack :
      (i : ℕ) (s : List Value)
      → i < length m.fibers
      → AllLive m s
      → Kept h n p (record m { stack = s; current_stack = i })
  on_stack i s lt l = ((k.0.0, l, k.0.2, k.0.3, (k.0.4.0, k.0.4.1, lt)), k.1, k.2, k.3)

  -- The frame of a trap, or of another four words: the registers that it gives back.
  pub to_handler-Post : Post h n p (Kept h n p) (to_handler m)
  unfolding to_handler
  to_handler-Post = bind (stack_at-Post m k m.trap_sp_off) (λ s l.
      let at_trap = record m { stack = s } in
      let kt = with_stack m k s l in
      bind (slot-Post at_trap kt 0) (λ target _. bind (as_code-Post target) (λ pc _.
        bind (slot-Post at_trap kt 1) (λ link _. bind (as_long-Post link) (λ off _.
          bind (slot-Post at_trap kt 2) (λ env le. bind (slot-Post at_trap kt 3) (λ args _.
            bind (as_long-Post args) (λ extra _.
              pop_words-Post
                (record at_trap { pc = pc; trap_sp_off = off; env = env; extra_args = extra })
                (registers at_trap kt s m.accu env l k.0.2 le) 4))))))))

  pub free_stack-Kept : (i : ℕ) → Kept h n p (free_stack i m)
  free_stack-Kept i =
      let same : length (set m.fibers i none) ≡ length m.fibers = length-set m.fibers i none in
      with_store m k m.heap (set m.fibers i none)
        (rw same (
          k.0.0.0,
          All-set (SlotIsLive (length m.heap) (length m.fibers)) m.fibers i none tt k.0.0.1,
        ))
        (omega arith) (omega arith)

  pub setup-Kept : Kept h n p (setup_for_c_call m)
  setup-Kept = with_stack m k (m.env ∷ code (m.pc + 1) ∷ m.stack) (k.0.3, (tt, k.0.1))

  pub restore-Post : Post h n p (Kept h n p) (restore_after_c_call m)
  restore-Post = bind (slot-Post m k 0) (λ env le.
      pop_words-Post (record m { env = env }) (registers m k m.stack m.accu env k.0.1 k.0.2 le) 2)

module _ {h n : ℕ} {p : Profile → Type 0} (m : Machine) (k : Kept h n p m) where
  pub to_parent-Post :
      (parent : ℕ) (handler : Value)
      → Live m handler
      → Post h n p (Kept h n p) (to_parent m parent handler)
  unfolding to_parent
  to_parent-Post parent handler lh = bind (fiber_at-Post m k parent) (λ f lf.
      let free = free_stack m.current_stack m in
      let same : length free.fibers ≡ length m.fibers = length-set m.fibers m.current_stack none in
      let there = record free { stack = f.saved; current_stack = parent } in
      let kt =
        on_stack free (free_stack-Kept m k m.current_stack) parent f.saved (omega (arith, lf.1))
          (AllLive-later m free f.saved (omega arith) (omega arith) lf.0.saved) in
      let later = λ (v : Value) (l : Live m v). Live-later m free v (omega arith) (omega arith) l in
      bind (slot-Post there kt 0) (λ trap _. bind (as_long-Post trap) (λ off _.
        bind (slot-Post there kt 1) (λ args _. bind (as_long-Post args) (λ extra _.
          bind (drop-Post 2 there.stack kt.0.1) (λ s ls.
            bind (code_val-Post there kt handler) (λ pc _. returns _ (
              registers (record there { trap_sp_off = off; extra_args = extra; pc = pc }) kt
                (m.accu ∷ s) handler handler (later m.accu k.0.2, ls) (later handler lh)
                (later handler lh)))))))))
