-- ===== src/Interp/Sound/Control.antt =====
-- Exceptions, signals, stack checks and C calls keep every word live.
use cc_implementation.Prelude.{
  ℕ, ◌+◌, ◌-◌, Bool, true, false, List, ◌∷◌, Option, none, some, leb, if◌then◌else◌, ◌%◌,
}
use cc_implementation.Profile.{Profile}
use cc_implementation.Word.{sign_bit, word_mod}
use cc_implementation.Interp.Machine.{Value, code, Machine, ok, ◌>>=◌, next, uncaught}
use cc_implementation.Interp.Memory.{val_unit, val_int, push, pop_words}
use cc_implementation.Interp.Runtime.{Runtime}
use cc_implementation.Interp.Control.{
  offset_of, after_realloc, is_positive, stack_at, to_parent, setup_for_c_call,
  restore_after_c_call, process_signal, check_signals, check_stacks, poll_gc, poptrap,
  check_trap_barrier, raise_notrace, stash, raise_notrace_instr, reraise_instr, raise_instr,
  landing, c_call, c_calln,
}
use cc_implementation.Interp.Sound.{
  Kept, Live, AllLive, Post, returns, raises, bind, Live-later, own, Kept-refl,
}
use cc_implementation.Interp.Sound.Access.{
  with_accu, push-Kept, registers, fetch-Post, operand-Post, slot-Post, take-Post, pop_words-Post,
  as_long-Post, as_code-Post,
}
use cc_implementation.Interp.Sound.Basic.{if_both}
use cc_implementation.Interp.Sound.Runtime.{Ends, IsSound}
use cc_implementation.Interp.Sound.Frames.{
  leave_trap-Post, grow_stack-Post, stack_at-Post, with_stack, fiber_at-Post, to_handler-Post,
  setup-Kept, restore-Post, to_parent-Post,
}

module _ {h n : ℕ} {p : Profile → Type 0} (rt : Runtime) (sound : IsSound rt p) (m : Machine)
    (k : Kept h n p m) where
  pub process_signal-Post : Post h n p (Kept h n p) (process_signal rt m)
  unfolding process_signal
  process_signal-Post =
      let frame =
        m.accu ∷ val_unit ∷ val_unit ∷ code m.pc ∷ m.env ∷ val_int m.extra_args ∷ m.stack in
      bind
        (sound.process_pending_actions h n (record m { stack = frame })
          (with_stack m k frame (k.0.2, (tt, (tt, (tt, (k.0.3, (tt, k.0.1))))))))
        (λ r kr. bind (slot-Post r kr 0) (λ a la. bind (slot-Post r kr 3) (λ target _.
          bind (as_code-Post target) (λ pc _. bind (slot-Post r kr 4) (λ env le.
            bind (slot-Post r kr 5) (λ args _. bind (as_long-Post args) (λ extra _.
              pop_words-Post (record r { accu = a; pc = pc; env = env; extra_args = extra })
                (registers r kr r.stack a env kr.0.1 la le) 6)))))))

module _ {h n : ℕ} {p : Profile → Type 0} (rt : Runtime) (sound : IsSound rt p) where
  pub check_signals-Post :
      (m : Machine) → Kept h n p m → Post h n p (Kept h n p) (check_signals rt m)
  unfolding check_signals
  check_signals-Post m k =
      if_both (Post h n p (Kept h n p)) (rt.is_pending m) (process_signal-Post rt sound m k)
        (returns _ k)

  realloc-Post :
      (m : Machine)
      → Kept h n p m
      → (words : Option ℕ) → Post h n p (Kept h n p) (after_realloc rt words m)
  unfolding after_realloc
  realloc-Post m k (some w) = bind (grow_stack-Post m k w) check_signals-Post
  realloc-Post m k none = raises _ _ (sound.stack_overflow m k.0) (setup-Kept m k)

module _ {h n : ℕ} {p : Profile → Type 0} (rt : Runtime) (sound : IsSound rt p) (m : Machine)
    (k : Kept h n p m) where
  pub check_stacks-Post : Post h n p (Kept h n p) (check_stacks rt m)
  unfolding check_stacks
  check_stacks-Post =
      if_both (Post h n p (Kept h n p)) (rt.below_threshold m)
        (realloc-Post rt sound m k (rt.try_realloc_stack m)) (check_signals-Post rt sound m k)

  pub poll_gc-Post : Post h n p (Kept h n p) (poll_gc rt m)
  unfolding poll_gc
  poll_gc-Post =
      let frame = m.accu ∷ m.env ∷ code m.pc ∷ m.stack in
      if_both (Post h n p (Kept h n p)) (rt.minor_heap_full m)
        (bind
          (sound.process_pending_actions h n (record m { stack = frame })
            (with_stack m k frame (k.0.2, (k.0.3, (tt, k.0.1)))))
          (λ r kr. bind (slot-Post r kr 0) (λ a la. bind (slot-Post r kr 1) (λ env le.
            pop_words-Post (record r { pc = m.pc; extra_args = m.extra_args; accu = a; env = env })
              (registers r kr r.stack a env kr.0.1 la le) 3))))
        (returns _ k)

module _ {h n : ℕ} {p : Profile → Type 0} (rt : Runtime) (sound : IsSound rt p) (m : Machine)
    (k : Kept h n p m) where
  pub poptrap-Post : Post h n p (Kept h n p) (poptrap rt m)
  unfolding poptrap
  poptrap-Post =
      if_both (Post h n p (Kept h n p)) (rt.is_pending m)
        (process_signal-Post rt sound (record m { pc = m.pc - 1 }) k) (leave_trap-Post m k)

  pub barrier-Kept : Kept h n p (check_trap_barrier rt m)
  unfolding check_trap_barrier
  barrier-Kept =
      if_both (Kept h n p)
        (leb ((m.trap_barrier_off + sign_bit) % word_mod) ((m.trap_sp_off + sign_bit) % word_mod))
        (sound.debugger h n 0 m k) k

  pub stash-Kept : (reraise : Bool) → Kept h n p (stash rt reraise m)
  unfolding stash
  stash-Kept reraise =
      if_both (Kept h n p) m.backtrace_active
        (sound.stash_backtrace h n reraise (push (code (m.pc - 1)) m)
          (push-Kept m k (code (m.pc - 1)) tt))
        k

  -- An exception that leaves the stack, for its parent or for the caller of the interpreter.
  leaves_stack-Post :
      (parent : Option ℕ) (handler : Value)
      → Live m handler
      → Post h n p (Ends h n p) (elim parent [
        | none ↦ stack_at (offset_of m.initial_stack_words) m.stack >>= λ s. ok (
            uncaught m.accu (record m {
              stack = s;
              external_raise = m.initial_external_raise;
              trap_sp_off = m.initial_trap_sp_off;
            }))
        | some i ↦ to_parent m i handler >>= check_stacks rt >>= λ m'. ok (next m')
      ])
  leaves_stack-Post none handler lh =
      bind (stack_at-Post m k (offset_of m.initial_stack_words))
        (λ s l. returns _ (k.0.2, with_stack m k s l))
  leaves_stack-Post (some i) handler lh =
      bind (bind (to_parent-Post m k i handler lh) (λ r kr. check_stacks-Post rt sound r kr))
        (λ r kr. returns (next r) kr)

  pub raise_notrace-Post : Post h n p (Ends h n p) (raise_notrace rt m)
  unfolding raise_notrace
  raise_notrace-Post =
      if_both (Post h n p (Ends h n p)) (is_positive m.trap_sp_off)
        (bind (fiber_at-Post m k m.current_stack)
          (λ f lf. leaves_stack-Post f.parent f.handle_exn lf.0.handle_exn))
        (bind (to_handler-Post m k) (λ r kr. returns (next r) kr))

module _ {h n : ℕ} {p : Profile → Type 0} (rt : Runtime) (sound : IsSound rt p) (m : Machine)
    (k : Kept h n p m) where
  pub raise_notrace_instr-Post : Post h n p (Ends h n p) (raise_notrace_instr rt m)
  unfolding raise_notrace_instr
  raise_notrace_instr-Post =
      raise_notrace-Post rt sound (check_trap_barrier rt m) (barrier-Kept rt sound m k)

  pub reraise_instr-Post : Post h n p (Ends h n p) (reraise_instr rt m)
  unfolding reraise_instr
  reraise_instr-Post =
      let b = check_trap_barrier rt m in
      raise_notrace-Post rt sound (stash rt true b)
        (stash-Kept rt sound b (barrier-Kept rt sound m k) true)

  pub raise_instr-Post : Post h n p (Ends h n p) (raise_instr rt m)
  unfolding raise_instr
  raise_instr-Post =
      let b = check_trap_barrier rt m in
      raise_notrace-Post rt sound (stash rt false b)
        (stash-Kept rt sound b (barrier-Kept rt sound m k) false)

  pub landing-Post : (exn : Value) → Live m exn → Post h n p (Ends h n p) (landing rt exn m)
  unfolding landing
  landing-Post exn l =
      let r = record m { accu = exn } in
      let b = check_trap_barrier rt r in
      let kb = barrier-Kept rt sound r (with_accu m k exn l) in
      raise_notrace-Post rt sound (if b.backtrace_active then rt.stash_backtrace false b else b)
        (if_both (Kept h n p) b.backtrace_active (sound.stash_backtrace h n false b kb) kb)

  -- The call of a primitive, with what it finds on the stack taken off afterwards.
  called-Post :
      (prim nargs pc extra : ℕ) (args : List Value)
      → AllLive m args
      → Post h n p (Kept h n p) (
          rt.primitive prim args (setup_for_c_call m) >>= λ q.
          (restore_after_c_call q.1 >>= λ m₁.
          pop_words nargs m₁ >>= λ m₂. ok (record m₂ { pc = pc; extra_args = extra; accu = q.0 })))
  called-Post prim nargs pc extra args la =
      bind (sound.primitive h n prim args (setup_for_c_call m) (setup-Kept m k) la)
        (λ q kq. returned-Post q.0 q.1 kq.0 kq.1)
    where
      returned-Post :
          (v : Value) (r : Machine)
          → Live r v
          → Kept h n p r
          → Post h n p (Kept h n p) (
              restore_after_c_call r >>= λ m₁.
              pop_words nargs m₁ >>= λ m₂. ok (record m₂ { pc = pc; extra_args = extra; accu = v }))
      returned-Post v r lv kr = own r kr (
          bind (restore-Post r (Kept-refl r kr)) (λ m₁ k₁.
            bind (pop_words-Post m₁ k₁ nargs) (λ m₂ k₂. returns _ (
              with_accu (record m₂ { pc = pc; extra_args = extra }) k₂ v
                (Live-later r m₂ v k₂.1 k₂.2 lv)))))

module _ {h n : ℕ} {p : Profile → Type 0} (rt : Runtime) (sound : IsSound rt p) (m : Machine)
    (k : Kept h n p m) where
  pub c_call-Post : (nargs : ℕ) → Post h n p (Kept h n p) (c_call rt nargs m)
  unfolding c_call
  c_call-Post nargs = bind (operand-Post m) (λ prim _.
      bind (take-Post nargs m.stack k.0.1) (λ args la.
        called-Post rt sound m k prim nargs (m.pc + 1) m.extra_args (m.accu ∷ args) (k.0.2, la)))

  pub c_calln-Post : Post h n p (Kept h n p) (c_calln rt m)
  unfolding c_calln
  c_calln-Post = bind (fetch-Post m k) (λ q kq.
      let m₂ = push q.1.accu q.1 in
      let k₂ = push-Kept q.1 kq q.1.accu kq.0.2 in
      bind (operand-Post m₂) (λ prim _.
        bind (take-Post q.0 m₂.stack k₂.0.1)
          (λ args la. called-Post rt sound m₂ k₂ prim q.0 (m₂.pc + 1) m.extra_args args la)))
