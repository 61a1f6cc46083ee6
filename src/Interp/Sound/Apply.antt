-- ===== src/Interp/Sound/Apply.antt =====
-- Function application and return keep every word live.
use cc_implementation.Prelude.{
  ℕ, zero, suc, ◌+◌, ◌-◌, ◌≡◌, refl, List, [], ◌∷◌, ◌++◌, Run, done, died, hangs, ltb, length,
}
use cc_implementation.Profile.{Profile, enter, leave}
use cc_implementation.Word.{sub64, add64, slt64}
use cc_implementation.Interp.Machine.{Value, word, ptr, atom, code, fiber, Machine, ◌>>=◌}
use cc_implementation.Interp.Memory.{
  of_option, val_int, as_code, as_long, pop_words, slot, skip, wosize_val, new_block, closure_tag,
  make_closinfo, as_long, pop_words,
}
use cc_implementation.Interp.Runtime.{Runtime}
use cc_implementation.Interp.Control.{fiber_at, to_parent, check_stacks}
use cc_implementation.Interp.Apply.{
  of_run, push_retaddr, overlap, copied, slide, fields_from, restart, count_call, apply, apply_to,
  appterm, appterm_of, do_return, return_instr, grab,
}
use cc_implementation.Interp.Sound.{
  Kept, Live, AllLive, Post, returns, faults, bind, Kept-refl, Kept-trans, AllLive-later,
}
use cc_implementation.Interp.Sound.Access.{
  registers, fetch-Post, operand-Post, slot-Post, load-Post, drop-Post, take-Post, pop_words-Post,
  as_long-Post, as_word-Post, as_code-Post, of_option-Post, code_val-Post, get_elem?-Post,
  All-append, get_or-All,
}
use cc_implementation.Interp.Sound.Store.{new_block-Kept, new_block-Live}
use cc_implementation.Interp.Sound.Basic.{if_both}
use cc_implementation.Interp.Sound.Runtime.{IsSound, IsKept}
use cc_implementation.Interp.Sound.Frames.{with_stack, fiber_at-Post, to_parent-Post}
use cc_implementation.Interp.Sound.Control.{check_stacks-Post, poll_gc-Post}

module _ {h n : ℕ} {p : Profile → Type 0} (m : Machine) (k : Kept h n p m) where
  -- Counters that the bookkeeping has changed.
  pub with_profile : (q : Profile) → p q → Kept h n p (record m { profile = q })
  with_profile q pq = (k.0, k.1, k.2, record { holds = pq })

  pub of_run-Post :
      (e : Run Profile) → ((q : Profile) → e ≡ done q → p q) → Post h n p (Kept h n p) (of_run m e)
  of_run-Post (done q) holds = returns _ (with_profile q (holds q refl))
  of_run-Post died holds = faults
  of_run-Post hangs holds = faults

  pub push_retaddr-Post : Post h n p (Kept h n p) (push_retaddr m)
  unfolding push_retaddr
  push_retaddr-Post = bind (operand-Post m) (λ i _. returns _ (
      with_stack (skip m) k (code (add64 m.pc i) ∷ m.env ∷ val_int m.extra_args ∷ m.stack)
        (tt, (k.0.3, (tt, k.0.1)))))

  overlap-AllLive : (d : ℕ) (vs : List Value) → AllLive m vs → AllLive m (overlap d vs)
  unfolding overlap
  overlap-AllLive d [] l = tt
  overlap-AllLive d (x ∷ xs) l =
      let ls = overlap-AllLive d xs l.1 in (get_or-All (Live m) (overlap d xs) (d - 1) x ls l.0, ls)

  pub copied-AllLive :
      (slotsize : ℕ) (vs : List Value) → AllLive m vs → AllLive m (copied slotsize vs)
  unfolding copied
  copied-AllLive slotsize vs l =
      if_both (AllLive m) (ltb slotsize (length vs)) (overlap-AllLive (length vs - slotsize) vs l) l

  pub slide-Post :
      (args : List Value) (slotsize extra : ℕ)
      → AllLive m args
      → Post h n p (Kept h n p) (slide args slotsize extra m)
  unfolding slide
  slide-Post args slotsize extra la = bind (drop-Post slotsize m.stack k.0.1) (λ rest lr.
      bind (code_val-Post m k m.accu) (λ pc _. returns _ (
        registers (record m { pc = pc; extra_args = extra }) k (args ++ rest) m.accu m.accu
          (All-append (Live m) args rest la lr) k.0.2 k.0.2)))

  pub fields_from-Post : (i j : ℕ) → Post h n p (AllLive m) (fields_from i j m)
  unfolding fields_from
  fields_from-Post i zero = returns [] tt
  fields_from-Post i (suc j) =
      bind (load-Post m k m.env i)
        (λ v l. bind (fields_from-Post (i + 1) j) (λ vs ls. returns (v ∷ vs) (l, ls)))

  pub wosize_val-Post : (v : Value) → Post h n p (λ (_ : ℕ). Unit {0}) (wosize_val m v)
  wosize_val-Post (ptr b zero) = bind (get_elem?-Post m.heap b k.0.0.0) (λ block _. returns _ tt)
  wosize_val-Post (ptr b (suc o)) =
      bind (bind (load-Post m k (ptr b o) 0) (λ v _. as_word-Post v)) (λ w _. returns _ tt)
  wosize_val-Post (atom tag) = returns 0 tt
  wosize_val-Post (word w) = faults
  wosize_val-Post (code pc) = faults
  wosize_val-Post (fiber i) = faults

  pub restart-Post : Post h n p (Kept h n p) (restart m)
  unfolding restart
  restart-Post = bind (wosize_val-Post m.env) (λ size _.
      bind (fields_from-Post 3 (size - 3)) (λ kept lk.
        bind (drop-Post (3 - size) m.stack k.0.1) (λ s ls. bind (load-Post m k m.env 2) (λ env le.
          returns _ (
            registers (record m { extra_args = add64 m.extra_args (sub64 size 3) }) k (kept ++ s)
              m.accu env (All-append (Live m) kept s lk ls) k.0.2 le)))))

module _ {h n : ℕ} {p : Profile → Type 0} (rt : Runtime) (sound : IsSound rt p) (m : Machine)
    (k : Kept h n p m) where
  pub count_call-Post : IsKept rt p → Post h n p (Kept h n p) (count_call rt m)
  unfolding count_call
  count_call-Post books =
      of_run-Post m k (enter (rt.malloc_granted m) (rt.calloc_granted m) m.profile m.pc)
        (λ q e. books.enters m m.profile m.pc q k.3.holds e)

  returned_to-Post :
      (v : Value)
      → Post h n p (Kept h n p) (
          as_code v >>= λ pc. slot m 1 >>= λ env. slot m 2 >>= λ args. as_long args >>= λ extra.
          pop_words 3 (record m { pc = pc; env = env; extra_args = extra }))
  returned_to-Post v = bind (as_code-Post v) (λ pc _. bind (slot-Post m k 1) (λ env le.
      bind (slot-Post m k 2) (λ args _. bind (as_long-Post args) (λ extra _.
        pop_words-Post (record m { pc = pc; env = env; extra_args = extra })
          (registers m k m.stack m.accu env k.0.1 k.0.2 le) 3))))

  -- The end of a stack, and a return within one.
  ended-Post :
      (s : List Value)
      → Post h n p (Kept h n p) (elim s [
        | [] ↦ fiber_at m m.current_stack >>= λ self. of_option self.parent >>= λ parent.
            to_parent m parent self.handle_value >>= check_stacks rt
        | v ∷ s ↦ as_code v >>= λ pc. slot m 1 >>= λ env. slot m 2 >>= λ args.
            as_long args >>= λ extra.
            pop_words 3 (record m { pc = pc; env = env; extra_args = extra })
      ])
  ended-Post [] = bind (fiber_at-Post m k m.current_stack) (λ self ls.
      bind (of_option-Post self.parent) (λ parent _.
        bind (to_parent-Post m k parent self.handle_value ls.0.handle_value)
          (λ r kr. check_stacks-Post rt sound r kr)))
  ended-Post (v ∷ s) = returned_to-Post v

  pub do_return-Post : Post h n p (Kept h n p) (do_return rt m)
  unfolding do_return
  do_return-Post = ended-Post m.stack

module _ {h n : ℕ} {p : Profile → Type 0} (rt : Runtime) (sound : IsSound rt p) (m : Machine)
    (k : Kept h n p m) where
  pub apply-Post : IsKept rt p → Post h n p (Kept h n p) (apply rt m)
  unfolding apply
  apply-Post books = bind (operand-Post m) (λ i _. bind (code_val-Post m k m.accu) (λ pc _.
      let m₁ = record m { extra_args = sub64 i 1; pc = pc; env = m.accu } in
      let k₁ = registers m k m.stack m.accu m.accu k.0.1 k.0.2 k.0.2 in
      bind (count_call-Post rt sound m₁ k₁ books) (λ r kr. check_stacks-Post rt sound r kr)))

  pub apply_to-Post : IsKept rt p → (nargs : ℕ) → Post h n p (Kept h n p) (apply_to rt nargs m)
  unfolding apply_to
  apply_to-Post books nargs = bind (take-Post nargs m.stack k.0.1) (λ args la.
      bind (drop-Post nargs m.stack k.0.1) (λ rest lr. bind (code_val-Post m k m.accu) (λ pc _.
        let s = args ++ (code m.pc ∷ m.env ∷ val_int m.extra_args ∷ rest) in
        let m₁ = record m { stack = s; pc = pc; env = m.accu; extra_args = nargs - 1 } in
        let k₁ =
          registers m k s m.accu m.accu
            (All-append (Live m) args (code m.pc ∷ m.env ∷ val_int m.extra_args ∷ rest) la
              (tt, (k.0.3, (tt, lr))))
            k.0.2 k.0.2 in
        bind (count_call-Post rt sound m₁ k₁ books) (λ r kr. check_stacks-Post rt sound r kr))))

  pub appterm-Post : Post h n p (Kept h n p) (appterm rt m)
  unfolding appterm
  appterm-Post = bind (fetch-Post m k) (λ q kq. bind (operand-Post q.1) (λ size _.
      bind (take-Post q.0 q.1.stack kq.0.1) (λ args la.
        bind
          (slide-Post q.1 kq (copied size args) size (add64 q.1.extra_args (sub64 q.0 1))
            (copied-AllLive q.1 kq size args la))
          (λ r kr. check_stacks-Post rt sound r kr))))

  pub appterm_of-Post : (nargs : ℕ) → Post h n p (Kept h n p) (appterm_of rt nargs m)
  unfolding appterm_of
  appterm_of-Post nargs = bind (operand-Post m) (λ size _.
      bind (take-Post nargs m.stack k.0.1) (λ args la.
        bind (slide-Post m k args size (add64 m.extra_args (nargs - 1)) la)
          (λ r kr. check_stacks-Post rt sound r kr)))

  pub return_instr-Post : IsKept rt p → Post h n p (Kept h n p) (return_instr rt m)
  unfolding return_instr
  return_instr-Post books = bind (fetch-Post m k) (λ q kq. bind (pop_words-Post q.1 kq q.0) (λ r kr.
      let m₃ = record r { profile = leave r.profile } in
      let k₃ = with_profile r kr (leave r.profile) (books.leaves r.profile kr.3.holds) in
      if_both (Post h n p (Kept h n p)) (slt64 0 r.extra_args)
        (bind (code_val-Post m₃ k₃ r.accu) (λ pc _. returns _ (
          registers (record m₃ { extra_args = sub64 r.extra_args 1; pc = pc }) k₃ r.stack r.accu
            r.accu kr.0.1 kr.0.2 kr.0.2)))
        (do_return-Post rt sound m₃ k₃)))

  pub grab-Post : Post h n p (Kept h n p) (grab rt m)
  unfolding grab
  grab-Post = bind (fetch-Post m k) (λ q kq.
      if_both (Post h n p (Kept h n p)) (slt64 q.1.extra_args q.0)
        (bind (poll_gc-Post rt sound q.1 kq) (λ r kr.
          bind (take-Post (1 + r.extra_args) r.stack kr.0.1) (λ args la.
            bind (drop-Post (1 + r.extra_args) r.stack kr.0.1) (λ rest lr.
              let fields = code (r.pc - 3) ∷ word (make_closinfo 0 2) ∷ r.env ∷ args in
              let m₃ = (new_block r closure_tag fields).1 in
              let k₃ =
                new_block-Kept r (Kept-refl r kr) closure_tag fields (tt, (tt, (kr.0.3, la))) in
              do_return-Post rt sound
                (record m₃ { accu = (new_block r closure_tag fields).0; stack = rest })
                (registers m₃ (Kept-trans r m₃ kr k₃) rest (new_block r closure_tag fields).0 m₃.env
                  (AllLive-later r m₃ rest k₃.1 k₃.2 lr) (new_block-Live r kr closure_tag fields)
                  k₃.0.3)))))
        (returns _ kq))
