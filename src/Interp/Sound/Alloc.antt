-- ===== src/Interp/Sound/Alloc.antt =====
-- The instructions that make closures and blocks keep every word live.
use cc_implementation.Prelude.{
  ℕ, ◌+◌, ◌-◌, ◌*◌, List, [], ◌∷◌, ◌++◌, leb, ◌==◌, if◌then◌else◌, length,
}
use cc_implementation.Profile.{Profile}
use cc_implementation.Word.{add64}
use cc_implementation.Interp.Machine.{Value, word, code, Machine, ok, ◌>>=◌}
use cc_implementation.Interp.Memory.{
  push, new_block, closure_tag, double_tag, double_array_tag, max_young_wosize, make_closinfo,
  pop_words,
}
use cc_implementation.Interp.Runtime.{Runtime}
use cc_implementation.Interp.Blocks.{
  infix_pointers, poll_small, closure, closurerec, makeblock_of, makeblock_at, makeblock,
  makefloatblock, getfloatfield,
}
use cc_implementation.Interp.Sound.{
  Kept, Kept-refl, Kept-trans, own, Live-later, Live, AllLive, Post, returns, faults, bind,
}
use cc_implementation.Interp.Sound.Access.{
  with_accu, registers, push-Kept, fetch-Post, operand-Post, pop_words-Post, load-Post, take-Post,
  All-append,
}
use cc_implementation.Interp.Sound.Store.{new_block-Kept, new_block-Live}
use cc_implementation.Interp.Sound.Basic.{if_both}
use cc_implementation.Interp.Sound.Runtime.{IsSound}
use cc_implementation.Interp.Sound.Control.{poll_gc-Post}
use cc_implementation.Interp.Sound.Blocks.{
  infix_fields-Post, infix_pointers-Live, double_vals-Post, allocated-Post,
}

module _ {h n : ℕ} {p : Profile → Type 0} (rt : Runtime) (sound : IsSound rt p) where
  poll_small-Post :
      (wosize : ℕ) (m : Machine) → Kept h n p m → Post h n p (Kept h n p) (poll_small rt wosize m)
  unfolding poll_small
  poll_small-Post wosize m k =
      if_both (Post h n p (Kept h n p)) (leb wosize max_young_wosize) (poll_gc-Post rt sound m k)
        (returns _ k)

  -- CLOSURE and CLOSUREREC push the accumulator if there are variables.
  saved-Kept :
      (nvars : ℕ) (m : Machine)
      → Kept h n p m
      → Kept h n p (if nvars == 0 then m else push m.accu m)
  saved-Kept nvars m k = if_both (Kept h n p) (nvars == 0) k (push-Kept m k m.accu k.0.2)

  pub closure-Post : (m : Machine) → Kept h n p m → Post h n p (Kept h n p) (closure rt m)
  unfolding closure
  closure-Post m k = bind (fetch-Post m k) (λ q kq.
      bind
        (poll_small-Post (q.0 + 2) (if q.0 == 0 then q.1 else push q.1.accu q.1)
          (saved-Kept q.0 q.1 kq))
        (λ r kr. bind (take-Post q.0 r.stack kr.0.1) (λ vars lv. bind (operand-Post r) (λ i _.
          allocated-Post r kr closure_tag q.0 (r.pc + 1)
            (code (add64 r.pc i) ∷ (word (make_closinfo 0 2) ∷ vars)) (tt, (tt, lv))))))

  -- The closures of CLOSUREREC, in the accumulator and on the stack.
  closures-Post :
      (nvars others pc : ℕ) (m : Machine) (fields : List Value)
      → Kept h n p m
      → AllLive m fields
      → Post h n p (Kept h n p) (
          pop_words nvars (new_block m closure_tag fields).1 >>= λ r. ok (record r {
            accu = (new_block m closure_tag fields).0;
            stack =
                infix_pointers
                  (length m.heap)
                  1
                  others
                  ((new_block m closure_tag fields).0 ∷ r.stack);
            pc = pc;
          }))
  closures-Post nvars others pc m fields k l =
      let r = (new_block m closure_tag fields).1 in
      let v = (new_block m closure_tag fields).0 in
      let kr = Kept-trans m r k (new_block-Kept m (Kept-refl m k) closure_tag fields l) in
      own r kr (
        bind (pop_words-Post r (Kept-refl r kr) nvars) (λ s ks.
          let lv = Live-later r s v ks.1 ks.2 (new_block-Live m k closure_tag fields) in
          returns _ (
            registers (record s { pc = pc }) ks
              (infix_pointers (length m.heap) 1 others (v ∷ s.stack)) v s.env
              (infix_pointers-Live s ks (length m.heap) 1 others (v ∷ s.stack) lv (lv, ks.0.1)) lv
              ks.0.3)))

  pub closurerec-Post : (m : Machine) → Kept h n p m → Post h n p (Kept h n p) (closurerec rt m)
  unfolding closurerec
  closurerec-Post m k = bind (fetch-Post m k) (λ f kf. bind (fetch-Post f.1 kf) (λ q kq.
      let envofs = f.0 * 3 - 1 in
      bind
        (if_both (Post h n p (Kept h n p)) (f.0 == 0) faults (
          poll_small-Post (envofs + q.0) (if q.0 == 0 then q.1 else push q.1.accu q.1)
            (saved-Kept q.0 q.1 kq)))
        (λ r kr. bind (take-Post q.0 r.stack kr.0.1) (λ vars lv. bind (operand-Post r) (λ i _.
          bind (infix_fields-Post r kr 1 (f.0 - 1) envofs) (λ others lo.
            closures-Post q.0 (f.0 - 1) (r.pc + f.0) r
              (code (add64 r.pc i) ∷ (word (make_closinfo 0 envofs) ∷ (others ++ vars))) kr
              (tt, (tt, All-append (Live r) others vars lo lv))))))))

  pub makeblock_of-Post :
      (i tag : ℕ) (m : Machine) → Kept h n p m → Post h n p (Kept h n p) (makeblock_of rt i tag m)
  unfolding makeblock_of
  makeblock_of-Post i tag m k = bind (poll_small-Post (i + 1) m k) (λ r kr.
      bind (take-Post i r.stack kr.0.1)
        (λ rest l. allocated-Post r kr tag i r.pc (r.accu ∷ rest) (kr.0.2, l)))

  pub makeblock_at-Post :
      (i : ℕ) (m : Machine) → Kept h n p m → Post h n p (Kept h n p) (makeblock_at rt i m)
  unfolding makeblock_at
  makeblock_at-Post i m k = bind (fetch-Post m k) (λ q kq. makeblock_of-Post i q.0 q.1 kq)

  pub makeblock-Post : (m : Machine) → Kept h n p m → Post h n p (Kept h n p) (makeblock rt m)
  unfolding makeblock
  makeblock-Post m k = bind (fetch-Post m k) (λ f kf. bind (fetch-Post f.1 kf) (λ q kq.
      if_both (Post h n p (Kept h n p)) (f.0 == 0) faults (makeblock_of-Post (f.0 - 1) q.0 q.1 kq)))

  pub makefloatblock-Post :
      (m : Machine) → Kept h n p m → Post h n p (Kept h n p) (makefloatblock rt m)
  unfolding makefloatblock
  makefloatblock-Post m k = bind (fetch-Post m k) (λ q kq.
      bind (if_both (Post h n p (Kept h n p)) (q.0 == 0) faults (poll_small-Post q.0 q.1 kq))
        (λ r kr. bind (load-Post r kr r.accu 0) (λ d ld.
          bind (take-Post (q.0 - 1) r.stack kr.0.1) (λ rest _.
            bind (double_vals-Post r kr rest)
              (λ ds l. allocated-Post r kr double_array_tag (q.0 - 1) r.pc (d ∷ ds) (ld, l))))))

module _ {h n : ℕ} {p : Profile → Type 0} (rt : Runtime) (sound : IsSound rt p) where
  -- The new block of one word that was read before the collector ran.
  boxed-Post :
      (m : Machine) (d : Value)
      → Kept h n p m
      → Live m d
      → Post h n p (Kept h n p) (
          poll_small rt 1 m >>= λ r. ok (record (new_block r double_tag (d ∷ [])).1 {
            accu = (new_block r double_tag (d ∷ [])).0;
          }))
  boxed-Post m d k ld = own m k (
      bind (poll_small-Post rt sound 1 m (Kept-refl m k)) (λ r kr.
        let fields = d ∷ [] in
        let l : AllLive r fields = (Live-later m r d kr.1 kr.2 ld, tt) in
        let b = (new_block r double_tag fields).1 in
        let kb = Kept-trans r b kr (new_block-Kept r (Kept-refl r kr) double_tag fields l) in
        returns _ (
          with_accu b kb (new_block r double_tag fields).0
            (new_block-Live r kr double_tag fields))))

  pub getfloatfield-Post :
      (m : Machine) → Kept h n p m → Post h n p (Kept h n p) (getfloatfield rt m)
  unfolding getfloatfield
  getfloatfield-Post m k =
      bind (fetch-Post m k)
        (λ q kq. bind (load-Post q.1 kq q.1.accu q.0) (λ d ld. boxed-Post q.1 d kq ld))
