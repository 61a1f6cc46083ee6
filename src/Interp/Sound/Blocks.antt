-- ===== src/Interp/Sound/Blocks.antt =====
-- Closures, blocks, their fields, arrays and strings keep every word live.
use cc_implementation.Prelude.{ℕ, zero, suc, ◌+◌, ◌-◌, ◌*◌, ◌/◌, ◌%◌, List, [], ◌∷◌, get_elem?}
use cc_implementation.Profile.{Profile}
use cc_implementation.Word.{add64, sext32}
use cc_implementation.Interp.Machine.{
  Value, word, ptr, atom, code, fiber, Machine, ok, fault, ◌>>=◌,
}
use cc_implementation.Interp.Memory.{
  val_int, val_unit, skip, new_block, infix_tag, make_header, make_closinfo, pop_words, push,
}
use cc_implementation.Interp.Blocks.{
  offsetclosure_by, infix_fields, infix_pointers, getfield_at, setfield_at, setfloatfield,
  vectlength, getvectitem, setvectitem, byte_of, with_byte, getbyteschar, setbyteschar, double_vals,
  offsetclosure, pushoffsetclosure_by, getfield, setfield, pushoffsetclosure,
}
use cc_implementation.Interp.Sound.{
  Kept, Kept-refl, Kept-trans, own, Live, AllLive, Post, returns, faults, bind, Live-later,
}
use cc_implementation.Interp.Sound.Access.{
  with_accu, operand-Post, pop-Post, pop_words-Post, load-Post, of_option-Post, as_long-Post,
  as_word-Post, fetch-Post, push-Kept,
}
use cc_implementation.Interp.Sound.Store.{store-Post, new_block-Kept, new_block-Live}
use cc_implementation.Interp.Sound.Apply.{wosize_val-Post}

module _ {h n : ℕ} {p : Profile → Type 0} (m : Machine) (k : Kept h n p m) where
  offset_of-Post :
      (i : ℕ) (env : Value)
      → Live m env
      → Post h n p
          (Kept h n p)
          (elim env [ ptr b o ↦ ok (record m { accu = ptr b (add64 o i) }) | _ ↦ fault ])
  offset_of-Post i (ptr b o) l = returns _ (with_accu m k (ptr b (add64 o i)) l)
  offset_of-Post i (word w) l = faults
  offset_of-Post i (atom tag) l = faults
  offset_of-Post i (code pc) l = faults
  offset_of-Post i (fiber j) l = faults

  pub offsetclosure_by-Post : (i : ℕ) → Post h n p (Kept h n p) (offsetclosure_by i m)
  unfolding offsetclosure_by
  offsetclosure_by-Post i = offset_of-Post i m.env k.0.3

  pub getfield_at-Post : (i : ℕ) → Post h n p (Kept h n p) (getfield_at i m)
  unfolding getfield_at
  getfield_at-Post i = bind (load-Post m k m.accu i) (λ v l. returns _ (with_accu m k v l))

  pub setfield_at-Post : (i : ℕ) → Post h n p (Kept h n p) (setfield_at i m)
  unfolding setfield_at
  setfield_at-Post i = bind (pop-Post m k) (λ q kq.
      bind (store-Post q.1 kq.1 q.1.accu i q.0 kq.0)
        (λ r kr. returns _ (with_accu r kr val_unit tt)))

  pub setfloatfield-Post : Post h n p (Kept h n p) (setfloatfield m)
  unfolding setfloatfield
  setfloatfield-Post = bind (operand-Post m) (λ i _. bind (pop-Post m k) (λ q kq.
      bind (load-Post q.1 kq.1 q.0 0) (λ d ld.
        bind (store-Post q.1 kq.1 q.1.accu i d ld)
          (λ r kr. returns _ (with_accu (skip r) kr val_unit tt)))))

  pub vectlength-Post : Post h n p (Kept h n p) (vectlength m)
  unfolding vectlength
  vectlength-Post =
      bind (wosize_val-Post m k m.accu) (λ i _. returns _ (with_accu m k (val_int i) tt))

  pub getvectitem-Post : Post h n p (Kept h n p) (getvectitem m)
  unfolding getvectitem
  getvectitem-Post = bind (pop-Post m k) (λ q kq.
      bind (as_long-Post q.0)
        (λ i _. bind (load-Post q.1 kq.1 q.1.accu i) (λ x l. returns _ (with_accu q.1 kq.1 x l))))

  pub setvectitem-Post : Post h n p (Kept h n p) (setvectitem m)
  unfolding setvectitem
  setvectitem-Post = bind (pop-Post m k) (λ q kq. bind (as_long-Post q.0) (λ i _.
      bind (pop-Post q.1 kq.1) (λ x kx.
        bind (store-Post x.1 kx.1 x.1.accu i x.0 kx.0)
          (λ r kr. returns _ (with_accu r kr val_unit tt)))))

  pub getbyteschar-Post : Post h n p (Kept h n p) (getbyteschar m)
  unfolding getbyteschar
  getbyteschar-Post = bind (pop-Post m k) (λ q kq. bind (as_long-Post q.0) (λ i _.
      bind (load-Post q.1 kq.1 q.1.accu (i / 8)) (λ x _.
        bind (as_word-Post x)
          (λ w _. returns _ (with_accu q.1 kq.1 (val_int (byte_of w (i % 8))) tt)))))

  pub setbyteschar-Post : Post h n p (Kept h n p) (setbyteschar m)
  unfolding setbyteschar
  setbyteschar-Post = bind (pop-Post m k) (λ q kq. bind (as_long-Post q.0) (λ i _.
      bind (pop-Post q.1 kq.1) (λ c kc. bind (as_long-Post c.0) (λ b _.
        bind (load-Post c.1 kc.1 c.1.accu (i / 8)) (λ x _. bind (as_word-Post x) (λ w _.
          bind (store-Post c.1 kc.1 c.1.accu (i / 8) (word (with_byte w (i % 8) (b % 256))) tt)
            (λ r kr. returns _ (with_accu r kr val_unit tt))))))))

  pub infix_fields-Post : (i j envofs : ℕ) → Post h n p (AllLive m) (infix_fields i j envofs m)
  unfolding infix_fields
  infix_fields-Post i zero envofs = returns [] tt
  infix_fields-Post i (suc j) envofs = bind (of_option-Post (get_elem? m.code (m.pc + i))) (λ w _.
      bind (infix_fields-Post (i + 1) j (envofs - 3)) (λ fields l.
        returns
          (word (make_header (i * 3) infix_tag)
            ∷ (code (add64 m.pc (sext32 w)) ∷ (word (make_closinfo 0 (envofs - 3)) ∷ fields)))
          (tt, (tt, (tt, l)))))

  pub infix_pointers-Live :
      (b i j : ℕ) (s : List Value)
      → Live m (ptr b 0)
      → AllLive m s
      → AllLive m (infix_pointers b i j s)
  unfolding infix_pointers
  infix_pointers-Live b i zero s lb l = l
  infix_pointers-Live b i (suc j) s lb l =
      infix_pointers-Live b (i + 1) j (ptr b (i * 3) ∷ s) lb (lb, l)

  pub double_vals-Post : (vs : List Value) → Post h n p (AllLive m) (double_vals m vs)
  unfolding double_vals
  double_vals-Post [] = returns [] tt
  double_vals-Post (v ∷ vs) =
      bind (load-Post m k v 0)
        (λ d ld. bind (double_vals-Post vs) (λ ds l. returns (d ∷ ds) (ld, l)))

  -- The new block in the accumulator, after some words were popped and the code pointer has moved.
  pub allocated-Post :
      (tag nargs pc : ℕ) (fields : List Value)
      → AllLive m fields
      → Post h n p (Kept h n p) (
          pop_words nargs (record (new_block m tag fields).1 { pc = pc }) >>= λ r.
          ok (record r { accu = (new_block m tag fields).0 }))
  allocated-Post tag nargs pc fields l =
      let r = record (new_block m tag fields).1 { pc = pc } in
      let kr = Kept-trans m r k (new_block-Kept m (Kept-refl m k) tag fields l) in
      own r kr (
        bind (pop_words-Post r (Kept-refl r kr) nargs) (λ s ks. returns _ (
          with_accu s ks (new_block m tag fields).0
            (Live-later r s (new_block m tag fields).0 ks.1 ks.2 (new_block-Live m k tag fields)))))

module _ {h n : ℕ} {p : Profile → Type 0} (m : Machine) (k : Kept h n p m) where
  pub offsetclosure-Post : Post h n p (Kept h n p) (offsetclosure m)
  unfolding offsetclosure
  offsetclosure-Post = bind (fetch-Post m k) (λ q kq. offsetclosure_by-Post q.1 kq q.0)

  pub pushoffsetclosure_by-Post : (i : ℕ) → Post h n p (Kept h n p) (pushoffsetclosure_by i m)
  unfolding pushoffsetclosure_by
  pushoffsetclosure_by-Post i = offsetclosure_by-Post (push m.accu m) (push-Kept m k m.accu k.0.2) i

  pub getfield-Post : Post h n p (Kept h n p) (getfield m)
  unfolding getfield
  getfield-Post = bind (fetch-Post m k) (λ q kq. getfield_at-Post q.1 kq q.0)

  pub setfield-Post : Post h n p (Kept h n p) (setfield m)
  unfolding setfield
  setfield-Post = bind (fetch-Post m k) (λ q kq. setfield_at-Post q.1 kq q.0)

pub pushoffsetclosure-Post :
    {h n : ℕ} {p : Profile → Type 0} (m : Machine)
    → Kept h n p m
    → Post h n p (Kept h n p) (pushoffsetclosure m)
unfolding pushoffsetclosure
pushoffsetclosure-Post m k = offsetclosure-Post (push m.accu m) (push-Kept m k m.accu k.0.2)
