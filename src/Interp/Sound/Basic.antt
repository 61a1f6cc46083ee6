-- ===== src/Interp/Sound/Basic.antt =====
-- The instructions on the stack, the globals, the atoms, the branches and the constants.
use cc_implementation.Prelude.{
  ℕ, zero, suc, Bool, true, false, get_elem?, if◌then◌else◌, ltb, ◌==◌, ◌%◌, ◌+◌, ◌/◌, ◌^◌,
}
use cc_implementation.Profile.{Profile}
use cc_implementation.Word.{long_val, sub64}
use cc_implementation.Interp.Machine.{
  Value, word, ptr, atom, code, fiber, Machine, ok, fault, ◌>>=◌,
}
use cc_implementation.Interp.Memory.{push, val_unit, val_int, skip, tag_val}
use cc_implementation.Interp.Sound.{Kept, Post, returns, faults, bind}
use cc_implementation.Interp.Sound.Access.{
  with_accu, push-Kept, registers, fetch-Post, operand-Post, slot-Post, load-Post, pop_words-Post,
  write-Post, of_option-Post, as_word-Post,
}
use cc_implementation.Interp.Sound.Store.{store-Post}
use cc_implementation.Interp.Basic.{
  acc_at, acc, pushacc, pushacc_at, pop_instr, push_accu, assign, envacc_at, envacc, pushenvacc_at,
  pushenvacc, getglobal, pushgetglobal, getglobalfield, pushgetglobalfield, setglobal, atom_of,
  pushatom0, atom_instr, pushatom, const_of, pushconst_of, constint, pushconstint, branch, branchif,
  branchifnot, jump_by, switch_index, switch, boolnot, is_false,
}

-- Whichever way a test goes.
pub if_both {ℓ κ} :
    {A : Type ℓ} {first other : A} (Q : A → Type κ) (test : Bool)
    → Q first
    → Q other
    → Q (if test then first else other)
if_both Q false l r = r
if_both Q true l r = l

module _ {h n : ℕ} {p : Profile → Type 0} where
  module _ (m : Machine) (k : Kept h n p m) where
    pub push_accu-Post : Post h n p (Kept h n p) (push_accu m)
    unfolding push_accu
    push_accu-Post = returns _ (push-Kept m k m.accu k.0.2)

    pub acc_at-Post : (i : ℕ) → Post h n p (Kept h n p) (acc_at i m)
    unfolding acc_at
    acc_at-Post i = bind (slot-Post m k i) (λ v l. returns _ (with_accu m k v l))

    pub pop_instr-Post : Post h n p (Kept h n p) (pop_instr m)
    unfolding pop_instr
    pop_instr-Post = bind (fetch-Post m k) (λ q kq. pop_words-Post q.1 kq q.0)

    pub assign-Post : Post h n p (Kept h n p) (assign m)
    unfolding assign
    assign-Post = bind (fetch-Post m k) (λ q kq.
        bind (write-Post q.1.stack q.0 q.1.accu kq.0.2 kq.0.1)
          (λ s l. returns _ (registers q.1 kq s val_unit q.1.env l tt kq.0.3)))

    pub envacc_at-Post : (i : ℕ) → Post h n p (Kept h n p) (envacc_at i m)
    unfolding envacc_at
    envacc_at-Post i = bind (load-Post m k m.env i) (λ v l. returns _ (with_accu m k v l))

    pub getglobal-Post : Post h n p (Kept h n p) (getglobal m)
    unfolding getglobal
    getglobal-Post = bind (fetch-Post m k) (λ q kq.
        bind (load-Post q.1 kq q.1.global_data q.0) (λ v l. returns _ (with_accu q.1 kq v l)))

    pub setglobal-Post : Post h n p (Kept h n p) (setglobal m)
    unfolding setglobal
    setglobal-Post = bind (fetch-Post m k) (λ q kq.
        bind (store-Post q.1 kq q.1.global_data q.0 q.1.accu kq.0.2)
          (λ r kr. returns _ (with_accu r kr val_unit tt)))

    pub atom_of-Post : (tag : ℕ) → Post h n p (Kept h n p) (atom_of tag m)
    unfolding atom_of
    atom_of-Post tag = returns _ (with_accu m k (atom tag) tt)

    pub const_of-Post : (i : ℕ) → Post h n p (Kept h n p) (const_of i m)
    unfolding const_of
    const_of-Post i = returns _ (with_accu m k (val_int i) tt)

    pub constint-Post : Post h n p (Kept h n p) (constint m)
    unfolding constint
    constint-Post = bind (fetch-Post m k) (λ q kq. returns _ (with_accu q.1 kq (val_int q.0) tt))

    pub branch-Post : Post h n p (Kept h n p) (branch m)
    unfolding branch
    branch-Post = bind (operand-Post m) (λ i _. returns _ k)

    jump_by-Post : (i : ℕ) → Post h n p (Kept h n p) (jump_by i m)
    unfolding jump_by
    jump_by-Post i = bind (of_option-Post (get_elem? m.code (m.pc + i))) (λ w _. returns _ k)

    pub tag_val-Post : (v : Value) → Post h n p (λ (_ : ℕ). Unit {0}) (tag_val m v)
    tag_val-Post (ptr b zero) =
        bind (of_option-Post (get_elem? m.heap b)) (λ block _. returns block.tag tt)
    tag_val-Post (ptr b (suc o)) =
        bind (bind (load-Post m k (ptr b o) 0) (λ v _. as_word-Post v)) (λ w _. returns _ tt)
    tag_val-Post (atom tag) = returns tag tt
    tag_val-Post (word w) = faults
    tag_val-Post (code pc) = faults
    tag_val-Post (fiber i) = faults

    switch_tag-Post :
        (sizes : ℕ) (v : Value)
        → Post h n p
            (λ (_ : ℕ). Unit {0})
            (tag_val m v >>= λ tag.
              if ltb tag (sizes / 2 ^ 16) then ok (sizes % 2 ^ 16 + tag) else fault)
    switch_tag-Post sizes v = bind (tag_val-Post v) (λ tag _.
        if_both (Post h n p (λ (_ : ℕ). Unit {0})) (ltb tag (sizes / 2 ^ 16)) (returns _ tt) faults)

    switch_index-Post :
        (sizes : ℕ) (v : Value) → Post h n p (λ (_ : ℕ). Unit {0}) (switch_index sizes m v)
    unfolding switch_index
    switch_index-Post sizes (word w) =
        if_both (Post h n p (λ (_ : ℕ). Unit {0})) (w % 2 == 0) faults (
          if_both (Post h n p (λ (_ : ℕ). Unit {0})) (ltb (long_val w) (sizes % 2 ^ 16))
            (returns _ tt) faults)
    switch_index-Post sizes (ptr b o) = switch_tag-Post sizes (ptr b o)
    switch_index-Post sizes (atom tag) = switch_tag-Post sizes (atom tag)
    switch_index-Post sizes (code pc) = switch_tag-Post sizes (code pc)
    switch_index-Post sizes (fiber i) = switch_tag-Post sizes (fiber i)

    negated-Post :
        (v : Value)
        → Post h n p
            (Kept h n p)
            (elim v [ word w ↦ ok (record m { accu = word (sub64 4 w) }) | _ ↦ fault ])
    negated-Post (word w) = returns _ (with_accu m k (word (sub64 4 w)) tt)
    negated-Post (ptr b o) = faults
    negated-Post (atom tag) = faults
    negated-Post (code pc) = faults
    negated-Post (fiber i) = faults

    pub boolnot-Post : Post h n p (Kept h n p) (boolnot m)
    unfolding boolnot
    boolnot-Post = negated-Post m.accu

  module _ (m : Machine) (k : Kept h n p m) where
    pub acc-Post : Post h n p (Kept h n p) (acc m)
    unfolding acc
    acc-Post = bind (fetch-Post m k) (λ q kq. acc_at-Post q.1 kq q.0)

    pub pushacc_at-Post : (i : ℕ) → Post h n p (Kept h n p) (pushacc_at i m)
    unfolding pushacc_at
    pushacc_at-Post i = acc_at-Post (push m.accu m) (push-Kept m k m.accu k.0.2) i

    pub envacc-Post : Post h n p (Kept h n p) (envacc m)
    unfolding envacc
    envacc-Post = bind (fetch-Post m k) (λ q kq. envacc_at-Post q.1 kq q.0)

    pub pushenvacc_at-Post : (i : ℕ) → Post h n p (Kept h n p) (pushenvacc_at i m)
    unfolding pushenvacc_at
    pushenvacc_at-Post i = envacc_at-Post (push m.accu m) (push-Kept m k m.accu k.0.2) i

    pub pushgetglobal-Post : Post h n p (Kept h n p) (pushgetglobal m)
    unfolding pushgetglobal
    pushgetglobal-Post = getglobal-Post (push m.accu m) (push-Kept m k m.accu k.0.2)

    pub getglobalfield-Post : Post h n p (Kept h n p) (getglobalfield m)
    unfolding getglobalfield
    getglobalfield-Post = bind (getglobal-Post m k) (λ r kr.
        bind (fetch-Post r kr)
          (λ q kq. bind (load-Post q.1 kq q.1.accu q.0) (λ v l. returns _ (with_accu q.1 kq v l))))

    pub pushatom0-Post : Post h n p (Kept h n p) (pushatom0 m)
    unfolding pushatom0
    pushatom0-Post = atom_of-Post (push m.accu m) (push-Kept m k m.accu k.0.2) 0

    pub atom_instr-Post : Post h n p (Kept h n p) (atom_instr m)
    unfolding atom_instr
    atom_instr-Post = bind (fetch-Post m k) (λ q kq. atom_of-Post q.1 kq q.0)

    pub pushconst_of-Post : (i : ℕ) → Post h n p (Kept h n p) (pushconst_of i m)
    unfolding pushconst_of
    pushconst_of-Post i = const_of-Post (push m.accu m) (push-Kept m k m.accu k.0.2) i

    pub pushconstint-Post : Post h n p (Kept h n p) (pushconstint m)
    unfolding pushconstint
    pushconstint-Post = constint-Post (push m.accu m) (push-Kept m k m.accu k.0.2)

    pub branchif-Post : Post h n p (Kept h n p) (branchif m)
    unfolding branchif
    branchif-Post =
        if_both (Post h n p (Kept h n p)) (is_false m.accu) (returns _ k) (branch-Post m k)

    pub branchifnot-Post : Post h n p (Kept h n p) (branchifnot m)
    unfolding branchifnot
    branchifnot-Post =
        if_both (Post h n p (Kept h n p)) (is_false m.accu) (branch-Post m k) (returns _ k)

    pub switch-Post : Post h n p (Kept h n p) (switch m)
    unfolding switch
    switch-Post = bind (of_option-Post (get_elem? m.code m.pc)) (λ sizes _.
        bind (switch_index-Post (skip m) k sizes m.accu) (λ i _. jump_by-Post (skip m) k i))

  module _ (m : Machine) (k : Kept h n p m) where
    pub pushacc-Post : Post h n p (Kept h n p) (pushacc m)
    unfolding pushacc
    pushacc-Post = acc-Post (push m.accu m) (push-Kept m k m.accu k.0.2)

    pub pushenvacc-Post : Post h n p (Kept h n p) (pushenvacc m)
    unfolding pushenvacc
    pushenvacc-Post = envacc-Post (push m.accu m) (push-Kept m k m.accu k.0.2)

    pub pushgetglobalfield-Post : Post h n p (Kept h n p) (pushgetglobalfield m)
    unfolding pushgetglobalfield
    pushgetglobalfield-Post = getglobalfield-Post (push m.accu m) (push-Kept m k m.accu k.0.2)

    pub pushatom-Post : Post h n p (Kept h n p) (pushatom m)
    unfolding pushatom
    pushatom-Post = atom_instr-Post (push m.accu m) (push-Kept m k m.accu k.0.2)
