-- ===== src/Interp/Sound/Access.antt =====
-- Access to the stack, to blocks and to other stacks keeps every word live.
use cc_implementation.Prelude.{
  ◌≤◌, ℕ, zero, suc, ◌+◌, List, [], ◌∷◌, ◌++◌, Option, none, some, get_elem?, get_or, set, length,
  arith,
}
use cc_implementation.Profile.{Profile}
use cc_implementation.Interp.Machine.{
  Fiber, ◌>>=◌, Value, word, ptr, atom, code, fiber, Machine, ok,
}
use cc_implementation.Interp.Memory.{
  of_option, slot, drop, take, write, load, as_code, as_long, as_word, code_val, operand, push,
  fetch, pop_words, pop, skip,
}
use cc_implementation.Interp.Sound.{
  ParentIsLive, Live-later, AllLive-later, All, Live, Post, returns, faults, bind, Kept, AllLive,
  SlotIsLive,
}

module _ {ℓ κ} {A : Type ℓ} {P : A → Type κ} {h n : ℕ} {p : Profile → Type 0} where
  pub get_elem?-Post : (xs : List A) (i : ℕ) → All P xs → Post h n p P (of_option (get_elem? xs i))
  get_elem?-Post [] i l = faults
  get_elem?-Post (x ∷ xs) zero l = returns x l.0
  get_elem?-Post (x ∷ xs) (suc i) l = get_elem?-Post xs i l.1

  pub drop-Post : (k : ℕ) (xs : List A) → All P xs → Post h n p (All P) (drop k xs)
  drop-Post zero xs l = returns xs l
  drop-Post (suc k) [] l = faults
  drop-Post (suc k) (x ∷ xs) l = drop-Post k xs l.1

  pub take-Post : (k : ℕ) (xs : List A) → All P xs → Post h n p (All P) (take k xs)
  take-Post zero xs l = returns [] tt
  take-Post (suc k) [] l = faults
  take-Post (suc k) (x ∷ xs) l = bind (take-Post k xs l.1) (λ ys q. returns (x ∷ ys) (l.0, q))

  pub write-Post :
      (xs : List A) (i : ℕ) (a : A) → P a → All P xs → Post h n p (All P) (write xs i a)
  write-Post [] i a pa l = faults
  write-Post (x ∷ xs) zero a pa l = returns (a ∷ xs) (pa, l.1)
  write-Post (x ∷ xs) (suc i) a pa l =
      bind (write-Post xs i a pa l.1) (λ ys q. returns (x ∷ ys) (l.0, q))

pub All-set {ℓ κ} :
    {A : Type ℓ} (P : A → Type κ) (xs : List A) (i : ℕ) (a : A)
    → P a
    → All P xs
    → All P (set xs i a)
All-set P [] i a pa p = tt
All-set P (x ∷ xs) zero a pa p = (pa, p.1)
All-set P (x ∷ xs) (suc i) a pa p = (p.0, All-set P xs i a pa p.1)

pub All-append {ℓ κ} :
    {A : Type ℓ} (P : A → Type κ) (xs ys : List A) → All P xs → All P ys → All P (xs ++ ys)
All-append P [] ys p q = q
All-append P (x ∷ xs) ys p q = (p.0, All-append P xs ys p.1 q)

pub get_or-All {ℓ κ} :
    {A : Type ℓ} (P : A → Type κ) (xs : List A) (i : ℕ) (d : A) → All P xs → P d → P (get_or xs i d)
get_or-All P [] i d l ld = ld
get_or-All P (x ∷ xs) zero d l ld = l.0
get_or-All P (x ∷ xs) (suc i) d l ld = get_or-All P xs i d l.1 ld

-- A stack is live in a larger store.
pub SlotIsLive-later :
    (m r : Machine) (f : Option Fiber)
    → length m.heap ≤ length r.heap
    → length m.fibers ≤ length r.fibers
    → SlotIsLive (length m.heap) (length m.fibers) f
    → SlotIsLive (length r.heap) (length r.fibers) f
SlotIsLive-later m r none hk nj l = tt
SlotIsLive-later m r (some f) hk nj l = record {
  saved = AllLive-later m r f.saved hk nj l.saved;
  parent = parent_later f.parent l.parent;
  handle_value = Live-later m r f.handle_value hk nj l.handle_value;
  handle_exn = Live-later m r f.handle_exn hk nj l.handle_exn;
  handle_effect = Live-later m r f.handle_effect hk nj l.handle_effect;
}
  where
    parent_later :
        (q : Option ℕ) → ParentIsLive (length m.fibers) q → ParentIsLive (length r.fibers) q
    parent_later none lq = tt
    parent_later (some j) lq = omega arith

module _ {h n : ℕ} {p : Profile → Type 0} where
  -- A number, or any other result that holds no word.
  pub of_option-Post {ℓ} :
      {A : Type ℓ} (o : Option A) → Post h n p (λ (_ : A). Unit {0}) (of_option o)
  of_option-Post none = faults
  of_option-Post (some a) = returns a tt

  pub write_any-Post {ℓ} :
      {A : Type ℓ} (xs : List A) (i : ℕ) (a : A)
      → Post h n p (λ (_ : List A). Unit {0}) (write xs i a)
  write_any-Post [] i a = faults
  write_any-Post (x ∷ xs) zero a = returns _ tt
  write_any-Post (x ∷ xs) (suc i) a = bind (write_any-Post xs i a) (λ ys _. returns _ tt)

  pub operand-Post : (m : Machine) → Post h n p (λ (_ : ℕ). Unit {0}) (operand m)
  operand-Post m = bind (of_option-Post (get_elem? m.code m.pc)) (λ w _. returns _ tt)

  pub as_code-Post : (v : Value) → Post h n p (λ (_ : ℕ). Unit {0}) (as_code v)
  as_code-Post (code pc) = returns pc tt
  as_code-Post (word w) = faults
  as_code-Post (ptr b o) = faults
  as_code-Post (atom tag) = faults
  as_code-Post (fiber i) = faults

  pub as_long-Post : (v : Value) → Post h n p (λ (_ : ℕ). Unit {0}) (as_long v)
  as_long-Post (word w) = returns _ tt
  as_long-Post (code pc) = faults
  as_long-Post (ptr b o) = faults
  as_long-Post (atom tag) = faults
  as_long-Post (fiber i) = faults

  pub as_word-Post : (v : Value) → Post h n p (λ (_ : ℕ). Unit {0}) (as_word v)
  as_word-Post (word w) = returns w tt
  as_word-Post (code pc) = faults
  as_word-Post (ptr b o) = faults
  as_word-Post (atom tag) = faults
  as_word-Post (fiber i) = faults

  module _ (m : Machine) (k : Kept h n p m) where
    pub slot-Post : (i : ℕ) → Post h n p (Live m) (slot m i)
    slot-Post i = get_elem?-Post m.stack i k.0.1

    pub load-Post : (v : Value) (i : ℕ) → Post h n p (Live m) (load m v i)
    load-Post (ptr b o) i =
        bind (get_elem?-Post m.heap b k.0.0.0) (λ block l. get_elem?-Post block.fields (o + i) l)
    load-Post (word w) i = faults
    load-Post (atom tag) i = faults
    load-Post (code pc) i = faults
    load-Post (fiber j) i = faults

    pub code_val-Post : (v : Value) → Post h n p (λ (_ : ℕ). Unit {0}) (code_val m v)
    code_val-Post v = bind (load-Post v 0) (λ w _. as_code-Post w)

    -- New registers and a new stack.
    pub registers :
        (stack : List Value) (accu env : Value)
        → AllLive m stack
        → Live m accu
        → Live m env
        → Kept h n p (record m { stack = stack; accu = accu; env = env })
    registers stack accu env ls la le = ((k.0.0, ls, la, le, k.0.4), k.1, k.2, k.3)

    pub with_accu : (accu : Value) → Live m accu → Kept h n p (record m { accu = accu })
    with_accu accu la = registers m.stack accu m.env k.0.1 la k.0.3

    pub push-Kept : (v : Value) → Live m v → Kept h n p (push v m)
    push-Kept v l = registers (v ∷ m.stack) m.accu m.env (l, k.0.1) k.0.2 k.0.3

    pub fetch-Post : Post h n p (λ (q : ℕ × Machine). Kept h n p q.1) (fetch m)
    fetch-Post = bind (operand-Post m) (λ i _. returns (i, skip m) k)

    pub pop_words-Post : (i : ℕ) → Post h n p (Kept h n p) (pop_words i m)
    pop_words-Post i =
        bind (drop-Post i m.stack k.0.1)
          (λ s l. returns (record m { stack = s }) (registers s m.accu m.env l k.0.2 k.0.3))

    popped :
        (s : List Value)
        → AllLive m s
        → Post h n p
            (λ (q : Value × Machine). Live q.1 q.0 × Kept h n p q.1)
            (of_option (get_elem? s 0) >>= λ v.
              (drop 1 s >>= λ s'. ok (record m { stack = s' })) >>= λ m'. ok (v, m'))
    popped [] l = faults
    popped (v ∷ s) l =
        returns (v, record m { stack = s }) (l.0, registers s m.accu m.env l.1 k.0.2 k.0.3)

    pub pop-Post : Post h n p (λ (q : Value × Machine). Live q.1 q.0 × Kept h n p q.1) (pop m)
    pop-Post = popped m.stack k.0.1
