-- ===== src/Interp/Machine.antt =====
-- The state of the abstract machine, and the results of its operations.
-- A stack is the list of its words from `sp` up to `Stack_high`, so `sp[n]` is the n-th element and
-- `sp - Stack_high` is minus the length. A block of the heap has an index that never changes, in
-- place of the address that the collector may move. Code is the list of all opcodes and operands
-- (`opcode_t`, by their 32-bit patterns), and a code pointer is a position in it.
use cc_implementation.Prelude.{ℕ, Bool, List, Option}
use cc_implementation.Profile.{Profile}

-- A machine word: an integer or another word with no pointer in it, by its 64-bit pattern; a
-- pointer to a field of a block; an atom; a code pointer; a pointer to another stack, tagged by
-- `Val_ptr`. The last two kinds never equal a word of another kind.
pub data Value : Type 0 where
  word : ℕ → Value
  ptr : ℕ → ℕ → Value
  atom : ℕ → Value
  code : ℕ → Value
  fiber : ℕ → Value

pub record Block : Type 0 where
  pub tag : ℕ
  pub fields : List Value

-- `struct stack_info`: how many words lie between its `Stack_base` and its `Stack_high`, the words
-- that are saved while it does not run, and its handler.
pub record Fiber : Type 0 where
  pub words : ℕ
  pub saved : List Value
  pub parent : Option ℕ
  pub handle_value : Value
  pub handle_exn : Value
  pub handle_effect : Value

-- The registers, the parts of `caml_domain_state` that the interpreter uses, its local variables
-- that outlive one instruction, and the store. `fibers` has `none` for a freed stack.
pub record Machine : Type 0 where
  pub pc : ℕ
  pub stack : List Value
  pub accu : Value
  pub env : Value
  pub extra_args : ℕ
  pub trap_sp_off : ℕ
  pub trap_barrier_off : ℕ
  pub backtrace_active : Bool
  pub external_raise : ℕ
  pub current_stack : ℕ
  pub fibers : List (Option Fiber)
  pub heap : List Block
  pub global_data : Value
  pub raise_unhandled : Value
  pub code : List ℕ
  pub initial_trap_sp_off : ℕ
  pub initial_stack_words : ℕ
  pub initial_external_raise : ℕ
  pub profile : Profile

-- A result; an exception that C code raises, which lands at the `sigsetjmp` of
-- `caml_interprete`; or an access outside the modelled memory, which is undefined in C, or a failed
-- assertion.
pub data Exec {ℓ} (A : Type ℓ) : Type ℓ where
  ok : A → Exec A
  raised : Value → Machine → Exec A
  fault : Exec A

infixl 5 ◌>>=◌
abbrev pub ◌>>=◌ {ℓ κ} : {A : Type ℓ} {B : Type κ} → Exec A → (A → Exec B) → Exec B
ok a >>= f = f a
raised v m >>= f = raised v m
fault >>= f = fault

-- How an instruction ends: by `Next`, or by a `return` of `caml_interprete`, with a value or with
-- an exception (`Make_exception_result`).
pub data Signal : Type 0 where
  next : Machine → Signal
  returned : Value → Machine → Signal
  uncaught : Value → Machine → Signal
