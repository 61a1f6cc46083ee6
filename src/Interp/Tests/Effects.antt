-- ===== src/Interp/Tests/Effects.antt =====
-- An effect that is performed, and resumed.
use cc_implementation.Prelude.{◌≡◌, refl, arith, [], ◌∷◌, none, some, get_elem?}
use cc_implementation.Interp.Machine.{word, code, ptr, fiber, Fiber, Machine, ok, next}
use cc_implementation.Interp.Effects.{perform, do_resume}
use cc_implementation.Interp.Effects.Continuations.{
  suspended, resumed, waiting_words, performed, perform-suspended, do_resume-suspended,
}
use cc_implementation.Interp.Tests.{quiet, idle}

-- The stack of an effect handler, whose code is at 3.
abbrev handled : Fiber
handled = record {
  words = 1024;
  saved = [];
  parent = some 1;
  handle_value = word 1;
  handle_exn = word 1;
  handle_effect = ptr 0 0;
}

-- Its parent, which waits with one word.
abbrev handling : Fiber
handling = record handled { saved = waiting_words 0 0 (word 9 ∷ []); parent = none }

-- After PERFORM was read, with the effect in the accumulator.
abbrev performing : Machine
performing = record idle {
  pc = 21;
  stack = word 7 ∷ [];
  accu = word 5;
  trap_sp_off = 0;
  fibers = some handled ∷ some handling ∷ [];
  heap = record { tag = 247; fields = code 3 ∷ word 5 ∷ [] } ∷ [];
}

-- The handler.
abbrev in_handler : Machine
in_handler = performed performing handled 1 3 0 0 (word 9 ∷ [])

perform-suspended_example :
    (perform quiet performing ≡ ok (next in_handler))
    × (get_elem? in_handler.fibers 0 ≡ some (some (suspended performing handled)))
perform-suspended_example =
    perform-suspended quiet performing handled handling 1 3 0 0 (word 9 ∷ []) refl refl
      (omega arith) refl refl (omega arith) (omega arith) refl
      (record { no_signal = refl; roomy = refl })

-- The handler resumes the stack with the number 8.
abbrev resuming : Machine
resuming = record in_handler { pc = 30; stack = word 11 ∷ []; accu = fiber 0 }

do_resume-suspended_example :
    do_resume quiet (ptr 0 0) (word 17) resuming
    ≡ ok (next (resumed performing resuming handled handling 0 3 (ptr 0 0) (word 17)))
do_resume-suspended_example =
    do_resume-suspended performing resuming handled handling 0 3 (ptr 0 0) (word 17) refl refl
      (omega arith) refl (omega arith) quiet refl (record { no_signal = refl; roomy = refl })
