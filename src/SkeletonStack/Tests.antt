-- ===== src/SkeletonStack/Tests.antt =====
-- A full stack of stack-skeleton.c.
use cc_implementation.Prelude.{◌≡◌, ◌↔◌, refl, arith, false, none, replicate}
use cc_implementation.SkeletonStack.{State, max_size, isfull, push}
use cc_implementation.SkeletonStack.Laws.{IsValid, push-overflows}

abbrev full_stack : State
full_stack = record { stack = replicate 256 5; depth = 256 }

full_stack-IsValid : IsValid full_stack
full_stack-IsValid = record { storage = refl; within = omega arith }

push-overflows_example :
    (isfull full_stack ≡ false) × ((push 3 full_stack ≡ none) ↔ (full_stack.depth ≡ max_size))
push-overflows_example = push-overflows 3 full_stack full_stack-IsValid
