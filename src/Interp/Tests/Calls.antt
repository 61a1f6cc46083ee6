-- ===== src/Interp/Tests/Calls.antt =====
-- A call, its return, and a partial application.
use cc_implementation.Prelude.{◌≡◌, refl, true, arith, done, [], ◌∷◌, ◌++◌, replicate}
use cc_implementation.Profile.{Profile, enter, leave, array_alloc_op_counts}
use cc_implementation.HashTable.{
  probe, home, hash_key, next_index, ht_get, ht_set, store, ht_set_entry, null_entry,
}
use cc_implementation.FuncStack.{is_empty, is_full, peek, func_stack_push}
use cc_implementation.Interp.Machine.{word, atom, code, ptr, Machine, ok}
use cc_implementation.Interp.Memory.{code_val, val_int}
use cc_implementation.Interp.Apply.{apply_to, count_call, return_instr, grab, do_return, restart}
use cc_implementation.Interp.Control.{check_stacks, check_signals}
use cc_implementation.Interp.Apply.Calls.{return_instr-called}
use cc_implementation.Interp.Apply.Returns.{return_instr-apply_to}
use cc_implementation.Interp.Apply.Partial.{kept, grab-restart}
use cc_implementation.Interp.Tests.{quiet, idle, idle_profile}

-- A machine with a closure in the accumulator, whose code is at 3, and two words on the stack.
abbrev caller : Machine
caller = record idle {
  pc = 9;
  stack = word 7 ∷ word 21 ∷ [];
  accu = ptr 0 0;
  heap = record { tag = 247; fields = code 3 ∷ word 5 ∷ [] } ∷ [];
}

-- The counters after the call, which finds no array for the function.
abbrev counted : Profile
counted = record idle_profile {
  func_stack = record {
    stack_data = 4108 ∷ 0 ∷ [];
    nr_items = 1;
    max_items = 2;
    cur_size_bytes = 8;
    top = 1;
  };
  table = record {
    entries = replicate 12 null_entry ++ record { key = 4108; value = 1 } ∷ replicate 3 null_entry;
    capacity = 16;
    length = 1;
  };
  arrays = replicate 153 0 ∷ [];
}

-- The machine that APPLY1 leaves.
abbrev inside : Machine
inside = record caller {
  stack = word 7 ∷ code caller.pc ∷ caller.env ∷ val_int caller.extra_args ∷ word 21 ∷ [];
  pc = 3;
  env = caller.accu;
  extra_args = 0;
  profile = counted;
}

calls : apply_to quiet 1 caller ≡ ok inside
unfolding apply_to count_call enter array_alloc_op_counts func_stack_push peek is_empty is_full
    ht_get ht_set store ht_set_entry probe home hash_key next_index check_stacks check_signals
calls = refl

-- The called code has pushed a word, and is at the operand of RETURN.
abbrev returning : Machine
returning = record inside {
  pc = 1;
  accu = word 35;
  stack = word 1 ∷ inside.stack;
  code = 40 ∷ 2 ∷ [];
}

return_instr-called_example :
    return_instr quiet returning
    ≡ ok (record returning {
      pc = 9;
      stack = word 21 ∷ [];
      env = atom 0;
      extra_args = 0;
      profile = leave counted;
    })
return_instr-called_example =
    return_instr-called quiet caller returning (word 1 ∷ word 7 ∷ []) (word 21 ∷ []) refl refl refl
      (omega arith)

-- The same end, from the call.
return_instr-apply_to_example :
    (enter true true idle_profile 3 ≡ done counted)
    × (return_instr quiet returning
        ≡ ok (record returning {
          pc = 9;
          stack = word 21 ∷ [];
          env = atom 0;
          extra_args = 0;
          profile = leave counted;
        }))
return_instr-apply_to_example =
    return_instr-apply_to quiet caller inside returning (word 7 ∷ []) (word 21 ∷ []) (word 1 ∷ [])
      (λ x. record { no_signal = refl; roomy = refl }) (λ x. (refl, refl)) refl calls (omega arith)
      refl refl refl

-- A function of three arguments, at the operand of its GRAB with one.
abbrev grabbing : Machine
grabbing = record caller { pc = 5; env = ptr 0 0; code = replicate 5 41 ++ 2 ∷ [] }

-- The closure that it leaves is called with a second argument.
abbrev again : Machine
again = record grabbing {
  pc = 3;
  heap = (kept grabbing (word 7 ∷ []) (word 21 ∷ [])).heap;
  env = ptr 1 0;
  stack = word 13 ∷ [];
}

grab-restart_example :
    (grab quiet grabbing ≡ do_return quiet (kept grabbing (word 7 ∷ []) (word 21 ∷ [])))
    × (code_val again again.env ≡ ok 3)
    × (restart again
        ≡ ok (record again { stack = word 7 ∷ word 13 ∷ []; env = ptr 0 0; extra_args = 1 }))
grab-restart_example =
    grab-restart quiet grabbing again 2 (word 7 ∷ []) (word 21 ∷ []) refl refl (omega arith) refl
      refl refl refl
