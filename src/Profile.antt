-- ===== src/Profile.antt =====
-- The opcode counters of interp.c (`#ifdef DEBUG`): the totals that the dispatch loop keeps, and
-- the arrays per called function, which the hash table finds by the address on the function stack.
-- An array from `malloc` is one more list in `arrays`, and its pointer is its position from 1.
pub mod Laws
pub mod Counts
pub mod Calls
pub mod Start
pub mod History
pub mod Tests
use cc_implementation.Prelude.{
  some, none, ℕ, ◌+◌, ◌-◌, ◌*◌, Bool, List, [], ◌∷◌, ◌++◌, ltb, ◌==◌, if◌then◌else◌, get_or, set,
  length, replicate, Run, done, died, ◌>>=◌, Option,
}
use cc_implementation.Word.{add64}
use cc_implementation.HashTable.{Table, ht_get, ht_set, ht_create}
use cc_implementation.FuncStack.{
  FuncStack, is_empty, peek, func_stack_push, func_stack_pop, create_func_stack,
}

-- `FIRST_UNIMPLEMENTED_OP` of caml/instruct.h
abbrev pub first_unimplemented_op : ℕ
first_unimplemented_op = 153

pub record Profile : Type 0 where
  pub op_counts : List ℕ
  pub total_op_count : ℕ
  pub func_stack : FuncStack
  pub table : Table
  pub arrays : List (List ℕ)
  pub code_base : ℕ

-- The address of the opcode at a position of the code.
abbrev pub address : Profile → ℕ → ℕ
address p pc = p.code_base + 4 * pc

-- `counts[i]++`
abbrev pub bump : List ℕ → ℕ → List ℕ
bump counts i = set counts i (add64 (get_or counts i 0) 1)

-- `arrays[i][opcode]++`
abbrev pub count_in : List (List ℕ) → ℕ → ℕ → List (List ℕ)
count_in arrays i opcode = set arrays i (bump (get_or arrays i []) opcode)

-- `ht_curr_inc_opcount`; `died` is a failed `assert`.
unfoldable pub ht_curr_inc_opcount : Profile → ℕ → Run Profile
ht_curr_inc_opcount p opcode =
    let curr_func = peek p.func_stack in
    if curr_func == 0
    then died
    else (ht_get p.table curr_func >>= λ array.
        if array == 0
        then died
        else (if ltb opcode first_unimplemented_op
            then done (record p { arrays = count_in p.arrays (array - 1) opcode })
            else done p))

-- `array_alloc_op_counts`; the flags are the successes of its `malloc` and of the table's `calloc`.
unfoldable pub array_alloc_op_counts : Bool → Bool → Profile → Run Profile
array_alloc_op_counts got_array granted p =
    let curr_func = peek p.func_stack in
    ht_get p.table curr_func >>= λ array.
    if array == 0
    then (if curr_func == 0
        then died
        else (if got_array
            then (ht_set granted p.table curr_func (length p.arrays + 1) >>= λ r. done (record p {
              table = r.1;
              arrays = p.arrays ++ replicate first_unimplemented_op 0 ∷ [];
            }))
            else done p))
    else done p

-- The bookkeeping of APPLY, APPLY1, APPLY2 and APPLY3 for a call of the code at `pc`.
unfoldable pub enter : Bool → Bool → Profile → ℕ → Run Profile
enter got_array granted p pc =
    array_alloc_op_counts got_array granted
      (record p { func_stack = (func_stack_push p.func_stack (address p pc)).1 })

-- The bookkeeping of RETURN.
unfoldable pub leave : Profile → Profile
leave p = record p { func_stack = (func_stack_pop p.func_stack).1 }

-- The bookkeeping before each dispatch.
unfoldable pub count_opcode : Profile → ℕ → Run Profile
count_opcode p opcode =
    let counted = record p {
      op_counts = bump p.op_counts opcode;
      total_op_count = add64 p.total_op_count 1;
    } in
    if ltb opcode first_unimplemented_op
    then (if is_empty p.func_stack then done counted else ht_curr_inc_opcount counted opcode)
    else done p

-- A pointer that is not checked, or whose NULL ends the process.
abbrev pub of_null : {A : Type 0} → Option A → Run A
of_null none = died
of_null (some a) = done a

-- The counters that `caml_interprete` sets up, in order; `died` is its `exit(1)`, or the use of a
-- table that `ht_create` did not return. The flags are the successes of the allocations.
unfoldable pub new_profile : Bool → Bool → Bool → Bool → Bool → ℕ → Run Profile
new_profile got_counts got_data got_stack got_table got_entries code_base =
    if got_counts
    then (create_func_stack 1024 got_data got_stack >>= λ s. of_null s >>= λ func_stack.
        of_null (ht_create got_table got_entries) >>= λ table. done (record {
          op_counts = replicate first_unimplemented_op 0;
          total_op_count = 0;
          func_stack = func_stack;
          table = table;
          arrays = [];
          code_base = code_base;
        }))
    else died
