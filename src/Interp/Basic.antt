-- ===== src/Interp/Basic.antt =====
-- Basic stack operations, access to the environment, to globals and to constants, and branches.
-- An instruction of a numbered family takes its number as an argument.
use cc_implementation.Prelude.{
  ℕ, ◌+◌, ◌/◌, ◌%◌, ◌^◌, Bool, false, ltb, ◌==◌, if◌then◌else◌, get_elem?,
}
use cc_implementation.Word.{add64, sub64, sext32, long_val}
use cc_implementation.Interp.Machine.{Value, word, atom, Machine, Exec, ok, fault, ◌>>=◌}
use cc_implementation.Interp.Memory.{
  of_option, val_unit, val_int, slot, push, pop_words, write, operand, skip, fetch, load, store,
  tag_val,
}

-- ACC0 to ACC7
unfoldable pub acc_at : ℕ → Machine → Exec Machine
acc_at n m = slot m n >>= λ v. ok (record m { accu = v })

-- PUSH and PUSHACC0
unfoldable pub push_accu : Machine → Exec Machine
push_accu m = ok (push m.accu m)

-- PUSHACC1 to PUSHACC7
unfoldable pub pushacc_at : ℕ → Machine → Exec Machine
unfolding acc_at
pushacc_at n m = acc_at n (push m.accu m)

-- ACC
unfoldable pub acc : Machine → Exec Machine
unfolding acc_at
acc m = do (n, m₁) ← fetch m; acc_at n m₁

-- PUSHACC, which falls through to ACC
unfoldable pub pushacc : Machine → Exec Machine
unfolding acc
pushacc m = acc (push m.accu m)

-- POP
unfoldable pub pop_instr : Machine → Exec Machine
pop_instr m = do (n, m₁) ← fetch m; pop_words n m₁

-- ASSIGN
unfoldable pub assign : Machine → Exec Machine
assign m = do
  (n, m₁) ← fetch m
  s ← write m₁.stack n m₁.accu
  ok (record m₁ { stack = s; accu = val_unit })

-- ENVACC1 to ENVACC4
unfoldable pub envacc_at : ℕ → Machine → Exec Machine
envacc_at n m = load m m.env n >>= λ v. ok (record m { accu = v })

-- PUSHENVACC1 to PUSHENVACC4
unfoldable pub pushenvacc_at : ℕ → Machine → Exec Machine
unfolding envacc_at
pushenvacc_at n m = envacc_at n (push m.accu m)

-- ENVACC
unfoldable pub envacc : Machine → Exec Machine
unfolding envacc_at
envacc m = do (n, m₁) ← fetch m; envacc_at n m₁

-- PUSHENVACC, which falls through to ENVACC
unfoldable pub pushenvacc : Machine → Exec Machine
unfolding envacc
pushenvacc m = envacc (push m.accu m)

-- GETGLOBAL
unfoldable pub getglobal : Machine → Exec Machine
getglobal m = do (n, m₁) ← fetch m; v ← load m₁ m₁.global_data n; ok (record m₁ { accu = v })

-- PUSHGETGLOBAL
unfoldable pub pushgetglobal : Machine → Exec Machine
unfolding getglobal
pushgetglobal m = getglobal (push m.accu m)

-- GETGLOBALFIELD
unfoldable pub getglobalfield : Machine → Exec Machine
unfolding getglobal
getglobalfield m = do
  m₁ ← getglobal m
  (n, m₂) ← fetch m₁
  v ← load m₂ m₂.accu n
  ok (record m₂ { accu = v })

-- PUSHGETGLOBALFIELD
unfoldable pub pushgetglobalfield : Machine → Exec Machine
unfolding getglobalfield
pushgetglobalfield m = getglobalfield (push m.accu m)

-- SETGLOBAL
unfoldable pub setglobal : Machine → Exec Machine
setglobal m = do
  (n, m₁) ← fetch m
  m₂ ← store m₁ m₁.global_data n m₁.accu
  ok (record m₂ { accu = val_unit })

-- ATOM0, with 0, and what ATOM does after it has read its tag
unfoldable pub atom_of : ℕ → Machine → Exec Machine
atom_of tag m = ok (record m { accu = atom tag })

-- PUSHATOM0
unfoldable pub pushatom0 : Machine → Exec Machine
unfolding atom_of
pushatom0 m = atom_of 0 (push m.accu m)

-- ATOM
unfoldable pub atom_instr : Machine → Exec Machine
unfolding atom_of
atom_instr m = do (tag, m₁) ← fetch m; atom_of tag m₁

-- PUSHATOM
unfoldable pub pushatom : Machine → Exec Machine
unfolding atom_instr
pushatom m = atom_instr (push m.accu m)

-- CONST0 to CONST3
unfoldable pub const_of : ℕ → Machine → Exec Machine
const_of n m = ok (record m { accu = val_int n })

-- PUSHCONST0 to PUSHCONST3
unfoldable pub pushconst_of : ℕ → Machine → Exec Machine
unfolding const_of
pushconst_of n m = const_of n (push m.accu m)

-- CONSTINT
unfoldable pub constint : Machine → Exec Machine
constint m = do (n, m₁) ← fetch m; ok (record m₁ { accu = val_int n })

-- PUSHCONSTINT
unfoldable pub pushconstint : Machine → Exec Machine
unfolding constint
pushconstint m = constint (push m.accu m)

-- `pc += *pc`: BRANCH, and a conditional branch that is taken
unfoldable pub branch : Machine → Exec Machine
branch m = operand m >>= λ n. ok (record m { pc = add64 m.pc n })

-- `accu == Val_false`
unfoldable pub is_false : Value → Bool
is_false (word w) = w == 1
is_false _ = false

-- BRANCHIF
unfoldable pub branchif : Machine → Exec Machine
unfolding is_false branch
branchif m = if is_false m.accu then ok (skip m) else branch m

-- BRANCHIFNOT
unfoldable pub branchifnot : Machine → Exec Machine
unfolding is_false branch
branchifnot m = if is_false m.accu then branch m else ok (skip m)

-- `pc += pc[i]`
unfoldable pub jump_by : ℕ → Machine → Exec Machine
jump_by i m =
    of_option (get_elem? m.code (m.pc + i)) >>= λ n. ok (record m { pc = add64 m.pc (sext32 n) })

-- The index of SWITCH in its table, past the constants for a block. An index out of the table's
-- range fails the assertions of SWITCH.
unfoldable pub switch_index : ℕ → Machine → Value → Exec ℕ
switch_index sizes m (word w) =
    if w % 2 == 0
    then fault
    else if ltb (long_val w) (sizes % 2 ^ 16)
    then ok (long_val w)
    else fault
switch_index sizes m v =
    tag_val m v >>= λ tag. if ltb tag (sizes / 2 ^ 16) then ok (sizes % 2 ^ 16 + tag) else fault

-- SWITCH
unfoldable pub switch : Machine → Exec Machine
unfolding switch_index jump_by
switch m = do
  sizes ← of_option (get_elem? m.code m.pc)
  i ← switch_index sizes (skip m) m.accu
  jump_by i (skip m)

-- BOOLNOT: `Val_not` subtracts from the sum of the two Booleans.
unfoldable pub boolnot : Machine → Exec Machine
boolnot m = elim m.accu [ word w ↦ ok (record m { accu = word (sub64 4 w) }) | _ ↦ fault ]
