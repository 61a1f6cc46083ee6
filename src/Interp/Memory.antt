-- ===== src/Interp/Memory.antt =====
-- Access to the stack, to the code, to blocks and to their headers, and the words that
-- caml/mlvalues.h and caml/gc.h build.
pub mod Laws
use cc_implementation.Prelude.{
  ℕ, zero, suc, ◌+◌, ◌*◌, ◌/◌, ◌%◌, ◌^◌, List, [], ◌∷◌, ◌++◌, Option, none, some, length, get_elem?,
  set, Bool, false, ◌==◌, ◌&&◌,
}
use cc_implementation.Word.{word_mod, sext32, val_long, long_val}
use cc_implementation.Interp.Machine.{
  Value, word, ptr, atom, code, fiber, Machine, Exec, ok, fault, ◌>>=◌,
}

abbrev pub of_option {ℓ} : {A : Type ℓ} → Option A → Exec A
of_option none = fault
of_option (some a) = ok a

abbrev pub val_unit : Value
val_unit = word 1

abbrev pub val_false : Value
val_false = word 1

abbrev pub val_true : Value
val_true = word 3

abbrev pub val_int : ℕ → Value
val_int n = word (val_long n)

-- `==` on words
abbrev pub same_value : Value → Value → Bool
same_value (word u) (word w) = u == w
same_value (ptr b i) (ptr c j) = b == c && i == j
same_value (atom t) (atom u) = t == u
same_value (code p) (code q) = p == q
same_value (fiber i) (fiber j) = i == j
same_value _ _ = false

abbrev pub as_word : Value → Exec ℕ
as_word (word w) = ok w
as_word _ = fault

-- `Long_val`
abbrev pub as_long : Value → Exec ℕ
as_long (word w) = ok (long_val w)
as_long _ = fault

abbrev pub as_code : Value → Exec ℕ
as_code (code pc) = ok pc
as_code _ = fault

abbrev pub drop {ℓ} : {A : Type ℓ} → ℕ → List A → Exec (List A)
drop zero xs = ok xs
drop (suc n) [] = fault
drop (suc n) (x ∷ xs) = drop n xs

abbrev pub take {ℓ} : {A : Type ℓ} → ℕ → List A → Exec (List A)
take zero xs = ok []
take (suc n) [] = fault
take (suc n) (x ∷ xs) = take n xs >>= λ ys. ok (x ∷ ys)

abbrev pub write {ℓ} : {A : Type ℓ} → List A → ℕ → A → Exec (List A)
write [] i v = fault
write (x ∷ xs) zero v = ok (v ∷ xs)
write (x ∷ xs) (suc i) v = write xs i v >>= λ ys. ok (x ∷ ys)

-- `sp[n]`
abbrev pub slot : Machine → ℕ → Exec Value
slot m n = of_option (get_elem? m.stack n)

-- `*--sp = v`
abbrev pub push : Value → Machine → Machine
push v m = record m { stack = v ∷ m.stack }

-- `sp += n`
abbrev pub pop_words : ℕ → Machine → Exec Machine
pop_words n m = drop n m.stack >>= λ s. ok (record m { stack = s })

-- `v = *sp++`
abbrev pub pop : Machine → Exec (Value × Machine)
pop m = slot m 0 >>= λ v. pop_words 1 m >>= λ m'. ok (v, m')

-- `*pc`, as the `intnat` that it stands for
abbrev pub operand : Machine → Exec ℕ
operand m = of_option (get_elem? m.code m.pc) >>= λ w. ok (sext32 w)

-- `pc++`
abbrev pub skip : Machine → Machine
skip m = record m { pc = m.pc + 1 }

-- `*pc++`
abbrev pub fetch : Machine → Exec (ℕ × Machine)
fetch m = operand m >>= λ n. ok (n, skip m)

-- A field of a block, at an offset from the pointer.
abbrev pub load : Machine → Value → ℕ → Exec Value
load m (ptr b o) i =
    of_option (get_elem? m.heap b) >>= λ block. of_option (get_elem? block.fields (o + i))
load m _ i = fault

-- `caml_modify`, `caml_initialize` or a plain assignment of a field. The write barrier is the
-- collector's.
abbrev pub store : Machine → Value → ℕ → Value → Exec Machine
store m (ptr b o) i v = do
  block ← of_option (get_elem? m.heap b)
  fields ← write block.fields (o + i) v
  ok (record m { heap = set m.heap b (record block { fields = fields }) })
store m _ i v = fault

-- A new block with these fields; its pointer is the result.
abbrev pub new_block : Machine → ℕ → List Value → Value × Machine
new_block m tag fields = (
  ptr (length m.heap) 0,
  record m { heap = m.heap ++ record { tag = tag; fields = fields } ∷ [] },
)

-- `Code_val`
abbrev pub code_val : Machine → Value → Exec ℕ
code_val m v = load m v 0 >>= as_code

abbrev pub closure_tag : ℕ
closure_tag = 247

abbrev pub infix_tag : ℕ
infix_tag = 249

abbrev pub double_tag : ℕ
double_tag = 253

abbrev pub double_array_tag : ℕ
double_array_tag = 254

abbrev pub cont_tag : ℕ
cont_tag = 245

abbrev pub max_young_wosize : ℕ
max_young_wosize = 256

-- `Make_header`, with no colour
abbrev pub make_header : ℕ → ℕ → ℕ
make_header wosize tag = (wosize * 2 ^ 10 + tag) % word_mod

-- `Make_closinfo`
abbrev pub make_closinfo : ℕ → ℕ → ℕ
make_closinfo arity delta = (arity * 2 ^ 56 + delta * 2 + 1) % word_mod

-- `Wosize_val`; inside a closure the header is the infix one, a word of the block.
abbrev pub wosize_val : Machine → Value → Exec ℕ
wosize_val m (ptr b zero) = of_option (get_elem? m.heap b) >>= λ block. ok (length block.fields)
wosize_val m (ptr b (suc o)) = load m (ptr b o) 0 >>= as_word >>= λ h. ok (h / 2 ^ 10)
wosize_val m (atom tag) = ok 0
wosize_val m _ = fault

-- `Tag_val`
abbrev pub tag_val : Machine → Value → Exec ℕ
tag_val m (ptr b zero) = of_option (get_elem? m.heap b) >>= λ block. ok block.tag
tag_val m (ptr b (suc o)) = load m (ptr b o) 0 >>= as_word >>= λ h. ok (h % 256)
tag_val m (atom tag) = ok tag
tag_val m _ = fault
