-- ===== src/Interp/Blocks.antt =====
-- Closures, blocks, their fields, arrays and strings.
pub mod Fields
use cc_implementation.Prelude.{
  ℕ, zero, suc, ◌+◌, ◌-◌, ◌*◌, ◌/◌, ◌%◌, ◌^◌, List, [], ◌∷◌, ◌++◌, leb, ◌==◌, if◌then◌else◌, length,
  get_elem?,
}
use cc_implementation.Word.{add64, sext32}
use cc_implementation.Interp.Machine.{Value, word, ptr, code, Machine, Exec, ok, fault, ◌>>=◌}
use cc_implementation.Interp.Memory.{
  of_option, val_int, val_unit, as_long, as_word, take, push, pop, pop_words, operand, skip, fetch,
  load, store, new_block, wosize_val, closure_tag, infix_tag, double_tag, double_array_tag,
  max_young_wosize, make_header, make_closinfo,
}
use cc_implementation.Interp.Runtime.{Runtime}
use cc_implementation.Interp.Control.{poll_gc}

-- `env + n * sizeof(value)`, for OFFSETCLOSURE (any `n`), OFFSETCLOSUREM3, OFFSETCLOSURE0 and
-- OFFSETCLOSURE3
unfoldable pub offsetclosure_by : ℕ → Machine → Exec Machine
offsetclosure_by n m = elim m.env [
  | ptr b o ↦ ok (record m { accu = ptr b (add64 o n) })
  | _ ↦ fault
]

-- OFFSETCLOSURE
unfoldable pub offsetclosure : Machine → Exec Machine
unfolding offsetclosure_by
offsetclosure m = do (n, m₁) ← fetch m; offsetclosure_by n m₁

-- PUSHOFFSETCLOSURE, PUSHOFFSETCLOSUREM3, PUSHOFFSETCLOSURE0 and PUSHOFFSETCLOSURE3 push first.
unfoldable pub pushoffsetclosure : Machine → Exec Machine
unfolding offsetclosure
pushoffsetclosure m = offsetclosure (push m.accu m)

unfoldable pub pushoffsetclosure_by : ℕ → Machine → Exec Machine
unfolding offsetclosure_by
pushoffsetclosure_by n m = offsetclosure_by n (push m.accu m)

-- The infix headers, code pointers and closure information of CLOSUREREC from function `i` on.
unfoldable pub infix_fields : ℕ → ℕ → ℕ → Machine → Exec (List Value)
infix_fields i zero envofs m = ok []
infix_fields i (suc n) envofs m = of_option (get_elem? m.code (m.pc + i)) >>= λ w.
    infix_fields (i + 1) n (envofs - 3) m >>= λ fields. ok (
      word (make_header (i * 3) infix_tag)
      ∷ (code (add64 m.pc (sext32 w)) ∷ (word (make_closinfo 0 (envofs - 3)) ∷ fields)))

-- The pointers to the infix closures from function `i` on, the last one on top.
unfoldable pub infix_pointers : ℕ → ℕ → ℕ → List Value → List Value
infix_pointers b i zero s = s
infix_pointers b i (suc n) s = infix_pointers b (i + 1) n (ptr b (i * 3) ∷ s)

-- GETFIELD0 to GETFIELD3
unfoldable pub getfield_at : ℕ → Machine → Exec Machine
getfield_at n m = load m m.accu n >>= λ v. ok (record m { accu = v })

-- GETFIELD
unfoldable pub getfield : Machine → Exec Machine
unfolding getfield_at
getfield m = do (n, m₁) ← fetch m; getfield_at n m₁

-- SETFIELD0 to SETFIELD3
unfoldable pub setfield_at : ℕ → Machine → Exec Machine
setfield_at n m = do (v, m₁) ← pop m; m₂ ← store m₁ m₁.accu n v; ok (record m₂ { accu = val_unit })

-- SETFIELD
unfoldable pub setfield : Machine → Exec Machine
unfolding setfield_at
setfield m = do (n, m₁) ← fetch m; setfield_at n m₁

-- SETFLOATFIELD: the bits of the boxed float at the top go into the block.
unfoldable pub setfloatfield : Machine → Exec Machine
setfloatfield m = do
  n ← operand m
  (v, m₁) ← pop m
  d ← load m₁ v 0
  m₂ ← store m₁ m₁.accu n d
  ok (record (skip m₂) { accu = val_unit })

-- VECTLENGTH, with `Double_wosize` 1
unfoldable pub vectlength : Machine → Exec Machine
vectlength m = wosize_val m m.accu >>= λ n. ok (record m { accu = val_int n })

-- GETVECTITEM
unfoldable pub getvectitem : Machine → Exec Machine
getvectitem m = do
  (v, m₁) ← pop m
  i ← as_long v
  x ← load m₁ m₁.accu i
  ok (record m₁ { accu = x })

-- SETVECTITEM
unfoldable pub setvectitem : Machine → Exec Machine
setvectitem m = do
  (v, m₁) ← pop m
  i ← as_long v
  (x, m₂) ← pop m₁
  m₃ ← store m₂ m₂.accu i x
  ok (record m₃ { accu = val_unit })

-- Byte `k` of a word, the lowest first, and the word with that byte replaced.
unfoldable pub byte_of : ℕ → ℕ → ℕ
byte_of w k = (w / 256 ^ k) % 256

unfoldable pub with_byte : ℕ → ℕ → ℕ → ℕ
unfolding byte_of
with_byte w k b = w - byte_of w k * 256 ^ k + b * 256 ^ k

-- GETSTRINGCHAR and GETBYTESCHAR, on a little-endian machine
unfoldable pub getbyteschar : Machine → Exec Machine
unfolding byte_of
getbyteschar m = do
  (v, m₁) ← pop m
  i ← as_long v
  x ← load m₁ m₁.accu (i / 8)
  w ← as_word x
  ok (record m₁ { accu = val_int (byte_of w (i % 8)) })

-- SETBYTESCHAR
unfoldable pub setbyteschar : Machine → Exec Machine
unfolding with_byte
setbyteschar m = do
  (v, m₁) ← pop m
  i ← as_long v
  (c, m₂) ← pop m₁
  n ← as_long c
  x ← load m₂ m₂.accu (i / 8)
  w ← as_word x
  m₃ ← store m₂ m₂.accu (i / 8) (word (with_byte w (i % 8) (n % 256)))
  ok (record m₃ { accu = val_unit })

-- `Double_val` of each of `n` words
unfoldable pub double_vals : Machine → List Value → Exec (List Value)
double_vals m [] = ok []
double_vals m (v ∷ vs) = load m v 0 >>= λ d. double_vals m vs >>= λ ds. ok (d ∷ ds)

module _ (rt : Runtime) where
  -- `Alloc_small`, which may run the collector, up to `Max_young_wosize`; `caml_alloc_shr` above
  unfoldable pub poll_small : ℕ → Machine → Exec Machine
  poll_small wosize m = if leb wosize max_young_wosize then poll_gc rt m else ok m

  -- CLOSURE
  unfoldable pub closure : Machine → Exec Machine
  unfolding poll_small
  closure m = do
    (nvars, m₁) ← fetch m
    m₂ ← poll_small (nvars + 2) (if nvars == 0 then m₁ else push m₁.accu m₁)
    vars ← take nvars m₂.stack
    n ← operand m₂
    let fields = code (add64 m₂.pc n) ∷ (word (make_closinfo 0 2) ∷ vars)
    let (v, m₃) = new_block m₂ closure_tag fields
    m₄ ← pop_words nvars (skip m₃)
    ok (record m₄ { accu = v })

  -- CLOSUREREC. With no function it would write its header outside the block.
  unfoldable pub closurerec : Machine → Exec Machine
  unfolding poll_small infix_fields infix_pointers
  closurerec m = do
    (nfuncs, m₁) ← fetch m
    (nvars, m₂) ← fetch m₁
    let envofs = nfuncs * 3 - 1
    m₃ ←
        if nfuncs == 0
        then fault
        else poll_small (envofs + nvars) (if nvars == 0 then m₂ else push m₂.accu m₂)
    vars ← take nvars m₃.stack
    n ← operand m₃
    others ← infix_fields 1 (nfuncs - 1) envofs m₃
    let fields = code (add64 m₃.pc n) ∷ (word (make_closinfo 0 envofs) ∷ (others ++ vars))
    let (v, m₄) = new_block m₃ closure_tag fields
    m₅ ← pop_words nvars m₄
    let s = infix_pointers (length m₃.heap) 1 (nfuncs - 1) (v ∷ m₅.stack)
    ok (record m₅ { accu = v; stack = s; pc = m₃.pc + nfuncs })

  -- The block of the accumulator and `n` words of the stack: MAKEBLOCK1, MAKEBLOCK2 and MAKEBLOCK3
  -- after their tag was read, with 0, 1 and 2
  unfoldable pub makeblock_of : ℕ → ℕ → Machine → Exec Machine
  unfolding poll_small
  makeblock_of n tag m = do
    m₁ ← poll_small (n + 1) m
    rest ← take n m₁.stack
    let (v, m₂) = new_block m₁ tag (m₁.accu ∷ rest)
    m₃ ← pop_words n m₂
    ok (record m₃ { accu = v })

  -- MAKEBLOCK1 to MAKEBLOCK3, with the number of words that they take from the stack
  unfoldable pub makeblock_at : ℕ → Machine → Exec Machine
  unfolding makeblock_of
  makeblock_at n m = do (tag, m₁) ← fetch m; makeblock_of n tag m₁

  -- MAKEBLOCK; the compiler makes no block of no field.
  unfoldable pub makeblock : Machine → Exec Machine
  unfolding makeblock_of
  makeblock m = do
    (wosize, m₁) ← fetch m
    (tag, m₂) ← fetch m₁
    if wosize == 0 then fault else makeblock_of (wosize - 1) tag m₂

  -- MAKEFLOATBLOCK, with `Double_wosize` 1; there is no such block of no field.
  unfoldable pub makefloatblock : Machine → Exec Machine
  unfolding poll_small double_vals
  makefloatblock m = do
    (size, m₁) ← fetch m
    m₂ ← if size == 0 then fault else poll_small size m₁
    d ← load m₂ m₂.accu 0
    rest ← take (size - 1) m₂.stack
    ds ← double_vals m₂ rest
    let (v, m₃) = new_block m₂ double_array_tag (d ∷ ds)
    m₄ ← pop_words (size - 1) m₃
    ok (record m₄ { accu = v })

  -- GETFLOATFIELD
  unfoldable pub getfloatfield : Machine → Exec Machine
  unfolding poll_small
  getfloatfield m = do
    (n, m₁) ← fetch m
    d ← load m₁ m₁.accu n
    m₂ ← poll_small 1 m₁
    let (v, m₃) = new_block m₂ double_tag (d ∷ [])
    ok (record m₃ { accu = v })
