-- ===== src/Interp/Objects.antt =====
-- Method lookup. A table of methods is a block: its length as a word, the mask of the cache, and
-- then methods and their tags in turn, the tags in ascending order.
pub mod Search
pub mod Cache
use cc_implementation.Prelude.{
  ℕ, zero, suc, ◌+◌, ◌-◌, ◌*◌, ◌/◌, ◌%◌, ◌^◌, bit_and, ltb, ◌==◌, if◌then◌else◌,
}
use cc_implementation.Word.{slt64, sext32, val_long}
use cc_implementation.Interp.Machine.{Value, Machine, Exec, ok, fault, ◌>>=◌}
use cc_implementation.Interp.Memory.{
  as_long, as_word, write, slot, push, operand, skip, fetch, load,
}

-- GETMETHOD; `Int_val` cuts the label to 32 bits.
unfoldable pub getmethod : Machine → Exec Machine
getmethod m = do
  obj ← slot m 0
  meths ← load m obj 0
  lab ← as_long m.accu
  v ← load m meths (sext32 (lab % 2 ^ 32))
  ok (record m { accu = v })

-- `((li + hi) >> 1) | 1`
unfoldable pub middle : ℕ → ℕ → ℕ
middle li hi = (li + hi) / 2 / 2 * 2 + 1

-- The loop `while (li < hi)` of GETPUBMET and GETDYNMET, on fuel: the final `li`. A sum that is no
-- `int` is undefined.
unfoldable pub find_tag : ℕ → (ℕ → Exec ℕ) → ℕ → ℕ → ℕ → Exec ℕ
unfolding middle
find_tag zero tag_at tag li hi = fault
find_tag (suc fuel) tag_at tag li hi =
    let mi = middle li hi in
    let lower = find_tag fuel tag_at tag li (mi - 2) in
    let upper = find_tag fuel tag_at tag mi hi in
    if ltb li hi
    then (if ltb (li + hi) (2 ^ 31)
        then (tag_at mi >>= λ t. if slt64 tag t then lower else upper)
        else fault)
    else ok li

-- The word in a field of the table of methods.
abbrev pub tag_field : Machine → Value → ℕ → Exec ℕ
tag_field m meths i = load m meths i >>= as_word

-- `(int) w`, with 0 for every negative number, which ends the search in the same way.
abbrev pub int_bound : ℕ → ℕ
int_bound w = let n = w % 2 ^ 32 in if ltb n (2 ^ 31) then n else 0

-- The index of the tag that the search of GETPUBMET and GETDYNMET ends at; each round at least
-- halves `hi - li`, and `hi` rounds are enough.
unfoldable pub search_method : Machine → Value → ℕ → Exec ℕ
unfolding find_tag
search_method m meths tag = tag_field m meths 0 >>= λ w.
    let hi = int_bound w in find_tag (suc hi) (tag_field m meths) tag 3 hi

-- GETDYNMET
unfoldable pub getdynmet : Machine → Exec Machine
unfolding search_method
getdynmet m = do
  obj ← slot m 0
  meths ← load m obj 0
  tag ← as_word m.accu
  li ← search_method m meths tag
  v ← load m meths (li - 1)
  ok (record m { accu = v })

-- GETPUBMET: the tag is an operand, and the next opcode caches where it was found last. `ofs` counts
-- bytes, and a cache that is no multiple of a word's size is a read across two words.
unfoldable pub getpubmet : Machine → Exec Machine
unfolding search_method
getpubmet m = do
  meths ← load m m.accu 0
  (n, m₁) ← fetch (push m.accu m)
  let tag = val_long n
  cache ← operand m₁
  mask ← tag_field m₁ meths 1
  let ofs = bit_and cache mask
  cached ← if ofs % 8 == 0 then tag_field m₁ meths (3 + ofs / 8) else fault
  if cached == tag
      then (load m₁ meths (2 + ofs / 8) >>= λ v. ok (record (skip m₁) { accu = v }))
      else (search_method m₁ meths tag >>= λ li. load m₁ meths (li - 1) >>= λ v.
          write m₁.code m₁.pc (((li - 3) * 8) % 2 ^ 32) >>= λ c.
          ok (record (skip m₁) { accu = v; code = c }))
