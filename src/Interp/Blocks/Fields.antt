-- ===== src/Interp/Blocks/Fields.antt =====
-- Blocks: what is stored in a field or put into a new block is what is read there.
use native.Mathlib.Decide.{ℕ_discrete}
use native.Mathlib.Nat.{zero-add}
use cc_implementation.Prelude.{
  ℕ, zero, suc, ◌+◌, ◌≡◌, ◌≢◌, ◌⊎◌, inl, inr, refl, sym, ap, ◌∙◌, arith, false, List, [], ◌∷◌, ◌++◌,
  some, get_elem?, set, length, get_elem?-set_self, get_elem?-set_ne,
}
use cc_implementation.Interp.Machine.{Value, ptr, Block, Machine, ok}
use cc_implementation.Interp.Memory.{val_unit, write, load}
use cc_implementation.Interp.Memory.Laws.{drop-append, take-append, get_elem?-append_length}
use cc_implementation.Interp.Runtime.{Runtime}
use cc_implementation.Interp.Control.{poll_gc}
use cc_implementation.Interp.Blocks.{setfield_at, getfield_at, makeblock_of, poll_small}

write-set {ℓ} :
    {A : Type ℓ} (xs : List A) (i : ℕ) (v a : A)
    → get_elem? xs i ≡ some a
    → write xs i v ≡ ok (set xs i v)
write-set [] i v a h = cc
write-set (x ∷ xs) zero v a h = refl
write-set (x ∷ xs) (suc i) v a h = rw (write-set xs i v a h)

-- A machine with a pointer to a block in the accumulator, and a word on top of its stack.
abbrev pub at_block : Machine → ℕ → Value → Machine
at_block m b v = record m { accu = ptr b 0; stack = v ∷ m.stack }

-- The heap in which a field of a block was overwritten.
abbrev pub with_field : Machine → ℕ → Block → ℕ → Value → List Block
with_field m b block n v = set m.heap b (record block { fields = set block.fields n v })

-- The machine after that, with unit in the accumulator.
abbrev pub stored : Machine → ℕ → ℕ → Block → Value → Machine
stored m b n block v = record m { accu = val_unit; heap = with_field m b block n v }

module _ (m : Machine) (b n : ℕ) (block : Block) (v old : Value)
    (there : get_elem? m.heap b ≡ some block) (field : get_elem? block.fields n ≡ some old) where
  setfield_at-stored : setfield_at n (at_block m b v) ≡ ok (stored m b n block v)
  unfolding setfield_at
  setfield_at-stored = rw (there, zero-add, write-set block.fields n v old field)

  here :
      get_elem? (stored m b n block v).heap b
      ≡ some (record block { fields = set block.fields n v })
  here = get_elem?-set_self m.heap b (record block { fields = set block.fields n v }) block there

  load-stored : load (stored m b n block v) (ptr b 0) n ≡ ok v
  load-stored = rw (here, zero-add, get_elem?-set_self block.fields n v old field)

  load-other :
      (c i : ℕ) → (c ≢ b) ⊎ (i ≢ n) → load (stored m b n block v) (ptr c 0) i ≡ load m (ptr c 0) i
  load-other c i apart = elim (ℕ_discrete b c) [
    | no ne ↦ rw (get_elem?-set_ne m.heap b c (record block { fields = set block.fields n v }) ne)
    | yes e ↦
        let field_apart : n ≢ i =
          (λ same. elim apart [ inl cb ↦ cb (sym e) | inr ne ↦ ne (sym same) ]) in
        rw (← e, here, there, zero-add, get_elem?-set_ne block.fields n i v field_apart)
  ]

-- SETFIELD0 to SETFIELD3 and the end of SETFIELD, with a block in the accumulator that has the field:
-- the word on top of the stack is popped and is what a load of this field now finds. A load of any
-- other field, of this block or of another one, finds what it found before. The accumulator becomes
-- unit, and nothing else changes.
pub setfield_at-load :
    (m : Machine) (b n : ℕ) (block : Block) (v old : Value) (c i : ℕ)
    → get_elem? m.heap b ≡ some block
    → get_elem? block.fields n ≡ some old
    → (c ≢ b) ⊎ (i ≢ n)
    → (setfield_at n (at_block m b v) ≡ ok (stored m b n block v))
      × (load (stored m b n block v) (ptr b 0) n ≡ ok v)
      × (load (stored m b n block v) (ptr c 0) i ≡ load m (ptr c 0) i)
setfield_at-load m b n block v old c i there field apart = (
  setfield_at-stored m b n block v old there field,
  load-stored m b n block v old there field,
  load-other m b n block v old there field c i apart,
)

-- The machine after a block of the accumulator and `args` was made.
abbrev pub made : Machine → ℕ → List Value → List Value → Machine
made m tag args rest = record m {
  accu = ptr (length m.heap) 0;
  stack = rest;
  heap = m.heap ++ record { tag = tag; fields = m.accu ∷ args } ∷ [];
}

poll_small-room :
    (rt : Runtime) (wosize : ℕ) (m : Machine)
    → rt.minor_heap_full m ≡ false
    → poll_small rt wosize m ≡ ok m
unfolding poll_small poll_gc
poll_small-room rt wosize m room = rw room (ground arith)

makeblock_of-made :
    (rt : Runtime) (m : Machine) (tag : ℕ) (args rest : List Value)
    → m.stack ≡ args ++ rest
    → rt.minor_heap_full m ≡ false
    → makeblock_of rt (length args) tag m ≡ ok (made m tag args rest)
unfolding makeblock_of
makeblock_of-made rt m tag args rest hs room =
    rw (
      poll_small-room rt (length args + 1) m room,
      hs,
      take-append args rest,
      drop-append args rest,
    )

-- The MAKEBLOCK family, with room in the minor heap, takes its words off the stack, and gives a new
-- block of the accumulator and these words. In any machine `r` with the heap of that moment and the
-- block in the accumulator, GETFIELD of a field `i` of the block gives the word that was put there.
pub makeblock_of-getfield_at :
    (rt : Runtime) (m r : Machine) (tag i : ℕ) (args rest : List Value) (x : Value)
    → m.stack ≡ args ++ rest
    → rt.minor_heap_full m ≡ false
    → get_elem? (m.accu ∷ args) i ≡ some x
    → r.heap ≡ (made m tag args rest).heap
    → r.accu ≡ (made m tag args rest).accu
    → (makeblock_of rt (length args) tag m ≡ ok (made m tag args rest))
      × (getfield_at i r ≡ ok (record r { accu = x }))
unfolding getfield_at
makeblock_of-getfield_at rt m r tag i args rest x hs room hx hh ha =
    let block : Block = record { tag = tag; fields = m.accu ∷ args } in
    let there : get_elem? r.heap (length m.heap) ≡ some block =
      ap (λ h. get_elem? h (length m.heap)) hh ∙ get_elem?-append_length m.heap block [] in
    let read : load r r.accu i ≡ ok x = ap (λ v. load r v i) ha ∙ rw (there, zero-add, hx) in
    (makeblock_of-made rt m tag args rest hs room, rw read)
