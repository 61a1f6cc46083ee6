-- ===== src/Interp/Tests/Blocks.antt =====
-- A block that is made, and a field that is overwritten.
use cc_implementation.Prelude.{◌≡◌, inr, refl, arith, [], ◌∷◌}
use cc_implementation.Interp.Machine.{word, ptr, Block, Machine, ok}
use cc_implementation.Interp.Memory.{load}
use cc_implementation.Interp.Blocks.{setfield_at, getfield_at, makeblock_of}
use cc_implementation.Interp.Blocks.Fields.{
  at_block, stored, made, setfield_at-load, makeblock_of-getfield_at,
}
use cc_implementation.Interp.Tests.{quiet, idle}

abbrev pair : Block
pair = record { tag = 0; fields = word 7 ∷ word 9 ∷ [] }

abbrev with_pair : Machine
with_pair = record idle { accu = word 5; stack = word 21 ∷ word 23 ∷ []; heap = pair ∷ [] }

setfield_at-load_example :
    (setfield_at 1 (at_block with_pair 0 (word 11)) ≡ ok (stored with_pair 0 1 pair (word 11)))
    × (load (stored with_pair 0 1 pair (word 11)) (ptr 0 0) 1 ≡ ok (word 11))
    × (load (stored with_pair 0 1 pair (word 11)) (ptr 0 0) 0 ≡ ok (word 7))
setfield_at-load_example =
    setfield_at-load with_pair 0 1 pair (word 11) (word 9) 0 0 refl refl (inr (omega arith))

-- Later, with the new block in the accumulator.
abbrev later : Machine
later = record (made with_pair 3 (word 21 ∷ []) (word 23 ∷ [])) { pc = 50; stack = [] }

makeblock_of-getfield_at_example :
    (makeblock_of quiet 1 3 with_pair ≡ ok (made with_pair 3 (word 21 ∷ []) (word 23 ∷ [])))
    × (getfield_at 1 later ≡ ok (record later { accu = word 21 }))
makeblock_of-getfield_at_example =
    makeblock_of-getfield_at quiet with_pair later 3 1 (word 21 ∷ []) (word 23 ∷ []) (word 21) refl
      refl refl refl refl
