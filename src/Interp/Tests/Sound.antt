-- ===== src/Interp/Tests/Sound.antt =====
-- A runtime that keeps words live, and rounds of the loop from a machine with a block and a trap.
use cc_implementation.Prelude.{[], ◌∷◌, replicate}
use cc_implementation.Profile.{Profile, bump, first_unimplemented_op}
use cc_implementation.Profile.Start.{first_profile}
use cc_implementation.Interp.Machine.{word, ptr, code, Machine}
use cc_implementation.Interp.Step.{start}
use cc_implementation.Interp.Tests.{idle}

-- A list cell in the accumulator, with GETFIELD1 to come.
abbrev cell : Machine
cell = record idle {
  accu = ptr 0 0;
  stack = ptr 0 0 ∷ code 4 ∷ [];
  heap = record { tag = 0; fields = word 3 ∷ ptr 0 0 ∷ [] } ∷ [];
  code = 68 ∷ [];
}

-- The machine at the start of a run that begins with CONST2.
abbrev fresh : Machine
fresh = start 0 0 (first_profile 4096) (record idle { code = 101 ∷ 143 ∷ [] })

-- The machine after it.
abbrev two : Machine
unfolding start
two = record fresh {
  pc = 1;
  accu = word 5;
  profile = record (first_profile 4096) {
    op_counts = bump (replicate first_unimplemented_op 0) 101;
    total_op_count = 1;
  };
}
