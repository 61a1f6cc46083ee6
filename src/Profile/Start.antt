-- ===== src/Profile/Start.antt =====
-- The counters at the start of `caml_interprete`.
use cc_implementation.Prelude.{
  ℕ, ◌<◌, ◌≡◌, refl, arith, true, [], length-replicate, replicate, Returns, done,
}
use cc_implementation.HashTable.{new_table, ht_create}
use cc_implementation.HashTable.Laws.{IsFresh, new_table-IsFresh}
use cc_implementation.FuncStack.{create_func_stack}
use cc_implementation.FuncStack.Laws as StackLaws
use cc_implementation.Profile.{Profile, new_profile, first_unimplemented_op}
use cc_implementation.Profile.Laws.{IsCounting}

-- Counters with no function and no array.
pub idle-IsCounting :
    (p : Profile)
    → StackLaws.IsValid p.func_stack
    → p.func_stack.top ≡ 0
    → 0 < p.func_stack.max_items
    → IsFresh p.table
    → p.arrays ≡ []
    → IsCounting p
idle-IsCounting p v empty room (valid, _, fresh) none_yet = record {
  stack = v;
  table = valid;
  room = room;
  named = λ i lt. absurd (omega arith);
  known = λ i lt. absurd (omega arith);
  stored = λ q ne. omega (arith, fresh q ne);
  distinct = λ f g nf ng nz e. absurd (nz (fresh f nf));
  sized = λ j lt. absurd (no_array j (rw none_yet at lt));
}
  where
    no_array : (j : ℕ) → j < 0 → ⊥
    no_array j lt = omega arith

-- The counters at the start of a run.
abbrev pub first_profile : ℕ → Profile
first_profile code_base = record {
  op_counts = replicate first_unimplemented_op 0;
  total_op_count = 0;
  func_stack = record {
    stack_data = replicate 1024 0;
    nr_items = 0;
    max_items = 1024;
    cur_size_bytes = 0;
    top = 0;
  };
  table = new_table;
  arrays = [];
  code_base = code_base;
}

pub first_profile-IsCounting : (code_base : ℕ) → IsCounting (first_profile code_base)
first_profile-IsCounting code_base =
    idle-IsCounting (first_profile code_base)
      (record {
        storage = let fill : ℕ = 0 in length-replicate 1024 fill;
        items = refl;
        bytes = refl;
        within = omega arith;
        small = omega arith;
      })
      refl (omega arith) new_table-IsFresh refl

pub new_profile-first :
    (code_base : ℕ)
    → new_profile true true true true true code_base ≡ done (first_profile code_base)
unfolding new_profile create_func_stack ht_create
new_profile-first code_base = refl

-- If the allocations succeed, the counters that `caml_interprete` sets up exist, no function is
-- active, and so every active function has its array.
pub new_profile-IsCounting :
    (code_base : ℕ)
    → Returns
        (new_profile true true true true true code_base)
        (λ p. IsCounting p × (p.func_stack.top ≡ 0) × (p.func_stack.max_items ≡ 1024))
new_profile-IsCounting code_base = (
  first_profile code_base,
  new_profile-first code_base,
  (first_profile-IsCounting code_base, refl, refl),
)
