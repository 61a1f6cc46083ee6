-- ===== src/Profile/Calls.antt =====
-- The counters at a call and at a return.
use native.Mathlib.Decide.{ℕ_discrete}
use cc_implementation.Prelude.{
  ap, sym, ◌∙◌, get_or-replicate, get_or-append_left, get_or-append_last, ◌++◌, ◌+◌, ◌*◌, ℕ, ◌==◌,
  ◌-◌, ◌≤◌, ◌<◌, ◌≡◌, ◌≢◌, inl, inr, refl, arith, length, ne→==, eq→==, List, Returns, [], true,
  ◌∷◌, replicate, length-append,
}
use cc_implementation.Word.{word_mod}
use cc_implementation.HashTable.Laws.{
  view, ht_get-view, ht_set-SetResult, SetResult, Updated, Refused, one_if-le,
}
use cc_implementation.HashTable.Slots.{count}
use cc_implementation.FuncStack.{FuncStack, is_empty, func_stack_push, func_stack_pop}
use cc_implementation.FuncStack.Laws.{push-IsValid, pop-IsValid}
use cc_implementation.FuncStack.Laws as StackLaws
use cc_implementation.HashTable.Laws as TableLaws
use cc_implementation.Profile.{
  Profile, Table, array_alloc_op_counts, enter, leave, address, first_unimplemented_op, ht_set,
}
use cc_implementation.Profile.Counts.{tally}
use cc_implementation.Profile.Laws.{
  active, IsCounting, peek-active, IsEntering, push_full-IsEntering, push_room-IsEntering,
}

-- The table after `array_alloc_op_counts` has stored the pointer of a new array.
stored-IsCounting :
    (p : Profile) (t : Table) (array : List ℕ)
    → IsEntering p
    → length array ≡ first_unimplemented_op
    → Updated p.table (active p.func_stack (p.func_stack.top - 1)) (length p.arrays + 1) t
    → IsCounting (record p { table = t; arrays = p.arrays ++ array ∷ [] })
stored-IsCounting p t array c size u =
    let curr = active p.func_stack (p.func_stack.top - 1) in
    let longer : length (p.arrays ++ array ∷ []) ≡ length p.arrays + 1 =
      length-append p.arrays (array ∷ []) in
    record {
      stack = c.stack;
      table = u.valid;
      room = c.room;
      named = c.named;
      known = λ i lt.
          rw (u.reads (active p.func_stack i) (c.named i lt)) (ground (arith, c.known i lt));
      stored = λ q ne. rw (u.reads q ne, longer) (ground (arith, c.stored q ne));
      distinct = λ f g nf ng.
          rw (u.reads f nf, u.reads g ng)
            (λ nz e. ground (arith, c.stored f nf, c.stored g ng, c.distinct f g nf ng));
      sized = λ j lt. elim (ℕ_discrete j (length p.arrays)) [
        | yes e ↦ rw (e, get_or-append_last p.arrays array []) size
        | no ne ↦
            let before : j < length p.arrays = omega (arith, longer) in
            rw (get_or-append_left p.arrays (array ∷ []) j [] before) (c.sized j before)
      ];
    }

known-IsCounting :
    (p : Profile)
    → IsEntering p
    → view p.table (active p.func_stack (p.func_stack.top - 1)) ≢ 0
    → IsCounting p
known-IsCounting p c nz = record {
  stack = c.stack;
  table = c.table;
  room = c.room;
  named = c.named;
  known = λ i lt. elim (c.known i lt) [ inl e ↦ rw e nz | inr known ↦ known ];
  stored = c.stored;
  distinct = c.distinct;
  sized = c.sized;
}

-- A table that has room to grow accepts a write.
set_accepted :
    (t : Table) (k v : ℕ)
    → TableLaws.IsValid t
    → k ≢ 0
    → v ≢ 0
    → t.capacity * 2 < word_mod
    → Returns (ht_set true t k v) (λ out. Updated t k v out.1)
set_accepted t k v valid kn vn fits =
    let (out, run, result) = ht_set-SetResult true t k v valid kn vn in
    (
      out,
      run,
      elim result [ inl (_, u) ↦ u | inr (_, refused) ↦ absurd (no_refusal out.1 refused) ],
    )
  where
    no_refusal : (r : Table) → Refused true t r → ⊥
    no_refusal r refused = ground (arith, refused.no_room)

-- A table that is at most a quarter full at any capacity that it has grown to.
abbrev pub IsRoomy : Table → Type 0
IsRoomy t = t.capacity ≤ 16 + 4 * t.length

-- What the bookkeeping of a call leaves: every active function has its array, the table has at most
-- one entry more, and grew only if it was half full; and no count has changed.
pub record Entered (p : Profile) (s : FuncStack) (r : Profile) : Type 0 where
  pub counting : IsCounting r
  pub stack : r.func_stack ≡ s
  pub filled : r.table.length ≤ p.table.length + 1
  pub roomy : IsRoomy p.table → IsRoomy r.table
  pub same_base : r.code_base ≡ p.code_base
  pub op_counts : r.op_counts ≡ p.op_counts
  pub total : r.total_op_count ≡ p.total_op_count
  pub tallies : (f o : ℕ) → f ≢ 0 → tally r f o ≡ tally p f o

Updated-IsRoomy :
    (t r : Table) (k v : ℕ) → Updated t k v r → (r.length ≤ t.length + 1) × (IsRoomy t → IsRoomy r)
Updated-IsRoomy t r k v u =
    let step = one_if-le (count k t.entries == 0) in
    (
      omega (arith, u.grows, step),
      λ roomy. elim u.size [
        | inl e ↦ omega (arith, u.grows)
        | inr (e, full) ↦ omega (arith, u.grows)
      ],
    )

-- The new array holds no count, and the others stay.
stored-tally :
    (p : Profile) (t : Table)
    → IsEntering p
    → view p.table (active p.func_stack (p.func_stack.top - 1)) ≡ 0
    → Updated p.table (active p.func_stack (p.func_stack.top - 1)) (length p.arrays + 1) t
    → (f o : ℕ) → f ≢ 0
    → tally
        (record p { table = t; arrays = p.arrays ++ replicate first_unimplemented_op 0 ∷ [] })
        f
        o
      ≡ tally p f o
stored-tally p t c absent u f o ne =
    let curr = active p.func_stack (p.func_stack.top - 1) in
    let none_yet : ℕ = 0 in
    let zeros = replicate first_unimplemented_op none_yet in
    elim (ℕ_discrete curr f) [
      | yes e ↦
          let gone : view p.table f ≡ 0 = ap (view p.table) (sym e) ∙ absent in
          let back : length p.arrays + 1 - 1 ≡ length p.arrays = omega arith in
          rw
            (
              u.reads f ne,
              eq→== curr f e,
              gone,
              ne→== (length p.arrays + 1) none_yet (omega arith),
              back,
              get_or-append_last p.arrays zeros [],
            )
            (get_or-replicate first_unimplemented_op o none_yet)
      | no apart ↦ elim (ℕ_discrete (view p.table f) 0) [
        | yes z ↦ rw (u.reads f ne, ne→== curr f apart, z) refl
        | no there ↦
            let before : view p.table f - 1 < length p.arrays =
              omega (arith, c.stored f ne, there) in
            rw
              (
                u.reads f ne,
                ne→== curr f apart,
                get_or-append_left p.arrays (zeros ∷ []) (view p.table f - 1) [] before,
              )
              refl
      ]
    ]

alloc-Entered :
    (p : Profile)
    → IsEntering p
    → p.table.capacity * 2 < word_mod
    → Returns (array_alloc_op_counts true true p) (Entered p p.func_stack)
unfolding array_alloc_op_counts
alloc-Entered p c fits =
    let last = p.func_stack.top - 1 in
    let curr = active p.func_stack last in
    let nz = c.named last (omega (arith, c.some_function)) in
    let top = peek-active p.func_stack c.stack c.some_function in
    let found = ht_get-view p.table curr c.table nz in
    elim (ℕ_discrete (view p.table curr) 0) [
      | no known ↦ (
        p,
        rw (top, found, ne→== (view p.table curr) 0 known),
        record {
          counting = known-IsCounting p c known;
          stack = refl;
          filled = omega arith;
          roomy = λ roomy. roomy;
          same_base = refl;
          op_counts = refl;
          total = refl;
          tallies = λ f o ne. refl;
        },
      )
      | yes absent ↦
          let (out, run, u) =
            set_accepted p.table curr (length p.arrays + 1) c.table nz (omega arith) fits in
          let (filled, roomy) = Updated-IsRoomy p.table out.1 curr (length p.arrays + 1) u in
          (
            record p {
              table = out.1;
              arrays = p.arrays ++ replicate first_unimplemented_op 0 ∷ [];
            },
            rw (top, found, absent, ne→== curr 0 nz, run),
            record {
              counting = stored-IsCounting p out.1 (replicate first_unimplemented_op 0) c refl u;
              stack = refl;
              filled = filled;
              roomy = roomy;
              same_base = refl;
              op_counts = refl;
              total = refl;
              tallies = λ f o ne. stored-tally p out.1 c absent u f o ne;
            },
          )
    ]

-- The bookkeeping of APPLY for the function at `pc`, in a run in which every active function has its
-- array, whose address is not NULL, with every allocation granted and a table whose size can double.
-- It returns, with no failed assertion. The address of `pc` has been pushed on the function stack, which
-- a full stack ignores, and every function on the stack has its array, so the called one too if it was
-- pushed; the table has at most one entry more. No count of any function and no total has changed: a
-- new array holds zeros.
pub enter-Entered :
    (p : Profile) (pc : ℕ)
    → IsCounting p
    → address p pc ≢ 0
    → p.table.capacity * 2 < word_mod
    → Returns (enter true true p pc) (Entered p (func_stack_push p.func_stack (address p pc)).1)
unfolding enter
enter-Entered p pc c nz fits =
    let (r, run, e) =
      alloc-Entered (record p { func_stack = (func_stack_push p.func_stack (address p pc)).1 })
        (elim (ℕ_discrete p.func_stack.top p.func_stack.max_items) [
          | yes full ↦ push_full-IsEntering p (address p pc) c full
          | no room ↦ push_room-IsEntering p (address p pc) c nz room
        ])
        fits in
    (
      r,
      run,
      record {
        counting = e.counting;
        stack = e.stack;
        filled = e.filled;
        roomy = e.roomy;
        same_base = e.same_base;
        op_counts = e.op_counts;
        total = e.total;
        tallies = e.tallies;
      },
    )

pub enter-IsCounting :
    (p : Profile) (pc : ℕ)
    → IsCounting p
    → address p pc ≢ 0
    → p.table.capacity * 2 < word_mod
    → Returns (enter true true p pc) IsCounting
enter-IsCounting p pc c nz fits =
    let (r, run, e) = enter-Entered p pc c nz fits in (r, run, e.counting)

-- What a pop keeps.
record Popped (s r : FuncStack) : Type 0 where
  below : r.top ≤ s.top
  max_items : r.max_items ≡ s.max_items
  same : (i : ℕ) → active r i ≡ active s i

pop-Popped : (s : FuncStack) → StackLaws.IsValid s → Popped s (func_stack_pop s).1
unfolding func_stack_pop is_empty
pop-Popped s v = elim (ℕ_discrete s.nr_items 0) [
  | yes none_left ↦
      rw (eq→== s.nr_items 0 none_left)
        (record { below = omega arith; max_items = refl; same = λ i. refl })
  | no more ↦ rw (ne→== s.nr_items 0 more) (record {
    below = omega (arith, v.items, v.within, v.small);
    max_items = refl;
    same = λ i. refl;
  })
]

-- A return keeps it that every active function has its array.
pub leave-IsCounting : (p : Profile) → IsCounting p → IsCounting (leave p)
unfolding leave
leave-IsCounting p c =
    let u = pop-Popped p.func_stack c.stack in
    record {
      stack = pop-IsValid p.func_stack c.stack;
      table = c.table;
      room = omega (arith, u.max_items, c.room);
      named = λ i lt. rw (u.same i) (c.named i (omega (arith, u.below)));
      known = λ i lt. rw (u.same i) (c.known i (omega (arith, u.below)));
      stored = c.stored;
      distinct = c.distinct;
      sized = c.sized;
    }
