-- ===== src/Profile/Counts.antt =====
-- The counts of each function: what the bookkeeping before a dispatch adds to them.
use native.Mathlib.Decide.{ℕ_discrete}
use cc_implementation.Prelude.{
  ℕ, ◌-◌, ◌<◌, ◌≡◌, ◌≢◌, refl, sym, ◌∙◌, arith, true, false, List, [], length, get_or,
  get_or-set_self, get_or-set_ne, length-set, ltb, if◌then◌else◌, ◌==◌, ◌&&◌, done, Returns, ne→==,
  eq→==,
}
use cc_implementation.Word.{add64}
use cc_implementation.HashTable.Laws.{view, ht_get-view}
use cc_implementation.FuncStack.{is_empty}
use cc_implementation.Profile.{
  Profile, first_unimplemented_op, bump, count_in, ht_curr_inc_opcount, count_opcode,
}
use cc_implementation.Profile.Laws.{active, IsCounting, peek-active}

-- How often the array of a function has counted an opcode.
abbrev pub counted : Profile → ℕ → ℕ → ℕ
counted p f opcode = get_or (get_or p.arrays (view p.table f - 1) []) opcode 0

-- The same, with 0 for a function that has no array.
abbrev pub tally : Profile → ℕ → ℕ → ℕ
tally p f opcode = if view p.table f == 0 then 0 else counted p f opcode

-- The function that runs, as the function stack has it.
abbrev pub current : Profile → ℕ
current p = active p.func_stack (p.func_stack.top - 1)

-- One count more, for this opcode of this function.
abbrev pub one_more : Profile → ℕ → ℕ → ℕ → ℕ
one_more p opcode f o =
    if f == current p && o == opcode then add64 (counted p f o) 1 else counted p f o

pub get-bump :
    (counts : List ℕ) (i o : ℕ)
    → i < length counts
    → get_or (bump counts i) o 0
      ≡ (if o == i then add64 (get_or counts o 0) 1 else get_or counts o 0)
get-bump counts i o h = elim (ℕ_discrete o i) [
  | yes e ↦ rw (e, get_or-set_self counts i (add64 (get_or counts i 0) 1) 0 h) (ground arith)
  | no ne ↦
      rw (ne→== o i ne) (get_or-set_ne counts i o (add64 (get_or counts i 0) 1) 0 (λ e. ne (sym e)))
]

-- What the counting of one opcode leaves: every function keeps its array, and in a function only one
-- count changes, that of the opcode in the function that runs.
pub record Counted (p : Profile) (opcode : ℕ) (r : Profile) : Type 0 where
  pub counting : IsCounting r
  pub same_stack : r.func_stack ≡ p.func_stack
  pub same_table : r.table ≡ p.table
  pub same_base : r.code_base ≡ p.code_base
  pub op_counts : r.op_counts ≡ bump p.op_counts opcode
  pub total : r.total_op_count ≡ add64 p.total_op_count 1
  pub counts :
      (f o : ℕ)
      → f ≢ 0
      → view p.table f ≢ 0
      → counted r f o ≡ (if p.func_stack.top == 0 then counted p f o else one_more p opcode f o)

module _ (p : Profile) (opcode : ℕ) (c : IsCounting p)
    (valid : opcode < first_unimplemented_op) where
  -- The counters after the totals were raised.
  abbrev raised : Profile
  raised = record p {
    op_counts = bump p.op_counts opcode;
    total_op_count = add64 p.total_op_count 1;
  }

  -- The counters after the array of the current function was raised, too.
  abbrev recorded : Profile
  recorded = record raised { arrays = count_in p.arrays (view p.table (current p) - 1) opcode }

  count_opcode-idle : p.func_stack.top ≡ 0 → count_opcode p opcode ≡ done raised
  unfolding count_opcode is_empty
  count_opcode-idle h =
      let none_active : (p.func_stack.nr_items == 0) ≡ true = ground (arith, c.stack.items) in
      let test : ltb opcode first_unimplemented_op ≡ true = ground arith in rw (test, none_active)

  count_opcode-active : 0 < p.func_stack.top → count_opcode p opcode ≡ done recorded
  unfolding count_opcode is_empty ht_curr_inc_opcount
  count_opcode-active h =
      let some_active : (p.func_stack.nr_items == 0) ≡ false = ground (arith, c.stack.items) in
      let test : ltb opcode first_unimplemented_op ≡ true = ground arith in
      let nz = c.named (p.func_stack.top - 1) (omega arith) in
      let there = c.known (p.func_stack.top - 1) (omega arith) in
      rw (
        test,
        some_active,
        peek-active p.func_stack c.stack h,
        ne→== (current p) 0 nz,
        ht_get-view p.table (current p) c.table nz,
        ne→== (view p.table (current p)) 0 there,
      )

  raised-IsCounting : IsCounting raised
  raised-IsCounting = record {
    stack = c.stack;
    table = c.table;
    room = c.room;
    named = c.named;
    known = c.known;
    stored = c.stored;
    distinct = c.distinct;
    sized = c.sized;
  }

  module _ (some_active : 0 < p.func_stack.top) where
    abbrev index : ℕ
    index = view p.table (current p) - 1

    current-named : current p ≢ 0
    current-named = c.named (p.func_stack.top - 1) (omega arith)

    current-known : view p.table (current p) ≢ 0
    current-known = c.known (p.func_stack.top - 1) (omega arith)

    index_inside : index < length p.arrays
    index_inside = omega (arith, current-known, c.stored (current p) current-named)

    array_here : get_or recorded.arrays index [] ≡ bump (get_or p.arrays index []) opcode
    array_here =
        get_or-set_self p.arrays index (bump (get_or p.arrays index []) opcode) [] index_inside

    array_there : (j : ℕ) → index ≢ j → get_or recorded.arrays j [] ≡ get_or p.arrays j []
    array_there j ne = get_or-set_ne p.arrays index j (bump (get_or p.arrays index []) opcode) [] ne

    same_length : length recorded.arrays ≡ length p.arrays
    same_length = length-set p.arrays index (bump (get_or p.arrays index []) opcode)

    recorded-IsCounting : IsCounting recorded
    recorded-IsCounting = record {
      stack = c.stack;
      table = c.table;
      room = c.room;
      named = c.named;
      known = c.known;
      stored = λ q ne. rw same_length (c.stored q ne);
      distinct = c.distinct;
      sized = λ j lt. elim (ℕ_discrete index j) [
        | yes e ↦
            rw (← e, array_here)
              (length-set (get_or p.arrays index []) opcode _ ∙ c.sized index index_inside)
        | no ne ↦ rw (array_there j ne) (c.sized j (omega (arith, same_length)))
      ];
    }

    recorded-counts :
        (f o : ℕ) → f ≢ 0 → view p.table f ≢ 0 → counted recorded f o ≡ one_more p opcode f o
    recorded-counts f o nf there = elim (ℕ_discrete f (current p)) [
      | yes e ↦
          let inside : opcode < length (get_or p.arrays index []) =
            omega (arith, c.sized index index_inside) in
          rw (e, eq→== (current p) (current p) refl, array_here)
            (get-bump (get_or p.arrays index []) opcode o inside)
      | no ne ↦
          let apart : index ≢ view p.table f - 1 = (λ e. ne (
            c.distinct f (current p) nf current-named there
              (omega (arith, there, current-known)))) in
          rw (ne→== f (current p) ne, array_there (view p.table f - 1) apart)
    ]

-- Counting a valid opcode never fails an assertion: in a run in which every active function has its
-- array, the bookkeeping before the dispatch returns, and every active function keeps its array. The
-- total and the total of this opcode grow by one. If a function is active, the count of this opcode in the newest one grows by
-- one, modulo 2^64, and no other count of any function changes; if none is, no count changes.
pub count_opcode-Counted :
    (p : Profile) (opcode : ℕ)
    → IsCounting p
    → opcode < first_unimplemented_op
    → Returns (count_opcode p opcode) (Counted p opcode)
count_opcode-Counted p opcode c valid = elim (ℕ_discrete p.func_stack.top 0) [
  | yes idle ↦ (
    raised p opcode c valid,
    count_opcode-idle p opcode c valid idle,
    record {
      counting = raised-IsCounting p opcode c valid;
      same_stack = refl;
      same_base = refl;
      op_counts = refl;
      same_table = refl;
      total = refl;
      counts = λ f o nf there. rw idle;
    },
  )
  | no active_one ↦
      let some_active : 0 < p.func_stack.top = omega arith in
      (
        recorded p opcode c valid,
        count_opcode-active p opcode c valid some_active,
        record {
          counting = recorded-IsCounting p opcode c valid some_active;
          same_stack = refl;
          same_base = refl;
          op_counts = refl;
          same_table = refl;
          total = refl;
          counts = λ f o nf there.
              rw (ne→== p.func_stack.top 0 active_one)
                (recorded-counts p opcode c valid some_active f o nf there);
        },
      )
]
