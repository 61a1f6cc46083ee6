-- ===== src/Profile/History/Runs.antt =====
-- Whole histories: nothing stops them, and the counts are exact.
use cc_implementation.Prelude.{
  get_or-replicate, ℕ, ◌*◌, ◌^◌, ◌<◌, ◌≤◌, ◌≢◌, refl, ◌∙◌, ap, arith, Bool, true, List, [], ◌∷◌,
  length, length-set, get_or, ◌>>=◌, Returns,
}
use cc_implementation.Word.{word_mod}
use cc_implementation.Profile.{
  Profile, enter, leave, count_opcode, new_profile, address, first_unimplemented_op,
}
use cc_implementation.FuncStack.{FuncStack}
use cc_implementation.FuncStack.Refine.{
  contents, list_pop, push-list_push, pop-list_pop, peek-list_pop,
}
use cc_implementation.HashTable.Laws.{new_table-IsFresh}
use cc_implementation.Profile.Calls.{enter-Entered, leave-IsCounting}
use cc_implementation.Profile.Counts.{count_opcode-Counted, get-bump}
use cc_implementation.Profile.Start.{first_profile, first_profile-IsCounting, new_profile-first}
use cc_implementation.Profile.History.{
  Event, call_event, return_event, opcode_event, record_event, after, Granted, AllGranted, IsExact,
}
use cc_implementation.Profile.History.Counting.{
  opcodes-le, times-le, times_in-le, tally-Counted, push-max_items, pop-max_items,
}

module _ (base : ℕ) (es : List Event) (p : Profile) (x : IsExact base es p)
    (room : length es < 2 ^ 60) where
  called-IsExact :
      (pc : ℕ)
      → base ≢ 0
      → Returns (enter true true p pc) (IsExact base (call_event true true pc ∷ es))
  called-IsExact pc nz =
      let some_address : address p pc ≢ 0 = omega (arith, x.same_base) in
      let fits : p.table.capacity * 2 < word_mod = omega (arith, x.roomy, x.filled) in
      let (r, run, e) = enter-Entered p pc x.counting some_address fits in
      (
        r,
        run,
        record {
          counting = e.counting;
          same_base = e.same_base ∙ x.same_base;
          filled = omega (arith, e.filled, x.filled);
          roomy = e.roomy x.roomy;
          limit =
              ap (λ (s : FuncStack). s.max_items) e.stack
              ∙ push-max_items p.func_stack (address p pc)
              ∙ x.limit;
          stack =
              ap contents e.stack
              ∙ ap (λ (q : Bool × List ℕ). q.1)
                  (push-list_push p.func_stack (address p pc) x.counting.stack)
              ∙ rw (x.limit, x.stack, x.same_base) refl;
          tallies = λ f o ne. e.tallies f o ne ∙ x.tallies f o ne;
          sized = ap (λ (c : List ℕ). length c) e.op_counts ∙ x.sized;
          total = e.total ∙ x.total;
          counts = λ o lt. ap (λ (c : List ℕ). get_or c o 0) e.op_counts ∙ x.counts o lt;
        },
      )

  returned-IsExact : IsExact base (return_event ∷ es) (leave p)
  unfolding leave
  returned-IsExact = record {
    counting = leave-IsCounting p x.counting;
    same_base = x.same_base;
    filled = omega (arith, x.filled);
    roomy = x.roomy;
    limit = pop-max_items p.func_stack ∙ x.limit;
    stack =
        ap (λ (q : ℕ × List ℕ). q.1) (pop-list_pop p.func_stack x.counting.stack)
        ∙ ap (λ xs. (list_pop xs).1) x.stack;
    tallies = x.tallies;
    sized = x.sized;
    total = x.total;
    counts = x.counts;
  }

  executed-IsExact :
      (opcode : ℕ)
      → opcode < first_unimplemented_op
      → Returns (count_opcode p opcode) (IsExact base (opcode_event opcode ∷ es))
  executed-IsExact opcode valid =
      let (r, run, c) = count_opcode-Counted p opcode x.counting valid in
      (
        r,
        run,
        record {
          counting = c.counting;
          same_base = c.same_base ∙ x.same_base;
          filled = rw c.same_table (omega (arith, x.filled));
          roomy = rw c.same_table x.roomy;
          limit = rw c.same_stack x.limit;
          stack = rw c.same_stack x.stack;
          tallies = λ f o ne.
              tally-Counted p r opcode x.counting c f o ne
                (omega (arith, x.tallies f o ne, times_in-le base f o es))
              ∙ rw (peek-list_pop p.func_stack x.counting.stack, x.stack, x.tallies f o ne) refl;
          sized = rw c.op_counts (length-set p.op_counts opcode _ ∙ x.sized);
          total = rw (c.total, x.total) (omega (arith, opcodes-le es));
          counts = λ o lt.
              let inside : opcode < length p.op_counts = omega (arith, x.sized) in
              rw (c.op_counts, get-bump p.op_counts opcode o inside, x.counts o lt)
                (ground (arith, times-le o es));
        },
      )

module _ (base : ℕ) (p : Profile) (nz : base ≢ 0) (x : IsExact base [] p) where
  after-IsExact :
      (es : List Event)
      → AllGranted es
      → length es ≤ 2 ^ 60
      → Returns (after es p) (IsExact base es)
  after-IsExact [] l small = (p, refl, x)
  after-IsExact (e ∷ es) l small =
      let (q, run, y) = after-IsExact es l.1 (omega arith) in
      let (r, run', z) = next_event e q y l.0 in (r, rw (run, run'), z)
    where
      next_event :
          (e : Event) (q : Profile)
          → IsExact base es q
          → Granted e
          → Returns (record_event e q) (IsExact base (e ∷ es))
      next_event (call_event got_array granted pc) q y l =
          rw (l.0, l.1) (called-IsExact base es q y (omega arith) pc nz)
      next_event return_event q y l = (leave q, refl, returned-IsExact base es q y (omega arith))
      next_event (opcode_event opcode) q y l = executed-IsExact base es q y (omega arith) opcode l

first_profile-IsExact : (base : ℕ) → IsExact base [] (first_profile base)
first_profile-IsExact base = record {
  counting = first_profile-IsCounting base;
  same_base = refl;
  filled = omega arith;
  roomy = omega arith;
  limit = refl;
  stack = refl;
  tallies = λ f o ne. rw (new_table-IsFresh.2 f ne) refl;
  sized = refl;
  total = refl;
  counts = λ o lt. let none_yet : ℕ = 0 in get_or-replicate first_unimplemented_op o none_yet;
}

pub after-first :
    (base : ℕ) (es : List Event)
    → base ≢ 0
    → AllGranted es
    → length es ≤ 2 ^ 60
    → Returns (after es (first_profile base)) (IsExact base es)
after-first base es nz l small =
    after-IsExact base (first_profile base) nz (first_profile-IsExact base) es l small

-- The counters never stop the interpreter and never miscount: if every allocation succeeds, the code
-- is not at NULL, all opcodes are valid and there are at most 2^60 of these events, then from the
-- counters that `caml_interprete` sets up every history of calls, returns and dispatches, in any
-- order and balanced or not, goes through without a failed assertion or an endless search. Then every
-- active function has its array; the function stack holds the calls that have not returned, but for
-- those made while 1024 functions were active; the total is the number of dispatches; the total of
-- each opcode is how often it was dispatched; and the count of an opcode in the array of a function
-- is how often it was dispatched while this function was the newest, and 0 if it has no array.
pub new_profile-after :
    (code_base : ℕ) (es : List Event)
    → code_base ≢ 0
    → AllGranted es
    → length es ≤ 2 ^ 60
    → Returns (new_profile true true true true true code_base >>= after es) (IsExact code_base es)
new_profile-after base es nz l small = rw (new_profile-first base) (after-first base es nz l small)
