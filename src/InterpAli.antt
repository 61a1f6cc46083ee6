-- ===== src/InterpAli.antt =====
-- The interpreter of interp-ali.c, for the bytecode of OCaml 4: one stack that grows, no effects, and
-- no counters for functions. It has the registers of interp.c, `Machine`, with `trap_sp_off` for the
-- distance in words from `stack_high` to `trapsp`, and `trap_barrier_off` for that to `trap_barrier`.
-- Instructions that the modules below do not define have the statements of interp.c, and are shared.
-- `Runtime` stands here for `caml_something_to_do` (`is_pending`), for `sp < stack_threshold`, for
-- `caml_realloc_stack` (`try_realloc_stack`, and `stack_overflow` for what it raises), and in
-- allocations for `caml_alloc_small_dispatch` (`process_pending_actions`).
pub mod Control
pub mod Apply
pub mod Step
pub mod Programs
pub mod Alike
pub mod Tests
