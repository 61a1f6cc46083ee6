-- ===== src/Interp.antt =====
-- The bytecode interpreter, `caml_interprete` of interp.c.
pub mod Machine
pub mod Memory
pub mod Runtime
pub mod Basic
pub mod Control
pub mod Apply
pub mod Blocks
pub mod Ints
pub mod Objects
pub mod Effects
pub mod Opcodes
pub mod Step
pub mod Sound
pub mod Programs
pub mod Tests
