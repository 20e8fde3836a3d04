-- ===== src/A1.antt =====
-- The first assignment, a1/: a shell with variables and scripts.
pub mod Memory
pub mod Words
pub mod Shell
pub mod Interpreter
