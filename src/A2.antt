-- ===== src/A2.antt =====
-- The second assignment, a2/: the shell with a scheduler and demand paging.
pub mod Memory
pub mod Pcb
pub mod ReadyQueue
pub mod Shell
pub mod Errors
pub mod Kernel
pub mod Interpreter
