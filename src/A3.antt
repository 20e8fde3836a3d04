-- ===== src/A3.antt =====
-- The third assignment, a3/: the shell with paged processes and a file system.
pub mod Memory
pub mod LinkedList
pub mod Pcb
pub mod Cpu
pub mod Kernel
