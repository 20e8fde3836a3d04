-- ===== src/Tests.antt =====
-- The theorems at concrete inputs, and runs of the model.
pub mod TestFs
pub mod TestInode
pub mod TestFile
pub mod TestDirectory
pub mod TestAdd
pub mod TestA1
pub mod TestShell
pub mod TestA2
pub mod TestA3
pub mod TestLinkedList
pub mod TestPcb
pub mod TestKernel
pub mod TestA2Kernel
