-- ===== src/Fs.antt =====
-- The file system of the third assignment, a3/fs/.
pub mod Cache
pub mod Inode
pub mod File
pub mod Directory
pub mod FileSys
