-- ===== src/Xv6/Sysfile.antt =====
-- The file system calls of xv6/kernel/sysfile.c. A Task is the running process: its memory and arguments,
-- its open files, its directory, and the file table and the inodes behind it. The array `name` of a
-- function that looks up a path, and what the inode table and the devices are, are arguments.
pub mod Inodes
pub mod Calls
pub mod Opens
pub mod Modes
pub mod Counted
pub mod Returning
pub mod Descriptors
pub mod Pipealloc
pub mod PipeCall
pub mod Transfers
pub mod Keeping
pub mod Kept
pub mod Runs
