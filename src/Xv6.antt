-- ===== src/Xv6.antt =====
-- Parts of the xv6 kernel (xv6/kernel) and of its user programs (xv6/user).
pub mod Strings
pub mod Grep
pub mod Pipe
pub mod Kalloc
pub mod Outcome
pub mod Fs
pub mod Bcache
pub mod Ftable
pub mod Ulib
pub mod Shell
pub mod Syscall
pub mod Sysfile
pub mod Spinlock
pub mod Proc
