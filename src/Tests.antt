-- ===== src/Tests.antt =====
-- Runs of the code at fixed inputs, and the theorems at inputs that meet their hypotheses.
mod Image
mod Server
mod Network
mod Creat
mod Xv6
mod Pipe
mod Kalloc
mod Fs
mod Proc
mod Ulib
mod Bcache
mod Ftable
mod Shell
mod Sysfile
mod Spinlock
