-- ===== src/Lib.antt =====
-- A verification library for a networked log-structured file server and parts of the xv6 system.
--
-- linux/lfs.c serves files from one image file: a checkpoint region (the inode map of 4096 words and
-- the number of the next free block), then a log of blocks of 4096 bytes that hold directory blocks,
-- inodes and data. linux/listenServer.c receives packets and calls the operation that each names;
-- linux/mfs.c is the client library, which sends packets through linux/sendPacket.c until a response
-- comes.
--
-- Files and code:
--   Prelude, Prelude/*       shared names, Boolean tests, lists with native indices
--   Word, CString, Disk      32-bit words and their bytes, C strings in arrays, the image file behind
--                            a descriptor (lseek, read and write of a regular file)
--   Struct                   the structures of linux/lfs.h and linux/mfs.h and their bytes
--   Lfs/State                the globals of linux/lfs.c, update_CR, find_inode, build_dir_block
--   Lfs/Start                start_server;  Lfs/Lookup: lookup_server, stat_server
--   Lfs/Transfer             write_server, read_server;  Lfs/Creat: creat_server
--   Lfs/Unlink               unlink_server
--   Lfs/Unlink/*             what unlink_server refuses, and that it keeps the checkpoint region
--   Lfs/Creat/*              what creat_server refuses, where it puts an entry, what a lookup finds then
--   Mfs/Packet, Send, Client linux/mfs.h, sendPacket of linux/sendPacket.c, the calls of linux/mfs.c
--   Mfs/Listen               the loop of linux/listenServer.c
--   Xv6/Strings              xv6/kernel/string.c over a byte memory
--   Xv6/Pipe                 xv6/kernel/pipe.c: a lock makes the code between two sleeps one step, and
--                            a sleep is an argument that says what the others do meanwhile
--   Xv6/Kalloc               xv6/kernel/kalloc.c over the same memory, which holds the list's links
--   Xv6/Outcome              a computation that returns, panics, or waits for ever
--   Xv6/Fs, Xv6/Fs/*         xv6/kernel/fs.c and xv6/include/fs.h over disks of sectors: Alloc has
--                            balloc and bfree, File bmap, itrunc, stati, readi and writei with their
--                            checksums, Icache the table of inodes in memory, Directory dirlookup and
--                            dirlink, Path skipelem and namex
--   Xv6/Bcache               xv6/kernel/bio.c, and iderw of xv6/kernel/ide.c as a transfer of a sector
--   Xv6/Ftable               xv6/kernel/file.c over Xv6/Pipe and Xv6/Fs
--   Xv6/Proc                 xv6/kernel/proc.c; Xv6/Proc/Steps: its operations as one step relation
--   Xv6/Ulib                 xv6/user/ulib.c and printf.c
--   Xv6/Spinlock             xv6/kernel/spinlock.c as one processor runs it
--   Xv6/Syscall              the fetches of arguments of xv6/kernel/syscall.c
--   Xv6/Sysfile              xv6/kernel/sysfile.c: Inodes has the parts of link, unlink, create and open
--                            on inodes, Calls and Opens the calls, with pipealloc of xv6/kernel/pipe.c
--   Xv6/Shell                the parser of xv6/user/sh.c; Xv6/Shell/Printer: commands as lines
--   Xv6/Grep                 the matcher of xv6/user/grep.c
--   Tests/*                  runs at fixed inputs, and the theorems at inputs that meet their premises
--
-- Operations are functions from a state to a result and a state, with the C names in snake case. An
-- `int` is its 32-bit pattern, -1 is 0xffff_ffff, and a test `x < 0` looks at the top bit; a product
-- block * BLOCKSIZE wraps, and a seek to a negative offset fails and leaves the offset. What an
-- uninitialised local or buffer holds beforehand is an argument, over which the theorems quantify; a
-- short read leaves the rest of its buffer. Reads and writes of the image do not fail otherwise.
-- Loops with a fixed number of rounds recur on the rounds left, and loops over an array on its
-- elements, so none runs on guessed fuel; strlen of the kernel runs on fuel, and a theorem says that
-- one unit for each byte up to the NUL is enough; kinit runs on fuel for the 4096 pages that lie below
-- PHYSTOP and one test more, and a theorem says that it ends; the loop of sendPacket runs over the
-- rounds that the network gives it, and has no result while they bring no packet. In Xv6/Fs, what
-- runs out of fuel `hangs`, as does a sleep that only another process ends. balloc has a unit for each
-- block of the disk and one more, readi and writei one for each byte, dirlookup and dirlink one for each
-- block or entry of the directory and two more, namex one for each byte of the path and one more; the
-- theorems on balloc, readi and writei have results other than `hangs`. printint prints at most 32 digits.
-- parsecmd has four units for each byte of the line and four more, and a theorem says that they are
-- enough; isdirempty has one for each entry of the directory and two more.
--
-- A system call reads its arguments from the memory of the process; what kalloc gives to pipealloc is an
-- argument, and a call is one step but for the sleeps of a pipe. sys_exec stops before its call of exec.
--
-- Not modelled: exec, page tables, runcmd of the shell and its malloc, the buffer cache under xv6/kernel/fs.c (its bread gives the sector, its
-- bwrite stores it, and a buffer is never busy), the links of xv6/kernel/bio.c, the disk's ports,
-- the locks around the kernel's code but for the busy flag of an inode, the trap frame, stack and context of a process, what
-- interrupts a fork or an exit before it takes ptable.lock, prints, shutdown_server (fsync and
-- exit), the socket calls of linux/udp.c, the main programs, an index outside a C array
-- (undefined; here it reads a default and writes nothing), a name that is not terminated inside
-- its 28 bytes, and the 8-byte buffer into which MFS_Init copies the host's name.

pub mod Prelude
pub mod Word
pub mod Disk
pub mod CString
pub mod Struct
pub mod Lfs
pub mod Mfs
pub mod Xv6
pub mod Tests
