-- ===== src/Tests/Sysfile.antt =====
-- xv6/kernel/syscall.c and xv6/kernel/sysfile.c at fixed inputs, and the theorems on them.
use p.Prelude.{
  ℕ, zero, suc, ◌+◌, ◌<◌, ◌≤◌, ap, ◌≡◌, ◌≢◌, refl, ◌⊎◌, true, false, Option, none, some, List, [],
  ◌∷◌, replicate, get_or, arith,
}
use p.Word.{Word, Byte, minus_one, encode_words, word_bytes, bytes_word}
use p.Disk.{splice}
use p.Xv6.Outcome.{done}
use p.Xv6.Pipe.{Pipe}
use p.Xv6.Fs.File.{Devices}
use p.Xv6.Ftable.{File, fd_none, fd_inode, free_file, filedup}
use p.Xv6.Syscall.{User, argint, argptr, argstr, fetchint, fetchstr, string_from}
use p.Xv6.Syscall.Bounds.{IsBlock, IsString, argptr-IsBlock, argptr-minus_one, argstr-IsString}
use p.Xv6.Sysfile.Inodes.{open_inode}
use p.Xv6.Sysfile.Opens.{open_with}
use p.Xv6.Sysfile.Modes.{open_inode-o_checked}
use p.Xv6.Sysfile.Calls.{Task, argfd, find_fd, fdalloc, sys_dup, sys_pipe}
use p.Xv6.Sysfile.Counted.{file_at, refs, hit_ne}
use p.Xv6.Sysfile.Descriptors.{IsCounted, Dup, sys_dup-IsCounted, Close, sys_close-IsCounted}
use p.Xv6.Sysfile.PipeCall.{MakesPipe, sys_pipe-IsCounted}
use p.Xv6.Sysfile.Runs.{Runs, start, system, dup, Runs-IsCounted}

-- 4096 bytes of memory; the stack at 64 holds a return address and the arguments 0, 128 and 10, and at 128
-- is the string "a".
abbrev user : User
user = record {
  sz = 4096;
  esp = 64;
  memory = splice (splice (λ a. 0) 64 (encode_words (0 ∷ 0 ∷ 128 ∷ 10 ∷ []))) 128 (b'a' ∷ []);
}

pointer : argint user 1 ≡ some 128
unfolding argint fetchint splice encode_words word_bytes bytes_word
pointer = refl

text : argstr user 1 ≡ some (b'a' ∷ [])
unfolding argstr fetchstr string_from argint fetchint splice encode_words word_bytes bytes_word
text = refl

argptr-IsBlock_example :
    ((argptr user 1 10 ≡ some 128) × IsBlock user 128 10)
    ⊎ ((argptr user 1 10 ≡ none) × (IsBlock user 128 10 → ⊥))
argptr-IsBlock_example = argptr-IsBlock user 1 10 128 (omega arith) refl pointer

argptr-minus_one_example : (argptr user 1 minus_one ≡ some 128) × (IsBlock user 128 minus_one → ⊥)
argptr-minus_one_example =
    argptr-minus_one user 1 128 (omega arith) pointer (omega arith) (omega arith)

argstr-IsString_example :
    ((s : List Byte) × (argstr user 1 ≡ some s) × IsString user 128 s)
    ⊎ ((argstr user 1 ≡ none) × ((j : ℕ) → 128 ≤ j → j < 4096 → user.memory j ≢ 0))
argstr-IsString_example = argstr-IsString user 1 128 pointer

abbrev no_devices : Devices
no_devices = record { read = λ major. none; write = λ major. none }

-- O_RDWR and O_CREATE, and O_CHECKED added to them.
open_inode-o_checked_example :
    (open_inode no_devices [] 0 (b'a' ∷ []) 0x602 ≡ open_inode no_devices [] 0 (b'a' ∷ []) 0x202)
    × ((ip : ℕ) (file : Option ℕ) → open_with ip 0x602 file ≡ open_with ip 0x202 file)
open_inode-o_checked_example =
    open_inode-o_checked no_devices [] 0 (b'a' ∷ []) 0x202 (λ e. absurd (omega (arith, e)))

abbrev no_pipe : Pipe
no_pipe = record {
  bytes = λ i. 0;
  nread = 0;
  nwrite = 0;
  readopen = false;
  writeopen = false;
  calls = [];
}

-- Descriptor 0 is a file that another process has open too.
abbrev task : Task
task = record {
  user = user;
  ofile = some 0 ∷ replicate 15 none;
  cwd = 0;
  files = record {
    table = record free_file { type = fd_inode; ref = 2; readable = true } ∷ replicate 99 free_file;
    pipes = λ i. no_pipe;
    fs = record { drives = λ dev sector a. 0; icache = [] };
  };
}

abbrev elsewhere : ℕ → ℕ
elsewhere zero = 1
elsewhere (suc i) = 0

free_place : (n i : ℕ) → get_or (replicate n free_file) i free_file ≡ free_file
free_place zero i = refl
free_place (suc n) zero = refl
free_place (suc n) (suc i) = free_place n i

count_at : (i : ℕ) → (file_at task.files.table i).ref ≡ elsewhere i + refs task.ofile i
count_at zero = refl
count_at (suc i) =
    omega
      (arith, ap (λ (f : File). f.ref) (free_place 99 i), hit_ne 0 (suc i) (λ e. omega (arith, e)))

idle_at :
    (i : ℕ) → (file_at task.files.table i).ref ≡ 0 → (file_at task.files.table i).type ≡ fd_none
idle_at zero e = absurd (omega (arith, e))
idle_at (suc i) e = ap (λ (f : File). f.type) (free_place 99 i)

task-IsCounted : IsCounted elsewhere task
task-IsCounted = record { counted = count_at; idle = idle_at }

sys_dup-IsCounted_example :
    (r : Word) × (t : Task) × (sys_dup task ≡ done (r, t))
    × IsCounted elsewhere t
    × Dup elsewhere task r t
sys_dup-IsCounted_example = sys_dup-IsCounted elsewhere task task-IsCounted

sys_close-IsCounted_example : Close elsewhere task
sys_close-IsCounted_example = sys_close-IsCounted elsewhere task task-IsCounted

abbrev page : Option ℕ
page = some 7

sys_pipe-IsCounted_example :
    (r : Word) × (t : Task) × (sys_pipe page task ≡ done (r, t))
    × IsCounted elsewhere t
    × MakesPipe elsewhere page task r t
sys_pipe-IsCounted_example = sys_pipe-IsCounted elsewhere page task task-IsCounted

-- The task after dup.
abbrev copied : Task
copied = record task {
  ofile = some 0 ∷ some 0 ∷ replicate 14 none;
  files = record task.files {
    table = record free_file { type = fd_inode; ref = 3; readable = true } ∷ replicate 99 free_file;
  };
}

dup_runs : sys_dup task ≡ done (1, copied)
unfolding sys_dup argfd argint fetchint splice encode_words word_bytes bytes_word fdalloc find_fd
    filedup
dup_runs = refl

copied_reached : Runs no_devices task copied
copied_reached = system start dup 1 dup_runs

Runs-IsCounted_example :
    IsCounted elsewhere copied
    × ((fd f : ℕ) → get_or copied.ofile fd none ≡ some f → (file_at copied.files.table f).ref ≢ 0)
Runs-IsCounted_example =
    Runs-IsCounted no_devices elsewhere task copied task-IsCounted copied_reached
