-- ===== src/Xv6/Sysfile/Calls.antt =====
-- The calls of xv6/kernel/sysfile.c on open files and pipes, and pipealloc of xv6/kernel/pipe.c. A file is its
-- index in ftable.file, a descriptor its place in proc->ofile; -1 is `none` in a helper.
use p.Prelude.{
  ℕ, ◌+◌, Bool, true, false, ◌||◌, not, Option, none, some, List, [], ◌∷◌, ◌++◌, leb, if◌then◌else◌,
  get_or, set,
}
use p.Word.{Word, Byte, minus_one, is_neg, word_bytes}
use p.Disk.{bytes_at, splice}
use p.Xv6.Outcome.{done, panics, hangs, Action, pure, gets, modify, ◌>>=◌, ◌>>◌}
use p.Xv6.Pipe.{Pipe, Sleep}
use p.Xv6.Fs.{short_bytes}
use p.Xv6.Fs.File.{Stat, Devices}
use p.Xv6.Fs.Icache.{Fs}
use p.Xv6.Ftable.{
  Files, File, fd_pipe, on_fs, file_of, put_file, set_pipe, filealloc, filedup, fileclose, filestat,
  fileread, filewrite, byte_count,
}
use p.Xv6.Syscall.{User, argint, argptr, argstr}

abbrev pub nofile : ℕ
nofile = 16

-- `ofile` has NOFILE places.
pub record Task : Type 0 where
  pub user : User
  pub ofile : List (Option ℕ)
  pub cwd : ℕ
  pub files : Files

abbrev pub on_files : {A : Type 0} → Action Files A → Action Task A
on_files m s = elim (m s.files) [
  | done (a, files) ↦ done (a, record s { files = files })
  | panics ↦ panics
  | hangs ↦ hangs
]

abbrev pub on_inodes : {A : Type 0} → Action Fs A → Action Task A
on_inodes m = on_files (on_fs m)

-- if((x = …) < 0) return -1;
abbrev pub or_fail :
    {A : Type 0} → Action Task (Option A) → (A → Action Task Word) → Action Task Word
or_fail m k = do r ← m; elim r [ none ↦ pure minus_one | some a ↦ k a ]

abbrev pub int_arg : ℕ → Action Task (Option Word)
int_arg n = gets λ s. argint s.user n

abbrev pub ptr_arg : ℕ → Word → Action Task (Option Word)
ptr_arg n size = gets λ s. argptr s.user n size

abbrev pub str_arg : ℕ → Action Task (Option (List Byte))
str_arg n = gets λ s. argstr s.user n

abbrev pub set_ofile : ℕ → Option ℕ → Action Task (Unit {0})
set_ofile fd f = modify λ (s : Task). record s { ofile = set s.ofile fd f }

-- Bytes for the memory of the process.
abbrev pub store : ℕ → List Byte → Action Task (Unit {0})
store a bytes =
    modify λ (s : Task). record s { user = record s.user { memory = splice s.user.memory a bytes } }

-- The descriptor and its file.
unfoldable pub argfd : ℕ → Task → Option (ℕ × ℕ)
argfd n s = elim (argint s.user n) [
  | none ↦ none
  | some fd ↦
      if is_neg fd || leb nofile fd
      then none
      else elim (get_or s.ofile fd none) [ none ↦ none | some f ↦ some (fd, f) ]
]

abbrev pub fd_arg : ℕ → Action Task (Option (ℕ × ℕ))
fd_arg n = gets (argfd n)

-- The loop of fdalloc from descriptor fd on.
unfoldable pub find_fd : List (Option ℕ) → ℕ → Option ℕ
find_fd [] fd = none
find_fd (none ∷ fs) fd = some fd
find_fd (some f ∷ fs) fd = find_fd fs (fd + 1)

unfoldable pub fdalloc : ℕ → Action Task (Option ℕ)
fdalloc f s = elim (find_fd s.ofile 0) [
  | none ↦ done (none, s)
  | some fd ↦ (do set_ofile fd (some f); pure (some fd)) s
]

unfoldable pub sys_dup : Action Task Word
sys_dup = or_fail (fd_arg 0) λ (_, f). or_fail (fdalloc f) λ fd. do on_files (filedup f); pure fd

unfoldable pub sys_close : Action Task Word
sys_close = or_fail (fd_arg 0) λ (fd, f). do set_ofile fd none; on_files (fileclose f); pure 0

-- The fields of a struct stat, with the gaps between them left as they are.
unfoldable pub store_stat : ℕ → Stat → Action Task (Unit {0})
store_stat a st = do
  store a (short_bytes st.type)
  store (a + 4) (word_bytes st.dev ++ word_bytes st.ino ++ short_bytes st.nlink)
  store (a + 16) (word_bytes st.size ++ st.checksum ∷ [])

unfoldable pub sys_fstat : Action Task Word
sys_fstat = or_fail (fd_arg 0) λ (_, f).
    or_fail (ptr_arg 1 24) λ a. or_fail (on_files (filestat f)) λ st. do store_stat a st; pure 0

module _ (devsw : Devices) (sleeps : List Sleep) (killed : Bool) where
  -- The result of fileread is what read returns, and its bytes go to the memory at `p`.
  unfoldable pub sys_read : Action Task Word
  sys_read = or_fail (fd_arg 0) λ (_, f). or_fail (int_arg 2) λ n.
      or_fail (ptr_arg 1 n)
        λ a. do (r, bytes) ← on_files (fileread devsw f n sleeps killed); store a bytes; pure r

  unfoldable pub sys_write : Action Task Word
  sys_write = or_fail (fd_arg 0) λ (_, f). or_fail (int_arg 2) λ n. or_fail (ptr_arg 1 n) λ a. do
    bytes ← gets λ s. bytes_at s.user.memory a (byte_count n)
    on_files (filewrite devsw f bytes n sleeps killed)

-- An end of the pipe.
abbrev pub pipe_end : ℕ → Bool → File → File
pipe_end pi writable f = record f {
  type = fd_pipe;
  readable = not writable;
  writable = writable;
  pipe = pi;
}

abbrev pub new_pipe : Pipe → Pipe
new_pipe q = record q { readopen = true; writeopen = true; nread = 0; nwrite = 0 }

-- sys_pipe where a descriptor is missing.
unfoldable pub close_ends : ℕ → ℕ → Action Task Word
close_ends rf wf = do on_files (fileclose rf); on_files (fileclose wf); pure minus_one

-- `page` is the new pipe that kalloc gives, if there is one.
module _ (page : Option ℕ) where
  -- The files of its two ends.
  unfoldable pub pipealloc : Action Files (Option (ℕ × ℕ))
  pipealloc = do
    r0 ← filealloc
    elim r0 [
      | none ↦ pure none
      | some f0 ↦ do
        r1 ← filealloc
        elim r1 [
          | none ↦ do fileclose f0; pure none
          | some f1 ↦ elim page [
            | none ↦ do fileclose f0; fileclose f1; pure none
            | some pi ↦ do
              modify λ (s : Files). set_pipe pi (new_pipe (s.pipes pi)) s
              a ← file_of f0
              put_file f0 (pipe_end pi false a)
              b ← file_of f1
              put_file f1 (pipe_end pi true b)
              pure (some (f0, f1))
          ]
        ]
    ]

  unfoldable pub sys_pipe : Action Task Word
  sys_pipe = or_fail (ptr_arg 0 8) λ a. or_fail (on_files pipealloc) λ (rf, wf). do
    r0 ← fdalloc rf
    elim r0 [
      | none ↦ close_ends rf wf
      | some fd0 ↦ do
        r1 ← fdalloc wf
        elim r1 [
          | none ↦ do set_ofile fd0 none; close_ends rf wf
          | some fd1 ↦ do store a (word_bytes fd0 ++ word_bytes fd1); pure 0
        ]
    ]
