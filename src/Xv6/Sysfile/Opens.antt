-- ===== src/Xv6/Sysfile/Opens.antt =====
-- The calls of xv6/kernel/sysfile.c on paths, and the arguments that sys_exec collects.
use p.Prelude.{ℕ, zero, suc, ◌/◌, ◌%◌, true, false, ◌||◌, Option, none, some, List, [], ◌∷◌, ◌==◌}
use p.Word.{Word, Byte, minus_one, add32}
use p.Xv6.Outcome.{Action, pure, gets, modify, ◌>>=◌, ◌>>◌}
use p.Xv6.Fs.{t_dir, t_dev}
use p.Xv6.Fs.File.{Devices}
use p.Xv6.Fs.Icache.{iunlock, iunlockput}
use p.Xv6.Ftable.{File, fd_inode, file_of, put_file, filealloc, fileclose}
use p.Xv6.Syscall.{User, argint, argstr, fetchint, fetchstr}
use p.Xv6.Sysfile.Inodes.{link_inodes, unlink_inode, create, open_inode, chdir_inode}
use p.Xv6.Sysfile.Calls.{Task, on_files, on_inodes, or_fail, int_arg, str_arg, fdalloc}

abbrev pub maxarg : ℕ
maxarg = 32

-- The file that open sets up for an inode.
abbrev pub opened : ℕ → Word → File → File
opened ip omode f = record f {
  type = fd_inode;
  ip = ip;
  off = 0;
  readable = omode % 2 == 0;
  writable = omode % 2 == 1 || omode / 2 % 2 == 1;
}

-- The end of sys_open, with the descriptor or without.
unfoldable pub finish_open : ℕ → ℕ → Word → Option ℕ → Action Task Word
finish_open ip f omode none = do on_files (fileclose f); on_inodes (iunlockput ip); pure minus_one
finish_open ip f omode (some fd) = do
  on_inodes (iunlock ip)
  on_files (do a ← file_of f; put_file f (opened ip omode a))
  pure fd

-- sys_open with the locked inode, and the file where there is one.
unfoldable pub open_with : ℕ → Word → Option ℕ → Action Task Word
open_with ip omode none = do on_inodes (iunlockput ip); pure minus_one
open_with ip omode (some f) = do fd ← fdalloc f; finish_open ip f omode fd

module _ (devsw : Devices) (stack : List Byte) where
  unfoldable pub sys_open : Action Task Word
  sys_open = or_fail (str_arg 0) λ path. or_fail (int_arg 1) λ omode. do
    cwd ← gets λ (s : Task). s.cwd
    or_fail (on_inodes (open_inode devsw stack cwd path omode))
        λ ip. do f ← on_files filealloc; open_with ip omode f

  -- mkdir and mknod release what create gives.
  abbrev pub make : List Byte → Word → Word → Word → Action Task Word
  make path type major minor = do
    cwd ← gets λ (s : Task). s.cwd
    or_fail (on_inodes (create devsw stack cwd path type major minor))
        λ ip. do on_inodes (iunlockput ip); pure 0

  unfoldable pub sys_mkdir : Action Task Word
  sys_mkdir = or_fail (str_arg 0) λ path. make path t_dir 0 0

  -- The numbers of the device become shorts.
  unfoldable pub sys_mknod : Action Task Word
  sys_mknod = or_fail (str_arg 0) λ path.
      or_fail (int_arg 1)
        λ major. or_fail (int_arg 2) λ minor. make path t_dev (major % 65536) (minor % 65536)

  unfoldable pub sys_chdir : Action Task Word
  sys_chdir = or_fail (str_arg 0) λ path. do
    cwd ← gets λ (s : Task). s.cwd
    or_fail (on_inodes (chdir_inode devsw stack cwd path))
        λ ip. do modify λ (s : Task). record s { cwd = ip }; pure 0

  unfoldable pub sys_link : Action Task Word
  sys_link = or_fail (str_arg 0) λ old.
      or_fail (str_arg 1)
        λ new. do cwd ← gets λ (s : Task). s.cwd; on_inodes (link_inodes devsw stack cwd old new)

  unfoldable pub sys_unlink : Action Task Word
  sys_unlink =
      or_fail (str_arg 0)
        λ path. do cwd ← gets λ (s : Task). s.cwd; on_inodes (unlink_inode devsw stack cwd path)

-- The loop of sys_exec over the pointers of argv, k of them allowed.
unfoldable pub fetch_argv : User → ℕ → Word → Option (List (List Byte))
fetch_argv u zero uargv = none
fetch_argv u (suc k) uargv =
    let rest = fetch_argv u k (add32 uargv 4) in
    elim (fetchint u uargv) [
      | none ↦ none
      | some uarg ↦ elim (uarg == 0) [
        | true ↦ some []
        | false ↦ elim (fetchstr u uarg) [
          | none ↦ none
          | some s ↦ elim rest [ none ↦ none | some args ↦ some (s ∷ args) ]
        ]
      ]
    ]

-- The arguments of sys_exec for the call of exec: the path, and the strings of argv.
unfoldable pub exec_args : User → Option (List Byte × List (List Byte))
exec_args u = elim (argstr u 0) [
  | none ↦ none
  | some path ↦ elim (argint u 1) [
    | none ↦ none
    | some uargv ↦ elim (fetch_argv u maxarg uargv) [ none ↦ none | some args ↦ some (path, args) ]
  ]
]
