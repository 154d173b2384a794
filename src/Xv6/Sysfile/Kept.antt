-- ===== src/Xv6/Sysfile/Kept.antt =====
-- Each call of xv6/kernel/sysfile.c keeps the references of the file table exact where it returns.
use p.Prelude.{ℕ, ◌%◌, ◌≡◌, ◌≢◌, refl, Bool, Option, none, some, List, get_or, arith}
use p.Word.{Word, Byte, minus_one}
use p.Xv6.Outcome.{done, Action, pure, gets, ◌>>=◌, ◌>>◌}
use p.Disk.{bytes_at}
use p.Xv6.Fs.{t_dir, t_dev}
use p.Xv6.Pipe.{Sleep}
use p.Xv6.Fs.File.{Stat, Devices}
use p.Xv6.Fs.Icache.{Fs, iunlock, iunlockput}
use p.Xv6.Ftable.{
  file_of, put_file, byte_count, filealloc, fileclose, filestat, fileread, filewrite,
}
use p.Xv6.Syscall.{argint, argptr, argstr}
use p.Xv6.Sysfile.Inodes.{open_inode, create, chdir_inode, link_inodes, unlink_inode}
use p.Xv6.Sysfile.Calls.{
  Task, int_arg, ptr_arg, str_arg, store, on_files, on_inodes, or_fail, argfd, fdalloc, sys_fstat,
  store_stat, sys_read, sys_write,
}
use p.Xv6.Sysfile.Opens.{
  opened, finish_open, open_with, make, sys_open, sys_mkdir, sys_mknod, sys_chdir, sys_link,
  sys_unlink,
}
use p.Xv6.Sysfile.Counted.{file_at, refs_pos, Counted, held, used_lt, Counted-put}
use p.Xv6.Sysfile.Descriptors.{IsCounted}
use p.Xv6.Sysfile.Returning.{Keeps, Keeps-bind, on_files-Keeps, or_fail-Keeps}
use p.Xv6.Sysfile.Transfers.{fileread-Keeps, filewrite-Keeps}
use p.Xv6.Sysfile.Keeping.{
  holding, Described, inodes_Keeps, close_held, filestat-Keeps, filealloc-Keeps, fdalloc-Keeps,
}

module _ (others : ℕ → ℕ) where
  abbrev K : Word → Task → Type 0
  K r = IsCounted others

  -- or_fail of an argument.
  arg_or_fail :
      {A : Type 0} (g : Task → Option A) (k : A → Action Task Word)
      → ((a : A) → Keeps (IsCounted others) K (k a))
      → Keeps (IsCounted others) K (or_fail (gets g) k)
  arg_or_fail g k h = or_fail-Keeps (IsCounted others) (gets g) k (λ s c. c) h

  -- An action on inodes, and then one that keeps the references.
  inodes_then :
      (m : Action Fs (Unit {0})) (k : Action Task Word)
      → Keeps (IsCounted others) K k
      → Keeps (IsCounted others) K (on_inodes m >> k)
  inodes_then m k h =
      Keeps-bind (IsCounted others) (λ a. IsCounted others) K (on_inodes m) (λ a. k)
        (inodes_Keeps others (Counted others) m) (λ a. h)

  -- or_fail of an action on inodes.
  inodes_or_fail :
      {A : Type 0} (m : Action Fs (Option A)) (k : A → Action Task Word)
      → ((a : A) → Keeps (IsCounted others) K (k a))
      → Keeps (IsCounted others) K (or_fail (on_inodes m) k)
  inodes_or_fail m k h =
      or_fail-Keeps (IsCounted others) (on_inodes m) k (inodes_Keeps others (Counted others) m) h

  finish_open-Keeps :
      (ip f : ℕ) (omode : Word) (r : Option ℕ)
      → Keeps (Described others f r) K (finish_open ip f omode r)
  unfolding finish_open
  finish_open-Keeps ip f omode none =
      Keeps-bind (IsCounted (held f others)) (λ a. IsCounted others) K (on_files (fileclose f))
        (λ a. on_inodes (iunlockput ip) >> pure minus_one) (close_held others f)
        (λ a. inodes_then (iunlockput ip) (pure minus_one) (λ s c. c))
  finish_open-Keeps ip f omode (some fd) =
      Keeps-bind (Described others f (some fd)) (λ a. Described others f (some fd)) K
        (on_inodes (iunlock ip))
        (λ a. on_files (file_of f >>= λ x. put_file f (opened ip omode x)) >> pure fd)
        (inodes_Keeps others
          (λ table ofile. Counted others table ofile × (get_or ofile fd none ≡ some f))
          (iunlock ip))
        (λ a s (c, e).
          let pos = refs_pos s.ofile fd f e in
          let used : (file_at s.files.table f).ref ≢ 0 = λ z. omega (arith, z, c.counted f, pos) in
          Counted-put f (opened ip omode (file_at s.files.table f)) c (used_lt s.files.table f used)
            (c.counted f) (λ z. absurd (used z)) (λ i ne. refl))

  open_with-Keeps :
      (ip : ℕ) (omode : Word) (r : Option ℕ)
      → Keeps (IsCounted (holding others r)) K (open_with ip omode r)
  unfolding open_with
  open_with-Keeps ip omode none = inodes_then (iunlockput ip) (pure minus_one) (λ s c. c)
  open_with-Keeps ip omode (some f) =
      Keeps-bind (IsCounted (held f others)) (Described others f) K (fdalloc f)
        (finish_open ip f omode) (fdalloc-Keeps others f) (finish_open-Keeps ip f omode)

  module _ (devsw : Devices) (stack : List Byte) where
    -- sys_open with its path and mode.
    abbrev open_path : List Byte → Word → Action Task Word
    open_path path omode s =
        or_fail (on_inodes (open_inode devsw stack s.cwd path omode))
          (λ ip. on_files filealloc >>= open_with ip omode) s

    open_path-Keeps :
        (path : List Byte) (omode : Word) → Keeps (IsCounted others) K (open_path path omode)
    open_path-Keeps path omode s c =
        inodes_or_fail (open_inode devsw stack s.cwd path omode)
          (λ ip. on_files filealloc >>= open_with ip omode)
          (λ ip.
            Keeps-bind (IsCounted others) (λ r. IsCounted (holding others r)) K (on_files filealloc)
              (open_with ip omode)
              (on_files-Keeps (λ t ofile. Counted others t.table ofile)
                (λ r t ofile. Counted (holding others r) t.table ofile) filealloc
                (filealloc-Keeps others))
              (open_with-Keeps ip omode))
          s c

    pub sys_open-Keeps : Keeps (IsCounted others) K (sys_open devsw stack)
    unfolding sys_open
    sys_open-Keeps =
        arg_or_fail (λ s. argstr s.user 0) (λ path. or_fail (int_arg 1) (open_path path))
          λ path. arg_or_fail (λ s. argint s.user 1) (open_path path) (open_path-Keeps path)

    make-Keeps :
        (path : List Byte) (type major minor : Word)
        → Keeps (IsCounted others) K (make devsw stack path type major minor)
    make-Keeps path type major minor s c =
        inodes_or_fail (create devsw stack s.cwd path type major minor)
          (λ ip. on_inodes (iunlockput ip) >> pure 0)
          (λ ip. inodes_then (iunlockput ip) (pure 0) (λ t d. d)) s c

    pub sys_mkdir-Keeps : Keeps (IsCounted others) K (sys_mkdir devsw stack)
    unfolding sys_mkdir
    sys_mkdir-Keeps =
        arg_or_fail (λ s. argstr s.user 0) (λ path. make devsw stack path t_dir 0 0)
          (λ path. make-Keeps path t_dir 0 0)

    pub sys_mknod-Keeps : Keeps (IsCounted others) K (sys_mknod devsw stack)
    unfolding sys_mknod
    sys_mknod-Keeps =
        let made : List Byte → Word → Word → Action Task Word =
          λ path major minor. make devsw stack path t_dev (major % 65536) (minor % 65536) in
        arg_or_fail (λ s. argstr s.user 0)
          (λ path. or_fail (int_arg 1) λ major. or_fail (int_arg 2) (made path major))
          λ path.
            arg_or_fail (λ s. argint s.user 1) (λ major. or_fail (int_arg 2) (made path major))
              λ major.
                arg_or_fail (λ s. argint s.user 2) (made path major)
                  λ minor. make-Keeps path t_dev (major % 65536) (minor % 65536)

    pub sys_chdir-Keeps : Keeps (IsCounted others) K (sys_chdir devsw stack)
    unfolding sys_chdir
    sys_chdir-Keeps =
        let entered : ℕ → Action Task Word = λ ip s. done (0, record s { cwd = ip }) in
        arg_or_fail (λ s. argstr s.user 0)
          (λ path s. or_fail (on_inodes (chdir_inode devsw stack s.cwd path)) entered s)
          λ path s. inodes_or_fail (chdir_inode devsw stack s.cwd path) entered (λ ip t c. c) s

    pub sys_link-Keeps : Keeps (IsCounted others) K (sys_link devsw stack)
    unfolding sys_link
    sys_link-Keeps =
        arg_or_fail (λ s. argstr s.user 0)
          (λ old. or_fail (str_arg 1) λ new s. on_inodes (link_inodes devsw stack s.cwd old new) s)
          λ old.
            arg_or_fail (λ s. argstr s.user 1)
              (λ new s. on_inodes (link_inodes devsw stack s.cwd old new) s)
              λ new s.
                inodes_Keeps others (Counted others) (link_inodes devsw stack s.cwd old new) s

    pub sys_unlink-Keeps : Keeps (IsCounted others) K (sys_unlink devsw stack)
    unfolding sys_unlink
    sys_unlink-Keeps =
        arg_or_fail (λ s. argstr s.user 0)
          (λ path s. on_inodes (unlink_inode devsw stack s.cwd path) s)
          λ path s. inodes_Keeps others (Counted others) (unlink_inode devsw stack s.cwd path) s

  pub sys_fstat-Keeps : Keeps (IsCounted others) K sys_fstat
  unfolding sys_fstat store_stat
  sys_fstat-Keeps =
      let stored : ℕ → Stat → Action Task Word = λ a st. store_stat a st >> pure 0 in
      let from : ℕ × ℕ → Word → Action Task Word =
        λ d a. or_fail (on_files (filestat d.1)) (stored a) in
      arg_or_fail (argfd 0) (λ d. or_fail (ptr_arg 1 24) (from d))
        λ d.
          arg_or_fail (λ s. argptr s.user 1 24) (from d)
            λ a.
              or_fail-Keeps (IsCounted others) (on_files (filestat d.1)) (stored a)
                (on_files-Keeps (λ t ofile. Counted others t.table ofile)
                  (λ r t ofile. Counted others t.table ofile) (filestat d.1)
                  (filestat-Keeps others d.1))
                (λ st s c. c)

  module _ (devsw : Devices) (sleeps : List Sleep) (killed : Bool) where
    pub sys_read-Keeps : Keeps (IsCounted others) K (sys_read devsw sleeps killed)
    unfolding sys_read
    sys_read-Keeps =
        let stored : Word → Word × List Byte → Action Task Word = λ a r. store a r.1 >> pure r.0 in
        let from : ℕ × ℕ → Word → Word → Action Task Word =
          λ d n a. on_files (fileread devsw d.1 n sleeps killed) >>= stored a in
        arg_or_fail (argfd 0) (λ d. or_fail (int_arg 2) λ n. or_fail (ptr_arg 1 n) (from d n))
          λ d.
            arg_or_fail (λ s. argint s.user 2) (λ n. or_fail (ptr_arg 1 n) (from d n))
              λ n.
                arg_or_fail (λ s. argptr s.user 1 n) (from d n)
                  λ a.
                    Keeps-bind (IsCounted others) (λ r. IsCounted others) K
                      (on_files (fileread devsw d.1 n sleeps killed)) (stored a)
                      (on_files-Keeps (λ t ofile. Counted others t.table ofile)
                        (λ r t ofile. Counted others t.table ofile)
                        (fileread devsw d.1 n sleeps killed)
                        (λ ofile. fileread-Keeps others ofile devsw sleeps killed d.1 n))
                      (λ r s c. c)

    pub sys_write-Keeps : Keeps (IsCounted others) K (sys_write devsw sleeps killed)
    unfolding sys_write
    sys_write-Keeps =
        let from : ℕ × ℕ → Word → Word → Action Task Word = λ d n a s.
          on_files (filewrite devsw d.1 (bytes_at s.user.memory a (byte_count n)) n sleeps killed)
            s in
        arg_or_fail (argfd 0) (λ d. or_fail (int_arg 2) λ n. or_fail (ptr_arg 1 n) (from d n))
          λ d.
            arg_or_fail (λ s. argint s.user 2) (λ n. or_fail (ptr_arg 1 n) (from d n))
              λ n.
                arg_or_fail (λ s. argptr s.user 1 n) (from d n)
                  λ a s.
                    on_files-Keeps (λ t ofile. Counted others t.table ofile)
                      (λ r t ofile. Counted others t.table ofile)
                      (filewrite devsw d.1 (bytes_at s.user.memory a (byte_count n)) n sleeps
                        killed)
                      (λ ofile.
                        filewrite-Keeps others ofile devsw sleeps killed d.1 n
                          (bytes_at s.user.memory a (byte_count n)))
                      s
