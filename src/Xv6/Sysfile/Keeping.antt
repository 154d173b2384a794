-- ===== src/Xv6/Sysfile/Keeping.antt =====
-- What the parts of the calls of xv6/kernel/sysfile.c do to the references of the file table.
use p.Prelude.{
  ℕ, ◌==◌, ◌⊎◌, ◌<◌, ◌≡◌, refl, subst, inl, inr, true, Option, none, some, List, length, get_or,
  set, get_or-set_self, arith,
}
use p.Word.{Word}
use p.Xv6.Outcome.{done, Action, pure, ◌>>=◌}
use p.Xv6.Fs.Icache.{Fs, iput}
use p.Xv6.Ftable.{
  FileType, fd_none, fd_pipe, fd_inode, File, Files, on_fs, filealloc, fileclose, filestat,
  stat_inode,
}
use p.Xv6.Sysfile.Calls.{Task, on_files, on_inodes, argfd, find_fd, fdalloc, sys_close}
use p.Xv6.Sysfile.Counted.{
  file_at, Counted, held, Lowest, find_fd-Lowest, Counted-take, Counted-drop,
}
use p.Xv6.Sysfile.Descriptors.{
  IsCounted, Closed, fileclose-Closed, some_ref, freed, freed-Counted, argfd-open,
}
use p.Xv6.Sysfile.Pipealloc.{Fresh, filealloc-Fresh}
use p.Xv6.Sysfile.Returning.{If, Keeps, Keeps_done, Keeps-bind, on_fs-Keeps, on_files-Keeps}

module _ (others : ℕ → ℕ) where
  abbrev pub J : Task → Type 0
  J = IsCounted others

  -- The references after filealloc, and after fdalloc of file f.
  abbrev pub holding : Option ℕ → ℕ → ℕ
  holding none = others
  holding (some f) = held f others

  abbrev pub Described : ℕ → Option ℕ → Task → Type 0
  Described f none t = IsCounted (held f others) t
  Described f (some fd) t = J t × (get_or t.ofile fd none ≡ some f)

  -- Code of fs.c keeps what is known of the file table and of the descriptors.
  pub inodes_Keeps :
      {A : Type 0} (P : List File → List (Option ℕ) → Type 0) (m : Action Fs A)
      → Keeps (λ s. P s.files.table s.ofile) (λ a t. P t.files.table t.ofile) (on_inodes m)
  inodes_Keeps P m =
      on_files-Keeps (λ s ofile. P s.table ofile) (λ a s ofile. P s.table ofile) (on_fs m)
        (λ ofile. on_fs-Keeps (λ l. P l ofile) m)

  fileclose_type :
      (f : ℕ) (ofile : List (Option ℕ)) (s : Files)
      → Counted (held f others) s.table ofile
      → ((file_at s.table f).ref == 1) ≡ true
      → (type : FileType) → (file_at s.table f).type ≡ type
      → If (λ (a : Unit {0}) (t : Files). Counted others t.table ofile) (fileclose f s)
  unfolding fileclose
  fileclose_type f ofile s c one fd_none q =
      rw (◌>>=◌, some_ref others f ofile s c) (rw one (rw q (freed-Counted others f ofile s c one)))
  fileclose_type f ofile s c one fd_pipe q =
      rw (◌>>=◌, some_ref others f ofile s c) (rw one (rw q (freed-Counted others f ofile s c one)))
  fileclose_type f ofile s c one fd_inode q =
      rw (◌>>=◌, some_ref others f ofile s c)
        (rw one (
          rw q (
            on_fs-Keeps (λ l. Counted others l ofile) (iput (file_at s.table f).ip)
              (record s { table = set s.table f (freed others f ofile s c) })
              (freed-Counted others f ofile s c one))))

  fileclose-Keeps :
      (f : ℕ) (ofile : List (Option ℕ))
      → Keeps
          (λ (s : Files). Counted (held f others) s.table ofile)
          (λ (a : Unit {0}) (t : Files). Counted others t.table ofile)
          (fileclose f)
  fileclose-Keeps f ofile s c = by (fileclose-Closed others f ofile s c)
    where
      by :
          Closed others f ofile s
          → If (λ (a : Unit {0}) (t : Files). Counted others t.table ofile) (fileclose f s)
      by (inl (t, r, d, _)) =
          Keeps_done (λ (a : Unit {0}) (t : Files). Counted others t.table ofile) (fileclose f s) tt
            t r d
      by (inr (one, inode, stuck)) =
          fileclose_type f ofile s c (ground (arith, one)) (file_at s.table f).type refl

  -- A file that a call holds is closed.
  pub close_held :
      (f : ℕ) → Keeps (IsCounted (held f others)) (λ (a : Unit {0}). J) (on_files (fileclose f))
  close_held f =
      on_files-Keeps (λ s ofile. Counted (held f others) s.table ofile)
        (λ a s ofile. Counted others s.table ofile) (fileclose f) (fileclose-Keeps f)

  pub sys_close-Keeps : Keeps J (λ (r : Word). J) sys_close
  unfolding sys_close
  sys_close-Keeps s c = from (argfd 0 s) refl
    where
      from : (o : Option (ℕ × ℕ)) → argfd 0 s ≡ o → If (λ (r : Word). J) (sys_close s)
      from none e = rw (sys_close, ◌>>=◌, e) c
      from (some (fd, f)) e =
          rw (sys_close, ◌>>=◌, e)
            (Keeps-bind (IsCounted (held f others)) (λ (a : Unit {0}). J) (λ (r : Word). J)
              (on_files (fileclose f)) (λ a. pure 0) (close_held f) (λ a t d. d)
              (record s { ofile = set s.ofile fd none })
              (Counted-drop f fd c (argfd-open 0 s fd f e)))

  pub filestat-Keeps :
      (f : ℕ) (ofile : List (Option ℕ))
      → Keeps (λ s. Counted others s.table ofile) (λ a s. Counted others s.table ofile) (filestat f)
  unfolding filestat
  filestat-Keeps f ofile s c = by (file_at s.table f).type refl
    where
      by :
          (type : FileType)
          → (file_at s.table f).type ≡ type
          → If (λ a t. Counted others t.table ofile) (filestat f s)
      by fd_none q = rw (filestat, ◌>>=◌, q) c
      by fd_pipe q = rw (filestat, ◌>>=◌, q) c
      by fd_inode q =
          rw (filestat, ◌>>=◌, q)
            (on_fs-Keeps (λ l. Counted others l ofile) (stat_inode (file_at s.table f).ip) s c)

  pub filealloc-Keeps :
      (ofile : List (Option ℕ))
      → Keeps
          (λ (s : Files). Counted others s.table ofile)
          (λ r (t : Files). Counted (holding r) t.table ofile)
          filealloc
  filealloc-Keeps ofile s c = by (filealloc-Fresh others ofile s c)
    where
      by :
          ((filealloc s ≡ done (none, s)) ⊎ ((f : ℕ) × (t : Files) × Fresh others ofile s f t))
          → If (λ r (t : Files). Counted (holding r) t.table ofile) (filealloc s)
      by (inl e) =
          Keeps_done (λ r (t : Files). Counted (holding r) t.table ofile) (filealloc s) none s e c
      by (inr (f, t, x)) =
          Keeps_done (λ r (t : Files). Counted (holding r) t.table ofile) (filealloc s) (some f) t
            x.runs x.counts

  pub fdalloc-Keeps : (f : ℕ) → Keeps (IsCounted (held f others)) (Described f) (fdalloc f)
  unfolding fdalloc
  fdalloc-Keeps f s c = by (find_fd s.ofile 0) refl (find_fd-Lowest s.ofile 0)
    where
      by :
          (o : Option ℕ)
          → find_fd s.ofile 0 ≡ o
          → Lowest s.ofile 0 o
          → If (Described f) (fdalloc f s)
      by none e l = rw (fdalloc, e) c
      by (some fd) e (k, at, lt, free, _) =
          let same : k ≡ fd = omega arith in
          let fd_lt : fd < length s.ofile = omega arith in
          rw (fdalloc, e)
            (
              Counted-take f fd c fd_lt (subst (λ (j : ℕ). get_or s.ofile j none ≡ none) same free),
              get_or-set_self s.ofile fd (some f) none fd_lt,
            )
