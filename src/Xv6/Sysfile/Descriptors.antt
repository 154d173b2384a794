-- ===== src/Xv6/Sysfile/Descriptors.antt =====
-- sys_dup and sys_close of xv6/kernel/sysfile.c keep the references of the file table exact.
use p.Prelude.{
  ℕ, ◌-◌, ◌<◌, ◌≡◌, ◌≢◌, refl, sym, subst, ◌∙◌, ◌⊎◌, inl, inr, true, false, ◌||◌, Bool-cases,
  Option, none, some, List, leb, ◌==◌, length, get_or, set, get_or-set_ne, arith,
}
use p.Word.{Word, minus_one, is_neg}
use p.Xv6.Outcome.{Outcome, done, panics, hangs, Action, ◌>>=◌, ◌>>◌}
use p.Xv6.Pipe.{pipeclose}
use p.Xv6.Fs.Icache.{Fs, iput}
use p.Xv6.Ftable.{
  FileType, fd_none, fd_pipe, fd_inode, File, Files, free_file, set_pipe, on_fs, fileclose,
}
use p.Xv6.Ftable.References.{duplicated, filedup_lem, fileclose_lem}
use p.Xv6.Syscall.{argint}
use p.Xv6.Sysfile.Calls.{Task, nofile, argfd, find_fd, fdalloc, sys_dup, sys_close}
use p.Xv6.Sysfile.Counted.{
  file_at, hit_self, refs_pos, Counted, held, used_lt, Lowest, find_fd-Lowest, Counted-take,
  Counted-drop, Counted-hold, Counted-release,
}

-- The references of the file table are the process's descriptors and `others`.
abbrev pub IsCounted : (ℕ → ℕ) → Task → Type 0
IsCounted others s = Counted others s.files.table s.ofile

pub argfd-open :
    (n : ℕ) (s : Task) (fd f : ℕ) → argfd n s ≡ some (fd, f) → get_or s.ofile fd none ≡ some f
unfolding argfd
argfd-open n s fd f = at (argint s.user n) refl
  where
    look :
        (w : Word) (o : Option ℕ)
        → get_or s.ofile w none ≡ o
        → (let r : Option (ℕ × ℕ) = elim o [ none ↦ none | some g ↦ some (w, g) ] in r)
          ≡ some (fd, f)
        → get_or s.ofile fd none ≡ some f
    look w none q e = absurd (cc)
    look w (some g) q e = cc

    at :
        (o : Option Word)
        → argint s.user n ≡ o
        → argfd n s ≡ some (fd, f)
        → get_or s.ofile fd none ≡ some f
    at none q e = let v : argfd n s ≡ none = rw (argfd, q) refl in absurd (cc)
    at (some w) q e = elim (Bool-cases (is_neg w || leb nofile w)) [
      | inl b ↦ let v : argfd n s ≡ none = rw (argfd, q, b) refl in absurd (cc)
      | inr b ↦ look w (get_or s.ofile w none) refl (rw (argfd, q, b) at e)
    ]

-- What fileclose of a file that is held gives: it returns, the reference is gone, and other files are as
-- before; or this was the last reference to an inode, and iput does not return.
abbrev pub Closed : (ℕ → ℕ) → ℕ → List (Option ℕ) → Files → Type 0
Closed others f ofile s =
    ((t : Files) × (fileclose f s ≡ done (tt, t))
      × Counted others t.table ofile
      × ((i : ℕ) → f ≢ i → file_at t.table i ≡ file_at s.table i))
    ⊎ (((file_at s.table f).ref ≡ 1)
        × ((file_at s.table f).type ≡ fd_inode)
        × ((u : Fs) → iput (file_at s.table f).ip s.fs ≢ done (tt, u)))

on_fs_done :
    (m : Action Fs (Unit {0})) (s : Files) (u : Fs)
    → m s.fs ≡ done (tt, u)
    → on_fs m s ≡ done (tt, record s { fs = u })
on_fs_done m s u e = rw (on_fs, e) refl

module _ (others : ℕ → ℕ) (f : ℕ) (ofile : List (Option ℕ)) (s : Files)
    (c : Counted (held f others) s.table ofile) where
  abbrev x : File
  x = file_at s.table f

  abbrev pub freed : File
  freed = record x { ref = 0; type = fd_none }

  pub some_ref : (x.ref == 0) ≡ false
  some_ref = ground (arith, c.counted f, hit_self f)

  -- The file is freed, whatever becomes of the rest.
  pub freed-Counted : (x.ref == 1) ≡ true → Counted others (set s.table f freed) ofile
  freed-Counted one = Counted-release f c freed (ground (arith, one)) (λ z. refl)

  elsewhere : (y : File) (i : ℕ) → f ≢ i → file_at (set s.table f y) i ≡ file_at s.table i
  elsewhere y i ne = get_or-set_ne s.table f i y free_file ne

  close_last : (x.ref == 1) ≡ true → (type : FileType) → x.type ≡ type → Closed others f ofile s
  unfolding fileclose
  close_last one fd_none q = inl (
    record s { table = set s.table f freed },
    rw (fileclose, ◌>>=◌, some_ref) (rw one (rw q refl)),
    freed-Counted one,
    elsewhere freed,
  )
  close_last one fd_pipe q = inl (
    set_pipe x.pipe (pipeclose x.writable (s.pipes x.pipe))
        (record s { table = set s.table f freed }),
    rw (fileclose, ◌>>=◌, some_ref) (rw one (rw q refl)),
    freed-Counted one,
    elsewhere freed,
  )
  close_last one fd_inode q = put (iput x.ip s.fs) refl
    where
      never :
          (o : Outcome (Unit {0} × Fs))
          → iput x.ip s.fs ≡ o
          → ((u : Fs) → o ≢ done (tt, u))
          → Closed others f ofile s
      never o r stuck = inr (ground (arith, one), q, λ u e. stuck u (sym r ∙ e))

      put : (o : Outcome (Unit {0} × Fs)) → iput x.ip s.fs ≡ o → Closed others f ofile s
      put (done (_, u)) r = inl (
        record s { table = set s.table f freed; fs = u },
        rw (fileclose, ◌>>=◌, some_ref)
            (rw one (rw q (on_fs_done (iput x.ip) (record s { table = set s.table f freed }) u r))),
        freed-Counted one,
        elsewhere freed,
      )
      put panics r = never panics r (λ u e. absurd (cc))
      put hangs r = never hangs r (λ u e. absurd (cc))

  pub fileclose-Closed : Closed others f ofile s
  fileclose-Closed = elim (Bool-cases (x.ref == 1)) [
    | inl one ↦ close_last one x.type refl
    | inr more ↦
        let y : File = record x { ref = x.ref - 1 } in
        inl (
          record s { table = set s.table f y },
          fileclose_lem s f some_ref more,
          Counted-release f c y (ground (arith, some_ref))
              (λ z. absurd (ground (arith, some_ref, more, z))),
          elsewhere y,
        )
  ]

module _ (others : ℕ → ℕ) (s : Task) where
  -- What dup does: it refuses an argument that is no open descriptor, or finds all descriptors taken, and
  -- changes nothing; or the lowest free descriptor is one more for the same file.
  abbrev pub Dup : Word → Task → Type 0
  Dup r t =
      ((r ≡ minus_one) × (t ≡ s) × ((argfd 0 s ≡ none) ⊎ Lowest s.ofile 0 none))
      ⊎ ((fd f : ℕ) × (argfd 0 s ≡ some (fd, f))
          × Lowest s.ofile 0 (some r)
          × (t.ofile ≡ set s.ofile r (some f)))

  -- Where the references of the file table are exact, dup returns: it gives the lowest free descriptor,
  -- another one for the same file, and counts it; or it gives -1 and changes nothing, where its argument is
  -- no open descriptor or none is free.
  pub sys_dup-IsCounted :
      IsCounted others s
      → (r : Word) × (t : Task) × (sys_dup s ≡ done (r, t)) × IsCounted others t × Dup r t
  unfolding sys_dup fdalloc
  sys_dup-IsCounted c = from (argfd 0 s) refl
    where
      given :
          (fd f : ℕ)
          → argfd 0 s ≡ some (fd, f)
          → (o : Option ℕ) → find_fd s.ofile 0 ≡ o
          → Lowest s.ofile 0 o
          → (r : Word) × (t : Task) × (sys_dup s ≡ done (r, t)) × IsCounted others t × Dup r t
      given fd f e none q all = (
        minus_one,
        s,
        rw (sys_dup, ◌>>=◌, e) (rw (◌>>=◌, fdalloc, q) refl),
        c,
        inl (refl, refl, inr all),
      )
      given fd f e (some r) q low =
          let (k, at, lt, free, before) = low in
          let r_lt : r < length s.ofile = omega arith in
          let r_free : get_or s.ofile r none ≡ none =
            subst (λ j. get_or s.ofile j none ≡ none) (omega arith) free in
          let used : (file_at s.files.table f).ref ≢ 0 =
            λ z. omega (arith, z, c.counted f, refs_pos s.ofile fd f (argfd-open 0 s fd f e)) in
          let f_lt = used_lt s.files.table f used in
          (
            r,
            record s { ofile = set s.ofile r (some f); files = duplicated s.files f f_lt used },
            rw (sys_dup, ◌>>=◌, e)
                (rw (◌>>=◌, fdalloc, q) (rw (◌>>◌, ◌>>=◌, filedup_lem s.files f f_lt used) refl)),
            Counted-take f r (Counted-hold f c f_lt _ refl) r_lt r_free,
            inr (fd, f, e, low, refl),
          )

      from :
          (o : Option (ℕ × ℕ))
          → argfd 0 s ≡ o
          → (r : Word) × (t : Task) × (sys_dup s ≡ done (r, t)) × IsCounted others t × Dup r t
      from none e = (minus_one, s, rw (sys_dup, ◌>>=◌, e) refl, c, inl (refl, refl, inl e))
      from (some (fd, f)) e = given fd f e (find_fd s.ofile 0) refl (find_fd-Lowest s.ofile 0)

  -- What close does: it refuses an argument that is no open descriptor; or it frees the descriptor and
  -- returns 0; or the descriptor is the last reference to an inode that iput does not return from.
  abbrev pub Close : Type 0
  Close =
      ((argfd 0 s ≡ none) × (sys_close s ≡ done (minus_one, s)))
      ⊎ ((fd f : ℕ) × (argfd 0 s ≡ some (fd, f))
          × (((t : Task) × (sys_close s ≡ done (0, t))
                × IsCounted others t
                × (t.ofile ≡ set s.ofile fd none))
              ⊎ (((file_at s.files.table f).ref ≡ 1)
                  × ((file_at s.files.table f).type ≡ fd_inode)
                  × ((u : Fs) → iput (file_at s.files.table f).ip s.files.fs ≢ done (tt, u)))))

  -- Where the references of the file table are exact, close does not panic on a count of 0: it gives -1 and
  -- changes nothing where its argument is no open descriptor, and otherwise frees the descriptor, returns 0
  -- and leaves the references exact, unless it drops the last one to an inode and iput does not return.
  pub sys_close-IsCounted : IsCounted others s → Close
  unfolding sys_close
  sys_close-IsCounted c = from (argfd 0 s) refl
    where
      given :
          (fd f : ℕ)
          → argfd 0 s ≡ some (fd, f)
          → Closed others f (set s.ofile fd none) s.files
          → Close
      given fd f e (inl (t, r, d, _)) = inr (
        fd,
        f,
        e,
        inl (
          record s { ofile = set s.ofile fd none; files = t },
          rw (sys_close, ◌>>=◌, e) (rw (◌>>◌, ◌>>=◌, r) refl),
          d,
          refl,
        ),
      )
      given fd f e (inr last) = inr (fd, f, e, inr last)

      from : (o : Option (ℕ × ℕ)) → argfd 0 s ≡ o → Close
      from none e = inl (e, rw (sys_close, ◌>>=◌, e) refl)
      from (some (fd, f)) e = given fd f e (
          fileclose-Closed others f (set s.ofile fd none) s.files
            (Counted-drop f fd c (argfd-open 0 s fd f e)))
