-- ===== src/Xv6/Sysfile/PipeCall.antt =====
-- sys_pipe of xv6/kernel/sysfile.c: what it gives, and what it gives back where something is missing.
use p.Prelude.{
  ℕ, zero, suc, ◌<◌, ◌≡◌, ◌≢◌, refl, sym, ap, subst, ◌⊎◌, inl, inr, true, false, Option, none, some,
  List, [], ◌∷◌, ◌++◌, length, get_or, set, arith,
}
use p.Word.{Word, minus_one, word_bytes}
use p.Disk.{splice}
use p.Xv6.Outcome.{done, ◌>>=◌, ◌>>◌}
use p.Xv6.Ftable.{FileType, fd_pipe, fd_inode, Files}
use p.Xv6.Syscall.{argptr}
use p.Xv6.Sysfile.Calls.{Task, find_fd, fdalloc, pipealloc, close_ends, sys_pipe}
use p.Xv6.Sysfile.Counted.{Counted, held, Lowest, find_fd-Lowest, Counted-take}
use p.Xv6.Sysfile.Descriptors.{IsCounted}
use p.Xv6.Sysfile.Pipealloc.{IsEnd, Counted-same, close_both, Piped, pipealloc-Piped}

-- The ends that a call holds can be closed.
close_ends_lem :
    (others : ℕ → ℕ) (rf wf pi : ℕ) (s : Task)
    → Counted (held wf (held rf others)) s.files.table s.ofile
    → rf ≢ wf
    → IsEnd s.files.table pi false rf
    → IsEnd s.files.table pi true wf
    → (u : Files) × (close_ends rf wf s ≡ done (minus_one, record s { files = u }))
      × Counted others u.table s.ofile
unfolding close_ends
close_ends_lem others rf wf pi s c ne a b =
    let (t, u, q, q', d) =
      close_both others rf wf s.ofile s.files c ne (no_inode _ a.is_pipe) (no_inode _ b.is_pipe) in
    (u, rw (◌>>=◌, q) (rw (◌>>◌, ◌>>=◌, q') refl), d)
  where
    no_inode : (type : FileType) → type ≡ fd_pipe → type ≢ fd_inode
    no_inode type e i = absurd (cc)

-- A place taken and given up again.
set_back :
    (os : List (Option ℕ)) (fd : ℕ) (o : Option ℕ)
    → get_or os fd none ≡ none
    → set (set os fd o) fd none ≡ os
set_back [] fd o e = refl
set_back (x ∷ os) zero o e = ap (λ y. y ∷ os) (sym e)
set_back (x ∷ os) (suc fd) o e = ap (λ l. x ∷ l) (set_back os fd o e)

module _ (others : ℕ → ℕ) (page : Option ℕ) (s : Task) where
  -- What pipe does: it returns -1 and leaves the descriptors as they were; or it returns 0, the two lowest
  -- free descriptors are the ends of one pipe, and the process finds them at its pointer.
  abbrev pub MakesPipe : Word → Task → Type 0
  MakesPipe r t =
      ((r ≡ minus_one) × (t.ofile ≡ s.ofile))
      ⊎ ((a pi rf wf fd0 fd1 : ℕ) × (r ≡ 0)
          × (argptr s.user 0 8 ≡ some a)
          × Lowest s.ofile 0 (some fd0)
          × Lowest (set s.ofile fd0 (some rf)) 0 (some fd1)
          × (t.ofile ≡ set (set s.ofile fd0 (some rf)) fd1 (some wf))
          × IsEnd t.files.table pi false rf
          × IsEnd t.files.table pi true wf
          × (t.user ≡ record s.user {
            memory = splice s.user.memory a (word_bytes fd0 ++ word_bytes fd1);
          }))

  abbrev Result : Type 0
  Result =
      (r : Word) × (t : Task) × (sys_pipe page s ≡ done (r, t)) × IsCounted others t × MakesPipe r t

  module _ (a pi rf wf : ℕ) (t : Files) (e : argptr s.user 0 8 ≡ some a)
      (q : pipealloc page s.files ≡ done (some (rf, wf), t))
      (d : Counted (held wf (held rf others)) t.table s.ofile) (ne : rf ≢ wf)
      (x : IsEnd t.table pi false rf) (y : IsEnd t.table pi true wf) where
    -- pipe with a descriptor for the reading end.
    second_fd :
        (fd0 : ℕ)
        → find_fd s.ofile 0 ≡ some fd0
        → Lowest s.ofile 0 (some fd0)
        → fd0 < length s.ofile
        → get_or s.ofile fd0 none ≡ none
        → (o : Option ℕ) → find_fd (set s.ofile fd0 (some rf)) 0 ≡ o
        → Lowest (set s.ofile fd0 (some rf)) 0 o
        → Result
    unfolding sys_pipe fdalloc
    second_fd fd0 f low lt free none g full =
        let back = set_back s.ofile fd0 (some rf) free in
        let s' : Task = record s { files = t; ofile = set (set s.ofile fd0 (some rf)) fd0 none } in
        let d' : Counted (held wf (held rf others)) t.table s'.ofile =
          subst (λ (l : List (Option ℕ)). Counted (held wf (held rf others)) t.table l) (sym back)
            d in
        let (u, r, k) = close_ends_lem others rf wf pi s' d' ne x y in
        (
          minus_one,
          record s' { files = u },
          rw (◌>>=◌, e) (rw (◌>>=◌, q) (rw (◌>>=◌, f) (rw (◌>>=◌, g) (rw (◌>>◌, ◌>>=◌, r) refl)))),
          k,
          inl (refl, back),
        )
    second_fd fd0 f low lt free (some fd1) g low1 =
        let (k, at, lt1, free1, before) = low1 in
        let taken : Counted (held wf others) t.table (set s.ofile fd0 (some rf)) =
          Counted-take rf fd0 (Counted-same (λ i. omega arith) d) lt free in
        (
          0,
          record s {
            files = t;
            ofile = set (set s.ofile fd0 (some rf)) fd1 (some wf);
            user = record s.user {
              memory = splice s.user.memory a (word_bytes fd0 ++ word_bytes fd1);
            };
          },
          rw (◌>>=◌, e) (rw (◌>>=◌, q) (rw (◌>>=◌, f) (rw (◌>>=◌, g) refl))),
          Counted-take wf fd1 taken (omega arith) (
              subst (λ (j : ℕ). get_or (set s.ofile fd0 (some rf)) j none ≡ none) (omega arith)
                free1),
          inr (a, pi, rf, wf, fd0, fd1, refl, e, low, low1, refl, x, y, refl),
        )

    -- pipe with its two files.
    first_fd : (o : Option ℕ) → find_fd s.ofile 0 ≡ o → Lowest s.ofile 0 o → Result
    unfolding sys_pipe fdalloc
    first_fd none f full =
        let (u, r, k) = close_ends_lem others rf wf pi (record s { files = t }) d ne x y in
        (
          minus_one,
          record s { files = u },
          rw (◌>>=◌, e) (rw (◌>>=◌, q) (rw (◌>>=◌, f) (rw r refl))),
          k,
          inl (refl, refl),
        )
    first_fd (some fd0) f low =
        let (k, at, lt, free, before) = low in
        second_fd fd0 f low (omega arith)
          (subst (λ (j : ℕ). get_or s.ofile j none ≡ none) (omega arith) free)
          (find_fd (set s.ofile fd0 (some rf)) 0) refl
          (find_fd-Lowest (set s.ofile fd0 (some rf)) 0)

  -- Where the references of the file table are exact, pipe returns on every path and leaves them exact: it
  -- gives two new descriptors, or -1 and gives back the files and the descriptor that it took.
  pub sys_pipe-IsCounted : IsCounted others s → Result
  unfolding sys_pipe fdalloc
  sys_pipe-IsCounted c = from (argptr s.user 0 8) refl
    where
      with_files : (a : ℕ) → argptr s.user 0 8 ≡ some a → Piped others s.ofile page s.files → Result
      with_files a e (inl (t, q, d)) = (
        minus_one,
        record s { files = t },
        rw (◌>>=◌, e) (rw (◌>>=◌, q) refl),
        d,
        inl (refl, refl),
      )
      with_files a e (inr (pi, rf, wf, t, p, q, d, ne, x, y)) =
          first_fd a pi rf wf t e q d ne x y (find_fd s.ofile 0) refl (find_fd-Lowest s.ofile 0)

      from : (o : Option Word) → argptr s.user 0 8 ≡ o → Result
      from none e = (minus_one, s, rw (◌>>=◌, e) refl, c, inl (refl, refl))
      from (some a) e = with_files a e (pipealloc-Piped others s.ofile s.files page c)
