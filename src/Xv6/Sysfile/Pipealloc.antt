-- ===== src/Xv6/Sysfile/Pipealloc.antt =====
-- pipealloc of xv6/kernel/pipe.c gives two files, or gives back what it took.
use p.Prelude.{
  ℕ, ◌+◌, ◌≡◌, ◌≢◌, refl, sym, ap, subst, ◌∙◌, ◌⊎◌, inl, inr, Bool, true, false, not, Option, none,
  some, List, set, get_or-set_self, get_or-set_ne, arith,
}
use p.Xv6.Outcome.{Outcome, done, panics, hangs, ◌>>=◌, ◌>>◌}
use p.Xv6.Ftable.{
  FileType, fd_none, fd_pipe, fd_inode, File, Files, free_file, set_pipe, filealloc, fileclose,
}
use p.Xv6.Ftable.References.{Allocates, filealloc-Allocates}
use p.Xv6.Sysfile.Calls.{pipe_end, new_pipe, pipealloc}
use p.Xv6.Sysfile.Counted.{file_at, refs, Counted, held, used_lt, Counted-hold, Counted-put}
use p.Xv6.Sysfile.Descriptors.{fileclose-Closed}

-- An end of pipe pi.
pub record IsEnd (table : List File) (pi : ℕ) (writable : Bool) (f : ℕ) : Type 0 where
  pub is_pipe : (file_at table f).type ≡ fd_pipe
  pub same_pipe : (file_at table f).pipe ≡ pi
  pub reads : (file_at table f).readable ≡ not writable
  pub writes : (file_at table f).writable ≡ writable

pub Counted-same :
    {o o' : ℕ → ℕ} {table : List File} {ofile : List (Option ℕ)}
    → ((i : ℕ) → o i ≡ o' i)
    → Counted o table ofile
    → Counted o' table ofile
Counted-same {ofile = ofile} e c = record {
  counted = λ i. c.counted i ∙ ap (λ n. n + refs ofile i) (e i);
  idle = c.idle;
}

-- The close of a file that is held and is no inode.
fileclose-held :
    (others : ℕ → ℕ) (f : ℕ) (ofile : List (Option ℕ)) (s : Files)
    → Counted (held f others) s.table ofile
    → (file_at s.table f).type ≢ fd_inode
    → (t : Files) × (fileclose f s ≡ done (tt, t))
      × Counted others t.table ofile
      × ((i : ℕ) → f ≢ i → file_at t.table i ≡ file_at s.table i)
fileclose-held others f ofile s c ne = elim (fileclose-Closed others f ofile s c) [
  | inl r ↦ r
  | inr (one, inode, stuck) ↦ absurd (ne inode)
]

-- Two files that are held, and are no inodes, can be closed.
pub close_both :
    (others : ℕ → ℕ) (f0 f1 : ℕ) (ofile : List (Option ℕ)) (s : Files)
    → Counted (held f1 (held f0 others)) s.table ofile
    → f0 ≢ f1
    → (file_at s.table f0).type ≢ fd_inode
    → (file_at s.table f1).type ≢ fd_inode
    → (t u : Files) × (fileclose f0 s ≡ done (tt, t))
      × (fileclose f1 t ≡ done (tt, u))
      × Counted others u.table ofile
close_both others f0 f1 ofile s c ne n0 n1 =
    let c' : Counted (held f0 (held f1 others)) s.table ofile = Counted-same (λ i. omega arith) c in
    let (t, r, d, same) = fileclose-held (held f1 others) f0 ofile s c' n0 in
    let n1' : (file_at t.table f1).type ≢ fd_inode =
      subst (λ (x : File). x.type ≢ fd_inode) (sym (same f1 ne)) n1 in
    let (u, r', d', _) = fileclose-held others f1 ofile t d n1' in (t, u, r, r', d')

-- A new file is held, and its type is that of a free one.
pub record Fresh (others : ℕ → ℕ) (ofile : List (Option ℕ)) (s : Files) (f : ℕ) (t : Files)
    : Type 0 where
  pub runs : filealloc s ≡ done (some f, t)
  pub counts : Counted (held f others) t.table ofile
  pub type : (file_at t.table f).type ≡ fd_none
  pub was_free : (file_at s.table f).ref ≡ 0
  pub used : (file_at t.table f).ref ≡ 1
  pub same : (i : ℕ) → f ≢ i → file_at t.table i ≡ file_at s.table i

pub filealloc-Fresh :
    (others : ℕ → ℕ) (ofile : List (Option ℕ)) (s : Files)
    → Counted others s.table ofile
    → (filealloc s ≡ done (none, s)) ⊎ ((f : ℕ) × (t : Files) × Fresh others ofile s f t)
filealloc-Fresh others ofile s c = go (filealloc s) refl (filealloc-Allocates s)
  where
    go :
        (o : Outcome (Option ℕ × Files))
        → filealloc s ≡ o
        → Allocates s o
        → (filealloc s ≡ done (none, s)) ⊎ ((f : ℕ) × (t : Files) × Fresh others ofile s f t)
    go (done (none, t)) r (same, all) = inl (r ∙ ap (λ (u : Files). done (none, u)) same)
    go (done (some f, t)) r (lt, free, e) =
        let x : File = record (file_at s.table f) { ref = 1 } in
        let held_x : file_at (set s.table f x) f ≡ x = get_or-set_self s.table f x free_file lt in
        inr (
          f,
          record s { table = set s.table f x },
          record {
            runs = r ∙ ap (λ (u : Files). done (some f, u)) e;
            counts = Counted-hold f c lt x (omega (arith, free));
            type = ap (λ (y : File). y.type) held_x ∙ c.idle f free;
            was_free = free;
            used = ap (λ (y : File). y.ref) held_x;
            same = λ i ne. get_or-set_ne s.table f i x free_file ne;
          },
        )
    go panics r a = absurd a
    go hangs r a = absurd a

-- What pipealloc gives: no files, and every reference is given back; or both ends of the new pipe, which
-- the caller holds.
abbrev pub Piped : (ℕ → ℕ) → List (Option ℕ) → Option ℕ → Files → Type 0
Piped others ofile page s =
    ((t : Files) × (pipealloc page s ≡ done (none, t)) × Counted others t.table ofile)
    ⊎ ((pi f0 f1 : ℕ) × (t : Files) × (page ≡ some pi)
        × (pipealloc page s ≡ done (some (f0, f1), t))
        × Counted (held f1 (held f0 others)) t.table ofile
        × (f0 ≢ f1)
        × IsEnd t.table pi false f0
        × IsEnd t.table pi true f1)

-- A free file is no inode.
not_inode : (type : FileType) → type ≡ fd_none → type ≢ fd_inode
not_inode type e i = absurd (cc)

module _ (others : ℕ → ℕ) (ofile : List (Option ℕ)) (s : Files) where
  -- pipealloc with both files, where there is a page.
  module _ (f0 f1 pi : ℕ) (s1 s2 : Files) (a : Fresh others ofile s f0 s1)
      (b : Fresh (held f0 others) ofile s1 f1 s2) where
    pub Fresh_ne : f0 ≢ f1
    Fresh_ne e =
        let z : (file_at s1.table f0).ref ≡ 0 =
          subst (λ (j : ℕ). (file_at s1.table j).ref ≡ 0) (sym e) b.was_free in
        omega (arith, z, a.used)

    abbrev x0 : File
    x0 = pipe_end pi false (file_at s2.table f0)

    abbrev table3 : List File
    table3 = set s2.table f0 x0

    abbrev x1 : File
    x1 = pipe_end pi true (file_at table3 f1)

    abbrev piped : Files
    piped = record (set_pipe pi (new_pipe (s2.pipes pi)) s2) { table = set table3 f1 x1 }

    pipealloc-some : pipealloc (some pi) s ≡ done (some (f0, f1), piped)
    unfolding pipealloc
    pipealloc-some = rw (◌>>=◌, a.runs) (rw (◌>>=◌, b.runs) refl)

    pipealloc-Piped-some : Piped others ofile (some pi) s
    pipealloc-Piped-some =
        let one0 : (file_at s2.table f0).ref ≡ 1 =
          ap (λ (y : File). y.ref) (b.same f0 (λ e. Fresh_ne (sym e))) ∙ a.used in
        let lt0 = used_lt s2.table f0 (λ z. omega (arith, z, one0)) in
        let c3 : Counted (held f1 (held f0 others)) table3 ofile =
          Counted-put f0 x0 b.counts lt0 (b.counts.counted f0)
            (λ z. absurd (omega (arith, z, one0))) (λ i ne. refl) in
        let same1 : file_at table3 f1 ≡ file_at s2.table f1 =
          get_or-set_ne s2.table f0 f1 x0 free_file Fresh_ne in
        let one1 : (file_at table3 f1).ref ≡ 1 = ap (λ (y : File). y.ref) same1 ∙ b.used in
        let lt1 = used_lt table3 f1 (λ z. omega (arith, z, one1)) in
        let at0 : file_at piped.table f0 ≡ x0 =
          get_or-set_ne table3 f1 f0 x1 free_file (λ e. Fresh_ne (sym e))
          ∙ get_or-set_self s2.table f0 x0 free_file lt0 in
        let at1 : file_at piped.table f1 ≡ x1 = get_or-set_self table3 f1 x1 free_file lt1 in
        inr (
          pi,
          f0,
          f1,
          piped,
          refl,
          pipealloc-some,
          Counted-put f1 x1 c3 lt1 (c3.counted f1) (λ z. absurd (omega (arith, z, one1)))
              (λ i ne. refl),
          Fresh_ne,
          end_of (file_at s2.table f0) at0,
          end_of (file_at table3 f1) at1,
        )
      where
        end_of :
            {f : ℕ} {writable : Bool} (y : File)
            → file_at piped.table f ≡ pipe_end pi writable y
            → IsEnd piped.table pi writable f
        end_of y e = record {
          is_pipe = ap (λ (y : File). y.type) e;
          same_pipe = ap (λ (y : File). y.pipe) e;
          reads = ap (λ (y : File). y.readable) e;
          writes = ap (λ (y : File). y.writable) e;
        }

  pub pipealloc-Piped : (page : Option ℕ) → Counted others s.table ofile → Piped others ofile page s
  unfolding pipealloc
  pipealloc-Piped page c = first (filealloc-Fresh others ofile s c)
    where
      second :
          (page : Option ℕ) (f0 : ℕ) (s1 : Files) (a : Fresh others ofile s f0 s1)
          → ((filealloc s1 ≡ done (none, s1))
              ⊎ ((f1 : ℕ) × (s2 : Files) × Fresh (held f0 others) ofile s1 f1 s2))
          → Piped others ofile page s
      second page f0 s1 a (inl r) =
          let (t, q, d, _) = fileclose-held others f0 ofile s1 a.counts (not_inode _ a.type) in
          inl (t, rw (◌>>=◌, a.runs) (rw (◌>>=◌, r) (rw (◌>>◌, ◌>>=◌, q) refl)), d)
      second none f0 s1 a (inr (f1, s2, b)) =
          let ne = Fresh_ne f0 f1 0 s1 s2 a b in
          let type0 : (file_at s2.table f0).type ≡ fd_none =
            ap (λ (y : File). y.type) (b.same f0 (λ e. ne (sym e))) ∙ a.type in
          let (t, u, q, q', d) =
            close_both others f0 f1 ofile s2 b.counts ne (not_inode _ type0) (not_inode _ b.type) in
          inl (
            u,
            rw (◌>>=◌, a.runs) (rw (◌>>=◌, b.runs) (rw (◌>>◌, ◌>>=◌, q) (rw (◌>>=◌, q') refl))),
            d,
          )
      second (some pi) f0 s1 a (inr (f1, s2, b)) = pipealloc-Piped-some f0 f1 pi s1 s2 a b

      first :
          ((filealloc s ≡ done (none, s)) ⊎ ((f : ℕ) × (t : Files) × Fresh others ofile s f t))
          → Piped others ofile page s
      first (inl r) = inl (s, rw (◌>>=◌, r) refl, c)
      first (inr (f0, s1, a)) =
          second page f0 s1 a (filealloc-Fresh (held f0 others) ofile s1 a.counts)
