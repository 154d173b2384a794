-- ===== src/Xv6/Sysfile/Transfers.antt =====
-- fileread and filewrite of xv6/kernel/file.c keep the references of the file table.
use p.Prelude.{
  ℕ, zero, suc, Bool-cases, ◌||◌, ◌==◌, dec_lt, ◌<◌, ◌≡◌, refl, sym, ap, subst, ◌∙◌, inl, inr, Bool,
  true, Option, none, some, List, [], ◌∷◌, length, set, arith,
}
use p.Word.{Word, Byte, is_neg}
use p.Xv6.Outcome.{done, Action, pure, ◌>>=◌, ◌>>◌}
use p.Xv6.Pipe.{Pipe, Sleep, piperead, pipewrite}
use p.Xv6.Fs.File.{Devices}
use p.Xv6.Fs.Icache.{Fs}
use p.Xv6.Ftable.{
  FileType, fd_none, fd_pipe, fd_inode, File, Files, on_fs, put_file, moved, byte_count, fileread,
  filewrite, read_inode, write_inode,
}
use p.Xv6.Sysfile.Counted.{file_at, Counted, Counted-put}
use p.Xv6.Sysfile.Returning.{If, Keeps, Keeps_done, Keeps-bind, on_fs-Keeps}

-- A place outside the table is not written.
set_outside :
    (table : List File) (f : ℕ) (x : File) → (f < length table → ⊥) → set table f x ≡ table
set_outside [] f x out = refl
set_outside (y ∷ table) zero x out = absurd (out (omega arith))
set_outside (y ∷ table) (suc f) x out =
    ap (λ l. y ∷ l) (set_outside table f x (λ lt. out (omega arith)))

module _ (others : ℕ → ℕ) where
  -- A file with the same references and type in place of file f.
  Counted-replace :
      (table : List File) (ofile : List (Option ℕ)) (f : ℕ) (x : File)
      → Counted others table ofile
      → x.ref ≡ (file_at table f).ref
      → x.type ≡ (file_at table f).type
      → Counted others (set table f x) ofile
  Counted-replace table ofile f x c r t = elim (dec_lt f (length table)) [
    | yes lt ↦ Counted-put f x c lt (r ∙ c.counted f) (λ z. t ∙ c.idle f (sym r ∙ z)) (λ i ne. refl)
    | no out ↦ subst (λ l. Counted others l ofile) (sym (set_outside table f x out)) c
  ]

  -- fileread and filewrite move the offset of a file, where they change the table.
  moved-Counted :
      (table : List File) (ofile : List (Option ℕ)) (f : ℕ) (r : Word)
      → Counted others table ofile
      → Counted others (set table f (moved (file_at table f) r)) ofile
  moved-Counted table ofile f r c = elim (Bool-cases (r == 0 || is_neg r)) [
    | inl e ↦ Counted-replace table ofile f (moved (file_at table f) r) c (rw e refl) (rw e refl)
    | inr e ↦ Counted-replace table ofile f (moved (file_at table f) r) c (rw e refl) (rw e refl)
  ]

  module _ (ofile : List (Option ℕ)) where
    abbrev I : Files → Type 0
    I s = Counted others s.table ofile

    -- Code of fs.c, and then a new offset for the file that the code had read before.
    moves :
        {A : Type 0} (m : Action Fs A) (f : ℕ) (s : Files) (r : A → Word) (k : A → Action Files A)
        → ((a : A) (t : Files) → k a t ≡ done (a, t))
        → I s
        → If
            (λ (a : A). I)
            ((on_fs m >>= λ a. put_file f (moved (file_at s.table f) (r a)) >> k a) s)
    moves {A} m f s r k q c =
        Keeps-bind (λ t. t.table ≡ s.table) (λ a t. t.table ≡ s.table) (λ (a : A). I) (on_fs m) _
          (on_fs-Keeps (λ l. l ≡ s.table) m) next s refl
      where
        next :
            (a : A)
            → Keeps
                (λ t. t.table ≡ s.table)
                (λ (b : A). I)
                (put_file f (moved (file_at s.table f) (r a)) >> k a)
        next a t e =
            let t' : Files = record t { table = set t.table f (moved (file_at s.table f) (r a)) } in
            Keeps_done (λ (b : A). I) (k a t') a t' (q a t')
              (subst (λ l. Counted others (set l f (moved (file_at s.table f) (r a))) ofile) (sym e)
                (moved-Counted s.table ofile f (r a) c))

    module _ (devsw : Devices) (sleeps : List Sleep) (killed : Bool) (f : ℕ) (n : Word) where
      fileread_pipe :
          (s : Files)
          → I s
          → (file_at s.table f).readable ≡ true
          → (file_at s.table f).type ≡ fd_pipe
          → (o : Option (Word × List Byte × Pipe))
          → piperead (byte_count n) sleeps killed (s.pipes (file_at s.table f).pipe) ≡ o
          → If (λ (r : Word × List Byte). I) (fileread devsw f n sleeps killed s)
      unfolding fileread
      fileread_pipe s c e q none r = rw (◌>>=◌, e) (rw q (rw r tt))
      fileread_pipe s c e q (some x) r = rw (◌>>=◌, e) (rw q (rw r c))

      fileread_type :
          (s : Files)
          → I s
          → (file_at s.table f).readable ≡ true
          → (type : FileType) → (file_at s.table f).type ≡ type
          → If (λ (r : Word × List Byte). I) (fileread devsw f n sleeps killed s)
      unfolding fileread
      fileread_type s c e fd_none q = rw (◌>>=◌, e) (rw q tt)
      fileread_type s c e fd_pipe q =
          fileread_pipe s c e q
            (piperead (byte_count n) sleeps killed (s.pipes (file_at s.table f).pipe)) refl
      fileread_type s c e fd_inode q =
          rw (◌>>=◌, e)
            (rw q (
              moves (read_inode devsw (file_at s.table f) n) f s (λ r. r.0) (λ r. pure (r.0, r.1))
                (λ r t. refl) c))

      pub fileread-Keeps : Keeps I (λ r. I) (fileread devsw f n sleeps killed)
      unfolding fileread
      fileread-Keeps s c = elim (Bool-cases (file_at s.table f).readable) [
        | inl e ↦ fileread_type s c e (file_at s.table f).type refl
        | inr e ↦ rw (◌>>=◌, e) c
      ]

      filewrite_pipe :
          (addr : List Byte) (s : Files)
          → I s
          → (file_at s.table f).writable ≡ true
          → (file_at s.table f).type ≡ fd_pipe
          → (o : Option (Word × Pipe))
          → pipewrite addr sleeps killed (s.pipes (file_at s.table f).pipe) ≡ o
          → If (λ (r : Word). I) (filewrite devsw f addr n sleeps killed s)
      unfolding filewrite
      filewrite_pipe addr s c e q none r = rw (◌>>=◌, e) (rw q (rw r tt))
      filewrite_pipe addr s c e q (some x) r = rw (◌>>=◌, e) (rw q (rw r c))

      filewrite_type :
          (addr : List Byte) (s : Files)
          → I s
          → (file_at s.table f).writable ≡ true
          → (type : FileType) → (file_at s.table f).type ≡ type
          → If (λ (r : Word). I) (filewrite devsw f addr n sleeps killed s)
      unfolding filewrite
      filewrite_type addr s c e fd_none q = rw (◌>>=◌, e) (rw q tt)
      filewrite_type addr s c e fd_pipe q =
          filewrite_pipe addr s c e q
            (pipewrite addr sleeps killed (s.pipes (file_at s.table f).pipe)) refl
      filewrite_type addr s c e fd_inode q =
          rw (◌>>=◌, e)
            (rw q (
              moves (write_inode devsw (file_at s.table f) addr n) f s (λ r. r) (λ r. pure r)
                (λ r t. refl) c))

      pub filewrite-Keeps :
          (addr : List Byte) → Keeps I (λ r. I) (filewrite devsw f addr n sleeps killed)
      unfolding filewrite
      filewrite-Keeps addr s c = elim (Bool-cases (file_at s.table f).writable) [
        | inl e ↦ filewrite_type addr s c e (file_at s.table f).type refl
        | inr e ↦ rw (◌>>=◌, e) c
      ]
