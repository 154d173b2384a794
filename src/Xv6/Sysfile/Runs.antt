-- ===== src/Xv6/Sysfile/Runs.antt =====
-- A process that makes the calls of xv6/kernel/sysfile.c, one after the other, and computes between them.
use p.Prelude.{ℕ, ◌≡◌, ◌≢◌, subst, Bool, Option, none, some, List, get_or, arith}
use p.Word.{Word, Byte}
use p.Xv6.Outcome.{done, Action}
use p.Xv6.Pipe.{Sleep}
use p.Xv6.Fs.File.{Devices}
use p.Xv6.Syscall.{User}
use p.Xv6.Sysfile.Calls.{Task, sys_dup, sys_close, sys_fstat, sys_read, sys_write, sys_pipe}
use p.Xv6.Sysfile.Opens.{sys_open, sys_mkdir, sys_mknod, sys_chdir, sys_link, sys_unlink}
use p.Xv6.Sysfile.Counted.{file_at, refs_pos}
use p.Xv6.Sysfile.Descriptors.{IsCounted, sys_dup-IsCounted}
use p.Xv6.Sysfile.PipeCall.{sys_pipe-IsCounted}
use p.Xv6.Sysfile.Returning.{If, Keeps, Keeps_done}
use p.Xv6.Sysfile.Keeping.{sys_close-Keeps}
use p.Xv6.Sysfile.Kept.{
  sys_open-Keeps, sys_mkdir-Keeps, sys_mknod-Keeps, sys_chdir-Keeps, sys_link-Keeps,
  sys_unlink-Keeps, sys_fstat-Keeps, sys_read-Keeps, sys_write-Keeps,
}

-- A call, with what is not the process's own: the sleeps of a pipe and a kill, a page for a pipe, what the
-- stack holds where a path's last element is to be stored.
pub data FileCall : Type 0 where
  dup close fstat : FileCall
  read write : List Sleep → Bool → FileCall
  make_pipe : Option ℕ → FileCall
  open_path mkdir mknod chdir link unlink : List Byte → FileCall

module _ (devsw : Devices) where
  abbrev pub system_call : FileCall → Action Task Word
  system_call dup = sys_dup
  system_call close = sys_close
  system_call fstat = sys_fstat
  system_call (read sleeps killed) = sys_read devsw sleeps killed
  system_call (write sleeps killed) = sys_write devsw sleeps killed
  system_call (make_pipe page) = sys_pipe page
  system_call (open_path stack) = sys_open devsw stack
  system_call (mkdir stack) = sys_mkdir devsw stack
  system_call (mknod stack) = sys_mknod devsw stack
  system_call (chdir stack) = sys_chdir devsw stack
  system_call (link stack) = sys_link devsw stack
  system_call (unlink stack) = sys_unlink devsw stack

  -- The states that a process reaches from s: its own steps change its memory and its stack pointer.
  pub data Runs (s : Task) : Task → Type 0 where
    start : Runs s s
    compute : {t : Task} → Runs s t → (u : User) → Runs s (record t { user = u })
    system :
        {t u : Task}
        → Runs s t
        → (c : FileCall) → (r : Word) → system_call c t ≡ done (r, u)
        → Runs s u

  module _ (others : ℕ → ℕ) where
    system_call-Keeps :
        (c : FileCall) → Keeps (IsCounted others) (λ r. IsCounted others) (system_call c)
    system_call-Keeps dup = λ s c.
        let (r, t, e, d, _) = sys_dup-IsCounted others s c in
        Keeps_done (λ r. IsCounted others) (sys_dup s) r t e d
    system_call-Keeps close = sys_close-Keeps others
    system_call-Keeps fstat = sys_fstat-Keeps others
    system_call-Keeps (read sleeps killed) = sys_read-Keeps others devsw sleeps killed
    system_call-Keeps (write sleeps killed) = sys_write-Keeps others devsw sleeps killed
    system_call-Keeps (make_pipe page) = λ s c.
        let (r, t, e, d, _) = sys_pipe-IsCounted others page s c in
        Keeps_done (λ r. IsCounted others) (sys_pipe page s) r t e d
    system_call-Keeps (open_path stack) = sys_open-Keeps others devsw stack
    system_call-Keeps (mkdir stack) = sys_mkdir-Keeps others devsw stack
    system_call-Keeps (mknod stack) = sys_mknod-Keeps others devsw stack
    system_call-Keeps (chdir stack) = sys_chdir-Keeps others devsw stack
    system_call-Keeps (link stack) = sys_link-Keeps others devsw stack
    system_call-Keeps (unlink stack) = sys_unlink-Keeps others devsw stack

    Runs-kept : {s t : Task} → IsCounted others s → Runs s t → IsCounted others t
    Runs-kept c start = c
    Runs-kept c (compute runs u) = Runs-kept c runs
    Runs-kept c (system {t} {u} runs call r e) =
        subst (λ o. If (λ (w : Word). IsCounted others) o) e
          (system_call-Keeps call t (Runs-kept c runs))

  -- Whatever calls of sysfile.c a process makes, in any order, the references of the file table stay exact:
  -- those of a file are its descriptors and the references that others hold. So an open descriptor never
  -- names a file that is free, and filedup and fileclose do not panic on it.
  pub Runs-IsCounted :
      (others : ℕ → ℕ) (s t : Task)
      → IsCounted others s
      → Runs s t
      → IsCounted others t
        × ((fd f : ℕ) → get_or t.ofile fd none ≡ some f → (file_at t.files.table f).ref ≢ 0)
  Runs-IsCounted others s t c runs =
      let d = Runs-kept others c runs in
      (d, λ fd f e z. omega (arith, z, d.counted f, refs_pos t.ofile fd f e))
