-- ===== src/Xv6/Proc/Steps.antt =====
-- The steps of the processes of xv6/kernel/proc.c, as one relation: what a running process, or the
-- scheduler of a CPU, may do to the table.
use p.Prelude.{ℕ, ◌<◌, ◌≡◌, some}
use p.Word.{Word}
use p.Xv6.Proc.{
  Ptable, running, runnable, address, fork, growproc, exit, wait, run, yield, sleep, tidy_up,
  wakeup, kill, nproc,
}

-- `init` is initproc. The channel of a sleep, or of a wakeup, outside proc.c is no process.
pub data Step (init : ℕ) (t : Ptable) : Ptable → Type 0 where
  forks :
      (cur : ℕ) (stack pgdir : Word)
      → (t.procs cur).state ≡ running
      → Step init t (fork cur stack pgdir t).1
  grows :
      (cur : ℕ) (n grown : Word)
      → (t.procs cur).state ≡ running
      → Step init t (growproc cur n grown t).1
  exits :
      (cur : ℕ) {t' : Ptable}
      → (t.procs cur).state ≡ running
      → exit cur init t ≡ some t'
      → Step init t t'
  waits : (cur : ℕ) → (t.procs cur).state ≡ running → Step init t (wait cur t).1
  runs : (i : ℕ) → i < nproc → (t.procs i).state ≡ runnable → Step init t (run i t)
  yields : (cur : ℕ) → (t.procs cur).state ≡ running → Step init t (yield cur t)
  sleeps :
      (cur : ℕ) (chan : Word)
      → (t.procs cur).state ≡ running
      → Step init t (sleep cur (address chan) t)
  tidies : (cur : ℕ) → (t.procs cur).state ≡ running → Step init t (tidy_up cur t)
  wakes : (chan : Word) → Step init t (wakeup (address chan) t)
  kills : (pid : Word) → Step init t (kill pid t).1

-- Any number of steps.
pub data Steps (init : ℕ) : Ptable → Ptable → Type 0 where
  stop : {t : Ptable} → Steps init t t
  next : {t u v : Ptable} → Step init t u → Steps init u v → Steps init t v
