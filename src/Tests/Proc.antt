-- ===== src/Tests/Proc.antt =====
-- Runs of the model of xv6/kernel/proc.c.
use p.Prelude.{
  ℕ, ◌≡◌, refl, sym, ◌∙◌, false, none, some, [], replicate, ◌==◌, if◌then◌else◌, inl, inr,
  Bool-cases, arith,
}
use p.Xv6.Proc.{
  unused, running, zombie, Proc, Ptable, allocproc, unused_slot, copy_process, fork, wait,
  wait_scan, share_files,
}
use p.Xv6.Proc.Steps.{forks, waits, stop, next}
use p.Xv6.Proc.Wakeups.{IsSound}
use p.Xv6.Proc.Safe.{Steps-IsSound}
use p.Xv6.Proc.Wait.{wait-reap, IsGivenUp}

abbrev free_slot : Proc
free_slot = record {
  sz = 0;
  pgdir = 0;
  kstack = 0;
  state = unused;
  pid = 0;
  parent = none;
  chan = none;
  killed = false;
  ofile = replicate 16 none;
  cwd = none;
  name = [];
}

-- init in slot 0, and no other process.
abbrev booted : Ptable
booted = record {
  procs = λ i.
      if i == 0 then record free_slot { state = running; pid = 1; cwd = some 64 } else free_slot;
  nextpid = 2;
  calls = [];
}

-- With a child in slot 3 that has exited.
abbrev bereaved : Ptable
bereaved = record booted {
  procs = λ i.
      if i == 3
      then record free_slot { state = zombie; pid = 9; parent = some 0 }
      else booted.procs i;
}

-- fork in the table after booting takes slot 1 for a process of pid 2, and wait then sleeps.
forked : (fork 0 4096 8192 booted).0 ≡ 2
unfolding fork copy_process allocproc unused_slot
forked = refl

slept : (wait 0 (fork 0 4096 8192 booted).1).0 ≡ none
unfolding fork copy_process allocproc unused_slot wait wait_scan share_files
slept = refl

reaped : (wait 0 bereaved).0 ≡ some 9
unfolding wait wait_scan
reaped = refl

orphaned : (i : ℕ) → (booted.procs i).parent ≡ none
orphaned i = elim (Bool-cases (i == 0)) [ inl e ↦ rw e refl | inr e ↦ rw e refl ]

booted-IsSound : IsSound 0 booted.procs
booted-IsSound = record {
  no_lost = λ i j w child lt z. cc (sym (orphaned j) ∙ child);
  root = refl;
  alive = λ e. cc;
  no_self = λ i e. cc (sym (orphaned i) ∙ e);
}

steps-IsSound_example : IsSound 0 (wait 0 (fork 0 4096 8192 booted).1).1.procs
unfolding fork copy_process allocproc unused_slot
steps-IsSound_example =
    Steps-IsSound booted-IsSound (next (forks 0 4096 8192 refl) (next (waits 0 refl) stop))

wait-reap_example :
    (i : ℕ) × (u : Ptable) × ((bereaved.procs i).parent ≡ some 0)
    × ((bereaved.procs i).state ≡ zombie)
    × (wait 0 bereaved ≡ (some (bereaved.procs i).pid, u))
    × IsGivenUp i bereaved u
wait-reap_example = wait-reap 0 3 bereaved (omega arith) refl refl
