-- ===== src/Xv6/Proc.antt =====
-- The process table of xv6/kernel/proc.c. Each function is one step up to where it calls sched or sleep:
-- ptable.lock makes it so but for what exit does before it takes the lock, and for what fork does to the
-- new slot, which no other code touches while it is EMBRYO. A pointer to a process is its index in
-- ptable.proc, an index from NPROC on that of no process. What kalloc, copyuvm and allocuvm give is an
-- argument, and the calls of other files are listed in `calls`, the last one first. The trap frame, the
-- context and the switch of stacks are not modelled.
pub mod Steps
pub mod Wakeups
pub mod Exit
pub mod Wait
pub mod Safe
use p.Prelude.{
  ℕ, zero, suc, ◌+◌, ◌-◌, ◌%◌, Bool, true, false, ◌&&◌, ◌||◌, not, Option, none, some, List, [],
  ◌∷◌, ◌++◌, ltb, leb, ◌==◌, if◌then◌else◌, replicate, take,
}
use p.Word.{Word, Byte, word_mod, minus_one, add32, is_neg}

abbrev pub nproc : ℕ
nproc = 64

pub data ProcState : Type 0 where
  unused embryo sleeping runnable running zombie : ProcState

abbrev pub state_code : ProcState → ℕ
state_code unused = 0
state_code embryo = 1
state_code sleeping = 2
state_code runnable = 3
state_code running = 4
state_code zombie = 5

abbrev pub is_state : ProcState → ProcState → Bool
is_state a b = state_code a == state_code b

-- The address that a process sleeps on: that of a process, or another one.
pub data Channel : Type 0 where
  process : ℕ → Channel
  address : Word → Channel

abbrev pub same_channel : Option Channel → Channel → Bool
same_channel none c = false
same_channel (some (process i)) (process j) = i == j
same_channel (some (address a)) (address b) = a == b
same_channel (some (process i)) (address b) = false
same_channel (some (address a)) (process j) = false

-- 0 is `none` for a pointer; `ofile` has NOFILE places; `name` is the string in its array of 16 bytes.
pub record Proc : Type 0 where
  pub sz : Word
  pub pgdir : Word
  pub kstack : Word
  pub state : ProcState
  pub pid : Word
  pub parent : Option ℕ
  pub chan : Option Channel
  pub killed : Bool
  pub ofile : List (Option Word)
  pub cwd : Option Word
  pub name : List Byte

-- Calls of file.c, fs.c, kalloc.c and vm.c.
pub data Call : Type 0 where
  filedup fileclose idup iput kfree freevm switchuvm : Word → Call

pub record Ptable : Type 0 where
  pub procs : ℕ → Proc
  pub nextpid : Word
  pub calls : List Call

abbrev pub set_proc : Ptable → ℕ → Proc → Ptable
set_proc t i p = record t { procs = λ j. if j == i then p else t.procs j }

abbrev pub call : Call → Ptable → Ptable
call c t = record t { calls = c ∷ t.calls }

-- Is the pointer that of process i?
abbrev pub points_to : Option ℕ → ℕ → Bool
points_to none i = false
points_to (some j) i = j == i

-- The loop of allocproc, over k slots from i on.
unfoldable pub unused_slot : (ℕ → Proc) → ℕ → ℕ → Option ℕ
unused_slot procs zero i = none
unused_slot procs (suc k) i =
    let rest = unused_slot procs k (i + 1) in
    if is_state (procs i).state unused then some i else rest

-- `stack` is what kalloc gives, 0 for none.
unfoldable pub allocproc : Word → Ptable → Option ℕ × Ptable
allocproc stack t = elim (unused_slot t.procs nproc 0) [
  | none ↦ (none, t)
  | some i ↦
      let p : Proc = record (t.procs i) { state = embryo; pid = t.nextpid; kstack = stack } in
      let t' : Ptable = record t { nextpid = add32 t.nextpid 1 } in
      let failed : Option ℕ × Ptable = (none, set_proc t' i (record p { state = unused })) in
      if stack == 0 then failed else (some i, set_proc t' i p)
]

-- `grown` is what allocuvm or deallocuvm gives for the new size, 0 for a failure.
unfoldable pub growproc : ℕ → Word → Word → Ptable → Word × Ptable
growproc cur n grown t =
    let done : Word → Word × Ptable =
      λ sz. (0, call (switchuvm cur) (set_proc t cur (record (t.procs cur) { sz = sz }))) in
    if n == 0 then done (t.procs cur).sz else if grown == 0 then (minus_one, t) else done grown

-- filedup of each open file.
unfoldable pub dup_files : List (Option Word) → List Call → List Call
dup_files [] calls = calls
dup_files (none ∷ fs) calls = dup_files fs calls
dup_files (some f ∷ fs) calls = dup_files fs (filedup f ∷ calls)

-- np->ofile[i] = filedup(proc->ofile[i]), where that is open.
unfoldable pub share_files : List (Option Word) → List (Option Word) → List (Option Word)
share_files (some f ∷ fs) (g ∷ gs) = some f ∷ share_files fs gs
share_files (none ∷ fs) (g ∷ gs) = g ∷ share_files fs gs
share_files _ gs = gs

-- A call with the pointer, where there is one.
abbrev pub call_some : (Word → Call) → Option Word → List Call → List Call
call_some f none calls = calls
call_some f (some w) calls = f w ∷ calls

-- fork after its allocproc; `pgdir` is what copyuvm gives.
unfoldable pub copy_process : ℕ → Word → Option ℕ × Ptable → Word × Ptable
copy_process cur pgdir (none, t) = (minus_one, t)
copy_process cur pgdir (some i, t) =
    let p = t.procs cur in
    let np = t.procs i in
    let failed : Word × Ptable = (
      minus_one,
      call (kfree np.kstack) (set_proc t i (record np { kstack = 0; state = unused })),
    ) in
    let child : Proc = record np {
      pgdir = pgdir;
      sz = p.sz;
      parent = some cur;
      ofile = share_files p.ofile np.ofile;
      cwd = p.cwd;
      state = runnable;
      name = take 15 p.name;
    } in
    let t' = set_proc t i child in
    let made : Word × Ptable =
      (np.pid, record t' { calls = call_some idup p.cwd (dup_files p.ofile t'.calls) }) in
    if pgdir == 0 then failed else made

-- `stack` is what kalloc gives.
unfoldable pub fork : ℕ → Word → Word → Ptable → Word × Ptable
fork cur stack pgdir t = copy_process cur pgdir (allocproc stack t)

unfoldable pub wakeup1 : Channel → (ℕ → Proc) → ℕ → Proc
wakeup1 chan procs i =
    if is_state (procs i).state sleeping && same_channel (procs i).chan chan
    then record (procs i) { state = runnable }
    else procs i

unfoldable pub wakeup : Channel → Ptable → Ptable
unfolding wakeup1
wakeup chan t = record t { procs = wakeup1 chan t.procs }

unfoldable pub close_files : List (Option Word) → List Call → List Call
close_files [] calls = calls
close_files (none ∷ fs) calls = close_files fs calls
close_files (some f ∷ fs) calls = close_files fs (fileclose f ∷ calls)

-- The loop of exit over k slots from i on: children go to init, which wakes for a zombie.
unfoldable pub abandon : ℕ → ℕ → ℕ → ℕ → (ℕ → Proc) → ℕ → Proc
unfolding wakeup1
abandon cur init zero i procs = procs
abandon cur init (suc k) i procs =
    let given : ℕ → Proc =
      λ j. if j == i then record (procs i) { parent = some init } else procs j in
    let woken = (if is_state (procs i).state zombie then wakeup1 (process init) given else given) in
    let moved = (if points_to (procs i).parent cur then woken else procs) in
    abandon cur init k (i + 1) moved

-- wakeup1(proc->parent); no process sleeps on a null pointer's channel.
abbrev pub wake_parent : Option ℕ → (ℕ → Proc) → ℕ → Proc
wake_parent none procs = procs
wake_parent (some j) procs = wakeup1 (process j) procs

-- Up to the call of sched, which does not return; `none` is the panic of init.
unfoldable pub exit : ℕ → ℕ → Ptable → Option Ptable
exit cur init t =
    let p = t.procs cur in
    let calls = call_some iput p.cwd (close_files p.ofile t.calls) in
    let t1 =
      set_proc (record t { calls = calls }) cur
        (record p { ofile = replicate 16 none; cwd = none }) in
    let procs = abandon cur init nproc 0 (wake_parent p.parent t1.procs) in
    let t2 = set_proc (record t1 { procs = procs }) cur (record (procs cur) { state = zombie }) in
    if cur == init then none else some t2

-- A pass of wait over k slots from i on: the zombie found, or whether there are children.
pub data Children : Type 0 where
  found : ℕ → Children
  none_dead : Bool → Children

unfoldable pub wait_scan : (ℕ → Proc) → ℕ → ℕ → ℕ → Bool → Children
wait_scan procs cur zero i havekids = none_dead havekids
wait_scan procs cur (suc k) i havekids =
    let mine = points_to (procs i).parent cur in
    let rest = wait_scan procs cur k (i + 1) (havekids || mine) in
    if mine && is_state (procs i).state zombie then found i else rest

-- A zombie's slot is given up.
unfoldable pub reap : ℕ → Ptable → Ptable
reap i t =
    let p = t.procs i in
    let t1 = call (freevm p.pgdir) (call (kfree p.kstack) t) in
    set_proc t1 i
      (record p { kstack = 0; state = unused; pid = 0; parent = none; name = []; killed = false })

-- proc->chan = chan; proc->state = SLEEPING
unfoldable pub sleep : ℕ → Channel → Ptable → Ptable
sleep cur chan t = set_proc t cur (record (t.procs cur) { chan = some chan; state = sleeping })

-- One round of wait's loop: its result, or `none` for a sleep.
unfoldable pub wait : ℕ → Ptable → Option Word × Ptable
wait cur t = elim (wait_scan t.procs cur nproc 0 false) [
  | found i ↦ (some (t.procs i).pid, reap i t)
  | none_dead havekids ↦
      if not havekids || (t.procs cur).killed
      then (some minus_one, t)
      else (none, sleep cur (process cur) t)
]

-- The scheduler's choice of a process that can run.
unfoldable pub run : ℕ → Ptable → Ptable
run i t = call (switchuvm i) (set_proc t i (record (t.procs i) { state = running }))

unfoldable pub yield : ℕ → Ptable → Ptable
yield cur t = set_proc t cur (record (t.procs cur) { state = runnable })

-- After sched, sleep forgets the channel.
unfoldable pub tidy_up : ℕ → Ptable → Ptable
tidy_up cur t = set_proc t cur (record (t.procs cur) { chan = none })

-- The loop of kill over k slots from i on.
unfoldable pub find_pid : (ℕ → Proc) → Word → ℕ → ℕ → Option ℕ
find_pid procs pid zero i = none
find_pid procs pid (suc k) i =
    let rest = find_pid procs pid k (i + 1) in if (procs i).pid == pid then some i else rest

unfoldable pub kill : Word → Ptable → Word × Ptable
kill pid t = elim (find_pid t.procs pid nproc 0) [
  | none ↦ (minus_one, t)
  | some i ↦
      let p = t.procs i in
      let state = (if is_state p.state sleeping then runnable else p.state) in
      (0, set_proc t i (record p { killed = true; state = state }))
]
