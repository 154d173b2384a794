-- ===== src/Xv6/Pipe.antt =====
-- xv6/kernel/pipe.c, but pipealloc. The lock makes the code between two sleeps one step; a sleep gives
-- it up, and what the other processes do to the pipe meanwhile is an argument.
pub mod Ring
pub mod Queue
pub mod Sleeps
use p.Prelude.{
  ℕ, zero, suc, ◌+◌, ◌%◌, Bool, true, false, ◌&&◌, ◌||◌, not, List, [], ◌∷◌, ◌==◌, if◌then◌else◌,
  Option, none, some, length,
}
use p.Word.{Byte, Word, word_mod, minus_one, add32}

abbrev pub pipe_size : ℕ
pipe_size = 512

-- What the code calls outside this file: wakeup(&p->nread), wakeup(&p->nwrite) and kfree(p).
pub data Call : Type 0 where
  wake_readers : Call
  wake_writers : Call
  free_pipe : Call

-- `calls` lists the calls made, the last one first.
pub record Pipe : Type 0 where
  pub bytes : Word → Byte
  pub nread : Word
  pub nwrite : Word
  pub readopen : Bool
  pub writeopen : Bool
  pub calls : List Call

abbrev pub call : Call → Pipe → Pipe
call c p = record p { calls = c ∷ p.calls }

-- The time of a sleep: what the others do to the pipe, and whether the process is killed afterwards.
pub record Sleep : Type 0 where
  pub others : Pipe → Pipe
  pub killed : Bool

-- How a wait ends: refused, ready with the sleeps that are left, or still asleep.
pub data Wait : Type 0 where
  refused : Pipe → Wait
  ready : Pipe → Bool → List Sleep → Wait
  asleep : Wait

-- The while loop of pipewrite; `killed` is proc->killed.
unfoldable pub wait_room : List Sleep → Bool → Pipe → Wait
wait_room [] killed p =
    if p.nwrite == add32 p.nread pipe_size
    then (if not p.readopen || killed then refused p else asleep)
    else ready p killed []
wait_room (z ∷ sleeps) killed p =
    let rest = wait_room sleeps z.killed (z.others (call wake_readers p)) in
    if p.nwrite == add32 p.nread pipe_size
    then (if not p.readopen || killed then refused p else rest)
    else ready p killed (z ∷ sleeps)

-- p->data[p->nwrite++ % PIPESIZE] = x
abbrev pub put_byte : Byte → Pipe → Pipe
put_byte x p = record p {
  bytes = λ i. if i == p.nwrite % pipe_size then x else p.bytes i;
  nwrite = add32 p.nwrite 1;
}

-- The for loop over the bytes at addr: `none` while the process sleeps, and the result else.
unfoldable pub write_bytes : List Byte → List Sleep → Bool → Pipe → Option (Bool × Pipe)
unfolding wait_room
write_bytes [] sleeps killed p = some (true, p)
write_bytes (x ∷ xs) sleeps killed p = elim (wait_room sleeps killed p) [
  | refused p' ↦ some (false, p')
  | ready p' killed' sleeps' ↦ write_bytes xs sleeps' killed' (put_byte x p')
  | asleep ↦ none
]

-- `addr` holds the n bytes to write.
unfoldable pub pipewrite : List Byte → List Sleep → Bool → Pipe → Option (Word × Pipe)
unfolding write_bytes
pipewrite addr sleeps killed p = elim (write_bytes addr sleeps killed p) [
  | none ↦ none
  | some (finished, p') ↦
      if finished then some (length addr, call wake_readers p') else some (minus_one, p')
]

-- The while loop of piperead.
unfoldable pub wait_data : List Sleep → Bool → Pipe → Wait
wait_data [] killed p =
    if p.nread == p.nwrite && p.writeopen
    then (if killed then refused p else asleep)
    else ready p killed []
wait_data (z ∷ sleeps) killed p =
    let rest = wait_data sleeps z.killed (z.others p) in
    if p.nread == p.nwrite && p.writeopen
    then (if killed then refused p else rest)
    else ready p killed (z ∷ sleeps)

-- p->data[p->nread++ % PIPESIZE]
abbrev pub next_byte : Pipe → Byte
next_byte p = p.bytes (p.nread % pipe_size)

abbrev pub skip_byte : Pipe → Pipe
skip_byte p = record p { nread = add32 p.nread 1 }

-- The for loop of piperead: the bytes copied to addr.
unfoldable pub read_bytes : ℕ → Pipe → List Byte × Pipe
read_bytes zero p = ([], p)
read_bytes (suc n) p =
    let (xs, p') = read_bytes n (skip_byte p) in
    let stop : List Byte × Pipe = ([], p) in
    if p.nread == p.nwrite then stop else (next_byte p ∷ xs, p')

-- The result, the bytes copied to the front of addr, and the pipe.
unfoldable pub piperead : ℕ → List Sleep → Bool → Pipe → Option (Word × List Byte × Pipe)
unfolding wait_data read_bytes
piperead n sleeps killed p = elim (wait_data sleeps killed p) [
  | refused p' ↦ some (minus_one, [], p')
  | ready p' killed' sleeps' ↦
      let (xs, p'') = read_bytes n p' in some (length xs, xs, call wake_writers p'')
  | asleep ↦ none
]

unfoldable pub pipeclose : Bool → Pipe → Pipe
pipeclose writable p =
    let p1 =
      (if writable
        then call wake_readers (record p { writeopen = false })
        else call wake_writers (record p { readopen = false })) in
    if not p1.readopen && not p1.writeopen then call free_pipe p1 else p1
