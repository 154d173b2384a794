-- ===== src/Xv6/Pipe/Sleeps.antt =====
-- The operations of xv6/kernel/pipe.c keep the ring well formed, also across their sleeps.
use p.Prelude.{
  ℕ, ◌≡◌, ◌<◌, true, false, ◌&&◌, ◌||◌, not, Bool, Option, none, some, List, [], ◌∷◌, ◌==◌,
  if◌then◌else◌, if_keep, All, length, arith,
}
use p.Word.{Byte, Word, add32, minus_one}
use p.Xv6.Pipe.{
  Pipe, Sleep, Wait, refused, ready, asleep, call, Call, wake_readers, wake_writers, put_byte,
  wait_room, wait_data, write_bytes, pipewrite, read_bytes, piperead, pipeclose,
}
use p.Xv6.Pipe.Ring.{IsPipe, count, put_byte-contents}
use p.Xv6.Pipe.Queue.{read_bytes-contents}

-- The others leave a well-formed ring at every sleep.
abbrev pub Keeps : Sleep → Type 0
Keeps z = (p : Pipe) → IsPipe p → IsPipe (z.others p)

abbrev pub AllSome {ℓ} : {A : Type ℓ} → (A → Type 0) → Option A → Type 0
AllSome P none = Unit
AllSome P (some x) = P x

abbrev IsWait : (Pipe → Type 0) → Wait → Type 0
IsWait P (refused p) = IsPipe p
IsWait P (ready p killed sleeps) = IsPipe p × P p × All Keeps sleeps
IsWait P asleep = Unit

abbrev HasRoom : Pipe → Type 0
HasRoom p = count p < 512

room : (p : Pipe) → IsPipe p → (p.nwrite == add32 p.nread 512) ≡ false → HasRoom p
room p v h = ground (arith, v.nread, v.nwrite, v.room)

wait_room-IsWait :
    (sleeps : List Sleep) (killed : Bool) (p : Pipe)
    → All Keeps sleeps
    → IsPipe p
    → IsWait HasRoom (wait_room sleeps killed p)
unfolding wait_room
wait_room-IsWait [] killed p k v =
    if_keep (IsWait HasRoom) (p.nwrite == add32 p.nread 512) _ _
      (λ _. if_keep (IsWait HasRoom) (not p.readopen || killed) _ _ (λ _. v) (λ _. tt))
      (λ e. (v, room p v e, tt))
wait_room-IsWait (z ∷ sleeps) killed p k v =
    if_keep (IsWait HasRoom) (p.nwrite == add32 p.nread 512) _ _
      (λ _.
        if_keep (IsWait HasRoom) (not p.readopen || killed) _ _ (λ _. v)
          (λ _. wait_room-IsWait sleeps z.killed _ k.1 (
            k.0 (call wake_readers p)
              (record { nread = v.nread; nwrite = v.nwrite; room = v.room }))))
      (λ e. (v, room p v e, k))

write_bytes-AllSome :
    (xs : List Byte) (sleeps : List Sleep) (killed : Bool) (p : Pipe)
    → All Keeps sleeps
    → IsPipe p
    → AllSome (λ (r : Bool × Pipe). IsPipe r.1) (write_bytes xs sleeps killed p)
unfolding write_bytes
write_bytes-AllSome [] sleeps killed p k v = v
write_bytes-AllSome (x ∷ xs) sleeps killed p k v =
    step (λ sleeps' killed' p'. write_bytes-AllSome xs sleeps' killed' p')
      (wait_room sleeps killed p) (wait_room-IsWait sleeps killed p k v)
  where
    step :
        ((sleeps' : List Sleep) (killed' : Bool) (p' : Pipe)
          → All Keeps sleeps'
          → IsPipe p'
          → AllSome (λ (r : Bool × Pipe). IsPipe r.1) (write_bytes xs sleeps' killed' p'))
        → (w : Wait) → IsWait HasRoom w
        → AllSome
            (λ (r : Bool × Pipe). IsPipe r.1)
            (elim w [
              | refused p' ↦ some (false, p')
              | ready p' killed' sleeps' ↦ write_bytes xs sleeps' killed' (put_byte x p')
              | asleep ↦ none
            ])
    step next (refused p') h = h
    step next (ready p' killed' sleeps') h =
        next sleeps' killed' (put_byte x p') h.2 (put_byte-contents x p' h.0 h.1).0
    step next asleep h = tt

called : (c : Call) (p : Pipe) → IsPipe p → IsPipe (call c p)
called c p v = record { nread = v.nread; nwrite = v.nwrite; room = v.room }

pipewrite-AllSome :
    (xs : List Byte) (sleeps : List Sleep) (killed : Bool) (p : Pipe)
    → All Keeps sleeps
    → IsPipe p
    → AllSome (λ (r : Word × Pipe). IsPipe r.1) (pipewrite xs sleeps killed p)
unfolding pipewrite
pipewrite-AllSome xs sleeps killed p k v =
    step (write_bytes xs sleeps killed p) (write_bytes-AllSome xs sleeps killed p k v)
  where
    step :
        (w : Option (Bool × Pipe))
        → AllSome (λ (r : Bool × Pipe). IsPipe r.1) w
        → AllSome
            (λ (r : Word × Pipe). IsPipe r.1)
            (elim w [
              | none ↦ none
              | some (finished, p') ↦
                  if finished then some (length xs, call wake_readers p') else some (minus_one, p')
            ])
    step none h = tt
    step (some (true, p')) h = called wake_readers p' h
    step (some (false, p')) h = h

abbrev Any : Pipe → Type 0
Any p = Unit

wait_data-IsWait :
    (sleeps : List Sleep) (killed : Bool) (p : Pipe)
    → All Keeps sleeps
    → IsPipe p
    → IsWait Any (wait_data sleeps killed p)
unfolding wait_data
wait_data-IsWait [] killed p k v =
    if_keep (IsWait Any) (p.nread == p.nwrite && p.writeopen) _ _
      (λ _. if_keep (IsWait Any) killed _ _ (λ _. v) (λ _. tt)) (λ e. (v, tt, tt))
wait_data-IsWait (z ∷ sleeps) killed p k v =
    if_keep (IsWait Any) (p.nread == p.nwrite && p.writeopen) _ _
      (λ _.
        if_keep (IsWait Any) killed _ _ (λ _. v)
          (λ _. wait_data-IsWait sleeps z.killed _ k.1 (k.0 p v)))
      (λ e. (v, tt, k))

piperead-AllSome :
    (n : ℕ) (sleeps : List Sleep) (killed : Bool) (p : Pipe)
    → All Keeps sleeps
    → IsPipe p
    → AllSome (λ (r : Word × List Byte × Pipe). IsPipe r.2) (piperead n sleeps killed p)
unfolding piperead
piperead-AllSome n sleeps killed p k v =
    step (wait_data sleeps killed p) (wait_data-IsWait sleeps killed p k v)
  where
    step :
        (w : Wait)
        → IsWait Any w
        → AllSome
            (λ (r : Word × List Byte × Pipe). IsPipe r.2)
            (elim w [
              | refused p' ↦ some (minus_one, [], p')
              | ready p' killed' sleeps' ↦
                  let (xs, p'') = read_bytes n p' in some (length xs, xs, call wake_writers p'')
              | asleep ↦ none
            ])
    step (refused p') h = h
    step (ready p' killed' sleeps') h =
        called wake_writers (read_bytes n p').1 (read_bytes-contents n p' h.0).2
    step asleep h = tt

-- pipewrite, piperead and pipeclose of a well-formed ring (counters at most 512 bytes apart) leave a
-- well-formed ring on every branch on which they return, if the others do so at every sleep.
pub operations-IsPipe :
    (xs : List Byte) (n : ℕ) (writable : Bool) (sleeps : List Sleep) (killed : Bool) (p : Pipe)
    → All Keeps sleeps
    → IsPipe p
    → AllSome (λ (r : Word × Pipe). IsPipe r.1) (pipewrite xs sleeps killed p)
      × AllSome (λ (r : Word × List Byte × Pipe). IsPipe r.2) (piperead n sleeps killed p)
      × IsPipe (pipeclose writable p)
unfolding pipeclose
operations-IsPipe xs n writable sleeps killed p k v = (
  pipewrite-AllSome xs sleeps killed p k v,
  piperead-AllSome n sleeps killed p k v,
  closed writable,
)
  where
    closed : (w : Bool) → IsPipe (pipeclose w p)
    closed true =
        if_keep IsPipe (not p.readopen && not false) _ _
          (λ _. record { nread = v.nread; nwrite = v.nwrite; room = v.room })
          (λ _. record { nread = v.nread; nwrite = v.nwrite; room = v.room })
    closed false =
        if_keep IsPipe (not false && not p.writeopen) _ _
          (λ _. record { nread = v.nread; nwrite = v.nwrite; room = v.room })
          (λ _. record { nread = v.nread; nwrite = v.nwrite; room = v.room })
