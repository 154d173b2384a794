-- ===== src/Xv6/Pipe/Queue.antt =====
-- pipewrite and piperead (xv6/kernel/pipe.c) against a queue of bytes.
use p.Prelude.{
  ℕ, zero, suc, ◌+◌, ◌≤◌, ◌<◌, ◌≡◌, refl, sym, ap, ◌∙◌, true, false, ◌&&◌, inl, inr, Bool,
  Bool-cases, some, List, [], ◌∷◌, ◌++◌, ◌==◌, length, take, drop, append_assoc, append-nil, arith,
}
use p.Word.{Byte, add32}
use p.Xv6.Pipe.{
  Pipe, Sleep, ready, call, wake_readers, wake_writers, put_byte, skip_byte, next_byte, wait_room,
  wait_data, write_bytes, pipewrite, read_bytes, piperead,
}
use p.Xv6.Pipe.Ring.{IsPipe, count, contents, region, put_byte-contents, skip_byte-contents}

wait_room-ready :
    (sleeps : List Sleep) (killed : Bool) (p : Pipe)
    → IsPipe p
    → count p < 512
    → wait_room sleeps killed p ≡ ready p killed sleeps
unfolding wait_room
wait_room-ready [] killed p v h =
    let open' : (p.nwrite == add32 p.nread 512) ≡ false = ground (arith, v.nread, v.nwrite) in
    rw open' refl
wait_room-ready (z ∷ sleeps) killed p v h =
    let open' : (p.nwrite == add32 p.nread 512) ≡ false = ground (arith, v.nread, v.nwrite) in
    rw open' refl

write_bytes-contents :
    (xs : List Byte) (sleeps : List Sleep) (killed : Bool) (p : Pipe)
    → IsPipe p
    → count p + length xs ≤ 512
    → (q : Pipe) × (write_bytes xs sleeps killed p ≡ some (true, q))
      × IsPipe q
      × (contents q ≡ contents p ++ xs)
unfolding write_bytes
write_bytes-contents [] sleeps killed p v h = (p, refl, v, sym (append-nil (contents p)))
write_bytes-contents (x ∷ xs) sleeps killed p v h =
    let (v1, more, put) = put_byte-contents x p v (omega arith) in
    let (q, run, v2, same) =
      write_bytes-contents xs sleeps killed (put_byte x p) v1 (omega (arith, more)) in
    (
      q,
      rw (write_bytes, wait_room-ready sleeps killed p v (omega arith)) run,
      v2,
      same ∙ ap (λ ys. ys ++ xs) put ∙ append_assoc (contents p) (x ∷ []) xs,
    )

-- pipewrite of bytes for which the ring has room does not sleep: it returns their number, and the
-- queue is then the old one with the bytes at its end.
pub pipewrite-contents :
    (xs : List Byte) (sleeps : List Sleep) (killed : Bool) (p : Pipe)
    → IsPipe p
    → count p + length xs ≤ 512
    → (q : Pipe) × (pipewrite xs sleeps killed p ≡ some (length xs, q))
      × IsPipe q
      × (contents q ≡ contents p ++ xs)
unfolding pipewrite
pipewrite-contents xs sleeps killed p v h =
    let (q, run, v1, same) = write_bytes-contents xs sleeps killed p v h in
    (
      call wake_readers q,
      rw (pipewrite, run) refl,
      record { nread = v1.nread; nwrite = v1.nwrite; room = v1.room },
      same,
    )

pub read_bytes-contents :
    (n : ℕ) (p : Pipe)
    → IsPipe p
    → ((read_bytes n p).0 ≡ take n (contents p))
      × (contents (read_bytes n p).1 ≡ drop n (contents p))
      × IsPipe (read_bytes n p).1
unfolding read_bytes
read_bytes-contents zero p v = (refl, refl, v)
read_bytes-contents (suc n) p v = elim (Bool-cases (p.nread == p.nwrite)) [
  | inl empty ↦
      let nothing : count p ≡ 0 = ground (arith, v.nread, v.nwrite) in
      let none_left : contents p ≡ [] = unfold region in ap (region p.bytes p.nread) nothing in
      rw (empty, none_left) (refl, refl, v)
  | inr some_left ↦
      let (v1, less, first) = skip_byte-contents p v (ground arith) in
      let (got, left, v2) = read_bytes-contents n (skip_byte p) v1 in
      rw (some_left, first) (ap (λ xs. next_byte p ∷ xs) got, left, v2)
]

wait_data-ready :
    (sleeps : List Sleep) (killed : Bool) (p : Pipe)
    → (p.nread == p.nwrite && p.writeopen) ≡ false
    → wait_data sleeps killed p ≡ ready p killed sleeps
unfolding wait_data
wait_data-ready [] killed p h = rw h refl
wait_data-ready (z ∷ sleeps) killed p h = rw h refl

-- piperead of a pipe that is not empty, or whose write end is closed, does not sleep: it gives the
-- first n bytes of the queue, or all of them where there are fewer, returns their number, and leaves
-- the rest.
pub piperead-contents :
    (n : ℕ) (sleeps : List Sleep) (killed : Bool) (p : Pipe)
    → IsPipe p
    → (p.nread == p.nwrite && p.writeopen) ≡ false
    → (q : Pipe) × (piperead n sleeps killed p
        ≡ some (length (take n (contents p)), take n (contents p), q))
      × IsPipe q
      × (contents q ≡ drop n (contents p))
unfolding piperead
piperead-contents n sleeps killed p v h =
    let (got, left, v1) = read_bytes-contents n p v in
    (
      call wake_writers (read_bytes n p).1,
      rw (piperead, wait_data-ready sleeps killed p h)
          (ap (λ xs. some (length xs, xs, call wake_writers (read_bytes n p).1)) got),
      record { nread = v1.nread; nwrite = v1.nwrite; room = v1.room },
      left,
    )
