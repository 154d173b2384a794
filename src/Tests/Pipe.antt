-- ===== src/Tests/Pipe.antt =====
-- xv6/kernel/pipe.c at fixed inputs, and the theorems on it.
use p.Prelude.{◌≡◌, refl, true, false, some, List, [], ◌∷◌, ◌++◌, length, take, drop, arith}
use p.Word.{Byte, Word, minus_one}
use p.Xv6.Pipe.{Pipe, Sleep, pipewrite, piperead, pipeclose, wake_writers, free_pipe}
use p.Xv6.Pipe.Ring.{IsPipe, contents}
use p.Xv6.Pipe.Queue.{pipewrite-contents, piperead-contents}
use p.Xv6.Pipe.Sleeps.{AllSome, operations-IsPipe}

-- An empty pipe whose counters are about to wrap round.
abbrev pipe : Pipe
pipe = record {
  bytes = λ _. 0;
  nread = minus_one;
  nwrite = minus_one;
  readopen = true;
  writeopen = true;
  calls = [];
}

abbrev three : List Byte
three = 1 ∷ 2 ∷ 3 ∷ []

pipe-IsPipe : IsPipe pipe
pipe-IsPipe = record { nread = omega arith; nwrite = omega arith; room = omega arith }

abbrev half_closed : Pipe
half_closed = record pipe { nread = 4294967294; writeopen = false }

half_closed-IsPipe : IsPipe half_closed
half_closed-IsPipe = record { nread = omega arith; nwrite = omega arith; room = omega arith }

close_runs : (pipeclose false half_closed).calls ≡ free_pipe ∷ wake_writers ∷ []
unfolding pipeclose
close_runs = refl

pipewrite-contents_example :
    (q : Pipe) × (pipewrite three [] false pipe ≡ some (length three, q))
    × IsPipe q
    × (contents q ≡ contents pipe ++ three)
pipewrite-contents_example = pipewrite-contents three [] false pipe pipe-IsPipe (omega arith)

piperead-contents_example :
    (q : Pipe) × (piperead 5 [] false half_closed
      ≡ some (length (take 5 (contents half_closed)), take 5 (contents half_closed), q))
    × IsPipe q
    × (contents q ≡ drop 5 (contents half_closed))
piperead-contents_example = piperead-contents 5 [] false half_closed half_closed-IsPipe refl

abbrev nap : Sleep
nap = record { others = λ p. p; killed = true }

operations-IsPipe_example :
    AllSome (λ (r : Word × Pipe). IsPipe r.1) (pipewrite (7 ∷ []) (nap ∷ []) false pipe)
    × AllSome (λ (r : Word × List Byte × Pipe). IsPipe r.2) (piperead 2 (nap ∷ []) false pipe)
    × IsPipe (pipeclose true pipe)
operations-IsPipe_example =
    operations-IsPipe (7 ∷ []) 2 true (nap ∷ []) false pipe ((λ p v. v), tt) pipe-IsPipe
