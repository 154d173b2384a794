-- ===== src/Tests/Ftable.antt =====
-- Runs of the model of xv6/kernel/file.c.
use p.Prelude.{ℕ, ◌≡◌, refl, true, false, Option, none, some, [], ◌∷◌, replicate}
use p.Xv6.Outcome.{Outcome, done}
use p.Xv6.Pipe.{Pipe}
use p.Xv6.Ftable.{Files, fd_inode, free_file, filealloc, find_free_file}

abbrev no_pipe : Pipe
no_pipe = record {
  bytes = λ i. 0;
  nread = 0;
  nwrite = 0;
  readopen = false;
  writeopen = false;
  calls = [];
}

-- The first file has a reference, the other 99 have none.
abbrev files : Files
files = record {
  table =
      record {
        type = fd_inode;
        ref = 1;
        readable = true;
        writable = false;
        pipe = 0;
        ip = 0;
        off = 0;
      }
      ∷ replicate 99 free_file;
  pipes = λ i. no_pipe;
  fs = record { drives = λ dev sector a. 0; icache = [] };
}

abbrev index : Outcome (Option ℕ × Files) → Option ℕ
index (done (i, s)) = i
index _ = none

second_file : index (filealloc files) ≡ some 1
unfolding filealloc find_free_file
second_file = refl
